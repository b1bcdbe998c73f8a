-- ===== src/Yamal/Init.antt =====
-- src/ytp/yamal.c: how a process opens a file. The mutexes and the condition variable are taken
-- to be created without an error.
pub mod Laws
use yamal.Base.{Bool, false, if◌then◌else◌, suc, true, zero, ℕ, ◌-◌, ◌==◌}
use yamal.Yamal.Pages.{mmlist_pages_allocation, ytp_yamal_header}
use yamal.Yamal.Reserve.{set_reserved}
use yamal.Yamal.State.{
  M, Yamal, closable_mismatch, err, fail, hdr_size, head, invalid_format, lists, modify, ok,
  on_error, put_node, require, thread_failed, ◌>>=◌, ◌>>◌,
}

-- `magic_number`, "YAMAL001" as a little-endian word.
abbrev pub magic_number : ℕ
magic_number = 0x3130304c414d4159

-- `atomic_expect_or_init(a, d)` on a field with a given value: the new value, and whether the field
-- now holds `d`.
pub expect_or_init : ℕ → ℕ → ℕ × Bool
expect_or_init actual desired = if actual == 0 then (desired, true) else (actual, actual == desired)

abbrev pub init_magic : M (Unit {0})
init_magic y =
    let (v, fine) = expect_or_init y.magic magic_number in
    require fine invalid_format (record y { file = record y.file { magic = v } })

abbrev pub init_reserved : M (Unit {0})
init_reserved = modify λ y. set_reserved (expect_or_init y.reserved hdr_size).0 y

-- An empty list's last node is its head.
abbrev pub init_list : ℕ → M (Unit {0})
init_list lstidx = modify λ y.
    put_node (head lstidx)
      (record (y.node (head lstidx)) {
        prev = (expect_or_init (y.node (head lstidx)).prev (head lstidx)).0;
      })
      y

-- The lists from `lists - n` on.
pub init_lists : ℕ → M (Unit {0})
init_lists zero y = (ok tt, y)
init_lists (suc n) y = (do init_list (lists - suc n); init_lists n) y

abbrev pub init_closable : ℕ → M (Unit {0})
init_closable mode y =
    let (v, fine) = expect_or_init y.closable mode in
    require fine closable_mismatch (record y { file = record y.file { closable = v } })

abbrev pub start_thread : Bool → M (Unit {0})
start_thread enable y =
    if enable
    then (if y.os.thread then (ok tt, record y { thread_created = true }) else fail thread_failed y)
    else (ok tt, y)

-- A reader checks the magic number and nothing else; a writer fills in what is missing.
pub init_body : Bool → ℕ → M (Unit {0})
unfolding expect_or_init init_lists
init_body enable_thread mode y =
    if y.readonly
    then require (y.magic == magic_number) invalid_format y
    else (do
      init_magic
      init_reserved
      init_lists lists
      init_closable mode
      mmlist_pages_allocation
      start_thread enable_thread)
        y

-- Without errors of the operating system.
pub ytp_yamal_destroy : Yamal → Yamal
ytp_yamal_destroy y = record y { pages = λ p. false; thread_created = false }

pub ytp_yamal_init_3 : Bool → ℕ → M (Unit {0})
unfolding init_body ytp_yamal_destroy
ytp_yamal_init_3 enable_thread mode = do
  modify λ y. record y { pages = λ p. false; thread_created = false }
  _ ← ytp_yamal_header
  on_error (init_body enable_thread mode) λ e y. (err e, ytp_yamal_destroy y)
