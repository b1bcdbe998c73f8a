-- ===== src/Yamal/State.antt =====
-- include/ytp/yamal.h and the `fmc_error_t **` protocol of src/ytp/*.c: the file that the
-- processes share, one process's handle on it, and the result of a call.
-- A pointer into the mapped file is the offset that it points at.
use yamal.Base.{ℕ, ◌+◌, ◌*◌, ◌^◌, Bool, if◌then◌else◌, ◌==◌, Option}

-- The messages of `FMC_ERROR_REPORT` and `fmc_error_set`. `fault` is undefined behaviour (an index
-- out of `pages_`), and `os` an error of the operating system's own.
pub data Error : Type 0 where
  os_error mutex_lock mutex_unlock unexpected_eof mmap_failed page_out_of_range fault : Error
  invalid_format closable_mismatch thread_failed : Error
  size_is_zero readonly_reserve init_node closed readonly_close not_closable : Error
  peer_too_long channel_too_long invalid_announcement invalid_subscription invalid_index : Error
  readonly_subscription no_write_access : Error
  encoding_mismatch readonly_announce invalid_stream : Error
  peer_not_found channel_not_found not_supported : Error
  invalid_peer invalid_channel : Error

-- How a call ends: with a value, with `*error` set, or not within the fuel that it was given.
pub data Result (A : Type 0) : Type 0 where
  ok : A → Result A
  err : Error → Result A
  hang : Result A

-- `struct ytp_mmnode`, without its payload.
pub record Node : Type 0 where
  pub size : ℕ
  pub next : ℕ
  pub prev : ℕ
  pub seqno : ℕ

-- What the operating system answers: the file's length after `fmc_falloc` (`none` if it fails),
-- whether `fmc_fview_init` succeeds for a page and gives an address, and whether the locks and
-- the creation of a thread succeed.
pub record Os : Type 0 where
  pub falloc : ℕ → ℕ → Option ℕ
  pub fview_init : ℕ → Bool
  pub fview_data : ℕ → Bool
  pub lock : Bool
  pub unlock : Bool
  pub thread : Bool

-- `struct ytp_hdr`, the node headers by their offset (the list heads `hdr[i]` among them), the
-- payload bytes by their offset, and the length of the file.
pub record File : Type 0 where
  pub magic : ℕ
  pub reserved : ℕ
  pub closable : ℕ
  pub node : ℕ → Node
  pub byte : ℕ → ℕ
  pub len : ℕ

-- `struct ytp_yamal`: `pages` tells which entries of `pages_` hold an address.
pub record Yamal : Type 0 where
  pub os : Os
  pub readonly : Bool
  pub pages : ℕ → Bool
  pub thread_created : Bool
  pub file : File
  pub open file use {magic, reserved, closable, node, byte, len}

-- A call may change the state also when it fails.
abbrev pub M : Type 0 → Type 0
M A = Yamal → Result A × Yamal

abbrev pub pure : {A : Type 0} → A → M A
pure a y = (ok a, y)

abbrev pub fail : {A : Type 0} → Error → M A
fail e y = (err e, y)

abbrev pub diverge : {A : Type 0} → M A
diverge y = (hang, y)

abbrev pub and_then : {A B : Type 0} → Result A × Yamal → (A → M B) → Result B × Yamal
and_then (ok a, y) f = f a y
and_then (err e, y) f = (err e, y)
and_then (hang, y) f = (hang, y)

infixl 5 ◌>>=◌ ◌>>◌
abbrev pub ◌>>=◌ : {A B : Type 0} → M A → (A → M B) → M B
◌>>=◌ m f y = and_then (m y) f

abbrev pub ◌>>◌ : {B : Type 0} → M (Unit {0}) → M B → M B
m >> k = m >>= λ _. k

-- `if (!test) { FMC_ERROR_REPORT(error, e); return; }`
abbrev pub require : Bool → Error → M (Unit {0})
require test e y = if test then (ok tt, y) else (err e, y)

abbrev pub handle : {A : Type 0} → Result A × Yamal → (Error → M A) → Result A × Yamal
handle (ok a, y) h = (ok a, y)
handle (err e, y) h = h e y
handle (hang, y) h = (hang, y)

-- What a caller does when a call has set its error.
abbrev pub on_error : {A : Type 0} → M A → (Error → M A) → M A
on_error m h y = handle (m y) h

-- A read of the state.
abbrev pub gets : {A : Type 0} → (Yamal → A) → M A
gets f y = (ok (f y), y)

abbrev pub modify : (Yamal → Yamal) → M (Unit {0})
modify f y = (ok tt, f y)

-- `size_t` and `uint64_t` wrap at 2 ^ 64.
abbrev pub word : ℕ
word = 2 ^ 64

-- YTP_MMLIST_PAGE_SIZE, YTP_MMLIST_PREALLOC_SIZE and YTP_MMLIST_PAGE_COUNT_MAX.
abbrev pub page_size : ℕ
page_size = 8388608

abbrev pub prealloc_size : ℕ
prealloc_size = 3145728

abbrev pub page_count_max : ℕ
page_count_max = 524288

-- sizeof(struct ytp_mmnode), sizeof(struct ytp_hdr), YTP_YAMAL_LISTS.
abbrev pub node_header : ℕ
node_header = 32

abbrev pub hdr_size : ℕ
hdr_size = 536

abbrev pub lists : ℕ
lists = 16

-- The offset of `hdr[lstidx]`.
abbrev pub head : ℕ → ℕ
head lstidx = 16 + 32 * lstidx

-- A write to the node at an offset.
abbrev pub update : (ℕ → Node) → ℕ → Node → ℕ → Node
update f o n p = if o == p then n else f p

abbrev pub put_node : ℕ → Node → Yamal → Yamal
put_node o n y = record y { file = record y.file { node = update y.node o n } }

abbrev pub set_next : ℕ → ℕ → M (Unit {0})
set_next o v = modify λ y. put_node o (record (y.node o) { next = v }) y

abbrev pub set_prev : ℕ → ℕ → M (Unit {0})
set_prev o v = modify λ y. put_node o (record (y.node o) { prev = v }) y

abbrev pub set_seqno : ℕ → ℕ → M (Unit {0})
set_seqno o v = modify λ y. put_node o (record (y.node o) { seqno = v }) y

abbrev pub set_size : ℕ → ℕ → M (Unit {0})
set_size o v = modify λ y. put_node o (record (y.node o) { size = v }) y
