-- ===== src/Yamal/Reserve.antt =====
-- src/ytp/yamal.c, ytp_yamal_reserve: space for a message is taken by an atomic add to the size
-- in the file's header. include/fmc/alignment.h rounds sizes up to the machine word.
pub mod Bounds
use yamal.Base.{if◌then◌else◌, leb, ltb, not, suc, zero, ℕ, ◌%◌, ◌&&◌, ◌+◌, ◌-◌, ◌==◌}
use yamal.Yamal.Pages.{mmnode_from_offset, ytp_yamal_header}
use yamal.Yamal.State.{
  M, Yamal, fail, gets, hang, init_node, modify, node_header, ok, on_error, page_size, pure,
  readonly_reserve, require, set_prev, set_size, size_is_zero, word, ◌>>=◌, ◌>>◌,
}

abbrev pub set_reserved : ℕ → Yamal → Yamal
set_reserved n y = record y { file = record y.file { reserved = n } }

-- `memset(data, 0, sz)`.
abbrev pub clear_bytes : ℕ → ℕ → Yamal → Yamal
clear_bytes p sz y = record y {
  file = record y.file { byte = λ a. if leb p a && ltb a (p + sz) then 0 else y.file.byte a };
}

-- `(s & ~7) + 8 * !!(s & 7)`.
unfoldable pub fmc_wordceil : ℕ → ℕ
fmc_wordceil s = (s - s % 8 + (if s % 8 == 0 then 0 else 8)) % word

-- The loop around `atomic_fetch_add`: a node that would cross the end of its page is given up, and
-- the next one is tried.
pub reserve_loop : ℕ → ℕ → M ℕ
reserve_loop zero node_size y = (hang, y)
reserve_loop (suc fuel) node_size y =
    let old = y.reserved in
    let y' = set_reserved ((old + node_size) % word) y in
    let rest = reserve_loop fuel node_size y' in
    if ltb page_size ((old % page_size + node_size) % word) then rest else (ok old, y')

-- An error of the mapping is reported as another one.
pub node_or_fail : ℕ → M ℕ
node_or_fail offs = on_error (mmnode_from_offset offs) λ _. fail init_node

-- The new node: its payload is cleared, and `prev` is its own offset until it is committed.
pub init_node_at : ℕ → ℕ → M ℕ
init_node_at offs sz = do
  modify (clear_bytes (offs + node_header) sz)
  set_size offs sz
  set_prev offs offs
  pure (offs + node_header)

pub ytp_yamal_reserve : ℕ → ℕ → M ℕ
ytp_yamal_reserve fuel sz = do
  require (not (sz == 0)) size_is_zero
  readonly ← gets λ y. y.readonly
  require (not readonly) readonly_reserve
  _ ← ytp_yamal_header
  offs ← reserve_loop fuel (fmc_wordceil ((node_header + sz) % word))
  _ ← node_or_fail offs
  init_node_at offs sz
