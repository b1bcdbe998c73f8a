-- ===== src/Yamal/Close.antt =====
-- src/ytp/yamal.c: a list is closed by linking its end to its own head.
pub mod Laws
use yamal.Base.{Bool, Option, false, if◌then◌else◌, none, not, some, suc, true, zero, ℕ, ◌==◌}
use yamal.Yamal.Commit.{cas_next}
use yamal.Yamal.Pages.{mmnode_from_offset, ytp_yamal_header}
use yamal.Yamal.State.{
  M, gets, hang, head, not_closable, ok, pure, readonly_close, require, ◌>>=◌, ◌>>◌,
}

-- YTP_CLOSABLE and YTP_UNCLOSABLE.
abbrev pub ytp_closable : ℕ
ytp_closable = 1

abbrev pub ytp_unclosable : ℕ
ytp_unclosable = 2

-- The inner loop of `ytp_yamal_close` and the loop of `ytp_yamal_closed`: `none` if the list is
-- closed already, otherwise its last node.
pub seek_end : ℕ → ℕ → ℕ → M (Option ℕ)
seek_end zero closing at y = (hang, y)
seek_end (suc fuel) closing at y =
    let next = (y.node at).next in
    let rest = (do _ ← mmnode_from_offset next; seek_end fuel closing next) y in
    if next == 0 then (ok (some at), y) else if next == closing then (ok none, y) else rest

-- When the exchange fails the search starts again at the node that was found there.
pub close_loop : ℕ → ℕ → ℕ → ℕ → M (Unit {0})
unfolding seek_end
close_loop zero fuel closing next_ptr y = (hang, y)
close_loop (suc tries) fuel closing next_ptr y =
    (do
      _ ← mmnode_from_offset next_ptr
      found ← seek_end fuel closing next_ptr
      elim found [
        | none ↦ pure tt
        | some last ↦ do
          r ← cas_next last 0 closing
          let again = close_loop tries fuel closing r.1
          if r.0 then pure tt else again
      ])
      y

pub ytp_yamal_close : ℕ → ℕ → M (Unit {0})
unfolding close_loop
ytp_yamal_close fuel lstidx = do
  readonly ← gets λ y. y.readonly
  require (not readonly) readonly_close
  _ ← ytp_yamal_header
  mode ← gets λ y. y.closable
  require (mode == ytp_closable) not_closable
  last ← gets λ y. (y.node (head lstidx)).prev
  close_loop fuel fuel (head lstidx) last

pub ytp_yamal_closed : ℕ → ℕ → M Bool
unfolding seek_end
ytp_yamal_closed fuel lstidx = do
  _ ← ytp_yamal_header
  last ← gets λ y. (y.node (head lstidx)).prev
  _ ← mmnode_from_offset last
  found ← seek_end fuel (head lstidx) last
  pure (elim found [ none ↦ true | some at ↦ false ])

pub ytp_yamal_closable : M Bool
ytp_yamal_closable = do _ ← ytp_yamal_header; gets λ y. y.closable == ytp_closable
