-- ===== src/Streams/Search.antt =====
-- src/ytp/streams.c: the search through the announcements.
use yamal.Base.{if◌then◌else◌, suc, zero, ℕ}
use yamal.Message.Announcement.{Announcement, ytp_announcement_read}
use yamal.Streams.State.{Streams}
use yamal.Yamal.Iter.{ytp_yamal_next, ytp_yamal_tell, ytp_yamal_term}
use yamal.Yamal.State.{M, Result, err, hang, ok, pure, ◌>>=◌}

-- `enum ytp_streams_pred_result`.
pub data PredResult : Type 0 where
  pred_continue pred_rollback pred_done : PredResult

-- `struct ytp_streams_anndata_t`.
pub record AnnData : Type 0 where
  pub ann : Announcement
  pub stream : ℕ

-- A predicate with its closure `c`: it may set an error, and changes the closure and the streams.
abbrev pub Predicate : Type 0 → Type 0
Predicate A = A → AnnData → Streams → Result PredResult × A × Streams

abbrev pub in_file : {A : Type 0} → M A → Streams → Result A × Streams
in_file m s = let (r, y) = m s.yamal in (r, record s { yamal = y })

-- The read of the announcement at the iterator, with its offset.
unfoldable pub ann_data : ℕ → M AnnData
ann_data it = do
  ann ← ytp_announcement_read it
  stream ← ytp_yamal_tell it
  pure (record { ann = ann; stream = stream })

-- The step behind an announcement that was not rolled back.
unfoldable pub step : Streams → Result (Unit {0}) × Streams
step s =
    let (r, y) = ytp_yamal_next s.iterator s.yamal in
    elim r [
      | ok it ↦ (ok tt, record s { yamal = y; iterator = it })
      | err e ↦ (err e, record s { yamal = y })
      | hang ↦ (hang, record s { yamal = y })
    ]

-- Where the read of an announcement failed, the search ends.
abbrev pub after_read :
    {A : Type 0}
    → Result AnnData × Streams
    → A
    → (AnnData → Result (Unit {0}) × A × Streams)
    → Result (Unit {0}) × A × Streams
after_read (ok a, s) c k = k a
after_read (err e, s) c k = (err e, c, s)
after_read (hang, s) c k = (hang, c, s)

-- What the predicate returned, the step behind the announcement, and the rest of the search.
abbrev pub after_pred :
    {A : Type 0}
    → Result PredResult × A × Streams
    → Result (Unit {0}) × Streams
    → Result (Unit {0}) × A × Streams
    → Result (Unit {0}) × A × Streams
after_pred (err e, c, s) moved rest = (err e, c, s)
after_pred (hang, c, s) moved rest = (hang, c, s)
after_pred (ok pred_rollback, c, s) moved rest = (ok tt, c, s)
after_pred (ok pred_done, c, s) (r, s') rest = (r, c, s')
after_pred (ok pred_continue, c, s) (ok u, s') rest = rest
after_pred (ok pred_continue, c, s) (err e, s') rest = (err e, c, s')
after_pred (ok pred_continue, c, s) (hang, s') rest = (hang, c, s')

-- `ytp_streams_search_ann` on the iterator of the streams.
unfoldable pub ytp_streams_search_ann :
    {A : Type 0} → ℕ → Predicate A → A → Streams → Result (Unit {0}) × A × Streams
unfolding ann_data step
ytp_streams_search_ann zero predicate c s = (hang, c, s)
ytp_streams_search_ann (suc fuel) predicate c s =
    let a = in_file (ann_data s.iterator) s in
    let rest = λ (item : AnnData).
      let p = predicate c item a.1 in
      let moved = step p.2 in
      after_pred p moved (ytp_streams_search_ann fuel predicate p.1 moved.1) in
    if ytp_yamal_term s.iterator s.yamal then (ok tt, c, s) else after_read a c rest
