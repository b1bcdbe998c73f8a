-- ===== src/Control/Search.antt =====
-- What every call of a predicate keeps, a search through the announcements keeps.
use yamal.Base.{Bool-cases, inl, inr, suc, zero, ℕ}
use yamal.Streams.Search.{
  AnnData, PredResult, Predicate, after_pred, after_read, ann_data, in_file, pred_continue,
  pred_done, pred_rollback, step, ytp_streams_search_ann,
}
use yamal.Streams.State.{Streams}
use yamal.Yamal.Iter.{ytp_yamal_term}
use yamal.Yamal.State.{Result, err, hang, ok}

module _ {A : Type 0} (predicate : Predicate A) (P : A → Type 0)
    (keeps : (c : A) (a : AnnData) (s : Streams) → P c → P (predicate c a s).1) where
  after_read-keeps :
      (r : Result AnnData × Streams) (c : A) (k : AnnData → Result (Unit {0}) × A × Streams)
      → P c
      → ((a : AnnData) → P (k a).1)
      → P (after_read r c k).1
  after_read-keeps (ok a, s) c k p q = q a
  after_read-keeps (err e, s) c k p q = p
  after_read-keeps (hang, s) c k p q = p

  after_pred-keeps :
      (r : Result PredResult × A × Streams) (moved : Result (Unit {0}) × Streams)
      (rest : Result (Unit {0}) × A × Streams)
      → P r.1
      → P rest.1
      → P (after_pred r moved rest).1
  after_pred-keeps (err e, c, s) moved rest p q = p
  after_pred-keeps (hang, c, s) moved rest p q = p
  after_pred-keeps (ok pred_rollback, c, s) moved rest p q = p
  after_pred-keeps (ok pred_done, c, s) (r, s') rest p q = p
  after_pred-keeps (ok pred_continue, c, s) (ok u, s') rest p q = q
  after_pred-keeps (ok pred_continue, c, s) (err e, s') rest p q = p
  after_pred-keeps (ok pred_continue, c, s) (hang, s') rest p q = p

  pub ytp_streams_search_ann-keeps :
      (fuel : ℕ) (c : A) (s : Streams) → P c → P (ytp_streams_search_ann fuel predicate c s).1
  unfolding ytp_streams_search_ann
  ytp_streams_search_ann-keeps zero c s p = p
  ytp_streams_search_ann-keeps (suc fuel) c s p =
      let a = in_file (ann_data s.iterator) s in
      elim (Bool-cases (ytp_yamal_term s.iterator s.yamal)) [
        | inl t ↦ rw t p
        | inr f ↦ rw f (
            after_read-keeps a c _ p λ item.
              let q = predicate c item a.1 in
              after_pred-keeps q (step q.2) _ (keeps c item a.1 p)
                (ytp_streams_search_ann-keeps fuel q.1 (step q.2).1 (keeps c item a.1 p)))
      ]
