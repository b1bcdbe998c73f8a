-- ===== src/Control/Walk.antt =====
-- src/ytp/control.cpp: the walk over the announcements of a file, where it has nothing to read, and where
-- it reads one that is new.
use yamal.Base.{
  Bool-cases, List, [], ap, append-nil, arith, false, inl, inr, last_of, ltb, refl, some, store_le,
  subst, suc, sym, true, ℕ, ◌+◌, ◌==◌, ◌∙◌, ◌≡◌, ◌⊎◌,
}
use yamal.Control.Decl.{is_found, none64}
use yamal.Control.Messages.{
  Control, Handler, control_pred, names_of, process_control_msgs, processed, searched,
}
use yamal.Control.Registry.{NamedStream, OnStream, Registry, process_ann}
use yamal.Control.Tables.{registered}
use yamal.Message.Announcement.{Announcement, ytp_announcement_read}
use yamal.Message.Fields.{load64, stream_list_anns}
use yamal.Streams.Search.{
  AnnData, PredResult, after_pred, after_read, ann_data, in_file, pred_done, pred_rollback, step,
  ytp_streams_search_ann,
}
use yamal.Streams.State.{Streams}
use yamal.Yamal.Chain.{Nexts, Nexts-drop}
use yamal.Yamal.Iter.{ytp_yamal_next, ytp_yamal_tell, ytp_yamal_term}
use yamal.Yamal.Iter.Laws.{ytp_yamal_term_lem}
use yamal.Yamal.Publish.{IsFile, with_bytes}
use yamal.Yamal.State.{Result, Yamal, hdr_size, head, ok}

-- The walk has come to the end of the announcements `os` of the file.
pub record IsAtEnd (c : Control) (os : List ℕ) : Type 0 where
  pub file : IsFile c.yamal stream_list_anns os
  pub at_end : c.anns ≡ last_of (head stream_list_anns) os + 8

-- The offset of the announcement that is written next.
abbrev pub next_stream : List ℕ → ℕ
next_stream os = last_of (head stream_list_anns) os

-- At the end there is nothing to read.
pub term_at_end :
    (y : Yamal) (os : List ℕ)
    → IsFile y stream_list_anns os
    → ytp_yamal_term (next_stream os + 8) y ≡ true
term_at_end y os v =
    let q = Nexts-drop y.pages y.node (head stream_list_anns) os [] 0 (
      subst (λ l. Nexts y.pages y.node (head stream_list_anns) l 0) (sym (append-nil os))
        v.open'.list.nexts) in
    ytp_yamal_term_lem y (next_stream os) ∙ ap (λ n. ltb n hdr_size) q

module _ (h : Handler ℕ) (finds : (r : Registry) (k : ℕ) → h.found r k ≡ is_found k) where
  -- The first walk changes nothing there.
  pub process_at_end :
      (fuel : ℕ) (c : Control) (os : List ℕ)
      → IsAtEnd c os
      → process_control_msgs (suc fuel) h none64 c ≡ (ok tt, none64, c)
  unfolding process_control_msgs ytp_streams_search_ann
  process_at_end fuel c os v =
      let missing : h.found c.registry none64 ≡ false = finds c.registry none64 in
      let done : ytp_yamal_term c.anns c.yamal ≡ true =
        ap (λ it. ytp_yamal_term it c.yamal) v.at_end ∙ term_at_end c.yamal os v.file in
      rw (missing, done) refl

  -- An announcement of the names `a`, not settled, at the iterator `c.anns`, for which the handler is
  -- called.
  module _ (c : Control) (ann : Announcement) (stream it' : ℕ) (call : OnStream)
      (more : ytp_yamal_term c.anns c.yamal ≡ false)
      (reads : ytp_announcement_read c.anns c.yamal ≡ (ok ann, c.yamal))
      (tells : ytp_yamal_tell c.anns c.yamal ≡ (ok stream, c.yamal))
      (next : (b : ℕ → ℕ)
        → ytp_yamal_next c.anns (with_bytes b c.yamal) ≡ (ok it', with_bytes b c.yamal))
      (blank : load64 ann.original c.yamal ≡ 0) where
    abbrev item : AnnData
    item = record { ann = ann; stream = stream }

    abbrev names : NamedStream
    names = names_of item c.yamal

    abbrev before : Registry
    before = processed ann.seqno c.registry

    ann_data_lem : in_file (ann_data c.anns) (searched c) ≡ (ok item, searched c)
    unfolding ann_data
    ann_data_lem = rw (reads, tells) refl

    step_lem : (b : ℕ → ℕ) → (step (record (searched c) { yamal = with_bytes b c.yamal })).0 ≡ ok tt
    unfolding step
    step_lem b = rw (next b, step) refl

    module _ (it_called : (process_ann names before).1 ≡ some call)
        (hit : is_found (h.on_stream call none64) ≡ true) where
      abbrev k : ℕ
      k = h.on_stream call none64

      abbrev Ends : Result PredResult × (Registry × ℕ) × Streams → Type 0
      Ends r =
          (r ≡ (ok pred_rollback, (registered names before, k), searched c))
          ⊎ ((b : ℕ → ℕ) × (r ≡ (
            ok pred_done,
            (registered names before, k),
            record (searched c) { yamal = with_bytes b c.yamal },
          )))

      pred_lem : Ends (control_pred h (c.registry, none64) item (searched c))
      unfolding control_pred
      pred_lem =
          let f : h.found (registered names before) k ≡ true =
            finds (registered names before) k ∙ hit in
          elim (Bool-cases (0 == (process_ann names before).0)) [
            | inl t ↦ inr (c.yamal.byte, ground (arith, blank, it_called, f, t))
            | inr t ↦ elim (Bool-cases c.yamal.readonly) [
              | inl u ↦ inl (ground (arith, blank, it_called, f, t, u))
              | inr u ↦ inr (
                store_le 8 ann.original (process_ann names before).0 c.yamal.byte,
                ground (arith, blank, it_called, f, t, u),
              )
            ]
          ]

      abbrev Found : ℕ → Type 0
      Found fuel =
          (c' : Control) × (process_control_msgs fuel h none64 c ≡ (ok tt, k, c'))
          × (c'.registry ≡ registered names before)

      abbrev Outcome : Type 0
      Outcome = Result (Unit {0}) × (Registry × ℕ) × Streams

      after_pred_lem :
          (r : Result PredResult × (Registry × ℕ) × Streams) (rest : Outcome)
          → Ends r
          → (s : Streams) × (after_pred r (step r.2) rest
              ≡ (ok tt, (registered names before, k), s))
      after_pred_lem r rest (inl q) = (searched c, rw q refl)
      after_pred_lem r rest (inr (b, q)) =
          let t = record (searched c) { yamal = with_bytes b c.yamal } in
          ((step t).1, rw (q, step_lem b) refl)

      after_read_lem :
          (r : Result AnnData × Streams) (rest : AnnData → Outcome)
          → r.0 ≡ ok item
          → after_read r (c.registry, none64) rest ≡ rest item
      after_read_lem r rest q = rw q refl

      -- The search ends there, without an error.
      search_lem :
          (fuel : ℕ)
          → (s : Streams) × (ytp_streams_search_ann
                (suc fuel)
                (control_pred h)
                (c.registry, none64)
                (searched c)
              ≡ (ok tt, (registered names before, k), s))
      unfolding ytp_streams_search_ann
      search_lem fuel =
          let a = in_file (ann_data c.anns) (searched c) in
          let p : AnnData → Result PredResult × (Registry × ℕ) × Streams =
            λ x. control_pred h (c.registry, none64) x a.1 in
          let rest : AnnData → Outcome =
            λ x. ytp_streams_search_ann fuel (control_pred h) (p x).1 (step (p x).2).1 in
          let ends =
            subst (λ t. Ends (control_pred h (c.registry, none64) item t))
              (sym (ap (λ z. z.1) ann_data_lem)) pred_lem in
          let (s, q) = after_pred_lem (p item) (rest item) ends in
          let read =
            after_read_lem a (λ x. after_pred (p x) (step (p x).2) (rest x))
              (ap (λ z. z.0) ann_data_lem) in
          (s, rw more (read ∙ q))

      pub process_new : (fuel : ℕ) → Found (suc fuel)
      unfolding process_control_msgs
      process_new fuel =
          let (s, q) = search_lem fuel in
          let missing : h.found c.registry none64 ≡ false = finds c.registry none64 in
          (
            record { yamal = s.yamal; anns = s.iterator; registry = registered names before },
            rw (missing, q) refl,
            refl,
          )
