-- ===== src/Yamal/Race/Moves.antt =====
-- What one turn of a process does: the turns that read, and those that write the process's own nodes.
use yamal.Base.{
  Apart, Bool, Disjoint, List, [], ap, append-nil, append_assoc, arith, inl, inr, refl, subst, sym,
  ℕ, ◌++◌, ◌∙◌, ◌∷◌, ◌≡◌,
}
use yamal.Cursor.Array.{same}
use yamal.Yamal.Chain.{Nexts, Nexts-drop}
use yamal.Yamal.Close.Laws.{sealed}
use yamal.Yamal.Race.{
  Nodes, Pc, advance, follow_step, following, found, loaded, read_step, reading, refused, returned,
  sealing, seek_step, seeking, shut, start, to_close, walk_step, walking,
}
use yamal.Yamal.Race.Frame.{Counts-IsSame, Effect, IsSame, IsSame-Apart, Nexts-IsSame, Prevs-IsSame}
use yamal.Yamal.Race.Inv.{IsLocal, IsShared, Log, LogStep, stay}
use yamal.Yamal.Race.Spot.{IsAt-Apart, last-snoc, next_of}
use yamal.Yamal.State.{Node}

-- After a turn with the result `r`, the list is a log again, the process knows where it stands, and the
-- others are not disturbed.
module _ (pages : ℕ → Bool) (n : Nodes) (h : ℕ) (log : Log) (xs : List ℕ) where
  pub record Moved (r : Pc × Nodes) : Type 0 where
    pub log' : Log
    pub step : LogStep h xs log log'
    pub effect : Effect n r.1 h log log' xs
    pub shared : IsShared pages r.1 h log'
    pub local : IsLocal pages r.1 h log' xs r.0

  -- Only the fields `prev` and `seqno` of an own node are written, or nothing.
  pub Effect-own :
      (n' : Nodes)
      → ((p : ℕ) → Apart p xs → n' p ≡ n p)
      → Disjoint (h ∷ log.os) xs
      → Effect n n' h log log xs
  Effect-own n' same d = record {
    elsewhere = λ p a b. same p a;
    seqno = λ at a. ap (λ (k : Node). k.seqno) (same at (IsAt-Apart h log.os xs at a d));
    grown = [];
    grows = sym (append-nil log.os);
    from = inl refl;
    ended = λ e. e;
  }

  pub IsShared-own :
      (n' : Nodes)
      → ((p : ℕ) → Apart p xs → n' p ≡ n p)
      → Disjoint (h ∷ log.os) xs
      → IsShared pages n h log
      → IsShared pages n' h log
  IsShared-own n' same d s =
      let same' : IsSame n n' (h ∷ log.os) = IsSame-Apart n n' xs (h ∷ log.os) same d in
      record {
        low = s.low;
        nonzero = s.nonzero;
        nexts = Nexts-IsSame pages n n' h log.os log.fin same' s.nexts;
        prevs = Prevs-IsSame n n' h log.os same'.1 s.prevs;
        counts = Counts-IsSame n n' h log.os (ap (λ (k : Node). k.seqno) same'.0) same'.1 s.counts;
        ended = s.ended;
        hint = (s.hint.0, s.hint.1, s.hint.2, ap (λ (k : Node). k.prev) same'.0 ∙ s.hint.3);
      }

  -- The turn reads.
  Effect-none : Effect n n h log log xs
  Effect-none = record {
    elsewhere = λ p a b. refl;
    seqno = λ at a. refl;
    grown = [];
    grows = sym (append-nil log.os);
    from = inl refl;
    ended = λ e. e;
  }

  module _ (s : IsShared pages n h log) where
    pub reads : (p : Pc) → IsLocal pages n h log xs p → Moved (p, n)
    reads p l = record { log' = log; step = stay; effect = Effect-none; shared = s; local = l }

    pub start-Moved :
        (mem : ℕ) → IsLocal pages n h log xs (start mem) → Moved (advance h (start mem) n)
    unfolding advance
    start-Moved mem (w, q) = reads (loaded mem (n mem).prev) (w, q)

    pub loaded-Moved :
        (mem offs : ℕ)
        → IsLocal pages n h log xs (loaded mem offs)
        → Moved (advance h (loaded mem offs) n)
    unfolding advance
    loaded-Moved mem offs (w, q) = reads (walking mem offs (n h).prev) (w, q, s.hint)

    -- The end of the search: the last node's link is 0, or the head where the list is closed.
    pub walking-Moved :
        (mem offs at : ℕ)
        → IsLocal pages n h log xs (walking mem offs at)
        → Moved (advance h (walking mem offs at) n)
    unfolding advance walk_step
    walking-Moved mem offs at (w, q, (bs, rest, e, l)) =
        elim (next_of pages n h log s at bs rest e l) [
          | inl (_, f) ↦ elim s.ended [
            | inl zeroed ↦
                let r : walk_step h mem offs at n ≡ found mem offs at = ground (arith, f, zeroed) in
                rw r (reads (found mem offs at) (w, q, (bs, rest, e, l)))
            | inr sealed ↦
                let r : walk_step h mem offs at n ≡ refused =
                  ground (arith, f, sealed, s.nonzero) in
                rw r (reads refused sealed)
          ]
          | inr (b, (rest', e')) ↦
              let next = (n at).next in
              let r : walk_step h mem offs at n ≡ walking mem offs next =
                ground (arith, b, s.low) in
              rw r (
                reads (walking mem offs next)
                  (w, q, (bs ++ next ∷ [], rest', e', last-snoc h bs next)))
        ]

    -- A turn behind the last node, or at it.
    pub seeking-Moved :
        (at : ℕ) → IsLocal pages n h log xs (seeking at) → Moved (advance h (seeking at) n)
    unfolding advance seek_step
    seeking-Moved at (bs, rest, e, l) = elim (next_of pages n h log s at bs rest e l) [
      | inl (_, f) ↦ elim s.ended [
        | inl zeroed ↦
            let r : seek_step h at n ≡ sealing at = ground (arith, f, zeroed) in
            rw r (reads (sealing at) (bs, rest, e, l))
        | inr sealed ↦
            let r : seek_step h at n ≡ shut = ground (arith, f, sealed, s.nonzero) in
            rw r (reads shut sealed)
      ]
      | inr (b, (rest', e')) ↦
          let next = (n at).next in
          let r : seek_step h at n ≡ seeking next = ground (arith, b, s.low) in
          rw r (reads (seeking next) (bs ++ next ∷ [], rest', e', last-snoc h bs next))
    ]

    pub reading-Moved :
        (at : ℕ) (ys : List ℕ)
        → IsLocal pages n h log xs (reading at ys)
        → Moved (advance h (reading at ys) n)
    unfolding advance read_step
    reading-Moved at ys (rest, e, l) = elim (next_of pages n h log s at ys rest e l) [
      | inl (_, f) ↦
          let r : read_step at ys n ≡ reading at ys = ground (arith, f, s.ended, s.low) in
          rw r (reads (reading at ys) (rest, e, l))
      | inr (b, (rest', e')) ↦
          let next = (n at).next in
          let r : read_step at ys n ≡ following at ys = ground (arith, b) in
          rw r (reads (following at ys) (next, rest', e' ∙ append_assoc ys (next ∷ []) rest', l))
    ]

    pub following-Moved :
        (at : ℕ) (ys : List ℕ)
        → IsLocal pages n h log xs (following at ys)
        → Moved (advance h (following at ys) n)
    unfolding advance follow_step
    following-Moved at ys (o, rest, e, l) =
        let d =
          Nexts-drop pages n h ys (o ∷ rest) log.fin
            (subst (λ os. Nexts pages n h os log.fin) e s.nexts) in
        let q : (n at).next ≡ o = ap (λ p. (n p).next) l ∙ d.0 in
        rw q (
          reads (reading o (ys ++ o ∷ []))
            (rest, e ∙ sym (append_assoc ys (o ∷ []) rest), last-snoc h ys o))

    pub to_close-Moved : Moved (advance h to_close n)
    unfolding advance
    to_close-Moved = reads (seeking (n h).prev) s.hint

    -- The turns of a process that is done.
    pub returned-Moved :
        (at : ℕ) → IsLocal pages n h log xs (returned at) → Moved (advance h (returned at) n)
    unfolding advance
    returned-Moved at l = reads (returned at) l

    pub refused-Moved : log.fin ≡ h → Moved (advance h refused n)
    unfolding advance
    refused-Moved l = reads refused l

    pub shut-Moved : log.fin ≡ h → Moved (advance h shut n)
    unfolding advance
    shut-Moved l = reads shut l
