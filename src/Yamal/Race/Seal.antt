-- ===== src/Yamal/Race/Seal.antt =====
-- The turn that closes the list.
use yamal.Base.{Bool, List, [], append-nil, arith, inl, inr, refl, subst, sym, ℕ, ◌++◌, ◌∷◌, ◌≡◌}
use yamal.Yamal.Chain.{Nexts, Nexts-link}
use yamal.Yamal.Close.Laws.{sealed}
use yamal.Yamal.Race.{Nodes, advance, seal_step, sealing, seeking, shut}
use yamal.Yamal.Race.Frame.{Counts-unwritten, Prevs-unwritten}
use yamal.Yamal.Race.Inv.{IsAt, IsLocal, IsShared, Log, close}
use yamal.Yamal.Race.Moves.{Moved, reads}
use yamal.Yamal.Race.Spot.{last-snoc, next_of}
use yamal.Yamal.Race.Writes.{Effect-at}
use yamal.Yamal.State.{update}

module _ (pages : ℕ → Bool) (n : Nodes) (h : ℕ) (log : Log) (xs : List ℕ) where
  module _ (s : IsShared pages n h log) where
    -- The exchange that closes the list.
    pub seal_step-Moved : (at : ℕ) → IsAt h log.os at → Moved pages n h log xs (seal_step h at n)
    unfolding seal_step
    seal_step-Moved at (bs, rest, e, l) = elim (next_of pages n h log s at bs rest e l) [
      | inl (last, f) ↦ elim s.ended [
        | inl zeroed ↦
            let n' = update n at (record (n at) { next = h }) in
            let r : seal_step h at n ≡ (shut, n') = ground (arith, f, zeroed) in
            rw r (record {
              log' = record { os = log.os; fin = h };
              step = close zeroed;
              effect =
                  Effect-at pages n h log xs n' _ at [] (bs, rest, e, l) (λ p b. ground arith)
                    (λ p. ground arith) (sym (append-nil log.os)) (inl refl) (λ _. refl);
              shared = record {
                low = s.low;
                nonzero = s.nonzero;
                nexts =
                    Nexts-link pages n n' h log.os h (subst (Nexts pages n h log.os) zeroed s.nexts)
                      (λ p b. ground (arith, last)) (ground (arith, last));
                prevs = Prevs-unwritten n n' (λ p. ground arith) h log.os s.prevs;
                counts = Counts-unwritten n n' (λ p. ground arith) h log.os s.counts;
                ended = inr refl;
                hint = subst (IsAt h log.os) (ground arith) s.hint;
              };
              local = refl;
            })
        | inr sealed ↦
            let r : seal_step h at n ≡ (shut, n) = ground (arith, f, sealed, s.nonzero) in
            rw r (reads pages n h log xs s shut sealed)
      ]
      | inr (b, (rest', e')) ↦
          let next = (n at).next in
          let r : seal_step h at n ≡ (seeking next, n) = ground (arith, b, s.low) in
          rw r (
            reads pages n h log xs s (seeking next)
              (bs ++ next ∷ [], rest', e', last-snoc h bs next))
    ]

    pub sealing-Moved :
        (at : ℕ)
        → IsLocal pages n h log xs (sealing at)
        → Moved pages n h log xs (advance h (sealing at) n)
    unfolding advance
    sealing-Moved at a = seal_step-Moved at a
