-- ===== src/Yamal/Race/Writes.antt =====
-- The turns that write the shared list: the exchange that appends, and the hint.
use yamal.Base.{
  Bool, Disjoint-nil, List, [], ap, append-nil, append_assoc, arith, inl, inr, last_of, refl, subst,
  sym, ℕ, ◌%◌, ◌++◌, ◌+◌, ◌∙◌, ◌∷◌, ◌≡◌, ◌≢◌, ◌⊎◌,
}
use yamal.Cursor.Array.{same}
use yamal.Yamal.Chain.{
  Counts, Counts-append, Nexts, Nexts-Behind, Nexts-append, Nexts-kept, Nexts-link, Nexts-same,
  Prevs, Prevs-append, Prevs-same,
}
use yamal.Yamal.Close.Laws.{sealed}
use yamal.Yamal.Race.{Nodes, advance, commit_step, linked, ready, walking}
use yamal.Yamal.Race.Frame.{Counts-unwritten, Effect, IsAt-grown, Prevs-unwritten}
use yamal.Yamal.Race.Inv.{IsAt, IsLocal, IsShared, IsWriting, Log, append, stay}
use yamal.Yamal.Race.Moves.{Moved, reads}
use yamal.Yamal.Race.Spot.{Apart-list, IsAt-Apart, IsAt-last, IsAt-other, last-snoc, next_of}
use yamal.Yamal.State.{update, word}

module _ (pages : ℕ → Bool) (n : Nodes) (h : ℕ) (log : Log) (xs : List ℕ) where
  -- Only the node at `at`, a node of the list, changes, and not its number.
  pub Effect-at :
      (n' : Nodes) (log' : Log) (at : ℕ) (es : List ℕ)
      → IsAt h log.os at
      → ((p : ℕ) → p ≢ at → n' p ≡ n p)
      → ((p : ℕ) → (n' p).seqno ≡ (n p).seqno)
      → log'.os ≡ log.os ++ es
      → (es ≡ []) ⊎ (es ≡ xs)
      → (log.fin ≡ h → log'.fin ≡ h)
      → Effect n n' h log log' xs
  Effect-at n' log' at es a same seq g from fin = record {
    elsewhere = λ p b c. same p (IsAt-other h log.os at p a c);
    seqno = λ p b. seq p;
    grown = es;
    grows = g;
    from = from;
    ended = fin;
  }

  module _ (s : IsShared pages n h log) where
    -- The exchange finds 0: the new nodes stand behind the last one.
    module _ (offs at : ℕ) (zeroed : log.fin ≡ 0) (last : at ≡ last_of h log.os) where
      abbrev linked_nodes : Nodes
      linked_nodes = update n at (record (n at) { next = offs })

      abbrev appended : Log
      appended = record { os = log.os ++ xs; fin = 0 }

      at_end : IsAt h log.os at
      at_end = subst (IsAt h log.os) (sym last) (IsAt-last h log.os)

      Effect-linked : Effect n linked_nodes h log appended xs
      Effect-linked =
          Effect-at linked_nodes appended at xs at_end (λ p b. ground arith) (λ p. ground arith)
            refl (inr refl) (λ e. absurd (s.nonzero (sym e ∙ zeroed)))

      module _ (w : IsWriting pages n h log xs offs) (back : (n offs).prev ≡ at)
          (c : Counts n at xs) where
        Nexts-linked : Nexts pages linked_nodes h (log.os ++ offs ∷ w.ns) 0
        Nexts-linked =
            Nexts-append pages linked_nodes h log.os offs w.ns 0
              (Nexts-link pages n linked_nodes h log.os offs
                (subst (Nexts pages n h log.os) zeroed s.nexts) (λ p b. ground (arith, last))
                (ground (arith, last)))
              w.own.behind w.own.mapped
              (Nexts-kept pages n linked_nodes at offs w.ns 0 (λ p b. ground arith)
                (IsAt-Apart h log.os (offs ∷ w.ns) at at_end w.own.disjoint) w.own.nexts)

        Prevs-linked : Prevs linked_nodes h (log.os ++ offs ∷ w.ns)
        Prevs-linked =
            let same = Prevs-unwritten n linked_nodes (λ p. ground arith) in
            Prevs-append linked_nodes h log.os offs w.ns (same h log.os s.prevs)
              (ground (arith, back, last)) (same offs w.ns w.own.prevs)

        Counts-linked : Counts linked_nodes h (log.os ++ offs ∷ w.ns)
        Counts-linked =
            let same = Counts-unwritten n linked_nodes (λ p. ground arith) in
            let own = same at (offs ∷ w.ns) (subst (Counts n at) w.mine c) in
            Counts-append linked_nodes h log.os offs w.ns (same h log.os s.counts)
              (subst (λ p. (linked_nodes offs).seqno ≡ ((linked_nodes p).seqno + 1) % word) last
                own.0)
              own.1

        IsShared-linked : IsShared pages linked_nodes h appended
        IsShared-linked = record {
          low = s.low;
          nonzero = s.nonzero;
          nexts = rw w.mine Nexts-linked;
          prevs = rw w.mine Prevs-linked;
          counts = rw w.mine Counts-linked;
          ended = inl refl;
          hint =
              subst (IsAt h (log.os ++ xs)) (ground arith)
                (IsAt-grown h log.os xs (n h).prev s.hint);
        }

        linked-Moved-at :
            (next : (n at).next ≡ 0) → Moved pages n h log xs (linked offs at, linked_nodes)
        linked-Moved-at next = record {
          log' = appended;
          step = append zeroed offs w.ns w.mine (Apart-list h log.os offs w.ns w.own.disjoint);
          effect = Effect-linked;
          shared = IsShared-linked;
          local =
              ((log.os, [], ap (λ zs. log.os ++ zs) (sym (append-nil xs)), last), (w.ns, w.mine));
        }

    reads_on :
        (offs at : ℕ)
        → IsWriting pages n h log xs offs
        → IsAt h log.os (n at).next
        → Moved pages n h log xs (walking offs offs (n at).next, n)
    reads_on offs at w a = reads pages n h log xs s (walking offs offs (n at).next) (w, refl, a)

    -- The exchange: behind the last node of an open list it links, else the search goes on.
    pub commit_step-Moved :
        (mem at : ℕ)
        → IsWriting pages n h log xs mem
        → IsAt h log.os at
        → (n mem).prev ≡ at
        → Counts n at xs
        → Moved pages n h log xs (commit_step h mem mem at n)
    unfolding commit_step
    commit_step-Moved mem at w (bs, rest, e, l) back c =
        elim (next_of pages n h log s at bs rest e l) [
          | inl (last, f) ↦ elim s.ended [
            | inl zeroed ↦
                let r : commit_step h mem mem at n
                    ≡ (linked mem at, linked_nodes mem at zeroed last) =
                  ground (arith, f, zeroed) in
                rw r (linked-Moved-at mem at zeroed last w back c (f ∙ zeroed))
            | inr sealed ↦
                let r : commit_step h mem mem at n ≡ (walking mem mem (n at).next, n) =
                  ground (arith, f, sealed, s.nonzero, s.low, w.own.behind) in
                rw r (reads_on mem at w ([], log.os, refl, f ∙ sealed))
          ]
          | inr (b, (rest', e')) ↦
              let next = (n at).next in
              let a : IsAt h log.os next = (bs ++ next ∷ [], rest', e', last-snoc h bs next) in
              let d = (IsAt-Apart h log.os (mem ∷ w.ns) next a w.own.disjoint).0 in
              let r : commit_step h mem mem at n ≡ (walking mem mem next, n) =
                ground (arith, b, d) in
              rw r (reads_on mem at w a)
        ]

    pub ready-Moved :
        (mem offs at : ℕ)
        → IsLocal pages n h log xs (ready mem offs at)
        → Moved pages n h log xs (advance h (ready mem offs at) n)
    unfolding advance
    ready-Moved mem offs at (w, q, a, back, c) = rw q (commit_step-Moved mem at w a back c)

    -- `hdr->prev = offs`: the hint names a node of the list.
    pub linked-Moved :
        (offs at : ℕ)
        → IsLocal pages n h log xs (linked offs at)
        → Moved pages n h log xs (advance h (linked offs at) n)
    unfolding advance
    linked-Moved offs at ((bs, rest, e, l), (ns, q)) =
        let n' = update n h (record (n h) { prev = offs }) in
        let hinted : log.os ≡ (bs ++ offs ∷ []) ++ (ns ++ rest) =
          e ∙ ap (λ zs. bs ++ (zs ++ rest)) q ∙ sym (append_assoc bs (offs ∷ []) (ns ++ rest)) in
        record {
          log' = log;
          step = stay;
          effect =
              Effect-at n' log h [] ([], log.os, refl, refl) (λ p b. ground arith)
                (λ p. ground arith) (sym (append-nil log.os)) (inl refl) (λ f. f);
          shared = record {
            low = s.low;
            nonzero = s.nonzero;
            nexts = Nexts-same pages n n' (λ p. ground arith) h log.os log.fin s.nexts;
            prevs =
                Prevs-same n n' [] h log.os (λ p b a. ground (arith, s.low))
                  (Nexts-Behind pages n h log.os log.fin s.nexts) (Disjoint-nil log.os) s.prevs;
            counts = Counts-unwritten n n' (λ p. ground arith) h log.os s.counts;
            ended = s.ended;
            hint = (bs ++ offs ∷ [], ns ++ rest, hinted, ground arith ∙ last-snoc h bs offs);
          };
          local = (bs, rest, e, l);
        }
