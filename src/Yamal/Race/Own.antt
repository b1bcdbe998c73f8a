-- ===== src/Yamal/Race/Own.antt =====
-- The turns of a committing process that write its own nodes: the backward link and the numbers.
use yamal.Base.{
  Apart, Apart-Disjoint, Bool, Disjoint, Disjoint-last_of, Distinct, List, [], ap, append_assoc,
  arith, last_of, subst, sym, ℕ, ◌%◌, ◌++◌, ◌+◌, ◌∙◌, ◌∷◌, ◌≡◌, ◌≢◌,
}
use yamal.Yamal.Chain.{Counts, Counts-append, Nexts, Nexts-Behind, Nexts-same, Prevs-same}
use yamal.Yamal.Race.{Nodes, Pc, advance, found, number_step, numbering, ready}
use yamal.Yamal.Race.Frame.{Counts-IsSame, IsSame-Apart}
use yamal.Yamal.Race.Inv.{IsAt, IsLocal, IsShared, IsWriting, Log, stay}
use yamal.Yamal.Race.Moves.{Effect-own, IsShared-own, Moved}
use yamal.Yamal.Race.Spot.{
  Apart-among, Disjoint-among, Distinct-among, IsAt-Apart, IsWriting-among, last-snoc,
}
use yamal.Yamal.State.{Node, update, word}

module _ (pages : ℕ → Bool) (n : Nodes) (h : ℕ) (log : Log) (xs : List ℕ) where
  -- The nodes that the process has, apart from the list.
  pub writing-Disjoint : (mem : ℕ) → IsWriting pages n h log xs mem → Disjoint (h ∷ log.os) xs
  writing-Disjoint mem w = rw w.mine w.own.disjoint

  -- The links of the own nodes are not written, nor the backward links behind the first one.
  IsWriting-own :
      (n' : Nodes) (mem : ℕ) (w : IsWriting pages n h log xs mem)
      → ((p : ℕ) → (n' p).next ≡ (n p).next)
      → ((p : ℕ) → p ≢ mem → (n' p).prev ≡ (n p).prev)
      → IsWriting pages n' h log xs mem
  IsWriting-own n' mem w next prev =
      let o = w.own in
      record {
        ns = w.ns;
        mine = w.mine;
        own = record {
          behind = o.behind;
          mapped = o.mapped;
          nexts = Nexts-same pages n n' next mem w.ns 0 o.nexts;
          prevs =
              Prevs-same n n' (mem ∷ []) mem w.ns (λ p b a. prev p a.0)
                (Nexts-Behind pages n mem w.ns 0 o.nexts) (Apart-Disjoint mem w.ns o.distinct.0)
                o.prevs;
          distinct = o.distinct;
          disjoint = o.disjoint;
        };
      }

  module _ (s : IsShared pages n h log) where
    -- `mem->prev = offs`, and the number of the node found is taken.
    pub found-Moved :
        (mem offs at : ℕ)
        → IsLocal pages n h log xs (found mem offs at)
        → Moved pages n h log xs (advance h (found mem offs at) n)
    unfolding advance
    found-Moved mem offs at (w, q, a) =
        let n' = update n mem (record (n mem) { prev = at }) in
        let d = writing-Disjoint mem w in
        let other : mem ≢ at =
          λ e. (IsAt-Apart h log.os (mem ∷ w.ns) at a w.own.disjoint).0 (sym e) in
        let same : (p : ℕ) → Apart p xs → n' p ≡ n p =
          λ p b. ground (arith, Apart-among p [] mem w.ns (subst (Apart p) w.mine b)) in
        record {
          log' = log;
          step = stay;
          effect = Effect-own pages n h log xs n' same d;
          shared = IsShared-own pages n h log xs n' same d s;
          local = (
            IsWriting-own n' mem w (λ p. ground arith) (λ p e. ground arith),
            q,
            a,
            ground arith,
            ([], w.ns, w.mine, tt, ground arith),
          );
        }

    -- One round of the loop that numbers the nodes.
    module _ (mem offs at cur seqno : ℕ) (pre post : List ℕ) where
      abbrev numbered : Nodes
      numbered = update n cur (record (n cur) { seqno = (seqno + 1) % word })

      module _ (w : IsWriting pages n h log xs mem) (a : IsAt h log.os at)
          (e : xs ≡ pre ++ cur ∷ post) (c : Counts n at pre)
          (l : (n (last_of at pre)).seqno ≡ seqno) where
        own_unchanged : (p : ℕ) → Apart p xs → numbered p ≡ n p
        own_unchanged p b = ground (arith, Apart-among p pre cur post (subst (Apart p) e b))

        list_apart : Disjoint (h ∷ log.os) (cur ∷ [])
        list_apart =
            Disjoint-among (h ∷ log.os) pre cur post
              (subst (Disjoint (h ∷ log.os)) e (writing-Disjoint mem w))

        pre_apart : Disjoint pre (cur ∷ [])
        pre_apart = Distinct-among pre cur post (subst Distinct (sym w.mine ∙ e) w.own.distinct)

        at-Apart : Apart at (cur ∷ [])
        at-Apart = IsAt-Apart h log.os (cur ∷ []) at a list_apart

        Counts-numbered : Counts numbered at (pre ++ cur ∷ [])
        Counts-numbered =
            let same : (p : ℕ) → Apart p (cur ∷ []) → numbered p ≡ n p =
              λ p b. ground (arith, b.0) in
            let last =
              same (last_of at pre) (Disjoint-last_of at pre (cur ∷ []) (at-Apart, pre_apart)) in
            Counts-append numbered at pre cur []
              (Counts-IsSame n numbered at pre (ap (λ (k : Node). k.seqno) (same at at-Apart))
                (IsSame-Apart n numbered (cur ∷ []) pre same pre_apart) c)
              (ground (arith, ap (λ (k : Node). k.seqno) last ∙ l)) tt

        to_pc : (p : Pc) → IsLocal pages numbered h log xs p → Moved pages n h log xs (p, numbered)
        to_pc p l' =
            let d = writing-Disjoint mem w in
            record {
              log' = log;
              step = stay;
              effect = Effect-own pages n h log xs numbered own_unchanged d;
              shared = IsShared-own pages n h log xs numbered own_unchanged d s;
              local = l';
            }

        own_after : IsWriting pages numbered h log xs mem
        own_after = IsWriting-own numbered mem w (λ p. ground arith) (λ p b. ground arith)

    number_step-Moved :
        (mem offs at cur seqno : ℕ) (pre post : List ℕ)
        → IsWriting pages n h log xs mem
        → offs ≡ mem
        → IsAt h log.os at
        → (n mem).prev ≡ at
        → (xs ≡ pre ++ cur ∷ post)
        → Counts n at pre
        → (n (last_of at pre)).seqno ≡ seqno
        → Nexts pages n cur post 0
        → Moved pages n h log xs (number_step mem offs at cur seqno n)
    unfolding number_step
    number_step-Moved mem offs at cur seqno pre [] w q a back e c l links =
        let n' = numbered mem offs at cur seqno pre [] in
        let r : number_step mem offs at cur seqno n ≡ (ready mem offs at, n') =
          ground (arith, links) in
        rw r (
          to_pc mem offs at cur seqno pre [] w a e c l (ready mem offs at) (
            own_after mem offs at cur seqno pre [] w a e c l,
            q,
            a,
            ground (arith, back),
            rw e (Counts-numbered mem offs at cur seqno pre [] w a e c l),
          ))
    number_step-Moved mem offs at cur seqno pre (o ∷ post) w q a back e c l links =
        let n' = numbered mem offs at cur seqno pre (o ∷ post) in
        let r : number_step mem offs at cur seqno n
            ≡ (numbering mem offs at o ((seqno + 1) % word), n') =
          ground (arith, links.0, links.1) in
        rw r (
          to_pc mem offs at cur seqno pre (o ∷ post) w a e c l
            (numbering mem offs at o ((seqno + 1) % word))
            (
              own_after mem offs at cur seqno pre (o ∷ post) w a e c l,
              q,
              a,
              ground (arith, back),
              (
                pre ++ cur ∷ [],
                post,
                e ∙ sym (append_assoc pre (cur ∷ []) (o ∷ post)),
                Counts-numbered mem offs at cur seqno pre (o ∷ post) w a e c l,
                ap (λ p. (n' p).seqno) (sym (last-snoc at pre cur)) ∙ ground arith,
              ),
            ))

    pub numbering-Moved :
        (mem offs at cur seqno : ℕ)
        → IsLocal pages n h log xs (numbering mem offs at cur seqno)
        → Moved pages n h log xs (advance h (numbering mem offs at cur seqno) n)
    unfolding advance
    numbering-Moved mem offs at cur seqno (w, q, a, back, (pre, post, e, c, l)) =
        number_step-Moved mem offs at cur seqno pre post w q a back e c l
          (IsWriting-among pages n h log xs mem w pre cur post e)
