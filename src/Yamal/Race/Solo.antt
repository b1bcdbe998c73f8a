-- ===== src/Yamal/Race/Solo.antt =====
-- ytp_yamal_commit without interference: its steps lead to the end, and do what the call does.
use yamal.Base.{
  Bool, List, [], ap, arith, last_of, length, refl, suc, sym, zero, ℕ, ◌%◌, ◌++◌, ◌+◌, ◌<◌, ◌∙◌,
  ◌∷◌, ◌≡◌,
}
use yamal.Yamal.Chain.{IsList, Nexts, Nexts-drop, Nexts-last, Nexts-same}
use yamal.Yamal.Commit.{ytp_yamal_commit}
use yamal.Yamal.Commit.Append.{
  IsReserved, committed, exchanged, linked_back, prepared, ytp_yamal_commit_lem,
}
use yamal.Yamal.Commit.Walk.{numbered, renumber, renumber-Renumbered}
use yamal.Yamal.Race.{
  Nodes, Pc, advance, commit_step, found, linked, number_step, numbering, ready, returned, start,
  walk_step, walking,
}
use yamal.Yamal.State.{Yamal, hdr_size, head, node_header, ok, word}

-- The process takes `k` turns, and no other process does.
unfoldable pub alone : ℕ → ℕ → Pc × Nodes → Pc × Nodes
alone h zero r = r
alone h (suc k) r = alone h k (advance h r.0 r.1)

alone-add : (h a b : ℕ) (r : Pc × Nodes) → alone h (a + b) r ≡ alone h b (alone h a r)
unfolding alone
alone-add h zero b r = ground arith
alone-add h (suc a) b r =
    let q : suc a + b ≡ suc (a + b) = omega arith in
    ap (λ k. alone h k r) q ∙ alone-add h a b (advance h r.0 r.1)

-- Some turns after others.
alone-on :
    (h a b : ℕ) (r r' r'' : Pc × Nodes)
    → alone h a r ≡ r'
    → alone h b r' ≡ r''
    → alone h (a + b) r ≡ r''
alone-on h a b r r' r'' e f = alone-add h a b r ∙ ap (alone h b) e ∙ f

module _ (pages : ℕ → Bool) (h mem offs : ℕ) (low : h < hdr_size) where
  -- The search, one turn for each node.
  alone-walking :
      (at : ℕ) (rest : List ℕ) (n : Nodes)
      → Nexts pages n at rest 0
      → alone h (suc (length rest)) (walking mem offs at, n) ≡ (found mem offs (last_of at rest), n)
  unfolding alone advance walk_step
  alone-walking at [] n s = ground (arith, s)
  alone-walking at (o ∷ rest) n s =
      let r : walk_step h mem offs at n ≡ walking mem offs o = ground (arith, s.0, s.1, low) in
      ap (λ (p : Pc). alone h (suc (length rest)) (p, n)) r ∙ alone-walking o rest n s.3

  numbered_last :
      (at cur seqno : ℕ) (y : Yamal)
      → (y.node cur).next ≡ 0
      → number_step mem offs at cur seqno y.node ≡ (ready mem offs at, (numbered cur seqno y).node)
  unfolding number_step
  numbered_last at cur seqno y s = ground (arith, s)

  -- The numbering, one turn for each new node.
  alone-numbering :
      (at cur seqno : ℕ) (ns : List ℕ) (y : Yamal)
      → Nexts pages y.node cur ns 0
      → alone h (suc (length ns)) (numbering mem offs at cur seqno, y.node)
        ≡ (ready mem offs at, (renumber cur ns seqno y).node)
  unfolding alone advance number_step renumber
  alone-numbering at cur seqno [] y s = numbered_last at cur seqno y s
  alone-numbering at cur seqno (o ∷ ns) y s =
      let y' = numbered cur seqno y in
      let r : number_step mem offs at cur seqno y.node
          ≡ (numbering mem offs at o ((seqno + 1) % word), y'.node) =
        ground (arith, s.0, s.1) in
      ap (alone h (suc (length ns))) r
      ∙ alone-numbering at o ((seqno + 1) % word) ns y'
          (Nexts-same pages y.node y'.node (λ p. ground arith) o ns 0 s.3)

-- Alone, ytp_yamal_commit returns after a number of turns that the lengths of the list and of the new
-- nodes give, with the iterator and the nodes that the call gives.
module _ (y : Yamal) (l : ℕ) (bs rest : List ℕ) (mem : ℕ) (ns : List ℕ) where
  abbrev at_last : ℕ
  at_last = last_of (last_of (head l) bs) rest

  module _ (v : IsList y l (bs ++ rest) 0) (hint : (y.node (head l)).prev ≡ last_of (head l) bs)
      (r : IsReserved y l (bs ++ rest) mem ns) where
    low : head l < hdr_size
    low = omega (arith, v.index)

    abbrev linked_back_nodes : Nodes
    linked_back_nodes = (linked_back mem at_last y).node

    to_walking :
        alone (head l) 2 (start mem, y.node) ≡ (walking mem mem (last_of (head l) bs), y.node)
    unfolding alone advance
    to_walking = rw (r.own, hint) refl

    to_numbering :
        alone (head l) 1 (found mem mem at_last, y.node)
        ≡ (numbering mem mem at_last mem (y.node at_last).seqno, linked_back_nodes)
    unfolding alone advance
    to_numbering = refl

    -- The exchange finds the link of the last node as it was.
    still_zero : ((prepared mem ns at_last y).node at_last).next ≡ 0
    still_zero =
        let kept = renumber-Renumbered mem ns (y.node at_last).seqno (linked_back mem at_last y) in
        let back : (linked_back_nodes at_last).next ≡ (y.node at_last).next = ground arith in
        kept.next at_last
        ∙ back
        ∙ Nexts-last y.pages y.node (last_of (head l) bs) rest 0
            (Nexts-drop y.pages y.node (head l) bs rest 0 v.nexts)

    to_linked :
        alone (head l) 1 (ready mem mem at_last, (prepared mem ns at_last y).node)
        ≡ (linked mem at_last, (exchanged mem at_last (prepared mem ns at_last y)).node)
    unfolding alone advance commit_step
    to_linked = rw still_zero refl

    to_returned :
        alone
          (head l)
          1
          (linked mem at_last, (exchanged mem at_last (prepared mem ns at_last y)).node)
        ≡ (returned at_last, (committed (head l) mem ns at_last y).node)
    unfolding alone advance
    to_returned = refl

    alone-committed :
        alone (head l) (length rest + length ns + 7) (start mem, y.node)
        ≡ (returned at_last, (committed (head l) mem ns at_last y).node)
    alone-committed =
        let h = head l in
        let search =
          alone-walking y.pages h mem mem low (last_of h bs) rest y.node
            (Nexts-drop y.pages y.node h bs rest 0 v.nexts) in
        let numbers =
          alone-numbering y.pages h mem mem low at_last mem (y.node at_last).seqno ns
            (linked_back mem at_last y)
            (Nexts-same y.pages y.node linked_back_nodes (λ p. ground arith) mem ns 0 r.nexts) in
        let turns : length rest + length ns + 7
            ≡ 2 + (suc (length rest) + (1 + (suc (length ns) + (1 + 1)))) =
          omega arith in
        ap (λ k. alone h k (start mem, y.node)) turns
        ∙ alone-on h 2 _ _ _ _ to_walking (
            alone-on h (suc (length rest)) _ _ _ _ search (
              alone-on h 1 _ _ _ _ to_numbering (
                alone-on h (suc (length ns)) _ _ _ _ numbers
                  (alone-on h 1 1 _ _ _ to_linked to_returned))))

    -- On an open list whose hint has the nodes `rest` behind it, with the nodes `mem ∷ ns`
    -- reserved, ytp_yamal_commit taken alone returns after length rest + length ns + 7 turns, and
    -- leaves the iterator and the nodes that the call with fuel beyond the two lengths gives,
    -- which succeeds.
    pub alone-ytp_yamal_commit :
        (fuel : ℕ)
        → length rest < fuel
        → length ns < fuel
        → (at : ℕ) × ((ytp_yamal_commit fuel (mem + node_header) l y).0 ≡ ok (at + 8))
          × (alone (head l) (length rest + length ns + 7) (start mem, y.node)
              ≡ (returned at, (ytp_yamal_commit fuel (mem + node_header) l y).1.node))
    alone-ytp_yamal_commit fuel f g =
        let c = ytp_yamal_commit_lem y l bs rest mem ns fuel v hint r f g in
        (at_last, ap (λ z. z.0) c, alone-committed ∙ sym (ap (λ z. (returned at_last, z.1.node)) c))
