-- ===== src/Yamal/Commit/Laws.antt =====
-- What ytp_yamal_commit promises: on an open list, on a closed one, and for the other lists.
use yamal.Base.{
  Apart, Disjoint, Disjoint-last_of, List, [], append_assoc, arith, last_of, last_of-append, length,
  length-append, subst, suc, sym, zero, ℕ, ◌++◌, ◌+◌, ◌<◌, ◌∙◌, ◌∷◌, ◌≡◌,
}
use yamal.Yamal.Chain.{
  Counts-same, IsHinted, IsList, Nexts-Behind, Nexts-IsMapped, Nexts-drop, Nexts-kept, Prevs-same,
  head-IsMapped,
}
use yamal.Yamal.Commit.{ytp_yamal_commit}
use yamal.Yamal.Commit.Append.{
  IsKept, IsReserved, committed, committed-IsKept, committed-IsList, tail_of-last,
  ytp_yamal_commit_lem,
}
use yamal.Yamal.Commit.Walk.{find_end_closed}
use yamal.Yamal.Pages.Laws.{mmnode_from_offset_mapped, ytp_yamal_header_mapped}
use yamal.Yamal.State.{Yamal, closed, err, hdr_size, head, node_header, ok}

-- A list that is open, with a hint that names one of its nodes.
pub record IsOpen (y : Yamal) (l : ℕ) (os : List ℕ) : Type 0 where
  pub list : IsList y l os 0
  pub hint : IsHinted y.node (head l) os

-- The call returns the iterator to the first new node, and the state `y'`.
abbrev pub Appends : ℕ → Yamal → ℕ → List ℕ → ℕ → List ℕ → Type 0
Appends fuel y l os mem ns =
    (y' : Yamal) × (ytp_yamal_commit fuel (mem + node_header) l y
      ≡ (ok (last_of (head l) os + 8), y'))
    × IsOpen y' l (os ++ mem ∷ ns)
    × IsKept (head l) (last_of (head l) os) (mem ∷ ns) y y'

after_hint :
    (fuel : ℕ) (y : Yamal) (l : ℕ) (bs rest : List ℕ) (mem : ℕ) (ns : List ℕ)
    → (y.node (head l)).prev ≡ last_of (head l) bs
    → IsList y l (bs ++ rest) 0
    → IsReserved y l (bs ++ rest) mem ns
    → length (bs ++ rest) < fuel
    → length ns < fuel
    → Appends fuel y l (bs ++ rest) mem ns
after_hint fuel y l bs rest mem ns hint v r f g =
    let same = tail_of-last y l bs rest mem ns in
    (
      committed (head l) mem ns (last_of (head l) (bs ++ rest)) y,
      rw (← same) (
          ytp_yamal_commit_lem y l bs rest mem ns fuel v hint r
            (omega (arith, length-append bs rest)) g),
      record {
        list = committed-IsList y l (bs ++ rest) mem ns v r;
        hint = (
          (bs ++ rest) ++ mem ∷ [],
          ns,
          sym (append_assoc (bs ++ rest) (mem ∷ []) ns),
          (ground arith) ∙ sym (last_of-append (head l) (bs ++ rest) (mem ∷ [])),
        );
      },
      committed-IsKept y l (bs ++ rest) mem ns v r,
    )

-- On an open list, with the nodes `mem ∷ ns` reserved, linked to each other and outside the list,
-- and with fuel beyond both lengths, ytp_yamal_commit ends without an error, returns the iterator
-- to the first new node, and leaves the open list `os ++ mem ∷ ns` with right links, numbers and
-- hint; beside the link of the last node, the hint in the head, and the links back and numbers of
-- the new nodes, nothing of the state changes.
pub ytp_yamal_commit-Appends :
    (fuel : ℕ) (y : Yamal) (l : ℕ) (os : List ℕ) (mem : ℕ) (ns : List ℕ)
    → IsOpen y l os
    → IsReserved y l os mem ns
    → length os < fuel
    → length ns < fuel
    → Appends fuel y l os mem ns
ytp_yamal_commit-Appends fuel y l os mem ns v r f g =
    let (bs, rest, e, hint) = v.hint in
    subst
      (λ os.
        IsList y l os 0 → IsReserved y l os mem ns → length os < fuel → Appends fuel y l os mem ns)
      (sym e) (λ v r f. after_hint fuel y l bs rest mem ns hint v r f g) v.list r f

refused_from :
    (fuel : ℕ) (y : Yamal) (l : ℕ) (bs rest : List ℕ) (data' : ℕ)
    → (y.node (head l)).prev ≡ last_of (head l) bs
    → IsList y l (bs ++ rest) (head l)
    → length (bs ++ rest) < fuel
    → ytp_yamal_commit fuel data' l y ≡ (err closed, y)
unfolding ytp_yamal_commit
refused_from zero y l bs rest data' hint v f = elim f [ ]
refused_from (suc fuel) y l bs rest data' hint v f =
    let at_head = head-IsMapped y.pages l v.header v.index in
    rw (ytp_yamal_header_mapped y v.header, hint)
      (ground (
        arith,
        mmnode_from_offset_mapped (last_of (head l) bs) y
            (Nexts-IsMapped y.pages y.node (head l) bs rest (head l) at_head v.nexts),
        find_end_closed (suc fuel) (head l) (last_of (head l) bs) rest y
            (Nexts-drop y.pages y.node (head l) bs rest (head l) v.nexts)
            (omega (arith, length-append bs rest)) (omega (arith, v.index)) (omega arith),
      ))

-- On a closed list with a hint to one of its nodes, with fuel beyond its length, ytp_yamal_commit
-- reports that the list is closed and changes nothing.
pub ytp_yamal_commit-closed :
    (fuel : ℕ) (y : Yamal) (l : ℕ) (os : List ℕ) (data' : ℕ)
    → IsList y l os (head l)
    → IsHinted y.node (head l) os
    → length os < fuel
    → ytp_yamal_commit fuel data' l y ≡ (err closed, y)
ytp_yamal_commit-closed fuel y l os data' v (bs, rest, e, hint) f =
    subst
      (λ os.
        IsList y l os (head l)
        → length os < fuel
        → ytp_yamal_commit fuel data' l y ≡ (err closed, y))
      (sym e) (λ v f. refused_from fuel y l bs rest data' hint v f) v f

-- A commit to one list leaves the other lists as they are.
IsKept-IsList :
    (y y' : Yamal) (h last l : ℕ) (xs os : List ℕ) (fin : ℕ)
    → IsKept h last xs y y'
    → h < hdr_size
    → Apart last (head l ∷ os)
    → Disjoint (head l ∷ os) xs
    → IsList y l os fin
    → IsList y' l os fin
IsKept-IsList y y' h last l xs os fin k b a d v = record {
  header = rw k.pages v.header;
  index = v.index;
  nexts = rw k.pages (Nexts-kept y.pages y.node y'.node last (head l) os fin k.next a v.nexts);
  prevs =
      Prevs-same y.node y'.node xs (head l) os (λ p c e. k.prev p (λ q. absurd (omega arith)) e)
        (Nexts-Behind y.pages y.node (head l) os fin v.nexts) d.1 v.prevs;
  counts = Counts-same y.node y'.node xs (head l) os k.seqno d v.counts;
}

-- Under the conditions of ytp_yamal_commit-Appends, ytp_yamal_commit appends the new nodes to its
-- list, and leaves another list, open or closed, that shares no node with the first and none with
-- the new nodes, a list of the same nodes with the same end.
pub ytp_yamal_commit-others :
    (fuel : ℕ) (y : Yamal) (l : ℕ) (os : List ℕ) (mem : ℕ) (ns : List ℕ) (other : ℕ) (ps : List ℕ)
    (fin : ℕ)
    → IsOpen y l os
    → IsReserved y l os mem ns
    → length os < fuel
    → length ns < fuel
    → IsList y other ps fin
    → Disjoint (head l ∷ os) (head other ∷ ps)
    → Disjoint (head other ∷ ps) (mem ∷ ns)
    → (y' : Yamal) × (ytp_yamal_commit fuel (mem + node_header) l y
        ≡ (ok (last_of (head l) os + 8), y'))
      × IsOpen y' l (os ++ mem ∷ ns)
      × IsList y' other ps fin
ytp_yamal_commit-others fuel y l os mem ns other ps fin v r f g w d e =
    let (y', run, grown, kept) = ytp_yamal_commit-Appends fuel y l os mem ns v r f g in
    let apart = Disjoint-last_of (head l) os (head other ∷ ps) d in
    let low : head l < hdr_size = omega (arith, v.list.index) in
    (
      y',
      run,
      grown,
      IsKept-IsList y y' (head l) (last_of (head l) os) other (mem ∷ ns) ps fin kept low apart e w,
    )
