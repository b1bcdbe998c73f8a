-- ===== src/Yamal/Close/Laws.antt =====
-- What ytp_yamal_close and ytp_yamal_closed promise.
use yamal.Base.{
  Disjoint-nil, List, [], arith, false, if◌then◌else◌, inl, inr, last_of, last_of-append, length,
  length-append, none, not, refl, some, subst, suc, sym, zero, ℕ, ◌++◌, ◌<◌, ◌==◌, ◌∙◌, ◌∷◌, ◌≡◌,
  ◌≢◌, ◌⊎◌,
}
use yamal.Yamal.Chain.{
  Counts-same, IsHinted, IsList, Nexts, Nexts-Behind, Nexts-drop, Nexts-last, Nexts-link,
  Nexts-IsMapped, Prevs-same, head-IsMapped,
}
use yamal.Yamal.Close.{close_loop, seek_end, ytp_closable, ytp_yamal_close, ytp_yamal_closed}
use yamal.Yamal.Commit.{cas_next_lem}
use yamal.Yamal.Pages.{mmnode_from_offset}
use yamal.Yamal.Pages.Laws.{mmnode_from_offset_mapped, ytp_yamal_header_mapped}
use yamal.Yamal.State.{Yamal, hdr_size, head, ok, put_node}

-- The search from a node of a list ends, at the last node or at the mark of a closed list.
seek_end_lem :
    (fuel closing at : ℕ) (os : List ℕ) (fin : ℕ) (y : Yamal)
    → Nexts y.pages y.node at os fin
    → length os < fuel
    → closing < hdr_size
    → closing ≢ 0
    → (fin ≡ 0) ⊎ (fin ≡ closing)
    → seek_end fuel closing at y ≡ (ok (if fin == 0 then some (last_of at os) else none), y)
unfolding seek_end
seek_end_lem zero closing at os fin y h f c z e = elim f [ ]
seek_end_lem (suc fuel) closing at [] fin y h f c z e = ground arith
seek_end_lem (suc fuel) closing at (o ∷ os) fin y h f c z e =
    ground (arith, mmnode_from_offset_mapped o y h.2, seek_end_lem fuel closing o os fin y h.3)

-- A list that is open or closed, with the hint in its head.
pub record IsEnded (y : Yamal) (l : ℕ) (os : List ℕ) (fin : ℕ) : Type 0 where
  pub list : IsList y l os fin
  pub hint : IsHinted y.node (head l) os
  pub ended : (fin ≡ 0) ⊎ (fin ≡ head l)

-- What both calls find from the hint on.
from_hint :
    (fuel l : ℕ) (bs rest : List ℕ) (fin : ℕ) (y : Yamal)
    → IsList y l (bs ++ rest) fin
    → (fin ≡ 0) ⊎ (fin ≡ head l)
    → length (bs ++ rest) < fuel
    → (mmnode_from_offset (last_of (head l) bs) y ≡ (ok (last_of (head l) bs), y))
      × (seek_end fuel (head l) (last_of (head l) bs) y
          ≡ (ok (if fin == 0 then some (last_of (head l) (bs ++ rest)) else none), y))
from_hint fuel l bs rest fin y v e f = (
  mmnode_from_offset_mapped _ y (
      Nexts-IsMapped y.pages y.node (head l) bs rest fin (head-IsMapped y.pages l v.header v.index)
        v.nexts),
  rw (last_of-append (head l) bs rest) (
      seek_end_lem fuel (head l) (last_of (head l) bs) rest fin y
        (Nexts-drop y.pages y.node (head l) bs rest fin v.nexts)
        (omega (arith, length-append bs rest)) (omega (arith, v.index)) (omega arith) e),
)

closed_from :
    (fuel l : ℕ) (bs rest : List ℕ) (fin : ℕ) (y : Yamal)
    → (y.node (head l)).prev ≡ last_of (head l) bs
    → (fin ≡ 0) ⊎ (fin ≡ head l)
    → IsList y l (bs ++ rest) fin
    → length (bs ++ rest) < fuel
    → ytp_yamal_closed fuel l y ≡ (ok (not (fin == 0)), y)
unfolding ytp_yamal_closed
closed_from fuel l bs rest fin y hint e v f =
    let (at, found) = from_hint fuel l bs rest fin y v e f in
    rw (ytp_yamal_header_mapped y v.header, hint, at, found) (ground arith)

-- On an open or closed list with a hint to any of its nodes, with fuel beyond its length,
-- ytp_yamal_closed tells whether it is closed and changes nothing.
pub ytp_yamal_closed_lem :
    (fuel l : ℕ) (os : List ℕ) (fin : ℕ) (y : Yamal)
    → IsEnded y l os fin
    → length os < fuel
    → ytp_yamal_closed fuel l y ≡ (ok (not (fin == 0)), y)
ytp_yamal_closed_lem fuel l os fin y v f =
    let (bs, rest, e, hint) = v.hint in
    subst
      (λ os.
        IsList y l os fin → length os < fuel → ytp_yamal_closed fuel l y ≡ (ok (not (fin == 0)), y))
      (sym e) (λ v' f. closed_from fuel l bs rest fin y hint v.ended v' f) v.list f

-- The list with its last node linked to the head.
abbrev pub sealed : ℕ → List ℕ → Yamal → Yamal
sealed l os y =
    put_node (last_of (head l) os) (record (y.node (last_of (head l) os)) { next = head l }) y

close_from :
    (fuel l : ℕ) (bs rest : List ℕ) (fin : ℕ) (y : Yamal)
    → (y.node (head l)).prev ≡ last_of (head l) bs
    → (fin ≡ 0) ⊎ (fin ≡ head l)
    → y.readonly ≡ false
    → y.closable ≡ ytp_closable
    → IsList y l (bs ++ rest) fin
    → length (bs ++ rest) < fuel
    → ytp_yamal_close fuel l y ≡ (ok tt, if fin == 0 then sealed l (bs ++ rest) y else y)
unfolding ytp_yamal_close close_loop
close_from zero l bs rest fin y hint e r c v f = elim f [ ]
close_from (suc fuel) l bs rest fin y hint e r c v f =
    let (at, found) = from_hint (suc fuel) l bs rest fin y v e f in
    ground (
      arith,
      r,
      ytp_yamal_header_mapped y v.header,
      c,
      hint,
      at,
      found,
      cas_next_lem (last_of (head l) (bs ++ rest)) (head l) y,
      Nexts-last y.pages y.node (head l) (bs ++ rest) fin v.nexts,
    )

sealed-IsList :
    (l : ℕ) (os : List ℕ) (y : Yamal) → IsList y l os 0 → IsList (sealed l os y) l os (head l)
sealed-IsList l os y v = record {
  header = v.header;
  index = v.index;
  nexts =
      Nexts-link y.pages y.node (sealed l os y).node (head l) os (head l) v.nexts
        (λ p h. ground arith) (ground arith);
  prevs =
      Prevs-same y.node (sealed l os y).node [] (head l) os (λ p b a. ground arith)
        (Nexts-Behind y.pages y.node (head l) os 0 v.nexts) (Disjoint-nil os) v.prevs;
  counts =
      Counts-same y.node (sealed l os y).node [] (head l) os (λ p a. ground arith)
        (Disjoint-nil (head l ∷ os)) v.counts;
}

-- A writer's ytp_yamal_close on an open or closed list of a closable file, with fuel beyond its
-- length, ends without an error and leaves the list closed with the same nodes; it links the last
-- node of an open list to the head and changes nothing else, and nothing at all of a closed one.
pub ytp_yamal_close-closes :
    (fuel l : ℕ) (os : List ℕ) (fin : ℕ) (y : Yamal)
    → IsEnded y l os fin
    → y.readonly ≡ false
    → y.closable ≡ ytp_closable
    → length os < fuel
    → (y' : Yamal) × (ytp_yamal_close fuel l y ≡ (ok tt, y'))
      × IsEnded y' l os (head l)
      × (y' ≡ (if fin == 0 then sealed l os y else y))
ytp_yamal_close-closes fuel l os fin y v r c f =
    let (bs, rest, e, hint) = v.hint in
    let run =
      subst
        (λ os.
          IsList y l os fin
          → length os < fuel
          → ytp_yamal_close fuel l y ≡ (ok tt, if fin == 0 then sealed l os y else y))
        (sym e) (λ v' f. close_from fuel l bs rest fin y hint v.ended r c v' f) in
    elim v.ended [
      | inl open' ↦ (
        sealed l os y,
        (run v.list f) ∙ (ground arith),
        record {
          list = sealed-IsList l os y (rw (← open') v.list);
          hint = (bs, rest, e, (ground (arith, hint)));
          ended = inr refl;
        },
        ground arith,
      )
      | inr shut ↦ (
        y,
        run v.list f ∙ (ground arith),
        (record { list = rw (← shut) v.list; hint = v.hint; ended = inr refl }),
        ground arith,
      )
    ]
