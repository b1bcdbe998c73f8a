-- ===== src/Yamal/Iter/Laws.antt =====
-- Iterators over a list: forwards, backwards, and through the offsets that can be stored.
use yamal.Base.{
  List, [], arith, if◌then◌else◌, last_of, length, ltb, map, refl, suc, zero, ℕ, ◌++◌, ◌+◌, ◌-◌,
  ◌<◌, ◌∷◌, ◌≡◌, ◌≤◌,
}
use yamal.Yamal.Chain.{
  Counts, IsList, Nexts, Nexts-IsMapped, Nexts-drop, Prevs, Prevs-drop, head-IsMapped,
}
use yamal.Yamal.Iter.{
  Message, ytp_yamal_begin, ytp_yamal_next, ytp_yamal_prev, ytp_yamal_read, ytp_yamal_seek,
  ytp_yamal_tell, ytp_yamal_term,
}
use yamal.Yamal.Pages.{get_mapped_memory}
use yamal.Yamal.Pages.Laws.{
  IsMapped, mmnode_from_offset_lem, mmnode_from_offset_mapped, ytp_yamal_header_mapped,
}
use yamal.Yamal.State.{
  Error, M, Node, Yamal, err, hang, hdr_size, head, node_header, ok, pure, word, ◌>>=◌,
}

-- What is stored of a node.
abbrev pub message_of : (ℕ → Node) → ℕ → Message
message_of node o = record { seqno = (node o).seqno; size = (node o).size; at = o + node_header }

-- The operations at the iterator behind the node at `at`.
module _ (y : Yamal) (at : ℕ) where
  pub ytp_yamal_term_lem : ytp_yamal_term (at + 8) y ≡ ltb (y.node at).next hdr_size
  unfolding ytp_yamal_term
  ytp_yamal_term_lem = let back : at + 8 - 8 ≡ at = omega arith in ground arith

  pub ytp_yamal_seek_lem : IsMapped y.pages at → ytp_yamal_seek at y ≡ (ok (at + 8), y)
  unfolding ytp_yamal_seek
  ytp_yamal_seek_lem m = rw (mmnode_from_offset_mapped at y m)

  module _ {o : ℕ} (e : (y.node at).next ≡ o) (m : IsMapped y.pages o) where
    pub ytp_yamal_next_lem : ytp_yamal_next (at + 8) y ≡ (ok (o + 8), y)
    unfolding ytp_yamal_next
    ytp_yamal_next_lem =
        let back : at + 8 - 8 ≡ at = omega arith in
        ground (arith, e, mmnode_from_offset_mapped o y m)

    pub ytp_yamal_read_lem : ytp_yamal_read (at + 8) y ≡ (ok (message_of y.node o), y)
    unfolding ytp_yamal_read
    ytp_yamal_read_lem =
        let back : at + 8 - 8 ≡ at = omega arith in
        ground (arith, e, mmnode_from_offset_mapped o y m)

  pub ytp_yamal_prev_lem :
      {o : ℕ}
      → (y.node at).prev ≡ o
      → IsMapped y.pages o
      → ytp_yamal_prev (at + 8) y ≡ (ok (o + 8), y)
  unfolding ytp_yamal_prev
  ytp_yamal_prev_lem {o} e m =
      let back : at + 8 - 8 ≡ at = omega arith in rw (back, e, mmnode_from_offset_mapped o y m)

-- A client's loop, as in tests/ytp/yamal.cpp: read, step on, until there is no further message.
read_from : ℕ → ℕ → M (List Message)
read_from zero it y = (hang, y)
read_from (suc fuel) it y =
    let rest =
      (do m ← ytp_yamal_read it; it' ← ytp_yamal_next it; ms ← read_from fuel it'; pure (m ∷ ms))
        y in
    if ytp_yamal_term it y then (ok [], y) else rest

pub read_all : ℕ → ℕ → M (List Message)
unfolding read_from
read_all fuel lstidx = do it ← ytp_yamal_begin lstidx; read_from fuel it

read_from_lem :
    (fuel at : ℕ) (os : List ℕ) (fin : ℕ) (y : Yamal)
    → Nexts y.pages y.node at os fin
    → fin < hdr_size
    → length os < fuel
    → read_from fuel (at + 8) y ≡ (ok (map (message_of y.node) os), y)
unfolding read_from
read_from_lem zero at os fin y h b f = elim f [ ]
read_from_lem (suc fuel) at [] fin y h b f = ground (arith, ytp_yamal_term_lem y at)
read_from_lem (suc fuel) at (o ∷ os) fin y h b f = ground (
  arith,
  ytp_yamal_term_lem y at,
  ytp_yamal_read_lem y at h.0 h.2,
  ytp_yamal_next_lem y at h.0 h.2,
  read_from_lem fuel o os fin y h.3,
)

-- On an open or closed list, with fuel beyond its length, a client's loop over ytp_yamal_begin,
-- term, read and next ends, has read each committed node once and in order, and changes nothing.
pub read_all_lem :
    (fuel l : ℕ) (os : List ℕ) (fin : ℕ) (y : Yamal)
    → IsList y l os fin
    → fin < hdr_size
    → length os < fuel
    → read_all fuel l y ≡ (ok (map (message_of y.node) os), y)
unfolding read_all ytp_yamal_begin
read_all_lem fuel l os fin y v b f =
    rw (ytp_yamal_header_mapped y v.header) (read_from_lem fuel (head l) os fin y v.nexts b f)

-- The numbers from `s` on.
abbrev pub Counting : ℕ → List Message → Type 0
Counting s [] = Unit {0}
Counting s (m ∷ ms) = (m.seqno ≡ s) × Counting (s + 1) ms

pub Counts-Counting :
    (node : ℕ → Node) (at s : ℕ) (os : List ℕ)
    → Counts node at os
    → (node at).seqno ≡ s
    → s + length os < word
    → Counting (s + 1) (map (message_of node) os)
Counts-Counting node at s [] c e w = tt
Counts-Counting node at s (o ∷ os) c e w =
    let e' : (node o).seqno ≡ s + 1 = omega (arith, c.0) in
    (e', Counts-Counting node o (s + 1) os c.1 e' (omega arith))

-- The node before the one at `last_of b bs`.
record Before (y : Yamal) (at : ℕ) : Type 0 where
  before : ℕ
  mapped : IsMapped y.pages before
  behind : hdr_size ≤ at
  prev : (y.node at).prev ≡ before
  next : (y.node before).next ≡ at
  here : IsMapped y.pages at

before_lem :
    (y : Yamal) (at b : ℕ) (bs rest : List ℕ) (fin : ℕ)
    → IsMapped y.pages at
    → Nexts y.pages y.node at (b ∷ bs ++ rest) fin
    → Prevs y.node at (b ∷ bs ++ rest)
    → Before y (last_of b bs)
before_lem y at b [] rest fin m h p = record {
  before = at;
  mapped = m;
  behind = h.1;
  prev = p.0;
  next = h.0;
  here = h.2;
}
before_lem y at b (c ∷ cs) rest fin m h p = before_lem y b c cs rest fin h.2 h.3 p.1

module _ (y : Yamal) (l : ℕ) (rest : List ℕ) (fin : ℕ) where
  -- What is told of an iterator is the offset of the node before its message.
  pub ytp_yamal_tell_lem :
      (bs : List ℕ)
      → IsList y l (bs ++ rest) fin
      → ytp_yamal_tell (last_of (head l) bs + 8) y ≡ (ok (last_of (head l) bs), y)
  unfolding ytp_yamal_tell
  ytp_yamal_tell_lem [] v = rw (ytp_yamal_header_mapped y v.header) (ground (arith, v.index))
  ytp_yamal_tell_lem (b ∷ bs) v =
      let at_head = head-IsMapped y.pages l v.header v.index in
      let w = before_lem y (head l) b bs rest fin at_head v.nexts v.prevs in
      let back : last_of b bs + 8 - 8 ≡ last_of b bs = omega arith in
      rw (ytp_yamal_header_mapped y v.header, back)
        (ground (arith, w.behind, w.prev, w.next, mmnode_from_offset_mapped w.before y w.mapped))

  -- At the head of a list or behind any of its nodes, ytp_yamal_tell then ytp_yamal_seek give back
  -- the iterator and change nothing.
  pub ytp_yamal_seek-tell :
      (bs : List ℕ)
      → IsList y l (bs ++ rest) fin
      → (do offs ← ytp_yamal_tell (last_of (head l) bs + 8); ytp_yamal_seek offs) y
        ≡ (ok (last_of (head l) bs + 8), y)
  unfolding ytp_yamal_tell ytp_yamal_seek
  ytp_yamal_seek-tell [] v = rw (ytp_yamal_header_mapped y v.header) (
      ground (
        arith,
        v.index,
        mmnode_from_offset_mapped (head l) y (head-IsMapped y.pages l v.header v.index),
      ))
  ytp_yamal_seek-tell (b ∷ bs) v =
      let at_head = head-IsMapped y.pages l v.header v.index in
      let w = before_lem y (head l) b bs rest fin at_head v.nexts v.prevs in
      let back : last_of b bs + 8 - 8 ≡ last_of b bs = omega arith in
      rw (ytp_yamal_header_mapped y v.header, back)
        (ground (
          arith,
          w.behind,
          w.prev,
          w.next,
          mmnode_from_offset_mapped w.before y w.mapped,
          mmnode_from_offset_mapped (last_of b bs) y w.here,
        ))

  -- Before any node of a list, ytp_yamal_next then ytp_yamal_prev give back the iterator and
  -- change nothing.
  pub ytp_yamal_prev-next :
      (bs : List ℕ) (o : ℕ)
      → IsList y l (bs ++ o ∷ rest) fin
      → (do it ← ytp_yamal_next (last_of (head l) bs + 8); ytp_yamal_prev it) y
        ≡ (ok (last_of (head l) bs + 8), y)
  ytp_yamal_prev-next bs o v =
      let at_head = head-IsMapped y.pages l v.header v.index in
      let at = last_of (head l) bs in
      let here = Nexts-drop y.pages y.node (head l) bs (o ∷ rest) fin v.nexts in
      let back = Prevs-drop y.node (head l) bs (o ∷ rest) v.prevs in
      let mapped = Nexts-IsMapped y.pages y.node (head l) bs (o ∷ rest) fin at_head v.nexts in
      rw (ytp_yamal_next_lem y at here.0 here.2) (ytp_yamal_prev_lem y o back.0 mapped)

pub ytp_yamal_seek-failed :
    (at : ℕ) (e : Error) (y y' : Yamal)
    → get_mapped_memory at y ≡ (err e, y')
    → ytp_yamal_seek at y ≡ (err e, y')
unfolding ytp_yamal_seek
ytp_yamal_seek-failed at e y y' h = rw (mmnode_from_offset_lem at y, h) refl
