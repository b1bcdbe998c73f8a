-- ===== src/Yamal/Commit/Append.antt =====
-- ytp_yamal_commit appends the reserved nodes to the list.
use yamal.Base.{
  Apart, Apart-Disjoint, Disjoint, Disjoint-last_of, Disjoint-nil, Distinct, List, [], ap, arith,
  last_of, last_of-append, length, suc, sym, zero, ℕ, ◌%◌, ◌++◌, ◌+◌, ◌-◌, ◌<◌, ◌∙◌, ◌∷◌, ◌≡◌, ◌≢◌,
  ◌≤◌,
}
use yamal.Yamal.Chain.{
  Counts, Counts-append, Counts-same, IsList, Nexts, Nexts-Behind, Nexts-IsMapped, Nexts-append,
  Nexts-drop, Nexts-kept, Nexts-last, Nexts-link, Nexts-same, Prevs, Prevs-append, Prevs-same,
  head-IsMapped,
}
use yamal.Yamal.Commit.{cas_next, commit_loop, ytp_yamal_commit}
use yamal.Yamal.Commit.Walk.{
  Renumbered, find_end_open, number_lem, renumber, renumber-Counts, renumber-Renumbered,
}
use yamal.Yamal.Pages.Laws.{IsMapped, mmnode_from_offset_mapped, ytp_yamal_header_mapped}
use yamal.Yamal.State.{Yamal, hdr_size, head, lists, node_header, ok, put_node, word}

-- The nodes `mem ∷ ns` are reserved, linked among themselves, and in no list `os`.
pub record IsReserved (y : Yamal) (lstidx : ℕ) (os : List ℕ) (mem : ℕ) (ns : List ℕ) : Type 0 where
  pub behind : hdr_size ≤ mem
  pub mapped : IsMapped y.pages mem
  pub own : (y.node mem).prev ≡ mem
  pub nexts : Nexts y.pages y.node mem ns 0
  pub prevs : Prevs y.node mem ns
  pub distinct : Distinct (mem ∷ ns)
  pub disjoint : Disjoint (head lstidx ∷ os) (mem ∷ ns)

-- The two writes before the exchange, the exchange, and the write after it.
abbrev pub linked_back : ℕ → ℕ → Yamal → Yamal
linked_back mem last y = put_node mem (record (y.node mem) { prev = last }) y

abbrev pub prepared : ℕ → List ℕ → ℕ → Yamal → Yamal
prepared mem ns last y = renumber mem ns (y.node last).seqno (linked_back mem last y)

abbrev pub exchanged : ℕ → ℕ → Yamal → Yamal
exchanged mem last y = put_node last (record (y.node last) { next = mem }) y

abbrev pub hinted : ℕ → ℕ → Yamal → Yamal
hinted h mem y = put_node h (record (y.node h) { prev = mem }) y

abbrev pub committed : ℕ → ℕ → List ℕ → ℕ → Yamal → Yamal
committed h mem ns last y = hinted h mem (exchanged mem last (prepared mem ns last y))

-- The nodes `xs` are linked behind the node `last` of the list at `h`: that node's `next`, the
-- head's `prev`, and the fields of the new nodes may differ, and nothing else does.
pub record IsKept (h last : ℕ) (xs : List ℕ) (y y' : Yamal) : Type 0 where
  pub pages : y'.pages ≡ y.pages
  pub byte : y'.byte ≡ y.byte
  pub reserved : y'.reserved ≡ y.reserved
  pub os : y'.os ≡ y.os
  pub readonly : y'.readonly ≡ y.readonly
  pub closable : y'.closable ≡ y.closable
  pub magic : y'.magic ≡ y.magic
  pub len : y'.len ≡ y.len
  pub thread_created : y'.thread_created ≡ y.thread_created
  pub size : (p : ℕ) → (y'.node p).size ≡ (y.node p).size
  pub next : (p : ℕ) → p ≢ last → (y'.node p).next ≡ (y.node p).next
  pub prev : (p : ℕ) → p ≢ h → Apart p xs → (y'.node p).prev ≡ (y.node p).prev
  pub seqno : (p : ℕ) → Apart p xs → (y'.node p).seqno ≡ (y.node p).seqno

module _ (y : Yamal) (l : ℕ) (bs rest : List ℕ) (mem : ℕ) (ns : List ℕ) where
  abbrev pub tail_of : ℕ
  tail_of = last_of (last_of (head l) bs) rest

  -- One round of the loop suffices when nobody interferes.
  commit_loop_lem :
      (tries fuel : ℕ)
      → IsMapped y.pages (last_of (head l) bs)
      → Nexts y.pages y.node (last_of (head l) bs) rest 0
      → Nexts y.pages y.node mem ns 0
      → l < lists
      → length rest < fuel
      → length ns < fuel
      → commit_loop (suc tries) fuel mem mem (head l) (last_of (head l) bs) y
        ≡ (ok tail_of, exchanged mem tail_of (prepared mem ns tail_of y))
  unfolding commit_loop cas_next
  commit_loop_lem tries fuel m h r b f g =
      let y1 = linked_back mem tail_of y in
      let kept = renumber-Renumbered mem ns (y.node tail_of).seqno y1 in
      ground (
        arith,
        mmnode_from_offset_mapped (last_of (head l) bs) y m,
        find_end_open fuel (head l) (last_of (head l) bs) rest y h,
        number_lem fuel mem ns (y.node tail_of).seqno y1
            (Nexts-same y.pages y.node y1.node (λ p. ground arith) mem ns 0 r) g,
        kept.next tail_of,
        Nexts-last y.pages y.node (last_of (head l) bs) rest 0 h,
      )

  -- The whole call: what it returns, and the state that it leaves.
  pub ytp_yamal_commit_lem :
      (fuel : ℕ)
      → IsList y l (bs ++ rest) 0
      → (y.node (head l)).prev ≡ last_of (head l) bs
      → IsReserved y l (bs ++ rest) mem ns
      → length rest < fuel
      → length ns < fuel
      → ytp_yamal_commit fuel (mem + node_header) l y
        ≡ (ok (tail_of + 8), committed (head l) mem ns tail_of y)
  unfolding ytp_yamal_commit
  ytp_yamal_commit_lem zero v hint r f g = elim f [ ]
  ytp_yamal_commit_lem (suc fuel) v hint r f g =
      let at_head = head-IsMapped y.pages l v.header v.index in
      let back : mem + node_header - node_header ≡ mem = omega arith in
      rw (back, r.own, ytp_yamal_header_mapped y v.header, hint)
        (ground (
          arith,
          commit_loop_lem fuel (suc fuel)
              (Nexts-IsMapped y.pages y.node (head l) bs rest 0 at_head v.nexts)
              (Nexts-drop y.pages y.node (head l) bs rest 0 v.nexts) r.nexts v.index f g,
        ))

  -- The last node of the list, found through the hint.
  pub tail_of-last : tail_of ≡ last_of (head l) (bs ++ rest)
  tail_of-last = sym (last_of-append (head l) bs rest)

module _ (y : Yamal) (l : ℕ) (os : List ℕ) (mem : ℕ) (ns : List ℕ) where
  abbrev after : Yamal
  after = committed (head l) mem ns (last_of (head l) os) y

  abbrev last : ℕ
  last = last_of (head l) os

  module _ (v : IsList y l os 0) (r : IsReserved y l os mem ns) where
    kept : Renumbered (mem ∷ ns) (linked_back mem last y) (prepared mem ns last y)
    kept = renumber-Renumbered mem ns _ _

    pages_after : after.pages ≡ y.pages
    pages_after = kept.pages

    last-Apart : Apart last (mem ∷ ns)
    last-Apart = Disjoint-last_of (head l) os (mem ∷ ns) r.disjoint

    next_after : (p : ℕ) → p ≢ last → (after.node p).next ≡ (y.node p).next
    next_after p h = ground (arith, kept.next p)

    next_after_last : (after.node last).next ≡ mem
    next_after_last = ground arith

    prev_after : (p : ℕ) → hdr_size ≤ p → p ≢ mem → (after.node p).prev ≡ (y.node p).prev
    prev_after p b h = ground (arith, kept.prev p, v.index)

    prev_after_mem : (after.node mem).prev ≡ last
    prev_after_mem = ground (arith, kept.prev mem, r.disjoint)

    seqno_after : (p : ℕ) → (after.node p).seqno ≡ ((prepared mem ns last y).node p).seqno
    seqno_after p = ground arith

    seqno_after-Apart : (p : ℕ) → Apart p (mem ∷ ns) → (after.node p).seqno ≡ (y.node p).seqno
    seqno_after-Apart p a = ground (arith, seqno_after p, kept.seqno p a)

    Nexts-committed : Nexts after.pages after.node (head l) (os ++ mem ∷ ns) 0
    Nexts-committed = rw pages_after (
        Nexts-append y.pages after.node (head l) os mem ns 0
          (Nexts-link y.pages y.node after.node (head l) os mem v.nexts next_after next_after_last)
          r.behind r.mapped
          (Nexts-kept y.pages y.node after.node last mem ns 0 next_after last-Apart r.nexts))

    Prevs-committed : Prevs after.node (head l) (os ++ mem ∷ ns)
    Prevs-committed =
        Prevs-append after.node (head l) os mem ns
          (Prevs-same y.node after.node (mem ∷ ns) (head l) os (λ p b a. prev_after p b a.0)
            (Nexts-Behind y.pages y.node (head l) os 0 v.nexts) r.disjoint.1 v.prevs)
          prev_after_mem
          (Prevs-same y.node after.node (mem ∷ []) mem ns (λ p b a. prev_after p b a.0)
            (Nexts-Behind y.pages y.node mem ns 0 r.nexts) (Apart-Disjoint mem ns r.distinct.0)
            r.prevs)

    Counts-committed : Counts after.node (head l) (os ++ mem ∷ ns)
    Counts-committed =
        let fresh =
          renumber-Counts mem ns (y.node last).seqno (linked_back mem last y) r.distinct in
        Counts-append after.node (head l) os mem ns
          (Counts-same y.node after.node (mem ∷ ns) (head l) os seqno_after-Apart r.disjoint
            v.counts)
          (seqno_after mem
            ∙ fresh.0
            ∙ ap (λ s. (s + 1) % word) (sym (seqno_after-Apart last last-Apart)))
          (Counts-same ((prepared mem ns last y).node) after.node [] mem ns (λ p a. seqno_after p)
            (Disjoint-nil (mem ∷ ns)) fresh.1)

    -- The list is the old one followed by the new nodes, with the numbers going on.
    pub committed-IsList : IsList after l (os ++ mem ∷ ns) 0
    committed-IsList = record {
      header = rw pages_after v.header;
      index = v.index;
      nexts = Nexts-committed;
      prevs = Prevs-committed;
      counts = Counts-committed;
    }

    -- What the call leaves alone.
    pub committed-IsKept : IsKept (head l) last (mem ∷ ns) y after
    committed-IsKept = record {
      pages = pages_after;
      byte = kept.byte;
      reserved = kept.reserved;
      os = kept.os;
      readonly = kept.readonly;
      closable = kept.closable;
      magic = kept.magic;
      len = kept.len;
      thread_created = kept.thread_created;
      size = λ p. ground (arith, kept.size p);
      next = next_after;
      prev = λ p h a. ground (arith, kept.prev p);
      seqno = seqno_after-Apart;
    }
