-- ===== src/Yamal/Commit/Walk.antt =====
-- The loops of ytp_yamal_commit, each run alone: it ends, and how.
use yamal.Base.{
  Apart, Distinct, List, [], ap, arith, last_of, length, refl, suc, sym, zero, ℕ, ◌%◌, ◌+◌, ◌<◌,
  ◌∙◌, ◌∷◌, ◌≡◌, ◌≢◌,
}
use yamal.Yamal.Chain.{Counts, Nexts, Nexts-same}
use yamal.Yamal.Commit.{find_end, number}
use yamal.Yamal.Pages.Laws.{mmnode_from_offset_mapped}
use yamal.Yamal.State.{Yamal, closed, err, hdr_size, ok, put_node, word}

-- The search for the end follows `next` to the last node.
pub find_end_open :
    (fuel closing at : ℕ) (os : List ℕ) (y : Yamal)
    → Nexts y.pages y.node at os 0
    → length os < fuel
    → closing < hdr_size
    → find_end fuel closing at y ≡ (ok (last_of at os), y)
unfolding find_end
find_end_open zero closing at os y h f c = elim f [ ]
find_end_open (suc fuel) closing at [] y h f c = rw h
find_end_open (suc fuel) closing at (o ∷ os) y h f c =
    ground (arith, mmnode_from_offset_mapped o y h.2, find_end_open fuel closing o os y h.3)

-- On a closed list it ends in an error, and nothing has changed.
pub find_end_closed :
    (fuel closing at : ℕ) (os : List ℕ) (y : Yamal)
    → Nexts y.pages y.node at os closing
    → length os < fuel
    → closing < hdr_size
    → closing ≢ 0
    → find_end fuel closing at y ≡ (err closed, y)
unfolding find_end
find_end_closed zero closing at os y h f c z = elim f [ ]
find_end_closed (suc fuel) closing at [] y h f c z = ground arith
find_end_closed (suc fuel) closing at (o ∷ os) y h f c z =
    ground (arith, mmnode_from_offset_mapped o y h.2, find_end_closed fuel closing o os y h.3)

-- The next number is written to a node.
abbrev pub numbered : ℕ → ℕ → Yamal → Yamal
numbered at seqno y = put_node at (record (y.node at) { seqno = (seqno + 1) % word }) y

-- The new nodes with the numbers after `seqno`.
unfoldable pub renumber : ℕ → List ℕ → ℕ → Yamal → Yamal
renumber at [] seqno y = numbered at seqno y
renumber at (o ∷ os) seqno y = renumber o os ((seqno + 1) % word) (numbered at seqno y)

-- The walk over the new nodes ends, and has renumbered them.
pub number_lem :
    (fuel at : ℕ) (os : List ℕ) (seqno : ℕ) (y : Yamal)
    → Nexts y.pages y.node at os 0
    → length os < fuel
    → number fuel at seqno y ≡ (ok tt, renumber at os seqno y)
unfolding number renumber
number_lem zero at os seqno y h f = elim f [ ]
number_lem (suc fuel) at [] seqno y h f = ground arith
number_lem (suc fuel) at (o ∷ os) seqno y h f = ground (
  arith,
  mmnode_from_offset_mapped o (numbered at seqno y) h.2,
  number_lem fuel o os ((seqno + 1) % word) (numbered at seqno y)
      (Nexts-same y.pages y.node (numbered at seqno y).node (λ p. ground arith) o os 0 h.3),
)

-- Only sequence numbers change, and only those of the new nodes.
pub record Renumbered (xs : List ℕ) (y y' : Yamal) : Type 0 where
  pub pages : y'.pages ≡ y.pages
  pub byte : y'.byte ≡ y.byte
  pub reserved : y'.reserved ≡ y.reserved
  pub os : y'.os ≡ y.os
  pub readonly : y'.readonly ≡ y.readonly
  pub closable : y'.closable ≡ y.closable
  pub magic : y'.magic ≡ y.magic
  pub len : y'.len ≡ y.len
  pub thread_created : y'.thread_created ≡ y.thread_created
  pub next : (p : ℕ) → (y'.node p).next ≡ (y.node p).next
  pub prev : (p : ℕ) → (y'.node p).prev ≡ (y.node p).prev
  pub size : (p : ℕ) → (y'.node p).size ≡ (y.node p).size
  pub seqno : (p : ℕ) → Apart p xs → (y'.node p).seqno ≡ (y.node p).seqno

pub renumber-Renumbered :
    (at : ℕ) (os : List ℕ) (seqno : ℕ) (y : Yamal) → Renumbered (at ∷ os) y (renumber at os seqno y)
unfolding renumber
renumber-Renumbered at [] seqno y = record {
  pages = refl;
  byte = refl;
  reserved = refl;
  os = refl;
  readonly = refl;
  closable = refl;
  magic = refl;
  len = refl;
  thread_created = refl;
  next = λ p. ground arith;
  prev = λ p. ground arith;
  size = λ p. ground arith;
  seqno = λ p a. ground arith;
}
renumber-Renumbered at (o ∷ os) seqno y =
    let y1 = numbered at seqno y in
    let ih = renumber-Renumbered o os ((seqno + 1) % word) y1 in
    record {
      pages = ih.pages;
      byte = ih.byte;
      reserved = ih.reserved;
      os = ih.os;
      readonly = ih.readonly;
      closable = ih.closable;
      magic = ih.magic;
      len = ih.len;
      thread_created = ih.thread_created;
      next = λ p. ih.next p ∙ (ground arith);
      prev = λ p. ih.prev p ∙ (ground arith);
      size = λ p. ih.size p ∙ (ground arith);
      seqno = λ p a. ih.seqno p a.1 ∙ (ground arith);
    }

-- The numbers count up from `seqno`, without a gap.
pub renumber-Counts :
    (at : ℕ) (os : List ℕ) (seqno : ℕ) (y : Yamal)
    → Distinct (at ∷ os)
    → (((renumber at os seqno y).node at).seqno ≡ (seqno + 1) % word)
      × Counts (renumber at os seqno y).node at os
unfolding renumber
renumber-Counts at [] seqno y d = (ground arith, tt)
renumber-Counts at (o ∷ os) seqno y d =
    let y1 = numbered at seqno y in
    let ih = renumber-Counts o os ((seqno + 1) % word) y1 d.1 in
    let kept = (renumber-Renumbered o os ((seqno + 1) % word) y1).seqno at d.0 in
    let mine : (y1.node at).seqno ≡ (seqno + 1) % word = ground arith in
    (kept ∙ mine, (ih.0 ∙ ap (λ s. (s + 1) % word) (sym (kept ∙ mine)), ih.1))
