-- ===== src/Yamal/Chain.antt =====
-- What a list in the file is: nodes that are linked by `next`, and back by `prev`, with sequence
-- numbers that count up. No code: the notions that the theorems about yamal.c are stated in.
use yamal.Base.{
  Apart, Bool, Disjoint, List, [], ap, arith, last_of, sym, true, ℕ, ◌%◌, ◌++◌, ◌+◌, ◌/◌, ◌<◌, ◌∙◌,
  ◌∷◌, ◌≡◌, ◌≢◌, ◌≤◌,
}
use yamal.Cursor.Array.{same}
use yamal.Yamal.Pages.Laws.{IsMapped}
use yamal.Yamal.State.{Node, Yamal, hdr_size, head, lists, page_size, word}

-- From the node at `at`, `next` leads through the nodes `os`, whose last has the `next` field `fin`.
-- They lie behind the header, in mapped pages.
abbrev pub Nexts : (ℕ → Bool) → (ℕ → Node) → ℕ → List ℕ → ℕ → Type 0
Nexts pages node at [] fin = (node at).next ≡ fin
Nexts pages node at (o ∷ os) fin =
    ((node at).next ≡ o) × (hdr_size ≤ o) × IsMapped pages o × Nexts pages node o os fin

-- Each node's `prev` is the node before it.
abbrev pub Prevs : (ℕ → Node) → ℕ → List ℕ → Type 0
Prevs node at [] = Unit {0}
Prevs node at (o ∷ os) = ((node o).prev ≡ at) × Prevs node o os

-- Each node has the sequence number after that of the node before it.
abbrev pub Counts : (ℕ → Node) → ℕ → List ℕ → Type 0
Counts node at [] = Unit {0}
Counts node at (o ∷ os) = ((node o).seqno ≡ ((node at).seqno + 1) % word) × Counts node o os

-- The list `lstidx` holds the committed nodes `os`; `fin` is 0, or the head where the list is closed.
pub record IsList (y : Yamal) (lstidx : ℕ) (os : List ℕ) (fin : ℕ) : Type 0 where
  pub header : y.pages 0 ≡ true
  pub index : lstidx < lists
  pub nexts : Nexts y.pages y.node (head lstidx) os fin
  pub prevs : Prevs y.node (head lstidx) os
  pub counts : Counts y.node (head lstidx) os

module _ (pages : ℕ → Bool) (n n' : ℕ → Node) (same : (p : ℕ) → (n' p).next ≡ (n p).next) where
  pub Nexts-same :
      (at : ℕ) (os : List ℕ) (fin : ℕ) → Nexts pages n at os fin → Nexts pages n' at os fin
  Nexts-same at [] fin h = same at ∙ h
  Nexts-same at (o ∷ os) fin h = (same at ∙ h.0, h.1, h.2, Nexts-same o os fin h.3)

-- More pages may be mapped.
pub Nexts-grown :
    (pages pages' : ℕ → Bool) (n : ℕ → Node) (at : ℕ) (os : List ℕ) (fin : ℕ)
    → ((p : ℕ) → pages p ≡ true → pages' p ≡ true)
    → Nexts pages n at os fin
    → Nexts pages' n at os fin
Nexts-grown pages pages' n at [] fin g h = h
Nexts-grown pages pages' n at (o ∷ os) fin g h =
    (h.0, h.1, (h.2.0, g _ h.2.1), Nexts-grown pages pages' n o os fin g h.3)

pub Nexts-last :
    (pages : ℕ → Bool) (n : ℕ → Node) (at : ℕ) (os : List ℕ) (fin : ℕ)
    → Nexts pages n at os fin
    → (n (last_of at os)).next ≡ fin
Nexts-last pages n at [] fin h = h
Nexts-last pages n at (o ∷ os) fin h = Nexts-last pages n o os fin h.3

-- The last node of an open list is the only one whose `next` is 0: to set it leaves the others.
pub Nexts-link :
    (pages : ℕ → Bool) (n n' : ℕ → Node) (at : ℕ) (os : List ℕ) (m : ℕ)
    → Nexts pages n at os 0
    → ((p : ℕ) → p ≢ last_of at os → (n' p).next ≡ (n p).next)
    → (n' (last_of at os)).next ≡ m
    → Nexts pages n' at os m
Nexts-link pages n n' at [] m h same e = e
Nexts-link pages n n' at (o ∷ os) m h same e =
    (same at other ∙ h.0, h.1, h.2, Nexts-link pages n n' o os m h.3 same e)
  where
    other : at ≢ last_of o os
    other q = absurd (omega (arith, h, ap (λ p. (n p).next) q, Nexts-last pages n o os 0 h.3))

pub Nexts-append :
    (pages : ℕ → Bool) (n : ℕ → Node) (at : ℕ) (os : List ℕ) (m : ℕ) (ns : List ℕ) (fin : ℕ)
    → Nexts pages n at os m
    → hdr_size ≤ m
    → IsMapped pages m
    → Nexts pages n m ns fin
    → Nexts pages n at (os ++ m ∷ ns) fin
Nexts-append pages n at [] m ns fin h b p t = (h, b, p, t)
Nexts-append pages n at (o ∷ os) m ns fin h b p t =
    (h.0, h.1, h.2, Nexts-append pages n o os m ns fin h.3 b p t)

pub Prevs-append :
    (n : ℕ → Node) (at : ℕ) (os : List ℕ) (m : ℕ) (ns : List ℕ)
    → Prevs n at os
    → (n m).prev ≡ last_of at os
    → Prevs n m ns
    → Prevs n at (os ++ m ∷ ns)
Prevs-append n at [] m ns h e t = (e, t)
Prevs-append n at (o ∷ os) m ns h e t = (h.0, Prevs-append n o os m ns h.1 e t)

pub Counts-append :
    (n : ℕ → Node) (at : ℕ) (os : List ℕ) (m : ℕ) (ns : List ℕ)
    → Counts n at os
    → (n m).seqno ≡ ((n (last_of at os)).seqno + 1) % word
    → Counts n m ns
    → Counts n at (os ++ m ∷ ns)
Counts-append n at [] m ns h e t = (e, t)
Counts-append n at (o ∷ os) m ns h e t = (h.0, Counts-append n o os m ns h.1 e t)

-- The nodes lie behind the header.
abbrev pub Behind : List ℕ → Type 0
Behind [] = Unit {0}
Behind (o ∷ os) = (hdr_size ≤ o) × Behind os

pub Nexts-Behind :
    (pages : ℕ → Bool) (n : ℕ → Node) (at : ℕ) (os : List ℕ) (fin : ℕ)
    → Nexts pages n at os fin
    → Behind os
Nexts-Behind pages n at [] fin h = tt
Nexts-Behind pages n at (o ∷ os) fin h = (h.1, Nexts-Behind pages n o os fin h.3)

pub Nexts-kept :
    (pages : ℕ → Bool) (n n' : ℕ → Node) (k at : ℕ) (os : List ℕ) (fin : ℕ)
    → ((p : ℕ) → p ≢ k → (n' p).next ≡ (n p).next)
    → Apart k (at ∷ os)
    → Nexts pages n at os fin
    → Nexts pages n' at os fin
Nexts-kept pages n n' k at [] fin same d h = same at (λ e. d.0 (sym e)) ∙ h
Nexts-kept pages n n' k at (o ∷ os) fin same d h =
    (same at (λ e. d.0 (sym e)) ∙ h.0, h.1, h.2, Nexts-kept pages n n' k o os fin same d.1 h.3)

pub Prevs-same :
    (n n' : ℕ → Node) (xs : List ℕ) (at : ℕ) (os : List ℕ)
    → ((p : ℕ) → hdr_size ≤ p → Apart p xs → (n' p).prev ≡ (n p).prev)
    → Behind os
    → Disjoint os xs
    → Prevs n at os
    → Prevs n' at os
Prevs-same n n' xs at [] same b d h = tt
Prevs-same n n' xs at (o ∷ os) same b d h =
    (same o b.0 d.0 ∙ h.0, Prevs-same n n' xs o os same b.1 d.1 h.1)

pub Counts-same :
    (n n' : ℕ → Node) (xs : List ℕ) (at : ℕ) (os : List ℕ)
    → ((p : ℕ) → Apart p xs → (n' p).seqno ≡ (n p).seqno)
    → Disjoint (at ∷ os) xs
    → Counts n at os
    → Counts n' at os
Counts-same n n' xs at [] same d h = tt
Counts-same n n' xs at (o ∷ os) same d h = (
  same o d.1.0 ∙ h.0 ∙ ap (λ s. (s + 1) % word) (sym (same at d.0)),
  Counts-same n n' xs o os same d.1 h.1,
)

-- The head's `prev` is a hint of where the list ends: it names the head or a node of the list.
abbrev pub IsHinted : (ℕ → Node) → ℕ → List ℕ → Type 0
IsHinted node at os =
    (bs : List ℕ) × (rest : List ℕ) × (os ≡ bs ++ rest) × ((node at).prev ≡ last_of at bs)

-- The part of a list behind a node of it.
pub Nexts-drop :
    (pages : ℕ → Bool) (n : ℕ → Node) (at : ℕ) (bs rest : List ℕ) (fin : ℕ)
    → Nexts pages n at (bs ++ rest) fin
    → Nexts pages n (last_of at bs) rest fin
Nexts-drop pages n at [] rest fin h = h
Nexts-drop pages n at (b ∷ bs) rest fin h = Nexts-drop pages n b bs rest fin h.3

pub Prevs-drop :
    (n : ℕ → Node) (at : ℕ) (bs rest : List ℕ)
    → Prevs n at (bs ++ rest)
    → Prevs n (last_of at bs) rest
Prevs-drop n at [] rest h = h
Prevs-drop n at (b ∷ bs) rest h = Prevs-drop n b bs rest h.1

pub Counts-drop :
    (n : ℕ → Node) (at : ℕ) (bs rest : List ℕ)
    → Counts n at (bs ++ rest)
    → Counts n (last_of at bs) rest
Counts-drop n at [] rest h = h
Counts-drop n at (b ∷ bs) rest h = Counts-drop n b bs rest h.1

pub Nexts-IsMapped :
    (pages : ℕ → Bool) (n : ℕ → Node) (at : ℕ) (bs rest : List ℕ) (fin : ℕ)
    → IsMapped pages at
    → Nexts pages n at (bs ++ rest) fin
    → IsMapped pages (last_of at bs)
Nexts-IsMapped pages n at [] rest fin m h = m
Nexts-IsMapped pages n at (b ∷ bs) rest fin m h = Nexts-IsMapped pages n b bs rest fin h.2 h.3

-- The list heads lie in page 0.
pub head-IsMapped :
    (pages : ℕ → Bool) (l : ℕ) → pages 0 ≡ true → l < lists → IsMapped pages (head l)
head-IsMapped pages l m h = let e : head l / page_size ≡ 0 = omega arith in rw e (omega arith, m)
