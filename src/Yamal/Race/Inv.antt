-- ===== src/Yamal/Race/Inv.antt =====
-- What each process knows about the shared list, and the log that the list stands for.
use yamal.Base.{
  Apart, Bool, Disjoint, Distinct, List, last_of, ℕ, ◌++◌, ◌<◌, ◌∷◌, ◌≡◌, ◌≢◌, ◌≤◌, ◌⊎◌,
}
use yamal.Yamal.Chain.{Counts, IsHinted, Nexts, Prevs}
use yamal.Yamal.Pages.Laws.{IsMapped}
use yamal.Yamal.Race.{
  Nodes, Pc, System, following, found, linked, loaded, numbering, reading, ready, refused, returned,
  sealing, seeking, shut, start, to_close, walking,
}
use yamal.Yamal.State.{hdr_size}

-- The log: the nodes of the list in order, and the link of the last one, which is 0 while the list is
-- open and the head's offset once it is closed.
pub record Log : Type 0 where
  pub os : List ℕ
  pub fin : ℕ

-- The node at `at` is the head of the list or a node of it.
abbrev pub IsAt : ℕ → List ℕ → ℕ → Type 0
IsAt h os at = (bs : List ℕ) × (rest : List ℕ) × (os ≡ bs ++ rest) × (at ≡ last_of h bs)

-- The nodes `xs` stand in the list one after the other, behind the node at `at`.
abbrev pub IsPlaced : ℕ → List ℕ → List ℕ → ℕ → Type 0
IsPlaced h os xs at =
    (bs : List ℕ) × (rest : List ℕ) × (os ≡ bs ++ (xs ++ rest)) × (at ≡ last_of h bs)

-- The new nodes `mem ∷ ns` of a process, before they are linked.
pub record IsPrivate (pages : ℕ → Bool) (n : Nodes) (h : ℕ) (os : List ℕ) (mem : ℕ) (ns : List ℕ)
    : Type 0 where
  pub behind : hdr_size ≤ mem
  pub mapped : IsMapped pages mem
  pub nexts : Nexts pages n mem ns 0
  pub prevs : Prevs n mem ns
  pub distinct : Distinct (mem ∷ ns)
  pub disjoint : Disjoint (h ∷ os) (mem ∷ ns)

-- A part of the new nodes has its numbers, which follow that of the node at `at`.
abbrev pub IsNumbered : Nodes → ℕ → List ℕ → ℕ → ℕ → Type 0
IsNumbered n at xs cur seqno =
    (pre : List ℕ) × (post : List ℕ) × (xs ≡ pre ++ cur ∷ post)
    × Counts n at pre
    × ((n (last_of at pre)).seqno ≡ seqno)

module _ (pages : ℕ → Bool) (n : Nodes) (h : ℕ) (log : Log) (xs : List ℕ) where
  -- The process commits the nodes `xs`, and has not linked them yet.
  pub record IsWriting (mem : ℕ) : Type 0 where
    pub ns : List ℕ
    pub mine : xs ≡ mem ∷ ns
    pub own : IsPrivate pages n h log.os mem ns

  -- What holds where a process stands; `xs` are the nodes that it commits.
  abbrev pub IsLocal : Pc → Type 0
  IsLocal (start mem) = IsWriting mem × ((n mem).prev ≡ mem)
  IsLocal (loaded mem offs) = IsWriting mem × (offs ≡ mem)
  IsLocal (walking mem offs at) = IsWriting mem × (offs ≡ mem) × IsAt h log.os at
  IsLocal (found mem offs at) = IsWriting mem × (offs ≡ mem) × IsAt h log.os at
  IsLocal (numbering mem offs at cur seqno) =
      IsWriting mem
      × (offs ≡ mem)
      × IsAt h log.os at
      × ((n mem).prev ≡ at)
      × IsNumbered n at xs cur seqno
  IsLocal (ready mem offs at) =
      IsWriting mem × (offs ≡ mem) × IsAt h log.os at × ((n mem).prev ≡ at) × Counts n at xs
  IsLocal (linked offs at) = IsPlaced h log.os xs at × ((ns : List ℕ) × (xs ≡ offs ∷ ns))
  IsLocal (returned at) = IsPlaced h log.os xs at
  IsLocal refused = log.fin ≡ h
  IsLocal to_close = Unit {0}
  IsLocal (seeking at) = IsAt h log.os at
  IsLocal (sealing at) = IsAt h log.os at
  IsLocal shut = log.fin ≡ h
  IsLocal (reading at ys) = (rest : List ℕ) × (log.os ≡ ys ++ rest) × (at ≡ last_of h ys)
  IsLocal (following at ys) =
      (o : ℕ) × (rest : List ℕ) × (log.os ≡ ys ++ o ∷ rest) × (at ≡ last_of h ys)

-- The list in the shared nodes is the log.
pub record IsShared (pages : ℕ → Bool) (n : Nodes) (h : ℕ) (log : Log) : Type 0 where
  pub low : h < hdr_size
  pub nonzero : h ≢ 0
  pub nexts : Nexts pages n h log.os log.fin
  pub prevs : Prevs n h log.os
  pub counts : Counts n h log.os
  pub ended : (log.fin ≡ 0) ⊎ (log.fin ≡ h)
  pub hint : IsHinted n h log.os

-- The invariant: the processes commit nodes that no two of them share.
pub record Inv (pages : ℕ → Bool) (h : ℕ) (mine : ℕ → List ℕ) (log : Log) (s : System)
    : Type 0 where
  pub shared : IsShared pages s.node h log
  pub apart : (i j : ℕ) → i ≢ j → Disjoint (mine i) (mine j)
  pub local : (i : ℕ) → IsLocal pages s.node h log (mine i) (s.pc i)

-- What one turn of the process with the nodes `xs` does to the log: nothing, or the nodes, which are new
-- to it, are appended to an open list, or an open list is closed.
pub data LogStep (h : ℕ) (xs : List ℕ) (log : Log) : Log → Type 0 where
  stay : LogStep h xs log log
  append :
      log.fin ≡ 0
      → (mem : ℕ) (ns : List ℕ) → xs ≡ mem ∷ ns
      → Apart mem log.os
      → LogStep h xs log (record { os = log.os ++ xs; fin = 0 })
  close : log.fin ≡ 0 → LogStep h xs log (record { os = log.os; fin = h })
