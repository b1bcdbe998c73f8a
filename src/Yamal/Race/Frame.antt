-- ===== src/Yamal/Race/Frame.antt =====
-- What a turn of one process leaves alone for the others.
use yamal.Base.{
  Apart, Apart-Disjoint, Bool, Disjoint, Disjoint-nil, List, [], ap, append-nil, append_assoc, inl,
  inr, last_of, subst, sym, ℕ, ◌%◌, ◌++◌, ◌+◌, ◌∙◌, ◌∷◌, ◌≡◌, ◌⊎◌,
}
use yamal.Cursor.Array.{same}
use yamal.Yamal.Chain.{Counts, Nexts, Prevs}
use yamal.Yamal.Race.{
  Nodes, Pc, following, found, linked, loaded, numbering, reading, ready, refused, returned,
  sealing, seeking, shut, start, to_close, walking,
}
use yamal.Yamal.Race.Inv.{IsAt, IsLocal, IsNumbered, IsPlaced, IsWriting, Log}
use yamal.Yamal.State.{Node, word}

-- The nodes `xs` are as they were.
abbrev pub IsSame : Nodes → Nodes → List ℕ → Type 0
IsSame n n' [] = Unit {0}
IsSame n n' (x ∷ xs) = (n' x ≡ n x) × IsSame n n' xs

pub IsSame-Apart :
    (n n' : Nodes) (ys xs : List ℕ)
    → ((p : ℕ) → Apart p ys → n' p ≡ n p)
    → Disjoint xs ys
    → IsSame n n' xs
IsSame-Apart n n' ys [] same d = tt
IsSame-Apart n n' ys (x ∷ xs) same d = (same x d.0, IsSame-Apart n n' ys xs same d.1)

pub Nexts-IsSame :
    (pages : ℕ → Bool) (n n' : Nodes) (at : ℕ) (os : List ℕ) (fin : ℕ)
    → IsSame n n' (at ∷ os)
    → Nexts pages n at os fin
    → Nexts pages n' at os fin
Nexts-IsSame pages n n' at [] fin s h = ap (λ (k : Node). k.next) s.0 ∙ h
Nexts-IsSame pages n n' at (o ∷ os) fin s h =
    (ap (λ (k : Node). k.next) s.0 ∙ h.0, h.1, h.2, Nexts-IsSame pages n n' o os fin s.1 h.3)

pub Prevs-IsSame :
    (n n' : Nodes) (at : ℕ) (os : List ℕ) → IsSame n n' os → Prevs n at os → Prevs n' at os
Prevs-IsSame n n' at [] s h = tt
Prevs-IsSame n n' at (o ∷ os) s h =
    (ap (λ (k : Node). k.prev) s.0 ∙ h.0, Prevs-IsSame n n' o os s.1 h.1)

pub Counts-IsSame :
    (n n' : Nodes) (at : ℕ) (os : List ℕ)
    → (n' at).seqno ≡ (n at).seqno
    → IsSame n n' os
    → Counts n at os
    → Counts n' at os
Counts-IsSame n n' at [] e s h = tt
Counts-IsSame n n' at (o ∷ os) e s h = (
  ap (λ (k : Node). k.seqno) s.0 ∙ h.0 ∙ ap (λ s. (s + 1) % word) (sym e),
  Counts-IsSame n n' o os (ap (λ (k : Node). k.seqno) s.0) s.1 h.1,
)

-- No node has that field written.
pub Prevs-unwritten :
    (n n' : Nodes)
    → ((p : ℕ) → (n' p).prev ≡ (n p).prev)
    → (at : ℕ) (os : List ℕ) → Prevs n at os
    → Prevs n' at os
Prevs-unwritten n n' same at [] h = tt
Prevs-unwritten n n' same at (o ∷ os) h = (same o ∙ h.0, Prevs-unwritten n n' same o os h.1)

pub Counts-unwritten :
    (n n' : Nodes)
    → ((p : ℕ) → (n' p).seqno ≡ (n p).seqno)
    → (at : ℕ) (os : List ℕ) → Counts n at os
    → Counts n' at os
Counts-unwritten n n' same at [] h = tt
Counts-unwritten n n' same at (o ∷ os) h =
    (same o ∙ h.0 ∙ ap (λ s. (s + 1) % word) (sym (same at)), Counts-unwritten n n' same o os h.1)

-- The list has grown.
module _ (h : ℕ) (os es : List ℕ) where
  pub IsAt-grown : (at : ℕ) → IsAt h os at → IsAt h (os ++ es) at
  IsAt-grown at (bs, rest, e, l) =
      (bs, rest ++ es, ap (λ xs. xs ++ es) e ∙ append_assoc bs rest es, l)

  pub IsPlaced-grown : (xs : List ℕ) (at : ℕ) → IsPlaced h os xs at → IsPlaced h (os ++ es) xs at
  IsPlaced-grown xs at (bs, rest, e, l) = (
    bs,
    rest ++ es,
    ap (λ ys. ys ++ es) e
        ∙ append_assoc bs (xs ++ rest) es
        ∙ ap (λ ys. bs ++ ys) (append_assoc xs rest es),
    l,
  )

pub Disjoint-append : (xs ys zs : List ℕ) → Disjoint xs zs → Disjoint ys zs → Disjoint (xs ++ ys) zs
Disjoint-append [] ys zs d e = e
Disjoint-append (x ∷ xs) ys zs d e = (d.0, Disjoint-append xs ys zs d.1 e)

pub Disjoint-cons :
    (xs : List ℕ) (y : ℕ) (ys : List ℕ)
    → Disjoint xs (y ∷ [])
    → Disjoint xs ys
    → Disjoint xs (y ∷ ys)
Disjoint-cons [] y ys d e = tt
Disjoint-cons (x ∷ xs) y ys d e = ((d.0.0, e.0), Disjoint-cons xs y ys d.1 e.1)

pub Disjoint-sym : (xs ys : List ℕ) → Disjoint xs ys → Disjoint ys xs
Disjoint-sym [] ys d = Disjoint-nil ys
Disjoint-sym (x ∷ xs) ys d =
    Disjoint-cons ys x xs (Apart-Disjoint x ys d.0) (Disjoint-sym xs ys d.1)

-- What a turn of a process with the nodes `ys` does, seen from a process with the nodes `xs`.
pub record Effect (n n' : Nodes) (h : ℕ) (log log' : Log) (ys : List ℕ) : Type 0 where
  pub elsewhere : (p : ℕ) → Apart p ys → Apart p (h ∷ log.os) → n' p ≡ n p
  pub seqno : (at : ℕ) → IsAt h log.os at → (n' at).seqno ≡ (n at).seqno
  pub grown : List ℕ
  pub grows : log'.os ≡ log.os ++ grown
  pub from : (grown ≡ []) ⊎ (grown ≡ ys)
  pub ended : log.fin ≡ h → log'.fin ≡ h

IsSame-both :
    (n n' : Nodes) (xs ys zs : List ℕ)
    → ((p : ℕ) → Apart p ys → Apart p zs → n' p ≡ n p)
    → Disjoint xs ys
    → Disjoint xs zs
    → IsSame n n' xs
IsSame-both n n' [] ys zs same d e = tt
IsSame-both n n' (x ∷ xs) ys zs same d e = (same x d.0 e.0, IsSame-both n n' xs ys zs same d.1 e.1)

IsSame-prefix : (n n' : Nodes) (xs ys : List ℕ) → IsSame n n' (xs ++ ys) → IsSame n n' xs
IsSame-prefix n n' [] ys s = tt
IsSame-prefix n n' (x ∷ xs) ys s = (s.0, IsSame-prefix n n' xs ys s.1)

seqno-last :
    (n n' : Nodes) (at : ℕ) (xs : List ℕ)
    → (n' at).seqno ≡ (n at).seqno
    → IsSame n n' xs
    → (n' (last_of at xs)).seqno ≡ (n (last_of at xs)).seqno
seqno-last n n' at [] e s = e
seqno-last n n' at (x ∷ xs) e s = seqno-last n n' x xs (ap (λ (k : Node). k.seqno) s.0) s.1

module _ {n n' : Nodes} {h : ℕ} {log log' : Log} {ys : List ℕ} (e : Effect n n' h log log' ys) where
  still-IsAt : (at : ℕ) → IsAt h log.os at → IsAt h log'.os at
  still-IsAt at a = rw e.grows (IsAt-grown h log.os e.grown at a)

  still-IsPlaced : (zs : List ℕ) (at : ℕ) → IsPlaced h log.os zs at → IsPlaced h log'.os zs at
  still-IsPlaced zs at a = rw e.grows (IsPlaced-grown h log.os e.grown zs at a)

  module _ (xs : List ℕ) (d : Disjoint xs ys) where
    still-Disjoint : Disjoint (h ∷ log.os) xs → Disjoint (h ∷ log'.os) xs
    still-Disjoint a = elim e.from [
      | inl nothing ↦ rw (e.grows, nothing, append-nil) a
      | inr all_of ↦
          rw (e.grows, all_of) (Disjoint-append (h ∷ log.os) ys xs a (Disjoint-sym xs ys d))
    ]

    IsSame-nodes : Disjoint (h ∷ log.os) xs → IsSame n n' xs
    IsSame-nodes a =
        IsSame-both n n' xs ys (h ∷ log.os) e.elsewhere d (Disjoint-sym (h ∷ log.os) xs a)

    module _ (pages : ℕ → Bool) where
      still-IsWriting :
          (mem : ℕ) → IsWriting pages n h log xs mem → IsWriting pages n' h log' xs mem
      still-IsWriting mem w =
          let o = w.own in
          let same : IsSame n n' (mem ∷ w.ns) =
            subst (IsSame n n') w.mine (IsSame-nodes (rw w.mine o.disjoint)) in
          record {
            ns = w.ns;
            mine = w.mine;
            own = record {
              behind = o.behind;
              mapped = o.mapped;
              nexts = Nexts-IsSame pages n n' mem w.ns 0 same o.nexts;
              prevs = Prevs-IsSame n n' mem w.ns same.1 o.prevs;
              distinct = o.distinct;
              disjoint =
                  subst (λ zs. Disjoint (h ∷ log'.os) zs) w.mine
                    (still-Disjoint (rw w.mine o.disjoint));
            };
          }

      -- The nodes of a writing process, and its first one.
      writing-IsSame : (mem : ℕ) → IsWriting pages n h log xs mem → IsSame n n' xs
      writing-IsSame mem w = IsSame-nodes (rw w.mine w.own.disjoint)

      first_prev : (mem : ℕ) → IsWriting pages n h log xs mem → (n' mem).prev ≡ (n mem).prev
      first_prev mem w =
          let same : IsSame n n' (mem ∷ w.ns) = subst (IsSame n n') w.mine (writing-IsSame mem w) in
          ap (λ (k : Node). k.prev) same.0

      still-IsNumbered :
          (at cur seqno : ℕ)
          → IsSame n n' xs
          → IsAt h log.os at
          → IsNumbered n at xs cur seqno
          → IsNumbered n' at xs cur seqno
      still-IsNumbered at cur seqno s a (pre, post, q, c, l) =
          let part = IsSame-prefix n n' pre (cur ∷ post) (subst (IsSame n n') q s) in
          (
            pre,
            post,
            q,
            Counts-IsSame n n' at pre (e.seqno at a) part c,
            seqno-last n n' at pre (e.seqno at a) part ∙ l,
          )

      -- What a process knows stays true when another one takes its turn.
      pub Effect-IsLocal : (p : Pc) → IsLocal pages n h log xs p → IsLocal pages n' h log' xs p
      Effect-IsLocal (start mem) (w, own) = (still-IsWriting mem w, first_prev mem w ∙ own)
      Effect-IsLocal (loaded mem offs) (w, q) = (still-IsWriting mem w, q)
      Effect-IsLocal (walking mem offs at) (w, q, a) = (still-IsWriting mem w, q, still-IsAt at a)
      Effect-IsLocal (found mem offs at) (w, q, a) = (still-IsWriting mem w, q, still-IsAt at a)
      Effect-IsLocal (numbering mem offs at cur seqno) (w, q, a, back, num) = (
        still-IsWriting mem w,
        q,
        still-IsAt at a,
        first_prev mem w ∙ back,
        still-IsNumbered at cur seqno (writing-IsSame mem w) a num,
      )
      Effect-IsLocal (ready mem offs at) (w, q, a, back, c) = (
        still-IsWriting mem w,
        q,
        still-IsAt at a,
        first_prev mem w ∙ back,
        Counts-IsSame n n' at xs (e.seqno at a) (writing-IsSame mem w) c,
      )
      Effect-IsLocal (linked offs at) (a, q) = (still-IsPlaced xs at a, q)
      Effect-IsLocal (returned at) a = still-IsPlaced xs at a
      Effect-IsLocal refused q = e.ended q
      Effect-IsLocal to_close q = tt
      Effect-IsLocal (seeking at) a = still-IsAt at a
      Effect-IsLocal (sealing at) a = still-IsAt at a
      Effect-IsLocal shut q = e.ended q
      Effect-IsLocal (reading at ys') (rest, q, l) =
          (rest ++ e.grown, e.grows ∙ ap (λ zs. zs ++ e.grown) q ∙ append_assoc ys' rest e.grown, l)
      Effect-IsLocal (following at ys') (o, rest, q, l) = (
        o,
        rest ++ e.grown,
        e.grows ∙ ap (λ zs. zs ++ e.grown) q ∙ append_assoc ys' (o ∷ rest) e.grown,
        l,
      )
