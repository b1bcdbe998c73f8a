-- ===== src/Yamal/Race/Spot.antt =====
-- Where a node stands among the nodes of a list, and what its link tells.
use yamal.Base.{
  Apart, Apart-Disjoint, Bool, Disjoint, Disjoint-last_of, Distinct, List, [], ap, append-nil,
  append_assoc, inl, inr, last_of, last_of-append, refl, subst, sym, ℕ, ◌++◌, ◌∙◌, ◌∷◌, ◌≡◌, ◌≢◌,
  ◌≤◌, ◌⊎◌,
}
use yamal.Yamal.Chain.{Nexts, Nexts-drop}
use yamal.Yamal.Race.{Nodes}
use yamal.Yamal.Race.Frame.{Disjoint-sym}
use yamal.Yamal.Race.Inv.{IsAt, IsShared, IsWriting, Log}
use yamal.Yamal.State.{hdr_size}

-- The node at `at` stands behind `bs`: it is the last one, or its link is the next one.
module _ (pages : ℕ → Bool) (n : Nodes) (h : ℕ) (log : Log) (s : IsShared pages n h log) where
  pub next_of :
      (at : ℕ) (bs rest : List ℕ)
      → log.os ≡ bs ++ rest
      → at ≡ last_of h bs
      → ((at ≡ last_of h log.os) × ((n at).next ≡ log.fin))
        ⊎ ((hdr_size ≤ (n at).next)
            × ((rest' : List ℕ) × (log.os ≡ (bs ++ (n at).next ∷ []) ++ rest')))
  next_of at bs [] e l = inl (
    l ∙ sym (ap (last_of h) (e ∙ append-nil bs)),
    ap (λ p. (n p).next) l
        ∙ Nexts-drop pages n h bs [] log.fin (subst (λ os. Nexts pages n h os log.fin) e s.nexts),
  )
  next_of at bs (o ∷ rest) e l =
      let d =
        Nexts-drop pages n h bs (o ∷ rest) log.fin
          (subst (λ os. Nexts pages n h os log.fin) e s.nexts) in
      let q : (n at).next ≡ o = ap (λ p. (n p).next) l ∙ d.0 in
      inr (rw q d.1, (rest, e ∙ rw q (sym (append_assoc bs (o ∷ []) rest))))

pub last-snoc : (h : ℕ) (bs : List ℕ) (o : ℕ) → o ≡ last_of h (bs ++ o ∷ [])
last-snoc h bs o = sym (last_of-append h bs (o ∷ []))

pub IsAt-last : (h : ℕ) (os : List ℕ) → IsAt h os (last_of h os)
IsAt-last h os = (os, [], sym (append-nil os), refl)

pub Disjoint-prefix : (xs ys zs : List ℕ) → Disjoint (xs ++ ys) zs → Disjoint xs zs
Disjoint-prefix [] ys zs d = tt
Disjoint-prefix (x ∷ xs) ys zs d = (d.0, Disjoint-prefix xs ys zs d.1)

-- A node of the list is not among nodes that the list has not.
pub IsAt-Apart :
    (h : ℕ) (os zs : List ℕ) (at : ℕ) → IsAt h os at → Disjoint (h ∷ os) zs → Apart at zs
IsAt-Apart h os zs at (bs, rest, e, l) d =
    subst (λ p. Apart p zs) (sym l)
      (Disjoint-last_of h bs zs
        (d.0, Disjoint-prefix bs rest zs (subst (λ xs. Disjoint xs zs) e d.1)))

pub IsAt-other : (h : ℕ) (os : List ℕ) (at p : ℕ) → IsAt h os at → Apart p (h ∷ os) → p ≢ at
IsAt-other h os at p a d e = (IsAt-Apart h os (p ∷ []) at a (Apart-Disjoint p (h ∷ os) d)).0 (sym e)

-- One node among others.
pub Apart-among :
    (p : ℕ) (pre : List ℕ) (cur : ℕ) (post : List ℕ) → Apart p (pre ++ cur ∷ post) → p ≢ cur
Apart-among p [] cur post a = a.0
Apart-among p (x ∷ pre) cur post a = Apart-among p pre cur post a.1

pub Disjoint-among :
    (ys pre : List ℕ) (cur : ℕ) (post : List ℕ)
    → Disjoint ys (pre ++ cur ∷ post)
    → Disjoint ys (cur ∷ [])
Disjoint-among [] pre cur post d = tt
Disjoint-among (y ∷ ys) pre cur post d =
    ((Apart-among y pre cur post d.0, tt), Disjoint-among ys pre cur post d.1)

pub Distinct-among :
    (pre : List ℕ) (cur : ℕ) (post : List ℕ)
    → Distinct (pre ++ cur ∷ post)
    → Disjoint pre (cur ∷ [])
Distinct-among [] cur post d = tt
Distinct-among (x ∷ pre) cur post d =
    ((Apart-among x pre cur post d.0, tt), Distinct-among pre cur post d.1)

-- The nodes of a process are linked to each other.
abbrev NextsOf : (ℕ → Bool) → Nodes → List ℕ → Type 0
NextsOf pages n [] = Unit {0}
NextsOf pages n (x ∷ xs) = Nexts pages n x xs 0

Nexts-among :
    (pages : ℕ → Bool) (n : Nodes) (x : ℕ) (pre : List ℕ) (cur : ℕ) (post : List ℕ)
    → Nexts pages n x (pre ++ cur ∷ post) 0
    → Nexts pages n cur post 0
Nexts-among pages n x [] cur post h = h.3
Nexts-among pages n x (y ∷ pre) cur post h = Nexts-among pages n y pre cur post h.3

pub NextsOf-among :
    (pages : ℕ → Bool) (n : Nodes) (pre : List ℕ) (cur : ℕ) (post : List ℕ)
    → NextsOf pages n (pre ++ cur ∷ post)
    → Nexts pages n cur post 0
NextsOf-among pages n [] cur post h = h
NextsOf-among pages n (x ∷ pre) cur post h = Nexts-among pages n x pre cur post h

pub IsWriting-among :
    (pages : ℕ → Bool) (n : Nodes) (h : ℕ) (log : Log) (xs : List ℕ) (mem : ℕ)
    → IsWriting pages n h log xs mem
    → (pre : List ℕ) (cur : ℕ) (post : List ℕ) → xs ≡ pre ++ cur ∷ post
    → Nexts pages n cur post 0
IsWriting-among pages n h log xs mem w pre cur post e =
    NextsOf-among pages n pre cur post (subst (NextsOf pages n) (sym w.mine ∙ e) w.own.nexts)

-- A new node is apart from the list.
pub Apart-list :
    (h : ℕ) (os : List ℕ) (mem : ℕ) (ns : List ℕ) → Disjoint (h ∷ os) (mem ∷ ns) → Apart mem os
Apart-list h os mem ns d = (Disjoint-sym os (mem ∷ ns) d.1).0

-- Two beginnings of a list.
pub prefixes :
    (xs ys rest rest' : List ℕ)
    → xs ++ rest ≡ ys ++ rest'
    → (zs : List ℕ) × ((ys ≡ xs ++ zs) ⊎ (xs ≡ ys ++ zs))
prefixes [] ys rest rest' e = (ys, inl refl)
prefixes (x ∷ xs) [] rest rest' e = (x ∷ xs, inr refl)
prefixes (x ∷ xs) (y ∷ ys) rest rest' e =
    let hd : x ≡ y = cc e in
    let tl : xs ++ rest ≡ ys ++ rest' = cc e in
    let (zs, z) = prefixes xs ys rest rest' tl in
    elim z [ inl q ↦ (zs, inl (cc (hd, q))) | inr q ↦ (zs, inr (cc (hd, q))) ]
