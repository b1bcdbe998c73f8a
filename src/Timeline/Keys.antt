-- ===== src/Timeline/Keys.antt =====
-- The prefixes of a name that channel_announcement looks up.
use yamal.Base.{
  Bool-cases, Option-cases, [], ap, arith, false, inl, inr, length, ltb, none, refl, some, subst,
  suc, sym, true, zero, ℕ, ◌<◌, ◌==◌, ◌∙◌, ◌∷◌, ◌≡◌, ◌≢◌, ◌≤◌, ◌⊎◌,
}
use yamal.Control.Order.{member}
use yamal.Control.Registry.{Name, name_test}
use yamal.Streams.State.{bytes_equal}
use yamal.Streams.State.Laws.{bytes_equal-≡, bytes_equal_iff, bytes_equal_refl}
use yamal.Timeline.Prefix.{ends_slash, init, parent, parents, slash, starts, upto_slash}

pub starts_refl : (p : Name) → starts p p ≡ true
unfolding starts
starts_refl [] = refl
starts_refl (x ∷ xs) = ground (arith, starts_refl xs)

starts_trans : (p q n : Name) → starts p q ≡ true → starts q n ≡ true → starts p n ≡ true
unfolding starts
starts_trans [] q n h k = refl
starts_trans (a ∷ p) [] n h k = absurd (ground (arith, h))
starts_trans (a ∷ p) (b ∷ q) [] h k = absurd (ground (arith, k))
starts_trans (a ∷ p) (b ∷ q) (x ∷ n) h k = ground (arith, h, k, starts_trans p q n)

ends_slash-cons : (x : ℕ) (p : Name) → ends_slash p ≡ true → ends_slash (x ∷ p) ≡ true
unfolding ends_slash
ends_slash-cons x [] h = absurd (ground (arith, h))
ends_slash-cons x (y ∷ p) h = h

ends_slash-one : (x : ℕ) → (x == slash) ≡ true → ends_slash (x ∷ []) ≡ true
unfolding ends_slash
ends_slash-one x h = h

-- What is cut off at a slash.
abbrev IsCut : Name → Name → Type 0
IsCut xs q = (starts q xs ≡ true) × (ends_slash q ≡ true) × (length q ≤ length xs)

upto_slash-IsCut : (xs q : Name) → upto_slash xs ≡ some q → IsCut xs q
unfolding upto_slash starts
upto_slash-IsCut [] q h = absurd (cc h)
upto_slash-IsCut (x ∷ xs) q h = elim (Option-cases (upto_slash xs)) [
  | inl cut ↦ elim (Bool-cases (x == slash)) [
    | inl b ↦
        let e : upto_slash (x ∷ xs) ≡ some (x ∷ []) = rw (cut, b) refl in
        let e' : x ∷ [] ≡ q = cc (e, h) in
        let t : ends_slash (x ∷ []) ≡ true = ends_slash-one x b in
        subst (IsCut (x ∷ xs)) e' (ground arith, t, omega arith)
    | inr b ↦ let e : upto_slash (x ∷ xs) ≡ none = rw (cut, b) refl in absurd (cc (e, h))
  ]
  | inr (p, cut) ↦
      let e : upto_slash (x ∷ xs) ≡ some (x ∷ p) = rw cut refl in
      let e' : x ∷ p ≡ q = cc (e, h) in
      let (s, t, l) = upto_slash-IsCut xs p cut in
      subst (IsCut (x ∷ xs)) e' (ground (arith, s), ends_slash-cons x p t, omega (arith, l))
]

-- A part that ends in a slash starts what is cut at the last slash.
upto_slash-longest :
    (p xs : Name)
    → ends_slash p ≡ true
    → starts p xs ≡ true
    → (q : Name) × (upto_slash xs ≡ some q) × (starts p q ≡ true)
unfolding upto_slash starts ends_slash
upto_slash-longest [] xs h s = absurd (ground (arith, h))
upto_slash-longest (a ∷ p) [] h s = absurd (ground (arith, s))
upto_slash-longest (a ∷ []) (x ∷ xs) h s = elim (Option-cases (upto_slash xs)) [
  | inl cut ↦
      let b : (x == slash) ≡ true = ground (arith, h, s) in
      (x ∷ [], rw (cut, b) refl, ground (arith, s))
  | inr (q, cut) ↦ (x ∷ q, rw cut refl, ground (arith, s))
]
upto_slash-longest (a ∷ b ∷ p) (x ∷ xs) h s =
    let rest : starts (b ∷ p) xs ≡ true = ground (arith, s) in
    let (q, cut, t) = upto_slash-longest (b ∷ p) xs h rest in
    (x ∷ q, rw cut refl, ground (arith, s, t))

-- Without its last character.
init-starts : (p n : Name) → starts p n ≡ true → p ≢ n → starts p (init n) ≡ true
unfolding starts init
init-starts [] n h z = refl
init-starts (a ∷ p) [] h z = absurd (ground (arith, h))
init-starts (a ∷ []) (x ∷ []) h z =
    let q : a ≡ x = ground (arith, h) in absurd (z (ap (λ c. c ∷ []) q))
init-starts (a ∷ b ∷ p) (x ∷ []) h z = absurd (ground (arith, h))
init-starts (a ∷ p) (x ∷ y ∷ n) h z =
    let q : a ≡ x = ground (arith, h) in
    let rest : starts p (y ∷ n) ≡ true = ground (arith, h) in
    let other : p ≢ y ∷ n = λ e. z (rw (q, e) refl) in
    let deep = init-starts p (y ∷ n) rest other in ground (arith, h, deep)

starts-init : (n : Name) → starts (init n) n ≡ true
unfolding starts init
starts-init [] = refl
starts-init (x ∷ []) = refl
starts-init (x ∷ y ∷ n) = ground (arith, starts-init (y ∷ n))

length-init : (x : ℕ) (n : Name) → length (init (x ∷ n)) ≡ length n
unfolding init
length-init x [] = refl
length-init x (y ∷ n) = ap suc (length-init y n)

parent-IsCut :
    (n q : Name)
    → parent n ≡ some q
    → (starts q n ≡ true) × (ends_slash q ≡ true) × (length q < length n)
unfolding parent
parent-IsCut [] q h = absurd (cc h)
parent-IsCut (x ∷ n) q h = elim (Bool-cases (ltb (length (x ∷ n)) 2)) [
  | inl b ↦ let e : parent (x ∷ n) ≡ none = rw b refl in absurd (cc (e, h))
  | inr b ↦
      let e : parent (x ∷ n) ≡ upto_slash (init (x ∷ n)) = rw b refl in
      let (s, t, l) = upto_slash-IsCut (init (x ∷ n)) q (sym e ∙ h) in
      (
        starts_trans q (init (x ∷ n)) (x ∷ n) s (starts-init (x ∷ n)),
        t,
        omega (arith, l, length-init x n),
      )
]

-- A part of the name without its last character that ends in a slash.
long_enough : (p n : Name) → ends_slash p ≡ true → starts p (init n) ≡ true → 2 ≤ length n
unfolding starts init ends_slash
long_enough [] n h s = absurd (ground (arith, h))
long_enough (a ∷ p) [] h s = absurd (ground (arith, s))
long_enough (a ∷ p) (x ∷ []) h s = absurd (ground (arith, s))
long_enough (a ∷ p) (x ∷ y ∷ n) h s = omega arith

parent-longest :
    (p n : Name)
    → ends_slash p ≡ true
    → starts p n ≡ true
    → p ≢ n
    → (q : Name) × (parent n ≡ some q) × (starts p q ≡ true)
unfolding parent
parent-longest p n h s z =
    let shorter = init-starts p n s z in
    let long = long_enough p n h shorter in
    let b : ltb (length n) 2 ≡ false = ground (arith, long) in
    let (q, cut, t) = upto_slash-longest p (init n) h shorter in (q, rw b cut, t)

-- The keys of the loop are the name, and its parts that end in a slash.
module _ (fuel : ℕ) (n : Name) where
  parents_top : parent n ≡ none → parents (suc fuel) n ≡ n ∷ []
  unfolding parents
  parents_top h = rw (h, parents) refl

  parents_up : (q : Name) → parent n ≡ some q → parents (suc fuel) n ≡ n ∷ parents fuel q
  unfolding parents
  parents_up q h = rw (h, parents) refl

pub parents-starts :
    (fuel : ℕ) (p n : Name)
    → member ⦃e = name_test⦄ p (parents fuel n) ≡ true
    → (p ≡ n) ⊎ ((ends_slash p ≡ true) × (starts p n ≡ true))
unfolding parents
parents-starts zero p n h = absurd (ground (arith, h))
parents-starts (suc fuel) p n h = elim (Option-cases (parent n)) [
  | inl top ↦
      let m : member ⦃e = name_test⦄ p (n ∷ []) ≡ true =
        subst (λ l. member ⦃e = name_test⦄ p l ≡ true) (parents_top fuel n top) h in
      let b : bytes_equal n p ≡ true = ground (arith, m) in inl (sym (bytes_equal-≡ n p b))
  | inr (q, up) ↦
      let m : member ⦃e = name_test⦄ p (n ∷ parents fuel q) ≡ true =
        subst (λ l. member ⦃e = name_test⦄ p l ≡ true) (parents_up fuel n q up) h in
      let (s, t, l) = parent-IsCut n q up in
      elim (Bool-cases (bytes_equal n p)) [
        | inl b ↦ inl (sym (bytes_equal-≡ n p b))
        | inr b ↦
            let deep : member ⦃e = name_test⦄ p (parents fuel q) ≡ true = ground (arith, m, b) in
            elim (parents-starts fuel p q deep) [
              | inl e ↦ inr (rw e t, rw e s)
              | inr (t', s') ↦ inr (t', starts_trans p q n s' s)
            ]
      ]
]

-- With fuel for the characters of the name, all of them are looked up.
pub parents_name : (fuel : ℕ) (n : Name) → member ⦃e = name_test⦄ n (parents (suc fuel) n) ≡ true
parents_name fuel n =
    let b = bytes_equal_refl n in
    elim (Option-cases (parent n)) [
      | inl top ↦ rw (parents_top fuel n top, b) refl
      | inr (q, up) ↦ rw (parents_up fuel n q up, b) refl
    ]

pub parents-all :
    (fuel : ℕ) (p n : Name)
    → ends_slash p ≡ true
    → starts p n ≡ true
    → length n < fuel
    → member ⦃e = name_test⦄ p (parents fuel n) ≡ true
parents-all zero p n h s f = absurd (omega (arith, f))
parents-all (suc fuel) p n h s f = elim (Bool-cases (bytes_equal p n)) [
  | inl b ↦
      let same = bytes_equal-≡ p n b in
      subst (λ x. member ⦃e = name_test⦄ x (parents (suc fuel) n) ≡ true) (sym same)
        (parents_name fuel n)
  | inr b ↦
      let z : p ≢ n = λ e. absurd (ground (arith, b, (bytes_equal_iff p n).1 e)) in
      let (q, up, t) = parent-longest p n h s z in
      let (_, _, l) = parent-IsCut n q up in
      let deep = parents-all fuel p q h t (omega (arith, l, f)) in
      rw (parents_up fuel n q up, deep) (ground arith)
]

pub parents_self :
    (fuel : ℕ) (n : Name) → length n < fuel → member ⦃e = name_test⦄ n (parents fuel n) ≡ true
parents_self zero n f = absurd (omega (arith, f))
parents_self (suc fuel) n f = parents_name fuel n
