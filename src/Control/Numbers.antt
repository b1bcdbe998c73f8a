-- ===== src/Control/Numbers.antt =====
-- Tables that number their keys in the order of insertion.
use yamal.Base.{
  Bool-cases, List, Option-cases, [], ap, arith, false, get_elem?, inl, inr, length, none, refl,
  some, suc, sym, true, zero, ℕ, ◌++◌, ◌+◌, ◌<◌, ◌∙◌, ◌∷◌, ◌≡◌, ◌≢◌,
}
use yamal.Control.Table.{emplace, find}
use yamal.LazyRemVector.{EqTest}

-- A place in a list lies before its end.
pub get_elem?-bound :
    {K : Type 0} (xs : List K) (i : ℕ) (x : K) → get_elem? xs i ≡ some x → i < length xs
get_elem?-bound [] i x h = absurd (cc h)
get_elem?-bound (y ∷ xs) zero x h = omega arith
get_elem?-bound (y ∷ xs) (suc i) x h = omega (arith, get_elem?-bound xs i x h)

module _ {K : Type 0} ⦃e : EqTest K⦄ where
  -- The keys with their numbers, from `o` on.
  unfoldable pub enumerate : ℕ → List K → List (K × ℕ)
  enumerate o [] = []
  enumerate o (x ∷ xs) = (x, o) ∷ enumerate (suc o) xs

  -- The key is not in the list; no key stands twice.
  abbrev pub Missing : K → List K → Type 0
  Missing x [] = Unit {0}
  Missing x (y ∷ ys) = (y ≢ x) × Missing x ys

  abbrev pub Unique : List K → Type 0
  Unique [] = Unit {0}
  Unique (x ∷ xs) = Missing x xs × Unique xs

  pub beq-hit : (a b : K) → e.beq a b ≡ true → a ≡ b
  beq-hit a b h = (e.beq_iff a b).0 h

  pub beq-miss : (a b : K) → e.beq a b ≡ false → a ≢ b
  beq-miss a b h q = ground (arith, h, (e.beq_iff a b).1 q)

  pub beq-apart : (a b : K) → a ≢ b → e.beq a b ≡ false
  beq-apart a b h = elim (Bool-cases (e.beq a b)) [ inl t ↦ absurd (h (beq-hit a b t)) | inr f ↦ f ]

  -- A number stands for the key at its place.
  pub find-enumerate :
      (o : ℕ) (x : K) (xs : List K) (k : ℕ)
      → find x (enumerate o xs) ≡ some k
      → (i : ℕ) × (k ≡ o + i) × (get_elem? xs i ≡ some x)
  unfolding find enumerate
  find-enumerate o x [] k h = absurd (ground (arith, h))
  find-enumerate o x (y ∷ xs) k h = elim (Bool-cases (e.beq y x)) [
    | inl t ↦
        let q : some o ≡ some k = ground (arith, h, t) in
        let q' : o ≡ k = cc q in (0, omega (arith, q'), ap some (beq-hit y x t))
    | inr f ↦
        let rest : find x (enumerate (suc o) xs) ≡ some k = ground (arith, h, f) in
        let (i, q, g) = find-enumerate (suc o) x xs k rest in (suc i, omega (arith, q), g)
  ]

  pub Missing-find : (o : ℕ) (x : K) (xs : List K) → find x (enumerate o xs) ≡ none → Missing x xs
  unfolding find enumerate
  Missing-find o x [] h = tt
  Missing-find o x (y ∷ xs) h = elim (Bool-cases (e.beq y x)) [
    | inl t ↦ absurd (ground (arith, h, t))
    | inr f ↦
        let rest : find x (enumerate (suc o) xs) ≡ none = ground (arith, h, f) in
        (beq-miss y x f, Missing-find (suc o) x xs rest)
  ]

  pub find-Missing : (o : ℕ) (x : K) (xs : List K) → Missing x xs → find x (enumerate o xs) ≡ none
  unfolding find enumerate
  find-Missing o x [] h = refl
  find-Missing o x (y ∷ xs) h = rw (beq-apart y x h.0) (find-Missing (suc o) x xs h.1)

  pub enumerate-snoc :
      (o : ℕ) (xs : List K) (x : K)
      → enumerate o (xs ++ x ∷ []) ≡ enumerate o xs ++ (x, o + length xs) ∷ []
  unfolding enumerate
  enumerate-snoc o [] x = let q : o ≡ o + 0 = omega arith in ap (λ n. (x, n) ∷ []) q
  enumerate-snoc o (y ∷ xs) x =
      let q : suc o + length xs ≡ o + suc (length xs) = omega arith in
      ap (λ m. (y, o) ∷ m)
        (enumerate-snoc (suc o) xs x ∙ ap (λ n. enumerate (suc o) xs ++ (x, n) ∷ []) q)

  pub length-enumerate : (o : ℕ) (xs : List K) → length (enumerate o xs) ≡ length xs
  unfolding enumerate
  length-enumerate o [] = refl
  length-enumerate o (x ∷ xs) = ap suc (length-enumerate (suc o) xs)

  Missing-snoc : (x y : K) (xs : List K) → Missing x xs → y ≢ x → Missing x (xs ++ y ∷ [])
  Missing-snoc x y [] m h = (h, tt)
  Missing-snoc x y (z ∷ xs) m h = (m.0, Missing-snoc x y xs m.1 h)

  pub Unique-snoc : (xs : List K) (x : K) → Unique xs → Missing x xs → Unique (xs ++ x ∷ [])
  Unique-snoc [] x u m = (tt, tt)
  Unique-snoc (y ∷ xs) x u m =
      (Missing-snoc y x xs u.0 (λ q. m.0 (sym q)), Unique-snoc xs x u.1 m.1)

  -- What is found does not depend on what is added behind it.
  pub find-append :
      {V : Type 0} (x : K) (m n : List (K × V)) (v : V)
      → find x m ≡ some v
      → find x (m ++ n) ≡ some v
  unfolding find
  find-append x [] n v h = absurd (ground (arith, h))
  find-append x ((j, u) ∷ m) n v h = elim (Bool-cases (e.beq j x)) [
    | inl t ↦ let q : some u ≡ some v = ground (arith, h, t) in rw t q
    | inr f ↦ let rest : find x m ≡ some v = ground (arith, h, f) in rw f (find-append x m n v rest)
  ]

  pub find-snoc :
      {V : Type 0} (x : K) (m : List (K × V)) (v : V)
      → find x m ≡ none
      → find x (m ++ (x, v) ∷ []) ≡ some v
  unfolding find
  find-snoc x [] v h = rw ((e.beq_iff x x).1 refl) refl
  find-snoc x ((j, u) ∷ m) v h = elim (Bool-cases (e.beq j x)) [
    | inl t ↦ absurd (ground (arith, h, t))
    | inr f ↦ let rest : find x m ≡ none = ground (arith, h, f) in rw f (find-snoc x m v rest)
  ]

  -- An insertion of a new key, and of one that is there.
  pub emplace_new :
      {V : Type 0} (x : K) (v : V) (m : List (K × V))
      → find x m ≡ none
      → emplace x v m ≡ (v, true, m ++ (x, v) ∷ [])
  unfolding emplace
  emplace_new x v m h = rw (h, emplace) refl

  pub emplace_old :
      {V : Type 0} (x : K) (v u : V) (m : List (K × V))
      → find x m ≡ some u
      → emplace x v m ≡ (u, false, m)
  unfolding emplace
  emplace_old x v u m h = rw (h, emplace) refl

  pub emplace-stored :
      {V : Type 0} (x : K) (v : V) (m : List (K × V))
      → (emplace x v m).1 ≡ true
      → (emplace x v m).0 ≡ v
  emplace-stored x v m h = elim (Option-cases (find x m)) [
    | inl fresh ↦ rw (emplace_new x v m fresh) refl
    | inr (u, old) ↦
        let q = ap (λ z. z.1) (emplace_old x v u m old) in absurd (ground (arith, h, q))
  ]
