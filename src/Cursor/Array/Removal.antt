-- ===== src/Cursor/Array/Removal.antt =====
-- The loop that removes callbacks: what stays, however the elements are moved.
use yamal.Base.{
  Bool, Bool-cases, List, Option, [], ap, arith, false, get_elem?, if◌then◌else◌, inl, inr, length,
  refl, set, some, subst, suc, sym, take, true, zero, ℕ, ◌+◌, ◌-◌, ◌<◌, ◌==◌, ◌∙◌, ◌∷◌, ◌≡◌, ◌≢◌,
  ◌≤◌,
}
use yamal.Cursor.Array.{Callback, hit, holds, remove_all, remove_from, same, ut_swap}

abbrev pub one : Callback → Callback → ℕ
one p q = if same p.cb p.cl q then 1 else 0

-- How often a callback stands in an array.
abbrev pub count : Callback → List Callback → ℕ
count p [] = 0
count p (q ∷ qs) = one p q + count p qs

count-set :
    (p q v : Callback) (xs : List Callback) (i : ℕ)
    → get_elem? xs i ≡ some q
    → count p (set xs i v) + one p q ≡ count p xs + one p v
count-set p q v [] i h = cc
count-set p q v (x ∷ xs) zero h = let e : x ≡ q = ground arith in rw e (omega arith)
count-set p q v (x ∷ xs) (suc i) h = omega (arith, count-set p q v xs i h)

length-set : (xs : List Callback) (i : ℕ) (v : Callback) → length (set xs i v) ≡ length xs
length-set [] i v = refl
length-set (x ∷ xs) zero v = refl
length-set (x ∷ xs) (suc i) v = ap suc (length-set xs i v)

get_elem?-set :
    (xs : List Callback) (i j : ℕ) (v : Callback)
    → i < length xs
    → get_elem? (set xs i v) j ≡ (if i == j then some v else get_elem? xs j)
get_elem?-set [] i j v h = absurd (omega arith)
get_elem?-set (x ∷ xs) zero zero v h = refl
get_elem?-set (x ∷ xs) zero (suc j) v h = ground arith
get_elem?-set (x ∷ xs) (suc i) zero v h = ground arith
get_elem?-set (x ∷ xs) (suc i) (suc j) v h = ground (arith, get_elem?-set xs i j v)

pub get_elem?-some :
    (xs : List Callback) (i : ℕ) → i < length xs → (p : Callback) × (get_elem? xs i ≡ some p)
get_elem?-some [] i h = absurd (omega arith)
get_elem?-some (x ∷ xs) zero h = (x, refl)
get_elem?-some (x ∷ xs) (suc i) h = get_elem?-some xs i (omega arith)

module _ (xs : List Callback) (i j : ℕ) (h : i < length xs) (k : j < length xs) {x y : Callback}
    (ex : get_elem? xs i ≡ some x) (ey : get_elem? xs j ≡ some y) where
  swapped : ut_swap i j xs ≡ set (set xs i y) j x
  unfolding ut_swap
  swapped = rw (ex, ey, ut_swap) refl

  length-ut_swap : length (ut_swap i j xs) ≡ length xs
  length-ut_swap = rw swapped (length-set _ j _ ∙ length-set xs i _)

  get_elem?-ut_swap :
      (q : ℕ)
      → get_elem? (ut_swap i j xs) q
        ≡ (if j == q then some x else if i == q then some y else get_elem? xs q)
  get_elem?-ut_swap q = rw swapped (
      get_elem?-set (set xs i y) j q x (omega (arith, length-set xs i y))
      ∙ rw (get_elem?-set xs i q y h) refl)

  count-ut_swap : (p : Callback) → count p (ut_swap i j xs) ≡ count p xs
  count-ut_swap p = rw swapped (
      let there : get_elem? (set xs i y) j ≡ some y =
        ground (arith, get_elem?-set xs i j y h, ex, ey) in
      omega (arith, count-set p x y xs i ex, count-set p y x (set xs i y) j there))

-- The walk has come down to `i`: behind `n` the test holds, from `i` to `n` it does not.
record Split (f : Callback → Bool) (i n : ℕ) (xs : List Callback) : Type 0 where
  low : i ≤ n
  high : n ≤ length xs
  stays : (q : ℕ) → i ≤ q → q < n → hit f q xs ≡ false
  goes : (q : ℕ) → n ≤ q → q < length xs → hit f q xs ≡ true

module _ (f : Callback → Bool) (i n : ℕ) (xs : List Callback) (s : Split f (suc i) n xs) where
  abbrev top : n - 1 < length xs
  top = omega (arith, s.low, s.high)

  here : i < length xs
  here = omega (arith, s.low, s.high)

  Split-stays : hit f i xs ≡ false → Split f i n xs
  Split-stays e = record {
    low = omega (arith, s.low);
    high = s.high;
    stays = λ q a b. elim (Bool-cases (i == q)) [
      | inl eq ↦ let same_at : i ≡ q = ground arith in subst (λ q. hit f q xs ≡ false) same_at e
      | inr ne ↦ s.stays q (ground arith) b
    ];
    goes = s.goes;
  }

  -- What stands at an index after the exchange.
  module _ {x y : Callback} (ex : get_elem? xs i ≡ some x) (ey : get_elem? xs (n - 1) ≡ some y)
      (e : hit f i xs ≡ true) where
    abbrev moved : ℕ → Option Callback
    moved q = if n - 1 == q then some x else if i == q then some y else get_elem? xs q

    moved_stays : (q : ℕ) → i ≤ q → q < n - 1 → holds f (moved q) ≡ false
    moved_stays q a b =
        let y_stays : i < n - 1 → f y ≡ false =
          λ h. ap (holds f) (sym ey) ∙ s.stays (n - 1) h (omega arith) in
        elim (Bool-cases (i == q)) [
          | inl eq ↦ ground (arith, y_stays)
          | inr ne ↦ ground (arith, s.stays q)
        ]

    moved_goes : (q : ℕ) → n - 1 ≤ q → q < length xs → holds f (moved q) ≡ true
    moved_goes q a b =
        let x_goes : f x ≡ true = ap (holds f) (sym ex) ∙ e in
        ground (arith, x_goes, s.low, s.goes q)

  Split-goes :
      {x y : Callback}
      → get_elem? xs i ≡ some x
      → get_elem? xs (n - 1) ≡ some y
      → hit f i xs ≡ true
      → Split f i (n - 1) (ut_swap i (n - 1) xs)
  Split-goes {x} {y} ex ey e =
      let at = get_elem?-ut_swap xs i (n - 1) here top ex ey in
      let len = length-ut_swap xs i (n - 1) here top ex ey in
      record {
        low = omega (arith, s.low);
        high = omega (arith, len, s.high);
        stays = λ q a b. rw (at q) (moved_stays ex ey e q a b);
        goes = λ q a b. rw (at q) (moved_goes ex ey e q a (omega (arith, len)));
      }

remove_from_lem :
    (f : Callback → Bool) (i n : ℕ) (xs : List Callback)
    → Split f i n xs
    → Split f 0 (remove_from f i n xs).0 (remove_from f i n xs).1
      × ((p : Callback) → count p (remove_from f i n xs).1 ≡ count p xs)
unfolding remove_from
remove_from_lem f zero n xs s = (s, λ p. refl)
remove_from_lem f (suc i) n xs s = elim (Bool-cases (hit f i xs)) [
  | inl e ↦
      let (x, ex) = get_elem?-some xs i (here f i n xs s) in
      let (y, ey) = get_elem?-some xs (n - 1) (top f i n xs s) in
      let (s', c) =
        remove_from_lem f i (n - 1) (ut_swap i (n - 1) xs) (Split-goes f i n xs s ex ey e) in
      rw (e, remove_from)
        (s', λ p. c p ∙ count-ut_swap xs i (n - 1) (here f i n xs s) (top f i n xs s) ex ey p)
  | inr e ↦ rw (e, remove_from) (remove_from_lem f i n xs (Split-stays f i n xs s e))
]

pub same-≡ : (p q : Callback) → same p.cb p.cl q ≡ true → p ≡ q
same-≡ p q h = ground arith

one-zero : (f : Callback → Bool) (p q : Callback) → f p ≢ f q → one p q ≡ 0
one-zero f p q h = elim (Bool-cases (same p.cb p.cl q)) [
  | inl e ↦ absurd (h (ap f (same-≡ p q e)))
  | inr e ↦ rw e refl
]

count-goes :
    (f : Callback → Bool) (p : Callback) (xs : List Callback)
    → ((q : ℕ) → q < length xs → hit f q xs ≡ true)
    → f p ≡ false
    → count p xs ≡ 0
count-goes f p [] g e = refl
count-goes f p (x ∷ xs) g e =
    let gx : f x ≡ true = g 0 (omega arith) in
    let differ : f p ≢ f x = λ h. ground (arith, gx, h, e) in
    omega (arith, one-zero f p x differ, count-goes f p xs (λ q h. g (suc q) (omega arith)) e)

-- The part of an array where the test does not hold, before one where it does.
count-take :
    (f : Callback → Bool) (p : Callback) (n : ℕ) (xs : List Callback)
    → Split f 0 n xs
    → count p (take n xs) ≡ (if f p then 0 else count p xs)
count-take f p zero [] s = ground arith
count-take f p (suc n) [] s = ground arith
count-take f p zero (x ∷ xs) s =
    ground (arith, count-goes f p (x ∷ xs) (λ q h. s.goes q (omega arith) h))
count-take f p (suc n) (x ∷ xs) s =
    let s' : Split f 0 n xs = record {
      low = omega arith;
      high = omega (arith, s.high);
      stays = λ q a b. s.stays (suc q) (omega arith) (omega arith);
      goes = λ q a b. s.goes (suc q) (omega arith) (omega arith);
    } in
    let first : f x ≡ false = s.stays 0 (omega arith) (omega arith) in
    ground (arith, count-take f p n xs s', one-zero f p x, first)

-- The removal keeps each callback that the test does not hold of as often as it stood there, and
-- keeps none that it holds of.
pub remove_all-count :
    (f : Callback → Bool) (p : Callback) (xs : List Callback)
    → count p (remove_all f xs) ≡ (if f p then 0 else count p xs)
unfolding remove_all
remove_all-count f p xs =
    let whole : Split f (length xs) (length xs) xs = record {
      low = omega arith;
      high = omega arith;
      stays = λ q a b. absurd (omega arith);
      goes = λ q a b. absurd (omega arith);
    } in
    let (s, same_count) = remove_from_lem f (length xs) (length xs) xs whole in
    let (n, ys) = remove_from f (length xs) (length xs) xs in
    count-take f p n ys s ∙ ap (λ c. if f p then 0 else c) (same_count p)
