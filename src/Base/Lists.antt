-- ===== src/Base/Lists.antt =====
-- Lists over the native numbers, under the library's names.
use Prim.Native.Nat.{ℕ, zero, suc, ◌+◌}
use mathlib.Core.Path.{◌≡◌, refl, sym}
use mathlib.Core.Logic.{◌≢◌}
use mathlib.Core.List.{List, [], ◌∷◌, ◌++◌}
use mathlib.Core.Option.{Option, none, some}
use native.Mathlib.Omega.{arith}

module _ {ℓ} {A : Type ℓ} where
  abbrev pub length : List A → ℕ
  length [] = 0
  length (x ∷ xs) = suc (length xs)

  abbrev pub get_elem? : List A → ℕ → Option A
  get_elem? [] i = none
  get_elem? (x ∷ xs) zero = some x
  get_elem? (x ∷ xs) (suc i) = get_elem? xs i

  -- A write out of bounds changes nothing.
  abbrev pub set : List A → ℕ → A → List A
  set [] i v = []
  set (x ∷ xs) zero v = v ∷ xs
  set (x ∷ xs) (suc i) v = x ∷ set xs i v

  abbrev pub take : ℕ → List A → List A
  take zero xs = []
  take (suc n) [] = []
  take (suc n) (x ∷ xs) = x ∷ take n xs

  pub length-append : (xs ys : List A) → length (xs ++ ys) ≡ length xs + length ys
  length-append [] ys = omega arith
  length-append (x ∷ xs) ys = omega (arith, length-append xs ys)

-- No element of the list is `m`; no two lists share an element; no element stands twice.
abbrev pub Apart : ℕ → List ℕ → Type 0
Apart m [] = Unit {0}
Apart m (x ∷ xs) = (m ≢ x) × Apart m xs

abbrev pub Disjoint : List ℕ → List ℕ → Type 0
Disjoint [] ys = Unit {0}
Disjoint (x ∷ xs) ys = Apart x ys × Disjoint xs ys

abbrev pub Distinct : List ℕ → Type 0
Distinct [] = Unit {0}
Distinct (x ∷ xs) = Apart x xs × Distinct xs

pub Apart-append : (m : ℕ) (xs ys : List ℕ) → Apart m xs → Apart m ys → Apart m (xs ++ ys)
Apart-append m [] ys a b = b
Apart-append m (x ∷ xs) ys a b = (a.0, Apart-append m xs ys a.1 b)

-- The last element, or `a` before an empty list.
abbrev pub last_of {ℓ} : {A : Type ℓ} → A → List A → A
last_of a [] = a
last_of a (x ∷ xs) = last_of x xs

pub last_of-append {ℓ} :
    {A : Type ℓ} (a : A) (xs ys : List A) → last_of a (xs ++ ys) ≡ last_of (last_of a xs) ys
last_of-append a [] ys = refl
last_of-append a (x ∷ xs) ys = last_of-append x xs ys

pub Apart-last_of : (m a : ℕ) (xs : List ℕ) → m ≢ a → Apart m xs → m ≢ last_of a xs
Apart-last_of m a [] h b = h
Apart-last_of m a (x ∷ xs) h b = Apart-last_of m x xs b.0 b.1

pub Disjoint-last_of : (a : ℕ) (xs ys : List ℕ) → Disjoint (a ∷ xs) ys → Apart (last_of a xs) ys
Disjoint-last_of a [] ys d = d.0
Disjoint-last_of a (x ∷ xs) ys d = Disjoint-last_of x xs ys d.1

pub Apart-Disjoint : (m : ℕ) (xs : List ℕ) → Apart m xs → Disjoint xs (m ∷ [])
Apart-Disjoint m [] a = tt
Apart-Disjoint m (x ∷ xs) a = ((λ e. a.0 (sym e), tt), Apart-Disjoint m xs a.1)

pub Disjoint-nil : (xs : List ℕ) → Disjoint xs []
Disjoint-nil [] = tt
Disjoint-nil (x ∷ xs) = (tt, Disjoint-nil xs)
