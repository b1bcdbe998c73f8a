-- ===== src/Cursor/Array/Walk.antt =====
-- The walk over the callbacks.
use yamal.Base.{
  List, [], ap, arith, get_elem?, if◌then◌else◌, length, refl, some, suc, sym, take, zero, ℕ, ◌++◌,
  ◌∙◌, ◌∷◌, ◌≡◌, ◌≤◌,
}
use yamal.Cursor.Array.{Callback, call_from, is_null}
use yamal.Cursor.Array.Removal.{get_elem?-some}

-- The walk over an array that no call changes.
abbrev pub call_each {ℓ} : {W : Type ℓ} → (Callback → W → W) → List Callback → W → W
call_each call [] w = w
call_each call (p ∷ ps) w = let w' = call_each call ps w in if is_null p then w' else call p w'

call_each-append {ℓ} :
    {W : Type ℓ} (call : Callback → W → W) (xs ys : List Callback) (w : W)
    → call_each call (xs ++ ys) w ≡ call_each call xs (call_each call ys w)
call_each-append call [] ys w = refl
call_each-append call (x ∷ xs) ys w = rw (call_each-append call xs ys w) refl

take-suc :
    (xs : List Callback) (i : ℕ) {p : Callback}
    → get_elem? xs i ≡ some p
    → take (suc i) xs ≡ take i xs ++ p ∷ []
take-suc [] i h = cc
take-suc (x ∷ xs) zero h = ground arith
take-suc (x ∷ xs) (suc i) h = ap (λ ys. x ∷ ys) (take-suc xs i h)

take-all : (xs : List Callback) → take (length xs) xs ≡ xs
take-all [] = refl
take-all (x ∷ xs) = ap (λ ys. x ∷ ys) (take-all xs)

module _ {ℓ} {W : Type ℓ} (items : W → List Callback) (call : Callback → W → W)
    (fixed : (p : Callback) (w : W) → items (call p w) ≡ items w) where
  call_from-take :
      (i : ℕ) (w : W)
      → i ≤ length (items w)
      → call_from items call i w ≡ call_each call (take i (items w)) w
  unfolding call_from
  call_from-take zero w h = refl
  call_from-take (suc i) w h =
      let (p, e) = get_elem?-some (items w) i (omega arith) in
      let w' = if is_null p then w else call p w in
      let same_items : items w' ≡ items w = ground (arith, fixed p w) in
      rw e (
        call_from-take i w' (omega (arith, ap length same_items))
        ∙ ap (λ xs. call_each call (take i xs) w') same_items
        ∙ sym (
            ap (λ xs. call_each call xs w) (take-suc (items w) i e)
            ∙ call_each-append call (take i (items w)) (p ∷ []) w))

  -- When no call changes the array, a round calls each callback of the array that is not NULL,
  -- once, and the last one first.
  pub call_from-each :
      (w : W) → call_from items call (length (items w)) w ≡ call_each call (items w) w
  call_from-each w =
      call_from-take (length (items w)) w (omega arith)
      ∙ ap (λ xs. call_each call xs w) (take-all (items w))
