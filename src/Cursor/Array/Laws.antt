-- ===== src/Cursor/Array/Laws.antt =====
-- Registration and removal of callbacks, locked or not.
use yamal.Base.{
  Bool, Bool-cases, List, [], ap, arith, false, if◌then◌else◌, inl, inr, refl, true, ℕ, ◌&&◌, ◌++◌,
  ◌+◌, ◌<◌, ◌==◌, ◌∷◌, ◌≡◌, ◌≢◌, ◌≤◌,
}
use yamal.Cursor.Array.{
  Callback, Callbacks, clear_callbacks, find_same, is_null, nullify, push, remove, same,
  unlock_callbacks,
}
use yamal.Cursor.Array.Removal.{count, remove_all-count, same-≡}

pub count-nullify :
    (f : Callback → Bool) (p : Callback) (xs : List Callback)
    → p.cb ≢ 0
    → count p (nullify f xs) ≡ (if f p then 0 else count p xs)
unfolding nullify
count-nullify f p [] h = ground arith
count-nullify f p (x ∷ xs) h = elim (Bool-cases (same p.cb p.cl x)) [
  | inl e ↦ let eq = same-≡ p x e in ground (arith, count-nullify f p xs h, ap f eq)
  | inr e ↦ ground (arith, count-nullify f p xs h)
]

-- A removal leaves no callback that is not NULL and equal to the given one, and keeps each other
-- one that is not NULL as often as it stood there, whether the array is locked or not.
pub remove-count :
    (cb cl : ℕ) (p : Callback) (a : Callbacks)
    → p.cb ≢ 0
    → count p (remove cb cl a).items ≡ (if same cb cl p then 0 else count p a.items)
unfolding remove
remove-count cb cl p a h =
    ground (arith, remove_all-count (same cb cl) p a.items, count-nullify (same cb cl) p a.items h)

-- The last unlock removes every NULL and keeps each callback that is not NULL as often as it stood
-- there; an unlock that is not the last changes no callback.
pub unlock_callbacks-count :
    (p : Callback) (a : Callbacks)
    → 0 < a.locked
    → count p (unlock_callbacks a).items
      ≡ (if a.locked == 1 && is_null p then 0 else count p a.items)
unfolding unlock_callbacks
unlock_callbacks-count p a h = ground (arith, remove_all-count is_null p a.items)

find_same-count :
    (p : Callback) (xs : List Callback) → (if find_same p.cb p.cl xs then 1 else 0) ≤ count p xs
unfolding find_same
find_same-count p [] = omega arith
find_same-count p (x ∷ xs) = ground (arith, find_same-count p xs)

find_same-none :
    (p : Callback) (xs : List Callback) → find_same p.cb p.cl xs ≡ false → count p xs ≡ 0
unfolding find_same
find_same-none p [] h = refl
find_same-none p (x ∷ xs) h = ground (arith, find_same-none p xs)

pub count-append :
    (p : Callback) (xs ys : List Callback) → count p (xs ++ ys) ≡ count p xs + count p ys
count-append p [] ys = omega arith
count-append p (x ∷ xs) ys = omega (arith, count-append p xs ys)

-- After a registration the given callback stands in the array, once if it did not before, and
-- every other callback as often as before.
pub push-count :
    (p q : Callback) (a : Callbacks)
    → count q (push p.cb p.cl a).items
      ≡ (if same p.cb p.cl q && count p a.items == 0 then 1 else count q a.items)
unfolding push
push-count p q a = elim (Bool-cases (find_same p.cb p.cl a.items)) [
  | inl e ↦
      let there : 1 ≤ count p a.items = ground (arith, find_same-count p a.items) in
      rw (e, push) (ground arith)
  | inr e ↦
      let gone = find_same-none p a.items e in
      let longer = count-append q a.items (p ∷ []) in
      elim (Bool-cases (same p.cb p.cl q)) [
        | inl s ↦ let eq = same-≡ p q s in rw (e, push) (ground (arith, gone, longer, eq))
        | inr s ↦ rw (e, push) (ground (arith, gone, longer))
      ]
]

pub push-new :
    (cb cl : ℕ) (a : Callbacks)
    → find_same cb cl a.items ≡ false
    → push cb cl a ≡ record a { items = a.items ++ record { cb = cb; cl = cl } ∷ [] }
unfolding push
push-new cb cl a h = rw (h, push) refl

pub count-clear_callbacks :
    (p : Callback) (a : Callbacks) → p.cb ≢ 0 → count p (clear_callbacks a).items ≡ 0
unfolding clear_callbacks
count-clear_callbacks p a h = ground (arith, count-nullify (λ q. true) p a.items h)

pub find_same-nil : (cb cl : ℕ) → find_same cb cl [] ≡ false
unfolding find_same
find_same-nil cb cl = refl
