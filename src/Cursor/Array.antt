-- ===== src/Cursor/Array.antt =====
-- src/ytp/cursor.c: an array of callbacks (UT_array), from which callbacks are removed while it may be
-- walked. A function pointer is its address, and 0 is NULL.
pub mod Laws
pub mod Removal
pub mod Walk
use yamal.Base.{
  Bool, List, Option, [], false, get_elem?, if◌then◌else◌, length, none, set, some, suc, take, true,
  zero, ℕ, ◌&&◌, ◌++◌, ◌-◌, ◌==◌, ◌||◌, ◌∷◌,
}

pub record Callback : Type 0 where
  pub cb : ℕ
  pub cl : ℕ

-- An array with its lock: `cb_ann` and `cb_ann_locked`, or `cb_data` and `cb_data_locked`.
pub record Callbacks : Type 0 where
  pub items : List Callback
  pub locked : ℕ

abbrev pub same : ℕ → ℕ → Callback → Bool
same cb cl p = p.cb == cb && p.cl == cl

abbrev pub is_null : Callback → Bool
is_null p = p.cb == 0

-- The test at an index.
abbrev pub holds : (Callback → Bool) → Option Callback → Bool
holds f none = false
holds f (some p) = f p

abbrev pub hit : (Callback → Bool) → ℕ → List Callback → Bool
hit f i xs = holds f (get_elem? xs i)

-- `ut_swap` of two elements.
pub ut_swap : ℕ → ℕ → List Callback → List Callback
ut_swap i j xs = elim (get_elem? xs i) [
  | none ↦ xs
  | some x ↦ elim (get_elem? xs j) [ none ↦ xs | some y ↦ set (set xs i y) j x ]
]

-- `for (i = len; i-- > 0;)`: what the test holds of is moved behind `new_size`.
pub remove_from : (Callback → Bool) → ℕ → ℕ → List Callback → ℕ × List Callback
unfolding ut_swap
remove_from f zero new_size xs = (new_size, xs)
remove_from f (suc i) new_size xs =
    let h = hit f i xs in
    remove_from f i (if h then new_size - 1 else new_size)
      (if h then ut_swap i (new_size - 1) xs else xs)

-- The loop with the `utarray_resize` behind it.
pub remove_all : (Callback → Bool) → List Callback → List Callback
unfolding remove_from
remove_all f xs = let (new_size, ys) = remove_from f (length xs) (length xs) xs in take new_size ys

-- `p->cb = NULL` where the test holds.
pub nullify : (Callback → Bool) → List Callback → List Callback
nullify f [] = []
nullify f (p ∷ ps) = (if f p then record p { cb = 0 } else p) ∷ nullify f ps

-- The body of ytp_cursor_ann_cb, and of ytp_cursor_data_cb: whether the callback is new.
pub find_same : ℕ → ℕ → List Callback → Bool
find_same cb cl [] = false
find_same cb cl (p ∷ ps) = find_same cb cl ps || same cb cl p

pub push : ℕ → ℕ → Callbacks → Callbacks
unfolding find_same
push cb cl a =
    if find_same cb cl a.items
    then a
    else record a { items = a.items ++ record { cb = cb; cl = cl } ∷ [] }

-- The body of ytp_cursor_ann_cb_rm, and of ytp_cursor_data_cb_rm.
pub remove : ℕ → ℕ → Callbacks → Callbacks
unfolding remove_all nullify
remove cb cl a =
    if a.locked == 0
    then record a { items = remove_all (same cb cl) a.items }
    else record a { items = nullify (same cb cl) a.items }

-- `utarray_clear`, or all to NULL.
pub clear_callbacks : Callbacks → Callbacks
unfolding nullify
clear_callbacks a =
    if a.locked == 0
    then record a { items = [] }
    else record a { items = nullify (λ p. true) a.items }

-- What follows the walk: `if (--locked == 0)` the array is compacted.
pub unlock_callbacks : Callbacks → Callbacks
unfolding remove_all
unlock_callbacks a =
    let n = a.locked - 1 in
    if n == 0
    then record { items = remove_all is_null a.items; locked = n }
    else record a { locked = n }

-- The walk, from the last callback to the first: those that are not NULL when they are reached are
-- called. A call is the client's code, which may change all that `w` stands for.
pub call_from {ℓ} : {W : Type ℓ} → (W → List Callback) → (Callback → W → W) → ℕ → W → W
call_from items call zero w = w
call_from items call (suc i) w =
    call_from items call i
      (elim (get_elem? (items w) i) [ none ↦ w | some p ↦ if is_null p then w else call p w ])
