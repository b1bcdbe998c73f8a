-- ===== src/Heap.antt =====
-- include/uthash/utheap.h: heaps in an array. An array is its elements by their positions, those
-- behind the last one included, and its length.
pub mod Count
pub mod Up
pub mod Down
pub mod Laws
pub mod PrioQueue
use yamal.Base.{
  Bool, Option, if◌then◌else◌, leb, none, some, suc, zero, ℕ, ◌&&◌, ◌*◌, ◌+◌, ◌-◌, ◌/◌, ◌==◌,
}
use yamal.LazyRemVector.{size}
use yamal.Timeline.Poll.{T}

pub record Array (T : Type 0) : Type 0 where
  pub at : ℕ → T
  pub i : ℕ

module _ {T : Type 0} where
  -- ut_swap of two elements.
  abbrev pub swap : (ℕ → T) → ℕ → ℕ → ℕ → T
  swap d i j k = if k == i then d j else if k == j then d i else d k

  abbrev pub put : (ℕ → T) → ℕ → T → ℕ → T
  put d i v k = if k == i then v else d k

abbrev pub parent_index : ℕ → ℕ
parent_index i = (i - 1) / 2

module _ {T : Type 0} where
  -- The loop of _utheap_heapify_up; it ends when `test` holds of the parent and the element. `fuel`
  -- bounds the rounds.
  unfoldable pub heapify_up : ℕ → (T → T → Bool) → ℕ → (ℕ → T) → ℕ → T
  heapify_up zero test idx d = d
  heapify_up (suc fuel) test idx d =
      let p = parent_index idx in
      let rest = heapify_up fuel test p (swap d idx p) in
      if idx == 0 then d else if test (d p) (d idx) then d else rest

  -- A child that is there and comes before the element at `idx`, both counted from 1.
  abbrev pub better : (T → T → Bool) → (ℕ → T) → ℕ → ℕ → ℕ → ℕ
  better cmp d size child idx =
      if leb child size && cmp (d (child - 1)) (d (idx - 1)) then child else idx

  unfoldable pub largest : (T → T → Bool) → (ℕ → T) → ℕ → ℕ → ℕ
  largest cmp d size idx = better cmp d size (2 * idx + 1) (better cmp d size (2 * idx) idx)

  -- The loop of _utheap_heapify_down, with the index counted from 1.
  unfoldable pub heapify_down : ℕ → (T → T → Bool) → ℕ → ℕ → (ℕ → T) → ℕ → T
  unfolding largest
  heapify_down zero cmp size idx d = d
  heapify_down (suc fuel) cmp size idx d =
      let g = largest cmp d size idx in
      let rest = heapify_down fuel cmp size g (swap d (idx - 1) (g - 1)) in
      if g == idx then d else rest

  unfoldable pub utheap_push : (T → T → Bool) → T → Array T → Array T
  unfolding heapify_up
  utheap_push cmp val a = record {
    at = heapify_up (a.i + 1) cmp a.i (put a.at a.i val);
    i = a.i + 1;
  }

  -- The exchange of the first element with the last one, at `n`, and the way down.
  unfoldable pub without_first : (T → T → Bool) → ℕ → (ℕ → T) → ℕ → T
  unfolding heapify_down
  without_first cmp n d = if n == 0 then swap d 0 n else heapify_down n cmp n 1 (swap d 0 n)

  -- utheap_erase of the element at the position 0.
  unfoldable pub utheap_pop : (T → T → Bool) → Array T → Array T
  unfolding without_first
  utheap_pop cmp a =
      if a.i == 0 then a else record { at = without_first cmp (a.i - 1) a.at; i = a.i - 1 }

  -- utarray_front.
  unfoldable pub utarray_front : Array T → Option T
  utarray_front a = if a.i == 0 then none else some (a.at 0)
