-- ===== src/Heap/PrioQueue.antt =====
-- src/fmc/prio_queue.c: a queue of numbers in an array, the greatest one first. `lt` is their order.
pub mod Laws
use yamal.Base.{
  Bool, Option, if◌then◌else◌, leb, none, not, some, suc, zero, ℕ, ◌&&◌, ◌*◌, ◌+◌, ◌-◌, ◌==◌,
}
use yamal.Heap.{Array, heapify_up, put, swap}
use yamal.LazyRemVector.{size}
use yamal.Timeline.Poll.{T}
use yamal.Timeline.Prefix.{parent}

abbrev pub PrioQueue : Type 0 → Type 0
PrioQueue T = Array T

pub fmc_prio_queue_init : {T : Type 0} → (ℕ → T) → PrioQueue T
fmc_prio_queue_init memory = record { at = memory; i = 0 }

module _ {T : Type 0} (lt : T → T → Bool) where
  -- `<=` of a child and its parent, where the loop of heapify_up stops.
  abbrev pub not_above : T → T → Bool
  not_above parent child = not (lt parent child)

  pub fmc_prio_queue_push : T → PrioQueue T → PrioQueue T
  unfolding heapify_up
  fmc_prio_queue_push val q = record {
    at = heapify_up (q.i + 1) not_above q.i (put q.at q.i val);
    i = q.i + 1;
  }

  -- The element at `child`, counted from 0, where it is greater.
  abbrev greater : (ℕ → T) → ℕ → ℕ → ℕ → ℕ
  greater d size child best = if leb child size && lt (d best) (d child) then child else best

  pub greatest : (ℕ → T) → ℕ → ℕ → ℕ
  greatest d size idx = greater d size (2 * idx + 1) (greater d size (2 * idx) idx)

  -- The loop of heapify_down, which stays at `idx`; `none` when the fuel ran out.
  pub stay_down : ℕ → ℕ → ℕ → (ℕ → T) → Option (ℕ → T)
  unfolding greatest
  stay_down zero size idx d = none
  stay_down (suc fuel) size idx d =
      let best = greatest d size idx in
      let rest = stay_down fuel size idx (swap d idx best) in if best == idx then some d else rest

  abbrev popped : ℕ → T → Option (ℕ → T) → Option (T × PrioQueue T)
  popped n x none = none
  popped n x (some d) = some (x, record { at = d; i = n })

  -- What is popped, with the queue that is left; `none` also of an empty queue.
  pub fmc_prio_queue_pop : ℕ → PrioQueue T → Option (T × PrioQueue T)
  unfolding stay_down
  fmc_prio_queue_pop fuel q =
      let n = q.i - 1 in
      if q.i == 0 then none else popped n (q.at 0) (stay_down fuel n 0 (put q.at 0 (q.at n)))
