-- ===== src/Tests/HeapTests.antt =====
-- A heap of four numbers with the least in front, and a queue of four with the greatest in front.
use yamal.Base.{
  Bool, List, [], arith, false, ltb, refl, some, suc, true, zero, ℕ, ◌+◌, ◌<◌, ◌∷◌, ◌≡◌,
}
use yamal.Heap.{Array, utarray_front, utheap_pop, utheap_push}
use yamal.Heap.Count.{one_if, tally}
use yamal.Heap.Laws.{IsValid, utheap_pop-IsValid, utheap_push-IsValid}
use yamal.Heap.PrioQueue.{PrioQueue, fmc_prio_queue_pop, fmc_prio_queue_push}
use yamal.Heap.PrioQueue.Laws.{
  IsQueue, fmc_prio_queue_pop-greatest, fmc_prio_queue_pop-unordered, fmc_prio_queue_push-IsQueue,
}
use yamal.Reactor.Expire.{ltb-IsOrder}

-- Memory with the given numbers, and zeros behind them.
abbrev pub elements : List ℕ → ℕ → ℕ
elements [] k = 0
elements (x ∷ xs) zero = x
elements (x ∷ xs) (suc k) = elements xs k

abbrev pub four : Array ℕ
four = record { at = elements (2 ∷ 5 ∷ 3 ∷ 9 ∷ []); i = 4 }

pub four-IsValid : IsValid ltb ltb-IsOrder four
four-IsValid zero a b = absurd (omega (arith, a))
four-IsValid (suc zero) a b = refl
four-IsValid (suc (suc zero)) a b = refl
four-IsValid (suc (suc (suc zero))) a b = refl
four-IsValid (suc (suc (suc (suc k)))) a b = absurd (omega (arith, b))

utheap_push-IsValid_example :
    IsValid ltb ltb-IsOrder (utheap_push ltb 1 four)
    × ((f : ℕ → Bool)
        → tally f (utheap_push ltb 1 four).at (utheap_push ltb 1 four).i
          ≡ one_if f 1 + tally f four.at 4)
utheap_push-IsValid_example = utheap_push-IsValid ltb ltb-IsOrder 1 four four-IsValid

four_front : utarray_front four ≡ some 2
unfolding utarray_front
four_front = refl

utheap_pop-IsValid_example :
    IsValid ltb ltb-IsOrder (utheap_pop ltb four)
    × ((f : ℕ → Bool)
        → one_if f 2 + tally f (utheap_pop ltb four).at (utheap_pop ltb four).i ≡ tally f four.at 4)
    × ((k : ℕ) → k < 4 → ltb (four.at k) 2 ≡ false)
utheap_pop-IsValid_example = utheap_pop-IsValid ltb ltb-IsOrder four 2 four-IsValid four_front

popped_front : utarray_front (utheap_pop ltb four) ≡ some 3
unfolding utheap_pop utarray_front
popped_front = refl

abbrev queue : PrioQueue ℕ
queue = record { at = elements (9 ∷ 5 ∷ 8 ∷ 1 ∷ []); i = 4 }

queue-IsQueue : IsQueue ltb ltb-IsOrder queue
queue-IsQueue zero a b = absurd (omega (arith, a))
queue-IsQueue (suc zero) a b = refl
queue-IsQueue (suc (suc zero)) a b = refl
queue-IsQueue (suc (suc (suc zero))) a b = refl
queue-IsQueue (suc (suc (suc (suc k)))) a b = absurd (omega (arith, b))

fmc_prio_queue_push-IsQueue_example :
    IsQueue ltb ltb-IsOrder (fmc_prio_queue_push ltb 7 queue)
    × ((f : ℕ → Bool)
        → tally f (fmc_prio_queue_push ltb 7 queue).at (fmc_prio_queue_push ltb 7 queue).i
          ≡ one_if f 7 + tally f queue.at 4)
fmc_prio_queue_push-IsQueue_example =
    fmc_prio_queue_push-IsQueue ltb ltb-IsOrder 7 queue queue-IsQueue

fmc_prio_queue_pop-greatest_example :
    (q' : PrioQueue ℕ) × (fmc_prio_queue_pop ltb 2 queue ≡ some (9, q'))
    × ((f : ℕ → Bool) → one_if f 9 + tally f q'.at q'.i ≡ tally f queue.at 4)
    × ((k : ℕ) → k < 4 → ltb 9 (queue.at k) ≡ false)
fmc_prio_queue_pop-greatest_example =
    fmc_prio_queue_pop-greatest ltb ltb-IsOrder 0 queue queue-IsQueue (omega arith)

-- 9 is followed by 5, though 8 is there.
fmc_prio_queue_pop-unordered_example :
    (q1 : PrioQueue ℕ) × (x : ℕ) × (q2 : PrioQueue ℕ) × (fmc_prio_queue_pop ltb 2 queue
      ≡ some (9, q1))
    × (fmc_prio_queue_pop ltb 2 q1 ≡ some (x, q2))
    × (2 < q1.i)
    × (ltb x (q1.at 2) ≡ true)
fmc_prio_queue_pop-unordered_example =
    fmc_prio_queue_pop-unordered ltb ltb-IsOrder 0 queue (omega arith) refl refl
