-- ===== src/Heap/PrioQueue/Laws.antt =====
-- What the queue of src/fmc/prio_queue.c keeps, and what it does not.
use yamal.Base.{
  Bool, Bool-cases, ap, arith, false, if◌then◌else◌, inl, inr, leb, refl, some, suc, true, zero, ℕ,
  ◌&&◌, ◌+◌, ◌-◌, ◌<◌, ◌==◌, ◌∙◌, ◌≡◌,
}
use yamal.Heap.{parent_index, put, swap}
use yamal.Heap.Count.{one_if, tally, tally-heapify_up, tally-put, tally-put_end, tally-swap}
use yamal.Heap.Down.{IsOrder, irrefl}
use yamal.Heap.PrioQueue.{
  PrioQueue, fmc_prio_queue_pop, fmc_prio_queue_push, greatest, not_above, stay_down,
}
use yamal.Heap.Up.{IsHeap, heapify_up-IsHeap}

module _ {T : Type 0} (lt : T → T → Bool) (o : IsOrder lt) where
  abbrev pub IsQueue : PrioQueue T → Type 0
  IsQueue q = IsHeap (not_above lt) q.at q.i

  not_above_go : (p c : T) → not_above lt p c ≡ false → not_above lt c p ≡ true
  not_above_go p c h = let b : lt p c ≡ true = ground (arith, h) in rw (o.asym p c b) refl

  not_above_trans :
      (a b c : T) → not_above lt a b ≡ true → not_above lt b c ≡ true → not_above lt a c ≡ true
  not_above_trans a b c h k =
      let h' : lt a b ≡ false = ground (arith, h) in
      let k' : lt b c ≡ false = ground (arith, k) in rw (o.trans c b a k' h') refl

  -- For any strict order, fmc_prio_queue_push on a queue in which no element is less than a child
  -- of it leaves such a queue, in which every test holds of as many elements as before and the
  -- value.
  pub fmc_prio_queue_push-IsQueue :
      (val : T) (q : PrioQueue T)
      → IsQueue q
      → IsQueue (fmc_prio_queue_push lt val q)
        × ((f : T → Bool)
            → tally f (fmc_prio_queue_push lt val q).at (fmc_prio_queue_push lt val q).i
              ≡ one_if f val + tally f q.at q.i)
  unfolding fmc_prio_queue_push
  fmc_prio_queue_push-IsQueue val q v = (
    heapify_up-IsHeap (not_above lt) (not_above lt) (λ p c h. h) not_above_go not_above_trans
        (q.i + 1) q.i (put q.at q.i val) (q.i + 1) (omega arith) (omega arith)
        (record {
          edges = λ k b c d. ground (arith, d, c, v k b);
          skip = λ k b c d e. absurd (omega (arith, b, c, d));
        }),
    λ f.
        tally-heapify_up f (not_above lt) (q.i + 1) q.i (put q.at q.i val) (q.i + 1) (omega arith)
        ∙ (let e : q.i + 1 ≡ suc q.i = omega arith in rw e (tally-put_end f q.at val q.i)),
  )

  -- The loop on the memory `d`: one exchange of the first two elements at most.
  abbrev settled : ℕ → (ℕ → T) → ℕ → T
  settled n d = if leb 1 n && lt (d 0) (d 1) then swap d 0 1 else d

  greatest_first :
      (n : ℕ) (d : ℕ → T) → greatest lt d n 0 ≡ (if leb 1 n && lt (d 0) (d 1) then 1 else 0)
  unfolding greatest
  greatest_first n d = ground (arith, irrefl lt o (d 0))

  stay_down_lem :
      (fuel n : ℕ) (d : ℕ → T) → stay_down lt (suc (suc fuel)) n 0 d ≡ some (settled n d)
  unfolding stay_down
  stay_down_lem fuel n d = elim (Bool-cases (leb 1 n && lt (d 0) (d 1))) [
    | inl e ↦
        let less : lt (d 0) (d 1) ≡ true = ground (arith, e) in
        let again = greatest_first n (swap d 0 1) in
        let done : greatest lt (swap d 0 1) n 0 ≡ 0 =
          again ∙ (ground (arith, o.asym (d 0) (d 1) less)) in
        let first : greatest lt d n 0 ≡ 1 = greatest_first n d ∙ (rw e refl) in
        rw (e, first, done) refl
    | inr e ↦
        let first : greatest lt d n 0 ≡ 0 = greatest_first n d ∙ (rw e refl) in rw (e, first) refl
  ]

  abbrev moved : ℕ → (ℕ → T) → ℕ → T
  moved n d = put d 0 (d n)

  pop_lem :
      (fuel : ℕ) (q : PrioQueue T)
      → 0 < q.i
      → fmc_prio_queue_pop lt (suc (suc fuel)) q
        ≡ some (q.at 0, record { at = settled (q.i - 1) (moved (q.i - 1) q.at); i = q.i - 1 })
  unfolding fmc_prio_queue_pop
  pop_lem fuel q h =
      let there : (q.i == 0) ≡ false = ground (arith, h) in
      rw (there, stay_down_lem fuel (q.i - 1) (moved (q.i - 1) q.at)) refl

  -- The first of a queue is the greatest.
  first_greatest :
      (d : ℕ → T) (n fuel k : ℕ)
      → IsHeap (not_above lt) d n
      → k < fuel
      → k < n
      → lt (d 0) (d k) ≡ false
  first_greatest d n zero k h f b = absurd (omega (arith, f))
  first_greatest d n (suc fuel) zero h f b = irrefl lt o (d 0)
  first_greatest d n (suc fuel) (suc k) h f b =
      let p = parent_index (suc k) in
      let edge : lt (d p) (d (suc k)) ≡ false = ground (arith, h (suc k) (omega arith) b) in
      o.trans (d (suc k)) (d p) (d 0) edge
        (first_greatest d n fuel p h (omega (arith, f)) (omega (arith, b)))

  moved-tally :
      (f : T → Bool) (n : ℕ) (d : ℕ → T)
      → one_if f (d 0) + tally f (moved n d) n ≡ tally f d (suc n)
  unfolding tally
  moved-tally f zero d = refl
  moved-tally f (suc n) d = omega (arith, tally-put f d 0 (d (suc n)) (suc n) (omega arith))

  settled-tally :
      (f : T → Bool) (n : ℕ) (d : ℕ → T)
      → tally f (settled (suc n) (moved (suc n) d)) (suc n) ≡ tally f (moved (suc n) d) (suc n)
  settled-tally f zero d =
      let same : lt (moved 1 d 0) (moved 1 d 1) ≡ false = irrefl lt o (d 1) in rw same refl
  settled-tally f (suc n) d =
      let m = moved (suc (suc n)) d in
      let two : leb 1 (suc (suc n)) ≡ true = ground arith in
      elim (Bool-cases (lt (m 0) (m 1))) [
        | inl e ↦ rw (two, e) (tally-swap f m 0 1 (suc (suc n)) (omega arith) (omega arith))
        | inr e ↦ rw (two, e) refl
      ]

  pop-tally :
      (f : T → Bool) (n : ℕ) (d : ℕ → T)
      → one_if f (d 0) + tally f (settled n (moved n d)) n ≡ tally f d (suc n)
  pop-tally f zero d = moved-tally f zero d
  pop-tally f (suc n) d = omega (arith, settled-tally f n d, moved-tally f (suc n) d)

  -- For any strict order, on a queue that is not empty, in which no element is less than a child
  -- of it, fmc_prio_queue_pop ends within two rounds, gives the first element, than which none is
  -- greater, and keeps the others.
  pub fmc_prio_queue_pop-greatest :
      (fuel : ℕ) (q : PrioQueue T)
      → IsQueue q
      → 0 < q.i
      → (q' : PrioQueue T) × (fmc_prio_queue_pop lt (suc (suc fuel)) q ≡ some (q.at 0, q'))
        × ((f : T → Bool) → one_if f (q.at 0) + tally f q'.at q'.i ≡ tally f q.at q.i)
        × ((k : ℕ) → k < q.i → lt (q.at 0) (q.at k) ≡ false)
  fmc_prio_queue_pop-greatest fuel q v h =
      let n = q.i - 1 in
      let e : suc n ≡ q.i = omega (arith, h) in
      (
        record { at = settled n (moved n q.at); i = n },
        pop_lem fuel q h,
        λ f. pop-tally f n q.at ∙ ap (tally f q.at) e,
        λ k b. first_greatest q.at q.i (suc k) k v (omega arith) b,
      )

  -- On a queue of at least four elements whose element at 2 is greater than that at 1 and the last
  -- one, the second of two calls of fmc_prio_queue_pop gives an element that is less than one
  -- which the first call left in the queue.
  pub fmc_prio_queue_pop-unordered :
      (fuel : ℕ) (q : PrioQueue T)
      → 3 < q.i
      → lt (q.at 1) (q.at 2) ≡ true
      → lt (q.at (q.i - 1)) (q.at 2) ≡ true
      → (q1 : PrioQueue T) × (x : T) × (q2 : PrioQueue T) × (fmc_prio_queue_pop lt
            (suc (suc fuel))
            q
          ≡ some (q.at 0, q1))
        × (fmc_prio_queue_pop lt (suc (suc fuel)) q1 ≡ some (x, q2))
        × (2 < q1.i)
        × (lt x (q1.at 2) ≡ true)
  fmc_prio_queue_pop-unordered fuel q h a b =
      let n = q.i - 1 in
      let q1 : PrioQueue T = record { at = settled n (moved n q.at); i = n } in
      (
        q1,
        q1.at 0,
        record { at = settled (n - 1) (moved (n - 1) q1.at); i = n - 1 },
        pop_lem fuel q (omega (arith, h)),
        pop_lem fuel q1 (omega (arith, h)),
        omega (arith, h),
        ground (arith, h, a, b),
      )
