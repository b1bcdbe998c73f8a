-- ===== src/Reactor/Twice.antt =====
-- A component that is queued twice is run twice when a greater index stands behind it.
-- A component that is popped and run, and a reactor in whose queue are three.
use yamal.Base.{
  Bool, ap, arith, false, ltb, none, refl, some, subst, suc, sym, true, ℕ, ◌<◌, ◌==◌, ◌∙◌, ◌≡◌,
}
use yamal.Heap.{Array, heapify_down, largest, utarray_front, utheap_pop, without_first}
use yamal.Reactor.Rounds.{failed_in, first_step, ready, ready-fine}
use yamal.Reactor.Run.{exec_loop, has_failed, pop_queued}
use yamal.Reactor.State.{Components, Reactor, Runtime}

abbrev pub run_of : {S : Type 0} → Components S → ℕ → ℕ → Runtime S → Runtime S
run_of k now x w = k.exec x now (pop_queued k w)

abbrev pub queued_twice : {S : Type 0} → (ℕ → ℕ) → Reactor → S → Runtime S
queued_twice d r state = record {
  reactor = record r { queued = record { at = d; i = 3 } };
  state = state;
}

-- An index that is queued twice, with a greater one behind it.
module _ (d : ℕ → ℕ) (x y : ℕ) (less : x < y) (first : d 0 ≡ x) (second : d 1 ≡ x)
    (third : d 2 ≡ y) where
  abbrev three : Array ℕ
  three = record { at = d; i = 3 }

  three_front : utarray_front three ≡ some x
  unfolding utarray_front
  three_front = ground (arith, first)

  two_front : utarray_front (utheap_pop ltb three) ≡ some x
  unfolding utarray_front utheap_pop without_first heapify_down largest
  two_front = ground (arith, first, second, third, less)

  one_item : (utheap_pop ltb (utheap_pop ltb three)).at 0 ≡ y
  unfolding utheap_pop without_first heapify_down largest
  one_item = ground (arith, first, second, third, less)

  module _ {S : Type 0} (k : Components S) (now : ℕ)
      (keeps : (x : ℕ) (w : Runtime S) → (k.exec x now w).reactor ≡ w.reactor) (r : Reactor)
      (state : S) where
    -- When no component changes the reactor, and the queue holds an index twice and a greater one,
    -- and the component at the first index has code and no error, the loop over the queue runs
    -- that component twice.
    pub exec_loop-twice :
        (fuel : ℕ) (failed : Bool)
        → r.failed ≡ false
        → ready x r ≡ true
        → exec_loop k (suc (suc fuel)) now none failed (queued_twice d r state)
          ≡ exec_loop k fuel now
              (some x)
              failed
              (run_of k now x (run_of k now x (queued_twice d r state)))
    exec_loop-twice fuel failed fine run =
        let w1 = run_of k now x (queued_twice d r state) in
        let w2 = run_of k now x w1 in
        let same1 = keeps x (pop_queued k (queued_twice d r state)) in
        let same2 = keeps x (pop_queued k w1) in
        let good = ready-fine x r run in
        let ok1 : has_failed k x w1 ≡ false =
          subst (λ (z : Reactor). failed_in x z ≡ false) (sym same1) good in
        let ready1 : ready x w1.reactor ≡ true =
          subst (λ (z : Reactor). ready x z ≡ true) (sym same1) run in
        let fine1 : w1.reactor.failed ≡ false =
          subst (λ (z : Reactor). z.failed ≡ false) (sym same1) fine in
        let front1 : utarray_front w1.reactor.queued ≡ some x =
          subst (λ (z : Reactor). utarray_front z.queued ≡ some x) (sym same1) two_front in
        let item1 : (utheap_pop ltb w1.reactor.queued).at 0 ≡ y =
          subst (λ (z : Reactor). (utheap_pop ltb z.queued).at 0 ≡ y) (sym same1) one_item in
        let ok2 : has_failed k x w2 ≡ false =
          subst (λ (z : Reactor). failed_in x z ≡ false) (sym same2)
            (ready-fine x w1.reactor ready1) in
        let other : ((utheap_pop ltb w1.reactor.queued).at 0 == x) ≡ false =
          ground (arith, item1, less) in
        first_step k now keeps (suc fuel) none failed (queued_twice d r state) x three_front fine
          (rw run refl)
        ∙ ap (λ b. exec_loop k (suc fuel) now (some x) b w1) (rw ok1 (ground arith))
        ∙ first_step k now keeps fuel (some x) failed w1 x front1 fine1 (rw (other, ready1) refl)
        ∙ ap (λ b. exec_loop k fuel now (some x) b w2) (rw ok2 (ground arith))
