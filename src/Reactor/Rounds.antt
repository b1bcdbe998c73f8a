-- ===== src/Reactor/Rounds.antt =====
-- Which components a round runs.
-- How often an index is queued.
use yamal.Base.{
  ==_iff, Bool, Bool-cases, Option, Option-cases, ap, arith, false, get_elem?, if◌then◌else◌, inl,
  inr, ltb, none, not, refl, some, subst, suc, sym, true, zero, ℕ, ◌&&◌, ◌+◌, ◌<◌, ◌==◌, ◌||◌, ◌∙◌,
  ◌≡◌, ◌≤◌,
}
use yamal.Heap.{Array, utarray_front, utheap_pop, without_first}
use yamal.Heap.Count.{one_if, tally}
use yamal.Heap.Laws.{utheap_pop-IsValid, utheap_pop-size}
use yamal.Reactor.Expire.{IsQueued, ltb-IsOrder}
use yamal.Reactor.Run.{exec_loop, has_failed, is_last, is_ready, pop_queued}
use yamal.Reactor.State.{Components, Reactor, Runtime}

abbrev pub times : ℕ → Array ℕ → ℕ
times x a = tally (λ y. y == x) a.at a.i

-- What is in an array is counted there.
tally-pos : (d : ℕ → ℕ) (n k : ℕ) → k < n → 0 < tally (λ y. y == d k) d n
unfolding tally
tally-pos d zero k h = absurd (omega (arith, h))
tally-pos d (suc n) k h = elim (Bool-cases (k == n)) [
  | inl e ↦ let q = (==_iff k n).0 e in rw q (ground arith)
  | inr e ↦ let rest = tally-pos d n k (ground (arith, e, h)) in omega (arith, rest)
]

-- The memory of a front that was the last one is left as it was.
pop_last :
    (a : Array ℕ) (x : ℕ)
    → utarray_front a ≡ some x
    → (utheap_pop ltb a).i ≡ 0
    → (utheap_pop ltb a).at 0 ≡ x
unfolding utheap_pop utarray_front without_first
pop_last a x h e = ground (arith, h, e)

abbrev pub ready : ℕ → Reactor → Bool
ready idx r = elim (get_elem? r.ctxs idx) [ none ↦ false | some c ↦ not c.failed && c.has_exec ]

abbrev pub failed_in : ℕ → Reactor → Bool
failed_in idx r = elim (get_elem? r.ctxs idx) [ none ↦ false | some c ↦ c.failed ]

pub ready-fine : (x : ℕ) (r : Reactor) → ready x r ≡ true → failed_in x r ≡ false
ready-fine x r h = elim (Option-cases (get_elem? r.ctxs x)) [
  | inl e ↦ rw (e, failed_in) refl
  | inr (c, e) ↦ ground (arith, e, h)
]

if_third :
    {A : Type 0} (x y z : A) (b c : Bool)
    → b ≡ false
    → c ≡ true
    → (if b then x else (if c then y else z)) ≡ y
if_third x y z true c h k = cc
if_third x y z false true h k = refl
if_third x y z false false h k = cc

-- No component is queued twice, nor the one that ran before; each has code and no error.
pub record IsRunnable (last : Option ℕ) (r : Reactor) : Type 0 where
  pub fine : r.failed ≡ false
  pub queue : IsQueued r.queued
  pub once : (x : ℕ) → times x r.queued ≤ 1
  pub fresh : (l : ℕ) → last ≡ some l → times l r.queued ≡ 0
  pub runs : (x : ℕ) → 0 < times x r.queued → ready x r ≡ true

module _ {S : Type 0} (k : Components S) (now : ℕ)
    (keeps : (x : ℕ) (w : Runtime S) → (k.exec x now w).reactor ≡ w.reactor) where
  -- A round that runs each queued component as it comes.
  abbrev pub run_each : ℕ → Runtime S → Runtime S
  run_each zero w = w
  run_each (suc fuel) w = elim (utarray_front w.reactor.queued) [
    | none ↦ w
    | some x ↦ run_each fuel (k.exec x now (pop_queued k w))
  ]

  abbrev popped : Reactor → Reactor
  popped r = record r { queued = utheap_pop ltb r.queued }

  module _ (last : Option ℕ) (r : Reactor) (x : ℕ) (v : IsRunnable last r)
      (front : utarray_front r.queued ≡ some x) where
    abbrev q : Array ℕ
    q = utheap_pop ltb r.queued

    counted : (f : ℕ → Bool) → one_if f x + tally f q.at q.i ≡ tally f r.queued.at r.queued.i
    counted = (utheap_pop-IsValid ltb ltb-IsOrder r.queued x v.queue front).1

    there : 0 < times x r.queued
    there =
        let one : one_if (λ y. y == x) x ≡ 1 = ground arith in
        omega (arith, counted (λ y. y == x), one)

    gone : times x q ≡ 0
    gone =
        let one : one_if (λ y. y == x) x ≡ 1 = ground arith in
        omega (arith, counted (λ y. y == x), v.once x, one)

    fewer : (y : ℕ) → times y q ≤ times y r.queued
    fewer y = omega (arith, counted (λ z. z == y))

    popped-IsRunnable : IsRunnable (some x) (popped r)
    popped-IsRunnable = record {
      fine = v.fine;
      queue = (utheap_pop-IsValid ltb ltb-IsOrder r.queued x v.queue front).0;
      once = λ y. omega (arith, fewer y, v.once y);
      fresh = λ l e. let same : x ≡ l = ground (arith, e) in rw (← same) gone;
      runs = λ y h. v.runs y (omega (arith, h, fewer y));
    }

    -- The element that is read after the pop is not the component that ran before.
    item_other : is_last k last (q.at 0) ≡ false
    item_other = not_last last refl
      where
        not_last : (o : Option ℕ) → last ≡ o → is_last k o (q.at 0) ≡ false
        not_last none e = refl
        not_last (some l) e = elim (Bool-cases (q.at 0 == l)) [
          | inr b ↦ b
          | inl b ↦
              let same = (==_iff (q.at 0) l).0 b in
              let none_left = v.fresh l e in
              elim (Bool-cases (q.i == 0)) [
                | inl z ↦
                    let own = pop_last r.queued x front ((==_iff q.i 0).0 z) in
                    let eq : x ≡ l = sym own ∙ same in
                    absurd
                      (omega (arith, there, subst (λ y. times y r.queued ≡ 0) (sym eq) none_left))
                | inr z ↦
                    let pos = tally-pos q.at q.i 0 (ground (arith, z)) in
                    absurd (
                      omega (
                        arith,
                        fewer (q.at 0),
                        subst (λ y. times y r.queued ≡ 0) (sym same) none_left,
                        pos,
                      ))
              ]
        ]

  -- A component that is run.
  pub first_step :
      (fuel : ℕ) (last : Option ℕ) (failed : Bool) (w : Runtime S) (x : ℕ)
      → utarray_front w.reactor.queued ≡ some x
      → w.reactor.failed ≡ false
      → (not (is_last k last ((pop_queued k w).reactor.queued.at 0))
          && is_ready k x (pop_queued k w))
        ≡ true
      → exec_loop k (suc fuel) now last failed w
        ≡ exec_loop k fuel now
            (some x)
            (failed || has_failed k x (k.exec x now (pop_queued k w)))
            (k.exec x now (pop_queued k w))
  unfolding exec_loop
  first_step fuel last failed w x front fine test =
      rw (front, exec_loop) (if_third _ _ _ w.reactor.failed _ fine test)

  -- x
  pub exec_loop-run_each :
      (fuel : ℕ) (last : Option ℕ) (failed : Bool) (w : Runtime S)
      → IsRunnable last w.reactor
      → w.reactor.queued.i < fuel
      → exec_loop k fuel now last failed w ≡ some (failed, run_each fuel w)
  unfolding exec_loop
  exec_loop-run_each zero last failed w v b = absurd (omega (arith, b))
  exec_loop-run_each (suc fuel) last failed w v b =
      elim (Option-cases (utarray_front w.reactor.queued)) [
        | inl end ↦ rw (end, exec_loop, run_each) refl
        | inr (x, front) ↦
            let w' = pop_queued k w in
            let ran = k.exec x now w' in
            let same = keeps x w' in
            let next : IsRunnable (some x) ran.reactor =
              subst (IsRunnable (some x)) (sym same) (popped-IsRunnable last w.reactor x v front) in
            let other = item_other last w.reactor x v front in
            let is_run = v.runs x (there last w.reactor x v front) in
            let shorter : ran.reactor.queued.i < fuel =
              rw same (omega (arith, b, utheap_pop-size w.reactor.queued ltb x front)) in
            let rest = exec_loop-run_each fuel (some x) failed ran next shorter in
            let fine : has_failed k x ran ≡ false =
              subst (λ (r : Reactor). failed_in x r ≡ false) (sym same)
                (ready-fine x w.reactor is_run) in
            let fine' : (failed || has_failed k x ran) ≡ failed = rw fine (ground arith) in
            let test : (not (is_last k last ((pop_queued k w).reactor.queued.at 0))
                  && is_ready k x w')
                ≡ true =
              rw (other, is_run) refl in
            let ends : run_each (suc fuel) w ≡ run_each fuel ran = rw (front, run_each) refl in
            first_step fuel last failed w x front v.fine test
            ∙ ap (λ b. exec_loop k fuel now (some x) b ran) fine'
            ∙ rest
            ∙ ap (λ z. some (failed, z)) (sym ends)
      ]
