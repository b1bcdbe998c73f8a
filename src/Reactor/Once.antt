-- ===== src/Reactor/Once.antt =====
-- One round of a reactor that is not stopped.
-- How often a component is to run: it is queued for the next round, or its time has come.
use yamal.Base.{
  Bool, Option-cases, ap, arith, false, if◌then◌else◌, inl, inr, leb, ltb, none, not, refl, some,
  subst, suc, sym, true, zero, ℕ, ◌&&◌, ◌+◌, ◌<◌, ◌==◌, ◌||◌, ◌∙◌, ◌≡◌, ◌≤◌,
}
use yamal.Heap.{Array, utarray_front}
use yamal.Heap.Count.{tally, tally_all, tally_le}
use yamal.Reactor.Expire.{IsExpired, IsQueued, IsSchedule, expire-IsExpired, has_come}
use yamal.Reactor.Rounds.{IsRunnable, exec_loop-run_each, ready, run_each, times}
use yamal.Reactor.Run.{
  end_round, ended, exec_loop, expire, fmc_reactor_run_once, is_empty, pop_queued, start_round,
  take_stop,
}
use yamal.Reactor.State.{Components, Reactor, Runtime, SchedItem}

abbrev pub due : ℕ → ℕ → Reactor → ℕ
due now x r = times x r.toqueue + tally (has_come now (λ y. y == x)) r.sched.at r.sched.i

-- No stop was asked for, something is queued or scheduled, and each component that is due has code, no
-- error, and is due once.
pub record IsDue (now : ℕ) (r : Reactor) : Type 0 where
  pub fine : r.failed ≡ false
  pub goes : r.stop_signal ≡ 0
  pub busy : 0 < r.toqueue.i + r.sched.i
  pub schedule : IsSchedule r.sched
  pub queue : IsQueued r.toqueue
  pub once : (x : ℕ) → due now x r ≤ 1
  pub runs : (x : ℕ) → 0 < due now x r → ready x r ≡ true

module _ (now : ℕ) (r : Reactor) (v : IsDue now r) where
  abbrev expired : Array SchedItem × Array ℕ
  expired = expire (r.sched.i + 1) now r.sched r.toqueue

  expired-IsExpired : IsExpired now r.sched r.toqueue expired
  expired-IsExpired =
      expire-IsExpired (r.sched.i + 1) now r.sched r.toqueue v.schedule v.queue (omega arith)

  -- The reactor when the components are run.
  abbrev started : Reactor
  started = record r { sched = expired.0; queued = expired.1; toqueue = r.queued; stop = 0 }

  started-IsRunnable : IsRunnable none started
  started-IsRunnable =
      let e = expired-IsExpired in
      record {
        fine = v.fine;
        queue = e.queue;
        once = λ x. rw (e.come (λ y. y == x)) (v.once x);
        fresh = λ l h. cc;
        runs = λ x h. v.runs x (rw (← e.come (λ y. y == x)) h);
      }

  started-size : expired.1.i ≤ r.toqueue.i + r.sched.i
  started-size =
      let e = expired-IsExpired in
      omega (
        arith,
        e.come (λ x. true),
        tally_all expired.1.at expired.1.i,
        tally_all r.toqueue.at r.toqueue.i,
        tally_le (has_come now (λ x. true)) r.sched.at r.sched.i,
      )

if_last :
    {A : Type 0} (x y z : A) (b c : Bool)
    → b ≡ false
    → c ≡ false
    → (if b then x else (if c then y else z)) ≡ z
if_last x y z true c h k = cc
if_last x y z false true h k = cc
if_last x y z false false h k = refl

module _ {S : Type 0} (k : Components S) (now : ℕ)
    (keeps : (x : ℕ) (w : Runtime S) → (k.exec x now w).reactor ≡ w.reactor) where
  run_each-failed :
      (fuel : ℕ) (w : Runtime S) → (run_each k now keeps fuel w).reactor.failed ≡ w.reactor.failed
  run_each-failed zero w = refl
  run_each-failed (suc fuel) w = elim (Option-cases (utarray_front w.reactor.queued)) [
    | inl e ↦ rw (e, run_each) refl
    | inr (x, e) ↦
        rw (e, run_each)
          (run_each-failed fuel (k.exec x now (pop_queued k w))
            ∙ ap (λ (r : Reactor). r.failed) (keeps x (pop_queued k w)))
  ]

  take_stop-goes :
      (w : Runtime S)
      → w.reactor.stop_signal ≡ 0
      → take_stop k w ≡ record { reactor = record w.reactor { stop = 0 }; state = w.state }
  unfolding take_stop
  take_stop-goes w h = rw h refl

  -- Where the round ends before it runs a component.
  abbrev blocked : Reactor → Bool
  blocked r =
      not (not (is_empty k r.toqueue && is_empty k r.sched && is_empty k r.queued))
      || (ltb 0 r.stop && r.finishing == 0)
      || leb 3 r.stop

  abbrev unstopped : Runtime S → Runtime S
  unstopped w = record { reactor = record w.reactor { stop = 0 }; state = w.state }

  blocked-unstopped : (w : Runtime S) → IsDue now w.reactor → blocked (unstopped w).reactor ≡ false
  blocked-unstopped w v = ground (arith, v.busy)

  -- The components run, and no error is set.
  Runs : ℕ → Runtime S → Type 0
  Runs fuel z =
      (exec_loop k fuel now none false (start_round k now z)
        ≡ some (false, run_each k now keeps fuel (start_round k now z)))
      × ((run_each k now keeps fuel (start_round k now z)).reactor.failed ≡ false)

  unstopped-Runs :
      (fuel : ℕ) (w : Runtime S)
      → IsDue now w.reactor
      → w.reactor.toqueue.i + w.reactor.sched.i < fuel
      → Runs fuel (unstopped w)
  unfolding Runs start_round
  unstopped-Runs fuel w v b =
      let z = start_round k now (unstopped w) in
      (
        exec_loop-run_each k now keeps fuel none false z (started-IsRunnable now w.reactor v)
            (omega (arith, b, started-size now w.reactor v)),
        run_each-failed fuel z ∙ v.fine,
      )

  -- When no component changes the reactor, no stop is asked for, something is queued or scheduled,
  -- and each component that is queued for the round or whose time has come is due once, has code
  -- and no error, and with fuel beyond the queued and scheduled, fmc_reactor_run_once goes on
  -- without an error, and has run each component of the queue of the round, one after the other
  -- from its front.
  pub fmc_reactor_run_once-run_each :
      (fuel : ℕ) (w : Runtime S)
      → IsDue now w.reactor
      → w.reactor.toqueue.i + w.reactor.sched.i < fuel
      → fmc_reactor_run_once k fuel now false w
        ≡ some (true, false, run_each k now keeps fuel (start_round k now (take_stop k w)))
  unfolding fmc_reactor_run_once Runs
  fmc_reactor_run_once-run_each fuel w v b =
      let same = sym (take_stop-goes w v.goes) in
      let (loop, fine) = subst (Runs fuel) same (unstopped-Runs fuel w v b) in
      let open' = subst (λ z. blocked z.reactor ≡ false) same (blocked-unstopped w v) in
      let ending : end_round k
            (false, run_each k now keeps fuel (start_round k now (take_stop k w)))
          ≡ (true, false, run_each k now keeps fuel (start_round k now (take_stop k w))) =
        rw fine refl in
      if_last _ _ _ w.reactor.failed (blocked (take_stop k w).reactor) v.fine open'
      ∙ ap (ended k) loop
      ∙ ap some ending
