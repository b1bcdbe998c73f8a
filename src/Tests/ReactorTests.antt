-- ===== src/Tests/ReactorTests.antt =====
-- A reactor of three components that note when they run.
use yamal.Base.{
  Bool, List, Option, [], arith, false, none, refl, some, suc, true, zero, ℕ, ◌<◌, ◌∷◌, ◌≡◌, ◌≤◌,
}
use yamal.Heap.{utarray_front, utheap_pop, utheap_push}
use yamal.Heap.Count.{tally}
use yamal.Reactor.Expire.{IsExpired, IsQueued, IsSchedule, expire-IsExpired}
use yamal.Reactor.Once.{IsDue, due, fmc_reactor_run_once-run_each}
use yamal.Reactor.Rounds.{ready, run_each}
use yamal.Reactor.Run.{exec_loop, expire, fmc_reactor_run_once, start_round, take_stop}
use yamal.Reactor.State.{Components, Ctx, Reactor, Runtime, SchedItem}
use yamal.Reactor.Twice.{exec_loop-twice, queued_twice, run_of}
use yamal.Tests.HeapTests.{elements}

abbrev noting : Components (List ℕ)
noting = record {
  exec = λ x now w. record w { state = x ∷ w.state };
  shutdown = λ x w. w;
  dep_upd = λ x inp w. w;
}

abbrev plain : Ctx
plain = record {
  failed = false;
  has_exec = true;
  has_shutdown = false;
  has_dep_upd = false;
  finishing = false;
  deps = [];
}

abbrev item : ℕ → ℕ → SchedItem
item t idx = record { t = t; idx = idx }

abbrev items : ℕ → SchedItem
items zero = item 5 1
items (suc k) = item 9 2

-- The component 0 is queued; 1 is scheduled at 5, and 2 at 9.
abbrev reactor : Reactor
reactor = record {
  ctxs = plain ∷ plain ∷ plain ∷ [];
  sched = record { at = items; i = 2 };
  queued = record { at = elements []; i = 0 };
  toqueue = record { at = elements (0 ∷ []); i = 1 };
  finishing = 0;
  stop = 0;
  stop_signal = 0;
  stop_list = [];
  failed = false;
}

abbrev world : Runtime (List ℕ)
world = record { reactor = reactor; state = [] }

reactor-IsSchedule : IsSchedule reactor.sched
reactor-IsSchedule zero a b = absurd (omega (arith, a))
reactor-IsSchedule (suc zero) a b = refl
reactor-IsSchedule (suc (suc k)) a b = absurd (omega (arith, b))

reactor-IsQueued : IsQueued reactor.toqueue
reactor-IsQueued k a b = absurd (omega (arith, a, b))

due_once : (x : ℕ) → due 7 x reactor ≤ 1
unfolding tally
due_once x = ground arith

due-ready : (x : ℕ) → 0 < due 7 x reactor → ready x reactor ≡ true
unfolding tally
due-ready zero h = refl
due-ready (suc zero) h = refl
due-ready (suc (suc x)) h = absurd (ground (arith, h))

reactor-IsDue : IsDue 7 reactor
reactor-IsDue = record {
  fine = refl;
  goes = refl;
  busy = omega arith;
  schedule = reactor-IsSchedule;
  queue = reactor-IsQueued;
  once = due_once;
  runs = due-ready;
}

fmc_reactor_run_once-run_each_example :
    fmc_reactor_run_once noting 4 7 false world
    ≡ some (
      true,
      false,
      run_each noting 7 (λ x w. refl) 4 (start_round noting 7 (take_stop noting world)),
    )
fmc_reactor_run_once-run_each_example =
    fmc_reactor_run_once-run_each noting 7 (λ x w. refl) 4 world reactor-IsDue (omega arith)

-- The components 0 and 1 ran.
states : Option (Bool × Bool × Runtime (List ℕ)) → List ℕ
states none = []
states (some (more, failed, w)) = w.state

ran_two : states (fmc_reactor_run_once noting 4 7 false world) ≡ 1 ∷ 0 ∷ []
unfolding states fmc_reactor_run_once take_stop start_round exec_loop expire utheap_pop utheap_push
    utarray_front
ran_two = refl

expire-IsExpired_example :
    IsExpired 7 reactor.sched reactor.toqueue (expire 3 7 reactor.sched reactor.toqueue)
expire-IsExpired_example =
    expire-IsExpired 3 7 reactor.sched reactor.toqueue reactor-IsSchedule reactor-IsQueued
      (omega arith)

-- The component 1 is queued twice, with 2 behind it.
abbrev crowded : Runtime (List ℕ)
crowded = queued_twice (elements (1 ∷ 1 ∷ 2 ∷ [])) reactor []

exec_loop-twice_example :
    exec_loop noting 2 7 none false crowded
    ≡ exec_loop noting 0 7 (some 1) false (run_of noting 7 1 (run_of noting 7 1 crowded))
exec_loop-twice_example =
    exec_loop-twice (elements (1 ∷ 1 ∷ 2 ∷ [])) 1 2 (omega arith) refl refl refl noting 7
      (λ x w. refl) reactor [] 0 false refl refl
