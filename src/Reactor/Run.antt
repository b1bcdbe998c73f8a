-- ===== src/Reactor/Run.antt =====
-- src/fmc/reactor.c: the rounds of the reactor.
-- The loop over the items whose time has come.
use yamal.Base.{
  Bool, List, Option, [], false, get_elem?, if◌then◌else◌, leb, ltb, none, not, some, suc, true,
  zero, ℕ, ◌&&◌, ◌+◌, ◌==◌, ◌||◌, ◌∷◌,
}
use yamal.Heap.{Array, utarray_front, utheap_pop, utheap_push}
use yamal.LazyRemVector.Laws.{live}
use yamal.Reactor.State.{
  Components, Runtime, SchedItem, earlier, fmc_reactor_sched, fmc_reactor_stop, in_reactor, put_ctx,
}

unfoldable pub expire : ℕ → ℕ → Array SchedItem → Array ℕ → Array SchedItem × Array ℕ
expire zero now sched queued = (sched, queued)
expire (suc fuel) now sched queued = elim (utarray_front sched) [
  | none ↦ (sched, queued)
  | some item ↦
      let rest = expire fuel now (utheap_pop earlier sched) (utheap_push ltb item.idx queued) in
      if ltb now item.t then (sched, queued) else rest
]

module _ {S : Type 0} (k : Components S) where
  -- The components that asked for it are shut down once.
  pub shutdown_one : ℕ → Runtime S → Runtime S
  shutdown_one idx w = elim (get_elem? w.reactor.ctxs idx) [
    | none ↦ w
    | some c ↦
        if not c.finishing && c.has_shutdown
        then k.shutdown idx (
            in_reactor
              (λ r.
                put_ctx idx (λ c. record c { finishing = true })
                  (record r { finishing = r.finishing + 1 }))
              w)
        else w
  ]

  pub shutdown_all : List ℕ → Runtime S → Runtime S
  unfolding shutdown_one
  shutdown_all [] w = w
  shutdown_all (idx ∷ items) w = shutdown_all items (shutdown_one idx w)

  unfoldable pub take_stop : Runtime S → Runtime S
  unfolding shutdown_all
  take_stop w =
      let w' = in_reactor (λ r. record r { stop = r.stop_signal }) w in
      if ltb 0 w'.reactor.stop && w.reactor.stop == 0
      then shutdown_all w'.reactor.stop_list w'
      else w'

  -- Whether the component is run: it has no error, and code.
  abbrev pub is_ready : ℕ → Runtime S → Bool
  is_ready idx w = elim (get_elem? w.reactor.ctxs idx) [
    | none ↦ false
    | some c ↦ not c.failed && c.has_exec
  ]

  abbrev pub pop_queued : Runtime S → Runtime S
  pop_queued = in_reactor λ r. record r { queued = utheap_pop ltb r.queued }

  abbrev pub has_failed : ℕ → Runtime S → Bool
  has_failed idx w = elim (get_elem? w.reactor.ctxs idx) [ none ↦ false | some c ↦ c.failed ]

  abbrev pub is_last : Option ℕ → ℕ → Bool
  is_last none item = false
  is_last (some last) item = item == last

  -- The loop over the queued components. `item` points to the front, and is read again after it was
  -- popped; `last` is `none` for SIZE_MAX. `failed` is the user's error; `none` when the fuel ran out.
  unfoldable pub exec_loop : ℕ → ℕ → Option ℕ → Bool → Runtime S → Option (Bool × Runtime S)
  exec_loop zero now last failed w = none
  exec_loop (suc fuel) now last failed w = elim (utarray_front w.reactor.queued) [
    | none ↦ some (failed, w)
    | some ctxidx ↦
        let w' = pop_queued w in
        let item = w'.reactor.queued.at 0 in
        let same = is_last last item in
        let run = k.exec ctxidx now w' in
        let skipped = exec_loop fuel now (some ctxidx) failed w' in
        let ran = exec_loop fuel now (some ctxidx) (failed || has_failed ctxidx run) run in
        if w.reactor.failed
        then some (failed, w)
        else if not same && is_ready ctxidx w'
        then ran
        else skipped
  ]

  abbrev pub is_empty : {T : Type 0} → Array T → Bool
  is_empty a = a.i == 0

  -- What follows when there is something to do: the queue for this round, and the expired items.
  unfoldable pub start_round : ℕ → Runtime S → Runtime S
  unfolding expire
  start_round now = in_reactor λ r.
      let (sched, queued) = expire (r.sched.i + 1) now r.sched r.toqueue in
      record r { sched = sched; queued = queued; toqueue = r.queued }

  -- What is left to do at the end.
  abbrev pub end_round : Bool × Runtime S → Bool × Bool × Runtime S
  end_round (failed, w) =
      if w.reactor.failed
      then (false, true, w)
      else if failed && w.reactor.stop == 0
      then (true, failed, in_reactor fmc_reactor_stop w)
      else (true, failed, w)

  abbrev pub ended : Option (Bool × Runtime S) → Option (Bool × Bool × Runtime S)
  ended none = none
  ended (some r) = some (end_round r)

  -- Whether to go on, whether the user's error is set, and the world that is left. `failed` is the
  -- user's error before.
  unfoldable pub fmc_reactor_run_once : ℕ → ℕ → Bool → Runtime S → Option (Bool × Bool × Runtime S)
  unfolding take_stop start_round exec_loop fmc_reactor_stop
  fmc_reactor_run_once fuel now failed w =
      let w' = take_stop w in
      let r = w'.reactor in
      let busy = not (is_empty r.toqueue && is_empty r.sched && is_empty r.queued) in
      let stopped = ltb 0 r.stop && r.finishing == 0 in
      let hardstop = leb 3 r.stop in
      if w.reactor.failed
      then some (false, true, w)
      else if not busy || stopped || hardstop
      then some (false, failed, w')
      else ended (exec_loop fuel now none failed (start_round now w'))

  -- The rounds. `clock` tells the time of a live round by the rounds that are left.
  abbrev run_from : ℕ → ℕ → (ℕ → ℕ) → Bool → Bool → Runtime S → Option (Bool × Runtime S)
  run_from zero fuel clock live failed w = none
  run_from (suc n) fuel clock live failed w =
      let now = if live then clock n else fmc_reactor_sched w.reactor in
      elim (fmc_reactor_run_once fuel now failed w) [
        | none ↦ none
        | some (more, failed', w') ↦
            let rest = run_from n fuel clock live failed' w' in
            if more then rest else some (failed', w')
      ]

  pub fmc_reactor_run : ℕ → ℕ → (ℕ → ℕ) → Bool → Runtime S → Option (Bool × Runtime S)
  unfolding fmc_reactor_run_once fmc_reactor_sched
  fmc_reactor_run rounds fuel clock live w = run_from rounds fuel clock live false w
