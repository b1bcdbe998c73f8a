-- ===== src/Reactor/State.antt =====
-- src/fmc/reactor.c and src/fmc/component.c: the reactor, and the calls by which a component tells it
-- what to run.
-- `struct sched_item`.
use yamal.Base.{
  Bool, List, [], false, get_elem?, if◌then◌else◌, ltb, none, set, some, true, ℕ, ◌%◌, ◌+◌, ◌-◌,
  ◌∷◌,
}
use yamal.Heap.{Array, utarray_front, utheap_push}
use yamal.Yamal.State.{word}

pub record SchedItem : Type 0 where
  pub t : ℕ
  pub idx : ℕ

-- `struct fmc_reactor_ctx`: whether it has an error, its callbacks, and for each output the
-- components and inputs that depend on it.
pub record Ctx : Type 0 where
  pub failed : Bool
  pub has_exec : Bool
  pub has_shutdown : Bool
  pub has_dep_upd : Bool
  pub finishing : Bool
  pub deps : List (List (ℕ × ℕ))

-- `struct fmc_reactor`.
pub record Reactor : Type 0 where
  pub ctxs : List Ctx
  pub sched : Array SchedItem
  pub queued : Array ℕ
  pub toqueue : Array ℕ
  pub finishing : ℕ
  pub stop : ℕ
  pub stop_signal : ℕ
  pub stop_list : List ℕ
  pub failed : Bool

-- FMC_INT64_T_PTR_LESS on items, which start with their time; that on indices is `ltb`.
abbrev pub earlier : SchedItem → SchedItem → Bool
earlier a b = ltb a.t b.t

-- reactor_queue_v1 and reactor_schedule_v1, for the component `idx`.
pub reactor_queue_v1 : ℕ → Reactor → Reactor
reactor_queue_v1 idx r = record r { toqueue = utheap_push ltb idx r.toqueue }

pub reactor_schedule_v1 : ℕ → ℕ → Reactor → Reactor
reactor_schedule_v1 idx time r = record r {
  sched = utheap_push earlier (record { t = time; idx = idx }) r.sched;
}

-- reactor_finished_v1.
abbrev pub put_ctx : ℕ → (Ctx → Ctx) → Reactor → Reactor
put_ctx idx f r = elim (get_elem? r.ctxs idx) [
  | none ↦ r
  | some c ↦ record r { ctxs = set r.ctxs idx (f c) }
]

abbrev is_finishing : ℕ → Reactor → Bool
is_finishing idx r = elim (get_elem? r.ctxs idx) [ none ↦ false | some c ↦ c.finishing ]

pub reactor_finished_v1 : ℕ → Reactor → Reactor
reactor_finished_v1 idx r =
    put_ctx idx (λ c. record c { finishing = false })
      (record r {
        finishing = if is_finishing idx r then (r.finishing + word - 1) % word else r.finishing;
      })

-- fmc_time64_end, the last time.
abbrev pub fmc_time64_end : ℕ
fmc_time64_end = word - 1

unfoldable pub fmc_reactor_sched : Reactor → ℕ
fmc_reactor_sched r = elim (utarray_front r.sched) [ none ↦ fmc_time64_end | some item ↦ item.t ]

unfoldable pub fmc_reactor_stop : Reactor → Reactor
fmc_reactor_stop r = record r { stop_signal = r.stop_signal + 1 }

-- The reactor and the state of the components.
pub record Runtime (S : Type 0) : Type 0 where
  pub reactor : Reactor
  pub state : S

module _ {S : Type 0} where
  abbrev pub in_reactor : (Reactor → Reactor) → Runtime S → Runtime S
  in_reactor f w = record w { reactor = f w.reactor }

-- What the components do: `exec`, `shutdown` and `dep_upd` of each, by its index.
pub record Components (S : Type 0) : Type 0 where
  pub exec : ℕ → ℕ → Runtime S → Runtime S
  pub shutdown : ℕ → Runtime S → Runtime S
  pub dep_upd : ℕ → ℕ → Runtime S → Runtime S

module _ {S : Type 0} (k : Components S) where
  abbrev updates : ℕ → Runtime S → Bool
  updates idx w = elim (get_elem? w.reactor.ctxs idx) [ none ↦ false | some c ↦ c.has_dep_upd ]

  -- reactor_notify_v1: the components that depend on an output are told, and queued for this round.
  pub notify_all : List (ℕ × ℕ) → Runtime S → Runtime S
  notify_all [] w = w
  notify_all ((idx, inp_idx) ∷ deps) w =
      let told = if updates idx w then k.dep_upd idx inp_idx w else w in
      notify_all deps (in_reactor (λ r. record r { queued = utheap_push ltb idx r.queued }) told)

  unfoldable pub reactor_notify_v1 : ℕ → ℕ → Runtime S → Runtime S
  unfolding notify_all
  reactor_notify_v1 idx output w = elim (get_elem? w.reactor.ctxs idx) [
    | none ↦ w
    | some c ↦ elim (get_elem? c.deps output) [
      | none ↦ in_reactor (λ r. record r { failed = true }) w
      | some deps ↦ notify_all deps w
    ]
  ]
