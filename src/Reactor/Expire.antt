-- ===== src/Reactor/Expire.antt =====
-- The items whose time has come go from the schedule to the queue, and no other.
use yamal.Base.{
  Bool, Bool-cases, Option-cases, arith, false, inl, inr, ltb, not, suc, true, zero, ℕ, ◌&&◌, ◌+◌,
  ◌<◌, ◌≡◌,
}
use yamal.Heap.{Array, utarray_front, utheap_pop, utheap_push}
use yamal.Heap.Count.{one_if, tally, tally_ext, tally_none}
use yamal.Heap.Down.{IsOrder}
use yamal.Heap.Laws.{
  IsValid, utarray_front-none, utheap_pop-IsValid, utheap_pop-size, utheap_push-IsValid,
}
use yamal.LazyRemVector.{empty}
use yamal.Reactor.Run.{expire}
use yamal.Reactor.State.{SchedItem, earlier}

pub earlier-IsOrder : IsOrder earlier
earlier-IsOrder = record {
  asym = λ a b h. ground (arith, h);
  trans = λ a b c h k. ground (arith, h, k);
}

pub ltb-IsOrder : IsOrder ltb
ltb-IsOrder = record {
  asym = λ a b h. ground (arith, h);
  trans = λ a b c h k. ground (arith, h, k);
}

abbrev pub IsSchedule : Array SchedItem → Type 0
IsSchedule = IsValid earlier earlier-IsOrder

abbrev pub IsQueued : Array ℕ → Type 0
IsQueued = IsValid ltb ltb-IsOrder

-- An item that is left for later, and one that has come and has an index that `f` holds of.
abbrev pub is_later : ℕ → SchedItem → Bool
is_later now item = ltb now item.t

abbrev pub has_come : ℕ → (ℕ → Bool) → SchedItem → Bool
has_come now f item = f item.idx && not (is_later now item)

-- What the loop leaves of a schedule and a queue.
pub record IsExpired (now : ℕ) (sched : Array SchedItem) (queued : Array ℕ)
    (r : Array SchedItem × Array ℕ) : Type 0 where
  pub schedule : IsSchedule r.0
  pub queue : IsQueued r.1
  pub later : (k : ℕ) → k < r.0.i → is_later now (r.0.at k) ≡ true
  pub kept :
      (f : SchedItem → Bool)
      → tally f r.0.at r.0.i ≡ tally (λ x. f x && is_later now x) sched.at sched.i
  pub come :
      (f : ℕ → Bool)
      → tally f r.1.at r.1.i ≡ tally f queued.at queued.i + tally (has_come now f) sched.at sched.i

-- Nothing has come.
none_come :
    (now : ℕ) (sched : Array SchedItem) (queued : Array ℕ)
    → IsSchedule sched
    → IsQueued queued
    → ((k : ℕ) → k < sched.i → is_later now (sched.at k) ≡ true)
    → IsExpired now sched queued (sched, queued)
none_come now sched queued v q all = record {
  schedule = v;
  queue = q;
  later = all;
  kept = λ f.
      tally_ext (λ x. f x && is_later now x) f sched.at sched.i
        (λ k b. rw (all k b) (ground arith));
  come = λ f.
      let zero_come =
        tally_none (has_come now f) sched.at sched.i (λ k b. rw (all k b) (ground arith)) in
      omega (arith, zero_come);
}

-- The front has come.
one_come :
    (now : ℕ) (sched : Array SchedItem) (queued : Array ℕ) (item : SchedItem)
    (r : Array SchedItem × Array ℕ)
    → is_later now item ≡ false
    → ((f : SchedItem → Bool)
        → one_if f item + tally f (utheap_pop earlier sched).at (utheap_pop earlier sched).i
          ≡ tally f sched.at sched.i)
    → ((f : ℕ → Bool)
        → tally f (utheap_push ltb item.idx queued).at (utheap_push ltb item.idx queued).i
          ≡ one_if f item.idx + tally f queued.at queued.i)
    → IsExpired now (utheap_pop earlier sched) (utheap_push ltb item.idx queued) r
    → IsExpired now sched queued r
one_come now sched queued item r c popped pushed e = record {
  schedule = e.schedule;
  queue = e.queue;
  later = e.later;
  kept = λ f.
      let g = λ (x : SchedItem). f x && is_later now x in
      let out : one_if g item ≡ 0 = rw c (ground arith) in omega (arith, e.kept f, popped g, out);
  come = λ f.
      let same : one_if (has_come now f) item ≡ one_if f item.idx = rw c (ground arith) in
      omega (arith, e.come f, popped (has_come now f), pushed f, same);
}

-- From a schedule and a queue that are heaps, with fuel beyond the schedule, the loop over the
-- expired items leaves heaps: in the schedule the items whose time is later than now, each as
-- often as before and no other, and in the queue what was there and the indices of the items whose
-- time has come.
pub expire-IsExpired :
    (fuel now : ℕ) (sched : Array SchedItem) (queued : Array ℕ)
    → IsSchedule sched
    → IsQueued queued
    → sched.i < fuel
    → IsExpired now sched queued (expire fuel now sched queued)
unfolding expire
expire-IsExpired zero now sched queued v q b = absurd (omega (arith, b))
expire-IsExpired (suc fuel) now sched queued v q b = elim (Option-cases (utarray_front sched)) [
  | inl empty ↦
      rw (empty, expire)
        (none_come now sched queued v q
          (λ k c. absurd (omega (arith, c, utarray_front-none sched empty))))
  | inr (item, front) ↦
      let (v', popped, least) = utheap_pop-IsValid earlier earlier-IsOrder sched item v front in
      let (q', pushed) = utheap_push-IsValid ltb ltb-IsOrder item.idx queued q in
      elim (Bool-cases (ltb now item.t)) [
        | inl l ↦
            rw (front, expire, l)
              (none_come now sched queued v q (λ k c. ground (arith, l, least k c)))
        | inr l ↦
            rw (front, expire, l)
              (one_come now sched queued item _ l popped pushed (
                expire-IsExpired fuel now (utheap_pop earlier sched)
                  (utheap_push ltb item.idx queued) v' q'
                  (omega (arith, b, utheap_pop-size sched earlier item front))))
      ]
]
