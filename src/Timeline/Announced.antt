-- ===== src/Timeline/Announced.antt =====
-- A peer is announced to the clients once.
use yamal.Base.{
  Bool, Bool-cases, List, Option-cases, [], ap, arith, false, get_elem?, if◌then◌else◌, inl, inr,
  leb, leb→le, length, length-append, refl, set, suc, sym, true, zero, ℕ, ◌++◌, ◌+◌, ◌-◌, ◌<◌, ◌==◌,
  ◌||◌, ◌∙◌, ◌∷◌, ◌≡◌,
}
use yamal.Control.Registry.{Name, peer_off}
use yamal.LazyRemVector.{lock}
use yamal.Message.Fields.{sub64}
use yamal.Timeline.Poll.{Both, ClientCode, call_round, changed, peer_round, tell_peer}
use yamal.Timeline.Register.{Client, Clients, falses, flag_at, was_announced}

flag_at-falses : (n j : ℕ) → flag_at j (falses n) ≡ false
flag_at-falses zero j = refl
flag_at-falses (suc n) zero = refl
flag_at-falses (suc n) (suc j) = flag_at-falses n j

flag_at-append : (v : List Bool) (n j : ℕ) → flag_at j (v ++ falses n) ≡ flag_at j v
flag_at-append [] n j = flag_at-falses n j
flag_at-append (b ∷ v) n zero = refl
flag_at-append (b ∷ v) n (suc j) = flag_at-append v n j

flag_at-set :
    (v : List Bool) (id j : ℕ)
    → id < length v
    → flag_at j (set v id true) ≡ (j == id || flag_at j v)
flag_at-set [] id j h = absurd (omega (arith, h))
flag_at-set (b ∷ v) zero zero h = refl
flag_at-set (b ∷ v) zero (suc j) h = ground arith
flag_at-set (b ∷ v) (suc id) zero h = ground arith
flag_at-set (b ∷ v) (suc id) (suc j) h = flag_at-set v id j (omega (arith, h)) ∙ (ground arith)

length-falses : (n : ℕ) → length (falses n) ≡ n
length-falses zero = refl
length-falses (suc n) = omega (arith, length-falses n)

length-set : (v : List Bool) (id : ℕ) → length (set v id true) ≡ length v
length-set [] id = refl
length-set (b ∷ v) zero = refl
length-set (b ∷ v) (suc id) = omega (arith, length-set v id)

set_again : (v : List Bool) (id : ℕ) → set (set v id true) id true ≡ set v id true
set_again [] id = refl
set_again (b ∷ v) zero = refl
set_again (b ∷ v) (suc id) = ap (λ (l : List Bool). b ∷ l) (set_again v id)

-- The marks before the number is set.
abbrev grown : ℕ → List Bool → List Bool
grown id v = if leb (length v) id then v ++ falses (suc id - length v) else v

grown-flag_at : (id j : ℕ) (v : List Bool) → flag_at j (grown id v) ≡ flag_at j v
grown-flag_at id j v = elim (Bool-cases (leb (length v) id)) [
  | inl b ↦ rw b (flag_at-append v (suc id - length v) j)
  | inr b ↦ rw b refl
]

grown-length : (id : ℕ) (v : List Bool) → id < length (grown id v)
grown-length id v = elim (Bool-cases (leb (length v) id)) [
  | inl b ↦ rw b (
      let l = leb→le (length v) id b in
      omega
        (arith, l, length-append v (falses (suc id - length v)), length-falses (suc id - length v)))
  | inr b ↦ rw b (ground (arith, b))
]

-- The answer is the old mark, and the mark is set and no other.
pub was_announced_lem :
    (id j : ℕ) (v : List Bool)
    → ((was_announced id v).0 ≡ flag_at id v)
      × (flag_at j (was_announced id v).1 ≡ (j == id || flag_at j v))
unfolding was_announced
was_announced_lem id j v = (
  grown-flag_at id id v,
  flag_at-set (grown id v) id j (grown-length id v) ∙ ap (λ b. j == id || b) (grown-flag_at id j v),
)

was_announced_again :
    (id : ℕ) (v : List Bool)
    → was_announced id (was_announced id v).1 ≡ (true, (was_announced id v).1)
unfolding was_announced
was_announced_again id v =
    let marks = set (grown id v) id true in
    let long : leb (length marks) id ≡ false =
      let l = grown-length id v in let q = length-set (grown id v) id in ground (arith, l, q) in
    let flag : flag_at id marks ≡ true =
      flag_at-set (grown id v) id id (grown-length id v) ∙ (ground arith) in
    rw (long, flag, set_again (grown id v) id) refl

-- What no call changes, a round does not change.
module _ {A : Type 0} (f : Both → A) (v : Both → Clients) (call : Client → Both → Both)
    (keeps : (c : Client) (w : Both) → f (call c w) ≡ f w) where
  call_round-keeps : (fuel pos : ℕ) (w : Both) → f (call_round fuel v call pos w) ≡ f w
  unfolding call_round
  call_round-keeps zero pos w = refl
  call_round-keeps (suc fuel) pos w = elim (Option-cases (get_elem? (v w).items pos)) [
    | inl end ↦ rw (end, call_round) refl
    | inr (i, there) ↦ elim (Bool-cases i.removed) [
      | inl b ↦ rw (there, call_round, b) (call_round-keeps fuel (pos + 1) w)
      | inr b ↦
          rw (there, call_round, b)
            (call_round-keeps fuel (pos + 1) (call i.value w) ∙ keeps i.value w)
    ]
  ]

module _ (fuel : ℕ) (k : ClientCode) (peerid : ℕ) (name : Name)
    (keeps : (c : Client) (w : Both)
      → (k.on_peer c peerid name w).timeline.peer_announced ≡ w.timeline.peer_announced) where
  peer_round-keeps :
      (w : Both)
      → (peer_round fuel k peerid name w).timeline.peer_announced ≡ w.timeline.peer_announced
  unfolding peer_round
  peer_round-keeps w =
      call_round-keeps (λ u. u.timeline.peer_announced) (λ u. u.timeline.cb_peer)
        (λ c. k.on_peer c peerid name) keeps fuel 0
        (changed (λ t. record t { cb_peer = lock t.cb_peer }) w)

  tell_peer-marks :
      (w : Both)
      → (tell_peer fuel k peerid name w).timeline.peer_announced
        ≡ (was_announced (sub64 peerid peer_off) w.timeline.peer_announced).1
  tell_peer-marks w =
      elim (Bool-cases (was_announced (sub64 peerid peer_off) w.timeline.peer_announced).0) [
        | inl b ↦ rw b refl
        | inr b ↦ rw b (
            peer_round-keeps (
              changed
                (λ t. record t {
                  peer_announced = (was_announced (sub64 peerid peer_off) t.peer_announced).1;
                })
                w))
      ]

  -- When no callback on peers changes the marks of the announced peers, to announce a peer that
  -- was just announced calls no callback and changes nothing.
  pub tell_peer-once :
      (w : Both)
      → tell_peer fuel k peerid name (tell_peer fuel k peerid name w)
        ≡ tell_peer fuel k peerid name w
  tell_peer-once w =
      let marks = tell_peer-marks w in
      let again = was_announced_again (sub64 peerid peer_off) w.timeline.peer_announced in
      rw (marks, again)
        (ap
          (λ l. record (tell_peer fuel k peerid name w) {
            timeline = record (tell_peer fuel k peerid name w).timeline { peer_announced = l };
          })
          (sym marks))
