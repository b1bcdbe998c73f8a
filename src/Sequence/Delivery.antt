-- ===== src/Sequence/Delivery.antt =====
-- The tables of the control are what the registrations of the timeline rest on.
-- Another key of a list than one that is not in it.
use yamal.Base.{
  Bool, Bool-cases, List, [], arith, false, get_elem?, inl, inr, length, not, refl, some, subst,
  suc, sym, true, zero, ℕ, ◌&&◌, ◌+◌, ◌<◌, ◌==◌, ◌||◌, ◌∙◌, ◌∷◌, ◌≡◌, ◌≢◌,
}
use yamal.Control.Numbers.{Missing, Unique, enumerate, find-enumerate}
use yamal.Control.Order.{member}
use yamal.Control.Registry.{Name, channel_off, name_test}
use yamal.Control.Table.{find}
use yamal.Control.Tables.{IsRegistry}
use yamal.Sequence.Calls.{Sequence, ytp_sequence_prfx_cb, ytp_sequence_prfx_cb_rm}
use yamal.Streams.State.{bytes_equal}
use yamal.Streams.State.Laws.{bytes_equal-≡, bytes_equal_iff}
use yamal.Timeline.Delivery.{
  Numbered, is_subscribed, ytp_timeline_prfx_cb-is_subscribed,
  ytp_timeline_prfx_cb_rm-is_subscribed,
}
use yamal.Timeline.Match.{has}
use yamal.Timeline.Prefix.{announced_keys}
use yamal.Timeline.Register.{Client, client_beq}

Missing-get :
    (y n : Name) (ys : List Name) (i : ℕ)
    → Missing ⦃e = name_test⦄ y ys
    → get_elem? ys i ≡ some n
    → n ≢ y
Missing-get y n [] i m h = cc
Missing-get y n (z ∷ zs) zero m h = let q : z ≡ n = cc h in λ e. m.0 (q ∙ e)
Missing-get y n (z ∷ zs) (suc i) m h = Missing-get y n zs i m.1 h

differ : (y n : Name) → n ≢ y → bytes_equal y n ≡ false
differ y n h = elim (Bool-cases (bytes_equal y n)) [
  | inl b ↦ absurd (h (sym (bytes_equal-≡ y n b)))
  | inr b ↦ b
]

-- Numbers that come later stand for other names.
Numbered-later :
    (k o : ℕ) (n : Name) (ys : List Name)
    → k < o
    → Missing ⦃e = name_test⦄ n ys
    → Numbered k n (enumerate o ys)
unfolding enumerate
Numbered-later k o n [] h m = tt
Numbered-later k o n (y ∷ ys) h m =
    let far : (o == k) ≡ false = ground (arith, h) in
    (far ∙ sym (differ y n (λ e. m.0 (sym e))), Numbered-later k (suc o) n ys (omega arith) m.1)

Numbered-enumerate :
    (o : ℕ) (xs : List Name) (i : ℕ) (n : Name)
    → Unique ⦃e = name_test⦄ xs
    → get_elem? xs i ≡ some n
    → Numbered (o + i) n (enumerate o xs)
unfolding enumerate
Numbered-enumerate o [] i n u h = cc
Numbered-enumerate o (y ∷ ys) zero n u h =
    let q : y ≡ n = cc h in
    let here : (o == (o + 0)) ≡ true = ground arith in
    (
      here ∙ sym ((bytes_equal_iff y n).1 q),
      Numbered-later (o + 0) (suc o) n ys (omega arith)
          (subst (λ z. Missing ⦃e = name_test⦄ z ys) q u.0),
    )
Numbered-enumerate o (y ∷ ys) (suc i) n u h =
    let far : (o == (o + suc i)) ≡ false = ground arith in
    let q : suc o + i ≡ o + suc i = omega arith in
    (
      far ∙ sym (differ y n (Missing-get y n ys i u.0 h)),
      subst (λ z. Numbered z n (enumerate (suc o) ys)) q (Numbered-enumerate (suc o) ys i n u.1 h),
    )

find-has :
    (n : Name) (m : List (Name × ℕ)) (k : ℕ) → find ⦃e = name_test⦄ n m ≡ some k → has n m ≡ true
unfolding find has
find-has n [] k h = cc
find-has n ((j, v) ∷ m) k h = elim (Bool-cases (bytes_equal j n)) [
  | inl b ↦ rw b refl
  | inr b ↦
      let rest : find ⦃e = name_test⦄ n m ≡ some k = ground (arith, h, b) in
      rw b (find-has n m k rest)
]

module _ (w : Sequence) (n : Name) (k : ℕ) (v : IsRegistry w.control.registry)
    (known : find ⦃e = name_test⦄ n w.control.registry.name_to_channelid ≡ some k) where
  channel-Numbered : Numbered k n w.control.registry.name_to_channelid
  channel-Numbered =
      let c = w.control.registry in
      let found' = subst (λ m. find ⦃e = name_test⦄ n m ≡ some k) v.channels.numbers known in
      let (i, q, at) = find-enumerate ⦃e = name_test⦄ channel_off n c.channels k found' in
      subst (Numbered k n) (sym v.channels.numbers) (
        subst (λ z. Numbered z n (enumerate channel_off c.channels)) (sym q)
          (Numbered-enumerate channel_off c.channels i n v.channels.unique at))

  abbrev looked_up : Name → Bool
  looked_up p = member ⦃e = name_test⦄ p (announced_keys (suc (length n)) n)

  -- When the names of the control have the numbers from 256 on in order and none stands twice, and
  -- a channel is known, ytp_sequence_prfx_cb subscribes its callback to the channel exactly when
  -- the name of the channel looks the prefix up, ytp_sequence_prfx_cb_rm unsubscribes its callback
  -- under the same condition, whatever other prefix it is registered for, and every other callback
  -- stays as it was.
  pub ytp_sequence_prfx_cb-is_subscribed :
      (p : Name) (c x : Client)
      → (is_subscribed x k (ytp_sequence_prfx_cb p c w).1.timeline
          ≡ (is_subscribed x k w.timeline || (looked_up p && client_beq x c)))
        × (is_subscribed x k (ytp_sequence_prfx_cb_rm p c w).1.timeline
            ≡ (is_subscribed x k w.timeline && not (looked_up p && client_beq c x)))
  unfolding ytp_sequence_prfx_cb ytp_sequence_prfx_cb_rm
  ytp_sequence_prfx_cb-is_subscribed p c x =
      let names = w.control.registry.name_to_channelid in
      let there = find-has n names k known in
      (
        ytp_timeline_prfx_cb-is_subscribed x c p n k w.timeline names channel-Numbered there,
        ytp_timeline_prfx_cb_rm-is_subscribed x c p n k w.timeline names channel-Numbered there,
      )
