-- ===== src/Timeline/Delivery.antt =====
-- A callback on a prefix and a channel find each other, in whatever order they come.
-- In the map of channels the number stands at the name and at no other; it stands nowhere.
use yamal.Base.{
  Bool, List, [], ap, arith, false, length, not, refl, suc, true, ℕ, ◌&&◌, ◌==◌, ◌||◌, ◌∙◌, ◌∷◌,
  ◌≡◌,
}
use yamal.Control.Order.{member}
use yamal.Control.Registry.{Name, name_test, offset_test}
use yamal.LazyRemVector.{push_unique}
use yamal.LazyRemVector.Live.{is_live, is_live-erase_if, is_live-push_unique}
use yamal.Streams.State.{bytes_equal}
use yamal.Timeline.Both.{prfx_for_each-announced_keys}
use yamal.Timeline.Given.{given, given-register, is_live-push_keys}
use yamal.Timeline.Match.{has}
use yamal.Timeline.Prefix.{announced_keys, prfx_for_each}
use yamal.Timeline.Reached.{Each, Each-prfx_for_each}
use yamal.Timeline.Register.{
  Client, Clients, Timeline, channel_announcement, client_beq, client_test, push_keys, without,
  ytp_timeline_prfx_cb, ytp_timeline_prfx_cb_rm,
}
use yamal.Timeline.Tables.{has_number, is_live-for_channels, vector_at, vector_at-at_key}

abbrev pub Numbered : ℕ → Name → List (Name × ℕ) → Type 0
Numbered k n = Each (λ i j. (j == k) ≡ bytes_equal i n)

abbrev pub Unnumbered : ℕ → List (Name × ℕ) → Type 0
Unnumbered k = Each (λ i j. (j == k) ≡ false)

Numbered-has_number :
    (k : ℕ) (n : Name) (m : List (Name × ℕ)) → Numbered k n m → has_number k m ≡ has n m
unfolding has_number has
Numbered-has_number k n [] h = refl
Numbered-has_number k n ((i, j) ∷ m) h = rw (h.0, Numbered-has_number k n m h.1) refl

Unnumbered-has_number : (k : ℕ) (m : List (Name × ℕ)) → Unnumbered k m → has_number k m ≡ false
unfolding has_number
Unnumbered-has_number k [] h = refl
Unnumbered-has_number k ((i, j) ∷ m) h = rw (h.0, Unnumbered-has_number k m h.1) refl

-- Whether a data message on the channel calls the client.
unfoldable pub is_subscribed : Client → ℕ → Timeline → Bool
unfolding is_live
is_subscribed x k t = is_live ⦃e = client_test⦄ x (vector_at ⦃e = offset_test⦄ k t.idx_cb).items

module _ (x c : Client) (p n : Name) (k : ℕ) (t : Timeline) where
  abbrev looked_up : List Name
  looked_up = announced_keys (suc (length n)) n

  -- The announcement of a channel.
  pub announced_lem :
      is_subscribed x k (channel_announcement k n t)
      ≡ (is_subscribed x k t || given x looked_up t.prfx_cb)
  unfolding is_subscribed channel_announcement
  announced_lem =
      let here = vector_at-at_key ⦃e = offset_test⦄ (push_keys t.prfx_cb looked_up) k t.idx_cb in
      ap (λ (w : Clients). is_live ⦃e = client_test⦄ x w.items) here
      ∙ is_live-push_keys x t.prfx_cb looked_up (vector_at ⦃e = offset_test⦄ k t.idx_cb)

  -- The registration on a prefix.
  registered_lem :
      (names : List (Name × ℕ))
      → is_subscribed x k (ytp_timeline_prfx_cb p c names t)
        ≡ (is_subscribed x k t || (has_number k (prfx_for_each p names) && client_beq x c))
  unfolding is_subscribed ytp_timeline_prfx_cb
  registered_lem names =
      is_live-for_channels x (push_unique ⦃e = client_test⦄ c) (λ b. b || client_beq x c)
        (is_live-push_unique ⦃e = client_test⦄ x c) (λ b. ground arith) k (prfx_for_each p names)
        t.idx_cb
      ∙ (ground arith)

  -- The removal from a prefix.
  removed_lem :
      (names : List (Name × ℕ))
      → is_subscribed x k (ytp_timeline_prfx_cb_rm p c names t)
        ≡ (is_subscribed x k t && not (has_number k (prfx_for_each p names) && client_beq c x))
  unfolding is_subscribed ytp_timeline_prfx_cb_rm
  removed_lem names =
      is_live-for_channels x (without c) (λ b. b && not (client_beq c x))
        (is_live-erase_if ⦃e = client_test⦄ x (λ y. client_beq c y)) (λ b. ground arith) k
        (prfx_for_each p names) t.idx_cb
      ∙ (ground arith)

  -- The prefixes that a later announcement finds.
  given_later :
      (names : List (Name × ℕ))
      → given x looked_up (ytp_timeline_prfx_cb p c names t).prfx_cb
        ≡ (given x looked_up t.prfx_cb || (member ⦃e = name_test⦄ p looked_up && client_beq x c))
  unfolding ytp_timeline_prfx_cb
  given_later names = given-register x c p looked_up t.prfx_cb

module _ (x c : Client) (p n : Name) (k : ℕ) (t : Timeline) (names : List (Name × ℕ))
    (h : Numbered k n names) (there : has n names ≡ true) where
  abbrev is_found : Bool
  is_found = member ⦃e = name_test⦄ p (announced_keys (suc (length n)) n)

  reached : has_number k (prfx_for_each p names) ≡ is_found
  reached =
      Numbered-has_number k n (prfx_for_each p names)
        (Each-prfx_for_each (λ i j. (j == k) ≡ bytes_equal i n) p names h)
      ∙ prfx_for_each-announced_keys p n names (suc (length n)) there (omega arith)

  -- When a channel has a number in the map of channels that no other name has, and the map from
  -- before had no such number, a client that registers a callback for a prefix with the map from
  -- before, the channel being announced after, and one that registers it with the map, the channel
  -- being announced before, leave the same callbacks subscribed to the channel.
  pub ytp_timeline_prfx_cb-channel_announcement :
      (before : List (Name × ℕ))
      → Unnumbered k before
      → is_subscribed x k (channel_announcement k n (ytp_timeline_prfx_cb p c before t))
        ≡ is_subscribed x k (ytp_timeline_prfx_cb p c names (channel_announcement k n t))
  ytp_timeline_prfx_cb-channel_announcement before u =
      let none_reached =
        Unnumbered-has_number k (prfx_for_each p before)
          (Each-prfx_for_each (λ i j. (j == k) ≡ false) p before u) in
      rw
        (
          announced_lem x c p n k (ytp_timeline_prfx_cb p c before t),
          registered_lem x c p n k t before,
          given_later x c p n k t before,
          registered_lem x c p n k (channel_announcement k n t) names,
          announced_lem x c p n k t,
          none_reached,
          reached,
        )
        (ground arith)

  -- When a channel has a number in the map of channels that no other name has, the removal of a
  -- callback from a prefix unsubscribes that callback from the channel exactly when the name of
  -- the channel looks the prefix up, whatever other prefix the callback is registered for, and
  -- leaves every other callback as it was.
  pub ytp_timeline_prfx_cb_rm-is_subscribed :
      is_subscribed x k (ytp_timeline_prfx_cb_rm p c names t)
      ≡ (is_subscribed x k t && not (is_found && client_beq c x))
  ytp_timeline_prfx_cb_rm-is_subscribed = rw (removed_lem x c p n k t names, reached) refl

  -- A registration subscribes the client where the prefix is looked up, and nobody else.
  pub ytp_timeline_prfx_cb-is_subscribed :
      is_subscribed x k (ytp_timeline_prfx_cb p c names t)
      ≡ (is_subscribed x k t || (is_found && client_beq x c))
  ytp_timeline_prfx_cb-is_subscribed = rw (registered_lem x c p n k t names, reached) refl
