-- ===== src/Timeline/Both.antt =====
-- The two ways in which a prefix and a name come together.
use yamal.Base.{
  Bool, Bool-cases, List, Option-cases, [], arith, false, inl, inr, length, refl, some, subst, sym,
  true, ℕ, ◌&&◌, ◌<◌, ◌∙◌, ◌∷◌, ◌≡◌, ◌≢◌,
}
use yamal.Control.Order.{member}
use yamal.Control.Registry.{Name, name_test}
use yamal.Control.Table.{find}
use yamal.Streams.State.{bytes_equal}
use yamal.Streams.State.Laws.{bytes_equal-≡, bytes_equal_iff}
use yamal.Timeline.Keys.{parents-all, parents-starts, parents_self, starts_refl}
use yamal.Timeline.Match.{has, has-in_order, has-lower_bound, in_order-Ordered}
use yamal.Timeline.Prefix.{
  announced_keys, ends_slash, in_order, parents, prfx_for_each, slash, starts,
}

find-has :
    (n : Name) (m : List (Name × ℕ))
    → has n m ≡ true
    → (k : ℕ) × (find ⦃e = name_test⦄ n m ≡ some k)
unfolding has find
find-has n [] h = absurd (ground (arith, h))
find-has n ((j, v) ∷ m) h = elim (Bool-cases (bytes_equal j n)) [
  | inl b ↦ (v, rw b refl)
  | inr b ↦
      let rest : has n m ≡ true = ground (arith, h, b) in
      let (k, q) = find-has n m rest in (k, rw b q)
]

module _ (p n : Name) (m : List (Name × ℕ)) (fuel : ℕ) (there : has n m ≡ true) where
  abbrev one_slash : Name
  one_slash = slash ∷ []

  abbrev looked_up : Bool
  looked_up = member ⦃e = name_test⦄ p (announced_keys fuel n)

  -- The prefix that stands for every name.
  every : bytes_equal p one_slash ≡ true → has n (prfx_for_each p m) ≡ looked_up
  unfolding prfx_for_each announced_keys
  every b =
      let e = bytes_equal-≡ p one_slash b in
      let back : bytes_equal one_slash p ≡ true = (bytes_equal_iff one_slash p).1 (sym e) in
      rw (b, back) (has-in_order n m ∙ there)

  module _ (proper : bytes_equal p one_slash ≡ false) (enough : length n < fuel) where
    front : bytes_equal one_slash p ≡ false
    front = elim (Bool-cases (bytes_equal one_slash p)) [
      | inl b ↦ absurd (
          ground
            (arith, proper, (bytes_equal_iff p one_slash).1 (sym (bytes_equal-≡ one_slash p b))))
      | inr b ↦ b
    ]

    looked_up-parents : looked_up ≡ member ⦃e = name_test⦄ p (parents fuel n)
    unfolding announced_keys
    looked_up-parents = rw front refl

    own_name : p ≡ n → member ⦃e = name_test⦄ p (parents fuel n) ≡ true
    own_name e =
        subst (λ x. member ⦃e = name_test⦄ x (parents fuel n) ≡ true) (sym e)
          (parents_self fuel n enough)

    -- What is not the name, and no prefix that ends in a slash, is not looked up.
    not_looked_up :
        p ≢ n
        → (ends_slash p && starts p n) ≡ false
        → member ⦃e = name_test⦄ p (parents fuel n) ≡ false
    not_looked_up z h = elim (Bool-cases (member ⦃e = name_test⦄ p (parents fuel n))) [
      | inl b ↦ elim (parents-starts fuel p n b) [
        | inl e ↦ absurd (z e)
        | inr (s, t) ↦ absurd (ground (arith, h, s, t))
      ]
      | inr b ↦ b
    ]

    -- A name that stands for itself.
    itself : ends_slash p ≡ false → has n (prfx_for_each p m) ≡ looked_up
    unfolding prfx_for_each has
    itself s =
        let part : (ends_slash p && starts p n) ≡ false = ground (arith, s) in
        elim (Bool-cases (bytes_equal p n)) [
          | inl b ↦
              let e = bytes_equal-≡ p n b in
              let (k, q) = find-has n m there in
              let q' : find ⦃e = name_test⦄ p m ≡ some k =
                subst (λ x. find ⦃e = name_test⦄ x m ≡ some k) (sym e) q in
              rw (proper, s, q', b, looked_up-parents, own_name e) refl
          | inr b ↦
              let z : p ≢ n = λ e. absurd (ground (arith, b, (bytes_equal_iff p n).1 e)) in
              elim (Option-cases (find ⦃e = name_test⦄ p m)) [
                | inl unknown ↦
                    rw (proper, s, unknown, looked_up-parents, not_looked_up z part) refl
                | inr (k, known) ↦
                    rw (proper, s, known, b, looked_up-parents, not_looked_up z part) refl
              ]
        ]

    -- A prefix that ends in a slash.
    longer_prefix : ends_slash p ≡ true → has n (prfx_for_each p m) ≡ looked_up
    unfolding prfx_for_each
    longer_prefix s = elim (Bool-cases (starts p n)) [
      | inl t ↦
          let all_found = parents-all fuel p n s t enough in
          rw (proper, s, looked_up-parents, all_found)
            (has-lower_bound p n (in_order m) (in_order-Ordered m)
              ∙ ground (arith, has-in_order n m, there, t))
      | inr t ↦
          let z : p ≢ n =
            λ e. absurd (ground (arith, t, subst (λ x. starts p x ≡ true) e (starts_refl p))) in
          let missed = not_looked_up z (ground (arith, t)) in
          rw (proper, s, looked_up-parents, missed)
            (has-lower_bound p n (in_order m) (in_order-Ordered m) ∙ ground (arith, t))
    ]

    apart_from_slash : has n (prfx_for_each p m) ≡ looked_up
    apart_from_slash = elim (Bool-cases (ends_slash p)) [
      | inl s ↦ longer_prefix s
      | inr s ↦ itself s
    ]

-- For a prefix and a name of the map of channels, with fuel beyond the length of the name,
-- prfx_for_each for the prefix reaches the name exactly when channel_announcement for the name
-- looks the prefix up.
pub prfx_for_each-announced_keys :
    (p n : Name) (m : List (Name × ℕ)) (fuel : ℕ)
    → has n m ≡ true
    → length n < fuel
    → has n (prfx_for_each p m) ≡ member ⦃e = name_test⦄ p (announced_keys fuel n)
prfx_for_each-announced_keys p n m fuel there enough =
    elim (Bool-cases (bytes_equal p (slash ∷ []))) [
      | inl b ↦ every p n m fuel there b
      | inr b ↦ apart_from_slash p n m fuel there b enough
    ]
