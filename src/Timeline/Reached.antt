-- ===== src/Timeline/Reached.antt =====
-- What holds of each channel of a map holds of those that prfx_for_each reaches.
-- What a test of the entries holds of in a map holds of in a part of it.
use yamal.Base.{Bool-cases, List, Option-cases, [], arith, inl, inr, some, subst, ℕ, ◌∷◌, ◌≡◌}
use yamal.Control.Registry.{Name, name_test}
use yamal.Control.Table.{find}
use yamal.Streams.State.{bytes_equal}
use yamal.Streams.State.Laws.{bytes_equal-≡}
use yamal.Timeline.Prefix.{
  ends_slash, in_order, insert_name, less, lower_bound, prfx_for_each, slash, starts, while_starts,
}

module _ (P : Name → ℕ → Type 0) where
  abbrev pub Each : List (Name × ℕ) → Type 0
  Each [] = Unit {0}
  Each ((i, j) ∷ m) = P i j × Each m

  Each-insert : (i : Name) (j : ℕ) (m : List (Name × ℕ)) → P i j → Each m → Each (insert_name i j m)
  unfolding insert_name
  Each-insert i j [] p h = (p, tt)
  Each-insert i j ((k, v) ∷ m) p h = elim (Bool-cases (less i k)) [
    | inl b ↦ rw b (p, h)
    | inr b ↦ rw b (h.0, Each-insert i j m p h.1)
  ]

  Each-in_order : (m : List (Name × ℕ)) → Each m → Each (in_order m)
  unfolding in_order
  Each-in_order [] h = tt
  Each-in_order ((i, j) ∷ m) h = Each-insert i j (in_order m) h.0 (Each-in_order m h.1)

  Each-lower_bound : (p : Name) (m : List (Name × ℕ)) → Each m → Each (lower_bound p m)
  unfolding lower_bound
  Each-lower_bound p [] h = tt
  Each-lower_bound p ((i, j) ∷ m) h = elim (Bool-cases (less i p)) [
    | inl b ↦ rw b (Each-lower_bound p m h.1)
    | inr b ↦ rw b h
  ]

  Each-while_starts : (p : Name) (m : List (Name × ℕ)) → Each m → Each (while_starts p m)
  unfolding while_starts
  Each-while_starts p [] h = tt
  Each-while_starts p ((i, j) ∷ m) h = elim (Bool-cases (starts p i)) [
    | inl b ↦ rw b (h.0, Each-while_starts p m h.1)
    | inr b ↦ rw b tt
  ]

  Each-find :
      (p : Name) (m : List (Name × ℕ)) (k : ℕ) → find ⦃e = name_test⦄ p m ≡ some k → Each m → P p k
  unfolding find
  Each-find p [] k f h = cc
  Each-find p ((i, j) ∷ m) k f h = elim (Bool-cases (bytes_equal i p)) [
    | inl b ↦
        let same = bytes_equal-≡ i p b in
        let value : j ≡ k = ground (arith, f, b) in
        subst (λ x. P x k) same (subst (λ x. P i x) value h.0)
    | inr b ↦
        let f' : find ⦃e = name_test⦄ p m ≡ some k = ground (arith, f, b) in Each-find p m k f' h.1
  ]

  pub Each-prfx_for_each : (p : Name) (m : List (Name × ℕ)) → Each m → Each (prfx_for_each p m)
  unfolding prfx_for_each
  Each-prfx_for_each p m h = elim (Bool-cases (bytes_equal p (slash ∷ []))) [
    | inl b ↦ rw b (Each-in_order m h)
    | inr b ↦ elim (Bool-cases (ends_slash p)) [
      | inl s ↦
          rw (b, s)
            (Each-while_starts p (lower_bound p (in_order m))
              (Each-lower_bound p (in_order m) (Each-in_order m h)))
      | inr s ↦ elim (Option-cases (find ⦃e = name_test⦄ p m)) [
        | inl missing ↦ rw (b, s, missing) tt
        | inr (k, there) ↦ rw (b, s, there) (Each-find p m k there h, tt)
      ]
    ]
  ]
