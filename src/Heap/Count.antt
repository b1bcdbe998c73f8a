-- ===== src/Heap/Count.antt =====
-- The elements of an array, as often as each stands there.
use yamal.Base.{
  ==_iff, Bool, Bool-cases, ap, ap₂, arith, false, if◌then◌else◌, inl, inr, refl, suc, sym, true,
  zero, ℕ, ◌+◌, ◌-◌, ◌/◌, ◌<◌, ◌==◌, ◌∙◌, ◌≡◌, ◌≤◌, ◌⊎◌,
}
use yamal.Heap.{heapify_down, heapify_up, largest, parent_index, put, swap}

module _ {T : Type 0} (f : T → Bool) where
  abbrev pub one_if : T → ℕ
  one_if x = if f x then 1 else 0

  -- How many of the first `n` elements the test holds of.
  unfoldable pub tally : (ℕ → T) → ℕ → ℕ
  tally d zero = 0
  tally d (suc n) = one_if (d n) + tally d n

  count_same : (d d' : ℕ → T) (n : ℕ) → ((k : ℕ) → k < n → d' k ≡ d k) → tally d' n ≡ tally d n
  unfolding tally
  count_same d d' zero h = refl
  count_same d d' (suc n) h =
      ap₂ ◌+◌ (ap one_if (h n (omega arith))) (count_same d d' n (λ k b. h k (omega arith)))

  pub tally-put :
      (d : ℕ → T) (i : ℕ) (v : T) (n : ℕ)
      → i < n
      → tally (put d i v) n + one_if (d i) ≡ tally d n + one_if v
  unfolding tally
  tally-put d i v zero h = absurd (omega (arith, h))
  tally-put d i v (suc n) h = elim (Bool-cases (n == i)) [
    | inl e ↦
        let q = (==_iff n i).0 e in
        let rest = count_same d (put d i v) n (λ k b. ground (arith, b, q)) in
        rw (e, rest, q) (omega arith)
    | inr e ↦ rw e (omega (arith, tally-put d i v n (ground (arith, e, h))))
  ]

  pub tally-put_end : (d : ℕ → T) (v : T) (n : ℕ) → tally (put d n v) (suc n) ≡ one_if v + tally d n
  unfolding tally
  tally-put_end d v n =
      ap₂ ◌+◌ (ap one_if (ground arith)) (count_same d (put d n v) n (λ k b. ground (arith, b)))

  pub tally-swap : (d : ℕ → T) (i j n : ℕ) → i < n → j < n → tally (swap d i j) n ≡ tally d n
  tally-swap d i j n a b = elim (Bool-cases (i == j)) [
    | inl e ↦ count_same d (swap d i j) n (λ k c. ground (arith, e))
    | inr e ↦
        let same =
          count_same (put (put d i (d j)) j (d i)) (swap d i j) n (λ k c. ground (arith, e)) in
        let other : put d i (d j) j ≡ d j = ground (arith, e) in
        let q : one_if (put d i (d j) j) ≡ one_if (d j) = ap one_if other in
        same ∙ omega (arith, tally-put d i (d j) n a, tally-put (put d i (d j)) j (d i) n b, q)
  ]

  pub tally-heapify_up :
      (test : T → T → Bool) (fuel i : ℕ) (d : ℕ → T) (n : ℕ)
      → i < n
      → tally (heapify_up fuel test i d) n ≡ tally d n
  unfolding heapify_up
  tally-heapify_up test zero i d n b = refl
  tally-heapify_up test (suc fuel) i d n b = elim (Bool-cases (i == 0)) [
    | inl e ↦ rw e refl
    | inr e ↦ elim (Bool-cases (test (d (parent_index i)) (d i))) [
      | inl t ↦ rw (e, t) refl
      | inr t ↦
          rw (e, t)
            (tally-heapify_up test fuel (parent_index i) (swap d i (parent_index i)) n (omega arith)
              ∙ tally-swap d i (parent_index i) n b (omega arith))
    ]
  ]

  -- The chosen element is the given one, or a child of it that is there.
  pub largest_cases :
      (cmp : T → T → Bool) (d : ℕ → T) (n idx : ℕ)
      → (largest cmp d n idx ≡ idx)
        ⊎ ((largest cmp d n idx ≤ n)
            × (idx ≤ largest cmp d n idx)
            × (largest cmp d n idx / 2 ≡ idx))
  unfolding largest
  largest_cases cmp d n idx = ground arith

  pub tally-heapify_down :
      (cmp : T → T → Bool) (fuel idx : ℕ) (d : ℕ → T) (n : ℕ)
      → 0 < idx
      → idx ≤ n
      → tally (heapify_down fuel cmp n idx d) n ≡ tally d n
  unfolding heapify_down
  tally-heapify_down cmp zero idx d n z b = refl
  tally-heapify_down cmp (suc fuel) idx d n z b =
      let g = largest cmp d n idx in
      elim (Bool-cases (g == idx)) [
        | inl e ↦ rw e refl
        | inr e ↦ elim (largest_cases cmp d n idx) [
          | inl q ↦ absurd (ground (arith, e, q))
          | inr (le, up, half) ↦ rw e (
              tally-heapify_down cmp fuel g (swap d (idx - 1) (g - 1)) n (omega (arith, z, up)) le
              ∙ tally-swap d (idx - 1) (g - 1) n (omega (arith, z, b)) (omega (arith, z, up, le)))
        ]
      ]

-- Tests that agree on the elements, and one that holds of none.
module _ {T : Type 0} where
  pub tally_ext :
      (f g : T → Bool) (d : ℕ → T) (n : ℕ)
      → ((k : ℕ) → k < n → f (d k) ≡ g (d k))
      → tally g d n ≡ tally f d n
  unfolding tally
  tally_ext f g d zero h = refl
  tally_ext f g d (suc n) h =
      ap₂ ◌+◌ (ap (λ b. if b then 1 else 0) (sym (h n (omega arith))))
        (tally_ext f g d n (λ k b. h k (omega arith)))

  pub tally_none :
      (f : T → Bool) (d : ℕ → T) (n : ℕ) → ((k : ℕ) → k < n → f (d k) ≡ false) → tally f d n ≡ 0
  unfolding tally
  tally_none f d zero h = refl
  tally_none f d (suc n) h =
      rw (h n (omega arith)) (omega (arith, tally_none f d n (λ k b. h k (omega arith))))

  pub tally_le : (f : T → Bool) (d : ℕ → T) (n : ℕ) → tally f d n ≤ n
  unfolding tally
  tally_le f d zero = omega arith
  tally_le f d (suc n) = ground (arith, tally_le f d n)

  pub tally_all : (d : ℕ → T) (n : ℕ) → tally (λ x. true) d n ≡ n
  unfolding tally
  tally_all d zero = refl
  tally_all d (suc n) = omega (arith, tally_all d n)
