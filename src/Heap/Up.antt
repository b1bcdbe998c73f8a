-- ===== src/Heap/Up.antt =====
-- The way up restores the order of a heap in which one element may come before its parent.
use yamal.Base.{
  ==_iff, Bool, Bool-cases, arith, false, inl, inr, suc, true, zero, ℕ, ◌<◌, ◌==◌, ◌≡◌, ◌≢◌,
}
use yamal.Heap.{heapify_up, parent_index, swap}

module _ {T : Type 0} (Ok : T → T → Bool) where
  -- Of each element but the first, the parent may stand above it.
  abbrev pub IsHeap : (ℕ → T) → ℕ → Type 0
  IsHeap d n = (k : ℕ) → 0 < k → k < n → Ok (d (parent_index k)) (d k) ≡ true

  module _ (test : T → T → Bool) (stop : (p c : T) → test p c ≡ true → Ok p c ≡ true)
      (go : (p c : T) → test p c ≡ false → Ok c p ≡ true)
      (trans : (a b c : T) → Ok a b ≡ true → Ok b c ≡ true → Ok a c ≡ true) where
    -- All is in order but the element at `i` and its parent.
    pub record Rising (d : ℕ → T) (n i : ℕ) : Type 0 where
      pub edges : (k : ℕ) → 0 < k → k < n → k ≢ i → Ok (d (parent_index k)) (d k) ≡ true
      pub skip :
          (k : ℕ)
          → 0 < k
          → k < n
          → parent_index k ≡ i
          → 0 < i
          → Ok (d (parent_index i)) (d k) ≡ true

    module _ (d : ℕ → T) (n i : ℕ) (below : i < n) (h : 0 < i) (r : Rising d n i)
        (more : Ok (d i) (d (parent_index i)) ≡ true) where
      abbrev p : ℕ
      p = parent_index i

      swapped_edge :
          (k : ℕ) → 0 < k → k < n → k ≢ p → Ok (swap d i p (parent_index k)) (swap d i p k) ≡ true
      swapped_edge k a b c = elim (Bool-cases (k == i)) [
        | inl e ↦ let q = (==_iff k i).0 e in rw q (ground (arith, more))
        | inr e ↦ elim (Bool-cases (parent_index k == i)) [
          | inl f ↦
              let q = (==_iff (parent_index k) i).0 f in ground (arith, e, f, c, r.skip k a b q h)
          | inr f ↦ ground (arith, e, f, c, r.edges k a b, trans (d i) (d p) (d k) more)
        ]
      ]

      swapped_skip :
          (k : ℕ)
          → 0 < k
          → k < n
          → parent_index k ≡ p
          → 0 < p
          → Ok (swap d i p (parent_index p)) (swap d i p k) ≡ true
      swapped_skip k a b e z =
          let above = r.edges p z (omega arith) (λ q. absurd (omega (arith, q))) in
          elim (Bool-cases (k == i)) [
            | inl f ↦ ground (arith, f, above)
            | inr f ↦
                ground
                  (arith, f, e, above, r.edges k a b, trans (d (parent_index p)) (d p) (d k) above)
          ]

      swapped : Rising (swap d i p) n p
      swapped = record { edges = swapped_edge; skip = swapped_skip }

    pub heapify_up-IsHeap :
        (fuel i : ℕ) (d : ℕ → T) (n : ℕ)
        → i < fuel
        → i < n
        → Rising d n i
        → IsHeap (heapify_up fuel test i d) n
    unfolding heapify_up
    heapify_up-IsHeap zero i d n f b r = absurd (omega (arith, f))
    heapify_up-IsHeap (suc fuel) i d n f b r = elim (Bool-cases (i == 0)) [
      | inl e ↦ rw e (λ k a c. r.edges k a c (ground (arith, e, a)))
      | inr e ↦ elim (Bool-cases (test (d (parent_index i)) (d i))) [
        | inl t ↦
            rw (e, t)
              (λ k a c. elim (Bool-cases (k == i)) [
                | inl q ↦ rw ((==_iff k i).0 q) (stop (d (parent_index i)) (d i) t)
                | inr q ↦ r.edges k a c (ground (arith, q))
              ])
        | inr t ↦
            let pos : 0 < i = ground (arith, e) in
            rw (e, t)
              (heapify_up-IsHeap fuel (parent_index i) (swap d i (parent_index i)) n
                (omega (arith, f, pos)) (omega (arith, b))
                (swapped d n i b pos r (go (d (parent_index i)) (d i) t)))
      ]
    ]
