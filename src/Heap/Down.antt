-- ===== src/Heap/Down.antt =====
-- The way down restores the order of a heap in which one element may come after its children.
-- A test that orders strictly, elements that it does not tell apart being equal.
use yamal.Base.{
  ==_iff, Bool, Bool-cases, arith, false, inl, inr, leb, not, refl, suc, true, zero, ℕ, ◌*◌, ◌+◌,
  ◌-◌, ◌/◌, ◌<◌, ◌==◌, ◌≡◌, ◌≢◌, ◌≤◌, ◌⊎◌,
}
use yamal.Heap.{better, heapify_down, largest, parent_index, swap}
use yamal.Heap.Count.{largest_cases}
use yamal.Heap.Up.{IsHeap}

pub record IsOrder {T : Type 0} (cmp : T → T → Bool) : Type 0 where
  pub asym : (a b : T) → cmp a b ≡ true → cmp b a ≡ false
  pub trans : (a b c : T) → cmp b a ≡ false → cmp c b ≡ false → cmp c a ≡ false

-- The second element does not come before the first.
abbrev pub in_order : {T : Type 0} → (T → T → Bool) → T → T → Bool
in_order cmp p c = not (cmp c p)

module _ {T : Type 0} (cmp : T → T → Bool) (o : IsOrder cmp) where
  pub irrefl : (a : T) → cmp a a ≡ false
  irrefl a = elim (Bool-cases (cmp a a)) [ inl e ↦ o.asym a a e | inr e ↦ e ]

  module _ (d : ℕ → T) (n : ℕ) where
    -- What `better` chooses does not come after the two that it chooses from.
    better_lem :
        (child idx : ℕ)
        → (cmp (d (idx - 1)) (d (better cmp d n child idx - 1)) ≡ false)
          × (child ≤ n → cmp (d (child - 1)) (d (better cmp d n child idx - 1)) ≡ false)
    better_lem child idx = elim (Bool-cases (leb child n)) [
      | inl e ↦ elim (Bool-cases (cmp (d (child - 1)) (d (idx - 1)))) [
        | inl q ↦ rw (e, q) (o.asym (d (child - 1)) (d (idx - 1)) q, λ b. irrefl (d (child - 1)))
        | inr q ↦ rw (e, q) (irrefl (d (idx - 1)), λ b. q)
      ]
      | inr e ↦ rw e (irrefl (d (idx - 1)), λ b. absurd (ground (arith, e, b)))
    ]

    -- The chosen one does not come after the element or a child of it.
    best :
        (idx k : ℕ)
        → k ≤ n
        → (k ≡ idx) ⊎ (k / 2 ≡ idx)
        → cmp (d (k - 1)) (d (largest cmp d n idx - 1)) ≡ false
    unfolding largest
    best idx k b c =
        let l = better cmp d n (2 * idx) idx in
        let (left_idx, left_child) = better_lem (2 * idx) idx in
        let (right_l, right_child) = better_lem (2 * idx + 1) l in
        let g = better cmp d n (2 * idx + 1) l in
        let down = λ (j : ℕ) (h : cmp (d (j - 1)) (d (l - 1)) ≡ false).
          o.trans (d (g - 1)) (d (l - 1)) (d (j - 1)) right_l h in
        elim c [
          | inl q ↦ rw q (down idx left_idx)
          | inr q ↦ elim (Bool-cases (k == 2 * idx)) [
            | inl e ↦
                let q' = (==_iff k (2 * idx)).0 e in
                rw q' (down (2 * idx) (left_child (omega (arith, b, q'))))
            | inr e ↦
                let q' : k ≡ 2 * idx + 1 = ground (arith, e, q) in
                rw q' (right_child (omega (arith, b, q')))
          ]
        ]

  -- All is in order but the element at the position `i` and its children.
  pub record Sinking (d : ℕ → T) (n i : ℕ) : Type 0 where
    pub edges :
        (k : ℕ) → 0 < k → k < n → parent_index k ≢ i → cmp (d k) (d (parent_index k)) ≡ false
    pub skip :
        (k : ℕ)
        → 0 < k
        → k < n
        → parent_index k ≡ i
        → 0 < i
        → cmp (d k) (d (parent_index i)) ≡ false

  module _ (d : ℕ → T) (n i g : ℕ) (below : g < n) (child : parent_index g ≡ i) (pos : 0 < g)
      (r : Sinking d n i)
      (least : (k : ℕ) → 0 < k → k < n → parent_index k ≡ i → cmp (d k) (d g) ≡ false)
      (less : cmp (d i) (d g) ≡ false) where
    sunk_edge :
        (k : ℕ)
        → 0 < k
        → k < n
        → parent_index k ≢ g
        → cmp (swap d i g k) (swap d i g (parent_index k)) ≡ false
    sunk_edge k a b c = elim (Bool-cases (parent_index k == i)) [
      | inl e ↦
          let q = (==_iff (parent_index k) i).0 e in
          elim (Bool-cases (k == g)) [
            | inl f ↦ ground (arith, e, f, less, q, child)
            | inr f ↦ ground (arith, e, f, q, least k a b q)
          ]
      | inr e ↦ elim (Bool-cases (k == i)) [
        | inl f ↦
            let q = (==_iff k i).0 f in
            ground (arith, e, f, c, q, r.skip g pos below child (omega (arith, a, q)))
        | inr f ↦ ground (arith, e, f, c, child, r.edges k a b)
      ]
    ]

    sunk : Sinking (swap d i g) n g
    sunk = record {
      edges = sunk_edge;
      skip = λ k a b e z. ground (arith, e, child, a, z, r.edges k a b);
    }

  pub heapify_down-IsHeap :
      (fuel idx : ℕ) (d : ℕ → T) (n : ℕ)
      → 0 < idx
      → idx ≤ n
      → n < idx + fuel
      → Sinking d n (idx - 1)
      → IsHeap (in_order cmp) (heapify_down fuel cmp n idx d) n
  unfolding heapify_down
  heapify_down-IsHeap zero idx d n z b f r = absurd (omega (arith, b, f))
  heapify_down-IsHeap (suc fuel) idx d n z b f r =
      let g = largest cmp d n idx in
      let best' = λ (k : ℕ) (a : 0 < k) (c : k < n) (e : parent_index k ≡ idx - 1).
        best d n idx (k + 1) (omega (arith, c)) (inr (omega (arith, a, e, z))) in
      elim (Bool-cases (g == idx)) [
        | inl e ↦
            let q = (==_iff g idx).0 e in
            rw e (λ k a c. elim (Bool-cases (parent_index k == idx - 1)) [
              | inl h ↦
                  let h' = (==_iff (parent_index k) (idx - 1)).0 h in
                  ground (arith, h', q, best' k a c h')
              | inr h ↦ ground (arith, h, r.edges k a c)
            ])
        | inr e ↦ elim (largest_cases (λ x. true) cmp d n idx) [
          | inl q ↦ absurd (ground (arith, e, q))
          | inr (le, up, half) ↦
              let grows : idx < g = ground (arith, e, up) in
              rw e (
                heapify_down-IsHeap fuel g (swap d (idx - 1) (g - 1)) n (omega (arith, grows)) le
                  (omega (arith, grows, f))
                  (sunk d n (idx - 1) (g - 1) (omega (arith, le, grows))
                    (omega (arith, half, grows)) (omega (arith, grows, z)) r
                    (λ k a c h. ground (arith, a, best' k a c h)) (best d n idx idx b (inl refl))))
        ]
      ]
