-- ===== src/Timeline/Match.antt =====
-- prfx_for_each finds the names that start with a prefix.
use yamal.Base.{
  Bool, Bool-cases, List, [], ap, arith, false, inl, inr, refl, subst, sym, true, ℕ, ◌&&◌, ◌||◌,
  ◌∙◌, ◌∷◌, ◌≡◌,
}
use yamal.Control.Registry.{Name}
use yamal.Streams.State.{bytes_equal}
use yamal.Streams.State.Laws.{bytes_equal-≡}
use yamal.Timeline.Order.{le_trans, less_asym, less_irrefl, less_trans, starts-between, starts-less}
use yamal.Timeline.Prefix.{in_order, insert_name, less, lower_bound, starts, while_starts}

unfoldable pub has : Name → List (Name × ℕ) → Bool
has n [] = false
has n ((k, v) ∷ m) = bytes_equal k n || has n m

-- No name is less than `k`; the names are in order.
abbrev pub Above : Name → List (Name × ℕ) → Type 0
Above k [] = Unit {0}
Above k ((j, u) ∷ m) = (less j k ≡ false) × Above k m

abbrev pub Ordered : List (Name × ℕ) → Type 0
Ordered [] = Unit {0}
Ordered ((k, v) ∷ m) = Above k m × Ordered m

Above-le : (p k : Name) (m : List (Name × ℕ)) → less k p ≡ false → Above k m → Above p m
Above-le p k [] h a = tt
Above-le p k ((j, u) ∷ m) h a = (le_trans p k j h a.0, Above-le p k m h a.1)

Above-less : (k j : Name) (m : List (Name × ℕ)) → less k j ≡ true → Above j m → Above k m
Above-less k j [] h a = tt
Above-less k j ((i, u) ∷ m) h a = (less_trans k j i h a.0, Above-less k j m h a.1)

Above-insert :
    (j k : Name) (v : ℕ) (m : List (Name × ℕ))
    → less k j ≡ false
    → Above j m
    → Above j (insert_name k v m)
unfolding insert_name
Above-insert j k v [] h a = (h, tt)
Above-insert j k v ((i, u) ∷ m) h a = elim (Bool-cases (less k i)) [
  | inl b ↦ rw b (h, a)
  | inr b ↦ rw b (a.0, Above-insert j k v m h a.1)
]

Ordered-insert : (k : Name) (v : ℕ) (m : List (Name × ℕ)) → Ordered m → Ordered (insert_name k v m)
unfolding insert_name
Ordered-insert k v [] o = (tt, tt)
Ordered-insert k v ((j, u) ∷ m) o = elim (Bool-cases (less k j)) [
  | inl b ↦ rw b ((less_asym k j b, Above-less k j m b o.0), o)
  | inr b ↦ rw b (Above-insert j k v m b o.0, Ordered-insert k v m o.1)
]

pub in_order-Ordered : (m : List (Name × ℕ)) → Ordered (in_order m)
unfolding in_order
in_order-Ordered [] = tt
in_order-Ordered ((k, v) ∷ m) = Ordered-insert k v (in_order m) (in_order-Ordered m)

has-insert :
    (n k : Name) (v : ℕ) (m : List (Name × ℕ))
    → has n (insert_name k v m) ≡ (bytes_equal k n || has n m)
unfolding has insert_name
has-insert n k v [] = refl
has-insert n k v ((j, u) ∷ m) = elim (Bool-cases (less k j)) [
  | inl b ↦ rw b refl
  | inr b ↦ rw b (ground (arith, has-insert n k v m))
]

pub has-in_order : (n : Name) (m : List (Name × ℕ)) → has n (in_order m) ≡ has n m
unfolding has in_order
has-in_order n [] = refl
has-in_order n ((k, v) ∷ m) =
    has-insert n k v (in_order m) ∙ ap (λ b. bytes_equal k n || b) (has-in_order n m)

-- Behind a name that is not less than the prefix and does not start with it, no name starts with it.
none_starts :
    (p k n : Name) (m : List (Name × ℕ))
    → less k p ≡ false
    → starts p k ≡ false
    → Above k m
    → (has n m && starts p n) ≡ false
unfolding has
none_starts p k n [] h s a = refl
none_starts p k n ((j, u) ∷ m) h s a =
    let rest = none_starts p k n m h s a.1 in
    elim (Bool-cases (bytes_equal j n)) [
      | inl b ↦
          let same = bytes_equal-≡ j n b in
          elim (Bool-cases (starts p n)) [
            | inl t ↦
                let above : less n k ≡ false = subst (λ x. less x k ≡ false) same a.0 in
                absurd (ground (arith, s, starts-between p k n h above t))
            | inr t ↦ ground (arith, t)
          ]
      | inr b ↦ ground (arith, b, rest)
    ]

has-while_starts :
    (p n : Name) (m : List (Name × ℕ))
    → Above p m
    → Ordered m
    → has n (while_starts p m) ≡ (has n m && starts p n)
unfolding has while_starts
has-while_starts p n [] a o = refl
has-while_starts p n ((k, v) ∷ m) a o = elim (Bool-cases (starts p k)) [
  | inl s ↦
      let rest = has-while_starts p n m a.1 o.1 in
      elim (Bool-cases (bytes_equal k n)) [
        | inl b ↦
            let t : starts p n ≡ true = subst (λ x. starts p x ≡ true) (bytes_equal-≡ k n b) s in
            ground (arith, s, b, t)
        | inr b ↦ ground (arith, s, b, rest)
      ]
  | inr s ↦
      let t : (has n ((k, v) ∷ m) && starts p n) ≡ false =
        none_starts p k n ((k, v) ∷ m) a.0 s (less_irrefl k, o.0) in
      rw s (sym t)
]

-- The walk from the lower bound on finds the names of the map that start with the prefix.
pub has-lower_bound :
    (p n : Name) (m : List (Name × ℕ))
    → Ordered m
    → has n (while_starts p (lower_bound p m)) ≡ (has n m && starts p n)
unfolding has lower_bound
has-lower_bound p n [] o = has-while_starts p n [] tt tt
has-lower_bound p n ((k, v) ∷ m) o = elim (Bool-cases (less k p)) [
  | inl b ↦
      let rest = has-lower_bound p n m o.1 in
      elim (Bool-cases (starts p n)) [
        | inl t ↦ elim (Bool-cases (bytes_equal k n)) [
          | inl e ↦
              let low : less n p ≡ true = subst (λ x. less x p ≡ true) (bytes_equal-≡ k n e) b in
              absurd (ground (arith, low, starts-less p n t))
          | inr e ↦ rw (b, e) rest
        ]
        | inr t ↦ rw b (ground (arith, t, rest))
      ]
  | inr b ↦ rw b (has-while_starts p n ((k, v) ∷ m) (b, Above-le p k m b o.0) o)
]
