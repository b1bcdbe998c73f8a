-- ===== src/LazyRemVector/Unique.antt =====
-- `push_unique`, and what a lock keeps in place.
use yamal.Base.{
  Bool, Bool-cases, List, Option-cases, [], arith, false, if◌then◌else◌, inl, inr, length,
  length-append, map, map-append, refl, some, sym, true, ◌++◌, ◌+◌, ◌<◌, ◌||◌, ◌∙◌, ◌∷◌, ◌≡◌, ◌⊎◌,
}
use yamal.LazyRemVector.{
  EqTest, Item, LazyRemVector, clear, erase_if, find_item, mark, push_unique, revive,
}
use yamal.LazyRemVector.Laws.{
  IsValid, live, live-append, live_items, marked, marked-append, marked-le,
}
use yamal.Yamal.State.{word}

abbrev pub contains {ℓ} : {T : Type ℓ} ⦃e : EqTest T⦄ → T → List T → Bool
contains y [] = false
contains ⦃e⦄ y (x ∷ xs) = e.beq y x || contains y xs

module _ {ℓ} {T : Type ℓ} where
  -- The values by their positions, marked or not.
  abbrev pub values : LazyRemVector T → List T
  values v = map (λ i. i.value) v.items

  mark-values :
      (f : T → Bool) (is : List (Item T)) → map (λ i. i.value) (mark f is) ≡ map (λ i. i.value) is
  unfolding mark
  mark-values f [] = refl
  mark-values f (i ∷ is) = ground (arith, mark-values f is)

module _ {ℓ} {T : Type ℓ} ⦃e : EqTest T⦄ where
  beq_same : (a b : T) → e.beq a b ≡ true → a ≡ b
  beq_same a b h = (e.beq_iff a b).0 h

  contains-append :
      (y x : T) (xs : List T) → contains y (xs ++ x ∷ []) ≡ (e.beq y x || contains y xs)
  contains-append y x [] = ground arith
  contains-append y x (z ∷ xs) = ground (arith, contains-append y x xs)

  revive_lem :
      (x y : T) (is : List (Item T)) (i : Item T)
      → find_item x is ≡ some i
      → (contains y (live_items (revive x is)) ≡ (e.beq y x || contains y (live_items is)))
        × (marked (revive x is) + (if i.removed then 1 else 0) ≡ marked is)
  unfolding find_item revive
  revive_lem x y [] i h = cc
  revive_lem x y (j ∷ is) i h = elim (Bool-cases (e.beq x j.value)) [
    | inl hit ↦
        let same = beq_same x j.value hit in
        let found : j ≡ i = ground arith in ground (arith, found)
    | inr miss ↦ ground (arith, revive_lem x y is i)
  ]

  length-revive : (x : T) (is : List (Item T)) → length (revive x is) ≡ length is
  unfolding revive
  length-revive x [] = refl
  length-revive x (i ∷ is) = ground (arith, length-revive x is)

  revive-values :
      (x : T) (is : List (Item T)) → map (λ i. i.value) (revive x is) ≡ map (λ i. i.value) is
  unfolding revive
  revive-values x [] = refl
  revive-values x (i ∷ is) = ground (arith, revive-values x is)

  -- On a valid vector with room for one more item, after push_unique exactly the given value and
  -- those that were live are live, and the vector is valid.
  pub push_unique_lem :
      (x y : T) (v : LazyRemVector T)
      → IsValid v
      → length v.items + 1 < word
      → (contains y (live (push_unique x v)) ≡ (e.beq y x || contains y (live v)))
        × IsValid (push_unique x v)
  unfolding push_unique
  push_unique_lem x y v h w = elim (Option-cases (find_item x v.items)) [
    | inl new_value ↦
        rw (new_value, push_unique)
          (
            rw (live-append v.items x) (contains-append y x (live v)),
            record {
              counted = h.counted ∙ sym (marked-append v.items x);
              unlocked = λ z. marked-append v.items x ∙ h.unlocked z;
              bounded =
                  omega
                    (arith, length-append v.items (record { value = x; removed = false } ∷ []), w);
              locks = h.locks;
            },
          )
    | inr (i, found) ↦
        let (same, fewer) = revive_lem x y v.items i found in
        rw (found, push_unique)
          (
            same,
            record {
              counted = ground (arith, marked-le v.items, h.bounded);
              unlocked = λ z. omega (arith, fewer, h.unlocked z);
              bounded = omega (arith, length-revive x v.items, h.bounded);
              locks = h.locks;
            },
          )
  ]

-- Under a lock, erase_if and clear leave every item at its position, and push_unique does so too
-- or adds the value at the end.
pub locked-values {ℓ} :
    {T : Type ℓ} ⦃e : EqTest T⦄ (f : T → Bool) (x : T) (v : LazyRemVector T)
    → 0 < v.lock_count
    → (values (erase_if f v) ≡ values v)
      × (values (clear v) ≡ values v)
      × ((values (push_unique x v) ≡ values v) ⊎ (values (push_unique x v) ≡ values v ++ x ∷ []))
unfolding erase_if clear push_unique
locked-values f x v h = (
  ground (arith, mark-values f v.items),
  ground (arith, mark-values (λ z. true) v.items),
  elim (Option-cases (find_item x v.items)) [
    | inl new_value ↦ inr (rw (new_value, push_unique) (map-append _ v.items _))
    | inr (i, found) ↦ inl (rw (found, push_unique) (revive-values x v.items))
  ],
)
