-- ===== src/LazyRemVector/Laws.antt =====
-- The live values of a vector, and the counts of its marks.
use yamal.Base.{
  Bool, Bool-cases, List, [], ap, arith, false, if◌then◌else◌, inl, inr, length, ltb, refl, suc,
  sym, true, ℕ, ◌&&◌, ◌++◌, ◌+◌, ◌<◌, ◌==◌, ◌∙◌, ◌∷◌, ◌≡◌, ◌≤◌,
}
use yamal.LazyRemVector.{
  Item, LazyRemVector, clear, dec64, erase_if, erase_items, mark, newly, release,
}
use yamal.Yamal.State.{word}

module _ {ℓ} {T : Type ℓ} where
  -- The values that are not marked.
  abbrev pub live_items : List (Item T) → List T
  live_items [] = []
  live_items (i ∷ is) = if i.removed then live_items is else i.value ∷ live_items is

  abbrev pub live : LazyRemVector T → List T
  live v = live_items v.items

  abbrev pub keep : (T → Bool) → List T → List T
  keep f [] = []
  keep f (x ∷ xs) = if f x then keep f xs else x ∷ keep f xs

  abbrev pub marked : List (Item T) → ℕ
  marked [] = 0
  marked (i ∷ is) = (if i.removed then 1 else 0) + marked is

  -- `removed_count` counts the marks, and without a lock there are none.
  pub record IsValid (v : LazyRemVector T) : Type ℓ where
    pub counted : v.removed_count ≡ marked v.items
    pub unlocked : v.lock_count ≡ 0 → marked v.items ≡ 0
    pub bounded : length v.items < word
    pub locks : v.lock_count < word

  pub marked-le : (is : List (Item T)) → marked is ≤ length is
  marked-le [] = omega arith
  marked-le (i ∷ is) = ground (arith, marked-le is)

  mark-live : (f : T → Bool) (is : List (Item T)) → live_items (mark f is) ≡ keep f (live_items is)
  unfolding mark
  mark-live f [] = refl
  mark-live f (i ∷ is) = ground (arith, mark-live f is)

  marked-mark : (f : T → Bool) (is : List (Item T)) → marked (mark f is) ≡ marked is + newly f is
  unfolding mark newly
  marked-mark f [] = omega arith
  marked-mark f (i ∷ is) = ground (arith, marked-mark f is)

  pub length-mark : (f : T → Bool) (is : List (Item T)) → length (mark f is) ≡ length is
  unfolding mark
  length-mark f [] = refl
  length-mark f (i ∷ is) = ap suc (length-mark f is)

  keep_all : (xs : List T) → keep (λ x. true) xs ≡ []
  keep_all [] = refl
  keep_all (x ∷ xs) = keep_all xs

  erase_items-live :
      (f : T → Bool) (is : List (Item T))
      → live_items (erase_items (λ i. f i.value) is) ≡ keep f (live_items is)
  unfolding erase_items
  erase_items-live f [] = refl
  erase_items-live f (i ∷ is) = ground (arith, erase_items-live f is)

  erase_items-le :
      (f : Item T → Bool) (is : List (Item T))
      → (marked (erase_items f is) ≤ marked is) × (length (erase_items f is) ≤ length is)
  unfolding erase_items
  erase_items-le f [] = omega arith
  erase_items-le f (i ∷ is) = ground (arith, erase_items-le f is)

  erase_marked :
      (is : List (Item T))
      → (live_items (erase_items (λ i. i.removed) is) ≡ live_items is)
        × (marked (erase_items (λ i. i.removed) is) ≡ 0)
  unfolding erase_items
  erase_marked [] = (refl, refl)
  erase_marked (i ∷ is) = ground (arith, erase_marked is)

  pub marked-append :
      (is : List (Item T)) (x : T)
      → marked (is ++ record { value = x; removed = false } ∷ []) ≡ marked is
  marked-append [] x = refl
  marked-append (i ∷ is) x = ground (arith, marked-append is x)

  pub live-append :
      (is : List (Item T)) (x : T)
      → live_items (is ++ record { value = x; removed = false } ∷ []) ≡ live_items is ++ x ∷ []
  live-append [] x = refl
  live-append (i ∷ is) x = ground (arith, live-append is x)

  -- On a valid vector, erase_if leaves the live values that the test does not hold of, in order,
  -- locked or not, and the vector valid.
  pub erase_if_lem :
      (f : T → Bool) (v : LazyRemVector T)
      → IsValid v
      → (live (erase_if f v) ≡ keep f (live v)) × IsValid (erase_if f v)
  unfolding erase_if
  erase_if_lem f v h = elim (Bool-cases (v.lock_count == 0)) [
    | inl free ↦
        let (fewer, shorter) = erase_items-le (λ i. f i.value) v.items in
        rw free (
          erase_items-live f v.items,
          record {
            counted = ground (arith, h.unlocked);
            unlocked = λ z. omega (arith, h.unlocked z);
            bounded = omega (arith, h.bounded);
            locks = h.locks;
          },
        )
    | inr held ↦ rw held (
      mark-live f v.items,
      record {
        counted = omega (
          arith,
          marked-mark f v.items,
          marked-le (mark f v.items),
          length-mark f v.items,
          h.counted,
          h.bounded,
        );
        unlocked = λ z. ground arith;
        bounded = omega (arith, length-mark f v.items, h.bounded);
        locks = h.locks;
      },
    )
  ]

  erase_items_all : (is : List (Item T)) → erase_items (λ i. true) is ≡ []
  unfolding erase_items
  erase_items_all [] = refl
  erase_items_all (i ∷ is) = erase_items_all is

  -- To clear is to erase everything.
  clear_lem' : (v : LazyRemVector T) → erase_if (λ x. true) v ≡ clear v
  unfolding clear erase_if
  clear_lem' v = ground (arith, erase_items_all v.items)

  -- On a valid vector, clear leaves no live value and the vector valid.
  pub clear_lem : (v : LazyRemVector T) → IsValid v → (live (clear v) ≡ []) × IsValid (clear v)
  unfolding clear
  clear_lem v h =
      let (emptied, valid) = erase_if_lem (λ x. true) v h in
      rw (← clear_lem' v) (emptied ∙ keep_all (live v), valid)

  -- On a valid vector with a lock, release changes no live value and leaves the vector valid.
  pub release_lem :
      (v : LazyRemVector T)
      → IsValid v
      → 0 < v.lock_count
      → (live (release v) ≡ live v) × IsValid (release v)
  unfolding release
  release_lem v h l =
      let (same, none_left) = erase_marked v.items in
      let (fewer, shorter) = erase_items-le (λ i. i.removed) v.items in
      elim (Bool-cases (dec64 v.lock_count == 0 && ltb 0 v.removed_count)) [
        | inl last ↦ rw last (
          same,
          record {
            counted = sym none_left;
            unlocked = λ z. none_left;
            bounded = omega (arith, shorter, h.bounded);
            locks = omega (arith, h.locks);
          },
        )
        | inr more ↦ rw more (
          refl,
          record {
            counted = h.counted;
            unlocked = λ z. ground (arith, h.counted, h.locks);
            bounded = h.bounded;
            locks = omega (arith, h.locks);
          },
        )
      ]
