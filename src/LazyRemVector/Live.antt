-- ===== src/LazyRemVector/Live.antt =====
-- Which values a vector calls, after `push_unique`, and which a walk over all items meets.
use yamal.Base.{
  Bool, Bool-cases, List, Option-cases, [], ap, arith, false, inl, inr, not, refl, some, sym, true,
  ◌&&◌, ◌++◌, ◌==◌, ◌||◌, ◌∷◌, ◌≡◌,
}
use yamal.Cursor.Array.{hit}
use yamal.LazyRemVector.{
  EqTest, Item, LazyRemVector, emplace_back, erase_if, erase_items, find_item, mark, push_unique,
  revive,
}
use yamal.Yamal.Pages.{locked}

module _ {ℓ} {T : Type ℓ} ⦃e : EqTest T⦄ where
  -- A value that stands in the vector and is not marked as removed.
  unfoldable pub is_live : T → List (Item T) → Bool
  is_live x [] = false
  is_live x (i ∷ is) = (e.beq x i.value && not i.removed) || is_live x is

  -- A value that stands in the vector, marked or not.
  unfoldable pub occurs : T → List (Item T) → Bool
  occurs x [] = false
  occurs x (i ∷ is) = e.beq x i.value || occurs x is

  is_live-append :
      (x c : T) (is : List (Item T))
      → is_live x (is ++ record { value = c; removed = false } ∷ []) ≡ (is_live x is || e.beq x c)
  unfolding is_live
  is_live-append x c [] = ground arith
  is_live-append x c (i ∷ is) = ground (arith, is_live-append x c is)

  pub occurs-append :
      (x c : T) (is : List (Item T))
      → occurs x (is ++ record { value = c; removed = false } ∷ []) ≡ (occurs x is || e.beq x c)
  unfolding occurs
  occurs-append x c [] = ground arith
  occurs-append x c (i ∷ is) = ground (arith, occurs-append x c is)

  is_live-revive :
      (x c : T) (is : List (Item T)) (i : Item T)
      → find_item c is ≡ some i
      → is_live x (revive c is) ≡ (is_live x is || e.beq x c)
  unfolding is_live find_item revive
  is_live-revive x c [] i h = cc
  is_live-revive x c (j ∷ is) i h = elim (Bool-cases (e.beq c j.value)) [
    | inl hit ↦ let same = (e.beq_iff c j.value).0 hit in ground (arith, hit, same)
    | inr miss ↦ ground (arith, miss, is_live-revive x c is i)
  ]

  pub is_live-push_unique :
      (x c : T) (v : LazyRemVector T)
      → is_live x (push_unique c v).items ≡ (is_live x v.items || e.beq x c)
  unfolding push_unique emplace_back
  is_live-push_unique x c v = elim (Option-cases (find_item c v.items)) [
    | inl fresh ↦ rw (fresh, push_unique) (is_live-append x c v.items)
    | inr (i, there) ↦ rw (there, push_unique) (is_live-revive x c v.items i there)
  ]

  -- An item is kept by the test of its value.
  same_test : (x : T) (f : T → Bool) (i : Item T) → e.beq x i.value ≡ true → f i.value ≡ f x
  same_test x f i b = ap f (sym ((e.beq_iff x i.value).0 b))

  is_live-erase_items :
      (x : T) (f : T → Bool) (is : List (Item T))
      → is_live x (erase_items (λ i. f i.value) is) ≡ (is_live x is && not (f x))
  unfolding is_live erase_items
  is_live-erase_items x f [] = refl
  is_live-erase_items x f (i ∷ is) = ground (arith, same_test x f i, is_live-erase_items x f is)

  is_live-mark :
      (x : T) (f : T → Bool) (is : List (Item T))
      → is_live x (mark f is) ≡ (is_live x is && not (f x))
  unfolding is_live mark
  is_live-mark x f [] = refl
  is_live-mark x f (i ∷ is) = ground (arith, same_test x f i, is_live-mark x f is)

  -- A removal takes away the values that the test holds of, whether the vector is locked or not.
  pub is_live-erase_if :
      (x : T) (f : T → Bool) (v : LazyRemVector T)
      → is_live x (erase_if f v).items ≡ (is_live x v.items && not (f x))
  unfolding erase_if
  is_live-erase_if x f v = elim (Bool-cases (v.lock_count == 0)) [
    | inl free ↦ rw (free, erase_if) (is_live-erase_items x f v.items)
    | inr locked ↦ rw (locked, erase_if) (is_live-mark x f v.items)
  ]
