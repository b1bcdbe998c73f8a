-- ===== src/Tests/VectorTests.antt =====
-- The theorems on the vector of callbacks, with numbers for callbacks.
use yamal.Base.{Bool, [], arith, false, refl, true, ℕ, ◌==◌, ◌∷◌, ◌≡◌}
use yamal.LazyRemVector.{EqTest, Item, LazyRemVector, erase_if}
use yamal.LazyRemVector.Laws.{IsValid, erase_if_lem, live}

instance ℕ_EqTest : EqTest ℕ
ℕ_EqTest = record { beq = λ a b. a == b; beq_iff = λ a b. ground arith }

abbrev item : ℕ → Bool → Item ℕ
item x removed = record { value = x; removed = removed }

-- A vector under one lock, with one marked item.
abbrev held_vector : LazyRemVector ℕ
held_vector = record {
  items = item 1 false ∷ item 2 true ∷ item 3 false ∷ [];
  lock_count = 1;
  removed_count = 1;
}

held_vector-IsValid : IsValid held_vector
held_vector-IsValid = record {
  counted = refl;
  unlocked = λ h. absurd (omega arith);
  bounded = omega arith;
  locks = omega arith;
}

abbrev is_three : ℕ → Bool
is_three x = x == 3

erase_if_lem_example :
    (live (erase_if is_three held_vector) ≡ 1 ∷ []) × IsValid (erase_if is_three held_vector)
erase_if_lem_example = erase_if_lem is_three held_vector held_vector-IsValid
