-- ===== src/LazyRemVector.antt =====
-- include/fmc++/lazy_rem_vector.hpp: a vector of callbacks that may be changed while it is walked.
-- While it is locked, what is removed is only marked.
pub mod Laws
pub mod Unique
pub mod Live
use yamal.Base.{
  Bool, List, Option, [], false, get_elem?, if◌then◌else◌, length, ltb, none, not, some, suc, true,
  zero, ℕ, ◌%◌, ◌&&◌, ◌++◌, ◌+◌, ◌-◌, ◌==◌, ◌↔◌, ◌∷◌, ◌≡◌,
}
use yamal.Yamal.State.{word}

-- The test `==` of the values.
pub record EqTest {ℓ} (T : Type ℓ) : Type ℓ where
  pub beq : T → T → Bool
  pub beq_iff : (a b : T) → (beq a b ≡ true) ↔ (a ≡ b)

-- A value, and whether it is marked as removed.
pub record Item {ℓ} (T : Type ℓ) : Type ℓ where
  pub value : T
  pub removed : Bool

pub record LazyRemVector {ℓ} (T : Type ℓ) : Type ℓ where
  pub items : List (Item T)
  pub lock_count : ℕ
  pub removed_count : ℕ

-- `size_t` decrement.
abbrev pub dec64 : ℕ → ℕ
dec64 n = (n + word - 1) % word

-- The marks that a walk sets on the values that `f` holds of, and how many were not set before.
pub mark {ℓ} : {T : Type ℓ} → (T → Bool) → List (Item T) → List (Item T)
mark f [] = []
mark f (i ∷ is) = (if f i.value then record i { removed = true } else i) ∷ mark f is

pub newly {ℓ} : {T : Type ℓ} → (T → Bool) → List (Item T) → ℕ
newly f [] = 0
newly f (i ∷ is) = (if f i.value && not i.removed then 1 else 0) + newly f is

-- `erase(remove_if(...), end())`.
pub erase_items {ℓ} : {T : Type ℓ} → (Item T → Bool) → List (Item T) → List (Item T)
erase_items f [] = []
erase_items f (i ∷ is) = if f i then erase_items f is else i ∷ erase_items f is

module _ {ℓ} {T : Type ℓ} where
  unfoldable pub new : LazyRemVector T
  new = record { items = []; lock_count = 0; removed_count = 0 }

  unfoldable pub emplace_back : T → LazyRemVector T → LazyRemVector T
  emplace_back x v = record v { items = v.items ++ record { value = x; removed = false } ∷ [] }

  unfoldable pub erase_if : (T → Bool) → LazyRemVector T → LazyRemVector T
  unfolding mark newly erase_items
  erase_if f v =
      if v.lock_count == 0
      then record v { items = erase_items (λ i. f i.value) v.items }
      else record v {
        items = mark f v.items;
        removed_count = (v.removed_count + newly f v.items) % word;
      }

  pub clear : LazyRemVector T → LazyRemVector T
  unfolding mark newly
  clear v = if v.lock_count == 0 then record v { items = [] } else record v {
    items = mark (λ x. true) v.items;
    removed_count = (v.removed_count + newly (λ x. true) v.items) % word;
  }

  pub lock : LazyRemVector T → LazyRemVector T
  lock v = record v { lock_count = (v.lock_count + 1) % word }

  pub release : LazyRemVector T → LazyRemVector T
  unfolding erase_items
  release v =
      let n = dec64 v.lock_count in
      if n == 0 && ltb 0 v.removed_count
      then record {
        items = erase_items (λ i. i.removed) v.items;
        lock_count = n;
        removed_count = 0;
      }
      else record v { lock_count = n }

  pub size : LazyRemVector T → ℕ
  size v = length v.items

  pub empty : LazyRemVector T → Bool
  empty v = size v == 0

module _ {ℓ} {T : Type ℓ} ⦃e : EqTest T⦄ where
  -- The walk of `push_unique`: the first item with the value is found, and its mark is taken away.
  pub find_item : T → List (Item T) → Option (Item T)
  find_item x [] = none
  find_item x (i ∷ is) = if e.beq x i.value then some i else find_item x is

  pub revive : T → List (Item T) → List (Item T)
  revive x [] = []
  revive x (i ∷ is) = if e.beq x i.value then record i { removed = false } ∷ is else i ∷ revive x is

  unfoldable pub push_unique : T → LazyRemVector T → LazyRemVector T
  unfolding find_item revive emplace_back
  push_unique x v = elim (find_item x v.items) [
    | none ↦ emplace_back x v
    | some i ↦ record v {
      items = revive x v.items;
      removed_count = if i.removed then dec64 v.removed_count else v.removed_count;
    }
  ]

-- A round of callbacks, as in ytp_timeline_poll_idle: each value that is not marked when the walk
-- reaches it is called, and may change the vector. `n` bounds the rounds.
pub deliver {ℓ} :
    {T : Type ℓ}
    → ℕ
    → ℕ
    → (T → LazyRemVector T → LazyRemVector T)
    → LazyRemVector T
    → List T × LazyRemVector T
deliver zero pos call v = ([], v)
deliver (suc n) pos call v = elim (get_elem? v.items pos) [
  | none ↦ ([], v)
  | some i ↦
      if i.removed
      then deliver n (pos + 1) call v
      else (let (called, v') = deliver n (pos + 1) call (call i.value v) in (i.value ∷ called, v'))
]
