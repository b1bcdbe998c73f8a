-- ===== src/Base/Bytes.antt =====
-- Little-endian words and byte strings in a memory of bytes.
use Prim.Native.Nat.{ℕ, zero, suc, ◌+◌, ◌*◌, ◌/◌, ◌%◌, ◌^◌, ◌≤◌, ◌<◌}
use mathlib.Core.Path.{◌≡◌, refl, ◌∙◌, ap₂}
use mathlib.Core.Logic.{◌⊎◌, inl, inr}
use mathlib.Core.List.{List, [], ◌∷◌}
use native.Mathlib.Omega.{arith}
use native.Mathlib.Nat.{pow-suc}
use yamal.Base.Tests.{if◌then◌else◌, ◌==◌}
use yamal.Base.Lists.{length}

abbrev pub write : (ℕ → ℕ) → ℕ → ℕ → ℕ → ℕ
write m a v b = if a == b then v else m b

-- The `n` low bytes of `v`, from the address `a` on.
pub store_le : ℕ → ℕ → ℕ → (ℕ → ℕ) → ℕ → ℕ
store_le zero a v m = m
store_le (suc n) a v m = store_le n (a + 1) (v / 256) (write m a (v % 256))

unfoldable pub load_le : ℕ → (ℕ → ℕ) → ℕ → ℕ
load_le zero m a = 0
load_le (suc n) m a = m a + 256 * load_le n m (a + 1)

-- `memcpy`.
pub store_bytes : ℕ → List ℕ → (ℕ → ℕ) → ℕ → ℕ
store_bytes a [] m = m
store_bytes a (x ∷ xs) m = store_bytes (a + 1) xs (write m a x)

unfoldable pub load_bytes : ℕ → (ℕ → ℕ) → ℕ → List ℕ
load_bytes zero m a = []
load_bytes (suc n) m a = m a ∷ load_bytes n m (a + 1)

-- An address before a range of `n` bytes, or behind it.
abbrev pub Outside : ℕ → ℕ → ℕ → Type 0
Outside b a n = (b < a) ⊎ (a + n ≤ b)

pub store_le-Outside : (n a v : ℕ) (m : ℕ → ℕ) (b : ℕ) → Outside b a n → store_le n a v m b ≡ m b
unfolding store_le
store_le-Outside zero a v m b h = refl
store_le-Outside (suc n) a v m b h =
    ground (arith, store_le-Outside n (a + 1) (v / 256) (write m a (v % 256)) b)

pub store_bytes-Outside :
    (a : ℕ) (xs : List ℕ) (m : ℕ → ℕ) (b : ℕ) → Outside b a (length xs) → store_bytes a xs m b ≡ m b
unfolding store_bytes
store_bytes-Outside a [] m b h = refl
store_bytes-Outside a (x ∷ xs) m b h =
    ground (arith, store_bytes-Outside (a + 1) xs (write m a x) b)

-- A load reads only its own bytes.
pub load_le_same :
    (n : ℕ) (m m' : ℕ → ℕ) (a : ℕ)
    → ((b : ℕ) → a ≤ b → b < a + n → m' b ≡ m b)
    → load_le n m' a ≡ load_le n m a
unfolding load_le
load_le_same zero m m' a h = refl
load_le_same (suc n) m m' a h =
    ap₂ (λ (x y : ℕ). x + 256 * y) (h a (omega arith) (omega arith))
      (load_le_same n m m' (a + 1) (λ b p q. h b (omega arith) (omega arith)))

pub load_bytes_same :
    (n : ℕ) (m m' : ℕ → ℕ) (a : ℕ)
    → ((b : ℕ) → a ≤ b → b < a + n → m' b ≡ m b)
    → load_bytes n m' a ≡ load_bytes n m a
unfolding load_bytes
load_bytes_same zero m m' a h = refl
load_bytes_same (suc n) m m' a h =
    ap₂ ◌∷◌ (h a (omega arith) (omega arith))
      (load_bytes_same n m m' (a + 1) (λ b p q. h b (omega arith) (omega arith)))

-- What was stored is loaded.
pub load_le-store_le : (n a v : ℕ) (m : ℕ → ℕ) → v < 256 ^ n → load_le n (store_le n a v m) a ≡ v
unfolding load_le store_le
load_le-store_le zero a v m h = omega arith
load_le-store_le (suc n) a v m h =
    let p : 256 ^ suc n ≡ 256 ^ n * 256 = pow-suc 256 n in
    let first : store_le n (a + 1) (v / 256) (write m a (v % 256)) a ≡ v % 256 =
      store_le-Outside n (a + 1) (v / 256) (write m a (v % 256)) a (inl (omega arith))
      ∙ (ground arith) in
    omega (arith, first, load_le-store_le n (a + 1) (v / 256) (write m a (v % 256)))

pub load_bytes-store_bytes :
    (a : ℕ) (xs : List ℕ) (m : ℕ → ℕ) → load_bytes (length xs) (store_bytes a xs m) a ≡ xs
unfolding load_bytes store_bytes
load_bytes-store_bytes a [] m = refl
load_bytes-store_bytes a (x ∷ xs) m =
    ap₂ ◌∷◌ (store_bytes-Outside (a + 1) xs (write m a x) a (inl (omega arith)) ∙ (ground arith))
      (load_bytes-store_bytes (a + 1) xs (write m a x))

-- A range of `n` bytes at `a` and one of `k` bytes at `c` have no byte in common.
abbrev pub Clear : ℕ → ℕ → ℕ → ℕ → Type 0
Clear a n c k = (a + n ≤ c) ⊎ (c + k ≤ a)

Clear-Outside : (a n c k b : ℕ) → Clear a n c k → a ≤ b → b < a + n → Outside b c k
Clear-Outside a n c k b (inl h) p q = inl (omega arith)
Clear-Outside a n c k b (inr h) p q = inr (omega arith)

module _ (n a k c : ℕ) (m : ℕ → ℕ) where
  pub load_le-store_le-Clear :
      (v : ℕ) → Clear a n c k → load_le n (store_le k c v m) a ≡ load_le n m a
  load_le-store_le-Clear v h =
      load_le_same n m _ a λ b p q. store_le-Outside k c v m b (Clear-Outside a n c k b h p q)

  pub load_bytes-store_le-Clear :
      (v : ℕ) → Clear a n c k → load_bytes n (store_le k c v m) a ≡ load_bytes n m a
  load_bytes-store_le-Clear v h =
      load_bytes_same n m _ a λ b p q. store_le-Outside k c v m b (Clear-Outside a n c k b h p q)

module _ (n a c : ℕ) (xs : List ℕ) (m : ℕ → ℕ) where
  pub load_le-store_bytes-Clear :
      Clear a n c (length xs) → load_le n (store_bytes c xs m) a ≡ load_le n m a
  load_le-store_bytes-Clear h =
      load_le_same n m _ a
        λ b p q. store_bytes-Outside c xs m b (Clear-Outside a n c (length xs) b h p q)

  pub load_bytes-store_bytes-Clear :
      Clear a n c (length xs) → load_bytes n (store_bytes c xs m) a ≡ load_bytes n m a
  load_bytes-store_bytes-Clear h =
      load_bytes_same n m _ a
        λ b p q. store_bytes-Outside c xs m b (Clear-Outside a n c (length xs) b h p q)

-- A word of cleared bytes is 0.
pub load_le_zero :
    (n a : ℕ) (m : ℕ → ℕ) → ((b : ℕ) → a ≤ b → b < a + n → m b ≡ 0) → load_le n m a ≡ 0
unfolding load_le
load_le_zero zero a m h = refl
load_le_zero (suc n) a m h = omega (
  arith,
  h a (omega arith) (omega arith),
  load_le_zero n (a + 1) m (λ b p q. h b (omega arith) (omega arith)),
)
