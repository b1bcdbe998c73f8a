-- ===== src/Timeline/Order.antt =====
-- The order of names, and the walk over a map in that order.
use yamal.Base.{[], arith, false, refl, true, ◌∷◌, ◌≡◌}
use yamal.Control.Registry.{Name}
use yamal.Timeline.Prefix.{less, starts}

pub less_asym : (x y : Name) → less x y ≡ true → less y x ≡ false
unfolding less
less_asym [] [] h = absurd (ground (arith, h))
less_asym [] (y ∷ ys) h = refl
less_asym (x ∷ xs) [] h = absurd (ground (arith, h))
less_asym (x ∷ xs) (y ∷ ys) h = ground (arith, h, less_asym xs ys)

-- From x < y and y ≤ z to x ≤ z.
pub less_trans : (x y z : Name) → less x y ≡ true → less z y ≡ false → less z x ≡ false
unfolding less
less_trans [] [] z h k = absurd (ground (arith, h))
less_trans [] (y ∷ ys) [] h k = refl
less_trans [] (y ∷ ys) (z ∷ zs) h k = refl
less_trans (x ∷ xs) [] z h k = absurd (ground (arith, h))
less_trans (x ∷ xs) (y ∷ ys) [] h k = absurd (ground (arith, k))
less_trans (x ∷ xs) (y ∷ ys) (z ∷ zs) h k = ground (arith, h, k, less_trans xs ys zs)

pub starts-less : (p n : Name) → starts p n ≡ true → less n p ≡ false
unfolding less starts
starts-less [] [] h = refl
starts-less [] (x ∷ xs) h = refl
starts-less (p ∷ ps) [] h = absurd (ground (arith, h))
starts-less (p ∷ ps) (x ∷ xs) h = ground (arith, h, starts-less ps xs)

-- A name between a prefix and a name that starts with it starts with it.
pub starts-between :
    (p x y : Name) → less x p ≡ false → less y x ≡ false → starts p y ≡ true → starts p x ≡ true
unfolding less starts
starts-between [] x y h k s = refl
starts-between (p ∷ ps) [] y h k s = absurd (ground (arith, h))
starts-between (p ∷ ps) (x ∷ xs) [] h k s = absurd (ground (arith, s))
starts-between (p ∷ ps) (x ∷ xs) (y ∷ ys) h k s = ground (arith, h, k, s, starts-between ps xs ys)

pub less_irrefl : (x : Name) → less x x ≡ false
unfolding less
less_irrefl [] = refl
less_irrefl (x ∷ xs) = ground (arith, less_irrefl xs)

-- From x ≤ y and y ≤ z to x ≤ z.
pub le_trans : (x y z : Name) → less y x ≡ false → less z y ≡ false → less z x ≡ false
unfolding less
le_trans [] [] z h k = k
le_trans [] (y ∷ ys) [] h k = refl
le_trans [] (y ∷ ys) (z ∷ zs) h k = refl
le_trans (x ∷ xs) [] z h k = absurd (ground (arith, h))
le_trans (x ∷ xs) (y ∷ ys) [] h k = absurd (ground (arith, k))
le_trans (x ∷ xs) (y ∷ ys) (z ∷ zs) h k = ground (arith, h, k, le_trans xs ys zs)
