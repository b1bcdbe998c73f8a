-- ===== src/Control/Table.antt =====
-- std::unordered_map and std::map as src/ytp/control.cpp uses them: a list of keys and values in the
-- order of insertion, in which a key is stored once.
use yamal.Base.{Bool, List, Option, [], false, if◌then◌else◌, none, some, true, ◌++◌, ◌∷◌}
use yamal.LazyRemVector.{EqTest}

module _ {K V : Type 0} ⦃e : EqTest K⦄ where
  unfoldable pub find : K → List (K × V) → Option V
  find k [] = none
  find k ((j, v) ∷ m) = if e.beq j k then some v else find k m

  -- What the key has, and whether that is new.
  unfoldable pub emplace : K → V → List (K × V) → V × Bool × List (K × V)
  unfolding find
  emplace k v m = elim (find k m) [
    | none ↦ (v, true, m ++ (k, v) ∷ [])
    | some old ↦ (old, false, m)
  ]

  -- `m[k] = v`.
  unfoldable pub assign : K → V → List (K × V) → List (K × V)
  assign k v [] = (k, v) ∷ []
  assign k v ((j, u) ∷ m) = if e.beq j k then (j, v) ∷ m else (j, u) ∷ assign k v m
