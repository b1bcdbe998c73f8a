-- ===== src/Timeline/Prefix.antt =====
-- src/ytp/timeline.cpp: which names a prefix stands for, and which prefixes a name has.
use yamal.Base.{
  Bool, List, Option, [], false, if◌then◌else◌, length, ltb, none, not, some, suc, true, zero, ℕ,
  ◌&&◌, ◌==◌, ◌||◌, ◌∷◌,
}
use yamal.Control.Registry.{Name, name_test}
use yamal.Control.Table.{find}
use yamal.Streams.State.{bytes_equal}

-- The character that ends a prefix.
abbrev pub slash : ℕ
slash = 47

-- The order of std::string_view.
unfoldable pub less : Name → Name → Bool
less [] [] = false
less [] (y ∷ ys) = true
less (x ∷ xs) [] = false
less (x ∷ xs) (y ∷ ys) = ltb x y || (x == y && less xs ys)

-- A std::map is walked in the order of its keys.
unfoldable pub insert_name : Name → ℕ → List (Name × ℕ) → List (Name × ℕ)
unfolding less
insert_name k v [] = (k, v) ∷ []
insert_name k v ((j, u) ∷ m) =
    let rest = insert_name k v m in if less k j then (k, v) ∷ (j, u) ∷ m else (j, u) ∷ rest

unfoldable pub in_order : List (Name × ℕ) → List (Name × ℕ)
unfolding insert_name
in_order [] = []
in_order ((k, v) ∷ m) = insert_name k v (in_order m)

-- `substr(0, prfx.size()) == prfx`.
unfoldable pub starts : Name → Name → Bool
starts [] n = true
starts (p ∷ ps) [] = false
starts (p ∷ ps) (x ∷ xs) = p == x && starts ps xs

-- `*namestr.rbegin() == '/'`, of a name that is not empty.
unfoldable pub ends_slash : Name → Bool
ends_slash [] = false
ends_slash (x ∷ []) = x == slash
ends_slash (x ∷ y ∷ ys) = ends_slash (y ∷ ys)

-- The walk from `lower_bound(prfx)` on, as long as names start with the prefix.
unfoldable pub lower_bound : Name → List (Name × ℕ) → List (Name × ℕ)
unfolding less
lower_bound p [] = []
lower_bound p ((k, v) ∷ m) = let rest = lower_bound p m in if less k p then rest else (k, v) ∷ m

unfoldable pub while_starts : Name → List (Name × ℕ) → List (Name × ℕ)
unfolding starts
while_starts p [] = []
while_starts p ((k, v) ∷ m) =
    let rest = while_starts p m in if starts p k then (k, v) ∷ rest else []

-- The channels that prfx_for_each calls its function for, of those in the map.
unfoldable pub prfx_for_each : Name → List (Name × ℕ) → List (Name × ℕ)
unfolding in_order ends_slash lower_bound while_starts find
prfx_for_each p m =
    if bytes_equal p (slash ∷ [])
    then in_order m
    else (if not (ends_slash p)
        then elim (find ⦃e = name_test⦄ p m) [ none ↦ [] | some k ↦ (p, k) ∷ [] ]
        else while_starts p (lower_bound p (in_order m)))

-- `rfind('/', size - 2)` and `resize(pos + 1)`: the characters up to the last slash before the last one.
unfoldable pub init : Name → Name
init [] = []
init (x ∷ []) = []
init (x ∷ y ∷ ys) = x ∷ init (y ∷ ys)

unfoldable pub upto_slash : Name → Option Name
upto_slash [] = none
upto_slash (x ∷ xs) = elim (upto_slash xs) [
  | some p ↦ some (x ∷ p)
  | none ↦ if x == slash then some (x ∷ []) else none
]

unfoldable pub parent : Name → Option Name
unfolding init upto_slash
parent name = if ltb (length name) 2 then none else upto_slash (init name)

-- The keys that channel_announcement looks up: one, and those of the loop, which `fuel` bounds.
unfoldable pub parents : ℕ → Name → List Name
unfolding parent
parents zero name = []
parents (suc fuel) name = elim (parent name) [ none ↦ name ∷ [] | some p ↦ name ∷ parents fuel p ]

unfoldable pub announced_keys : ℕ → Name → List Name
unfolding parents
announced_keys fuel name = (slash ∷ []) ∷ parents fuel name
