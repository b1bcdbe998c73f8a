-- ===== src/Timeline/Round.antt =====
-- A round of calls reaches each callback once.
use yamal.Base.{
  Bool-cases, List, [], ap, arith, get_elem?, if◌then◌else◌, inl, inr, length, refl, suc, zero, ℕ,
  ◌+◌, ◌<◌, ◌∙◌, ◌∷◌, ◌≡◌,
}
use yamal.LazyRemVector.{Item}
use yamal.Timeline.Poll.{Both, call_round}
use yamal.Timeline.Register.{Client, Clients}

-- The calls of the callbacks that are not marked as removed, in order.
abbrev pub calls : (Client → Both → Both) → List (Item Client) → Both → Both
calls call [] w = w
calls call (i ∷ is) w = if i.removed then calls call is w else calls call is (call i.value w)

module _ (v : Both → Clients) (call : Client → Both → Both)
    (keeps : (c : Client) (w : Both) → (v (call c w)).items ≡ (v w).items) where
  -- The items from a position on.
  abbrev IsRest : ℕ → List (Item Client) → Both → Type 0
  IsRest pos is w = (j : ℕ) → get_elem? (v w).items (pos + j) ≡ get_elem? is j

  IsRest-next :
      (pos : ℕ) (i : Item Client) (is : List (Item Client)) (w : Both)
      → IsRest pos (i ∷ is) w
      → IsRest (pos + 1) is w
  IsRest-next pos i is w h j =
      let q : pos + 1 + j ≡ pos + suc j = omega arith in ap (get_elem? (v w).items) q ∙ h (suc j)

  here_at :
      (pos : ℕ) (is : List (Item Client)) (w : Both)
      → IsRest pos is w
      → get_elem? (v w).items pos ≡ get_elem? is 0
  here_at pos is w h = let q : pos ≡ pos + 0 = omega arith in ap (get_elem? (v w).items) q ∙ h 0

  round_from :
      (fuel pos : ℕ) (is : List (Item Client)) (w : Both)
      → IsRest pos is w
      → length is < fuel
      → call_round fuel v call pos w ≡ calls call is w
  unfolding call_round
  round_from zero pos is w h f = absurd (omega (arith, f))
  round_from (suc fuel) pos [] w h f = rw (here_at pos [] w h, call_round) refl
  round_from (suc fuel) pos (i ∷ is) w h f =
      let next = IsRest-next pos i is w h in
      let next' : IsRest (pos + 1) is (call i.value w) =
        λ j. ap (λ l. get_elem? l (pos + 1 + j)) (keeps i.value w) ∙ next j in
      let enough : length is < fuel = omega (arith, f) in
      elim (Bool-cases i.removed) [
        | inl b ↦
            let step : call_round (suc fuel) v call pos w ≡ call_round fuel v call (pos + 1) w =
              rw (here_at pos (i ∷ is) w h, b, call_round) refl in
            step ∙ round_from fuel (pos + 1) is w next enough ∙ rw b refl
        | inr b ↦
            let step : call_round (suc fuel) v call pos w
                ≡ call_round fuel v call (pos + 1) (call i.value w) =
              rw (here_at pos (i ∷ is) w h, b, call_round) refl in
            step ∙ round_from fuel (pos + 1) is (call i.value w) next' enough ∙ rw b refl
      ]

  -- When no call changes the items of the vector, and with fuel beyond their number, the walk over
  -- a vector of callbacks calls each item that is not marked as removed once, in order, and
  -- nothing else.
  pub call_round-calls :
      (fuel : ℕ) (w : Both)
      → length (v w).items < fuel
      → call_round fuel v call 0 w ≡ calls call (v w).items w
  call_round-calls fuel w f =
      round_from fuel 0 (v w).items w
        (λ j. let q : 0 + j ≡ j = omega arith in ap (get_elem? (v w).items) q) f
