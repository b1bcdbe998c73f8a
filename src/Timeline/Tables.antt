-- ===== src/Timeline/Tables.antt =====
-- The tables of callbacks: what a key has after a write.
use yamal.Base.{
  ==_iff, Bool, Bool-cases, List, Option, [], ap, arith, false, if◌then◌else◌, inl, inr, none, refl,
  some, sym, ℕ, ◌==◌, ◌||◌, ◌∙◌, ◌∷◌, ◌≡◌,
}
use yamal.Control.Registry.{Name, offset_test}
use yamal.Control.Table.{find}
use yamal.Cursor.Array.Removal.{one}
use yamal.LazyRemVector.{EqTest, new}
use yamal.LazyRemVector.Live.{is_live}
use yamal.Streams.Announce.{found}
use yamal.Timeline.Register.{Client, Clients, at_key, client_test, for_channels}

abbrev pub or_new : Option Clients → Clients
or_new none = new
or_new (some v) = v

abbrev pub vector_at : {K : Type 0} ⦃e : EqTest K⦄ → K → List (K × Clients) → Clients
vector_at k m = or_new (find k m)

module _ {K : Type 0} ⦃e : EqTest K⦄ where
  pub find-at_key :
      (f : Clients → Clients) (p k : K) (m : List (K × Clients))
      → find k (at_key f p m) ≡ (if e.beq p k then some (f (vector_at p m)) else find k m)
  unfolding find at_key
  find-at_key f p k [] = refl
  find-at_key f p k ((j, v) ∷ m) = elim (Bool-cases (e.beq j p)) [
    | inl found ↦
        let same = (e.beq_iff j p).0 found in
        let alike : e.beq j k ≡ e.beq p k = ap (λ x. e.beq x k) same in
        elim (Bool-cases (e.beq p k)) [
          | inl b ↦ let b' = alike ∙ b in rw (found, b', b) refl
          | inr b ↦ let b' = alike ∙ b in rw (found, b', b) refl
        ]
    | inr miss ↦ elim (Bool-cases (e.beq j k)) [
      | inl b ↦ elim (Bool-cases (e.beq p k)) [
        | inl b' ↦
            let same = (e.beq_iff j k).0 b ∙ sym ((e.beq_iff p k).0 b') in
            let hit = (e.beq_iff j p).1 same in absurd (ground (arith, miss, hit))
        | inr b' ↦ rw (miss, b, b') refl
      ]
      | inr b ↦ rw (miss, b) (find-at_key f p k m)
    ]
  ]

  -- What the key that is written has, and what another has.
  pub vector_at-at_key :
      (f : Clients → Clients) (k : K) (m : List (K × Clients))
      → vector_at k (at_key f k m) ≡ f (vector_at k m)
  vector_at-at_key f k m =
      let self = (e.beq_iff k k).1 refl in
      let found : find k (at_key f k m) ≡ some (f (vector_at k m)) =
        find-at_key f k k m ∙ (rw self refl) in
      ap or_new found

  pub vector_at-at_key_other :
      (f : Clients → Clients) (p k : K) (m : List (K × Clients))
      → e.beq p k ≡ false
      → vector_at k (at_key f p m) ≡ vector_at k m
  vector_at-at_key_other f p k m other =
      let found : find k (at_key f p m) ≡ find k m = find-at_key f p k m ∙ (rw other refl) in
      ap or_new found

-- Whether a number stands in a map of channels.
unfoldable pub has_number : ℕ → List (Name × ℕ) → Bool
has_number k [] = false
has_number k ((n, j) ∷ m) = j == k || has_number k m

-- A change at the channels of a prefix reaches those, and no other.
pub is_live-for_channels :
    (x : Client) (f : Clients → Clients) (g : Bool → Bool)
    → ((v : Clients)
        → is_live ⦃e = client_test⦄ x (f v).items ≡ g (is_live ⦃e = client_test⦄ x v.items))
    → ((b : Bool) → g (g b) ≡ g b)
    → (k : ℕ) (m : List (Name × ℕ)) (idx : List (ℕ × Clients))
    → is_live ⦃e = client_test⦄ x (vector_at ⦃e = offset_test⦄ k (for_channels f m idx)).items ≡ (
        if has_number k m
        then g (is_live ⦃e = client_test⦄ x (vector_at ⦃e = offset_test⦄ k idx).items)
        else is_live ⦃e = client_test⦄ x (vector_at ⦃e = offset_test⦄ k idx).items)
unfolding for_channels has_number
is_live-for_channels x f g one twice k [] idx = refl
is_live-for_channels x f g one twice k ((n, j) ∷ m) idx =
    let rest = is_live-for_channels x f g one twice k m (at_key ⦃e = offset_test⦄ f j idx) in
    elim (Bool-cases (j == k)) [
      | inl found ↦
          let same = (==_iff j k).0 found in
          let here : vector_at ⦃e = offset_test⦄ k (at_key ⦃e = offset_test⦄ f j idx)
              ≡ f (vector_at ⦃e = offset_test⦄ k idx) =
            rw same (vector_at-at_key ⦃e = offset_test⦄ f k idx) in
          let old = is_live ⦃e = client_test⦄ x (vector_at ⦃e = offset_test⦄ k idx).items in
          rest
          ∙ (rw (here, one (vector_at ⦃e = offset_test⦄ k idx), found)
              (elim (Bool-cases (has_number k m)) [ inl b ↦ rw b (twice old) | inr b ↦ rw b refl ]))
      | inr missed ↦
          let here = vector_at-at_key_other ⦃e = offset_test⦄ f j k idx missed in
          rest ∙ (rw here (rw missed refl))
    ]
