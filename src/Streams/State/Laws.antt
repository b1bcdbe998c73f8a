-- ===== src/Streams/State/Laws.antt =====
-- The map of names: insertion and lookup.
use yamal.Base.{
  Bool-cases, List, Option-cases, [], arith, false, if◌then◌else◌, inl, inr, none, refl, some,
  subst, true, ℕ, ◌++◌, ◌↔◌, ◌∷◌, ◌≡◌,
}
use yamal.Cursor.Array.{hit}
use yamal.Streams.State.{
  Entry, Key, Map, bytes_equal, key_equal, streams_reverse_map_emplace, streams_reverse_map_get,
}

pub bytes_equal-≡ : (xs ys : List ℕ) → bytes_equal xs ys ≡ true → xs ≡ ys
unfolding bytes_equal
bytes_equal-≡ [] [] h = refl
bytes_equal-≡ [] (y ∷ ys) h = cc
bytes_equal-≡ (x ∷ xs) [] h = cc
bytes_equal-≡ (x ∷ xs) (y ∷ ys) h =
    let first : x ≡ y = ground arith in
    let rest : bytes_equal xs ys ≡ true = ground arith in rw (first, bytes_equal-≡ xs ys rest) refl

pub bytes_equal_refl : (xs : List ℕ) → bytes_equal xs xs ≡ true
unfolding bytes_equal
bytes_equal_refl [] = refl
bytes_equal_refl (x ∷ xs) = ground (arith, bytes_equal_refl xs)

-- Two keys are equal for the map when their names are.
pub key_equal-≡ : (a b : Key) → key_equal a b ≡ true → a ≡ b
unfolding key_equal
key_equal-≡ a b h =
    let peers : bytes_equal a.peer b.peer ≡ true = ground arith in
    let channels : bytes_equal a.channel b.channel ≡ true = ground arith in
    rw (bytes_equal-≡ a.peer b.peer peers, bytes_equal-≡ a.channel b.channel channels) refl

key_equal_refl : (a : Key) → key_equal a a ≡ true
unfolding key_equal
key_equal_refl a = ground (arith, bytes_equal_refl a.peer, bytes_equal_refl a.channel)

get-append :
    (m : Map) (key k : Key) (e : Entry)
    → streams_reverse_map_get m key ≡ none
    → streams_reverse_map_get (m ++ (key, e) ∷ []) k
      ≡ (if key_equal key k then some e else streams_reverse_map_get m k)
unfolding streams_reverse_map_get
get-append [] key k e h = ground arith
get-append ((i, a) ∷ m) key k e h =
    let rest : streams_reverse_map_get m key ≡ none = ground arith in
    let other : key_equal i key ≡ false = ground arith in
    elim (Bool-cases (key_equal i k)) [
      | inl hit ↦
          let at : i ≡ k = key_equal-≡ i k hit in
          elim (Bool-cases (key_equal key k)) [
            | inl both ↦
                let at' : key ≡ k = key_equal-≡ key k both in
                absurd (ground (arith, other, hit, at'))
            | inr apart ↦ rw (hit, apart) refl
          ]
      | inr miss ↦ rw miss (get-append m key k e rest)
    ]

-- After an insertion the map gives what the insertion returned for the key, and what it gave
-- before for every other key; the insertion returns what the map gave for the key, if anything,
-- and the new entry otherwise.
pub streams_reverse_map_get-emplace :
    (m : Map) (key k : Key) (e : Entry)
    → (streams_reverse_map_get (streams_reverse_map_emplace m key e).1 k ≡ (
        if key_equal key k
        then some (streams_reverse_map_emplace m key e).0
        else streams_reverse_map_get m k))
      × ((streams_reverse_map_emplace m key e).0
          ≡ (elim (streams_reverse_map_get m key) [ none ↦ e | some old ↦ old ]))
unfolding streams_reverse_map_emplace
streams_reverse_map_get-emplace m key k e = elim (Option-cases (streams_reverse_map_get m key)) [
  | inl new_key ↦ rw (new_key, streams_reverse_map_emplace) (get-append m key k e new_key, refl)
  | inr (old, there) ↦
      rw (there, streams_reverse_map_emplace)
        (
          elim (Bool-cases (key_equal key k)) [
            | inl hit ↦ rw (hit, ← key_equal-≡ key k hit, there) refl
            | inr miss ↦ rw miss refl
          ],
          refl,
        )
]

pub emplace-nil : (key : Key) (e : Entry) → (streams_reverse_map_emplace [] key e).0 ≡ e
unfolding streams_reverse_map_emplace streams_reverse_map_get
emplace-nil key e = refl

pub bytes_equal_iff : (a b : List ℕ) → (bytes_equal a b ≡ true) ↔ (a ≡ b)
bytes_equal_iff a b =
    (bytes_equal-≡ a b, λ e. subst (λ x. bytes_equal a x ≡ true) e (bytes_equal_refl a))
