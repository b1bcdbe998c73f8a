-- ===== src/Control/Tables.antt =====
-- The tables of a control number the names in the order in which they are announced.
use yamal.Base.{
  Bool, List, Option-cases, [], ap, arith, false, if◌then◌else◌, inl, inr, length, length-append,
  none, some, subst, sym, true, ℕ, ◌++◌, ◌+◌, ◌<◌, ◌∙◌, ◌∷◌, ◌≡◌, ◌≤◌,
}
use yamal.Control.Numbers.{
  Missing-find, Unique, Unique-snoc, emplace_new, emplace_old, enumerate, enumerate-snoc,
  find-append, find-snoc, length-enumerate,
}
use yamal.Control.Registry.{
  Name, NamedStream, Registry, channel_off, name_test, peer_off, process_ann,
}
use yamal.Control.Table.{emplace, find}
use yamal.LazyRemVector.{EqTest}
use yamal.Message.Fields.{add64}
use yamal.Yamal.State.{word}

module _ {K : Type 0} ⦃e : EqTest K⦄ where
  -- The keys `xs` have the numbers from `off` on.
  pub record IsTable (off : ℕ) (xs : List K) (m : List (K × ℕ)) : Type 0 where
    pub numbers : m ≡ enumerate off xs
    pub unique : Unique ⦃e = e⦄ xs

  -- An insertion with the next number.
  abbrev pub inserted : ℕ → K → List (K × ℕ) → ℕ × Bool × List (K × ℕ)
  inserted off x m = emplace x (add64 (length m) off) m

  pub emplace-IsTable :
      (off : ℕ) (xs : List K) (m : List (K × ℕ)) (x : K)
      → length xs + off < word
      → IsTable off xs m
      → IsTable off (if (inserted off x m).1 then xs ++ x ∷ [] else xs) (inserted off x m).2
  unfolding emplace
  emplace-IsTable off xs m x f t = elim (Option-cases (find x m)) [
    | inl fresh ↦
        let missing = Missing-find off x xs (subst (λ l. find x l ≡ none) t.numbers fresh) in
        let next : add64 (length m) off ≡ off + length xs =
          rw (t.numbers, length-enumerate off xs) (omega arith) in
        rw (emplace_new x (add64 (length m) off) m fresh) (record {
          numbers =
              ap (λ n. m ++ (x, n) ∷ []) next
              ∙ ap (λ l. l ++ (x, off + length xs) ∷ []) t.numbers
              ∙ sym (enumerate-snoc off xs x);
          unique = Unique-snoc xs x t.unique missing;
        })
    | inr (k, old) ↦ rw (emplace_old x (add64 (length m) off) k m old) t
  ]

module _ {K V : Type 0} ⦃e : EqTest K⦄ (x : K) (v : V) (m : List (K × V)) where
  -- The key has what the insertion returned, and every key keeps what it had.
  pub find-emplace : find x (emplace x v m).2 ≡ some (emplace x v m).0
  find-emplace = elim (Option-cases (find x m)) [
    | inl fresh ↦ rw (emplace_new x v m fresh) (find-snoc x m v fresh)
    | inr (u, old) ↦ rw (emplace_old x v u m old) old
  ]

  pub find-emplaced : (y : K) (u : V) → find y m ≡ some u → find y (emplace x v m).2 ≡ some u
  find-emplaced y u h = elim (Option-cases (find x m)) [
    | inl fresh ↦ rw (emplace_new x v m fresh) (find-append y m ((x, v) ∷ []) u h)
    | inr (w, old) ↦ rw (emplace_old x v w m old) h
  ]

pub record IsRegistry (c : Registry) : Type 0 where
  pub peers : IsTable ⦃e = name_test⦄ peer_off c.peers c.name_to_peerid
  pub channels : IsTable ⦃e = name_test⦄ channel_off c.channels c.name_to_channelid

-- The numbers fit a word.
abbrev pub Fits : Registry → Type 0
Fits c = (length c.peers + peer_off < word) × (length c.channels + channel_off < word)

module _ (a : NamedStream) (c : Registry) where
  abbrev pub registered : Registry
  registered = (process_ann a c).2

  longer :
      (b : Bool) (xs : List Name) (x : Name) → length xs ≤ length (if b then xs ++ x ∷ [] else xs)
  longer true xs x = omega (arith, length-append xs (x ∷ []))
  longer false xs x = omega arith

  pub process_ann-Fits : Fits registered → Fits c
  unfolding process_ann
  process_ann-Fits f = (
    omega (
      arith,
      f.0,
      longer (inserted ⦃e = name_test⦄ peer_off a.peer c.name_to_peerid).1 c.peers a.peer,
    ),
    omega (
      arith,
      f.1,
      longer (inserted ⦃e = name_test⦄ channel_off a.channel c.name_to_channelid).1 c.channels
          a.channel,
    ),
  )

  pub process_ann-IsRegistry : Fits c → IsRegistry c → IsRegistry registered
  unfolding process_ann
  process_ann-IsRegistry f t = record {
    peers = emplace-IsTable ⦃e = name_test⦄ peer_off c.peers c.name_to_peerid a.peer f.0 t.peers;
    channels =
        emplace-IsTable ⦃e = name_test⦄ channel_off c.channels c.name_to_channelid a.channel f.1
          t.channels;
  }
