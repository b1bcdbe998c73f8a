-- ===== src/Control/Order.antt =====
-- Numbers are given in the order in which names are announced.
use yamal.Base.{
  Bool, Bool-cases, List, Option-cases, [], ap, arith, false, if◌then◌else◌, inl, inr, length, map,
  none, refl, some, subst, suc, true, ℕ, ◌++◌, ◌||◌, ◌∙◌, ◌∷◌, ◌≡◌,
}
use yamal.Control.Numbers.{emplace_new, emplace_old, enumerate}
use yamal.Control.Registry.{
  Name, NamedStream, Registry, channel_off, name_test, peer_off, process_ann,
}
use yamal.Control.Table.{find}
use yamal.Control.Tables.{
  Fits, IsRegistry, IsTable, inserted, process_ann-Fits, process_ann-IsRegistry, registered,
}
use yamal.LazyRemVector.{EqTest}
use yamal.Message.Fields.{add64}

module _ {K : Type 0} ⦃e : EqTest K⦄ where
  abbrev pub member : K → List K → Bool
  member x [] = false
  member x (y ∷ ys) = e.beq y x || member x ys

  -- A key goes behind the others when it is not there.
  abbrev pub add_once : K → List K → List K
  add_once x xs = if member x xs then xs else xs ++ x ∷ []

  -- The keys in the order of their first occurrences, behind those in `seen`.
  abbrev pub firsts : List K → List K → List K
  firsts seen [] = seen
  firsts seen (x ∷ xs) = firsts (add_once x seen) xs

  member-find : (o : ℕ) (x : K) (xs : List K) → find x (enumerate o xs) ≡ none → member x xs ≡ false
  unfolding find enumerate
  member-find o x [] h = refl
  member-find o x (y ∷ xs) h = elim (Bool-cases (e.beq y x)) [
    | inl t ↦ absurd (ground (arith, h, t))
    | inr f ↦
        let rest : find x (enumerate (suc o) xs) ≡ none = ground (arith, h, f) in
        rw f (member-find (suc o) x xs rest)
  ]

  member-found :
      (o : ℕ) (x : K) (xs : List K) (k : ℕ) → find x (enumerate o xs) ≡ some k → member x xs ≡ true
  unfolding find enumerate
  member-found o x [] k h = absurd (ground (arith, h))
  member-found o x (y ∷ xs) k h = elim (Bool-cases (e.beq y x)) [
    | inl t ↦ rw t refl
    | inr f ↦
        let rest : find x (enumerate (suc o) xs) ≡ some k = ground (arith, h, f) in
        rw f (member-found (suc o) x xs k rest)
  ]

  pub inserted_once :
      (off : ℕ) (xs : List K) (m : List (K × ℕ)) (x : K)
      → IsTable off xs m
      → (if (inserted off x m).1 then xs ++ x ∷ [] else xs) ≡ add_once x xs
  inserted_once off xs m x t = elim (Option-cases (find x m)) [
    | inl fresh ↦
        let b = member-find off x xs (subst (λ l. find x l ≡ none) t.numbers fresh) in
        rw (emplace_new x (add64 (length m) off) m fresh, b) refl
    | inr (k, old) ↦
        let b = member-found off x xs k (subst (λ l. find x l ≡ some k) t.numbers old) in
        rw (emplace_old x (add64 (length m) off) k m old, b) refl
  ]

-- Announcements are processed one after the other.
unfoldable pub process_all : List NamedStream → Registry → Registry
unfolding process_ann
process_all [] c = c
process_all (a ∷ anns) c = process_all anns (registered a c)

abbrev peer_of : NamedStream → Name
peer_of a = a.peer

abbrev channel_of : NamedStream → Name
channel_of a = a.channel

Fits-process_all : (anns : List NamedStream) (c : Registry) → Fits (process_all anns c) → Fits c
unfolding process_all
Fits-process_all [] c f = f
Fits-process_all (a ∷ anns) c f = process_ann-Fits a c (Fits-process_all anns (registered a c) f)

-- When the numbers fit a word, processing announcements by process_ann one after the other, from
-- tables in which the names have the numbers from 256 on in order and none stands twice, leaves
-- such tables, whose peers and channels are the names of the announcements in the order of their
-- first occurrences behind those that were there.
pub process_all-firsts :
    (anns : List NamedStream) (c : Registry)
    → IsRegistry c
    → Fits (process_all anns c)
    → IsRegistry (process_all anns c)
      × ((process_all anns c).peers ≡ firsts ⦃e = name_test⦄ c.peers (map peer_of anns))
      × ((process_all anns c).channels ≡ firsts ⦃e = name_test⦄ c.channels (map channel_of anns))
unfolding process_all process_ann
process_all-firsts [] c t f = (t, refl, refl)
process_all-firsts (a ∷ anns) c t f =
    let fits = process_ann-Fits a c (Fits-process_all anns (registered a c) f) in
    let t' = process_ann-IsRegistry a c fits t in
    let (u, p, q) = process_all-firsts anns (registered a c) t' f in
    let peers = inserted_once ⦃e = name_test⦄ peer_off c.peers c.name_to_peerid a.peer t.peers in
    let channels =
      inserted_once ⦃e = name_test⦄ channel_off c.channels c.name_to_channelid a.channel
        t.channels in
    (
      u,
      p ∙ ap (λ l. firsts ⦃e = name_test⦄ l (map peer_of anns)) peers,
      q ∙ ap (λ l. firsts ⦃e = name_test⦄ l (map channel_of anns)) channels,
    )
