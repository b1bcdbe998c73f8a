-- ===== src/Control/Keys.antt =====
-- src/ytp/control.cpp: the streams of a control belong to peers and channels that have a number.
use yamal.Base.{
  Bool, Bool-cases, List, Option-cases, [], ap, arith, false, if◌then◌else◌, inl, inr, length,
  length-append, none, some, subst, suc, true, ℕ, ◌++◌, ◌+◌, ◌<◌, ◌∙◌, ◌∷◌, ◌≡◌, ◌≤◌, ◌⊎◌,
}
use yamal.Control.Answers.{key_after}
use yamal.Control.Decl.{none64}
use yamal.Control.Messages.{processed}
use yamal.Control.Numbers.{
  beq-hit, emplace_new, emplace_old, find-enumerate, get_elem?-bound, length-enumerate,
}
use yamal.Control.Registry.{
  Name, NamedStream, Registry, StreamKey, channel_off, key_test, name_test, peer_off, process_ann,
}
use yamal.Control.Table.{emplace, find}
use yamal.Control.Tables.{
  Fits, IsRegistry, IsTable, find-emplace, inserted, process_ann-IsRegistry, registered,
}
use yamal.LazyRemVector.{EqTest}
use yamal.Message.Fields.{add64}
use yamal.Yamal.State.{word}

pub record IsKeyed (c : Registry) : Type 0 where
  pub peer :
      (x : StreamKey) (s : ℕ)
      → find ⦃e = key_test⦄ x c.key_to_streamid ≡ some s
      → x.peer < peer_off + length c.peers
  pub channel :
      (x : StreamKey) (s : ℕ)
      → find ⦃e = key_test⦄ x c.key_to_streamid ≡ some s
      → x.channel < channel_off + length c.channels
  pub stream :
      (x : StreamKey) (s : ℕ) → find ⦃e = key_test⦄ x c.key_to_streamid ≡ some s → s < none64

-- There is a number for one more peer and one more channel.
abbrev pub Spare : Registry → Type 0
Spare c = (length c.peers + peer_off < none64) × (length c.channels + channel_off < none64)

module _ {K : Type 0} ⦃e : EqTest K⦄ where
  -- The numbers of a table lie behind the offset, as many as there are names.
  pub find-bound :
      (off : ℕ) (xs : List K) (m : List (K × ℕ)) (x : K) (k : ℕ)
      → IsTable off xs m
      → find x m ≡ some k
      → k < off + length xs
  find-bound off xs m x k t h =
      let (i, q, g) = find-enumerate off x xs k (subst (λ l. find x l ≡ some k) t.numbers h) in
      omega (arith, q, get_elem?-bound xs i x g)

  find-snoc_cases :
      {V : Type 0} (x y : K) (v u : V) (m : List (K × V))
      → find y (m ++ (x, v) ∷ []) ≡ some u
      → (find y m ≡ some u) ⊎ ((x ≡ y) × (u ≡ v))
  unfolding find
  find-snoc_cases x y v u [] h = elim (Bool-cases (e.beq x y)) [
    | inl t ↦ let q : some v ≡ some u = ground (arith, h, t) in inr (beq-hit x y t, cc q)
    | inr f ↦ absurd (ground (arith, h, f))
  ]
  find-snoc_cases x y v u ((j, w) ∷ m) h = elim (Bool-cases (e.beq j y)) [
    | inl t ↦ inl (ground (arith, h, t))
    | inr f ↦
        let rest : find y (m ++ (x, v) ∷ []) ≡ some u = ground (arith, h, f) in
        rw f (find-snoc_cases x y v u m rest)
  ]

  -- What stands in a table behind an insertion stood there before, or is what was inserted.
  pub find-emplaced_cases :
      {V : Type 0} (x y : K) (v u : V) (m : List (K × V))
      → find y (emplace x v m).2 ≡ some u
      → (find y m ≡ some u) ⊎ ((x ≡ y) × (u ≡ v))
  unfolding emplace
  find-emplaced_cases x y v u m h = elim (Option-cases (find x m)) [
    | inl fresh ↦
        find-snoc_cases x y v u m
          (subst (λ l. find y l ≡ some u) (ap (λ z. z.2) (emplace_new x v m fresh)) h)
    | inr (w, old) ↦
        inl (subst (λ l. find y l ≡ some u) (ap (λ z. z.2) (emplace_old x v w m old)) h)
  ]

  -- A new name gets the next number.
  pub inserted_fresh :
      (off : ℕ) (xs : List K) (m : List (K × ℕ)) (x : K)
      → IsTable off xs m
      → length xs + off < word
      → find x m ≡ none
      → inserted off x m ≡ (off + length xs, true, m ++ (x, off + length xs) ∷ [])
  inserted_fresh off xs m x t f fresh =
      let next : add64 (length m) off ≡ off + length xs =
        rw (t.numbers, length-enumerate off xs) (omega (arith, f)) in
      emplace_new x (add64 (length m) off) m fresh ∙ ap (λ n. (n, true, m ++ (x, n) ∷ [])) next

module _ (a : NamedStream) (c : Registry) where
  one_longer :
      (b : Bool) (xs : List Name) (x : Name)
      → (length xs ≤ length (if b then xs ++ x ∷ [] else xs))
        × (length (if b then xs ++ x ∷ [] else xs) ≤ suc (length xs))
  one_longer true xs x =
      (omega (arith, length-append xs (x ∷ [])), omega (arith, length-append xs (x ∷ [])))
  one_longer false xs x = (omega arith, omega arith)

  peers_longer :
      (length c.peers ≤ length (registered a c).peers)
      × (length (registered a c).peers ≤ suc (length c.peers))
  unfolding process_ann
  peers_longer =
      one_longer (inserted ⦃e = name_test⦄ peer_off a.peer c.name_to_peerid).1 c.peers a.peer

  channels_longer :
      (length c.channels ≤ length (registered a c).channels)
      × (length (registered a c).channels ≤ suc (length c.channels))
  unfolding process_ann
  channels_longer =
      one_longer (inserted ⦃e = name_test⦄ channel_off a.channel c.name_to_channelid).1 c.channels
        a.channel

  pub Spare-Fits : Spare c → Fits (registered a c)
  Spare-Fits f = (omega (arith, f.0, peers_longer), omega (arith, f.1, channels_longer))

  -- A stream is stored for the numbers of its names.
  stored_cases :
      (x : StreamKey) (s : ℕ)
      → find ⦃e = key_test⦄ x (registered a c).key_to_streamid ≡ some s
      → (find ⦃e = key_test⦄ x c.key_to_streamid ≡ some s) ⊎ ((key_after a c ≡ x) × (s ≡ a.stream))
  unfolding process_ann
  stored_cases x s h =
      find-emplaced_cases ⦃e = key_test⦄ (key_after a c) x a.stream s c.key_to_streamid h

  peer_bound :
      IsRegistry (registered a c) → (key_after a c).peer < peer_off + length (registered a c).peers
  unfolding process_ann
  peer_bound t =
      find-bound ⦃e = name_test⦄ peer_off _ _ a.peer _ t.peers
        (find-emplace ⦃e = name_test⦄ a.peer _ c.name_to_peerid)

  channel_bound :
      IsRegistry (registered a c)
      → (key_after a c).channel < channel_off + length (registered a c).channels
  unfolding process_ann
  channel_bound t =
      find-bound ⦃e = name_test⦄ channel_off _ _ a.channel _ t.channels
        (find-emplace ⦃e = name_test⦄ a.channel _ c.name_to_channelid)

  pub process_ann-IsKeyed :
      IsRegistry (registered a c) → a.stream < none64 → IsKeyed c → IsKeyed (registered a c)
  process_ann-IsKeyed t f v = record {
    peer = λ x s h. elim (stored_cases x s h) [
      | inl q ↦ omega (arith, v.peer x s q, peers_longer)
      | inr (q, z) ↦ subst (λ y. y.peer < peer_off + length (registered a c).peers) q (peer_bound t)
    ];
    channel = λ x s h. elim (stored_cases x s h) [
      | inl q ↦ omega (arith, v.channel x s q, channels_longer)
      | inr (q, z) ↦
          subst (λ y. y.channel < channel_off + length (registered a c).channels) q
            (channel_bound t)
    ];
    stream = λ x s h. elim (stored_cases x s h) [
      | inl q ↦ v.stream x s q
      | inr (q, z) ↦ omega (arith, z, f)
    ];
  }

-- With room in the numbers, the tables keep their form.
pub registered-tables :
    (a : NamedStream) (c : Registry) (seqno : ℕ)
    → IsRegistry c
    → IsKeyed c
    → Spare c
    → a.stream < none64
    → Fits (registered a (processed seqno c))
      × IsRegistry (registered a (processed seqno c))
      × IsKeyed (registered a (processed seqno c))
registered-tables a c seqno t v f b =
    let r = processed seqno c in
    let t' =
      process_ann-IsRegistry a r (omega (arith, f.0), omega (arith, f.1))
        (record { peers = t.peers; channels = t.channels }) in
    (
      Spare-Fits a r f,
      t',
      process_ann-IsKeyed a r t' b
          (record { peer = v.peer; channel = v.channel; stream = v.stream }),
    )
