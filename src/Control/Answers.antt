-- ===== src/Control/Answers.antt =====
-- What a handler of a control has found is what the tables say.
use yamal.Base.{
  Bool, Bool-cases, List, Option, ap, arith, false, if◌then◌else◌, inl, inr, none, refl, some,
  subst, sym, true, ℕ, ◌∙◌, ◌≡◌, ◌⊎◌,
}
use yamal.Control.Decl.{answer, is_found, none64}
use yamal.Control.Messages.{
  Control, Handler, called, control_pred, insert_between, lookup_or_insert_ctrl_msg, names_of,
  process_control_msgs, processed, searched,
}
use yamal.Control.Numbers.{emplace-stored}
use yamal.Control.Registry.{
  Name, NamedStream, OnStream, Registry, StreamKey, channel_off, key_test, name_test, peer_off,
  process_ann,
}
use yamal.Control.Search.{ytp_streams_search_ann-keeps}
use yamal.Control.Table.{emplace, find}
use yamal.Control.Tables.{
  Fits, IsRegistry, find-emplace, inserted, process_ann-Fits, process_ann-IsRegistry, registered,
}
use yamal.Streams.Search.{AnnData}
use yamal.Streams.State.{Streams}
use yamal.Yamal.State.{Result, err, hang, ok}

-- The call of a handler is what the tables say of the names.
pub record IsCall (c : Registry) (call : OnStream) : Type 0 where
  pub peer : find ⦃e = name_test⦄ call.peername c.name_to_peerid ≡ some call.peerid
  pub channel : find ⦃e = name_test⦄ call.chname c.name_to_channelid ≡ some call.channelid
  pub stream :
      find ⦃e = key_test⦄
        (record { peer = call.peerid; channel = call.channelid })
        c.key_to_streamid
      ≡ some call.stream

abbrev pub calls_of : Bool → OnStream → Option OnStream
calls_of b call = if b then some call else none

module _ (a : NamedStream) (c : Registry) where
  abbrev pub peers_after : ℕ × Bool × List (Name × ℕ)
  peers_after = inserted ⦃e = name_test⦄ peer_off a.peer c.name_to_peerid

  abbrev pub channels_after : ℕ × Bool × List (Name × ℕ)
  channels_after = inserted ⦃e = name_test⦄ channel_off a.channel c.name_to_channelid

  abbrev pub key_after : StreamKey
  key_after = record { peer = peers_after.0; channel = channels_after.0 }

  abbrev pub keys_after : ℕ × Bool × List (StreamKey × ℕ)
  keys_after = emplace ⦃e = key_test⦄ key_after a.stream c.key_to_streamid

  abbrev pub the_call : OnStream
  the_call = record {
    stream = a.stream;
    peerid = peers_after.0;
    channelid = channels_after.0;
    peername = a.peer;
    chname = a.channel;
  }

  pub the_call-IsCall : keys_after.1 ≡ true → IsCall (registered a c) the_call
  unfolding process_ann
  the_call-IsCall b = record {
    peer = find-emplace ⦃e = name_test⦄ a.peer _ c.name_to_peerid;
    channel = find-emplace ⦃e = name_test⦄ a.channel _ c.name_to_channelid;
    stream =
        find-emplace ⦃e = key_test⦄ key_after a.stream c.key_to_streamid
        ∙ ap some (emplace-stored ⦃e = key_test⦄ key_after a.stream c.key_to_streamid b);
  }

  -- The handler is called for a stream that is new, with what the tables then say, or not at all.
  pub process_ann-IsCall :
      ((process_ann a c).1 ≡ none)
      ⊎ ((call : OnStream) × ((process_ann a c).1 ≡ some call) × IsCall (registered a c) call)
  unfolding process_ann
  process_ann-IsCall = elim (Bool-cases keys_after.1) [
    | inl b ↦ inr (the_call, ap (λ b. calls_of b the_call) b, the_call-IsCall b)
    | inr b ↦ inl (ap (λ b. calls_of b the_call) b)
  ]

-- The number that a handler has: none, or what the tables say.
abbrev pub Answer : (Registry → Option ℕ) → Registry → ℕ → Type 0
Answer known c k = (k ≡ none64) ⊎ (known c ≡ some k)

-- A handler that looks for what `known` says.
pub record IsSeeker (h : Handler ℕ) (known : Registry → Option ℕ) : Type 0 where
  pub counted : (s : ℕ) (c : Registry) → known (processed s c) ≡ known c
  pub grows :
      (a : NamedStream) (c : Registry) (k : ℕ) → known c ≡ some k → known (registered a c) ≡ some k
  pub calls :
      (c : Registry) (call : OnStream) (k : ℕ)
      → IsCall c call
      → Answer known c k
      → Answer known c (h.on_stream call k)
  pub inserts : (c : Control) → (h.insert c).1.registry ≡ c.registry
  pub finds : (c : Registry) (k : ℕ) → h.found c k ≡ is_found k

module _ (h : Handler ℕ) (known : Registry → Option ℕ) (w : IsSeeker h known) where
  -- As long as the numbers fit a word.
  abbrev pub Settled : Registry × ℕ → Type 0
  Settled (c, k) = Fits c → IsRegistry c × Answer known c k

  Answer-called :
      (a : NamedStream) (c : Registry) (k : ℕ)
      → Answer known c k
      → Answer known (registered a c) (called h (process_ann a c).1 k)
  Answer-called a c k s =
      let kept : Answer known (registered a c) k = elim s [
        | inl z ↦ inl z
        | inr q ↦ inr (w.grows a c k q)
      ] in
      elim (process_ann-IsCall a c) [
        | inl none_called ↦ rw none_called kept
        | inr (call, it_called, t) ↦ rw it_called (w.calls (registered a c) call k t kept)
      ]

  Settled-called :
      (a : NamedStream) (seqno : ℕ) (c : Registry) (k : ℕ)
      → Settled (c, k)
      → Settled (registered a (processed seqno c), called h (process_ann a (processed seqno c)).1 k)
  Settled-called a seqno c k s f =
      let f' = process_ann-Fits a (processed seqno c) f in
      let (t, answer) = s f' in
      let t' : IsRegistry (processed seqno c) = record { peers = t.peers; channels = t.channels } in
      let answer' : Answer known (processed seqno c) k = elim answer [
        | inl z ↦ inl z
        | inr q ↦ inr (w.counted seqno c ∙ q)
      ] in
      (
        process_ann-IsRegistry a (processed seqno c) f' t',
        Answer-called a (processed seqno c) k answer',
      )

  -- The predicate leaves the same tables whatever the announcement is settled for.
  control_pred_closure :
      (c : Registry) (k : ℕ) (a : AnnData) (s : Streams)
      → (control_pred h (c, k) a s).1 ≡ (
        registered (names_of a s.yamal) (processed a.ann.seqno c),
        called h (process_ann (names_of a s.yamal) (processed a.ann.seqno c)).1 k,
      )
  unfolding control_pred
  control_pred_closure c k a s = ground arith

  control_pred-Settled :
      (c : Registry × ℕ) (a : AnnData) (s : Streams) → Settled c → Settled (control_pred h c a s).1
  control_pred-Settled (c, k) a s p =
      subst Settled (sym (control_pred_closure c k a s))
        (Settled-called (names_of a s.yamal) a.ann.seqno c k p)

  -- The search, and the two around the insertion, keep what is settled.
  abbrev pub left : {X : Type 0} → X × ℕ × Control → Registry × ℕ
  left r = (r.2.registry, r.1)

  process_control_msgs-Settled :
      (fuel k : ℕ) (c : Control)
      → Settled (c.registry, k)
      → Settled (left (process_control_msgs fuel h k c))
  unfolding process_control_msgs
  process_control_msgs-Settled fuel k c p = elim (Bool-cases (h.found c.registry k)) [
    | inl b ↦ rw b p
    | inr b ↦ rw b (
        ytp_streams_search_ann-keeps (control_pred h) Settled control_pred-Settled fuel
          (c.registry, k) (searched c) p)
  ]

  process_known :
      (fuel k : ℕ) (c : Control)
      → h.found c.registry k ≡ true
      → process_control_msgs fuel h k c ≡ (ok tt, k, c)
  unfolding process_control_msgs
  process_known fuel k c f = rw f refl

  insert_between-Settled :
      (first : Result (Unit {0}) × ℕ × Control) (b : Bool) (r : Result (Unit {0}) × Control)
      (again : Result (Unit {0}) × ℕ × Control)
      → Settled (left first)
      → Settled (r.1.registry, first.1)
      → Settled (left again)
      → Settled (left (insert_between first b r again))
  insert_between-Settled (err e, k, c) b r again p q s = p
  insert_between-Settled (hang, k, c) b r again p q s = p
  insert_between-Settled (ok u, k, c) true r again p q s = p
  insert_between-Settled (ok u, k, c) false (err e, c') again p q s = q
  insert_between-Settled (ok u, k, c) false (hang, c') again p q s = q
  insert_between-Settled (ok u, k, c) false (ok v, c') again p q s = s

  pub lookup_or_insert-Settled :
      (fuel k : ℕ) (c : Control)
      → Settled (c.registry, k)
      → Settled (left (lookup_or_insert_ctrl_msg fuel h k c))
  unfolding lookup_or_insert_ctrl_msg
  lookup_or_insert-Settled fuel k c p =
      let first = process_control_msgs fuel h k c in
      let p1 = process_control_msgs-Settled fuel k c p in
      let w1 = h.insert first.2 in
      let p2 : Settled (w1.1.registry, first.1) = rw (w.inserts first.2) p1 in
      let p3 = process_control_msgs-Settled fuel first.1 w1.1 p2 in
      insert_between-Settled first _ w1 _ p1 p2 p3

  -- What is known is answered at once.
  pub lookup_or_insert_known :
      (fuel k : ℕ) (c : Control)
      → is_found k ≡ true
      → lookup_or_insert_ctrl_msg fuel h k c ≡ (ok tt, k, c)
  unfolding lookup_or_insert_ctrl_msg
  lookup_or_insert_known fuel k c b =
      let f : h.found c.registry k ≡ true = w.finds c.registry k ∙ b in
      let first : process_control_msgs fuel h k c ≡ (ok tt, k, c) = process_known fuel k c f in
      rw (first, f) refl
