-- ===== src/Control/Seekers.antt =====
-- The handlers of src/ytp/control.cpp find what the tables say.
use yamal.Base.{
  Bool-cases, Option, Option-cases, arith, inl, inr, refl, some, subst, ℕ, ◌&&◌, ◌==◌, ◌≡◌,
}
use yamal.Control.Answers.{IsSeeker}
use yamal.Control.Decl.{
  channel_at, channel_handler, peer_at, peer_handler, stream_handler, write_names,
}
use yamal.Control.Messages.{Control}
use yamal.Control.Registry.{Name, Registry, StreamKey, key_test, name_test, process_ann}
use yamal.Control.Table.{find}
use yamal.Control.Tables.{find-emplaced}
use yamal.Streams.State.{bytes_equal}
use yamal.Streams.State.Laws.{bytes_equal-≡}

module _ (fuel : ℕ) (name : Name) where
  abbrev pub peer_known : Registry → Option ℕ
  peer_known c = find ⦃e = name_test⦄ name c.name_to_peerid

  pub peer_handler-IsSeeker : IsSeeker (peer_handler fuel name) peer_known
  unfolding peer_handler process_ann write_names
  peer_handler-IsSeeker = record {
    counted = λ s c. refl;
    grows = λ a c k q. find-emplaced ⦃e = name_test⦄ a.peer _ c.name_to_peerid name k q;
    calls = λ c call k t q. elim (Bool-cases (bytes_equal call.peername name)) [
      | inl b ↦
          let same = bytes_equal-≡ call.peername name b in
          rw b (
            inr
              (subst (λ x. find ⦃e = name_test⦄ x c.name_to_peerid ≡ some call.peerid) same t.peer))
      | inr b ↦ rw b q
    ];
    inserts = λ c. refl;
    finds = λ c k. refl;
  }

module _ (fuel peer : ℕ) (name : Name) where
  abbrev pub channel_known : Registry → Option ℕ
  channel_known c = find ⦃e = name_test⦄ name c.name_to_channelid

  pub channel_handler-IsSeeker : IsSeeker (channel_handler fuel peer name) channel_known
  unfolding channel_handler process_ann write_names
  channel_handler-IsSeeker = record {
    counted = λ s c. refl;
    grows = λ a c k q. find-emplaced ⦃e = name_test⦄ a.channel _ c.name_to_channelid name k q;
    calls = λ c call k t q. elim (Bool-cases (bytes_equal call.chname name)) [
      | inl b ↦
          let same = bytes_equal-≡ call.chname name b in
          rw b (
            inr (
              subst (λ x. find ⦃e = name_test⦄ x c.name_to_channelid ≡ some call.channelid) same
                t.channel))
      | inr b ↦ rw b q
    ];
    inserts = λ c. elim (Option-cases (peer_at peer c.registry)) [
      | inl no_peer ↦ rw (no_peer, channel_handler) refl
      | inr (_, there) ↦ rw (there, channel_handler) refl
    ];
    finds = λ c k. refl;
  }

module _ (fuel peer channel : ℕ) where
  abbrev the_key : StreamKey
  the_key = record { peer = peer; channel = channel }

  abbrev pub stream_known : Registry → Option ℕ
  stream_known c = find ⦃e = key_test⦄ the_key c.key_to_streamid

  stream_insert :
      (c : Control) → ((stream_handler fuel peer channel).insert c).1.registry ≡ c.registry
  unfolding stream_handler write_names
  stream_insert c = elim (Option-cases (peer_at peer c.registry)) [
    | inl no_peer ↦ rw (no_peer, stream_handler) refl
    | inr (_, there) ↦ elim (Option-cases (channel_at channel c.registry)) [
      | inl no_channel ↦ rw (there, no_channel, stream_handler) refl
      | inr (_, there') ↦ rw (there, there', stream_handler) refl
    ]
  ]

  pub stream_handler-IsSeeker : IsSeeker (stream_handler fuel peer channel) stream_known
  unfolding stream_handler process_ann
  stream_handler-IsSeeker = record {
    counted = λ s c. refl;
    grows = λ a c k q. find-emplaced ⦃e = key_test⦄ _ a.stream c.key_to_streamid the_key k q;
    calls = λ c call k t q. elim (Bool-cases (call.peerid == peer && call.channelid == channel)) [
      | inl b ↦
          let p : call.peerid ≡ peer = ground (arith, b) in
          let d : call.channelid ≡ channel = ground (arith, b) in
          let same : ◌≡◌ {A = StreamKey} (record { peer = call.peerid; channel = call.channelid })
              the_key =
            rw (p, d) refl in
          rw b (
            inr (
              subst (λ x. find ⦃e = key_test⦄ x c.key_to_streamid ≡ some call.stream) same
                t.stream))
      | inr b ↦ rw b q
    ];
    inserts = stream_insert;
    finds = λ c k. refl;
  }
