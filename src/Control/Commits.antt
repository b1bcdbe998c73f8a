-- ===== src/Control/Commits.antt =====
-- src/ytp/control.cpp: the stream that a commit goes to.
use yamal.Base.{
  List, Option-cases, [], ap, arith, inl, inr, length, none, refl, some, subst, sym, true, ℕ, ◌<◌,
  ◌∙◌, ◌≡◌, ◌⊎◌,
}
use yamal.Control.Answers.{
  calls_of, channels_after, key_after, keys_after, lookup_or_insert_known, peers_after, the_call,
}
use yamal.Control.Decl.{
  answer, channel_at, commit_to, is_found, none64, on_file, or_none, peer_at, stream_handler,
  write_names, ytp_control_commit_internal,
}
use yamal.Control.Insert.{lookup_or_insert_new, next_stream-bound}
use yamal.Control.Keys.{IsKeyed, Spare, registered-tables}
use yamal.Control.Laws.{is_found_lem, number-name}
use yamal.Control.Messages.{Control, lookup_or_insert_ctrl_msg, processed}
use yamal.Control.Numbers.{emplace-stored, emplace_new, emplace_old}
use yamal.Control.Registry.{
  Name, NamedStream, Registry, StreamKey, channel_off, key_test, name_test, peer_off, process_ann,
}
use yamal.Control.Seekers.{stream_handler-IsSeeker, stream_known}
use yamal.Control.Table.{find}
use yamal.Control.Tables.{IsRegistry, find-emplace, registered}
use yamal.Control.Walk.{IsAtEnd, next_stream}
use yamal.Message.Announcement.RoundTrip.{ann_size}
use yamal.Yamal.Reserve.Bounds.{HasRoom}
use yamal.Yamal.State.{M, ok}

-- The numbers of a known peer and a known channel, and the end of the announcements.
module _ (fuel peer channel : ℕ) (pn cn : Name) (c : Control) (os : List ℕ)
    (t : IsRegistry c.registry) (f : Spare c.registry)
    (p : find ⦃e = name_test⦄ pn c.registry.name_to_peerid ≡ some peer)
    (q : find ⦃e = name_test⦄ cn c.registry.name_to_channelid ≡ some channel) where
  abbrev names : NamedStream
  names = record { peer = pn; channel = cn; stream = next_stream os }

  stream_insert : (stream_handler fuel peer channel).insert c ≡ write_names fuel pn cn c
  unfolding stream_handler peer_at channel_at
  stream_insert =
      let there : peer_at peer c.registry ≡ some pn =
        number-name peer_off peer c.registry.peers c.registry.name_to_peerid pn t.peers
          (omega (arith, f.0)) p in
      let there' : channel_at channel c.registry ≡ some cn =
        number-name channel_off channel c.registry.channels c.registry.name_to_channelid cn
          t.channels (omega (arith, f.1)) q in
      rw (there, there', stream_handler) refl

  same_peer : (peers_after names c.registry).0 ≡ peer
  same_peer = ap (λ z. z.0) (emplace_old ⦃e = name_test⦄ pn _ peer c.registry.name_to_peerid p)

  same_channel : (channels_after names c.registry).0 ≡ channel
  same_channel =
      ap (λ z. z.0) (emplace_old ⦃e = name_test⦄ cn _ channel c.registry.name_to_channelid q)

  abbrev pub the_key : StreamKey
  the_key = record { peer = peer; channel = channel }

  same_key : key_after names c.registry ≡ the_key
  same_key = rw (same_peer, same_channel) refl

  module _ (fresh : find ⦃e = key_test⦄ the_key c.registry.key_to_streamid ≡ none) where
    stream_stored : (keys_after names c.registry).1 ≡ true
    stream_stored =
        ap (λ z. z.1)
          (emplace_new ⦃e = key_test⦄ (key_after names c.registry) (next_stream os)
            c.registry.key_to_streamid
            (ap (λ x. find ⦃e = key_test⦄ x c.registry.key_to_streamid) same_key ∙ fresh))

    stream_called : (process_ann names c.registry).1 ≡ some (the_call names c.registry)
    unfolding process_ann
    stream_called = ap (λ b. calls_of b (the_call names c.registry)) stream_stored

    stream_hit :
        (stream_handler fuel peer channel).on_stream (the_call names c.registry) none64
        ≡ next_stream os
    unfolding stream_handler
    stream_hit = ground (arith, same_peer, same_channel)

    stream_known_after :
        (seqno : ℕ)
        → find ⦃e = key_test⦄ the_key
            (registered names (processed seqno c.registry)).key_to_streamid
          ≡ some (next_stream os)
    unfolding process_ann
    stream_known_after seqno =
        subst (λ x. find ⦃e = key_test⦄ x (keys_after names c.registry).2 ≡ some (next_stream os))
          same_key
          (find-emplace ⦃e = key_test⦄ (key_after names c.registry) (next_stream os)
              c.registry.key_to_streamid
            ∙ ap some (
                emplace-stored ⦃e = key_test⦄ (key_after names c.registry) (next_stream os)
                  c.registry.key_to_streamid stream_stored))

-- What the lookup found is what is committed to.
commit_done :
    {A : Type 0} (fuel peer channel at_first k : ℕ) (commit : ℕ → M A) (c c1 : Control)
    → or_none
        (find ⦃e = key_test⦄ (record { peer = peer; channel = channel }) c.registry.key_to_streamid)
      ≡ at_first
    → lookup_or_insert_ctrl_msg fuel (stream_handler fuel peer channel) at_first c ≡ (ok tt, k, c1)
    → ytp_control_commit_internal fuel peer channel commit c ≡ on_file (commit k) c1
unfolding ytp_control_commit_internal
commit_done fuel peer channel at_first k commit c c1 q e =
    ap
      (λ n.
        commit_to (answer (lookup_or_insert_ctrl_msg fuel (stream_handler fuel peer channel) n c))
          commit)
      q
    ∙ ap (λ r. commit_to (answer r) commit) e

-- What ytp_control_commit_internal does: the call of `commit` with a stream, the one of the numbers
-- in the tables that it leaves, which is the one that was there, or that of a new announcement.
module _ {A : Type 0} (fuel peer channel : ℕ) (commit : ℕ → M A) (c : Control) (os : List ℕ) where
  abbrev pub key_here : StreamKey
  key_here = record { peer = peer; channel = channel }

  abbrev pub CommitsTo : ℕ → Control → Type 0
  CommitsTo stream c1 =
      (ytp_control_commit_internal fuel peer channel commit c ≡ on_file (commit stream) c1)
      × (find ⦃e = key_test⦄ key_here c1.registry.key_to_streamid ≡ some stream)
      × IsRegistry c1.registry
      × IsKeyed c1.registry
      × (((find ⦃e = key_test⦄ key_here c.registry.key_to_streamid ≡ some stream) × (c1 ≡ c))
          ⊎ ((find ⦃e = key_test⦄ key_here c.registry.key_to_streamid ≡ none)
              × (stream ≡ next_stream os)))

  commits_known :
      (s : ℕ)
      → IsRegistry c.registry
      → IsKeyed c.registry
      → find ⦃e = key_test⦄ key_here c.registry.key_to_streamid ≡ some s
      → CommitsTo s c
  commits_known s t v old =
      let known =
        lookup_or_insert_known (stream_handler fuel peer channel) (stream_known fuel peer channel)
          (stream_handler-IsSeeker fuel peer channel) fuel s c
          (is_found_lem s (omega (arith, v.stream key_here s old))) in
      (
        commit_done fuel peer channel s s commit c c (ap or_none old) known,
        old,
        t,
        v,
        inl (old, refl),
      )

-- When the announcements have all been read, the file has room and the numbers are those of a
-- known peer and a known channel, fuel beyond the number of announcements is enough for
-- ytp_control_commit_internal to call `commit`, from tables in which the names have the numbers
-- from 256 on in order, none stands twice, the streams belong to numbers that are given, and there
-- is a number for one more peer and channel: its result is that of the call with the one stream
-- that the tables which it leaves have for the two numbers, and these are of that form again. If
-- there was a stream for them, it is that one and nothing has changed before the call; if there
-- was none, it is the offset of the node behind which the announcement is written.
pub ytp_control_commit_internal-announces :
    {A : Type 0} (fuel peer channel : ℕ) (commit : ℕ → M A) (c : Control) (os : List ℕ)
    (pn cn : Name)
    → IsRegistry c.registry
    → IsKeyed c.registry
    → Spare c.registry
    → find ⦃e = name_test⦄ pn c.registry.name_to_peerid ≡ some peer
    → find ⦃e = name_test⦄ cn c.registry.name_to_channelid ≡ some channel
    → IsAtEnd c os
    → HasRoom fuel (ann_size pn cn []) c.yamal
    → length os < fuel
    → (stream : ℕ) × (c1 : Control) × CommitsTo fuel peer channel commit c os stream c1
ytp_control_commit_internal-announces fuel peer channel commit c os pn cn t v f p q w room enough =
    elim (Option-cases (
      find ⦃e = key_test⦄ (record { peer = peer; channel = channel }) c.registry.key_to_streamid)) [
        | inr (s, old) ↦ (s, c, commits_known fuel peer channel commit c os s t v old)
        | inl fresh ↦
            let b = next_stream-bound c.yamal os fuel _ w.file room in
            let hit = stream_hit fuel peer channel pn cn c os t f p q fresh in
            let a = names fuel peer channel pn cn c os t f p q in
            let (c1, seqno, e, r) =
              lookup_or_insert_new fuel (stream_handler fuel peer channel)
                (stream_handler-IsSeeker fuel peer channel).finds c os pn cn (the_call a c.registry)
                w room enough (stream_insert fuel peer channel pn cn c os t f p q)
                (stream_called fuel peer channel pn cn c os t f p q fresh)
                (ap is_found hit ∙ is_found_lem (next_stream os) (omega (arith, b))) in
            let (fits, t', v') = registered-tables a c.registry seqno t v f b in
            (
              next_stream os,
              c1,
              (
                commit_done fuel peer channel none64 _ commit c c1 (ap or_none fresh) e
                    ∙ ap (λ k. on_file (commit k) c1) hit,
                ap
                      (λ (x : Registry).
                        find ⦃e = key_test⦄ (record { peer = peer; channel = channel })
                          x.key_to_streamid)
                      r
                    ∙ stream_known_after fuel peer channel pn cn c os t f p q fresh seqno,
                subst IsRegistry (sym r) t',
                subst IsKeyed (sym r) v',
                inr (fresh, refl),
              ),
            )
      ]
