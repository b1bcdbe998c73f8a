-- ===== src/Control/Declares.antt =====
-- src/ytp/control.cpp: the declaration of a new peer, and of a known one.
use yamal.Base.{
  Bool, List, Option-cases, [], ap, arith, if◌then◌else◌, inl, inr, length, none, refl, some, subst,
  sym, true, ℕ, ◌++◌, ◌+◌, ◌<◌, ◌∙◌, ◌∷◌, ◌≡◌,
}
use yamal.Control.Answers.{calls_of, key_after, keys_after, the_call}
use yamal.Control.Decl.{
  answer, is_found, none64, or_none, peer_handler, write_names, ytp_control_peer_decl,
  ytp_control_peer_name,
}
use yamal.Control.Insert.{lookup_or_insert_new, next_stream-bound}
use yamal.Control.Keys.{IsKeyed, Spare, inserted_fresh, registered-tables}
use yamal.Control.Laws.{is_found_lem, ytp_control_peer_decl-name}
use yamal.Control.Messages.{Control, lookup_or_insert_ctrl_msg, processed}
use yamal.Control.Numbers.{emplace_new}
use yamal.Control.Registry.{Name, NamedStream, Registry, key_test, name_test, peer_off, process_ann}
use yamal.Control.Seekers.{peer_handler-IsSeeker}
use yamal.Control.Table.{find}
use yamal.Control.Tables.{Fits, IsRegistry, inserted, registered}
use yamal.Control.Walk.{IsAtEnd, next_stream}
use yamal.Message.Announcement.RoundTrip.{ann_size}
use yamal.Streams.State.{bytes_equal}
use yamal.Streams.State.Laws.{bytes_equal_iff}
use yamal.Yamal.Reserve.Bounds.{HasRoom}
use yamal.Yamal.State.{ok}

-- The announcement of a peer has no channel.
abbrev new_peer : Name → List ℕ → NamedStream
new_peer name os = record { peer = name; channel = []; stream = next_stream os }

-- The name is not announced yet, and every announcement has been read.
module _ (fuel : ℕ) (name : Name) (c : Control) (os : List ℕ) (t : IsRegistry c.registry)
    (v : IsKeyed c.registry) (f : Spare c.registry)
    (fresh : find ⦃e = name_test⦄ name c.registry.name_to_peerid ≡ none) where
  abbrev next_peer : ℕ
  next_peer = peer_off + length c.registry.peers

  peer_inserted :
      inserted ⦃e = name_test⦄ peer_off name c.registry.name_to_peerid
      ≡ (next_peer, true, c.registry.name_to_peerid ++ (name, next_peer) ∷ [])
  peer_inserted =
      inserted_fresh ⦃e = name_test⦄ peer_off c.registry.peers c.registry.name_to_peerid name
        t.peers (omega (arith, f.0)) fresh

  -- No stream belongs to the number of a new peer.
  key_fresh :
      find ⦃e = key_test⦄ (key_after (new_peer name os) c.registry) c.registry.key_to_streamid
      ≡ none
  key_fresh =
      elim (Option-cases (
        find ⦃e = key_test⦄ (key_after (new_peer name os) c.registry) c.registry.key_to_streamid)) [
          | inl q ↦ q
          | inr (s, q) ↦
              let n : (key_after (new_peer name os) c.registry).peer ≡ next_peer =
                ap (λ z. z.0) peer_inserted in
              absurd (omega (arith, n, v.peer (key_after (new_peer name os) c.registry) s q))
        ]

  peer_called :
      (process_ann (new_peer name os) c.registry).1 ≡ some (the_call (new_peer name os) c.registry)
  unfolding process_ann
  peer_called =
      let b : (keys_after (new_peer name os) c.registry).1 ≡ true =
        ap (λ z. z.1)
          (emplace_new ⦃e = key_test⦄ (key_after (new_peer name os) c.registry) (next_stream os)
            c.registry.key_to_streamid key_fresh) in
      ap (λ b. calls_of b (the_call (new_peer name os) c.registry)) b

  peer_hit :
      (peer_handler fuel name).on_stream (the_call (new_peer name os) c.registry) none64 ≡ next_peer
  unfolding peer_handler
  peer_hit =
      let b : bytes_equal name name ≡ true = (bytes_equal_iff name name).1 refl in
      rw b (ap (λ z. z.0) peer_inserted)

  peers_after_lem :
      (seqno : ℕ)
      → (registered (new_peer name os) (processed seqno c.registry)).peers
        ≡ c.registry.peers ++ name ∷ []
  unfolding process_ann
  peers_after_lem seqno =
      ap (λ (b : Bool). if b then c.registry.peers ++ name ∷ [] else c.registry.peers)
        (ap (λ z. z.1) peer_inserted)

peer_insert :
    (fuel : ℕ) (name : Name) (c : Control)
    → (peer_handler fuel name).insert c ≡ write_names fuel name [] c
unfolding peer_handler
peer_insert fuel name c = refl

-- The lookup's number is returned.
decl_done :
    (fuel : ℕ) (name : Name) (c c' : Control) (j k : ℕ)
    → find ⦃e = name_test⦄ name c.registry.name_to_peerid ≡ none
    → lookup_or_insert_ctrl_msg fuel (peer_handler fuel name) none64 c ≡ (ok tt, j, c')
    → j ≡ k
    → ytp_control_peer_decl fuel name c ≡ (ok k, c')
unfolding ytp_control_peer_decl
decl_done fuel name c c' j k fresh e q =
    ap (λ n. answer (lookup_or_insert_ctrl_msg fuel (peer_handler fuel name) (or_none n) c)) fresh
    ∙ ap answer e
    ∙ ap (λ n. (ok n, c')) q

-- When the announcements have all been read and the file has room, fuel beyond their number is
-- enough for ytp_control_peer_decl to declare a name that has no number, from tables in which the
-- names have the numbers from 256 on in order, none stands twice, the streams belong to numbers
-- that are given, and there is a number for one more peer and channel: it returns the next number,
-- the name is added behind the peers, ytp_control_peer_name gives it for that number, a second
-- declaration returns the same number and changes nothing, and the tables are of that form again.
pub ytp_control_peer_decl-new :
    (fuel : ℕ) (name : Name) (c : Control) (os : List ℕ)
    → IsRegistry c.registry
    → IsKeyed c.registry
    → Spare c.registry
    → find ⦃e = name_test⦄ name c.registry.name_to_peerid ≡ none
    → IsAtEnd c os
    → HasRoom fuel (ann_size name [] []) c.yamal
    → length os < fuel
    → (c' : Control) × (ytp_control_peer_decl fuel name c
        ≡ (ok (peer_off + length c.registry.peers), c'))
      × (c'.registry.peers ≡ c.registry.peers ++ name ∷ [])
      × (ytp_control_peer_name c' (peer_off + length c.registry.peers) ≡ ok name)
      × (ytp_control_peer_decl fuel name c' ≡ (ok (peer_off + length c.registry.peers), c'))
      × IsRegistry c'.registry
      × IsKeyed c'.registry
ytp_control_peer_decl-new fuel name c os t v f fresh w room enough =
    let (c', seqno, e, q) =
      lookup_or_insert_new fuel (peer_handler fuel name) (peer_handler-IsSeeker fuel name).finds c
        os name [] (the_call (new_peer name os) c.registry) w room enough (peer_insert fuel name c)
        (peer_called fuel name c os t v f fresh)
        (ap is_found (peer_hit fuel name c os t v f fresh) ∙ is_found_lem _ (omega (arith, f.0))) in
    let done = decl_done fuel name c c' _ _ fresh e (peer_hit fuel name c os t v f fresh) in
    let (fits, t', v') =
      registered-tables (new_peer name os) c.registry seqno t v f
        (next_stream-bound c.yamal os fuel _ w.file room) in
    let (n, again, t2) =
      ytp_control_peer_decl-name fuel name c c' (peer_off + length c.registry.peers) t done
        (subst Fits (sym q) fits) (omega (arith, f.0)) in
    (
      c',
      done,
      ap (λ (r : Registry). r.peers) q ∙ peers_after_lem fuel name c os t v f fresh seqno,
      n,
      again,
      t2,
      subst IsKeyed (sym q) v',
    )
