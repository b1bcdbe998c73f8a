-- ===== src/Control/Insert.antt =====
-- src/ytp/control.cpp: lookup_or_insert_ctrl_msg at the end of the announcements: what is inserted is what
-- the second walk reads.
use yamal.Base.{
  List, [], ap, arith, false, length, refl, some, suc, true, zero, ℕ, ◌++◌, ◌+◌, ◌<◌, ◌∙◌, ◌∷◌, ◌≡◌,
}
use yamal.Control.Decl.{is_found, none64, write_names}
use yamal.Control.Messages.{
  Control, Handler, lookup_or_insert_ctrl_msg, names_of, process_control_msgs, processed,
}
use yamal.Control.Registry.{Name, NamedStream, OnStream, Registry, process_ann}
use yamal.Control.Tables.{registered}
use yamal.Control.Walk.{IsAtEnd, next_stream, process_at_end, process_new}
use yamal.Cursor.Array.{hit}
use yamal.Message.Announcement.{ytp_announcement_write}
use yamal.Message.Announcement.RoundTrip.{ReadsAnnouncement, ann_size, ann_written}
use yamal.Message.Fields.{stream_list_anns}
use yamal.Yamal.Chain.{Nexts-drop}
use yamal.Yamal.Iter.{ytp_yamal_term}
use yamal.Yamal.Iter.Laws.{ytp_yamal_next_lem, ytp_yamal_tell_lem, ytp_yamal_term_lem}
use yamal.Yamal.Publish.{IsFile, last_of-Below, with_bytes}
use yamal.Yamal.Reserve.Bounds.{HasRoom}
use yamal.Yamal.State.{Result, Yamal, head, ok}

-- The next stream is an offset of the file.
pub next_stream-bound :
    (y : Yamal) (os : List ℕ) (fuel sz : ℕ)
    → IsFile y stream_list_anns os
    → HasRoom fuel sz y
    → next_stream os < none64
next_stream-bound y os fuel sz v room =
    let b = last_of-Below y.reserved (head stream_list_anns) os (omega (arith, v.behind)) v.below in
    omega (arith, b, room.limit)

-- The number of the announcement is not part of what the handler is told.
called_processed :
    (a : NamedStream) (seqno : ℕ) (c : Registry)
    → (process_ann a (processed seqno c)).1 ≡ (process_ann a c).1
unfolding process_ann
called_processed a seqno c = refl

write_names_lem :
    (fuel it : ℕ) (peer channel : Name) (c : Control) (y' : Yamal)
    → ytp_announcement_write fuel peer channel [] c.yamal ≡ (ok it, y')
    → write_names fuel peer channel c ≡ (ok tt, record c { yamal = y' })
unfolding write_names
write_names_lem fuel it peer channel c y' e = rw e refl

-- The first walk finds nothing, the names are written, and the second walk ends.
between_lem :
    (fuel k : ℕ) (h : Handler ℕ) (c c2 c' : Control)
    → process_control_msgs fuel h none64 c ≡ (ok tt, none64, c)
    → h.found c.registry none64 ≡ false
    → h.insert c ≡ (ok tt, c2)
    → process_control_msgs fuel h none64 c2 ≡ (ok tt, k, c')
    → lookup_or_insert_ctrl_msg fuel h none64 c ≡ (ok tt, k, c')
unfolding lookup_or_insert_ctrl_msg
between_lem fuel k h c c2 c' first missing insert second = rw (first, missing, insert, second) refl

positive : (n : ℕ) → 0 < n → (m : ℕ) × (n ≡ suc m)
positive zero h = absurd (omega (arith, h))
positive (suc m) h = (m, refl)

module _ (fuel : ℕ) (h : Handler ℕ) (finds : (r : Registry) (k : ℕ) → h.found r k ≡ is_found k)
    (c : Control) (os : List ℕ) (peer channel : Name) (call : OnStream) where
  abbrev pub announced : NamedStream
  announced = record { peer = peer; channel = channel; stream = next_stream os }

  -- The control that the second walk starts with.
  abbrev pub behind_write : Yamal → Control
  behind_write y = record { yamal = y; anns = next_stream os + 8; registry = c.registry }

  abbrev Finds : Result (Unit {0}) × ℕ × Control → Type 0
  Finds r =
      (c' : Control) × (seqno : ℕ) × (r ≡ (ok tt, h.on_stream call none64, c'))
      × (c'.registry ≡ registered announced (processed seqno c.registry))

  module _ (offs : ℕ) (y : Yamal) (w : IsFile y stream_list_anns (os ++ offs ∷ []))
      (r : ReadsAnnouncement (next_stream os + 8) y peer channel [])
      (it_called : (process_ann announced c.registry).1 ≡ some call)
      (hit : is_found (h.on_stream call none64) ≡ true) where
    names_lem :
        ◌≡◌ {A = NamedStream}
          (names_of (record { ann = r.ann; stream = next_stream os }) y)
          announced
    names_lem = rw (r.peer_is, r.channel_is) refl

    -- The second walk reads what was written.
    second_walk : (n : ℕ) → Finds (process_control_msgs (suc n) h none64 (behind_write y))
    second_walk n =
        let here =
          Nexts-drop y.pages y.node (head stream_list_anns) os (offs ∷ []) 0 w.open'.list.nexts in
        let more : ytp_yamal_term (next_stream os + 8) y ≡ false =
          ytp_yamal_term_lem y (next_stream os) ∙ ground (arith, here.0, here.1) in
        let told : (process_ann (names_of (record { ann = r.ann; stream = next_stream os }) y)
              (processed r.ann.seqno c.registry)).1
            ≡ some call =
          ap (λ a. (process_ann a (processed r.ann.seqno c.registry)).1) names_lem
          ∙ called_processed announced r.ann.seqno c.registry
          ∙ it_called in
        let (c', e, q) =
          process_new h finds (behind_write y) r.ann (next_stream os) (offs + 8) call more r.reads
            (ytp_yamal_tell_lem y stream_list_anns (offs ∷ []) 0 os w.open'.list)
            (λ b. ytp_yamal_next_lem (with_bytes b y) (next_stream os) here.0 here.2) r.original_is
            told hit n in
        (
          c',
          r.ann.seqno,
          e,
          q ∙ ap (λ a. registered a (processed r.ann.seqno c.registry)) names_lem,
        )

  -- When the handler is called for the names, and takes what it is told, the lookup ends without an
  -- error, and the tables are those with the new announcement.
  pub lookup_or_insert_new :
      IsAtEnd c os
      → HasRoom fuel (ann_size peer channel []) c.yamal
      → length os < fuel
      → h.insert c ≡ write_names fuel peer channel c
      → (process_ann announced c.registry).1 ≡ some call
      → is_found (h.on_stream call none64) ≡ true
      → Finds (lookup_or_insert_ctrl_msg fuel h none64 c)
  lookup_or_insert_new v room f inserts it_called hit =
      let (offs, y', e, w, r) = ann_written fuel peer channel [] c.yamal os v.file room f in
      let insert =
        inserts
        ∙ write_names_lem fuel (next_stream os + 8) peer channel c y' e
        ∙ ap (λ n. (ok tt, record c { yamal = y'; anns = n })) v.at_end in
      let (n, enough) = positive fuel (omega (arith, f)) in
      let (c', seqno, e', q) = second_walk offs y' w r it_called hit n in
      let again : process_control_msgs fuel h none64 (behind_write y')
          ≡ (ok tt, h.on_stream call none64, c') =
        ap (λ m. process_control_msgs m h none64 (behind_write y')) enough ∙ e' in
      let first : process_control_msgs fuel h none64 c ≡ (ok tt, none64, c) =
        ap (λ m. process_control_msgs m h none64 c) enough ∙ process_at_end h finds n c os v in
      (
        c',
        seqno,
        between_lem fuel (h.on_stream call none64) h c (behind_write y') c' first
            (finds c.registry none64) insert again,
        q,
      )
