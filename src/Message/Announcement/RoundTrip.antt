-- ===== src/Message/Announcement/RoundTrip.antt =====
-- What is announced is what is read, and what a damaged announcement is read as.
use yamal.Base.{
  List, [], arith, false, inl, last_of, length, load_bytes, load_bytes-store_bytes,
  load_bytes-store_bytes-Clear, load_le, load_le-store_bytes-Clear, load_le-store_le,
  load_le-store_le-Clear, load_le_zero, ltb, refl, store_bytes, store_le, ℕ, ◌++◌, ◌+◌, ◌<◌, ◌^◌,
  ◌∙◌, ◌∷◌, ◌≡◌, ◌≤◌,
}
use yamal.Message.Announcement.{
  Announcement, ann_msg, channel_sz_field, original_field, peer_sz_field, subscribed_field,
  ytp_announcement_lookup, ytp_announcement_read, ytp_announcement_write,
}
use yamal.Message.Fields.{add64, int32_max, load32, load64, stream_list_anns, sub64, text_at}
use yamal.Yamal.Commit.{ytp_yamal_commit}
use yamal.Yamal.Iter.{Message, ytp_yamal_read, ytp_yamal_seek}
use yamal.Yamal.Publish.{IsFile, published, with_bytes}
use yamal.Yamal.Reserve.{ytp_yamal_reserve}
use yamal.Yamal.Reserve.Bounds.{HasRoom, ytp_yamal_reserve-IsFresh}
use yamal.Yamal.State.{Error, Yamal, err, head, ok, word}

-- The payload that `ytp_announcement_write` makes.
abbrev pub ann_bytes : ℕ → List ℕ → List ℕ → List ℕ → (ℕ → ℕ) → ℕ → ℕ
ann_bytes p peer channel encoding m = store_bytes (p + 24 + length peer + length channel) encoding (
    store_bytes (p + 24 + length peer) channel (
      store_bytes (p + 24) peer
        (store_le 4 (p + 20) (length channel) (store_le 4 (p + 16) (length peer) m))))

module _ (p : ℕ) (peer channel encoding : List ℕ) (m : ℕ → ℕ) where
  abbrev bytes : ℕ → ℕ
  bytes = ann_bytes p peer channel encoding m

  -- The header lies before the three texts.
  header_of :
      (n a : ℕ)
      → a + n ≤ p + 24
      → load_le n bytes a
        ≡ load_le n (store_le 4 (p + 20) (length channel) (store_le 4 (p + 16) (length peer) m)) a
  header_of n a h =
      load_le-store_bytes-Clear n a _ encoding _ (inl (omega arith))
      ∙ load_le-store_bytes-Clear n a _ channel _ (inl (omega arith))
      ∙ load_le-store_bytes-Clear n a _ peer _ (inl (omega arith))

  psz_of : length peer < 2 ^ 32 → load_le 4 bytes (p + 16) ≡ length peer
  psz_of h =
      header_of 4 (p + 16) (omega arith)
      ∙ load_le-store_le-Clear 4 (p + 16) 4 (p + 20) _ (length channel) (inl (omega arith))
      ∙ load_le-store_le 4 (p + 16) (length peer) m (omega arith)

  csz_of : length channel < 2 ^ 32 → load_le 4 bytes (p + 20) ≡ length channel
  csz_of h =
      header_of 4 (p + 20) (omega arith)
      ∙ load_le-store_le 4 (p + 20) (length channel) _ (omega arith)

  -- The two words that are not written.
  blank_of : (a : ℕ) → a + 8 ≤ p + 16 → load_le 8 bytes a ≡ load_le 8 m a
  blank_of a h =
      header_of 8 a (omega arith)
      ∙ load_le-store_le-Clear 8 a 4 (p + 20) _ (length channel) (inl (omega arith))
      ∙ load_le-store_le-Clear 8 a 4 (p + 16) m (length peer) (inl (omega arith))

  peer_of : load_bytes (length peer) bytes (p + 24) ≡ peer
  peer_of =
      load_bytes-store_bytes-Clear (length peer) (p + 24) _ encoding _ (inl (omega arith))
      ∙ load_bytes-store_bytes-Clear (length peer) (p + 24) _ channel _ (inl (omega arith))
      ∙ load_bytes-store_bytes (p + 24) peer _

  channel_of : load_bytes (length channel) bytes (p + 24 + length peer) ≡ channel
  channel_of =
      load_bytes-store_bytes-Clear (length channel) (p + 24 + length peer) _ encoding _
        (inl (omega arith))
      ∙ load_bytes-store_bytes (p + 24 + length peer) channel _

  encoding_of :
      load_bytes (length encoding) bytes (p + 24 + length peer + length channel) ≡ encoding
  encoding_of = load_bytes-store_bytes (p + 24 + length peer + length channel) encoding _

abbrev pub ann_size : List ℕ → List ℕ → List ℕ → ℕ
ann_size peer channel encoding = length peer + length channel + length encoding + 24

ytp_announcement_write_lem :
    (fuel : ℕ) (peer channel encoding : List ℕ) (y y1 : Yamal) (p : ℕ)
    → length peer ≤ int32_max
    → length channel ≤ int32_max
    → ann_size peer channel encoding < word
    → ytp_yamal_reserve fuel (ann_size peer channel encoding) y ≡ (ok p, y1)
    → ytp_announcement_write fuel peer channel encoding y
      ≡ ytp_yamal_commit fuel p stream_list_anns
          (with_bytes (ann_bytes p peer channel encoding y1.byte) y1)
unfolding ytp_announcement_write
ytp_announcement_write_lem fuel peer channel encoding y y1 p a b w e =
    let size : add64 (add64 (add64 (length peer) (length channel)) (length encoding)) ann_msg
        ≡ ann_size peer channel encoding =
      omega arith in
    let fine : ltb int32_max (length peer) ≡ false = ground arith in
    let fine' : ltb int32_max (length channel) ≡ false = ground arith in rw (fine, fine', size, e)

-- What a reader finds at the iterator `it`.
pub record ReadsAnnouncement (it : ℕ) (y : Yamal) (peer channel encoding : List ℕ) : Type 0 where
  pub ann : Announcement
  pub reads : ytp_announcement_read it y ≡ (ok ann, y)
  pub peer_is : text_at ann.peer ann.psz y ≡ peer
  pub channel_is : text_at ann.channel ann.csz y ≡ channel
  pub encoding_is : text_at ann.encoding ann.esz y ≡ encoding
  pub original_is : load64 ann.original y ≡ 0
  pub subscribed_is : load64 ann.subscribed y ≡ 0

-- The reading of a message whose sizes fit.
abbrev ann_at : Message → ℕ → ℕ → Announcement
ann_at m psz csz = record {
  seqno = m.seqno;
  psz = psz;
  peer = m.at + ann_msg;
  csz = csz;
  channel = m.at + ann_msg + psz;
  esz = sub64 m.size (add64 (add64 psz csz) ann_msg);
  encoding = m.at + ann_msg + psz + csz;
  original = m.at + original_field;
  subscribed = m.at + subscribed_field;
}

ytp_announcement_read_lem :
    (it psz csz : ℕ) (y : Yamal) (m : Message)
    → ytp_yamal_read it y ≡ (ok m, y)
    → load32 (m.at + peer_sz_field) y ≡ psz
    → load32 (m.at + channel_sz_field) y ≡ csz
    → add64 psz csz ≤ m.size
    → ytp_announcement_read it y ≡ (ok (ann_at m psz csz), y)
unfolding ytp_announcement_read
ytp_announcement_read_lem it psz csz y m e a b h =
    let fine : ltb m.size (add64 psz csz) ≡ false = ground arith in rw (e, a, b, fine)

-- The announcement is appended, and found at the iterator behind the last node that was there.
pub ann_written :
    (fuel : ℕ) (peer channel encoding : List ℕ) (y : Yamal) (os : List ℕ)
    → IsFile y stream_list_anns os
    → HasRoom fuel (ann_size peer channel encoding) y
    → length os < fuel
    → (offs : ℕ) × (y' : Yamal) × (ytp_announcement_write fuel peer channel encoding y
        ≡ (ok (last_of (head stream_list_anns) os + 8), y'))
      × IsFile y' stream_list_anns (os ++ offs ∷ [])
      × ReadsAnnouncement (last_of (head stream_list_anns) os + 8) y' peer channel encoding
ann_written fuel peer channel encoding y os v h f =
    let (offs, p, y1, e, fresh) =
      ytp_yamal_reserve-IsFresh fuel (ann_size peer channel encoding) y h in
    let q = published (ann_bytes p peer channel encoding y1.byte) v fresh fuel f in
    let w : ann_size peer channel encoding < word = omega (arith, h.fits) in
    let esz : sub64 (ann_size peer channel encoding)
          (add64 (add64 (length peer) (length channel)) ann_msg)
        ≡ length encoding =
      omega (arith, w) in
    let blank : (a : ℕ) → p ≤ a → a + 8 ≤ p + 16 → load_le 8 y1.byte a ≡ 0 =
      λ a c d. load_le_zero 8 a y1.byte (λ b g k. fresh.cleared b (omega arith) (omega arith)) in
    (
      offs,
      q.after,
      ytp_announcement_write_lem fuel peer channel encoding y y1 p (omega (arith, h.fits))
            (omega (arith, h.fits)) w e
          ∙ q.returns,
      q.file,
      record {
        ann = ann_at _ (length peer) (length channel);
        reads =
            ytp_announcement_read_lem _ (length peer) (length channel) q.after _ q.reads
              (rw q.bytes (psz_of p peer channel encoding y1.byte (omega (arith, h.fits))))
              (rw q.bytes (csz_of p peer channel encoding y1.byte (omega (arith, h.fits))))
              (omega (arith, w));
        peer_is = rw q.bytes (peer_of p peer channel encoding y1.byte);
        channel_is = rw q.bytes (channel_of p peer channel encoding y1.byte);
        encoding_is = rw (esz, q.bytes) (encoding_of p peer channel encoding y1.byte);
        original_is = rw q.bytes (
            blank_of p peer channel encoding y1.byte (p + 0) (omega arith)
            ∙ blank (p + 0) (omega arith) (omega arith));
        subscribed_is = rw q.bytes (
            blank_of p peer channel encoding y1.byte (p + 8) (omega arith)
            ∙ blank (p + 8) (omega arith) (omega arith));
      },
    )

-- With room in the file and fuel beyond the length of the list, an announcement written on its
-- open list is appended as one node, and ytp_announcement_read at the returned iterator finds
-- peer, channel and encoding, not settled and not subscribed; the file's invariant holds again.
pub ytp_announcement_read-write :
    (fuel : ℕ) (peer channel encoding : List ℕ) (y : Yamal) (os : List ℕ)
    → IsFile y stream_list_anns os
    → HasRoom fuel (ann_size peer channel encoding) y
    → length os < fuel
    → (offs : ℕ) × (it : ℕ) × (y' : Yamal) × (ytp_announcement_write fuel peer channel encoding y
        ≡ (ok it, y'))
      × IsFile y' stream_list_anns (os ++ offs ∷ [])
      × ReadsAnnouncement it y' peer channel encoding
ytp_announcement_read-write fuel peer channel encoding y os v h f =
    let (offs, y', e, w, r) = ann_written fuel peer channel encoding y os v h f in
    (offs, last_of (head stream_list_anns) os + 8, y', e, w, r)

-- Of a message that ytp_yamal_read reads, whose size is at least that of the two names but less
-- than that with the header of 24 bytes, all below 2 ^ 64, ytp_announcement_read reports no error,
-- and the size it gives for the encoding exceeds that of the message.
pub ytp_announcement_read-damaged :
    (it psz csz : ℕ) (y : Yamal) (m : Message)
    → ytp_yamal_read it y ≡ (ok m, y)
    → m.size < word
    → load32 (m.at + peer_sz_field) y ≡ psz
    → load32 (m.at + channel_sz_field) y ≡ csz
    → psz + csz ≤ m.size
    → m.size < psz + csz + ann_msg
    → psz + csz + ann_msg < word
    → (ann : Announcement) × (ytp_announcement_read it y ≡ (ok ann, y)) × (m.size < ann.esz)
ytp_announcement_read-damaged it psz csz y m e w f g a b c =
    (ann_at m psz csz, ytp_announcement_read_lem it psz csz y m e f g (omega arith), omega arith)

pub ytp_announcement_lookup-failed :
    (stream : ℕ) (e : Error) (y y' : Yamal)
    → ytp_yamal_seek stream y ≡ (err e, y')
    → ytp_announcement_lookup stream y ≡ (err e, y')
unfolding ytp_announcement_lookup
ytp_announcement_lookup-failed stream e y y' h = rw h refl
