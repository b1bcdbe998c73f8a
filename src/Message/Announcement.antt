-- ===== src/Message/Announcement.antt =====
-- src/ytp/announcement.c: a peer announces a stream for a channel, with an encoding.
pub mod RoundTrip
use yamal.Base.{List, Option, if◌then◌else◌, length, ltb, none, not, some, suc, zero, ℕ, ◌+◌, ◌==◌}
use yamal.Message.Fields.{
  add64, int32_max, load32, load64, memcpy, store32, stream_list_anns, sub64,
}
use yamal.Yamal.Commit.{ytp_yamal_commit}
use yamal.Yamal.Iter.{
  Message, ytp_yamal_begin, ytp_yamal_next, ytp_yamal_read, ytp_yamal_seek, ytp_yamal_tell,
  ytp_yamal_term,
}
use yamal.Yamal.Reserve.{ytp_yamal_reserve}
use yamal.Yamal.State.{
  M, Result, Yamal, channel_too_long, err, gets, hang, invalid_announcement, ok, peer_too_long,
  pure, require, ◌>>=◌, ◌>>◌,
}

-- sizeof(struct ann_msg_t), and the offsets of its fields.
abbrev pub ann_msg : ℕ
ann_msg = 24

abbrev pub original_field : ℕ
original_field = 0

abbrev pub subscribed_field : ℕ
subscribed_field = 8

abbrev pub peer_sz_field : ℕ
peer_sz_field = 16

abbrev pub channel_sz_field : ℕ
channel_sz_field = 20

pub ytp_announcement_write : ℕ → List ℕ → List ℕ → List ℕ → M ℕ
ytp_announcement_write fuel peer channel encoding = do
  require (not (ltb int32_max (length peer))) peer_too_long
  require (not (ltb int32_max (length channel))) channel_too_long
  msg ←
      ytp_yamal_reserve fuel
        (add64 (add64 (add64 (length peer) (length channel)) (length encoding)) ann_msg)
  store32 (msg + peer_sz_field) (length peer)
  store32 (msg + channel_sz_field) (length channel)
  memcpy (msg + ann_msg) peer
  memcpy (msg + ann_msg + length peer) channel
  memcpy (msg + ann_msg + length peer + length channel) encoding
  ytp_yamal_commit fuel msg stream_list_anns

-- What `ytp_announcement_read` stores. `original` and `subscribed` are the addresses of the fields.
pub record Announcement : Type 0 where
  pub seqno : ℕ
  pub psz : ℕ
  pub peer : ℕ
  pub csz : ℕ
  pub channel : ℕ
  pub esz : ℕ
  pub encoding : ℕ
  pub original : ℕ
  pub subscribed : ℕ

-- The message that a node's payload stands for; the size of the header is not part of the test.
unfoldable pub announcement_of : Message → Yamal → Result Announcement × Yamal
announcement_of m y =
    let psz = load32 (m.at + peer_sz_field) y in
    let csz = load32 (m.at + channel_sz_field) y in
    if ltb m.size (add64 psz csz) then (err invalid_announcement, y) else (
      ok (record {
        seqno = m.seqno;
        psz = psz;
        peer = m.at + ann_msg;
        csz = csz;
        channel = m.at + ann_msg + psz;
        esz = sub64 m.size (add64 (add64 psz csz) ann_msg);
        encoding = m.at + ann_msg + psz + csz;
        original = m.at + original_field;
        subscribed = m.at + subscribed_field;
      }),
      y,
    )

unfoldable pub ytp_announcement_read : ℕ → M Announcement
unfolding announcement_of
ytp_announcement_read it = do m ← ytp_yamal_read it; announcement_of m

pub ytp_announcement_lookup : ℕ → M Announcement
ytp_announcement_lookup stream = do it ← ytp_yamal_seek stream; ytp_announcement_read it

pub ytp_announcement_begin : M ℕ
ytp_announcement_begin = ytp_yamal_begin stream_list_anns

-- The stream that an announcement is for, with the announcement.
pub record Announced : Type 0 where
  pub stream : ℕ
  pub ann : Announcement

-- The loop of ytp_announcement_next: the iterator that it leaves, and what it found. An
-- announcement that is not yet settled stops it; one that repeats another stream is passed over.
pub ytp_announcement_next : ℕ → ℕ → M (ℕ × Option Announced)
ytp_announcement_next zero it y = (hang, y)
ytp_announcement_next (suc fuel) it y =
    let more = (do
      ann ← ytp_announcement_read it
      original ← gets (load64 ann.original)
      if original == 0 then pure (it, none) else do
        stream ← ytp_yamal_tell it
        it' ← ytp_yamal_next it
        let rest = ytp_announcement_next fuel it'
        if original == stream
            then pure (it', some (record { stream = stream; ann = ann }))
            else rest) in
    if ytp_yamal_term it y then (ok (it, none), y) else more y
