-- ===== src/Message/Subscription/RoundTrip.antt =====
-- A subscription is read as it was written, and the mark of a subscription is set once.
use yamal.Base.{
  List, [], arith, false, last_of, length, load_le, load_le-store_le, refl, store_le, true, ℕ, ◌++◌,
  ◌+◌, ◌<◌, ◌==◌, ◌∙◌, ◌∷◌, ◌≡◌, ◌≢◌,
}
use yamal.Message.Announcement.{ytp_announcement_lookup}
use yamal.Message.Fields.{load64, stream_list_subs}
use yamal.Message.Subscription.{
  SubMessage, cas_word, ytp_subscription_commit, ytp_subscription_read, ytp_subscription_write,
}
use yamal.Yamal.Commit.{ytp_yamal_commit}
use yamal.Yamal.Iter.{Message, ytp_yamal_read}
use yamal.Yamal.Publish.{IsFile, published, with_bytes}
use yamal.Yamal.Reserve.{ytp_yamal_reserve}
use yamal.Yamal.Reserve.Bounds.{HasRoom, ytp_yamal_reserve-IsFresh}
use yamal.Yamal.State.{Error, Yamal, err, head, ok, word}

ytp_subscription_write_lem :
    (fuel stream : ℕ) (y y1 : Yamal) (p : ℕ)
    → ytp_yamal_reserve fuel 8 y ≡ (ok p, y1)
    → ytp_subscription_write fuel stream y
      ≡ ytp_yamal_commit fuel p stream_list_subs (with_bytes (store_le 8 p stream y1.byte) y1)
unfolding ytp_subscription_write
ytp_subscription_write_lem fuel stream y y1 p e = rw e

ytp_subscription_read_lem :
    (it : ℕ) (y : Yamal) (m : Message)
    → ytp_yamal_read it y ≡ (ok m, y)
    → m.size ≡ 8
    → ytp_subscription_read it y ≡ (ok (record { seqno = m.seqno; stream = load64 m.at y }), y)
unfolding ytp_subscription_read
ytp_subscription_read_lem it y m e h =
    let fine : (m.size == 8) ≡ true = ground arith in rw (e, fine)

-- With room in the file, fuel beyond the length of the list, and a stream below 2 ^ 64, a
-- subscription written on its open list is appended as one node, and ytp_subscription_read at the
-- returned iterator finds the stream; the file's invariant holds again.
pub ytp_subscription_read-write :
    (fuel stream : ℕ) (y : Yamal) (os : List ℕ)
    → IsFile y stream_list_subs os
    → HasRoom fuel 8 y
    → length os < fuel
    → stream < word
    → (offs : ℕ) × (it : ℕ) × (y' : Yamal) × (m : SubMessage) × (ytp_subscription_write fuel stream
          y
        ≡ (ok it, y'))
      × IsFile y' stream_list_subs (os ++ offs ∷ [])
      × (ytp_subscription_read it y' ≡ (ok m, y'))
      × (m.stream ≡ stream)
ytp_subscription_read-write fuel stream y os v h f s =
    let (offs, p, y1, e, fresh) = ytp_yamal_reserve-IsFresh fuel 8 y h in
    let q = published (store_le 8 p stream y1.byte) v fresh fuel f in
    (
      offs,
      last_of (head stream_list_subs) os + 8,
      q.after,
      _,
      ytp_subscription_write_lem fuel stream y y1 p e ∙ q.returns,
      q.file,
      ytp_subscription_read_lem _ q.after _ q.reads refl,
      rw q.bytes (load_le-store_le 8 p stream y1.byte (omega arith)),
    )

-- Of two attempts to mark a word that is 0, with different values below 2 ^ 64 for the first and
-- not 0, the first succeeds and its value is read, and the second fails and changes nothing.
pub cas_word-once :
    (a first second : ℕ) (y : Yamal)
    → load64 a y ≡ 0
    → first < word
    → first ≢ 0
    → first ≢ second
    → (y' : Yamal) × (cas_word a first y ≡ (ok true, y'))
      × (load64 a y' ≡ first)
      × (cas_word a second y' ≡ (ok false, y'))
unfolding cas_word
cas_word-once a first second y e w z d =
    let stored : load_le 8 (store_le 8 a first y.byte) a ≡ first =
      load_le-store_le 8 a first y.byte (omega arith) in
    (with_bytes (store_le 8 a first y.byte) y, rw e, stored, rw stored (ground arith))

pub ytp_subscription_commit-failed :
    (fuel stream : ℕ) (e : Error) (y y' : Yamal)
    → y.readonly ≡ false
    → ytp_announcement_lookup stream y ≡ (err e, y')
    → ytp_subscription_commit fuel stream y ≡ (err e, y')
unfolding ytp_subscription_commit
ytp_subscription_commit-failed fuel stream e y y' r h = ground (arith, r, h)
