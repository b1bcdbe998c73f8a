-- ===== src/Message/Index/RoundTrip.antt =====
-- An index message is read as it was written.
use yamal.Base.{
  List, [], arith, false, inl, last_of, length, load_bytes-store_bytes, load_le,
  load_le-store_bytes-Clear, load_le-store_le, load_le-store_le-Clear, ltb, store_bytes, store_le,
  ℕ, ◌++◌, ◌+◌, ◌<◌, ◌∙◌, ◌∷◌, ◌≡◌, ◌≤◌,
}
use yamal.Message.Fields.{add64, load64, stream_list_indx, sub64, text_at}
use yamal.Message.Index.{IndexMessage, idx_msg, ytp_index_read, ytp_index_write}
use yamal.Yamal.Commit.{ytp_yamal_commit}
use yamal.Yamal.Iter.{Message, ytp_yamal_read}
use yamal.Yamal.Publish.{IsFile, published, with_bytes}
use yamal.Yamal.Reserve.{ytp_yamal_reserve}
use yamal.Yamal.Reserve.Bounds.{HasRoom, ytp_yamal_reserve-IsFresh}
use yamal.Yamal.State.{Yamal, head, ok, word}

abbrev pub idx_bytes : ℕ → ℕ → ℕ → List ℕ → (ℕ → ℕ) → ℕ → ℕ
idx_bytes p stream offset payload m =
    store_bytes (p + 16) payload (store_le 8 (p + 8) offset (store_le 8 p stream m))

module _ (p stream offset : ℕ) (payload : List ℕ) (m : ℕ → ℕ) where
  stream_of : stream < word → load_le 8 (idx_bytes p stream offset payload m) p ≡ stream
  stream_of h =
      load_le-store_bytes-Clear 8 p (p + 16) payload _ (inl (omega arith))
      ∙ load_le-store_le-Clear 8 p 8 (p + 8) _ offset (inl (omega arith))
      ∙ load_le-store_le 8 p stream m (omega arith)

  offset_of : offset < word → load_le 8 (idx_bytes p stream offset payload m) (p + 8) ≡ offset
  offset_of h =
      load_le-store_bytes-Clear 8 (p + 8) (p + 16) payload _ (inl (omega arith))
      ∙ load_le-store_le 8 (p + 8) offset _ (omega arith)

ytp_index_write_lem :
    (fuel stream offset : ℕ) (payload : List ℕ) (y y1 : Yamal) (p : ℕ)
    → length payload + 16 < word
    → ytp_yamal_reserve fuel (length payload + 16) y ≡ (ok p, y1)
    → ytp_index_write fuel stream offset payload y
      ≡ ytp_yamal_commit fuel p stream_list_indx
          (with_bytes (idx_bytes p stream offset payload y1.byte) y1)
unfolding ytp_index_write
ytp_index_write_lem fuel stream offset payload y y1 p w e =
    let size : add64 (length payload) 16 ≡ length payload + 16 = omega arith in rw (size, e)

ytp_index_read_lem :
    (it : ℕ) (y : Yamal) (m : Message)
    → ytp_yamal_read it y ≡ (ok m, y)
    → idx_msg ≤ m.size
    → ytp_index_read it y ≡ (
      ok (record {
        seqno = m.seqno;
        stream = load64 m.at y;
        offset = load64 (m.at + 8) y;
        size = sub64 m.size idx_msg;
        at = m.at + idx_msg;
      }),
      y,
    )
unfolding ytp_index_read
ytp_index_read_lem it y m e h = let fine : ltb m.size 16 ≡ false = ground arith in rw (e, fine)

-- What a reader finds at the iterator `it`.
pub record ReadsIndex (it : ℕ) (y : Yamal) (stream offset : ℕ) (payload : List ℕ) : Type 0 where
  pub message : IndexMessage
  pub reads : ytp_index_read it y ≡ (ok message, y)
  pub stream_is : message.stream ≡ stream
  pub offset_is : message.offset ≡ offset
  pub size_is : message.size ≡ length payload
  pub payload_is : text_at message.at (length payload) y ≡ payload

-- With room in the file, fuel beyond the length of the list, and a stream and an offset below 2 ^
-- 64, an index message written on its open list is appended as one node, and ytp_index_read at the
-- returned iterator finds its stream, offset, size and payload; the file's invariant holds again.
pub ytp_index_read-write :
    (fuel stream offset : ℕ) (payload : List ℕ) (y : Yamal) (os : List ℕ)
    → IsFile y stream_list_indx os
    → HasRoom fuel (length payload + 16) y
    → length os < fuel
    → stream < word
    → offset < word
    → (offs : ℕ) × (it : ℕ) × (y' : Yamal) × (ytp_index_write fuel stream offset payload y
        ≡ (ok it, y'))
      × IsFile y' stream_list_indx (os ++ offs ∷ [])
      × ReadsIndex it y' stream offset payload
ytp_index_read-write fuel stream offset payload y os v h f s o =
    let (offs, p, y1, e, fresh) = ytp_yamal_reserve-IsFresh fuel (length payload + 16) y h in
    let q = published (idx_bytes p stream offset payload y1.byte) v fresh fuel f in
    let w : length payload + 16 < word = omega (arith, h.fits) in
    (
      offs,
      last_of (head stream_list_indx) os + 8,
      q.after,
      ytp_index_write_lem fuel stream offset payload y y1 p w e ∙ q.returns,
      q.file,
      record {
        message = _;
        reads = ytp_index_read_lem _ q.after _ q.reads (omega arith);
        stream_is = rw q.bytes (stream_of p stream offset payload y1.byte s);
        offset_is = rw q.bytes (offset_of p stream offset payload y1.byte o);
        size_is = omega (arith, w);
        payload_is = rw q.bytes (load_bytes-store_bytes (p + 16) payload _);
      },
    )
