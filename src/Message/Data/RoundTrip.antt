-- ===== src/Message/Data/RoundTrip.antt =====
-- What is published on the data list is what is read from it.
use yamal.Base.{
  List, [], arith, inr, last_of, length, load_bytes, load_bytes-store_bytes,
  load_bytes-store_le-Clear, load_le, load_le-store_le, load_le-store_le-Clear, store_bytes,
  store_le, ℕ, ◌++◌, ◌+◌, ◌-◌, ◌<◌, ◌∙◌, ◌∷◌, ◌≡◌,
}
use yamal.Message.Data.{DataMessage, ytp_data_commit, ytp_data_read, ytp_data_reserve}
use yamal.Message.Fields.{add64, load64, memcpy, stream_list_data, sub64, text_at}
use yamal.Yamal.Commit.{ytp_yamal_commit}
use yamal.Yamal.Iter.{Message, ytp_yamal_read}
use yamal.Yamal.Publish.{IsFile, published, with_bytes}
use yamal.Yamal.Reserve.{ytp_yamal_reserve}
use yamal.Yamal.Reserve.Bounds.{HasRoom, ytp_yamal_reserve-IsFresh}
use yamal.Yamal.State.{M, Yamal, head, ok, word, ◌>>=◌, ◌>>◌}

-- How a client writes: tests/ytp/yamal.cpp and include/ytp/data.h.
pub publish_data : ℕ → ℕ → ℕ → List ℕ → M ℕ
publish_data fuel ts stream xs = do
  p ← ytp_data_reserve fuel (length xs)
  memcpy p xs
  ytp_data_commit fuel ts stream p

-- The payload that the three writers make.
abbrev pub data_bytes : ℕ → ℕ → ℕ → List ℕ → (ℕ → ℕ) → ℕ → ℕ
data_bytes p ts stream xs m =
    store_le 8 p ts (store_le 8 (p + 8) stream (store_bytes (p + 16) xs m))

publish_data_lem :
    (fuel ts stream : ℕ) (xs : List ℕ) (y y1 : Yamal) (p : ℕ)
    → length xs + 16 < word
    → ytp_yamal_reserve fuel (length xs + 16) y ≡ (ok p, y1)
    → publish_data fuel ts stream xs y
      ≡ ytp_yamal_commit fuel p stream_list_data (with_bytes (data_bytes p ts stream xs y1.byte) y1)
unfolding publish_data ytp_data_reserve ytp_data_commit
publish_data_lem fuel ts stream xs y y1 p w e =
    let size : add64 (add64 (length xs) 8) 8 ≡ length xs + 16 = omega arith in
    let a : p + 8 + 8 ≡ p + 16 = omega arith in
    let b : p + 16 - 8 ≡ p + 8 = omega arith in
    let c : p + 8 - 8 ≡ p = omega arith in rw (size, e, a, b, c)

ytp_data_read_lem :
    (it : ℕ) (y : Yamal) (m : Message)
    → ytp_yamal_read it y ≡ (ok m, y)
    → ytp_data_read it y ≡ (
      ok (record {
        seqno = m.seqno;
        ts = load64 m.at y;
        stream = load64 (m.at + 8) y;
        size = sub64 (sub64 m.size 8) 8;
        at = m.at + 8 + 8;
      }),
      y,
    )
unfolding ytp_data_read
ytp_data_read_lem it y m e = rw e

module _ (p ts stream : ℕ) (xs : List ℕ) (m : ℕ → ℕ) where
  ts_of : ts < word → load_le 8 (data_bytes p ts stream xs m) p ≡ ts
  ts_of h = load_le-store_le 8 p ts _ (omega arith)

  stream_of : stream < word → load_le 8 (data_bytes p ts stream xs m) (p + 8) ≡ stream
  stream_of h =
      load_le-store_le-Clear 8 (p + 8) 8 p _ ts (inr (omega arith))
      ∙ load_le-store_le 8 (p + 8) stream _ (omega arith)

  payload_of : load_bytes (length xs) (data_bytes p ts stream xs m) (p + 16) ≡ xs
  payload_of =
      load_bytes-store_le-Clear (length xs) (p + 16) 8 p _ ts (inr (omega arith))
      ∙ load_bytes-store_le-Clear (length xs) (p + 16) 8 (p + 8) _ stream (inr (omega arith))
      ∙ load_bytes-store_bytes (p + 16) xs m

-- What a reader finds at the iterator `it`.
pub record ReadsData (it : ℕ) (y : Yamal) (ts stream : ℕ) (xs : List ℕ) : Type 0 where
  pub message : DataMessage
  pub reads : ytp_data_read it y ≡ (ok message, y)
  pub ts_is : message.ts ≡ ts
  pub stream_is : message.stream ≡ stream
  pub size_is : message.size ≡ length xs
  pub payload_is : text_at message.at (length xs) y ≡ xs

-- With room in the file, fuel beyond the length of the list, and a time and a stream below 2 ^ 64,
-- a data message that is reserved, filled and committed on an open list is appended as one node,
-- and ytp_data_read at the returned iterator finds its time, stream, size and payload; the file's
-- invariant holds again.
pub ytp_data_read-publish :
    (fuel ts stream : ℕ) (xs : List ℕ) (y : Yamal) (os : List ℕ)
    → IsFile y stream_list_data os
    → HasRoom fuel (length xs + 16) y
    → length os < fuel
    → ts < word
    → stream < word
    → (offs : ℕ) × (it : ℕ) × (y' : Yamal) × (publish_data fuel ts stream xs y ≡ (ok it, y'))
      × IsFile y' stream_list_data (os ++ offs ∷ [])
      × ReadsData it y' ts stream xs
ytp_data_read-publish fuel ts stream xs y os v h f t s =
    let (offs, p, y1, e, fresh) = ytp_yamal_reserve-IsFresh fuel (length xs + 16) y h in
    let q = published (data_bytes p ts stream xs y1.byte) v fresh fuel f in
    let w : length xs + 16 < word = omega (arith, h.fits) in
    let at : p + 8 + 8 ≡ p + 16 = omega arith in
    (
      offs,
      last_of (head stream_list_data) os + 8,
      q.after,
      publish_data_lem fuel ts stream xs y y1 p w e ∙ q.returns,
      q.file,
      record {
        message = _;
        reads = ytp_data_read_lem _ q.after _ q.reads;
        ts_is = rw q.bytes (ts_of p ts stream xs y1.byte t);
        stream_is = rw q.bytes (stream_of p ts stream xs y1.byte s);
        size_is = omega (arith, w);
        payload_is = rw (q.bytes, at) (payload_of p ts stream xs y1.byte);
      },
    )
