-- ===== src/Streams/Announce.antt =====
-- src/ytp/streams.c: the announcement and the lookup of a stream.
pub mod Laws
use yamal.Base.{Bool, List, Option, if◌then◌else◌, length, none, not, some, store_le, ℕ, ◌&&◌, ◌==◌}
use yamal.Message.Announcement.{Announcement, ytp_announcement_write}
use yamal.Message.Fields.{load64, text_at}
use yamal.Streams.Search.{
  AnnData, PredResult, Predicate, pred_continue, pred_done, pred_rollback, ytp_streams_search_ann,
}
use yamal.Streams.State.{
  Entry, Key, Streams, bytes_equal, key_equal, streams_reverse_map_emplace, streams_reverse_map_get,
}
use yamal.Yamal.Publish.{with_bytes}
use yamal.Yamal.State.{Result, Yamal, encoding_mismatch, err, fault, hang, ok, readonly_announce}

-- `struct ytp_streams_pred_cl_t`, without the streams: the names that are searched, and what was
-- found.
pub record PredClosure : Type 0 where
  pub key : Key
  pub item : Option Entry

abbrev pub key_of : Announcement → Yamal → Key
key_of a y = record { peer = text_at a.peer a.psz y; channel = text_at a.channel a.csz y }

-- What the map is told of an announcement.
abbrev pub entry_of : AnnData → Entry
entry_of a = record { esz = a.ann.esz; encoding = a.ann.encoding; stream = a.stream }

-- `*ann->original = item->stream`.
abbrev pub settle : ℕ → ℕ → Streams → Streams
settle at stream s = record s { yamal = with_bytes (store_le 8 at stream s.yamal.byte) s.yamal }

-- An announcement that is settled for its stream, or has just been settled.
pub found : PredClosure → AnnData → Entry → Streams → Result PredResult × PredClosure × Streams
found c a item s =
    if key_equal (key_of a.ann s.yamal) c.key
    then (ok pred_done, record c { item = some item }, s)
    else (ok pred_continue, c, s)

pub ytp_streams_pred : Predicate PredClosure
unfolding found
ytp_streams_pred c a s =
    let (item, m) = streams_reverse_map_emplace s.reverse_map (key_of a.ann s.yamal) (entry_of a) in
    let s1 = record s { reverse_map = m } in
    let original = load64 a.ann.original s.yamal in
    if original == item.stream
    then found c a item s1
    else (if not (original == 0)
        then (ok pred_continue, c, s1)
        else (if s.yamal.readonly
            then (ok pred_rollback, c, s1)
            else found c a item (settle a.ann.original item.stream s1)))

-- What the lookup gives: nothing if there is no such stream.
pub ytp_streams_lookup : ℕ → Key → Streams → Result (Option Entry) × Streams
unfolding ytp_streams_pred
ytp_streams_lookup fuel key s =
    let (r, c, s') =
      ytp_streams_search_ann fuel ytp_streams_pred (record { key = key; item = none }) s in
    elim (streams_reverse_map_get s.reverse_map key) [
      | some e ↦ (ok (some e), s)
      | none ↦ elim r [ ok u ↦ (ok c.item, s') | err e ↦ (err e, s') | hang ↦ (hang, s') ]
    ]

-- `esz` and memcmp against the stored encoding.
same_encoding : Entry → List ℕ → Streams → Bool
same_encoding e encoding s =
    e.esz == length encoding && bytes_equal (text_at e.encoding e.esz s.yamal) encoding

checked : Entry → List ℕ → Streams → Result ℕ × Streams
unfolding same_encoding
checked e encoding s =
    if same_encoding e encoding s then (ok e.stream, s) else (err encoding_mismatch, s)

-- The search behind the write; a stream that it does not find is a null pointer that is followed.
announce_new : ℕ → Key → List ℕ → Streams → Result ℕ × Streams
unfolding ytp_streams_pred checked
announce_new fuel key encoding s =
    let (written, y) = ytp_announcement_write fuel key.peer key.channel encoding s.yamal in
    let s1 = record s { yamal = y } in
    let (r, c, s2) =
      ytp_streams_search_ann fuel ytp_streams_pred (record { key = key; item = none }) s1 in
    elim written [
      | err e ↦ (err e, s1)
      | hang ↦ (hang, s1)
      | ok it ↦ elim r [
        | err e ↦ (err e, s2)
        | hang ↦ (hang, s2)
        | ok u ↦ elim c.item [ none ↦ (err fault, s2) | some e ↦ checked e encoding s2 ]
      ]
    ]

pub ytp_streams_announce : ℕ → Key → List ℕ → Streams → Result ℕ × Streams
unfolding ytp_streams_lookup checked announce_new
ytp_streams_announce fuel key encoding s =
    let (r, s1) = ytp_streams_lookup fuel key s in
    elim r [
      | err e ↦ (err e, s1)
      | hang ↦ (hang, s1)
      | ok (some e) ↦ checked e encoding s1
      | ok none ↦
          if s1.yamal.readonly
          then (err readonly_announce, s1)
          else announce_new fuel key encoding s1
    ]
