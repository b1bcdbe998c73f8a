-- ===== src/Streams/Announce/Laws.antt =====
-- What the predicate does to the file.
use yamal.Base.{Bool-cases, arith, false, inl, inr, load_le-store_le, true, ◌<◌, ◌==◌, ◌≡◌}
use yamal.Message.Fields.{load64}
use yamal.Streams.Announce.{PredClosure, entry_of, found, key_of, ytp_streams_pred}
use yamal.Streams.Search.{AnnData}
use yamal.Streams.State.{Entry, Streams, streams_reverse_map_emplace}
use yamal.Yamal.State.{word}

-- Without write access ytp_streams_pred changes neither the file nor the iterator.
pub ytp_streams_pred-readonly :
    (c : PredClosure) (a : AnnData) (s : Streams)
    → s.yamal.readonly ≡ true
    → ((ytp_streams_pred c a s).2.yamal ≡ s.yamal)
      × ((ytp_streams_pred c a s).2.iterator ≡ s.iterator)
unfolding ytp_streams_pred found
ytp_streams_pred-readonly c a s h = (ground (arith, h), ground (arith, h))

-- With write access ytp_streams_pred settles an announcement that is not settled yet: afterwards
-- the stream that the map gives for its names is read from it, when that is below 2 ^ 64.
pub ytp_streams_pred-settles :
    (c : PredClosure) (a : AnnData) (s : Streams)
    → s.yamal.readonly ≡ false
    → load64 a.ann.original s.yamal ≡ 0
    → (streams_reverse_map_emplace s.reverse_map (key_of a.ann s.yamal) (entry_of a)).0.stream
      < word
    → load64 a.ann.original (ytp_streams_pred c a s).2.yamal
      ≡ (streams_reverse_map_emplace s.reverse_map (key_of a.ann s.yamal) (entry_of a)).0.stream
unfolding ytp_streams_pred found
ytp_streams_pred-settles c a s w z b =
    let item : Entry =
      (streams_reverse_map_emplace s.reverse_map (key_of a.ann s.yamal) (entry_of a)).0 in
    let stored = load_le-store_le 8 a.ann.original item.stream s.yamal.byte (omega arith) in
    elim (Bool-cases (load64 a.ann.original s.yamal == item.stream)) [
      | inl e ↦ ground (arith, w, z, e)
      | inr e ↦ ground (arith, w, z, e, stored)
    ]
