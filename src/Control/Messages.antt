-- ===== src/Control/Messages.antt =====
-- src/ytp/control.cpp: the walk over the announcements, for a handler.
use yamal.Base.{Bool, Option, [], false, if◌then◌else◌, none, not, some, true, ℕ, ◌==◌}
use yamal.Control.Registry.{NamedStream, OnStream, Registry, process_ann}
use yamal.Message.Fields.{load64, text_at}
use yamal.Streams.Announce.{settle}
use yamal.Streams.Search.{
  AnnData, PredResult, Predicate, pred_continue, pred_done, pred_rollback, ytp_streams_search_ann,
}
use yamal.Streams.State.{Streams}
use yamal.Yamal.State.{Result, Yamal, err, hang, ok}

-- `struct ytp_control`: the file, the iterator over its announcements, and the tables.
pub record Control : Type 0 where
  pub yamal : Yamal
  pub anns : ℕ
  pub registry : Registry

-- A handler with the state `S`. Its `insert` may set the error.
pub record Handler (S : Type 0) : Type 0 where
  pub on_stream : OnStream → S → S
  pub found : Registry → S → Bool
  pub insert : Control → Result (Unit {0}) × Control

abbrev pub names_of : AnnData → Yamal → NamedStream
names_of a y = record {
  peer = text_at a.ann.peer a.ann.psz y;
  channel = text_at a.ann.channel a.ann.csz y;
  stream = a.stream;
}

abbrev pub processed : ℕ → Registry → Registry
processed seqno c = record c { ann_processed = seqno }

-- The search runs on the control's file and iterator.
abbrev pub searched : Control → Streams
searched c = record { yamal = c.yamal; iterator = c.anns; reverse_map = [] }

module _ {S : Type 0} where
  abbrev pub called : Handler S → Option OnStream → S → S
  called h none st = st
  called h (some call) st = h.on_stream call st

  abbrev outcome : Handler S → Registry → S → Result PredResult
  outcome h c st = ok (if h.found c st then pred_done else pred_continue)

  -- The predicate of process_control_msgs.
  unfoldable pub control_pred : Handler S → Predicate (Registry × S)
  control_pred h (c, st) a s =
      let (first, call, c') = process_ann (names_of a s.yamal) (processed a.ann.seqno c) in
      let st' = called h call st in
      let original = load64 a.ann.original s.yamal in
      if original == first
      then (outcome h c' st', (c', st'), s)
      else (if not (original == 0)
          then (ok pred_continue, (c', st'), s)
          else (if s.yamal.readonly
              then (ok pred_rollback, (c', st'), s)
              else (outcome h c' st', (c', st'), settle a.ann.original first s)))

  unfoldable pub process_control_msgs :
      ℕ → Handler S → S → Control → Result (Unit {0}) × S × Control
  unfolding control_pred
  process_control_msgs fuel h st c =
      let (r, (c', st'), s) =
        ytp_streams_search_ann fuel (control_pred h) (c.registry, st) (searched c) in
      if h.found c.registry st
      then (ok tt, st, c)
      else (r, st', record { yamal = s.yamal; anns = s.iterator; registry = c' })

  -- The result of the first walk, whether it found something, the insertion, and the second walk.
  abbrev pub insert_between :
      Result (Unit {0}) × S × Control
      → Bool
      → Result (Unit {0}) × Control
      → Result (Unit {0}) × S × Control
      → Result (Unit {0}) × S × Control
  insert_between (err e, st, c) found w again = (err e, st, c)
  insert_between (hang, st, c) found w again = (hang, st, c)
  insert_between (ok u, st, c) true w again = (ok tt, st, c)
  insert_between (ok u, st, c) false (err e, c') again = (err e, st, c')
  insert_between (ok u, st, c) false (hang, c') again = (hang, st, c')
  insert_between (ok u, st, c) false (ok v, c') again = again

  unfoldable pub lookup_or_insert_ctrl_msg :
      ℕ → Handler S → S → Control → Result (Unit {0}) × S × Control
  unfolding process_control_msgs
  lookup_or_insert_ctrl_msg fuel h st c =
      let first = process_control_msgs fuel h st c in
      let w = h.insert first.2 in
      insert_between first (h.found first.2.registry first.1) w
        (process_control_msgs fuel h first.1 w.1)
