-- ===== src/Cursor/Poll.antt =====
-- src/ytp/cursor.c: the polling of a cursor. The clients' callbacks are parameters: they may change
-- the cursor and the file.
use yamal.Base.{Bool, List, false, if◌then◌else◌, length, ltb, none, not, some, true, ℕ, ◌+◌, ◌==◌}
use yamal.Cursor.Array.{Callback, Callbacks, call_from, unlock_callbacks}
use yamal.Cursor.Register.{at_stream, items_of, streams_data_get}
use yamal.Cursor.State.{
  C, World, done, lift, on_cursor, reads, stop, with_callbacks, writes, ◌>>=◌, ◌>>◌,
}
use yamal.Message.Announcement.{Announcement, ytp_announcement_lookup, ytp_announcement_next}
use yamal.Message.Data.{DataMessage, ytp_data_read}
use yamal.Message.Fields.{load64}
use yamal.Yamal.Iter.{ytp_yamal_next, ytp_yamal_term}
use yamal.Yamal.State.{M, fail, fault, gets, invalid_stream, ok, on_error}

-- What a callback is called with besides its closure: `original` and `subscribed` are loaded before
-- the calls.
pub record AnnCall : Type 0 where
  pub ann : Announcement
  pub original : ℕ
  pub subscribed : Bool

pub record DataCall : Type 0 where
  pub message : DataMessage
  pub original : ℕ

-- The clients' code.
pub record Clients : Type 0 where
  pub on_ann : Callback → AnnCall → World → World
  pub on_data : Callback → DataCall → World → World

abbrev lock_callbacks : Callbacks → Callbacks
lock_callbacks a = record a { locked = a.locked + 1 }

abbrev pub ann_items : World → List Callback
ann_items w = w.cursor.cb_ann.items

-- The round of calls under the lock.
pub ann_round : Clients → AnnCall → World → World
ann_round k call w =
    let held = on_cursor (λ c. record c { cb_ann = lock_callbacks c.cb_ann }) w in
    let called = call_from ann_items (λ p. k.on_ann p call) (length (ann_items held)) held in
    on_cursor (λ c. record c { cb_ann = unlock_callbacks c.cb_ann }) called

pub ytp_cursor_poll_ann : ℕ → Clients → C Bool
unfolding ann_round
ytp_cursor_poll_ann fuel k = do
  it ← reads λ c. c.it_ann
  next ← lift (ytp_announcement_next fuel it)
  writes λ c. record c { it_ann = next.0 }
  elim next.1 [
    | none ↦ done false
    | some a ↦ do
      writes λ c. record c { ann_processed = a.ann.seqno }
      original ← lift (gets (load64 a.ann.original))
      subscribed ← lift (gets (load64 a.ann.subscribed))
      let call : AnnCall = record {
        ann = a.ann;
        original = original;
        subscribed = not (subscribed == 0);
      }
      λ w. (ok true, ann_round k call w)
  ]

abbrev pub data_items : ℕ → World → List Callback
data_items stream w = items_of (streams_data_get stream w.cursor.cb_data)

-- The round of calls for a data message, if the stream has an array. `*original` is loaded for each
-- call.
pub data_round : Clients → DataMessage → ℕ → World → World
data_round k m original w =
    let stream = m.stream in
    let change = λ (f : Callbacks → Callbacks).
      on_cursor (λ c. with_callbacks (at_stream stream f c.cb_data) c) in
    let held = change lock_callbacks w in
    let called =
      call_from (data_items stream)
        (λ p w. k.on_data p (record { message = m; original = load64 original w.yamal }) w)
        (length (data_items stream held)) held in
    elim (streams_data_get stream w.cursor.cb_data) [
      | none ↦ w
      | some a ↦ change unlock_callbacks called
    ]

-- After an error of the lookup its results, which are not set, are used.
abbrev lookup_or_fault : ℕ → M Announcement
lookup_or_fault stream = on_error (ytp_announcement_lookup stream) λ _. fail fault

-- The announcement of the stream comes first.
poll_late : ℕ → Clients → C Bool
poll_late fuel k = do
  polled ← ytp_cursor_poll_ann fuel k
  if polled then done true else stop invalid_stream

poll_now : Clients → DataMessage → ℕ → C Bool
unfolding data_round
poll_now k m original = do
  λ w. (ok tt, data_round k m original w)
  here ← reads λ c. c.it_data
  it' ← lift (ytp_yamal_next here)
  writes λ c. record c { it_data = it' }
  done true

pub poll_data : ℕ → Clients → C Bool
unfolding poll_late poll_now
poll_data fuel k = do
  it ← reads λ c. c.it_data
  m ← lift (ytp_data_read it)
  ann ← lift (lookup_or_fault m.stream)
  processed ← reads λ c. c.ann_processed
  if ltb processed ann.seqno then poll_late fuel k else poll_now k m ann.original

pub ytp_cursor_poll : ℕ → Clients → C Bool
unfolding poll_data
ytp_cursor_poll fuel k = do
  polled ← ytp_cursor_poll_ann fuel k
  if polled then done true else do
    ended ← λ w. (ok (ytp_yamal_term w.cursor.it_data w.yamal), w)
    if ended then done false else poll_data fuel k
