-- ===== src/Tests/CursorTests.antt =====
-- The theorems on cursors and on streams.
use yamal.Base.{List, [], ap, arith, false, load_le_zero, none, refl, true, ℕ, ◌+◌, ◌∷◌, ◌≡◌}
use yamal.Cursor.Array.{Callback, Callbacks, find_same, remove}
use yamal.Cursor.Array.Laws.{find_same-nil, remove-count}
use yamal.Cursor.Array.Removal.{count}
use yamal.Cursor.Consume.{ytp_cursor_consume}
use yamal.Cursor.Consume.Laws.{ytp_cursor_consume-moves}
use yamal.Cursor.Register.{ytp_cursor_data_cb}
use yamal.Cursor.Register.Laws.{
  callbacks, callbacks-cons, callbacks-nil, ytp_cursor_data_cb-rollback,
}
use yamal.Cursor.State.{Cursor, World}
use yamal.Message.Announcement.RoundTrip.{ytp_announcement_lookup-failed}
use yamal.Message.Fields.{load64}
use yamal.Message.Subscription.{ytp_subscription_commit}
use yamal.Message.Subscription.RoundTrip.{ytp_subscription_commit-failed}
use yamal.Streams.Announce.{PredClosure, entry_of, key_of, ytp_streams_pred}
use yamal.Streams.Announce.Laws.{ytp_streams_pred-settles}
use yamal.Streams.Search.{AnnData}
use yamal.Streams.State.{Entry, Key, Streams, streams_reverse_map_emplace}
use yamal.Streams.State.Laws.{emplace-nil}
use yamal.Tests.Files.{empty_file, good_os}
use yamal.Yamal.Iter.Laws.{ytp_yamal_seek-failed}
use yamal.Yamal.Pages.Laws.{get_mapped_memory_unlocked}
use yamal.Yamal.State.{Yamal, err, mutex_lock}

abbrev first_cb : Callback
first_cb = record { cb = 1000; cl = 1 }

abbrev second_cb : Callback
second_cb = record { cb = 1000; cl = 2 }

abbrev null_cb : Callback
null_cb = record { cb = 0; cl = 3 }

-- An array under one lock, with one callback removed.
abbrev held_array : Callbacks
held_array = record { items = first_cb ∷ null_cb ∷ second_cb ∷ []; locked = 1 }

abbrev a_cursor : Cursor
a_cursor = record {
  it_data = 24;
  it_ann = 56;
  ann_processed = 0;
  cb_data = (536, held_array) ∷ [];
  cb_ann = held_array;
}

-- A cursor on a file whose further pages cannot be mapped.
abbrev stuck_file : Yamal
stuck_file = record empty_file { os = record good_os { lock = false } }

abbrev a_world : World
a_world = record { cursor = a_cursor; yamal = stuck_file }

no_callback : find_same 5 6 (callbacks 9000000 a_cursor.cb_data) ≡ false
no_callback =
    rw (callbacks-cons 9000000 536 held_array [], callbacks-nil 9000000) (find_same-nil 5 6)

no_subscription : ytp_subscription_commit 2 9000000 stuck_file ≡ (err mutex_lock, stuck_file)
no_subscription = ytp_subscription_commit-failed 2 9000000 mutex_lock stuck_file stuck_file refl (
    ytp_announcement_lookup-failed 9000000 mutex_lock stuck_file stuck_file (
      ytp_yamal_seek-failed 9000000 mutex_lock stuck_file stuck_file
        (get_mapped_memory_unlocked 9000000 stuck_file (omega arith) refl refl)))

ytp_cursor_data_cb-rollback_example :
    (w' : World) × (ytp_cursor_data_cb 2 9000000 5 6 a_world ≡ (err mutex_lock, w'))
    × (callbacks 9000000 w'.cursor.cb_data ≡ callbacks 9000000 a_cursor.cb_data)
    × (w'.cursor.cb_ann ≡ held_array)
    × (w'.yamal ≡ stuck_file)
ytp_cursor_data_cb-rollback_example =
    ytp_cursor_data_cb-rollback 2 9000000 5 6 9000000 mutex_lock a_world stuck_file no_callback refl
      no_subscription

remove-count_example : count first_cb (remove 1000 1 held_array).items ≡ 0
remove-count_example = remove-count 1000 1 first_cb held_array (omega arith)

-- The calls are noted in a list, with the array beside it.
abbrev note : Callback → List Callback × List ℕ → List Callback × List ℕ
note p (xs, log) = (xs, p.cl ∷ log)

ytp_cursor_consume-moves_example :
    ((ytp_cursor_consume a_cursor a_cursor).0 ≡ true)
    × (count first_cb (callbacks 536 (ytp_cursor_consume a_cursor a_cursor).1.cb_data)
        ≡ count first_cb (callbacks 536 a_cursor.cb_data)
          + count first_cb (callbacks 536 a_cursor.cb_data))
    × (count first_cb (ytp_cursor_consume a_cursor a_cursor).1.cb_ann.items ≡ 2)
    × (count first_cb (ytp_cursor_consume a_cursor a_cursor).2.cb_ann.items ≡ 0)
ytp_cursor_consume-moves_example =
    ytp_cursor_consume-moves first_cb 536 a_cursor a_cursor (omega arith) (tt, tt) refl refl

abbrev a_key : Key
a_key = record { peer = 112 ∷ []; channel = 99 ∷ [] }

abbrev an_entry : Entry
an_entry = record { esz = 0; encoding = 0; stream = 536 }

-- An announcement with empty names at 568, of the stream 536.
abbrev an_announcement : AnnData
an_announcement = record {
  ann = record {
    seqno = 1;
    psz = 0;
    peer = 592;
    csz = 0;
    channel = 592;
    esz = 0;
    encoding = 592;
    original = 568;
    subscribed = 576;
  };
  stream = 536;
}

abbrev a_search : PredClosure
a_search = record { key = a_key; item = none }

abbrev the_streams : Yamal → Streams
the_streams y = record { yamal = y; iterator = 56; reverse_map = [] }

an_entry-stream :
    (streams_reverse_map_emplace []
      (key_of an_announcement.ann empty_file)
      (entry_of an_announcement)).0.stream
    ≡ 536
an_entry-stream =
    ap (λ (i : Entry). i.stream)
      (emplace-nil (key_of an_announcement.ann empty_file) (entry_of an_announcement))

ytp_streams_pred-settles_example :
    load64 568 (ytp_streams_pred a_search an_announcement (the_streams empty_file)).2.yamal
    ≡ (streams_reverse_map_emplace []
        (key_of an_announcement.ann empty_file)
        (entry_of an_announcement)).0.stream
ytp_streams_pred-settles_example =
    ytp_streams_pred-settles a_search an_announcement (the_streams empty_file) refl
      (load_le_zero 8 568 (λ a. 0) (λ b h k. refl)) (omega (arith, an_entry-stream))
