-- ===== src/Cursor/Register.antt =====
-- src/ytp/cursor.c: the table of callbacks, registration and removal. Memory does not run out.
pub mod Laws
use yamal.Base.{List, Option, [], if◌then◌else◌, length, none, some, take, ℕ, ◌-◌, ◌==◌, ◌∷◌}
use yamal.Cursor.Array.{Callback, Callbacks, clear_callbacks, find_same, push, remove}
use yamal.Cursor.State.{C, Cursor, on_cursor, with_callbacks}
use yamal.Message.Subscription.{ytp_subscription_commit}
use yamal.Yamal.Iter.{ytp_yamal_seek, ytp_yamal_tell}
use yamal.Yamal.Pages.{locked}
use yamal.Yamal.State.{err, fault, hang, ok}

-- `streams_data_get`, with NULL for what is not there.
pub streams_data_get : ℕ → List (ℕ × Callbacks) → Option Callbacks
streams_data_get key [] = none
streams_data_get key ((k, a) ∷ m) = if k == key then some a else streams_data_get key m

abbrev pub no_callbacks : Callbacks
no_callbacks = record { items = []; locked = 0 }

-- `streams_data_emplace`: a stream that is not in the table is added with an empty array.
pub streams_data_emplace : ℕ → List (ℕ × Callbacks) → List (ℕ × Callbacks)
streams_data_emplace key [] = (key, no_callbacks) ∷ []
streams_data_emplace key ((k, a) ∷ m) =
    if k == key then (k, a) ∷ m else (k, a) ∷ streams_data_emplace key m

-- A write through the pointer that the two above return.
pub at_stream : ℕ → (Callbacks → Callbacks) → List (ℕ × Callbacks) → List (ℕ × Callbacks)
at_stream key f [] = []
at_stream key f ((k, a) ∷ m) = if k == key then (k, f a) ∷ m else (k, a) ∷ at_stream key f m

pub ytp_cursor_ann_cb : ℕ → ℕ → Cursor → Cursor
ytp_cursor_ann_cb cb cl c = record c { cb_ann = push cb cl c.cb_ann }

pub ytp_cursor_ann_cb_rm : ℕ → ℕ → Cursor → Cursor
ytp_cursor_ann_cb_rm cb cl c = record c { cb_ann = remove cb cl c.cb_ann }

-- `utarray_pop_back`.
abbrev pub pop_back : Callbacks → Callbacks
pop_back a = record a { items = take (length a.items - 1) a.items }

-- What the array of a stream holds; a stream that is not in the table has no callbacks.
abbrev pub items_of : Option Callbacks → List Callback
items_of none = []
items_of (some a) = a.items

-- The subscription behind a new callback: when it fails the callback is taken back.
pub subscribe_or_rollback : ℕ → ℕ → C (Unit {0})
unfolding at_stream
subscribe_or_rollback fuel stream w =
    let (r, y) = ytp_subscription_commit fuel stream w.yamal in
    let after = record w { yamal = y } in
    elim r [
      | ok first ↦ (ok tt, after)
      | err e ↦
          (err e, on_cursor (λ c. with_callbacks (at_stream stream pop_back c.cb_data) c) after)
      | hang ↦ (hang, after)
    ]

pub ytp_cursor_data_cb : ℕ → ℕ → ℕ → ℕ → C (Unit {0})
unfolding streams_data_get streams_data_emplace at_stream subscribe_or_rollback
ytp_cursor_data_cb fuel stream cb cl w =
    let m = streams_data_emplace stream w.cursor.cb_data in
    let known = find_same cb cl (items_of (streams_data_get stream m)) in
    let pushed = on_cursor (with_callbacks (at_stream stream (push cb cl) m)) w in
    if known
    then (ok tt, on_cursor (with_callbacks m) w)
    else (if w.yamal.readonly then (ok tt, pushed) else subscribe_or_rollback fuel stream pushed)

-- A stream without an array is a null pointer that is followed.
pub ytp_cursor_data_cb_rm : ℕ → ℕ → ℕ → C (Unit {0})
unfolding streams_data_get at_stream
ytp_cursor_data_cb_rm stream cb cl w = elim (streams_data_get stream w.cursor.cb_data) [
  | none ↦ (err fault, w)
  | some a ↦
      (ok tt, on_cursor (λ c. with_callbacks (at_stream stream (remove cb cl) c.cb_data) c) w)
]

-- The arrays of all streams are emptied.
pub clear_streams : List (ℕ × Callbacks) → List (ℕ × Callbacks)
clear_streams [] = []
clear_streams ((k, a) ∷ m) = (k, clear_callbacks a) ∷ clear_streams m

pub ytp_cursor_all_cb_rm : Cursor → Cursor
unfolding clear_streams
ytp_cursor_all_cb_rm c = record c {
  cb_ann = clear_callbacks c.cb_ann;
  cb_data = clear_streams c.cb_data;
}

pub ytp_cursor_seek : ℕ → C (Unit {0})
ytp_cursor_seek offset w =
    let (r, y) = ytp_yamal_seek offset w.yamal in
    let after = record w { yamal = y } in
    elim r [
      | ok it ↦ (ok tt, on_cursor (λ c. record c { it_data = it }) after)
      | err e ↦ (err e, after)
      | hang ↦ (hang, after)
    ]

pub ytp_cursor_tell : C ℕ
ytp_cursor_tell w =
    let (r, y) = ytp_yamal_tell w.cursor.it_data w.yamal in (r, record w { yamal = y })
