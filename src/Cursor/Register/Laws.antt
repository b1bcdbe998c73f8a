-- ===== src/Cursor/Register/Laws.antt =====
-- Registration, and its rollback.
use yamal.Base.{
  Apart, Bool-cases, List, Option, [], ap, arith, false, if◌then◌else◌, inl, inr, length,
  length-append, none, refl, some, take, ℕ, ◌++◌, ◌-◌, ◌==◌, ◌∙◌, ◌∷◌, ◌≡◌,
}
use yamal.Cursor.Array.{Callback, Callbacks, find_same, push}
use yamal.Cursor.Array.Laws.{push-new}
use yamal.Cursor.Register.{
  at_stream, items_of, no_callbacks, pop_back, streams_data_emplace, streams_data_get,
  subscribe_or_rollback, ytp_cursor_data_cb,
}
use yamal.Cursor.State.{World, with_callbacks}
use yamal.Message.Subscription.{ytp_subscription_commit}
use yamal.Yamal.State.{Error, Yamal, err}

-- The callbacks of a stream.
abbrev pub callbacks : ℕ → List (ℕ × Callbacks) → List Callback
callbacks key m = items_of (streams_data_get key m)

abbrev on_array : (Callbacks → Callbacks) → Option Callbacks → Option Callbacks
on_array f none = none
on_array f (some a) = some (f a)

-- A write to the array of one stream.
pub streams_data_get-at_stream :
    (key k : ℕ) (f : Callbacks → Callbacks) (m : List (ℕ × Callbacks))
    → streams_data_get k (at_stream key f m)
      ≡ (if key == k then on_array f (streams_data_get k m) else streams_data_get k m)
unfolding streams_data_get at_stream
streams_data_get-at_stream key k f [] = ground arith
streams_data_get-at_stream key k f ((i, a) ∷ m) =
    ground (arith, streams_data_get-at_stream key k f m)

pub callbacks-streams_data_emplace :
    (key k : ℕ) (m : List (ℕ × Callbacks))
    → callbacks k (streams_data_emplace key m) ≡ callbacks k m
unfolding streams_data_get streams_data_emplace
callbacks-streams_data_emplace key k [] = ground arith
callbacks-streams_data_emplace key k ((i, a) ∷ m) =
    ground (arith, callbacks-streams_data_emplace key k m)

pub streams_data_emplace-some :
    (key : ℕ) (m : List (ℕ × Callbacks))
    → (a : Callbacks) × (streams_data_get key (streams_data_emplace key m) ≡ some a)
unfolding streams_data_get streams_data_emplace
streams_data_emplace-some key [] = (no_callbacks, ground arith)
streams_data_emplace-some key ((i, a) ∷ m) =
    let (b, e) = streams_data_emplace-some key m in
    elim (Bool-cases (i == key)) [
      | inl found_it ↦ (a, rw (found_it, streams_data_emplace) (ground arith))
      | inr miss ↦ (b, rw (miss, streams_data_emplace) (ground arith))
    ]

pub callbacks-nil : (k : ℕ) → callbacks k [] ≡ []
unfolding streams_data_get
callbacks-nil k = refl

pub callbacks-cons :
    (k i : ℕ) (a : Callbacks) (m : List (ℕ × Callbacks))
    → callbacks k ((i, a) ∷ m) ≡ (if i == k then a.items else callbacks k m)
unfolding streams_data_get
callbacks-cons k i a m = ground arith

-- The streams of a table.
abbrev pub keys : List (ℕ × Callbacks) → List ℕ
keys [] = []
keys ((k, a) ∷ m) = k ∷ keys m

pub callbacks-Apart : (k : ℕ) (m : List (ℕ × Callbacks)) → Apart k (keys m) → callbacks k m ≡ []
unfolding streams_data_get
callbacks-Apart k [] d = refl
callbacks-Apart k ((i, a) ∷ m) d = ground (arith, callbacks-Apart k m d.1)

take-append : (xs ys : List Callback) → take (length xs) (xs ++ ys) ≡ xs
take-append [] ys = refl
take-append (x ∷ xs) ys = ap (λ zs. x ∷ zs) (take-append xs ys)

-- What was pushed is popped.
pop_back-push :
    (cb cl : ℕ) (o : Option Callbacks)
    → find_same cb cl (items_of o) ≡ false
    → items_of (on_array pop_back (on_array (push cb cl) o)) ≡ items_of o
pop_back-push cb cl none h = refl
pop_back-push cb cl (some a) h =
    let p : Callback = record { cb = cb; cl = cl } in
    let shorter : length (a.items ++ p ∷ []) - 1 ≡ length a.items =
      omega (arith, length-append a.items (p ∷ [])) in
    rw (push-new cb cl a h, shorter) (take-append a.items (p ∷ []))

-- The table after a registration that is taken back.
abbrev taken_back : ℕ → ℕ → ℕ → List (ℕ × Callbacks) → List (ℕ × Callbacks)
taken_back stream cb cl m = at_stream stream pop_back (at_stream stream (push cb cl) m)

callbacks-taken_back :
    (stream cb cl k : ℕ) (m : List (ℕ × Callbacks))
    → find_same cb cl (callbacks stream m) ≡ false
    → callbacks k (taken_back stream cb cl m) ≡ callbacks k m
callbacks-taken_back stream cb cl k m h =
    let outer = streams_data_get-at_stream stream k pop_back (at_stream stream (push cb cl) m) in
    let inner = streams_data_get-at_stream stream k (push cb cl) m in
    elim (Bool-cases (stream == k)) [
      | inl e ↦
          let at : stream ≡ k = ground arith in
          rw (outer, e, inner, e) (pop_back-push cb cl (streams_data_get k m) (rw (← at) h))
      | inr e ↦ rw (outer, e, inner, e) refl
    ]

-- When the subscription of a writer fails, the registration of a callback that is not there fails
-- with the same error, and every stream's callbacks, and those for announcements, are as before.
pub ytp_cursor_data_cb-rollback :
    (fuel stream cb cl k : ℕ) (e : Error) (w : World) (y : Yamal)
    → find_same cb cl (callbacks stream w.cursor.cb_data) ≡ false
    → w.yamal.readonly ≡ false
    → ytp_subscription_commit fuel stream w.yamal ≡ (err e, y)
    → (w' : World) × (ytp_cursor_data_cb fuel stream cb cl w ≡ (err e, w'))
      × (callbacks k w'.cursor.cb_data ≡ callbacks k w.cursor.cb_data)
      × (w'.cursor.cb_ann ≡ w.cursor.cb_ann)
      × (w'.yamal ≡ y)
unfolding ytp_cursor_data_cb subscribe_or_rollback
ytp_cursor_data_cb-rollback fuel stream cb cl k e w y new_one r f =
    let m = streams_data_emplace stream w.cursor.cb_data in
    let known = callbacks-streams_data_emplace stream stream w.cursor.cb_data in
    let same_at = callbacks-streams_data_emplace stream k w.cursor.cb_data in
    let fresh : find_same cb cl (callbacks stream m) ≡ false = rw known new_one in
    (
      record { cursor = with_callbacks (taken_back stream cb cl m) w.cursor; yamal = y },
      ground (arith, fresh, r, f),
      callbacks-taken_back stream cb cl k m fresh ∙ same_at,
      refl,
      refl,
    )
