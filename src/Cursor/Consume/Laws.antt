-- ===== src/Cursor/Consume/Laws.antt =====
-- What is taken over.
use yamal.Base.{
  Bool-cases, Distinct, List, [], ap, arith, if◌then◌else◌, inl, inr, refl, some, sym, true, ℕ,
  ◌&&◌, ◌++◌, ◌+◌, ◌==◌, ◌∙◌, ◌∷◌, ◌≡◌, ◌≢◌,
}
use yamal.Cursor.Array.{Callback, Callbacks, same}
use yamal.Cursor.Array.Laws.{count-append, count-clear_callbacks}
use yamal.Cursor.Array.Removal.{count}
use yamal.Cursor.Consume.{active, take_over, take_over_streams, ytp_cursor_consume}
use yamal.Cursor.Register.{at_stream, items_of, streams_data_emplace, streams_data_get}
use yamal.Cursor.Register.Laws.{
  callbacks, callbacks-Apart, callbacks-cons, callbacks-nil, callbacks-streams_data_emplace, keys,
  streams_data_emplace-some, streams_data_get-at_stream,
}
use yamal.Cursor.State.{Cursor}

count-active : (p : Callback) (xs : List Callback) → p.cb ≢ 0 → count p (active xs) ≡ count p xs
unfolding active
count-active p [] h = refl
count-active p (x ∷ xs) h = elim (Bool-cases (same p.cb p.cl x)) [
  | inl e ↦ ground (arith, count-active p xs h)
  | inr e ↦ ground (arith, count-active p xs h)
]

-- The callbacks of a stream, when the other one's are taken over.
callbacks-take_over :
    (i k : ℕ) (a : Callbacks) (dest : List (ℕ × Callbacks))
    → callbacks k (at_stream i (λ d. take_over d a) (streams_data_emplace i dest))
      ≡ (if i == k then callbacks k dest ++ active a.items else callbacks k dest)
unfolding take_over
callbacks-take_over i k a dest =
    let (b, there) = streams_data_emplace-some i dest in
    let same_at = callbacks-streams_data_emplace i k dest in
    let write = streams_data_get-at_stream i k (λ d. take_over d a) (streams_data_emplace i dest) in
    elim (Bool-cases (i == k)) [
      | inl e ↦
          (let at : i ≡ k = ground arith in
            let there' : streams_data_get k (streams_data_emplace i dest) ≡ some b =
              rw (← at) there in
            let same_items : b.items ≡ callbacks k dest = ap items_of (sym there') ∙ same_at in
            rw (write, e, there', same_items) refl)
      | inr e ↦ rw (write, e) same_at
    ]

-- The first loop adds the callbacks of each stream, if no stream stands twice in the table.
pub count-take_over_streams :
    (p : Callback) (k : ℕ) (dest src : List (ℕ × Callbacks))
    → p.cb ≢ 0
    → Distinct (keys src)
    → count p (callbacks k (take_over_streams dest src))
      ≡ count p (callbacks k dest) + count p (callbacks k src)
unfolding take_over_streams
count-take_over_streams p k dest [] h d = rw (callbacks-nil k) (omega arith)
count-take_over_streams p k dest ((i, a) ∷ src) h d =
    let dest' = at_stream i (λ d. take_over d a) (streams_data_emplace i dest) in
    let rest = count-take_over_streams p k dest' src h d.1 in
    let first = callbacks-take_over i k a dest in
    let longer = count-append p (callbacks k dest) (active a.items) in
    let kept = count-active p a.items h in
    elim (Bool-cases (i == k)) [
      | inl e ↦
          (let at : i ≡ k = ground arith in
            let none_left = callbacks-Apart k src (rw (← at) d.0) in
            rest
            ∙ rw (first, e, none_left, callbacks-cons k i a src, e) (omega (arith, longer, kept)))
      | inr e ↦ rest ∙ rw (first, e, callbacks-cons k i a src, e) refl
    ]

-- From a cursor at the same place, in whose table no stream stands twice, ytp_cursor_consume takes
-- over each callback that is not NULL as often as it stood there, for every stream and for
-- announcements, and leaves the giver none of them for announcements.
pub ytp_cursor_consume-moves :
    (p : Callback) (k : ℕ) (dest src : Cursor)
    → p.cb ≢ 0
    → Distinct (keys src.cb_data)
    → src.it_data ≡ dest.it_data
    → src.it_ann ≡ dest.it_ann
    → ((ytp_cursor_consume dest src).0 ≡ true)
      × (count p (callbacks k (ytp_cursor_consume dest src).1.cb_data)
          ≡ count p (callbacks k dest.cb_data) + count p (callbacks k src.cb_data))
      × (count p (ytp_cursor_consume dest src).1.cb_ann.items
          ≡ count p dest.cb_ann.items + count p src.cb_ann.items)
      × (count p (ytp_cursor_consume dest src).2.cb_ann.items ≡ 0)
unfolding ytp_cursor_consume take_over
ytp_cursor_consume-moves p k dest src h d a b =
    let here : (src.it_data == dest.it_data && src.it_ann == dest.it_ann) ≡ true = ground arith in
    rw (here, ytp_cursor_consume)
      (
        refl,
        count-take_over_streams p k dest.cb_data src.cb_data h d,
        count-append p dest.cb_ann.items (active src.cb_ann.items)
            ∙ ap (λ n. count p dest.cb_ann.items + n) (count-active p src.cb_ann.items h),
        count-clear_callbacks p src.cb_ann h,
      )
