-- ===== src/Cursor/Consume.antt =====
-- src/ytp/cursor.c: ytp_cursor_consume, by which a cursor takes over the callbacks of another one at
-- the same place. Memory does not run out, so there is no rollback.
pub mod Laws
use yamal.Base.{Bool, List, [], false, if◌then◌else◌, none, some, true, ℕ, ◌&&◌, ◌++◌, ◌==◌, ◌∷◌}
use yamal.Cursor.Array.{Callback, Callbacks, clear_callbacks, is_null}
use yamal.Cursor.Register.{at_stream, streams_data_emplace, streams_data_get}
use yamal.Cursor.State.{Cursor}

-- The callbacks that are not NULL.
pub active : List Callback → List Callback
active [] = []
active (p ∷ ps) = if is_null p then active ps else p ∷ active ps

-- The loop over the elements of one array of `src`.
pub take_over : Callbacks → Callbacks → Callbacks
unfolding active
take_over dest src = record dest { items = dest.items ++ active src.items }

-- The first HASH_ITER.
pub take_over_streams : List (ℕ × Callbacks) → List (ℕ × Callbacks) → List (ℕ × Callbacks)
take_over_streams dest [] = dest
take_over_streams dest ((k, a) ∷ src) =
    take_over_streams (at_stream k (λ d. take_over d a) (streams_data_emplace k dest)) src

-- The second HASH_ITER: every stream of `src` is in the table of `dest` by now, but the test is made.
pub release_streams : List (ℕ × Callbacks) → List (ℕ × Callbacks) → List (ℕ × Callbacks)
release_streams dest [] = []
release_streams dest ((k, a) ∷ src) =
    (elim (streams_data_get k dest) [ none ↦ (k, a) | some d ↦ (k, clear_callbacks a) ])
    ∷ release_streams dest src

-- The result, and both cursors, which are two.
pub ytp_cursor_consume : Cursor → Cursor → Bool × Cursor × Cursor
unfolding take_over_streams release_streams
ytp_cursor_consume dest src =
    let m = take_over_streams dest.cb_data src.cb_data in
    if src.it_data == dest.it_data && src.it_ann == dest.it_ann
    then (
      true,
      record dest { cb_data = m; cb_ann = take_over dest.cb_ann src.cb_ann },
      record src { cb_data = release_streams m src.cb_data; cb_ann = clear_callbacks src.cb_ann },
    )
    else (false, dest, src)
