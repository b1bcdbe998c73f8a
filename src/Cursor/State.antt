-- ===== src/Cursor/State.antt =====
-- The state of a cursor, and the actions on it and on its file.
use yamal.Base.{List, ℕ}
use yamal.Cursor.Array.{Callbacks}
use yamal.Yamal.State.{Error, M, Result, Yamal, err, hang, ok}

-- `struct ytp_cursor`: iterators are offsets, and the table of the streams' callbacks is a list in
-- the order of insertion, which is how HASH_ITER walks it.
pub record Cursor : Type 0 where
  pub it_data : ℕ
  pub it_ann : ℕ
  pub ann_processed : ℕ
  pub cb_data : List (ℕ × Callbacks)
  pub cb_ann : Callbacks

pub record World : Type 0 where
  pub cursor : Cursor
  pub yamal : Yamal

-- A call on a cursor; it may change the state also when it fails.
abbrev pub C : Type 0 → Type 0
C A = World → Result A × World

abbrev pub and_then : {A B : Type 0} → Result A × World → (A → C B) → Result B × World
and_then (ok a, w) f = f a w
and_then (err e, w) f = (err e, w)
and_then (hang, w) f = (hang, w)

infixl 5 ◌>>=◌ ◌>>◌
abbrev pub ◌>>=◌ : {A B : Type 0} → C A → (A → C B) → C B
◌>>=◌ m f w = and_then (m w) f

abbrev pub ◌>>◌ : {B : Type 0} → C (Unit {0}) → C B → C B
m >> k = m >>= λ _. k

abbrev pub done : {A : Type 0} → A → C A
done a w = (ok a, w)

abbrev pub stop : {A : Type 0} → Error → C A
stop e w = (err e, w)

-- A call on the file.
abbrev pub lift : {A : Type 0} → M A → C A
lift m w = let (r, y) = m w.yamal in (r, record w { yamal = y })

abbrev pub reads : {A : Type 0} → (Cursor → A) → C A
reads f w = (ok (f w.cursor), w)

abbrev pub on_cursor : (Cursor → Cursor) → World → World
on_cursor f w = record w { cursor = f w.cursor }

abbrev pub writes : (Cursor → Cursor) → C (Unit {0})
writes f w = (ok tt, on_cursor f w)

-- What a caller does when a call has set its error.
abbrev pub or_else : {A : Type 0} → Result A × World → (Error → C A) → Result A × World
or_else (ok a, w) h = (ok a, w)
or_else (err e, w) h = h e w
or_else (hang, w) h = (hang, w)

abbrev pub with_callbacks : List (ℕ × Callbacks) → Cursor → Cursor
with_callbacks m c = record c { cb_data = m }
