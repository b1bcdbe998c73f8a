-- ===== src/Message/Fields.antt =====
-- Words and byte strings in the payload of a node, and the numbers of the lists.
use yamal.Base.{List, load_bytes, load_le, store_bytes, store_le, ℕ, ◌%◌, ◌+◌, ◌-◌}
use yamal.Yamal.Publish.{with_bytes}
use yamal.Yamal.State.{M, Yamal, modify, word}

abbrev pub stream_list_data : ℕ
stream_list_data = 0

abbrev pub stream_list_anns : ℕ
stream_list_anns = 1

abbrev pub stream_list_subs : ℕ
stream_list_subs = 2

abbrev pub stream_list_indx : ℕ
stream_list_indx = 3

abbrev pub int32_max : ℕ
int32_max = 2147483647

-- Subtraction and addition of `size_t`.
abbrev pub sub64 : ℕ → ℕ → ℕ
sub64 a b = (a + word - b) % word

abbrev pub add64 : ℕ → ℕ → ℕ
add64 a b = (a + b) % word

-- `memcpy` and the stores and loads of words, at an offset in the file.
abbrev pub edit : ((ℕ → ℕ) → ℕ → ℕ) → M (Unit {0})
edit f = modify λ y. with_bytes (f y.byte) y

abbrev pub store64 : ℕ → ℕ → M (Unit {0})
store64 a v = edit (store_le 8 a v)

abbrev pub store32 : ℕ → ℕ → M (Unit {0})
store32 a v = edit (store_le 4 a v)

abbrev pub memcpy : ℕ → List ℕ → M (Unit {0})
memcpy a xs = edit (store_bytes a xs)

abbrev pub load64 : ℕ → Yamal → ℕ
load64 a y = load_le 8 y.byte a

abbrev pub load32 : ℕ → Yamal → ℕ
load32 a y = load_le 4 y.byte a

-- The bytes that a pointer and a size stand for.
abbrev pub text_at : ℕ → ℕ → Yamal → List ℕ
text_at a sz y = load_bytes sz y.byte a
