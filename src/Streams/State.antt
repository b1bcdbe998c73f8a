-- ===== src/Streams/State.antt =====
-- src/ytp/streams.c: the map from names to streams. Memory does not run out.
pub mod Laws
use yamal.Base.{
  Bool, List, Option, [], false, if◌then◌else◌, none, some, true, ℕ, ◌&&◌, ◌++◌, ◌==◌, ◌∷◌,
}
use yamal.Message.Fields.{stream_list_anns}
use yamal.Yamal.Iter.{ytp_yamal_begin}
use yamal.Yamal.State.{Result, Yamal, err, hang, ok}

-- Bytes that are compared by memcmp, with their sizes.
unfoldable pub bytes_equal : List ℕ → List ℕ → Bool
bytes_equal [] [] = true
bytes_equal [] (y ∷ ys) = false
bytes_equal (x ∷ xs) [] = false
bytes_equal (x ∷ xs) (y ∷ ys) = x == y && bytes_equal xs ys

-- `struct ytp_streams_reverse_map_key_t`.
pub record Key : Type 0 where
  pub peer : List ℕ
  pub channel : List ℕ

pub key_equal : Key → Key → Bool
unfolding bytes_equal
key_equal a b = bytes_equal a.peer b.peer && bytes_equal a.channel b.channel

-- `struct ytp_streams_reverse_map_t`: the encoding is a pointer into the file, with its size.
pub record Entry : Type 0 where
  pub esz : ℕ
  pub encoding : ℕ
  pub stream : ℕ

-- The hash table, as a list in the order of insertion; a key is stored once.
abbrev pub Map : Type 0
Map = List (Key × Entry)

pub streams_reverse_map_get : Map → Key → Option Entry
unfolding key_equal
streams_reverse_map_get [] key = none
streams_reverse_map_get ((k, e) ∷ m) key =
    if key_equal k key then some e else streams_reverse_map_get m key

-- What is there already is not changed.
pub streams_reverse_map_emplace : Map → Key → Entry → Entry × Map
unfolding streams_reverse_map_get
streams_reverse_map_emplace m key e = elim (streams_reverse_map_get m key) [
  | none ↦ (e, m ++ (key, e) ∷ [])
  | some old ↦ (old, m)
]

-- `struct ytp_streams`, with its file.
pub record Streams : Type 0 where
  pub yamal : Yamal
  pub iterator : ℕ
  pub reverse_map : Map

pub ytp_streams_init : Yamal → Result (Unit {0}) × Streams
ytp_streams_init y =
    let (r, y') = ytp_yamal_begin stream_list_anns y in
    elim r [
      | ok it ↦ (ok tt, record { yamal = y'; iterator = it; reverse_map = [] })
      | err e ↦ (err e, record { yamal = y'; iterator = 0; reverse_map = [] })
      | hang ↦ (hang, record { yamal = y'; iterator = 0; reverse_map = [] })
    ]
