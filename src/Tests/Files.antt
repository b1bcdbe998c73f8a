-- ===== src/Tests/Files.antt =====
-- Small files: an empty one, one with a committed message, two reserved nodes and a closed list.
use yamal.Base.{
  List, [], arith, false, if◌then◌else◌, inl, inr, ltb, refl, some, true, ℕ, ◌+◌, ◌-◌, ◌<◌, ◌==◌,
  ◌∷◌,
}
use yamal.Yamal.Close.{ytp_closable}
use yamal.Yamal.Close.Laws.{IsEnded}
use yamal.Yamal.Commit.Append.{IsReserved}
use yamal.Yamal.Commit.Laws.{IsOpen}
use yamal.Yamal.Init.{magic_number}
use yamal.Yamal.Init.Laws.{IsBlank}
use yamal.Yamal.Pages.Laws.{IsReliable}
use yamal.Yamal.Publish.{IsFile}
use yamal.Yamal.Reserve.{fmc_wordceil}
use yamal.Yamal.Reserve.Bounds.{HasRoom}
use yamal.Yamal.State.{Node, Os, Yamal, head, node_header, page_size}

abbrev zero_node : Node
zero_node = record { size = 0; next = 0; prev = 0; seqno = 0 }

-- The node headers by a table; what is not in the table is zero, as in a new file.
abbrev pub node_at : List (ℕ × Node) → ℕ → Node
node_at [] o = zero_node
node_at ((p, n) ∷ rest) o = if p == o then n else node_at rest o

abbrev pub good_os : Os
good_os = record {
  falloc = λ len size. some (if ltb len size then size else len);
  fview_init = λ p. true;
  fview_data = λ p. true;
  lock = true;
  unlock = true;
  thread = true;
}

abbrev pub file_of : List (ℕ × Node) → ℕ → Yamal
file_of nodes reserved = record {
  os = good_os;
  readonly = false;
  pages = λ p. p == 0;
  thread_created = false;
  file = record {
    magic = magic_number;
    reserved = reserved;
    closable = ytp_closable;
    node = node_at nodes;
    byte = λ a. 0;
    len = page_size;
  };
}

abbrev head_node : ℕ → ℕ → ℕ × Node
head_node l prev = (head l, record { size = 0; next = 0; prev = prev; seqno = 0 })

abbrev empty_nodes : List (ℕ × Node)
empty_nodes = head_node 0 16 ∷ head_node 1 48 ∷ head_node 2 80 ∷ head_node 3 112 ∷ []

-- As ytp_yamal_init_3 leaves it, for the first four lists.
abbrev pub empty_file : Yamal
empty_file = file_of empty_nodes 536

-- The same file, opened by a reader.
abbrev pub reader_file : Yamal
reader_file = record empty_file { readonly = true }

-- One message of 8 bytes in list 0, at 536; list 1 is closed with one message, at 576; and the nodes
-- at 616 and 656 are reserved and linked as a sublist.
abbrev pub busy_file : Yamal
busy_file =
    file_of
      ((16, record { size = 0; next = 536; prev = 536; seqno = 0 })
        ∷ (48, record { size = 0; next = 576; prev = 48; seqno = 0 })
        ∷ (536, record { size = 8; next = 0; prev = 16; seqno = 1 })
        ∷ (576, record { size = 8; next = 48; prev = 48; seqno = 1 })
        ∷ (616, record { size = 8; next = 656; prev = 616; seqno = 0 })
        ∷ (656, record { size = 8; next = 0; prev = 616; seqno = 0 })
        ∷ [])
      696

good-IsReliable : (nodes : List (ℕ × Node)) (n : ℕ) → IsReliable (file_of nodes n)
good-IsReliable nodes n = record {
  writable = refl;
  grows = λ len size. (_, refl);
  maps = λ p. refl;
  addresses = λ p. refl;
  locks = refl;
  unlocks = refl;
}

pub empty-IsReliable : IsReliable empty_file
empty-IsReliable = good-IsReliable empty_nodes 536

pub busy-IsOpen : IsOpen busy_file 0 (536 ∷ [])
busy-IsOpen = record {
  list = record {
    header = refl;
    index = omega arith;
    nexts = (refl, omega arith, (omega arith, refl), refl);
    prevs = (refl, tt);
    counts = (refl, tt);
  };
  hint = (536 ∷ [], [], refl, refl);
}

pub busy-IsReserved : IsReserved busy_file 0 (536 ∷ []) 616 (656 ∷ [])
busy-IsReserved = record {
  behind = omega arith;
  mapped = (omega arith, refl);
  own = refl;
  nexts = (refl, omega arith, (omega arith, refl), refl);
  prevs = (refl, tt);
  distinct = omega arith;
  disjoint = omega arith;
}

pub busy_closed : IsEnded busy_file 1 (576 ∷ []) 48
busy_closed = record {
  list = record {
    header = refl;
    index = omega arith;
    nexts = (refl, omega arith, (omega arith, refl), refl);
    prevs = (refl, tt);
    counts = (refl, tt);
  };
  hint = ([], 576 ∷ [], refl, refl);
  ended = inr refl;
}

pub busy_open : IsEnded busy_file 0 (536 ∷ []) 0
busy_open = record { list = busy-IsOpen.list; hint = busy-IsOpen.hint; ended = inl refl }

pub empty-IsFile : (l : ℕ) → l < 4 → IsFile empty_file l []
empty-IsFile l h = record {
  open' = record {
    list = record {
      header = refl;
      index = omega arith;
      nexts = ground arith;
      prevs = tt;
      counts = tt;
    };
    hint = ([], [], refl, ground arith);
  };
  below = tt;
  behind = omega arith;
  clean = λ o b. ground arith;
}

-- Two rounds suffice for a payload of up to 4000 bytes.
pub empty-HasRoom : (sz : ℕ) → 0 < sz → sz < 4000 → HasRoom 2 sz empty_file
unfolding fmc_wordceil
empty-HasRoom sz h k = record {
  reliable = empty-IsReliable;
  header = refl;
  positive = h;
  fits = omega arith;
  room = page_size - fmc_wordceil (node_header + sz);
  total = ground arith;
  enough = ground arith;
  rounds = omega arith;
  limit = omega arith;
}

-- A new file.
abbrev pub blank_file : Yamal
blank_file = record (file_of [] 0) {
  file = record {
    magic = 0;
    reserved = 0;
    closable = 0;
    node = node_at [];
    byte = λ a. 0;
    len = 0;
  };
}

pub blank_file-IsBlank : IsBlank blank_file
blank_file-IsBlank = record {
  magic = refl;
  reserved = refl;
  closable = refl;
  next = λ o. refl;
  prev = λ o. refl;
}

pub blank_file-IsReliable : IsReliable blank_file
blank_file-IsReliable = record {
  writable = refl;
  grows = λ len size. (_, refl);
  maps = λ p. refl;
  addresses = λ p. refl;
  locks = refl;
  unlocks = refl;
}
