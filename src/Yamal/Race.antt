-- ===== src/Yamal/Race.antt =====
-- src/ytp/yamal.c with several processes at once: the steps of ytp_yamal_commit, of ytp_yamal_close and
-- of a reader on one list, one access to the shared nodes at a time. The pages of a process are its
-- own, and taken to be mapped; an exchange fails only when it finds another value.
pub mod Inv
pub mod Frame
pub mod Spot
pub mod Moves
pub mod Own
pub mod Writes
pub mod Seal
pub mod Serial
pub mod Safety
pub mod Solo
use yamal.Base.{List, [], if◌then◌else◌, ltb, ℕ, ◌%◌, ◌++◌, ◌+◌, ◌==◌, ◌∷◌}
use yamal.Yamal.State.{Node, hdr_size, update, word}

abbrev pub Nodes : Type 0
Nodes = ℕ → Node

-- Where a process stands, with the variables that are live there: `mem` is the first node that it
-- commits, `offs` that node's offset, and `at` the node that the search has reached.
pub data Pc : Type 0 where
  -- ytp_yamal_commit
  start : (mem : ℕ) → Pc
  loaded : (mem offs : ℕ) → Pc
  walking : (mem offs at : ℕ) → Pc
  found : (mem offs at : ℕ) → Pc
  numbering : (mem offs at cur seqno : ℕ) → Pc
  ready : (mem offs at : ℕ) → Pc
  linked : (offs at : ℕ) → Pc
  returned : (at : ℕ) → Pc
  refused : Pc
  -- ytp_yamal_close
  to_close : Pc
  seeking : (at : ℕ) → Pc
  sealing : (at : ℕ) → Pc
  shut : Pc
  -- a reader, with the nodes that it has read: at ytp_yamal_term, and at ytp_yamal_next
  reading : (at : ℕ) (xs : List ℕ) → Pc
  following : (at : ℕ) (xs : List ℕ) → Pc

-- A process that commits: the hint is loaded, `while ((next_ptr = node->next) != 0)` is one load for
-- each round, the new nodes are numbered one after the other, and the exchange decides.
unfoldable pub commit_step : ℕ → ℕ → ℕ → ℕ → Nodes → Pc × Nodes
commit_step h mem offs at n =
    let actual = (n at).next in
    if actual == 0
    then (linked offs at, update n at (record (n at) { next = offs }))
    else (if actual == offs then (linked offs at, n) else (walking mem offs actual, n))

unfoldable pub walk_step : ℕ → ℕ → ℕ → ℕ → Nodes → Pc
walk_step h mem offs at n =
    let next = (n at).next in
    if next == 0 then found mem offs at else (if next == h then refused else walking mem offs next)

unfoldable pub number_step : ℕ → ℕ → ℕ → ℕ → ℕ → Nodes → Pc × Nodes
number_step mem offs at cur seqno n =
    let seqno' = (seqno + 1) % word in
    let n' = update n cur (record (n cur) { seqno = seqno' }) in
    let next = (n' cur).next in
    (if next == 0 then ready mem offs at else numbering mem offs at next seqno', n')

unfoldable pub seek_step : ℕ → ℕ → Nodes → Pc
seek_step h at n =
    let next = (n at).next in
    if next == 0 then sealing at else (if next == h then shut else seeking next)

unfoldable pub seal_step : ℕ → ℕ → Nodes → Pc × Nodes
seal_step h at n =
    let actual = (n at).next in
    if actual == 0
    then (shut, update n at (record (n at) { next = h }))
    else (if actual == h then (shut, n) else (seeking actual, n))

-- ytp_yamal_term, and ytp_yamal_next where there is a next node, which is then read.
unfoldable pub read_step : ℕ → List ℕ → Nodes → Pc
read_step at xs n =
    let next = (n at).next in if ltb next hdr_size then reading at xs else following at xs

unfoldable pub follow_step : ℕ → List ℕ → Nodes → Pc
follow_step at xs n = let next = (n at).next in reading next (xs ++ next ∷ [])

-- One access of a process to the list whose head is at `h`.
unfoldable pub advance : ℕ → Pc → Nodes → Pc × Nodes
unfolding commit_step walk_step number_step seek_step seal_step read_step follow_step
advance h (start mem) n = (loaded mem (n mem).prev, n)
advance h (loaded mem offs) n = (walking mem offs (n h).prev, n)
advance h (walking mem offs at) n = (walk_step h mem offs at n, n)
advance h (found mem offs at) n =
    (numbering mem offs at mem (n at).seqno, update n mem (record (n mem) { prev = at }))
advance h (numbering mem offs at cur seqno) n = number_step mem offs at cur seqno n
advance h (ready mem offs at) n = commit_step h mem offs at n
advance h (linked offs at) n = (returned at, update n h (record (n h) { prev = offs }))
advance h (returned at) n = (returned at, n)
advance h refused n = (refused, n)
advance h to_close n = (seeking (n h).prev, n)
advance h (seeking at) n = (seek_step h at n, n)
advance h (sealing at) n = seal_step h at n
advance h shut n = (shut, n)
advance h (reading at xs) n = (read_step at xs n, n)
advance h (following at xs) n = (follow_step at xs n, n)

-- The processes and the nodes that they share.
pub record System : Type 0 where
  pub node : Nodes
  pub pc : ℕ → Pc

abbrev pub place : (ℕ → Pc) → ℕ → Pc → ℕ → Pc
place f i p j = if i == j then p else f j

-- The process `i` takes its turn.
unfoldable pub turn : ℕ → ℕ → System → System
unfolding advance
turn h i s = let r = advance h (s.pc i) s.node in record { node = r.1; pc = place s.pc i r.0 }

-- What the processes can reach, in any order of their turns.
pub data Reach (h : ℕ) (s : System) : System → Type 0 where
  here : Reach h s s
  later : {t : System} (i : ℕ) → Reach h s t → Reach h s (turn h i t)
