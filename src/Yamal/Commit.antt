-- ===== src/Yamal/Commit.antt =====
-- src/ytp/yamal.c, ytp_yamal_commit and ytp_yamal_sublist_commit: reserved nodes are linked to the
-- end of a list. Here a call runs without interference. `fuel` bounds the rounds of each loop.
pub mod Walk
pub mod Append
pub mod Laws
use yamal.Base.{
  Bool, Option, if◌then◌else◌, none, refl, some, suc, true, zero, ℕ, ◌%◌, ◌+◌, ◌-◌, ◌==◌, ◌≡◌,
}
use yamal.Yamal.Pages.{mmnode_from_offset, ytp_yamal_header}
use yamal.Yamal.State.{
  M, Yamal, closed, err, gets, hang, head, node_header, ok, pure, put_node, set_next, set_prev,
  word, ◌>>=◌, ◌>>◌,
}

-- `atomic_compare_exchange_weak_check(&node->next, &expected, desired)` gives what the macro
-- evaluates to, and what `expected` holds afterwards. The exchange does not fail spuriously.
pub cas_next : ℕ → ℕ → ℕ → M (Bool × ℕ)
cas_next at expected desired y =
    let actual = (y.node at).next in
    if actual == expected
    then (ok (true, expected), put_node at (record (y.node at) { next = desired }) y)
    else (ok (actual == desired, actual), y)

-- `while ((next_ptr = node->next) != 0)`: the last node from `at` on, unless the list is closed.
pub find_end : ℕ → ℕ → ℕ → M ℕ
find_end zero closing at y = (hang, y)
find_end (suc fuel) closing at y =
    let next = (y.node at).next in
    let rest = (do _ ← mmnode_from_offset next; find_end fuel closing next) y in
    if next == 0 then (ok at, y) else if next == closing then (err closed, y) else rest

-- The sequence numbers of the new nodes, which follow `seqno`.
pub number : ℕ → ℕ → ℕ → M (Unit {0})
number zero at seqno y = (hang, y)
number (suc fuel) at seqno y =
    let seqno' = (seqno + 1) % word in
    let y' = put_node at (record (y.node at) { seqno = seqno' }) y in
    let next = (y'.node at).next in
    let rest = (do _ ← mmnode_from_offset next; number fuel next seqno') y' in
    if next == 0 then (ok tt, y') else rest

pub commit_loop : ℕ → ℕ → ℕ → ℕ → ℕ → ℕ → M ℕ
unfolding find_end number cas_next
commit_loop zero fuel mem offs closing next_ptr y = (hang, y)
commit_loop (suc tries) fuel mem offs closing next_ptr y =
    (do
      _ ← mmnode_from_offset next_ptr
      last ← find_end fuel closing next_ptr
      set_prev mem last
      seqno ← gets λ y. (y.node last).seqno
      number fuel mem seqno
      r ← cas_next last 0 offs
      let again = commit_loop tries fuel mem offs closing r.1
      if r.0 then pure last else again)
      y

-- `mmnode_from_data`.
abbrev pub mmnode_from_data : ℕ → ℕ
mmnode_from_data data' = data' - node_header

-- The result is `&node->next`, the iterator to the first new node.
pub ytp_yamal_commit : ℕ → ℕ → ℕ → M ℕ
unfolding commit_loop
ytp_yamal_commit fuel data' lstidx = do
  let mem = mmnode_from_data data'
  offs ← gets λ y. (y.node mem).prev
  _ ← ytp_yamal_header
  last ← gets λ y. (y.node (head lstidx)).prev
  last ← commit_loop fuel fuel mem offs (head lstidx) last
  set_prev (head lstidx) offs
  pure (last + 8)

-- `*first_ptr` and `*last_ptr` of a list of reserved nodes, which is not yet committed; without a
-- first there is no last.
pub record Sublist : Type 0 where
  pub first : ℕ
  pub last : ℕ

pub ytp_yamal_sublist_commit : Option Sublist → ℕ → M Sublist
ytp_yamal_sublist_commit none new_ptr = pure (record { first = new_ptr; last = new_ptr })
ytp_yamal_sublist_commit (some s) new_ptr = do
  let last_node = mmnode_from_data s.last
  prev ← gets λ y. (y.node last_node).prev
  maybelast_node ← mmnode_from_offset prev
  last ← gets λ y.
      if maybelast_node == last_node
      then (y.node maybelast_node).prev
      else (y.node maybelast_node).next
  let new_node = mmnode_from_data new_ptr
  new_off ← gets λ y. (y.node new_node).prev
  set_prev new_node last
  set_next last_node new_off
  pure (record s { last = new_ptr })

-- The exchange of a `next` field that is 0.
pub cas_next_lem :
    (at desired : ℕ) (y : Yamal)
    → (y.node at).next ≡ 0
    → cas_next at 0 desired y
      ≡ (ok (true, 0), put_node at (record (y.node at) { next = desired }) y)
unfolding cas_next
cas_next_lem at desired y e = rw e refl
