-- ===== src/Yamal/Iter.antt =====
-- src/ytp/yamal.c: iterators. An iterator is the address of the `next` field of a node, and stands
-- before the node that this field names.
pub mod Laws
use yamal.Base.{Bool, if◌then◌else◌, leb, ltb, ℕ, ◌&&◌, ◌*◌, ◌+◌, ◌-◌}
use yamal.Yamal.Pages.{mmnode_from_offset, ytp_yamal_header}
use yamal.Yamal.State.{
  M, Yamal, fail, fault, gets, hdr_size, head, lists, node_header, on_error, pure, ◌>>=◌,
}

-- The node whose `next` field an iterator is.
abbrev pub node_of : ℕ → ℕ
node_of it = it - 8

abbrev pub load_next : ℕ → Yamal → ℕ
load_next it y = (y.node (node_of it)).next

-- A null header is followed.
abbrev pub header_or_fault : M ℕ
header_or_fault = on_error ytp_yamal_header λ _. fail fault

-- The error of the header is dropped.
pub ytp_yamal_begin : ℕ → M ℕ
ytp_yamal_begin lstidx = do _ ← header_or_fault; pure (head lstidx + 8)

pub ytp_yamal_end : ℕ → M ℕ
ytp_yamal_end lstidx = do
  _ ← header_or_fault
  offset ← gets λ y. (y.node (head lstidx)).prev
  node ← mmnode_from_offset offset
  pure (node + 8)

unfoldable pub ytp_yamal_term : ℕ → Yamal → Bool
ytp_yamal_term it y = ltb (load_next it y) hdr_size

unfoldable pub ytp_yamal_next : ℕ → M ℕ
ytp_yamal_next it = do
  offset ← gets (load_next it)
  node ← mmnode_from_offset offset
  pure (node + 8)

-- `(char *)it + offsetof(prev) - offsetof(next)` is the `prev` field of the same node.
pub ytp_yamal_prev : ℕ → M ℕ
ytp_yamal_prev it = do
  offset ← gets λ y. (y.node (node_of it)).prev
  prev ← mmnode_from_offset offset
  pure (prev + 8)

pub ytp_yamal_seek : ℕ → M ℕ
ytp_yamal_seek ptr = do node ← mmnode_from_offset ptr; pure (node + 8)

-- For an iterator inside the header the offset is read off its address, otherwise from the `next`
-- field of the node before it.
unfoldable pub ytp_yamal_tell : ℕ → M ℕ
ytp_yamal_tell it = do
  hdr ← ytp_yamal_header
  if leb (hdr + 16) it && ltb it (hdr + 16 + 32 * lists) then pure (it - 8 - hdr) else do
    prev_it ← gets λ y. (y.node (node_of it)).prev
    node ← mmnode_from_offset prev_it
    gets λ y. (y.node node).next

-- What `ytp_yamal_read` stores: the number, the size, and where the payload is.
pub record Message : Type 0 where
  pub seqno : ℕ
  pub size : ℕ
  pub at : ℕ

unfoldable pub ytp_yamal_read : ℕ → M Message
ytp_yamal_read it = do
  offset ← gets (load_next it)
  node ← mmnode_from_offset offset
  gets λ y. record {
    seqno = (y.node node).seqno;
    size = (y.node node).size;
    at = node + node_header;
  }
