-- ===== src/Message/Index.antt =====
-- src/ytp/index.c: a message of the index list names a stream and a place in it.
pub mod RoundTrip
use yamal.Base.{List, length, ltb, not, ℕ, ◌+◌}
use yamal.Message.Fields.{add64, load64, memcpy, store64, stream_list_indx, sub64}
use yamal.Yamal.Commit.{ytp_yamal_commit}
use yamal.Yamal.Iter.{ytp_yamal_read, ytp_yamal_seek}
use yamal.Yamal.Reserve.{ytp_yamal_reserve}
use yamal.Yamal.State.{M, gets, invalid_index, require, ◌>>=◌, ◌>>◌}

-- sizeof(struct idx_msg_t).
abbrev pub idx_msg : ℕ
idx_msg = 16

pub ytp_index_write : ℕ → ℕ → ℕ → List ℕ → M ℕ
ytp_index_write fuel stream offset payload = do
  msg ← ytp_yamal_reserve fuel (add64 (length payload) idx_msg)
  store64 msg stream
  store64 (msg + 8) offset
  memcpy (msg + idx_msg) payload
  ytp_yamal_commit fuel msg stream_list_indx

pub record IndexMessage : Type 0 where
  pub seqno : ℕ
  pub stream : ℕ
  pub offset : ℕ
  pub size : ℕ
  pub at : ℕ

pub ytp_index_read : ℕ → M IndexMessage
ytp_index_read it = do
  m ← ytp_yamal_read it
  require (not (ltb m.size idx_msg)) invalid_index
  gets λ y. record {
    seqno = m.seqno;
    stream = load64 m.at y;
    offset = load64 (m.at + 8) y;
    size = sub64 m.size idx_msg;
    at = m.at + idx_msg;
  }

pub ytp_index_lookup : ℕ → M IndexMessage
ytp_index_lookup offset = do it ← ytp_yamal_seek offset; ytp_index_read it
