-- ===== src/Message/Data.antt =====
-- src/ytp/data.c: a message of the data list carries its stream before the data.
pub mod RoundTrip
use yamal.Base.{Option, ℕ, ◌+◌, ◌-◌}
use yamal.Message.Fields.{add64, load64, store64, stream_list_data, sub64}
use yamal.Message.Time.{ytp_time_commit, ytp_time_read, ytp_time_reserve, ytp_time_sublist_commit}
use yamal.Yamal.Commit.{Sublist, ytp_yamal_commit}
use yamal.Yamal.State.{M, gets, pure, ◌>>=◌, ◌>>◌}

-- sizeof(struct data_msg_t).
abbrev pub data_msg : ℕ
data_msg = 8

pub ytp_data_reserve : ℕ → ℕ → M ℕ
unfolding ytp_time_reserve
ytp_data_reserve fuel sz = do msg ← ytp_time_reserve fuel (add64 sz data_msg); pure (msg + data_msg)

pub ytp_data_commit : ℕ → ℕ → ℕ → ℕ → M ℕ
unfolding ytp_time_commit
ytp_data_commit fuel ts stream data' = do
  let msg = data' - data_msg
  store64 msg stream
  ytp_time_commit fuel ts msg stream_list_data

pub ytp_data_sublist_commit : ℕ → ℕ → Option Sublist → ℕ → M Sublist
ytp_data_sublist_commit ts stream sub data' = do
  let msg = data' - data_msg
  store64 msg stream
  ytp_time_sublist_commit ts sub msg

pub ytp_data_sublist_finalize : ℕ → ℕ → M ℕ
ytp_data_sublist_finalize fuel first_ptr = ytp_yamal_commit fuel first_ptr stream_list_data

pub record DataMessage : Type 0 where
  pub seqno : ℕ
  pub ts : ℕ
  pub stream : ℕ
  pub size : ℕ
  pub at : ℕ

pub ytp_data_read : ℕ → M DataMessage
unfolding ytp_time_read
ytp_data_read it = do
  m ← ytp_time_read it
  gets λ y. record {
    seqno = m.seqno;
    ts = m.ts;
    stream = load64 m.at y;
    size = sub64 m.size data_msg;
    at = m.at + data_msg;
  }
