-- ===== src/Message/Time.antt =====
-- src/ytp/time.cpp: a message with the time `ts` before its data. A time is the pattern of its 64
-- bits.
use yamal.Base.{Option, ℕ, ◌+◌, ◌-◌}
use yamal.Message.Fields.{add64, load64, store64, sub64}
use yamal.Yamal.Commit.{Sublist, ytp_yamal_commit, ytp_yamal_sublist_commit}
use yamal.Yamal.Iter.{ytp_yamal_read}
use yamal.Yamal.Reserve.{ytp_yamal_reserve}
use yamal.Yamal.State.{M, gets, pure, ◌>>=◌, ◌>>◌}

-- sizeof(struct ytp_time_msg).
abbrev pub time_msg : ℕ
time_msg = 8

unfoldable pub ytp_time_reserve : ℕ → ℕ → M ℕ
ytp_time_reserve fuel size = do
  msg ← ytp_yamal_reserve fuel (add64 size time_msg)
  pure (msg + time_msg)

unfoldable pub ytp_time_commit : ℕ → ℕ → ℕ → ℕ → M ℕ
ytp_time_commit fuel ts data' lstidx = do
  let msg = data' - time_msg
  store64 msg ts
  ytp_yamal_commit fuel msg lstidx

unfoldable pub ytp_time_sublist_commit : ℕ → Option Sublist → ℕ → M Sublist
ytp_time_sublist_commit ts sub new_ptr = do
  let msg = new_ptr - time_msg
  store64 msg ts
  ytp_yamal_sublist_commit sub msg

pub record TimeMessage : Type 0 where
  pub seqno : ℕ
  pub ts : ℕ
  pub size : ℕ
  pub at : ℕ

unfoldable pub ytp_time_read : ℕ → M TimeMessage
ytp_time_read it = do
  m ← ytp_yamal_read it
  gets λ y. record {
    seqno = m.seqno;
    ts = load64 m.at y;
    size = sub64 m.size time_msg;
    at = m.at + time_msg;
  }
