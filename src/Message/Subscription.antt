-- ===== src/Message/Subscription.antt =====
-- src/ytp/subscription.c: a reader asks for a stream, once for all readers: the first one's
-- subscription is noted in the stream's announcement.
pub mod RoundTrip
use yamal.Base.{
  Bool, Option, false, if◌then◌else◌, none, not, some, store_le, suc, true, zero, ℕ, ◌==◌,
}
use yamal.Message.Announcement.{ytp_announcement_lookup}
use yamal.Message.Fields.{load64, store64, stream_list_subs}
use yamal.Yamal.Commit.{ytp_yamal_commit}
use yamal.Yamal.Iter.{
  ytp_yamal_next, ytp_yamal_read, ytp_yamal_seek, ytp_yamal_tell, ytp_yamal_term,
}
use yamal.Yamal.Publish.{with_bytes}
use yamal.Yamal.Reserve.{ytp_yamal_reserve}
use yamal.Yamal.State.{
  M, gets, hang, invalid_subscription, no_write_access, ok, pure, readonly_subscription, require,
  ◌>>=◌, ◌>>◌,
}

-- sizeof(struct sub_msg_t).
abbrev pub sub_msg : ℕ
sub_msg = 8

pub ytp_subscription_write : ℕ → ℕ → M ℕ
ytp_subscription_write fuel stream = do
  msg ← ytp_yamal_reserve fuel sub_msg
  store64 msg stream
  ytp_yamal_commit fuel msg stream_list_subs

-- `atomic_compare_exchange_weak_check` on a word of a payload that is expected to be 0.
pub cas_word : ℕ → ℕ → M Bool
cas_word a desired y =
    let actual = load64 a y in
    if actual == 0
    then (ok true, with_bytes (store_le 8 a desired y.byte) y)
    else (ok (actual == desired), y)

-- The part of ytp_subscription_commit for a stream that has no subscription yet.
subscribe : ℕ → ℕ → ℕ → M Bool
unfolding ytp_subscription_write cas_word
subscribe fuel stream subscribed = do
  sub_it ← ytp_subscription_write fuel stream
  sub_offs ← ytp_yamal_tell sub_it
  cas_word subscribed sub_offs

pub ytp_subscription_commit : ℕ → ℕ → M Bool
unfolding subscribe
ytp_subscription_commit fuel stream = do
  readonly ← gets λ y. y.readonly
  require (not readonly) readonly_subscription
  ann ← ytp_announcement_lookup stream
  subscribed ← gets (load64 ann.subscribed)
  if subscribed == 0 then subscribe fuel stream ann.subscribed else pure false

pub record SubMessage : Type 0 where
  pub seqno : ℕ
  pub stream : ℕ

pub ytp_subscription_read : ℕ → M SubMessage
ytp_subscription_read it = do
  m ← ytp_yamal_read it
  require (m.size == sub_msg) invalid_subscription
  gets λ y. record { seqno = m.seqno; stream = load64 m.at y }

pub ytp_subscription_lookup : ℕ → M SubMessage
ytp_subscription_lookup offset = do it ← ytp_yamal_seek offset; ytp_subscription_read it

-- The loop of ytp_subscription_next: the iterator that it leaves, and the stream that it found.
pub next_subscription : ℕ → ℕ → M (ℕ × Option ℕ)
next_subscription zero it y = (hang, y)
next_subscription (suc fuel) it y =
    let more = (do
      sub ← ytp_subscription_read it
      ann ← ytp_announcement_lookup sub.stream
      sub_offs ← ytp_yamal_tell it
      it' ← ytp_yamal_next it
      first ← cas_word ann.subscribed sub_offs
      let rest = next_subscription fuel it'
      if first then pure (it', some sub.stream) else rest) in
    if ytp_yamal_term it y then (ok (it, none), y) else more y

pub ytp_subscription_next : ℕ → ℕ → M (ℕ × Option ℕ)
unfolding next_subscription
ytp_subscription_next fuel it = do
  readonly ← gets λ y. y.readonly
  require (not readonly) no_write_access
  next_subscription fuel it
