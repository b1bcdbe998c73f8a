-- ===== src/Timeline/Poll.antt =====
-- src/ytp/timeline.cpp: the polls. The clients' callbacks are parameters: they may change the timeline,
-- the control and the file.
use yamal.Base.{
  Bool, Option, [], false, get_elem?, if◌then◌else◌, ltb, none, some, suc, true, zero, ℕ, ◌+◌, ◌==◌,
}
use yamal.Control.Decl.{ytp_control_poll_until}
use yamal.Control.Messages.{Control, processed}
use yamal.Control.Registry.{Name, StreamKey, channel_off, name_test, offset_test, peer_off}
use yamal.Control.Table.{find}
use yamal.LazyRemVector.{lock, new, release}
use yamal.Message.Announcement.{Announcement, ytp_announcement_lookup, ytp_announcement_next}
use yamal.Message.Data.{DataMessage, ytp_data_read}
use yamal.Message.Fields.{sub64, text_at}
use yamal.Streams.State.{bytes_equal}
use yamal.Timeline.Register.{
  Client, Clients, Timeline, at_present, channel_announcement, was_announced,
}
use yamal.Yamal.Iter.{ytp_yamal_next, ytp_yamal_seek, ytp_yamal_tell, ytp_yamal_term}
use yamal.Yamal.State.{
  Error, M, Result, err, fail, fault, hang, invalid_channel, invalid_peer, invalid_stream, ok,
  on_error,
}

pub record Both : Type 0 where
  pub timeline : Timeline
  pub control : Control

-- A call on a timeline; it may change the state also when it fails.
abbrev pub T : Type 0 → Type 0
T A = Both → Result A × Both

abbrev pub then_do : {A B : Type 0} → Result A × Both → (A → T B) → Result B × Both
then_do (ok a, w) f = f a w
then_do (err e, w) f = (err e, w)
then_do (hang, w) f = (hang, w)

infixl 5 ◌>>=◌ ◌>>◌
abbrev pub ◌>>=◌ : {A B : Type 0} → T A → (A → T B) → T B
◌>>=◌ m f w = then_do (m w) f

abbrev pub ◌>>◌ : {B : Type 0} → T (Unit {0}) → T B → T B
m >> k = m >>= λ _. k

abbrev pub gives : {A : Type 0} → A → T A
gives a w = (ok a, w)

abbrev fails : {A : Type 0} → Error → T A
fails e w = (err e, w)

abbrev pub of_file : {A : Type 0} → M A → T A
of_file m w =
    let (r, y) = m w.control.yamal in (r, record w { control = record w.control { yamal = y } })

abbrev pub of_control : {A : Type 0} → (Control → Result A × Control) → T A
of_control m w = let (r, c) = m w.control in (r, record w { control = c })

abbrev pub reads_from : {A : Type 0} → (Both → A) → T A
reads_from f w = (ok (f w), w)

abbrev pub changed : (Timeline → Timeline) → Both → Both
changed f w = record w { timeline = f w.timeline }

abbrev pub changes : (Timeline → Timeline) → T (Unit {0})
changes f w = (ok tt, changed f w)

-- The clients' code, with the number of the function that is channel_announcement_wrapper.
pub record ClientCode : Type 0 where
  pub wrapper : ℕ
  pub on_peer : Client → ℕ → Name → Both → Both
  pub on_ch : Client → ℕ → ℕ → Name → Both → Both
  pub on_data : Client → StreamKey → DataMessage → Both → Both
  pub on_idle : Client → Both → Both

-- The walk over a vector that may grow while it is walked; `fuel` bounds the steps.
unfoldable pub call_round : ℕ → (Both → Clients) → (Client → Both → Both) → ℕ → Both → Both
call_round zero v call pos w = w
call_round (suc fuel) v call pos w = elim (get_elem? (v w).items pos) [
  | none ↦ w
  | some i ↦
      let passed = call_round fuel v call (pos + 1) w in
      let called = call_round fuel v call (pos + 1) (call i.value w) in
      if i.removed then passed else called
]

-- `lock`, the walk and `release`; `at` writes to the vector.
abbrev pub locked_round :
    ℕ
    → (Both → Clients)
    → ((Clients → Clients) → Both → Both)
    → (Client → Both → Both)
    → Both
    → Both
locked_round fuel v at call w = at release (call_round fuel v call 0 (at lock w))

unfoldable pub peer_round : ℕ → ClientCode → ℕ → Name → Both → Both
unfolding call_round
peer_round fuel k peerid name =
    locked_round fuel (λ w. w.timeline.cb_peer)
      (λ f. changed λ t. record t { cb_peer = f t.cb_peer }) λ c. k.on_peer c peerid name

pub ch_round : ℕ → ClientCode → ℕ → ℕ → Name → Both → Both
unfolding call_round channel_announcement
ch_round fuel k peerid channelid name =
    locked_round fuel (λ w. w.timeline.cb_ch) (λ f. changed λ t. record t { cb_ch = f t.cb_ch })
      λ c w.
        if c.function == k.wrapper
        then changed (channel_announcement channelid name) w
        else k.on_ch c peerid channelid name w

-- The callbacks of a channel, if it has any.
abbrev clients_of : ℕ → Both → Option Clients
clients_of channel w = find ⦃e = offset_test⦄ channel w.timeline.idx_cb

abbrev vector_of : ℕ → Both → Clients
vector_of channel w = elim (clients_of channel w) [ none ↦ new | some v ↦ v ]

pub data_calls : ℕ → ClientCode → StreamKey → DataMessage → Both → Both
unfolding call_round at_present
data_calls fuel k key m w =
    let change = λ (f : Clients → Clients).
      changed λ t. record t { idx_cb = at_present ⦃e = offset_test⦄ f key.channel t.idx_cb } in
    let called = locked_round fuel (vector_of key.channel) change (λ c. k.on_data c key m) w in
    elim (clients_of key.channel w) [ none ↦ w | some v ↦ called ]

pub idle_round : ℕ → ClientCode → Both → Both
unfolding call_round
idle_round fuel k =
    locked_round fuel (λ w. w.timeline.cb_idle)
      (λ f. changed λ t. record t { cb_idle = f t.cb_idle }) λ c. k.on_idle c

-- The calls for a peer, and for a channel, that were not announced before.
abbrev pub tell_peer : ℕ → ClientCode → ℕ → Name → Both → Both
tell_peer fuel k peerid name w =
    let (before, marks) = was_announced (sub64 peerid peer_off) w.timeline.peer_announced in
    let w' = changed (λ t. record t { peer_announced = marks }) w in
    if before then w' else peer_round fuel k peerid name w'

abbrev pub tell_channel : ℕ → ClientCode → ℕ → ℕ → Name → Both → Both
tell_channel fuel k peerid channelid name w =
    let (before, marks) = was_announced (sub64 channelid channel_off) w.timeline.ch_announced in
    let w' = changed (λ t. record t { ch_announced = marks }) w in
    if bytes_equal name []
    then w
    else (if before then w' else ch_round fuel k peerid channelid name w')

abbrev or_fail : {A : Type 0} → Error → Option A → T A
or_fail e none = fails e
or_fail e (some a) = gives a

pub ytp_timeline_poll_ann : ℕ → ClientCode → T Bool
unfolding peer_round ch_round was_announced
ytp_timeline_poll_ann fuel k = do
  it ← reads_from λ w. w.timeline.it_ann
  next ← of_file (ytp_announcement_next fuel it)
  changes λ t. record t { it_ann = next.0 }
  elim next.1 [
    | none ↦ gives false
    | some a ↦ do
      of_control (ytp_control_poll_until fuel a.ann.seqno)
      peer ← reads_from λ w. text_at a.ann.peer a.ann.psz w.control.yamal
      channel ← reads_from λ w. text_at a.ann.channel a.ann.csz w.control.yamal
      known_peer ← reads_from λ w. find ⦃e = name_test⦄ peer w.control.registry.name_to_peerid
      peerid ← or_fail invalid_peer known_peer
      known_channel ←
          reads_from λ w. find ⦃e = name_test⦄ channel w.control.registry.name_to_channelid
      channelid ← or_fail invalid_channel known_channel
      λ w. (ok tt, tell_peer fuel k peerid peer w)
      λ w. (ok tt, tell_channel fuel k peerid channelid channel w)
      changes λ t. record t { ann_processed = a.ann.seqno }
      gives true
  ]

-- After an error of the lookup its results, which are not set, are used.
abbrev ann_or_fault : ℕ → M Announcement
ann_or_fault stream = on_error (ytp_announcement_lookup stream) λ _. fail fault

-- The message at the iterator, whose stream's announcement was polled.
pub deliver_data : ℕ → ClientCode → DataMessage → T Bool
unfolding data_calls
deliver_data fuel k m = do
  stream ← reads_from λ w. find ⦃e = offset_test⦄ m.stream w.control.registry.streams
  key ← or_fail invalid_stream stream
  it ← reads_from λ w. w.timeline.it_data
  next ← of_file (ytp_yamal_next it)
  changes λ t. record t { it_data = next }
  λ w. (ok tt, data_calls fuel k key m w)
  gives true

pub ytp_timeline_poll_data : ℕ → ClientCode → T Bool
unfolding deliver_data ytp_timeline_poll_ann
ytp_timeline_poll_data fuel k = do
  it ← reads_from λ w. w.timeline.it_data
  ended ← reads_from λ w. ytp_yamal_term it w.control.yamal
  if ended then gives false else do
    m ← of_file (ytp_data_read it)
    ann ← of_file (ann_or_fault m.stream)
    processed ← reads_from λ w. w.timeline.ann_processed
    if ltb processed ann.seqno
        then (do
          polled ← ytp_timeline_poll_ann fuel k
          if polled then gives true else fails invalid_stream)
        else (do of_control (ytp_control_poll_until fuel ann.seqno); deliver_data fuel k m)

abbrev or_idle : ℕ → ClientCode → Bool → T Bool
or_idle fuel k polled = if polled then gives true else λ w. (ok false, idle_round fuel k w)

pub ytp_timeline_poll_noidle : ℕ → ClientCode → T Bool
unfolding ytp_timeline_poll_data
ytp_timeline_poll_noidle fuel k = do
  ann ← ytp_timeline_poll_ann fuel k
  if ann then gives true else ytp_timeline_poll_data fuel k

pub ytp_timeline_poll : ℕ → ClientCode → T Bool
unfolding ytp_timeline_poll_noidle idle_round
ytp_timeline_poll fuel k = do polled ← ytp_timeline_poll_noidle fuel k; or_idle fuel k polled

-- `src_it_ann` is the iterator over the announcements of the other timeline.
pub ytp_timeline_poll_until_noidle : ℕ → ClientCode → ℕ → T Bool
unfolding ytp_timeline_poll ytp_timeline_poll_data
ytp_timeline_poll_until_noidle fuel k src_it_ann = do
  it ← reads_from λ w. w.timeline.it_ann
  if it == src_it_ann then ytp_timeline_poll_data fuel k else ytp_timeline_poll fuel k

pub ytp_timeline_poll_until : ℕ → ClientCode → ℕ → T Bool
unfolding ytp_timeline_poll_until_noidle idle_round
ytp_timeline_poll_until fuel k src_it_ann = do
  polled ← ytp_timeline_poll_until_noidle fuel k src_it_ann
  or_idle fuel k polled

pub ytp_timeline_seek : ℕ → T ℕ
ytp_timeline_seek ptr = do
  it ← of_file (ytp_yamal_seek ptr)
  changes λ t. record t { it_data = it }
  gives it

pub ytp_timeline_tell : ℕ → T ℕ
ytp_timeline_tell it = of_file (ytp_yamal_tell it)
