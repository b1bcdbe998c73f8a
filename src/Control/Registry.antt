-- ===== src/Control/Registry.antt =====
-- src/ytp/control.hpp and process_ann of src/ytp/control.cpp. A std::string_view is the bytes that it
-- names, which do not change once they are announced.
use yamal.Base.{
  ==_iff, Bool, List, Option, [], arith, if◌then◌else◌, length, none, refl, some, subst, true, ℕ,
  ◌&&◌, ◌++◌, ◌==◌, ◌↔◌, ◌∷◌, ◌≡◌,
}
use yamal.Control.Table.{assign, emplace}
use yamal.Cursor.Register.Laws.{keys}
use yamal.LazyRemVector.{EqTest}
use yamal.Message.Fields.{add64}
use yamal.Streams.State.{bytes_equal}
use yamal.Streams.State.Laws.{bytes_equal_iff}

abbrev pub Name : Type 0
Name = List ℕ

instance abbrev pub name_test : EqTest Name
name_test = record { beq = bytes_equal; beq_iff = bytes_equal_iff }

pub record StreamKey : Type 0 where
  pub peer : ℕ
  pub channel : ℕ

abbrev pub key_beq : StreamKey → StreamKey → Bool
key_beq a b = a.peer == b.peer && a.channel == b.channel

pub key_beq_iff : (a b : StreamKey) → (key_beq a b ≡ true) ↔ (a ≡ b)
key_beq_iff a b = (
  λ h.
      let p : a.peer ≡ b.peer = ground (arith, h) in
      let c : a.channel ≡ b.channel = ground (arith, h) in rw (p, c) refl,
  λ e. subst (λ x. key_beq a x ≡ true) e (ground arith),
)

instance abbrev pub key_test : EqTest StreamKey
key_test = record { beq = key_beq; beq_iff = key_beq_iff }

instance abbrev pub offset_test : EqTest ℕ
offset_test = record { beq = ◌==◌; beq_iff = ==_iff }

-- YTP_PEER_OFF and YTP_CHANNEL_OFF.
abbrev pub peer_off : ℕ
peer_off = 256

abbrev pub channel_off : ℕ
channel_off = 256

-- The tables of `struct ytp_control`.
pub record Registry : Type 0 where
  pub ann_processed : ℕ
  pub peers : List Name
  pub channels : List Name
  pub streams : List (ℕ × StreamKey)
  pub name_to_peerid : List (Name × ℕ)
  pub name_to_channelid : List (Name × ℕ)
  pub key_to_streamid : List (StreamKey × ℕ)

unfoldable pub empty_registry : Registry
empty_registry = record {
  ann_processed = 0;
  peers = [];
  channels = [];
  streams = [];
  name_to_peerid = [];
  name_to_channelid = [];
  key_to_streamid = [];
}

-- What an announcement says: the names, and its offset.
pub record NamedStream : Type 0 where
  pub peer : Name
  pub channel : Name
  pub stream : ℕ

-- The call `handler.on_stream`.
pub record OnStream : Type 0 where
  pub stream : ℕ
  pub peerid : ℕ
  pub channelid : ℕ
  pub peername : Name
  pub chname : Name

-- The first stream of the two names, the call of the handler if it is this one, and the tables.
unfoldable pub process_ann : NamedStream → Registry → ℕ × Option OnStream × Registry
unfolding emplace assign
process_ann a c =
    let (peerid, peer_new, peers) =
      emplace a.peer (add64 (length c.name_to_peerid) peer_off) c.name_to_peerid in
    let (channelid, channel_new, channels) =
      emplace a.channel (add64 (length c.name_to_channelid) channel_off) c.name_to_channelid in
    let key : StreamKey = record { peer = peerid; channel = channelid } in
    let (first, stream_new, keys) = emplace key a.stream c.key_to_streamid in
    let call : OnStream = record {
      stream = a.stream;
      peerid = peerid;
      channelid = channelid;
      peername = a.peer;
      chname = a.channel;
    } in
    (
      first,
      if stream_new then some call else none,
      record {
        ann_processed = c.ann_processed;
        peers = if peer_new then c.peers ++ a.peer ∷ [] else c.peers;
        channels = if channel_new then c.channels ++ a.channel ∷ [] else c.channels;
        streams = if stream_new then assign a.stream key c.streams else c.streams;
        name_to_peerid = peers;
        name_to_channelid = channels;
        key_to_streamid = keys;
      },
    )
