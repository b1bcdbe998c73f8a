-- ===== src/Control/Decl.antt =====
-- src/ytp/control.cpp: the operations of a control.
use yamal.Base.{Bool, Option, [], get_elem?, if◌then◌else◌, ltb, none, not, some, ℕ, ◌&&◌, ◌==◌}
use yamal.Control.Messages.{Control, Handler, lookup_or_insert_ctrl_msg, process_control_msgs}
use yamal.Control.Registry.{
  Name, Registry, StreamKey, channel_off, empty_registry, key_test, name_test, peer_off,
}
use yamal.Control.Table.{find}
use yamal.Message.Announcement.{ytp_announcement_write}
use yamal.Message.Data.{
  ytp_data_commit, ytp_data_reserve, ytp_data_sublist_commit, ytp_data_sublist_finalize,
}
use yamal.Message.Fields.{stream_list_anns, stream_list_data, sub64}
use yamal.Streams.State.{bytes_equal}
use yamal.Yamal.Close.{ytp_unclosable}
use yamal.Yamal.Commit.{Sublist}
use yamal.Yamal.Init.{ytp_yamal_destroy, ytp_yamal_init_3}
use yamal.Yamal.Iter.{ytp_yamal_begin, ytp_yamal_end, ytp_yamal_seek, ytp_yamal_tell}
use yamal.Yamal.State.{
  M, Result, channel_not_found, err, hang, not_supported, ok, peer_not_found, pure, ◌>>=◌, ◌>>◌,
}

-- std::numeric_limits<uint64_t>::max().
abbrev pub none64 : ℕ
none64 = 18446744073709551615

abbrev pub on_file : {A : Type 0} → M A → Control → Result A × Control
on_file m c = let (r, y) = m c.yamal in (r, record c { yamal = y })

-- The part of a handler that writes an announcement with the default encoding.
unfoldable pub write_names : ℕ → Name → Name → Control → Result (Unit {0}) × Control
write_names fuel peer channel =
    on_file (do _ ← ytp_announcement_write fuel peer channel []; pure tt)

-- `peers[peer - YTP_PEER_OFF].name`, behind the test of the index.
unfoldable pub peer_at : ℕ → Registry → Option Name
peer_at peer c = get_elem? c.peers (sub64 peer peer_off)

unfoldable pub channel_at : ℕ → Registry → Option Name
channel_at channel c = get_elem? c.channels (sub64 channel channel_off)

unfoldable pub ytp_control_peer_name : Control → ℕ → Result Name
unfolding peer_at
ytp_control_peer_name c peer = elim (peer_at peer c.registry) [
  | none ↦ err peer_not_found
  | some name ↦ ok name
]

unfoldable pub ytp_control_ch_name : Control → ℕ → Result Name
unfolding channel_at
ytp_control_ch_name c channel = elim (channel_at channel c.registry) [
  | none ↦ err channel_not_found
  | some name ↦ ok name
]

-- What a handler starts with.
abbrev pub or_none : Option ℕ → ℕ
or_none none = none64
or_none (some k) = k

abbrev pub is_found : ℕ → Bool
is_found k = not (k == none64)

-- The handlers of ytp_control_peer_decl, ytp_control_ch_decl and ytp_control_commit_internal; each
-- has the number that it looks for.
unfoldable pub peer_handler : ℕ → Name → Handler ℕ
unfolding write_names
peer_handler fuel name = record {
  on_stream = λ call k. if bytes_equal call.peername name then call.peerid else k;
  found = λ c k. is_found k;
  insert = write_names fuel name [];
}

unfoldable pub channel_handler : ℕ → ℕ → Name → Handler ℕ
unfolding write_names peer_at
channel_handler fuel peer name = record {
  on_stream = λ call k. if bytes_equal call.chname name then call.channelid else k;
  found = λ c k. is_found k;
  insert = λ c. elim (peer_at peer c.registry) [
    | none ↦ (err peer_not_found, c)
    | some peername ↦ write_names fuel peername name c
  ];
}

unfoldable pub stream_handler : ℕ → ℕ → ℕ → Handler ℕ
unfolding write_names peer_at channel_at
stream_handler fuel peer channel = record {
  on_stream = λ call k. if call.peerid == peer && call.channelid == channel then call.stream else k;
  found = λ c k. is_found k;
  insert = λ c. elim (peer_at peer c.registry) [
    | none ↦ (err peer_not_found, c)
    | some peername ↦ elim (channel_at channel c.registry) [
      | none ↦ (err channel_not_found, c)
      | some chname ↦ write_names fuel peername chname c
    ]
  ];
}

unfoldable pub poll_handler : ℕ → Handler (Unit {0})
poll_handler seqno = record {
  on_stream = λ call st. st;
  found = λ c st. not (ltb c.ann_processed seqno);
  insert = λ c. (ok tt, c);
}

-- The number that a declaration returns.
abbrev pub answer : Result (Unit {0}) × ℕ × Control → Result ℕ × Control
answer (ok u, k, c) = (ok k, c)
answer (err e, k, c) = (err e, c)
answer (hang, k, c) = (hang, c)

unfoldable pub ytp_control_peer_decl : ℕ → Name → Control → Result ℕ × Control
unfolding find peer_handler lookup_or_insert_ctrl_msg
ytp_control_peer_decl fuel name c = answer (
    lookup_or_insert_ctrl_msg fuel (peer_handler fuel name)
      (or_none (find ⦃e = name_test⦄ name c.registry.name_to_peerid)) c)

unfoldable pub ytp_control_ch_decl : ℕ → ℕ → Name → Control → Result ℕ × Control
unfolding find channel_handler lookup_or_insert_ctrl_msg
ytp_control_ch_decl fuel peer name c = answer (
    lookup_or_insert_ctrl_msg fuel (channel_handler fuel peer name)
      (or_none (find ⦃e = name_test⦄ name c.registry.name_to_channelid)) c)

-- The call of `commit` with the stream that was found.
abbrev pub commit_to : {A : Type 0} → Result ℕ × Control → (ℕ → M A) → Result A × Control
commit_to (ok stream, c) commit = on_file (commit stream) c
commit_to (err e, c) commit = (err e, c)
commit_to (hang, c) commit = (hang, c)

unfoldable pub ytp_control_commit_internal :
    {A : Type 0} → ℕ → ℕ → ℕ → (ℕ → M A) → Control → Result A × Control
unfolding find stream_handler lookup_or_insert_ctrl_msg
ytp_control_commit_internal fuel peer channel commit c =
    let key : StreamKey = record { peer = peer; channel = channel } in
    commit_to
      (answer (
        lookup_or_insert_ctrl_msg fuel (stream_handler fuel peer channel)
          (or_none (find ⦃e = key_test⦄ key c.registry.key_to_streamid)) c))
      commit

unfoldable pub ytp_control_commit : ℕ → ℕ → ℕ → ℕ → ℕ → Control → Result ℕ × Control
unfolding ytp_control_commit_internal
ytp_control_commit fuel peer channel ts data' =
    ytp_control_commit_internal fuel peer channel (λ stream. ytp_data_commit fuel ts stream data')

pub ytp_control_sublist_commit :
    ℕ → ℕ → ℕ → ℕ → Option Sublist → ℕ → Control → Result Sublist × Control
unfolding ytp_control_commit_internal
ytp_control_sublist_commit fuel peer channel ts sub data' =
    ytp_control_commit_internal fuel peer channel
      (λ stream. ytp_data_sublist_commit ts stream sub data')

unfoldable pub ytp_control_poll_until : ℕ → ℕ → Control → Result (Unit {0}) × Control
unfolding poll_handler process_control_msgs
ytp_control_poll_until fuel seqno c =
    let (r, _, c') = process_control_msgs fuel (poll_handler seqno) tt c in (r, c')

-- The calls on the file.
pub ytp_control_reserve : ℕ → ℕ → Control → Result ℕ × Control
ytp_control_reserve fuel sz = on_file (ytp_data_reserve fuel sz)

pub ytp_control_sublist_finalize : ℕ → ℕ → Control → Result ℕ × Control
ytp_control_sublist_finalize fuel first_ptr = on_file (ytp_data_sublist_finalize fuel first_ptr)

pub ytp_control_end : Control → Result ℕ × Control
ytp_control_end = on_file (ytp_yamal_end stream_list_data)

pub ytp_control_seek : ℕ → Control → Result ℕ × Control
ytp_control_seek ptr = on_file (ytp_yamal_seek ptr)

pub ytp_control_tell : ℕ → Control → Result ℕ × Control
ytp_control_tell it = on_file (ytp_yamal_tell it)

-- What is not supported.
pub ytp_control_sub : Control → Result (Unit {0}) × Control
ytp_control_sub c = (err not_supported, c)

pub ytp_control_dir : Control → Result (Unit {0}) × Control
ytp_control_dir c = (err not_supported, c)

-- The constructor: a control with empty tables, or the error.
pub ytp_control_init : Bool → M Control
unfolding empty_registry
ytp_control_init enable_thread y =
    let (r, y') =
      (do ytp_yamal_init_3 enable_thread ytp_unclosable; ytp_yamal_begin stream_list_anns) y in
    elim r [
      | ok it ↦ (ok (record { yamal = y'; anns = it; registry = empty_registry }), y')
      | err e ↦ (err e, ytp_yamal_destroy y')
      | hang ↦ (hang, y')
    ]
