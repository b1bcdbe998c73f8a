-- ===== src/Sequence/Calls.antt =====
-- src/ytp/sequence.cpp: the calls on a control and a timeline, kept together.
use yamal.Base.{Bool, List, Option, ℕ}
use yamal.Control.Decl.{
  ytp_control_ch_decl, ytp_control_ch_name, ytp_control_commit, ytp_control_dir, ytp_control_init,
  ytp_control_peer_decl, ytp_control_peer_name, ytp_control_reserve, ytp_control_sub,
  ytp_control_sublist_commit, ytp_control_sublist_finalize,
}
use yamal.Control.Registry.{Name}
use yamal.LazyRemVector.{size}
use yamal.Message.Fields.{stream_list_data}
use yamal.Timeline.Poll.{
  Both, ClientCode, T, changes, of_control, of_file, ytp_timeline_poll, ytp_timeline_seek,
  ytp_timeline_tell,
}
use yamal.Timeline.Register.{
  Client, ytp_timeline_cb_rm, ytp_timeline_ch_cb, ytp_timeline_ch_cb_rm, ytp_timeline_indx_cb,
  ytp_timeline_indx_cb_rm, ytp_timeline_init, ytp_timeline_iter_get, ytp_timeline_iter_set,
  ytp_timeline_peer_cb, ytp_timeline_peer_cb_rm, ytp_timeline_prfx_cb, ytp_timeline_prfx_cb_rm,
}
use yamal.Yamal.Commit.{Sublist}
use yamal.Yamal.Init.{ytp_yamal_destroy}
use yamal.Yamal.Iter.{ytp_yamal_end}
use yamal.Yamal.State.{M, Result, err, hang, ok}

abbrev pub Sequence : Type 0
Sequence = Both

-- The names of the channels of the control.
abbrev channel_names : Sequence → List (Name × ℕ)
channel_names w = w.control.registry.name_to_channelid

pub ytp_sequence_init_2 : Bool → Client → M Sequence
ytp_sequence_init_2 enable_thread wrapper y =
    let (r, y') = ytp_control_init enable_thread y in
    elim r [
      | ok c ↦
          let (t, y'') = ytp_timeline_init wrapper c.yamal in
          elim t [
            | ok t' ↦ (ok (record { timeline = t'; control = record c { yamal = y'' } }), y'')
            | err e ↦ (err e, ytp_yamal_destroy y'')
            | hang ↦ (hang, y'')
          ]
      | err e ↦ (err e, y')
      | hang ↦ (hang, y')
    ]

pub ytp_sequence_peer_name : ℕ → Sequence → Result Name
ytp_sequence_peer_name peer w = ytp_control_peer_name w.control peer

pub ytp_sequence_peer_decl : ℕ → Name → T ℕ
ytp_sequence_peer_decl fuel name = of_control (ytp_control_peer_decl fuel name)

pub ytp_sequence_peer_cb : Client → T (Unit {0})
ytp_sequence_peer_cb c = changes (ytp_timeline_peer_cb c)

pub ytp_sequence_peer_cb_rm : Client → T (Unit {0})
ytp_sequence_peer_cb_rm c = changes (ytp_timeline_peer_cb_rm c)

pub ytp_sequence_ch_name : ℕ → Sequence → Result Name
ytp_sequence_ch_name channel w = ytp_control_ch_name w.control channel

pub ytp_sequence_ch_decl : ℕ → ℕ → Name → T ℕ
ytp_sequence_ch_decl fuel peer name = of_control (ytp_control_ch_decl fuel peer name)

pub ytp_sequence_ch_cb : Client → T (Unit {0})
ytp_sequence_ch_cb c = changes (ytp_timeline_ch_cb c)

pub ytp_sequence_ch_cb_rm : Client → T (Unit {0})
ytp_sequence_ch_cb_rm c = changes (ytp_timeline_ch_cb_rm c)

pub ytp_sequence_sub : T (Unit {0})
ytp_sequence_sub = of_control ytp_control_sub

pub ytp_sequence_dir : T (Unit {0})
ytp_sequence_dir = of_control ytp_control_dir

unfoldable pub ytp_sequence_prfx_cb : Name → Client → T (Unit {0})
ytp_sequence_prfx_cb p c w = changes (ytp_timeline_prfx_cb p c (channel_names w)) w

unfoldable pub ytp_sequence_prfx_cb_rm : Name → Client → T (Unit {0})
ytp_sequence_prfx_cb_rm p c w = changes (ytp_timeline_prfx_cb_rm p c (channel_names w)) w

pub ytp_sequence_indx_cb : ℕ → Client → T (Unit {0})
ytp_sequence_indx_cb channel c = changes (ytp_timeline_indx_cb channel c)

pub ytp_sequence_indx_cb_rm : ℕ → Client → T (Unit {0})
ytp_sequence_indx_cb_rm channel c = changes (ytp_timeline_indx_cb_rm channel c)

pub ytp_sequence_reserve : ℕ → ℕ → T ℕ
ytp_sequence_reserve fuel size = of_control (ytp_control_reserve fuel size)

pub ytp_sequence_commit : ℕ → ℕ → ℕ → ℕ → ℕ → T ℕ
ytp_sequence_commit fuel peer channel ts msg =
    of_control (ytp_control_commit fuel peer channel ts msg)

pub ytp_sequence_sublist_commit : ℕ → ℕ → ℕ → ℕ → Option Sublist → ℕ → T Sublist
ytp_sequence_sublist_commit fuel peer channel ts sub msg =
    of_control (ytp_control_sublist_commit fuel peer channel ts sub msg)

pub ytp_sequence_sublist_finalize : ℕ → ℕ → T ℕ
ytp_sequence_sublist_finalize fuel first_ptr =
    of_control (ytp_control_sublist_finalize fuel first_ptr)

pub ytp_sequence_poll : ℕ → ClientCode → T Bool
ytp_sequence_poll fuel k = ytp_timeline_poll fuel k

pub ytp_sequence_end : T ℕ
ytp_sequence_end = of_file (ytp_yamal_end stream_list_data)

pub ytp_sequence_get_it : Sequence → ℕ
ytp_sequence_get_it w = ytp_timeline_iter_get w.timeline

pub ytp_sequence_set_it : ℕ → T (Unit {0})
ytp_sequence_set_it it = changes (ytp_timeline_iter_set it)

pub ytp_sequence_cb_rm : ℕ → T (Unit {0})
ytp_sequence_cb_rm wrapper = changes (ytp_timeline_cb_rm wrapper)

pub ytp_sequence_seek : ℕ → T ℕ
ytp_sequence_seek offset = ytp_timeline_seek offset

pub ytp_sequence_tell : ℕ → T ℕ
ytp_sequence_tell it = ytp_timeline_tell it
