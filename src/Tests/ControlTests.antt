-- ===== src/Tests/ControlTests.antt =====
-- A control on a file with one announcement, and the theorems at it.
use yamal.Base.{
  List, [], arith, if◌then◌else◌, length, load_bytes, load_le, none, refl, some, true, ℕ, ◌++◌, ◌+◌,
  ◌==◌, ◌∷◌, ◌≡◌,
}
use yamal.Control.Commits.{CommitsTo, ytp_control_commit_internal-announces}
use yamal.Control.Decl.{
  ytp_control_ch_decl, ytp_control_commit_internal, ytp_control_peer_decl, ytp_control_peer_name,
}
use yamal.Control.Declares.{ytp_control_peer_decl-new}
use yamal.Control.Keys.{IsKeyed, Spare}
use yamal.Control.Messages.{Control}
use yamal.Control.Numbers.{enumerate}
use yamal.Control.Order.{process_all, process_all-firsts}
use yamal.Control.Registry.{
  Name, NamedStream, Registry, empty_registry, name_test, peer_off, process_ann,
}
use yamal.Control.Table.{find}
use yamal.Control.Tables.{Fits, IsRegistry}
use yamal.Control.Walk.{IsAtEnd}
use yamal.Message.Announcement.{announcement_of, ytp_announcement_read}
use yamal.Message.Fields.{stream_list_anns}
use yamal.Streams.Search.{ytp_streams_search_ann}
use yamal.Streams.State.{bytes_equal}
use yamal.Tests.Files.{empty-HasRoom, empty-IsFile, empty_file, file_of}
use yamal.Yamal.Iter.{ytp_yamal_next, ytp_yamal_read, ytp_yamal_tell, ytp_yamal_term}
use yamal.Yamal.Pages.{get_mapped_memory, mmnode_from_offset, ytp_yamal_header}
use yamal.Yamal.State.{M, Node, Yamal, ok}

-- The announcement of `al` for the channel `n`, the first one of list 1: it is settled for the stream
-- 48, where the list starts.
abbrev announced_bytes : List (ℕ × ℕ)
announced_bytes = (568, 48) ∷ (584, 2) ∷ (588, 1) ∷ (592, 97) ∷ (593, 108) ∷ (594, 110) ∷ []

abbrev byte_at : List (ℕ × ℕ) → ℕ → ℕ
byte_at [] a = 0
byte_at ((p, b) ∷ rest) a = if p == a then b else byte_at rest a

abbrev announced_nodes : List (ℕ × Node)
announced_nodes =
    (48, record { size = 0; next = 536; prev = 536; seqno = 0 })
    ∷ (536, record { size = 27; next = 0; prev = 48; seqno = 1 })
    ∷ []

abbrev announced_file : Yamal
announced_file =
    let y = file_of announced_nodes 600 in
    record y { file = record y.file { byte = byte_at announced_bytes }; readonly = true }

abbrev new_control : Control
new_control = record { yamal = announced_file; anns = 56; registry = empty_registry }

abbrev alice : Name
alice = 97 ∷ 108 ∷ []

abbrev news : Name
news = 110 ∷ []

empty-IsRegistry : IsRegistry empty_registry
unfolding empty_registry enumerate
empty-IsRegistry = record {
  peers = record { numbers = refl; unique = tt };
  channels = record { numbers = refl; unique = tt };
}

-- The control after the declaration of a peer.
abbrev with_peer : Control
with_peer = (ytp_control_peer_decl 3 alice new_control).1

abbrev OneEach : Control → Type 0
OneEach c = (length c.registry.peers ≡ 1) × (length c.registry.channels ≡ 1)

OneEach-Fits : (c : Control) → OneEach c → Fits c.registry
OneEach-Fits c h = (omega (arith, h.0), omega (arith, h.1))

peer_declared : ((ytp_control_peer_decl 3 alice new_control).0 ≡ ok 256) × OneEach with_peer
unfolding ytp_control_peer_decl ytp_control_ch_decl ytp_control_commit_internal process_ann
    empty_registry ytp_streams_search_ann ytp_yamal_term ytp_yamal_next ytp_yamal_tell
    ytp_yamal_read get_mapped_memory mmnode_from_offset ytp_yamal_header announcement_of
    ytp_announcement_read load_le load_bytes bytes_equal
peer_declared = (refl, (refl, refl))

-- A new file, where there is nothing to read.
abbrev on_new_file : Control
on_new_file = record { yamal = empty_file; anns = 56; registry = empty_registry }

empty-IsKeyed : IsKeyed empty_registry
unfolding empty_registry find
empty-IsKeyed = record {
  peer = λ x s h. absurd (cc h);
  channel = λ x s h. absurd (cc h);
  stream = λ x s h. absurd (cc h);
}

empty-Spare : Spare empty_registry
unfolding empty_registry
empty-Spare = (omega arith, omega arith)

no_peers : find ⦃e = name_test⦄ alice empty_registry.name_to_peerid ≡ none
unfolding empty_registry find
no_peers = refl

no_announcements :
    (r : Registry) → IsAtEnd (record { yamal = empty_file; anns = 56; registry = r }) []
no_announcements r = record { file = empty-IsFile stream_list_anns (omega arith); at_end = refl }

ytp_control_peer_decl-new_example :
    (c' : Control) × (ytp_control_peer_decl 2 alice on_new_file
      ≡ (ok (peer_off + length empty_registry.peers), c'))
    × (c'.registry.peers ≡ empty_registry.peers ++ alice ∷ [])
    × (ytp_control_peer_name c' (peer_off + length empty_registry.peers) ≡ ok alice)
    × (ytp_control_peer_decl 2 alice c' ≡ (ok (peer_off + length empty_registry.peers), c'))
    × IsRegistry c'.registry
    × IsKeyed c'.registry
ytp_control_peer_decl-new_example =
    ytp_control_peer_decl-new 2 alice on_new_file [] empty-IsRegistry empty-IsKeyed empty-Spare
      no_peers (no_announcements empty_registry) (empty-HasRoom 26 (omega arith) (omega arith))
      (omega arith)

-- A commit that only tells its stream.
abbrev told : ℕ → M ℕ
told stream y = (ok stream, y)

abbrev with_commit : Control
with_commit = (ytp_control_commit_internal 3 256 256 told new_control).1

commit_done :
    ((ytp_control_commit_internal 3 256 256 told new_control).0 ≡ ok 48) × OneEach with_commit
unfolding ytp_control_peer_decl ytp_control_ch_decl ytp_control_commit_internal process_ann
    empty_registry ytp_streams_search_ann ytp_yamal_term ytp_yamal_next ytp_yamal_tell
    ytp_yamal_read get_mapped_memory mmnode_from_offset ytp_yamal_header announcement_of
    ytp_announcement_read load_le load_bytes bytes_equal
commit_done = (refl, (refl, refl))

-- The tables with a peer and a channel that have no stream yet.
abbrev two_names : Registry
two_names = record {
  ann_processed = 0;
  peers = alice ∷ [];
  channels = news ∷ [];
  streams = [];
  name_to_peerid = (alice, 256) ∷ [];
  name_to_channelid = (news, 256) ∷ [];
  key_to_streamid = [];
}

two_names-IsRegistry : IsRegistry two_names
unfolding enumerate
two_names-IsRegistry = record {
  peers = record { numbers = refl; unique = (tt, tt) };
  channels = record { numbers = refl; unique = (tt, tt) };
}

two_names-IsKeyed : IsKeyed two_names
unfolding find
two_names-IsKeyed = record {
  peer = λ x s h. absurd (cc h);
  channel = λ x s h. absurd (cc h);
  stream = λ x s h. absurd (cc h);
}

alice_known : find ⦃e = name_test⦄ alice two_names.name_to_peerid ≡ some 256
unfolding find bytes_equal
alice_known = refl

news_known : find ⦃e = name_test⦄ news two_names.name_to_channelid ≡ some 256
unfolding find bytes_equal
news_known = refl

abbrev two_named : Control
two_named = record { yamal = empty_file; anns = 56; registry = two_names }

ytp_control_commit_internal-announces_example :
    (stream : ℕ) × (c1 : Control) × CommitsTo 2 256 256 told two_named [] stream c1
ytp_control_commit_internal-announces_example =
    ytp_control_commit_internal-announces 2 256 256 told two_named [] alice news
      two_names-IsRegistry two_names-IsKeyed (omega arith, omega arith) alice_known news_known
      (no_announcements two_names) (empty-HasRoom 27 (omega arith) (omega arith)) (omega arith)

-- Three announcements, of two peers on two channels.
abbrev three : List NamedStream
three =
    record { peer = alice; channel = news; stream = 536 }
    ∷ record { peer = news; channel = news; stream = 600 }
    ∷ record { peer = alice; channel = alice; stream = 664 }
    ∷ []

three-Fits : Fits (process_all three empty_registry)
unfolding process_all empty_registry bytes_equal
three-Fits = (omega arith, omega arith)

process_all-firsts_example :
    IsRegistry (process_all three empty_registry)
    × ((process_all three empty_registry).peers ≡ alice ∷ news ∷ [])
    × ((process_all three empty_registry).channels ≡ news ∷ alice ∷ [])
unfolding process_all empty_registry bytes_equal
process_all-firsts_example = process_all-firsts three empty_registry empty-IsRegistry three-Fits
