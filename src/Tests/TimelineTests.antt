-- ===== src/Tests/TimelineTests.antt =====
-- The theorem on prefixes and names, at a few names.
use yamal.Base.{List, [], arith, false, refl, true, ℕ, ◌+◌, ◌∷◌, ◌≡◌}
use yamal.Control.Order.{member}
use yamal.Control.Registry.{Name, name_test}
use yamal.LazyRemVector.{Item, emplace_back, erase_if, new, push_unique}
use yamal.Streams.State.{bytes_equal}
use yamal.Tests.Files.{empty_file}
use yamal.Timeline.Announced.{tell_peer-once}
use yamal.Timeline.Both.{prfx_for_each-announced_keys}
use yamal.Timeline.Delivery.{
  Numbered, Unnumbered, is_subscribed, ytp_timeline_prfx_cb-channel_announcement,
}
use yamal.Timeline.Match.{has}
use yamal.Timeline.Poll.{Both, ClientCode, call_round, tell_peer}
use yamal.Timeline.Prefix.{announced_keys, prfx_for_each}
use yamal.Timeline.Register.{
  Client, Clients, Timeline, channel_announcement, ytp_timeline_prfx_cb, ytp_timeline_prfx_cb_rm,
}
use yamal.Timeline.Round.{call_round-calls}

abbrev pub nested : Name
nested = 97 ∷ 47 ∷ 98 ∷ []

abbrev pub folder : Name
folder = 97 ∷ 47 ∷ []

abbrev channels : List (Name × ℕ)
channels = (99 ∷ [], 256) ∷ (nested, 257) ∷ (97 ∷ [], 258) ∷ []

nested_there : has nested channels ≡ true
unfolding has bytes_equal
nested_there = refl

-- Both find the name, and miss another one.
folder_found :
    (prfx_for_each folder channels ≡ (nested, 257) ∷ [])
    × (announced_keys 4 nested ≡ (47 ∷ []) ∷ nested ∷ folder ∷ [])
unfolding prfx_for_each announced_keys bytes_equal
folder_found = (refl, refl)

prfx_for_each-announced_keys_example :
    has nested (prfx_for_each folder channels)
    ≡ member ⦃e = name_test⦄ folder (announced_keys 4 nested)
prfx_for_each-announced_keys_example =
    prfx_for_each-announced_keys folder nested channels 4 nested_there (omega arith)

-- Three callbacks on idle polls, one of which is marked as removed; a call counts in the iterator.
abbrev idle_items : List (Item Client)
idle_items =
    record { value = record { function = 1; closure = 10 }; removed = false }
    ∷ record { value = record { function = 1; closure = 20 }; removed = true }
    ∷ record { value = record { function = 2; closure = 30 }; removed = false }
    ∷ []

abbrev nobody : Clients
nobody = record { items = []; lock_count = 0; removed_count = 0 }

abbrev pub idle_world : Both
idle_world = record {
  timeline = record {
    it_data = 24;
    it_ann = 56;
    ann_processed = 0;
    cb_peer = nobody;
    cb_ch = nobody;
    cb_idle = record { items = idle_items; lock_count = 1; removed_count = 1 };
    prfx_cb = [];
    idx_cb = [];
    ch_announced = [];
    peer_announced = [];
  };
  control = record {
    yamal = empty_file;
    anns = 56;
    registry = record {
      ann_processed = 0;
      peers = [];
      channels = [];
      streams = [];
      name_to_peerid = [];
      name_to_channelid = [];
      key_to_streamid = [];
    };
  };
}

abbrev idle_of : Both → Clients
idle_of w = w.timeline.cb_idle

abbrev count_call : Client → Both → Both
count_call c w = record w {
  timeline = record w.timeline { it_data = w.timeline.it_data + c.closure };
}

call_round-calls_example :
    call_round 4 idle_of count_call 0 idle_world
    ≡ record idle_world { timeline = record idle_world.timeline { it_data = 64 } }
call_round-calls_example =
    call_round-calls idle_of count_call (λ c w. refl) 4 idle_world (omega arith)

-- The map of channels before the nested one is announced, and a client of its folder.
abbrev earlier : List (Name × ℕ)
earlier = (99 ∷ [], 256) ∷ (97 ∷ [], 258) ∷ []

abbrev pub listener : Client
listener = record { function = 7; closure = 70 }

nested-Numbered : Numbered 257 nested channels
unfolding bytes_equal
nested-Numbered = (refl, (refl, (refl, tt)))

nested-Unnumbered : Unnumbered 257 earlier
nested-Unnumbered = (refl, (refl, tt))

ytp_timeline_prfx_cb-channel_announcement_example :
    is_subscribed listener 257 (
      channel_announcement 257 nested
        (ytp_timeline_prfx_cb folder listener earlier idle_world.timeline))
    ≡ is_subscribed listener 257 (
        ytp_timeline_prfx_cb folder listener channels
          (channel_announcement 257 nested idle_world.timeline))
ytp_timeline_prfx_cb-channel_announcement_example =
    ytp_timeline_prfx_cb-channel_announcement listener listener folder nested 257
      idle_world.timeline channels nested-Numbered nested_there earlier nested-Unnumbered

listener_subscribed :
    is_subscribed listener 257 (
      channel_announcement 257 nested
        (ytp_timeline_prfx_cb folder listener earlier idle_world.timeline))
    ≡ true
unfolding is_subscribed channel_announcement ytp_timeline_prfx_cb bytes_equal emplace_back new
    push_unique
listener_subscribed = refl

-- The client is registered for the folder and for the channel itself, and removed from the folder.
abbrev both_ways : Timeline
both_ways =
    ytp_timeline_prfx_cb nested listener channels
      (ytp_timeline_prfx_cb folder listener channels idle_world.timeline)

-- It is called no longer, though the registration for the channel itself stands.
listener_gone :
    is_subscribed listener 257 (ytp_timeline_prfx_cb_rm folder listener channels both_ways) ≡ false
unfolding is_subscribed ytp_timeline_prfx_cb_rm ytp_timeline_prfx_cb bytes_equal erase_if
    push_unique new
listener_gone = refl

-- A client of peers that counts in the iterator, told of peer 256 twice.
abbrev counting : ClientCode
counting = record {
  wrapper = 1;
  on_peer = λ c peerid name w. count_call c w;
  on_ch = λ c peerid channelid name w. w;
  on_data = λ c key m w. w;
  on_idle = λ c w. w;
}

abbrev peer_world : Both
peer_world = record idle_world {
  timeline = record idle_world.timeline {
    cb_peer = record {
      items = record { value = listener; removed = false } ∷ [];
      lock_count = 0;
      removed_count = 0;
    };
  };
}

tell_peer-once_example :
    tell_peer 2 counting 256 nested (tell_peer 2 counting 256 nested peer_world)
    ≡ tell_peer 2 counting 256 nested peer_world
tell_peer-once_example = tell_peer-once 2 counting 256 nested (λ c w. refl) peer_world
