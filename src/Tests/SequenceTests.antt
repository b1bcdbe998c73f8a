-- ===== src/Tests/SequenceTests.antt =====
-- A sequence whose control knows one channel.
use yamal.Base.{[], not, refl, some, ◌&&◌, ◌||◌, ◌∷◌, ◌≡◌}
use yamal.Control.Numbers.{enumerate}
use yamal.Control.Order.{member}
use yamal.Control.Registry.{Registry, channel_off, name_test}
use yamal.Control.Table.{find}
use yamal.Control.Tables.{IsRegistry}
use yamal.Sequence.Calls.{Sequence, ytp_sequence_prfx_cb, ytp_sequence_prfx_cb_rm}
use yamal.Sequence.Delivery.{ytp_sequence_prfx_cb-is_subscribed}
use yamal.Streams.State.{bytes_equal}
use yamal.Tests.TimelineTests.{folder, idle_world, listener, nested}
use yamal.Timeline.Delivery.{is_subscribed}
use yamal.Timeline.Prefix.{announced_keys}
use yamal.Timeline.Register.{client_beq}

abbrev one_channel : Registry
one_channel = record {
  ann_processed = 0;
  peers = [];
  channels = nested ∷ [];
  streams = [];
  name_to_peerid = [];
  name_to_channelid = (nested, channel_off) ∷ [];
  key_to_streamid = [];
}

one_channel-IsRegistry : IsRegistry one_channel
unfolding enumerate
one_channel-IsRegistry = record {
  peers = record { numbers = refl; unique = tt };
  channels = record { numbers = refl; unique = (tt, tt) };
}

abbrev sequence : Sequence
sequence = record {
  timeline = idle_world.timeline;
  control = record idle_world.control { registry = one_channel };
}

nested_known : find ⦃e = name_test⦄ nested one_channel.name_to_channelid ≡ some channel_off
unfolding find bytes_equal
nested_known = refl

ytp_sequence_prfx_cb-is_subscribed_example :
    (is_subscribed listener channel_off (ytp_sequence_prfx_cb folder listener sequence).1.timeline
      ≡ (is_subscribed listener channel_off sequence.timeline
          || (member ⦃e = name_test⦄ folder (announced_keys 4 nested)
              && client_beq listener listener)))
    × (is_subscribed listener channel_off
          (ytp_sequence_prfx_cb_rm folder listener sequence).1.timeline
        ≡ (is_subscribed listener channel_off sequence.timeline
            && not (
                member ⦃e = name_test⦄ folder (announced_keys 4 nested)
                && client_beq listener listener)))
ytp_sequence_prfx_cb-is_subscribed_example =
    ytp_sequence_prfx_cb-is_subscribed sequence nested channel_off one_channel-IsRegistry
      nested_known folder listener listener
