-- ===== src/Mqtt/Tests.antt =====
-- Packets of the client, and the theorems at concrete inputs.
use nexus_mainframe.Common.{
  ℕ, ◌+◌, ◌<◌, ◌≡◌, ◌↔◌, refl, [], ◌∷◌, ◌++◌, codes, true, false, some, arith,
}
use nexus_mainframe.Event.Bus.{EventBus, init}
use nexus_mainframe.Mqtt.Client.{
  MqttClient, encode_string, with_length, connect_body, connect_packet, subscribe_body,
  subscribe_packet, publish_body, publish_packet, end_of_stream, receive_loop,
}
use nexus_mainframe.Mqtt.Client.Packets.{framed, packets-framed}
use nexus_mainframe.Mqtt.Client.Messages.{events, deliveries, receive_loop-deliveries}

abbrev client : MqttClient
client = record {
  client_id = codes "n";
  connected = true;
  running = true;
  accepts = [];
  outgoing = [];
}

abbrev bus : EventBus ℕ
bus = init

publish_light :
    publish_packet (codes "a/b") (codes "on")
    ≡ 0x30 ∷ 7 ∷ 0 ∷ 3 ∷ b'a' ∷ b'/' ∷ b'b' ∷ b'o' ∷ b'n' ∷ []
unfolding publish_packet publish_body with_length encode_string
publish_light = refl

packets-framed_example :
    ((12 + 1 < 128) ↔ (connect_packet (codes "n") ≡ framed 0x10 (connect_body (codes "n"))))
    × ((5 + 3 < 128)
        ↔ (subscribe_packet 1 (codes "a/b") ≡ framed 0x82 (subscribe_body 1 (codes "a/b"))))
    × ((2 + 3 + 2 < 128) ↔ (
        publish_packet (codes "a/b") (codes "on")
        ≡ framed 0x30 (publish_body (codes "a/b") (codes "on"))))
packets-framed_example = packets-framed 1 (codes "n") (codes "a/b") (codes "on")

bus_up : bus.is_shutting_down ≡ false
unfolding init
bus_up = refl

receive_loop-deliveries_example :
    receive_loop
      (deliveries ((codes "a", codes "1") ∷ (codes "b", codes "2") ∷ []) ++ end_of_stream ∷ [])
      (client, bus)
    ≡ some (
      record client { connected = false },
      record bus {
        event_queue =
            bus.event_queue ++ events ((codes "a", codes "1") ∷ (codes "b", codes "2") ∷ []);
      },
    )
receive_loop-deliveries_example =
    receive_loop-deliveries ((codes "a", codes "1") ∷ (codes "b", codes "2") ∷ []) [] client bus
      (omega arith, (omega arith, tt)) refl bus_up
