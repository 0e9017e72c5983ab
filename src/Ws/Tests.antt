-- ===== src/Ws/Tests.antt =====
-- Runs of the matcher, the service and the server, and their theorems at concrete inputs.
use nexus_mainframe.Common.{
  ◌+◌, ◌%◌, ◌^◌, ◌≡◌, refl, [], ◌∷◌, ◌++◌, Str, codes, length, false, Option, none, some, arith,
  str_eq,
}
use nexus_mainframe.Event.Bus.{pair}
use nexus_mainframe.Ws.Topics.{
  Filter, all_below, below, exact, any_one, at_end, topic_matches, filter_text, topic_text, accepts,
  topic_matches-accepts, is_reserved, starts_wild,
}
use nexus_mainframe.Ws.Service.{
  Subscriptions, WsService, subscribe_client, on_ws_close, on_ws_message, on_typed, on_mqtt_message,
}
use nexus_mainframe.Ws.Service.Mirror.{IsMirror, init-IsMirror, subscribe-IsMirror}
use nexus_mainframe.Ws.Service.Calls.{message, close, run_calls, run_calls-IsMirror}
use nexus_mainframe.Ws.Service.Bridge.{frames_to, copies, filters_for, on_mqtt_message-copies}
use nexus_mainframe.Cast.Socket.Chunks.{stream}
use nexus_mainframe.Ws.Server.{Connection, threw, read_frame, high_bytes}
use nexus_mainframe.Ws.Server.Frames.{masked_frame, short_length, extended_length}
use nexus_mainframe.Ws.Server.Handshake.{
  length-padded, accept_key, base64_encode, base64_char, base64_table, sha1, sha1_blocks,
  sha1_block, rounds, round_f, round_k, extend_words, block_words, rotl, complement, padded,
  pad_zeros,
}
use nexus_mainframe.Ws.Server.Reading.{Sent, read_frame-throws}

-- `home/+/#` and `home/lamp`.
abbrev rooms : Filter
rooms = below (exact (codes "home")) (below any_one all_below)

-- The last level of a topic may be empty in MQTT; `+` does not match it here.
plus_empty : topic_matches (codes "a/+") (codes "a/") ≡ false
unfolding topic_matches at_end
plus_empty = refl

topic_matches-accepts_example :
    topic_matches (filter_text rooms) (topic_text (codes "home") (codes "lamp" ∷ []))
    ≡ accepts rooms (codes "home") (codes "lamp" ∷ [])
unfolding is_reserved starts_wild
topic_matches-accepts_example =
    topic_matches-accepts rooms (codes "home") (codes "lamp" ∷ []) (ground arith) (ground arith)
      refl

abbrev none_yet : Subscriptions
none_yet = record { client_subs = []; filter_clients = [] }

abbrev lights : Subscriptions
lights = subscribe_client 2 (codes "#") (subscribe_client 1 (codes "a/+") none_yet)

lights-IsMirror : IsMirror lights
lights-IsMirror =
    subscribe-IsMirror 2 (codes "#") (subscribe_client 1 (codes "a/+") none_yet)
      (subscribe-IsMirror 1 (codes "a/+") none_yet init-IsMirror)

abbrev text_of : Str → Str → Option Str
text_of topic payload = some (topic ++ b'=' ∷ payload)

on_mqtt_message-copies_example :
    frames_to 2 (
      on_mqtt_message text_of
        (record { name = codes "mqtt:message"; payload = pair (codes "a/b") (codes "1") })
        lights)
    ≡ copies (filters_for 2 (codes "a/b") lights.filter_clients) (codes "a/b=1")
on_mqtt_message-copies_example =
    on_mqtt_message-copies text_of 2 (codes "mqtt:message") (codes "a/b") (codes "1")
      (codes "a/b=1") lights lights-IsMirror refl

-- A message is the type, and its topic is always `t`.
abbrev parse : Str → Option Str
parse raw = some raw

abbrev service : WsService
service = record { mqtt = record { client = none; next_pid = 1 }; subs = lights }

abbrev value : Str → Str → Option Str
value raw key = some raw

two_calls :
    run_calls parse value (message 1 (codes "ping") ∷ close 2 ∷ []) service
    ≡ some (record service { subs = on_ws_close 2 lights })
unfolding run_calls on_ws_message on_typed str_eq
two_calls = refl

run_calls-IsMirror_example : IsMirror (record service { subs = on_ws_close 2 lights }).subs
run_calls-IsMirror_example =
    run_calls-IsMirror parse value (message 1 (codes "ping") ∷ close 2 ∷ []) service
      (record service { subs = on_ws_close 2 lights }) lights-IsMirror two_calls

abbrev chat : Connection
chat = record {
  incoming = masked_frame 1 (1 ∷ 2 ∷ 3 ∷ 4 ∷ []) (codes "hello") ∷ [];
  accepts = [];
  outgoing = [];
}

abbrev attack : Connection
attack = record {
  incoming = (0x81 ∷ 255 ∷ 128 ∷ 0 ∷ 0 ∷ 0 ∷ 0 ∷ 0 ∷ 0 ∷ 0 ∷ 0 ∷ 0 ∷ 0 ∷ 0 ∷ []) ∷ [];
  accepts = [];
  outgoing = [];
}

attack-Sent :
    Sent attack
      (0x81 ∷ (128 + short_length (2 ^ 63)) ∷ extended_length (2 ^ 63) ++ (0 ∷ 0 ∷ 0 ∷ 0 ∷ []))
unfolding stream short_length extended_length high_bytes
attack-Sent = (((λ e. cc), tt), refl)

read_frame-throws_example : (read_frame attack).0 ≡ threw
read_frame-throws_example =
    read_frame-throws 1 (2 ^ 63) 0 0 0 0 [] attack (omega arith) (omega arith) (omega arith)
      attack-Sent

-- The example of RFC 6455.
accept_sample : accept_key (codes "dGhlIHNhbXBsZSBub25jZQ==") ≡ codes "s3pPLMBiTxaQ9kYGzzhZRbK+xOo="
unfolding accept_key base64_encode base64_char base64_table sha1 sha1_blocks sha1_block rounds
    round_f round_k extend_words block_words rotl complement padded pad_zeros high_bytes
accept_sample = refl

length-padded_example : length (padded (codes "abc")) % 64 ≡ 0
length-padded_example = length-padded (codes "abc")
