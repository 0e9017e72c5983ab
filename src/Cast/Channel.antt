-- ===== src/Cast/Channel.antt =====
-- CastChannel.cpp: length-prefixed frames over the socket, and the receiving thread.
-- `json::parse(payload).value("type", "") == "PING"` is the parameter `is_ping`, `false` where the
-- parser throws. Only the receiving thread's own writes of `running_` are modelled.
pub mod Frames
pub mod Receive
use Prim.Native.Nat.{bit_and, bit_or}
use nexus_mainframe.Common.{
  ℕ, zero, suc, ◌+◌, ◌*◌, ◌/◌, ◌%◌, ◌^◌, List, [], ◌∷◌, ◌++◌, Str, codes, length, get_or, Bool,
  true, false, ◌&&◌, ◌||◌, ◌==◌, Option, none, some, ltb, if◌then◌else◌, str_eq,
}
use nexus_mainframe.Cast.Proto.{
  CastMessage, Read, ok, failed, threw, stuck, encode_cast_message, decode_cast_message,
}
use nexus_mainframe.Cast.Socket.{TlsSocket, recv_all, send_all}
use nexus_mainframe.Cast.Socket

abbrev pub max_message_size : ℕ
max_message_size = 1_000_000

unfoldable pub ns_connection : Str
ns_connection = codes "urn:x-cast:com.google.cast.tp.connection"

unfoldable pub ns_heartbeat : Str
ns_heartbeat = codes "urn:x-cast:com.google.cast.tp.heartbeat"

unfoldable pub frame_header : ℕ → List ℕ
frame_header len =
    bit_and (len / 2 ^ 24) 0xff
    ∷ bit_and (len / 2 ^ 16) 0xff
    ∷ bit_and (len / 2 ^ 8) 0xff
    ∷ bit_and len 0xff
    ∷ []

-- `static_cast<uint32_t>(body.size())` is `% 2 ^ 32`.
unfoldable pub packet : CastMessage → List ℕ
packet msg = let body = encode_cast_message msg in frame_header (length body % 2 ^ 32) ++ body

unfoldable pub send : TlsSocket → CastMessage → Bool × TlsSocket
send s msg = send_all s (packet msg)

unfoldable pub header_length : List ℕ → ℕ
header_length hdr =
    bit_or
      (bit_or (bit_or (get_or hdr 0 0 * 2 ^ 24) (get_or hdr 1 0 * 2 ^ 16)) (get_or hdr 2 0 * 2 ^ 8))
      (get_or hdr 3 0)

-- `readMessage`, where it does not throw, returns `true` with a message or `false`.
unfoldable pub read_message : TlsSocket → Read CastMessage × TlsSocket
read_message s =
    let (hdr, s1) = recv_all s 4 in
    elim hdr [
      | none ↦ (failed, s1)
      | some h ↦
          let len = header_length h in
          if len == 0 || ltb max_message_size len
          then (failed, s1)
          else (let (body, s2) = recv_all s1 len in
              elim body [ none ↦ (failed, s2) | some b ↦ (decode_cast_message b, s2) ])
    ]

-- What the receiving thread calls back.
pub data Callback : Type 0 where
  message : CastMessage → Callback
  disconnected : Callback

pub record CastChannel : Type 0 where
  pub running : Bool
  pub socket : TlsSocket
  pub callbacks : List Callback

unfoldable pub pong : CastMessage → CastMessage
pong msg = record {
  source_id = msg.destination_id;
  destination_id = msg.source_id;
  namespace_uri = ns_heartbeat;
  payload_utf8 = codes "{\"type\":\"PONG\"}";
}

-- How the thread ends: its loop breaks, an exception leaves the thread, or (no outcome of the
-- program) the fuel runs out.
pub data Ended : Type 0 where
  closed : CastChannel → Ended
  crashed : CastChannel → Ended
  unfinished : Ended

module _ (is_ping : Str → Bool) where
  -- The body of the loop behind a message that was read.
  unfoldable pub handle_message : CastChannel → CastMessage → CastChannel
  handle_message ch msg =
      if str_eq msg.namespace_uri ns_heartbeat && is_ping msg.payload_utf8
      then record ch { socket = (send ch.socket (pong msg)).1 }
      else record ch { callbacks = ch.callbacks ++ message msg ∷ [] }

  unfoldable pub receive_loop : ℕ → CastChannel → Ended
  receive_loop zero ch = unfinished
  receive_loop (suc fuel) ch =
      if ch.running
      then (let (r, s) = read_message ch.socket in
          elim r [
            | ok msg ↦ receive_loop fuel (handle_message (record ch { socket = s }) msg)
            | failed ↦ closed (record ch {
              running = false;
              socket = s;
              callbacks = ch.callbacks ++ disconnected ∷ [];
            })
            | threw ↦ crashed (record ch { socket = s })
            | stuck ↦ unfinished
          ])
      else closed ch

unfoldable pub connect_message : Str → Str → CastMessage
connect_message source dest = record {
  source_id = source;
  destination_id = dest;
  namespace_uri = ns_connection;
  payload_utf8 = codes "{\"type\":\"CONNECT\",\"userAgent\":\"NexusChromecastModule/1.0\"}";
}

unfoldable pub send_connect : TlsSocket → Str → Str → Bool × TlsSocket
send_connect s source dest = send s (connect_message source dest)

unfoldable pub heartbeat_message : Str → Str → CastMessage
heartbeat_message source dest = record {
  source_id = source;
  destination_id = dest;
  namespace_uri = ns_heartbeat;
  payload_utf8 = codes "{\"type\":\"PING\"}";
}

unfoldable pub send_heartbeat : TlsSocket → Str → Str → Bool × TlsSocket
send_heartbeat s source dest = send s (heartbeat_message source dest)

unfoldable pub disconnect : CastChannel → CastChannel
disconnect ch = record ch { running = false; socket = Socket.disconnect ch.socket }

unfoldable pub is_connected : CastChannel → Bool
is_connected ch = ch.running && ch.socket.connected
