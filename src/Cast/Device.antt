-- ===== src/Cast/Device.antt =====
-- CastDevice.cpp: one receiver, and the commands it is sent. `double` is a type of which only
-- the JSON library's reading and writing is used; request ids are unbounded (`requestId_` is an `int`, and 2 ^ 31 requests are not reached).
-- The three callbacks are set, as ChromecastModule.cpp sets them; log lines are left out.
pub mod Control
pub mod Status
pub mod Guards
pub mod Reading
pub mod Reach
pub mod Sending
mod Tests
use nexus_mainframe.Common.{
  ℕ, suc, ◌≡◌, List, [], ◌∷◌, Str, codes, is_empty, Bool, true, false, ◌||◌, Option, none, some,
  if◌then◌else◌,
}
use nexus_mainframe.Common.Ints.{ℤ, pos, negsuc, is_negative}
use nexus_mainframe.Json.{Json}
use nexus_mainframe.Cast.Proto.{CastMessage}
use nexus_mainframe.Cast.Socket.{TlsSocket}
use nexus_mainframe.Cast.Channel.{CastChannel, send, send_connect}
use nexus_mainframe.Cast.Channel

pub record ReceiverStatus (D : Type 0) : Type 0 where
  pub session_id : Str
  pub transport_id : Str
  pub app_id : Str
  pub display_name : Str
  pub is_idle_screen : Bool
  pub volume_level : D
  pub muted : Bool

pub record MediaStatus (D : Type 0) : Type 0 where
  pub session_id : ℤ
  pub player_state : Str
  pub current_time : D
  pub duration : D
  pub title : Str
  pub content_id : Str
  pub content_type : Str

pub record CastDevice (D : Type 0) : Type 0 where
  pub host : Str
  pub port : ℤ
  pub channel : Option CastChannel
  pub request_id : ℕ
  pub last_status : Option (ReceiverStatus D)
  pub last_media_status : Option (MediaStatus D)
  pub session_id : Str
  pub transport_id : Str
  pub media_session_id : ℤ

-- How a call ends: it returns, an exception leaves it, or a null pointer or a missing element is
-- read.
pub data Outcome (S : Type 0) : Type 0 where
  returned : S → Outcome S
  threw : S → Outcome S
  undefined : Outcome S

unfoldable pub ns_receiver : Str
ns_receiver = codes "urn:x-cast:com.google.cast.receiver"

unfoldable pub ns_media : Str
ns_media = codes "urn:x-cast:com.google.cast.media"

unfoldable pub sender_id : Str
sender_id = codes "sender-0"

unfoldable pub receiver_id : Str
receiver_id = codes "receiver-0"

abbrev pub no_session : ℤ
no_session = negsuc 0

unfoldable pub new_device : {D : Type 0} → Str → ℤ → CastDevice D
new_device host port = record {
  host = host;
  port = port;
  channel = none;
  request_id = 0;
  last_status = none;
  last_media_status = none;
  session_id = [];
  transport_id = [];
  media_session_id = no_session;
}

unfoldable pub send_on : CastChannel → CastMessage → CastChannel
send_on ch msg = record ch { socket = (send ch.socket msg).1 }

unfoldable pub is_connected : {D : Type 0} → CastDevice D → Bool
is_connected d = elim d.channel [ none ↦ false | some ch ↦ Channel.is_connected ch ]

unfoldable pub disconnect : {D : Type 0} → CastDevice D → CastDevice D
disconnect d = elim d.channel [
  | none ↦ d
  | some ch ↦ record d {
    channel = none;
    session_id = [];
    transport_id = [];
    media_session_id = no_session;
  }
]

unfoldable pub next_id : {D : Type 0} → CastDevice D → CastDevice D
next_id d = record d { request_id = suc d.request_id }

-- `return true` behind a call.
unfoldable pub with_answer : {D : Type 0} → Outcome (CastDevice D) → Outcome (CastDevice D × Bool)
with_answer (returned d) = returned (d, true)
with_answer (threw d) = threw (d, false)
with_answer undefined = undefined

module _ {J D : Type 0} (json : Json J) where
  -- `dump` throws before anything is sent.
  unfoldable pub send_receiver_msg : CastDevice D → J → Outcome (CastDevice D)
  send_receiver_msg d payload = elim d.channel [
    | none ↦ returned d
    | some ch ↦ elim (json.dump payload) [
      | none ↦ threw d
      | some text ↦ returned (record d {
        channel = some (
            send_on ch (record {
              source_id = sender_id;
              destination_id = receiver_id;
              namespace_uri = ns_receiver;
              payload_utf8 = text;
            }));
      })
    ]
  ]

  unfoldable pub send_media_msg : CastDevice D → J → Outcome (CastDevice D)
  send_media_msg d payload = elim d.channel [
    | none ↦ returned d
    | some ch ↦ if is_empty d.transport_id then returned d else elim (json.dump payload) [
      | none ↦ threw d
      | some text ↦ returned (record d {
        channel = some (
            send_on ch (record {
              source_id = sender_id;
              destination_id = d.transport_id;
              namespace_uri = ns_media;
              payload_utf8 = text;
            }));
      })
    ]
  ]

  -- `nextId()` of the source is `(next_id d).request_id`.
  unfoldable pub request : CastDevice D → Str → List (Str × J) → J
  request d type rest = json.object (
      (codes "type", json.string type)
      ∷ (codes "requestId", json.integer (pos (next_id d).request_id))
      ∷ rest)

  unfoldable pub get_status : CastDevice D → Outcome (CastDevice D)
  get_status d = send_receiver_msg (next_id d) (request d (codes "GET_STATUS") [])

  -- What `socket_.connect` made is an argument, `none` where it failed. The channel that was there is
  -- destroyed.
  unfoldable pub connect : Option TlsSocket → CastDevice D → Outcome (CastDevice D × Bool)
  connect none d = returned (
    record d {
      channel = some (record {
        running = false;
        socket = record {
          connected = false;
          ssl = false;
          incoming = [];
          accepts = [];
          outgoing = [];
        };
        callbacks = [];
      });
    },
    false,
  )
  connect (some s) d =
      let (sent, s') = send_connect s sender_id receiver_id in
      let d' = record d {
        channel = some (record { running = true; socket = s'; callbacks = [] });
      } in
      if sent then with_answer (get_status d') else returned (d', false)
