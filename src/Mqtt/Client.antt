-- ===== src/Mqtt/Client.antt =====
-- MQTTClient.cpp: the packets it writes, and the receiving thread. `recv` and `send` are the
-- operating system's: the bytes each call of `send` takes (a missing entry is the answer -1) and
-- what each call of `recv` answers are given. Log lines, the opening of the socket and the sleeping
-- of the threads are left out.
pub mod Packets
pub mod Messages
use Prim.Native.Nat.{bit_and, bit_or}
use nexus_mainframe.Common.{
  ℕ, zero, suc, ◌+◌, ◌*◌, ◌/◌, ◌%◌, ◌^◌, List, [], ◌∷◌, ◌++◌, Str, codes, length, get_or, take,
  drop, Bool, true, false, ◌==◌, Option, none, some, ltb, if◌then◌else◌, is_empty,
}
use nexus_mainframe.Event.Bus.{EventBus, Event, Payload, text, pair}
use nexus_mainframe.Event.Bus

pub record MqttClient : Type 0 where
  pub client_id : Str
  pub connected : Bool
  pub running : Bool
  pub accepts : List ℕ
  pub outgoing : List ℕ

-- One call of `send`, whose answer may be less than the length of the packet.
unfoldable pub send_packet : MqttClient → List ℕ → Bool × MqttClient
send_packet c pkt = elim c.accepts [
  | [] ↦ (false, c)
  | n ∷ ns ↦
      let sent = take n pkt in
      (ltb 0 (length sent), record c { accepts = ns; outgoing = c.outgoing ++ sent })
]

unfoldable pub encode_string : Str → List ℕ
encode_string s = bit_and (length s / 2 ^ 8) 0xff ∷ bit_and (length s) 0xff ∷ s

-- `static_cast<uint8_t>(body.size())` is `% 2 ^ 8`.
unfoldable pub with_length : ℕ → List ℕ → List ℕ
with_length header body = header ∷ (length body % 2 ^ 8) ∷ body

unfoldable pub connect_body : Str → List ℕ
connect_body client_id =
    (0x00 ∷ 0x04 ∷ b'M' ∷ b'Q' ∷ b'T' ∷ b'T' ∷ [])
    ++ 0x04 ∷ 0x02 ∷ 0x00 ∷ 0x3c ∷ encode_string client_id

unfoldable pub connect_packet : Str → List ℕ
connect_packet client_id = with_length 0x10 (connect_body client_id)

-- `opened` says that the socket was made and the peer answered. Behind it the answer is `true`
-- whatever `send` did.
unfoldable pub connect : Bool → MqttClient → Bool × MqttClient
connect opened c =
    if opened
    then (let (_, c') = send_packet (record c { connected = true }) (connect_packet c.client_id) in
        (true, record c' { running = true }))
    else (false, c)

unfoldable pub disconnect : MqttClient → MqttClient
disconnect c = record c { running = false; connected = false }

unfoldable pub subscribe_body : ℕ → Str → List ℕ
subscribe_body pid topic = pid / 2 ^ 8 ∷ bit_and pid 0xff ∷ encode_string topic ++ 0x00 ∷ []

unfoldable pub subscribe_packet : ℕ → Str → List ℕ
subscribe_packet pid topic = with_length 0x82 (subscribe_body pid topic)

-- `pid` is the function's static variable, which all clients share.
unfoldable pub subscribe : ℕ → MqttClient → Str → Bool × ℕ × MqttClient
subscribe pid c topic =
    let (result, c') = send_packet c (subscribe_packet pid topic) in (result, suc pid % 2 ^ 16, c')

unfoldable pub publish_body : Str → Str → List ℕ
publish_body topic payload = encode_string topic ++ payload

unfoldable pub publish_packet : Str → Str → List ℕ
publish_packet topic payload = with_length 0x30 (publish_body topic payload)

unfoldable pub publish : MqttClient → Str → Str → Bool × MqttClient
publish c topic payload = send_packet c (publish_packet topic payload)

-- The end of one wait of `pingLoop`.
unfoldable pub ping_round : MqttClient → MqttClient
ping_round c = if c.running then (send_packet c (0xc0 ∷ 0x00 ∷ [])).1 else c

-- `sizeof(buf)`.
abbrev pub buffer_size : ℕ
buffer_size = 1024

-- What one call of `recv` answers; `stopped` says that another thread cleared `running` before it.
pub data Received : Type 0 where
  bytes : List ℕ → Received
  end_of_stream : Received
  again : Received
  broken : Received
  stopped : Received

module _ {C : Type 0} where
  unfoldable pub publish_message : EventBus C → Str → Str → EventBus C
  publish_message bus topic payload =
      Bus.publish
        (Bus.publish bus (record { name = codes "mqtt:" ++ topic; payload = text payload }))
        (record { name = codes "mqtt:message"; payload = pair topic payload })

  -- What follows the first byte of a PUBLISH packet. `none` is a read outside the buffer: `data[1]`
  -- is read before any test of the size.
  unfoldable pub handle_publish : EventBus C → List ℕ → Option (EventBus C)
  handle_publish bus [] = none
  handle_publish bus (remaining_length ∷ []) = some bus
  handle_publish bus (remaining_length ∷ hi ∷ []) = some bus
  handle_publish bus (remaining_length ∷ hi ∷ lo ∷ rest) =
      let topic_len = bit_or (hi * 2 ^ 8) lo in
      if ltb (length rest) topic_len
      then some bus
      else some (publish_message bus (take topic_len rest) (drop topic_len rest))

  unfoldable pub handle_packet : EventBus C → List ℕ → Option (EventBus C)
  handle_packet bus [] = some bus
  handle_packet bus (header ∷ rest) =
      if header / 2 ^ 4 == 3 then handle_publish bus rest else some bus

  -- The rounds of `receiveLoop`, which end with the list where the thread still waits. What `recv`
  -- answers is no longer than the buffer.
  unfoldable pub receive_loop :
      List Received → MqttClient × EventBus C → Option (MqttClient × EventBus C)
  receive_loop [] (c, bus) = some (c, bus)
  receive_loop (bytes data' ∷ rs) (c, bus) =
      if c.running
      then elim (handle_packet bus (take buffer_size data')) [
        | none ↦ none
        | some bus' ↦ receive_loop rs (c, bus')
      ]
      else some (c, bus)
  receive_loop (end_of_stream ∷ rs) (c, bus) =
      if c.running then some (record c { connected = false }, bus) else some (c, bus)
  receive_loop (again ∷ rs) (c, bus) =
      let rest = receive_loop rs (c, bus) in if c.running then rest else some (c, bus)
  receive_loop (broken ∷ rs) (c, bus) = some (c, bus)
  receive_loop (stopped ∷ rs) (c, bus) = receive_loop rs (record c { running = false }, bus)
