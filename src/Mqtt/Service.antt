-- ===== src/Mqtt/Service.antt =====
-- MqttService.cpp: the service that owns the client and listens on the bus.
use nexus_mainframe.Common.{
  ℕ, ◌≡◌, ◌≢◌, refl, [], ◌∷◌, ◌++◌, Str, codes, All, Bool, ◌==◌, Option, none, some, if◌then◌else◌,
  arith,
}
use nexus_mainframe.Event.Bus.{EventBus, Event, Payload, nothing, text, pair, publish}
use nexus_mainframe.Event.Bus
use nexus_mainframe.Mqtt.Client.{MqttClient}
use nexus_mainframe.Mqtt.Client

-- `str.find(' ')`, with `substr` before and behind it; the empty string behind where there is none.
unfoldable pub split_space : Str → Str × Str
split_space [] = ([], [])
split_space (c ∷ cs) =
    let rest = split_space cs in if c == b' ' then ([], cs) else (c ∷ rest.0, rest.1)

-- The program's state, with the client's static `pid`: `client` is `none` before `start`.
pub record MqttService : Type 0 where
  pub client : Option MqttClient
  pub next_pid : ℕ

module _ {C : Type 0} where
  -- The callback of `mqtt:event`.
  unfoldable pub on_event : EventBus C → Event → EventBus C
  on_event bus event = forward event.payload
    where
      forward : Payload → EventBus C
      forward nothing = bus
      forward (pair t p) = bus
      forward (text str) =
          let (name, rest) = split_space str in
          publish bus (record { name = name; payload = text rest })

-- The callback of `mqtt:subscribe`.
unfoldable pub on_subscribe : MqttService → Event → MqttService
on_subscribe svc event = subscribe_to event.payload svc.client
  where
    subscribe_to : Payload → Option MqttClient → MqttService
    subscribe_to (text topic) (some c) =
        let (_, pid, c') = Client.subscribe svc.next_pid c topic in
        record { client = some c'; next_pid = pid }
    subscribe_to _ _ = svc

module _ {C : Type 0} where
  -- `event_cb` and `subscribe_cb` are the handles of the two callbacks. Whether the connection came
  -- about is not asked.
  unfoldable pub start :
      C → C → Bool → MqttClient → MqttService × EventBus C → MqttService × EventBus C
  start event_cb subscribe_cb opened c (svc, bus) =
      let (_, bus1) = Bus.subscribe bus (codes "mqtt:event") event_cb in
      let (_, bus2) = Bus.subscribe bus1 (codes "mqtt:subscribe") subscribe_cb in
      (record svc { client = some (Client.connect opened c).1 }, bus2)

unfoldable pub stop : MqttService → MqttService
stop svc = elim svc.client [
  | none ↦ svc
  | some c ↦ record svc { client = some (Client.disconnect c) }
]

split_space-first :
    (name rest : Str) → All (λ c. c ≢ b' ') name → split_space (name ++ b' ' ∷ rest) ≡ (name, rest)
unfolding split_space
split_space-first [] rest h = refl
split_space-first (c ∷ cs) rest h = ground (arith, split_space-first cs rest h.1, h.0)

split_space-none : (name : Str) → All (λ c. c ≢ b' ') name → split_space name ≡ (name, [])
unfolding split_space
split_space-none [] h = refl
split_space-none (c ∷ cs) h = ground (arith, split_space-none cs h.1, h.0)

module _ {C : Type 0} where
  -- The string `name rest` of an `mqtt:event` is published as the text `rest` under `name`, which
  -- has no space; `rest` may have some. A string without a space is published under itself with an
  -- empty text.
  pub on_event-forwards :
      (bus : EventBus C) (event name rest : Str)
      → All (λ c. c ≢ b' ') name
      → (on_event bus (record { name = event; payload = text (name ++ b' ' ∷ rest) })
          ≡ publish bus (record { name = name; payload = text rest }))
        × (on_event bus (record { name = event; payload = text name })
            ≡ publish bus (record { name = name; payload = text [] }))
  unfolding on_event
  on_event-forwards bus event name rest h =
      (rw (split_space-first name rest h) refl, rw (split_space-none name h) refl)
