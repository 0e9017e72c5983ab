-- ===== src/Ws/Service.antt =====
-- WsService.cpp: the subscriptions of the WebSocket clients, held twice, and the bridge to MQTT.
-- `unordered_map` iterates in an order of its own; the model's maps iterate by key.
-- JSON is the library's: `parse` answers `none` where it throws, which is caught; `value` is
-- `msg.value(key, "")` and answers `none` where it throws, which is not; `message_text` is the dump
-- of a frame with a topic and a payload.
pub mod Mirror
pub mod Calls
pub mod Bridge
use nexus_mainframe.Common.{
  ℕ, List, [], ◌∷◌, ◌++◌, Str, codes, Bool, true, false, Option, none, some, if◌then◌else◌, str_eq,
  is_empty, map,
}
use nexus_mainframe.Common.OrdMap.{OrdMap, find, insert, erase}
use nexus_mainframe.Common.OrdSet.{OrdSet, add}
use nexus_mainframe.Common.Options.{◌>>=◌}
use nexus_mainframe.Common.Keys.{nat_order, str_order}
use nexus_mainframe.Event.Bus.{Event, Payload, nothing, text, pair}
use nexus_mainframe.Mqtt.Client
use nexus_mainframe.Mqtt.Service.{MqttService}
use nexus_mainframe.Ws.Topics.{topic_matches}

pub record Subscriptions : Type 0 where
  pub client_subs : OrdMap ℕ (OrdSet Str)
  pub filter_clients : OrdMap Str (OrdSet ℕ)

-- `m[key]`, which is empty where the key is new.
unfoldable pub subs_of : ℕ → OrdMap ℕ (OrdSet Str) → OrdSet Str
subs_of id m = elim (find id m) [ none ↦ [] | some s ↦ s ]

unfoldable pub clients_of : Str → OrdMap Str (OrdSet ℕ) → OrdSet ℕ
clients_of filter m = elim (find filter m) [ none ↦ [] | some s ↦ s ]

-- `if (_filterClients[f].empty()) _filterClients.erase(f)` on a set that was changed.
unfoldable pub store_or_erase : Str → OrdSet ℕ → OrdMap Str (OrdSet ℕ) → OrdMap Str (OrdSet ℕ)
store_or_erase filter [] m = erase filter m
store_or_erase filter (e ∷ s) m = insert filter (e ∷ s) m

unfoldable pub drop_client : ℕ → Str → OrdMap Str (OrdSet ℕ) → OrdMap Str (OrdSet ℕ)
drop_client id filter m = store_or_erase filter (erase id (clients_of filter m)) m

unfoldable pub subscribe_client : ℕ → Str → Subscriptions → Subscriptions
subscribe_client id topic s = record {
  client_subs = insert id (add topic (subs_of id s.client_subs)) s.client_subs;
  filter_clients = insert topic (add id (clients_of topic s.filter_clients)) s.filter_clients;
}

unfoldable pub unsubscribe_client : ℕ → Str → Subscriptions → Subscriptions
unsubscribe_client id topic s = record {
  client_subs = insert id (erase topic (subs_of id s.client_subs)) s.client_subs;
  filter_clients = drop_client id topic s.filter_clients;
}

unfoldable pub drop_filters : ℕ → OrdSet Str → OrdMap Str (OrdSet ℕ) → OrdMap Str (OrdSet ℕ)
drop_filters id [] m = m
drop_filters id ((filter, _) ∷ fs) m = drop_filters id fs (drop_client id filter m)

unfoldable pub on_ws_close : ℕ → Subscriptions → Subscriptions
on_ws_close id s = elim (find id s.client_subs) [
  | none ↦ s
  | some fs ↦ record {
    client_subs = erase id s.client_subs;
    filter_clients = drop_filters id fs s.filter_clients;
  }
]

-- The service with the MQTT service that it uses.
pub record WsService : Type 0 where
  pub mqtt : MqttService
  pub subs : Subscriptions

-- `getClient().subscribe(topic)` and `getClient().publish(topic, payload)`; `none` is a client that
-- is not there, whose reference must not be used.
unfoldable pub mqtt_subscribe : Str → MqttService → Option MqttService
mqtt_subscribe topic svc = do
  c ← svc.client
  let (_, pid, c') = Client.subscribe svc.next_pid c topic
  some (record { client = some c'; next_pid = pid })

unfoldable pub mqtt_publish : Str → Str → MqttService → Option MqttService
mqtt_publish topic payload svc = do
  c ← svc.client
  some (record svc { client = some (Client.publish c topic payload).1 })

module _ {J : Type 0} (parse : Str → Option J) (value : J → Str → Option Str) where
  -- The three branches on the type, behind the parser.
  unfoldable pub on_typed : ℕ → J → Str → WsService → Option WsService
  on_typed id msg type_name ws =
      if str_eq type_name (codes "subscribe")
      then (do
        topic ← value msg (codes "topic")
        if is_empty topic then some ws else (do
          mqtt' ← mqtt_subscribe topic ws.mqtt
          some (record { mqtt = mqtt'; subs = subscribe_client id topic ws.subs })))
      else if str_eq type_name (codes "unsubscribe")
      then (do
        topic ← value msg (codes "topic")
        if is_empty topic
            then some ws
            else some (record ws { subs = unsubscribe_client id topic ws.subs }))
      else if str_eq type_name (codes "publish")
      then (do
        topic ← value msg (codes "topic")
        payload ← value msg (codes "payload")
        if is_empty topic
            then some ws
            else (do mqtt' ← mqtt_publish topic payload ws.mqtt; some (record ws { mqtt = mqtt' })))
      else some ws

  -- `none` is an exception that leaves the client's thread, or the use of a client that is not there.
  unfoldable pub on_ws_message : ℕ → Str → WsService → Option WsService
  on_ws_message id raw ws = elim (parse raw) [
    | none ↦ some ws
    | some msg ↦ (do type_name ← value msg (codes "type"); on_typed id msg type_name ws)
  ]

-- What the bridge sends for one filter and its clients.
unfoldable pub sends_for : Str → Str → OrdMap Str (OrdSet ℕ) → List (ℕ × Str)
sends_for topic frame [] = []
sends_for topic frame ((filter, clients) ∷ m) =
    let rest = sends_for topic frame m in
    if topic_matches filter topic then map (λ e. (e.0, frame)) clients ++ rest else rest

module _ (message_text : Str → Str → Option Str) where
  -- The callback of `mqtt:message`: the calls of `_server.send`. What it throws is caught.
  unfoldable pub on_mqtt_message : Event → Subscriptions → List (ℕ × Str)
  on_mqtt_message event s = bridge event.payload
    where
      deliver : Str → Option Str → List (ℕ × Str)
      deliver topic none = []
      deliver topic (some frame) = sends_for topic frame s.filter_clients

      bridge : Payload → List (ℕ × Str)
      bridge (pair topic payload) = deliver topic (message_text topic payload)
      bridge nothing = []
      bridge (text t) = []
