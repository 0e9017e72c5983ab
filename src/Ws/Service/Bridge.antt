-- ===== src/Ws/Service/Bridge.antt =====
-- Whom the bridge sends an MQTT message.
use nexus_mainframe.Common.{
  ℕ, zero, suc, ◌+◌, ◌≡◌, refl, ap, List, [], ◌∷◌, ◌++◌, Str, Bool, true, false, Bool-cases, inl,
  inr, ◌&&◌, ◌||◌, ◌==◌, Option, some, if◌then◌else◌, map, arith,
}
use nexus_mainframe.Common.OrdMap.{OrdMap, key_eq, key_eq_iff, find, IsSorted, Above, find-Above}
use nexus_mainframe.Common.OrdSet.{OrdSet, member}
use nexus_mainframe.Common.Keys.{nat_order, str_order}
use nexus_mainframe.Event.Bus.{pair}
use nexus_mainframe.Ws.Topics.{topic_matches}
use nexus_mainframe.Ws.Service.{Subscriptions, sends_for, on_mqtt_message}
use nexus_mainframe.Ws.Service.Mirror.{IsMirror, SortedSets}

-- The frames that a client gets.
unfoldable pub frames_to : ℕ → List (ℕ × Str) → List Str
frames_to id [] = []
frames_to id ((i, frame) ∷ sends) =
    let rest = frames_to id sends in if i == id then frame ∷ rest else rest

-- A frame `n` times.
unfoldable pub copies : ℕ → Str → List Str
copies zero frame = []
copies (suc n) frame = frame ∷ copies n frame

-- The filters that match a topic and list the client.
unfoldable pub filters_for : ℕ → Str → OrdMap Str (OrdSet ℕ) → ℕ
filters_for id topic [] = 0
filters_for id topic ((f, clients) ∷ m) =
    let rest = filters_for id topic m in
    if topic_matches f topic && member id clients then 1 + rest else rest

frames_to-append :
    (id : ℕ) (a b : List (ℕ × Str)) → frames_to id (a ++ b) ≡ frames_to id a ++ frames_to id b
unfolding frames_to
frames_to-append id [] b = refl
frames_to-append id ((i, frame) ∷ a) b = ground (arith, frames_to-append id a b)

member_cons :
    (id i : ℕ) (s : OrdSet ℕ) (u : Unit {0}) → member id ((i, u) ∷ s) ≡ (key_eq id i || member id s)
unfolding member find
member_cons id i s u = ground arith

member-Above : (i : ℕ) (s : OrdSet ℕ) → Above i s → member i s ≡ false
unfolding member
member-Above i s a = ground (arith, find-Above i s a)

frames_to-set :
    (id : ℕ) (frame : Str) (s : OrdSet ℕ)
    → IsSorted s
    → frames_to id (map (λ e. (e.0, frame)) s) ≡ (if member id s then frame ∷ [] else [])
unfolding frames_to
frames_to-set id frame [] h = unfold member find in refl
frames_to-set id frame ((i, u) ∷ s) h = ground (
  arith,
  frames_to-set id frame s h.1,
  member_cons id i s u,
  member-Above i s h.0,
  key_eq_iff id i,
)

copies-if :
    (b : Bool) (n : ℕ) (frame : Str)
    → (if b then frame ∷ [] else []) ++ copies n frame ≡ copies (if b then 1 + n else n) frame
unfolding copies
copies-if true n frame = let e : suc n ≡ 1 + n = omega arith in ap (λ (k : ℕ). copies k frame) e
copies-if false n frame = refl

frames_to-sends_for :
    (id : ℕ) (topic frame : Str) (m : OrdMap Str (OrdSet ℕ))
    → SortedSets m
    → frames_to id (sends_for topic frame m) ≡ copies (filters_for id topic m) frame
unfolding sends_for filters_for copies frames_to
frames_to-sends_for id topic frame [] h = refl
frames_to-sends_for id topic frame ((f, clients) ∷ m) h =
    elim (Bool-cases (topic_matches f topic)) [
      | inl t ↦
          rw
            (
              t,
              frames_to-append id (map (λ e. (e.0, frame)) clients) (sends_for topic frame m),
              frames_to-set id frame clients h.0,
              frames_to-sends_for id topic frame m h.1,
            )
            (copies-if (member id clients) (filters_for id topic m) frame)
      | inr t ↦ rw (t, frames_to-sends_for id topic frame m h.1) refl
    ]

module _ (message_text : Str → Str → Option Str) where
  -- On maps that mirror each other, and for an MQTT message whose frame can be written, a client is
  -- sent that frame once for each filter that matches the topic and lists the client, and nothing
  -- else.
  pub on_mqtt_message-copies :
      (id : ℕ) (name topic payload frame : Str) (s : Subscriptions)
      → IsMirror s
      → message_text topic payload ≡ some frame
      → frames_to id
          (on_mqtt_message message_text (record { name = name; payload = pair topic payload }) s)
        ≡ copies (filters_for id topic s.filter_clients) frame
  unfolding on_mqtt_message
  on_mqtt_message-copies id name topic payload frame s m e =
      rw e (frames_to-sends_for id topic frame s.filter_clients m.sorted)
