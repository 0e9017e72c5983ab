-- ===== src/Ws/Service/Calls.antt =====
-- Histories of the clients' messages and of their ends.
use nexus_mainframe.Common.{
  ℕ, ◌≡◌, subst, List, [], ◌∷◌, Str, codes, Bool, true, false, Option, none, some, if◌then◌else◌,
  str_eq, is_empty,
}
use nexus_mainframe.Common.Options.{◌>>=◌}
use nexus_mainframe.Common.Keys.{nat_order, str_order}
use nexus_mainframe.Ws.Service.{
  on_ws_close, WsService, mqtt_subscribe, mqtt_publish, on_typed, on_ws_message,
}
use nexus_mainframe.Ws.Service.Mirror.{
  IsMirror, subscribe-IsMirror, unsubscribe-IsMirror, close-IsMirror,
}

-- What holds of a result, if there is one.
abbrev Mirrors : Option WsService → Type 0
Mirrors none = Unit {0}
Mirrors (some ws) = IsMirror ws.subs

Mirrors-bind {ℓ} :
    {A : Type ℓ} (o : Option A) (f : A → Option WsService)
    → ((a : A) → Mirrors (f a))
    → Mirrors (o >>= f)
Mirrors-bind none f h = tt
Mirrors-bind (some a) f h = h a

Mirrors-then :
    (o : Option WsService) (f : WsService → Option WsService)
    → Mirrors o
    → ((ws : WsService) → IsMirror ws.subs → Mirrors (f ws))
    → Mirrors (o >>= f)
Mirrors-then none f m h = tt
Mirrors-then (some ws) f m h = h ws m

Mirrors-if :
    (b : Bool) (t f : Option WsService) → Mirrors t → Mirrors f → Mirrors (if b then t else f)
Mirrors-if true t f ht hf = ht
Mirrors-if false t f ht hf = hf

Mirrors-some : (o : Option WsService) (ws : WsService) → o ≡ some ws → Mirrors o → IsMirror ws.subs
Mirrors-some o ws e h = subst Mirrors e h

-- The calls that the server makes, one after another; an exception ends them.
pub data WsCall : Type 0 where
  message : ℕ → Str → WsCall
  close : ℕ → WsCall

module _ {J : Type 0} (parse : Str → Option J) (value : J → Str → Option Str) where
  unfoldable pub run_calls : List WsCall → WsService → Option WsService
  run_calls [] ws = some ws
  run_calls (message id raw ∷ cs) ws = on_ws_message parse value id raw ws >>= run_calls cs
  run_calls (close id ∷ cs) ws = run_calls cs (record ws { subs = on_ws_close id ws.subs })

  typed-Mirrors :
      (id : ℕ) (msg : J) (t : Str) (ws : WsService)
      → IsMirror ws.subs
      → Mirrors (on_typed parse value id msg t ws)
  unfolding on_typed
  typed-Mirrors id msg t ws m =
      Mirrors-if (str_eq t (codes "subscribe")) _ _
        (Mirrors-bind (value msg (codes "topic")) _ λ topic. Mirrors-if (is_empty topic) _ _ m (
          Mirrors-bind (mqtt_subscribe topic ws.mqtt) _ λ q. subscribe-IsMirror id topic ws.subs m))
        (Mirrors-if (str_eq t (codes "unsubscribe")) _ _
          (Mirrors-bind (value msg (codes "topic")) _
            λ topic. Mirrors-if (is_empty topic) _ _ m (unsubscribe-IsMirror id topic ws.subs m))
          (Mirrors-if (str_eq t (codes "publish")) _ _
            (Mirrors-bind (value msg (codes "topic")) _ λ topic.
              Mirrors-bind (value msg (codes "payload")) _ λ payload.
                Mirrors-if (is_empty topic) _ _ m
                  (Mirrors-bind (mqtt_publish topic payload ws.mqtt) _ λ q. m))
            m))

  message-Mirrors :
      (id : ℕ) (raw : Str) (ws : WsService)
      → IsMirror ws.subs
      → Mirrors (on_ws_message parse value id raw ws)
  unfolding on_ws_message
  message-Mirrors id raw ws m = parsed (parse raw)
    where
      parsed :
          (o : Option J)
          → Mirrors (elim o [
            | none ↦ some ws
            | some msg ↦ (value msg (codes "type") >>= λ t. on_typed parse value id msg t ws)
          ])
      parsed none = m
      parsed (some msg) = Mirrors-bind (value msg (codes "type")) _ λ t. typed-Mirrors id msg t ws m

  calls-Mirrors : (cs : List WsCall) (ws : WsService) → IsMirror ws.subs → Mirrors (run_calls cs ws)
  unfolding run_calls
  calls-Mirrors [] ws m = m
  calls-Mirrors (message id raw ∷ cs) ws m =
      Mirrors-then (on_ws_message parse value id raw ws) (run_calls cs)
        (message-Mirrors id raw ws m) λ ws' m'. calls-Mirrors cs ws' m'
  calls-Mirrors (close id ∷ cs) ws m =
      calls-Mirrors cs (record ws { subs = on_ws_close id ws.subs }) (close-IsMirror id ws.subs m)

  -- From maps that mirror each other, whatever messages the clients send and in whatever order they
  -- close, if no exception ends the run, a client has a filter just when the filter lists the
  -- client, no filter is kept for nobody and none lists a client twice.
  pub run_calls-IsMirror :
      (cs : List WsCall) (ws ws' : WsService)
      → IsMirror ws.subs
      → run_calls cs ws ≡ some ws'
      → IsMirror ws'.subs
  run_calls-IsMirror cs ws ws' m e = Mirrors-some (run_calls cs ws) ws' e (calls-Mirrors cs ws m)
