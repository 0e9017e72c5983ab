-- ===== src/Logs/Broadcaster.antt =====
-- LogBroadcaster.cpp: the buffer of entries and what goes to the clients of its WebSocket server.
-- `to_json` is the dump of an entry, `none` where it throws; the time is an argument.
use nexus_mainframe.Common.{
  ℕ, zero, suc, ◌-◌, ◌≤◌, ◌≡◌, ◌<◌, refl, sym, append-nil, inl, inr, Bool-cases, ap, ◌∙◌, List, [],
  ◌∷◌, ◌++◌, append_assoc, Str, length, length-append, length-drop, drop, Option, none, some, leb,
  ltb, map, All, if◌then◌else◌, leb→le, leb_false→lt, arith,
}
use nexus_mainframe.Ws.Server.{WsServer}
use nexus_mainframe.Ws.Server

pub record LogEntry : Type 0 where
  pub level : Str
  pub source : Str
  pub message : Str
  pub timestamp : Str

pub record LogBroadcaster : Type 0 where
  pub buffer : List LogEntry
  pub ws : WsServer

abbrev pub buffer_max : ℕ
buffer_max = 500

abbrev pub backfill_count : ℕ
backfill_count = 100

unfoldable pub push_entry : LogEntry → List LogEntry → List LogEntry
push_entry entry buffer =
    (if leb buffer_max (length buffer) then drop 1 buffer else buffer) ++ entry ∷ []

unfoldable pub push_all : List LogEntry → List LogEntry → List LogEntry
push_all [] buffer = buffer
push_all (e ∷ es) buffer = push_all es (push_entry e buffer)

unfoldable pub snapshot : List LogEntry → List LogEntry
snapshot buffer =
    drop (if ltb backfill_count (length buffer) then length buffer - backfill_count else 0) buffer

module _ (to_json : LogEntry → Option Str) where
  -- `none` is the exception, which leaves `log` before the buffer changes.
  unfoldable pub log : LogEntry → LogBroadcaster → Option LogBroadcaster
  log entry b = elim (to_json entry) [
    | none ↦ none
    | some frame ↦
        some (record { buffer = push_entry entry b.buffer; ws = Server.broadcast b.ws frame })
  ]

  unfoldable pub send_entries : ℕ → List LogEntry → WsServer → Option WsServer
  send_entries id [] ws = some ws
  send_entries id (e ∷ es) ws = elim (to_json e) [
    | none ↦ none
    | some frame ↦ send_entries id es (Server.send ws id frame)
  ]

  unfoldable pub on_client_connect : ℕ → LogBroadcaster → Option WsServer
  on_client_connect id b = send_entries id (snapshot b.buffer) b.ws

-- The last `n` entries of a list.
unfoldable pub last_entries : ℕ → List LogEntry → List LogEntry
last_entries n es = drop (length es - n) es

drop-push :
    (k : ℕ) (es : List LogEntry) (e : LogEntry)
    → k ≤ length es
    → drop k (es ++ e ∷ []) ≡ drop k es ++ e ∷ []
drop-push zero es e h = refl
drop-push (suc k) [] e h = absurd (omega arith)
drop-push (suc k) (x ∷ es) e h = drop-push k es e (omega arith)

drop-drop : (k : ℕ) (es : List LogEntry) → drop 1 (drop k es) ≡ drop (suc k) es
drop-drop zero [] = refl
drop-drop (suc k) [] = refl
drop-drop zero (x ∷ es) = refl
drop-drop (suc k) (x ∷ es) = drop-drop k es

snapshot_last : (es : List LogEntry) → snapshot es ≡ last_entries backfill_count es
unfolding snapshot last_entries
snapshot_last es = ap (λ k. drop k es) (ground arith)

-- One more entry, behind the last `buffer_max` of those before.
push-full :
    (e : LogEntry) (es : List LogEntry)
    → buffer_max ≤ length es
    → push_entry e (last_entries buffer_max es) ≡ last_entries buffer_max (es ++ e ∷ [])
unfolding push_entry last_entries
push-full e es h =
    let k = length es - buffer_max in
    let size : length (drop k es) ≡ buffer_max = omega (arith, length-drop k es) in
    let next : length (es ++ e ∷ []) - buffer_max ≡ suc k =
      omega (arith, length-append es (e ∷ [])) in
    ground (arith, size, next, drop-drop k es, drop-push (suc k) es e (omega arith))

push-short :
    (e : LogEntry) (es : List LogEntry)
    → length es < buffer_max
    → push_entry e (last_entries buffer_max es) ≡ last_entries buffer_max (es ++ e ∷ [])
unfolding push_entry last_entries
push-short e es h =
    let k : length es - buffer_max ≡ 0 = omega arith in
    let next : length (es ++ e ∷ []) - buffer_max ≡ 0 = omega (arith, length-append es (e ∷ [])) in
    ground (arith, k, next)

push-last :
    (e : LogEntry) (es : List LogEntry)
    → push_entry e (last_entries buffer_max es) ≡ last_entries buffer_max (es ++ e ∷ [])
push-last e es = elim (Bool-cases (leb buffer_max (length es))) [
  | inl full ↦ push-full e es (leb→le buffer_max (length es) full)
  | inr short ↦ push-short e es (leb_false→lt buffer_max (length es) short)
]

push_all-behind :
    (new seen : List LogEntry)
    → push_all new (last_entries buffer_max seen) ≡ last_entries buffer_max (seen ++ new)
unfolding push_all
push_all-behind [] seen = ap (last_entries buffer_max) (sym (append-nil seen))
push_all-behind (e ∷ es) seen =
    ap (push_all es) (push-last e seen)
    ∙ push_all-behind es (seen ++ e ∷ [])
    ∙ ap (last_entries buffer_max) (append_assoc seen (e ∷ []) es)

last_none : [] ≡ last_entries buffer_max []
unfolding last_entries
last_none = refl

All-drop : (Q : LogEntry → Type 0) (n : ℕ) (es : List LogEntry) → All Q es → All Q (drop n es)
All-drop Q zero es h = h
All-drop Q (suc n) [] h = h
All-drop Q (suc n) (e ∷ es) h = All-drop Q n es h.1

All-last :
    (Q : LogEntry → Type 0) (n : ℕ) (es : List LogEntry) → All Q es → All Q (last_entries n es)
unfolding last_entries
All-last Q n es h = All-drop Q (length es - n) es h

-- Frames to every client, and to one.
unfoldable pub broadcast_each : List Str → WsServer → WsServer
broadcast_each [] ws = ws
broadcast_each (frame ∷ frames) ws = broadcast_each frames (Server.broadcast ws frame)

unfoldable pub send_each : ℕ → List Str → WsServer → WsServer
send_each id [] ws = ws
send_each id (frame ∷ frames) ws = send_each id frames (Server.send ws id frame)

module _ (to_json : LogEntry → Option Str) where
  -- Calls of `log` one after another.
  unfoldable pub log_all : List LogEntry → LogBroadcaster → Option LogBroadcaster
  log_all [] b = some b
  log_all (e ∷ es) b = elim (log to_json e b) [ none ↦ none | some b' ↦ log_all es b' ]

  log_all-push_all :
      (frame : LogEntry → Str) (es : List LogEntry) (b : LogBroadcaster)
      → All (λ e. to_json e ≡ some (frame e)) es
      → log_all es b
        ≡ some (record { buffer = push_all es b.buffer; ws = broadcast_each (map frame es) b.ws })
  unfolding log_all log push_all broadcast_each
  log_all-push_all frame [] b h = refl
  log_all-push_all frame (e ∷ es) b h = rw (log_all, log, h.0) (log_all-push_all frame es _ h.1)

  send_entries-send_each :
      (frame : LogEntry → Str) (id : ℕ) (es : List LogEntry) (ws : WsServer)
      → All (λ e. to_json e ≡ some (frame e)) es
      → send_entries to_json id es ws ≡ some (send_each id (map frame es) ws)
  unfolding send_entries send_each
  send_entries-send_each frame id [] ws h = refl
  send_entries-send_each frame id (e ∷ es) ws h =
      rw (send_entries, h.0) (send_entries-send_each frame id es _ h.1)

  -- Where every entry can be written as `frame` of it: calls of `log` from an empty buffer broadcast
  -- each entry's frame in order and keep the last 500 entries, and a client that connects then is sent
  -- the frames of the last 100 of those, in order.
  pub on_client_connect-log_all :
      (frame : LogEntry → Str) (es : List LogEntry) (ws : WsServer) (id : ℕ)
      → All (λ e. to_json e ≡ some (frame e)) es
      → (log_all es (record { buffer = []; ws = ws })
          ≡ some (record {
            buffer = last_entries buffer_max es;
            ws = broadcast_each (map frame es) ws;
          }))
        × (on_client_connect to_json id (record {
          buffer = last_entries buffer_max es;
          ws = broadcast_each (map frame es) ws;
        })
            ≡ some (
                send_each id
                  (map frame (last_entries backfill_count (last_entries buffer_max es)))
                  (broadcast_each (map frame es) ws)))
  unfolding on_client_connect
  on_client_connect-log_all frame es ws id h =
      let same : push_all es [] ≡ last_entries buffer_max es =
        ap (push_all es) last_none ∙ push_all-behind es [] in
      (
        log_all-push_all frame es (record { buffer = []; ws = ws }) h
            ∙ ap
                (λ (l : List LogEntry).
                  some (record { buffer = l; ws = broadcast_each (map frame es) ws }))
                same,
        ap (λ (l : List LogEntry). send_entries to_json id l (broadcast_each (map frame es) ws))
              (snapshot_last (last_entries buffer_max es))
            ∙ send_entries-send_each frame id _ _ (
                All-last _ backfill_count (last_entries buffer_max es)
                  (All-last _ buffer_max es h)),
      )
