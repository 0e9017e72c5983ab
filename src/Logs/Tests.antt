-- ===== src/Logs/Tests.antt =====
-- The buffer at a concrete input.
use nexus_mainframe.Common.{◌≡◌, refl, [], ◌∷◌, Str, codes, map, Option, some, true}
use nexus_mainframe.Ws.Server.{WsServer}
use nexus_mainframe.Logs.Broadcaster.{
  LogEntry, last_entries, buffer_max, backfill_count, log_all, broadcast_each, send_each,
  on_client_connect, on_client_connect-log_all,
}

abbrev entry : LogEntry
entry = record {
  level = codes "info";
  source = codes "bus";
  message = codes "up";
  timestamp = codes "2026-01-12T14:23:01Z";
}

abbrev frame : LogEntry → Str
frame e = e.message

abbrev to_json : LogEntry → Option Str
to_json e = some (frame e)

abbrev ws : WsServer
ws = record {
  running = true;
  clients = (1, 4) ∷ [];
  next_id = 2;
  sockets = (4, record { incoming = []; accepts = 9 ∷ 9 ∷ 9 ∷ []; outgoing = [] }) ∷ [];
}

on_client_connect-log_all_example :
    (log_all to_json (entry ∷ entry ∷ []) (record { buffer = []; ws = ws })
      ≡ some (record {
        buffer = last_entries buffer_max (entry ∷ entry ∷ []);
        ws = broadcast_each (map frame (entry ∷ entry ∷ [])) ws;
      }))
    × (on_client_connect to_json 1 (record {
      buffer = last_entries buffer_max (entry ∷ entry ∷ []);
      ws = broadcast_each (map frame (entry ∷ entry ∷ [])) ws;
    })
        ≡ some (
            send_each 1
              (map frame
                (last_entries backfill_count (last_entries buffer_max (entry ∷ entry ∷ []))))
              (broadcast_each (map frame (entry ∷ entry ∷ [])) ws)))
on_client_connect-log_all_example =
    on_client_connect-log_all to_json frame (entry ∷ entry ∷ []) ws 1 (refl, (refl, tt))
