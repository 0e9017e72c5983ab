-- ===== src/Home/Result.antt =====
-- Result.cpp: what a service answers.
use nexus_mainframe.Common.{ℕ, [], ◌∷◌, Str, codes, Bool, ◌&&◌, leb, ltb, Option}
use nexus_mainframe.Json.{Json}

pub record Result : Type 0 where
  pub http_status : ℕ
  pub message : Str

unfoldable pub ok : Str → Result
ok message = record { http_status = 200; message = message }

unfoldable pub created : Str → Result
created message = record { http_status = 201; message = message }

unfoldable pub bad_request : Str → Result
bad_request message = record { http_status = 400; message = message }

unfoldable pub not_found : Str → Result
not_found message = record { http_status = 404; message = message }

unfoldable pub conflict : Str → Result
conflict message = record { http_status = 409; message = message }

unfoldable pub failed : Str → Result
failed message = record { http_status = 500; message = message }

unfoldable pub is_ok : Result → Bool
is_ok r = leb 200 r.http_status && ltb r.http_status 300

-- The text of the answer; `dump` may throw.
unfoldable pub to_json : {J : Type 0} → Json J → Result → Option Str
to_json json r = json.dump (
    json.object
      ((codes "success", json.boolean (is_ok r)) ∷ (codes "output", json.string r.message) ∷ []))
