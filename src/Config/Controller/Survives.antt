-- ===== src/Config/Controller/Survives.antt =====
-- What an update of the configuration leaves for the next start.
use nexus_mainframe.Common.{
  ◌≡◌, refl, subst, sym, ap, ◌∙◌, [], Str, codes, false, Option, none, some, Option-cases,
  Bool-cases, true, inl, inr, arith,
}
use nexus_mainframe.Json.{Json}
use mathlib.Core.Option.{some-injective}
use nexus_mainframe.Home.Result.{Result, bad_request}
use nexus_mainframe.Home.Result
use nexus_mainframe.Home.DeviceController.{Response, respond}
use nexus_mainframe.Config.{NexusConfig, Progress, going, thrown, save, load_or_create}
use nexus_mainframe.Config.Saved.{IsConfig, load-save}
use nexus_mainframe.Config.Controller.{update, finish, change, Changed}

module _ {J : Type 0} (json : Json J) where
  abbrev pub Kept : Option Response × NexusConfig × Option Str → Type 0
  Kept s = (load_or_create json true s.2).0 ≡ some s.1

  respond-status :
      (result : Result) (resp : Response)
      → respond json result ≡ some resp
      → resp.status ≡ some result.http_status
  unfolding respond
  respond-status result resp a = elim (Option-cases (Result.to_json json result)) [
    | inl e ↦ absurd (ground (arith, a, respond_none e))
    | inr (text, e) ↦
        ap (λ (r : Response). r.status) (some-injective _ _ (sym a ∙ respond_some text e))
  ]
    where
      respond_none : Result.to_json json result ≡ none → respond json result ≡ none
      respond_none e = rw (respond, e) refl

      respond_some :
          (text : Str)
          → Result.to_json json result ≡ some text
          → respond json result ≡ some (record { status = some result.http_status; body = text })
      respond_some text e = rw (respond, e) refl

  finish-Kept :
      (p : Progress Changed) (file : Option Str) (resp : Response)
      → (finish json true p file).0 ≡ some resp
      → IsConfig (finish json true p file).1
      → Kept (finish json true p file)
  unfolding finish
  finish-Kept (thrown s) file resp a h = absurd (ground (arith, a))
  finish-Kept (going (c, names)) file resp a h = elim (Bool-cases (save json true file c).0) [
    | inl ok ↦
        let held : IsConfig c = finished ok h in
        rw (finish, ok)
          (ap (λ (r : Option NexusConfig × Option Str). r.0) (load-save json true file c held ok))
    | inr lost ↦ absurd (ground (arith, a, finish_lost lost))
  ]
    where
      finish_lost :
          (save json true file c).0 ≡ false → (finish json true (going (c, names)) file).0 ≡ none
      finish_lost e = rw (finish, e) refl

      finished :
          (save json true file c).0 ≡ true
          → IsConfig (finish json true (going (c, names)) file).1
          → IsConfig c
      finished e = rw (finish, e) (λ h. h)

  -- Where the file can be written, and the ports that an update leaves are of the type `int`: an update
  -- that is answered without an error has written its configuration, and when the program starts again
  -- and reads the file, it has the configuration that the update left in memory.
  pub update-kept :
      (c : NexusConfig) (file : Option Str) (text : Str) (resp : Response)
      → (update json true c file text).0 ≡ some resp
      → resp.status ≡ none
      → IsConfig (update json true c file text).1
      → (load_or_create json true (update json true c file text).2).0
        ≡ some (update json true c file text).1
  unfolding update
  update-kept c file text resp a k h = elim (Option-cases (json.parse text)) [
    | inl e ↦ absurd (
        ground (
          arith,
          k,
          respond-status _ resp
              (sym (ap (λ (r : Option Response × NexusConfig × Option Str). r.0) (refused e)) ∙ a),
        ))
    | inr (body, e) ↦ rw (changed body e) (
        finish-Kept (change json body (c, [])) file resp
          (sym (ap (λ (r : Option Response × NexusConfig × Option Str). r.0) (changed body e)) ∙ a)
          (subst (λ (r : Option Response × NexusConfig × Option Str). IsConfig r.1) (changed body e)
            h))
  ]
    where
      refused :
          json.parse text ≡ none
          → update json true c file text
            ≡ (respond json (bad_request (codes "Invalid JSON body")), c, file)
      refused e = rw (update, e) refl

      changed :
          (body : J)
          → json.parse text ≡ some body
          → update json true c file text ≡ finish json true (change json body (c, [])) file
      changed body e = rw (update, e) refl
