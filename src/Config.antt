-- ===== src/Config.antt =====
-- NexusConfig.cpp: the configuration of the program and its file, `none` where it does not exist. A
-- file that exists can be opened for reading.
pub mod Controller
pub mod Saved
use nexus_mainframe.Common.{
  ◌≡◌, refl, ap, ◌∙◌, List, [], ◌∷◌, Str, codes, str_eq, Bool, true, false, Option, none, some,
  if◌then◌else◌, Option-cases, inl, inr, arith,
}
use nexus_mainframe.Common.Ints.{ℤ, pos}
use nexus_mainframe.Json.{Json, field, has_field}

pub record NexusConfig : Type 0 where
  pub host : Str
  pub port : ℤ
  pub client_id : Str
  pub http_port : ℤ
  pub ws_port : ℤ

unfoldable pub defaults : NexusConfig
defaults = record {
  host = codes "192.168.2.161";
  port = pos 1883;
  client_id = codes "nexus-core";
  http_port = pos 8080;
  ws_port = pos 8082;
}

-- Assignments one after another: those before an exception stay.
pub data Progress (S : Type 0) : Type 0 where
  going : S → Progress S
  thrown : S → Progress S

infixl 5 ◌then_do◌
abbrev pub ◌then_do◌ : {S : Type 0} → Progress S → (S → Progress S) → Progress S
going s then_do k = k s
thrown s then_do k = thrown s

unfoldable pub taken : {S A : Type 0} → Option A → (A → S) → S → Progress S
taken none f s = thrown s
taken (some a) f s = going (f a)

module _ {J : Type 0} (json : Json J) where
  mqtt_fields : NexusConfig → List (Str × J)
  mqtt_fields c =
      (codes "host", json.string c.host)
      ∷ (codes "port", json.integer c.port)
      ∷ (codes "client_id", json.string c.client_id)
      ∷ []

  config_fields : NexusConfig → List (Str × J)
  unfolding mqtt_fields
  config_fields c =
      (codes "mqtt", json.object (mqtt_fields c))
      ∷ (codes "http", json.object ((codes "port", json.integer c.http_port) ∷ []))
      ∷ (codes "ws", json.object ((codes "port", json.integer c.ws_port) ∷ []))
      ∷ []

  unfoldable pub to_json : NexusConfig → J
  unfolding config_fields
  to_json c = json.object (config_fields c)

  -- The stream is not tested: where it cannot be opened and written, which `writes` tells, the file
  -- stays and `save` returns. Otherwise the file is emptied before `dump` may throw; the answer is
  -- whether it did not, and the file.
  unfoldable pub save : Bool → Option Str → NexusConfig → Bool × Option Str
  save writes file c = elim (json.dump_indented (to_json c)) [
    | none ↦ (false, if writes then some [] else file)
    | some text ↦ (true, if writes then some text else file)
  ]

  -- `if (j.contains(key))`, and what is done with `j[key]`.
  unfoldable pub on_section : {S : Type 0} → Str → (J → S → Progress S) → J → S → Progress S
  on_section k run j s =
      if json.contains j k
      then elim (json.at j k) [ none ↦ thrown s | some v ↦ run v s ]
      else going s

  read_mqtt : J → NexusConfig → Progress NexusConfig
  read_mqtt m c =
      taken (json.value_string m (codes "host") c.host) (λ v. record c { host = v }) c
      then_do (λ c. taken (json.value_int m (codes "port") c.port) (λ v. record c { port = v }) c)
      then_do (λ c.
          taken (json.value_string m (codes "client_id") c.client_id)
            (λ v. record c { client_id = v }) c)

  read_http : J → NexusConfig → Progress NexusConfig
  read_http h c =
      taken (json.value_int h (codes "port") c.http_port) (λ v. record c { http_port = v }) c

  read_ws : J → NexusConfig → Progress NexusConfig
  read_ws w c = taken (json.value_int w (codes "port") c.ws_port) (λ v. record c { ws_port = v }) c

  unfoldable pub read_config : J → NexusConfig → Progress NexusConfig
  unfolding read_mqtt read_http read_ws
  read_config j c =
      on_section (codes "mqtt") read_mqtt j c
      then_do on_section (codes "http") read_http j
      then_do on_section (codes "ws") read_ws j

  -- The `catch (...)` around the reading.
  unfoldable pub read_so_far : Progress NexusConfig → NexusConfig
  read_so_far (going c) = c
  read_so_far (thrown c) = c

  -- What the program starts with, and the file; `none` where the first `save` throws.
  unfoldable pub load_or_create : Bool → Option Str → Option NexusConfig × Option Str
  load_or_create writes none =
      let (saved, written) = save writes none defaults in
      if saved then (some defaults, written) else (none, written)
  load_or_create writes (some text) = elim (json.parse text) [
    | none ↦ (some defaults, some text)
    | some j ↦ (some (read_so_far (read_config j defaults)), some text)
  ]
