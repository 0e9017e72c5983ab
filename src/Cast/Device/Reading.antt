-- ===== src/Cast/Device/Reading.antt =====
-- What a device makes of the messages that a receiver sends by the protocol.
pub mod Media
use nexus_mainframe.Common.{
  ◌≡◌, refl, ap, sym, subst, ◌∙◌, List, [], ◌∷◌, Str, codes, str_eq, Bool, true, false, not, Option,
  none, some, if◌then◌else◌, ◌||◌, ◌&&◌,
}
use nexus_mainframe.Common.Options.{◌>>=◌}
use nexus_mainframe.Common.Ints.{ℤ, pos}
use nexus_mainframe.Json.{Json, field, has_field}
use nexus_mainframe.Cast.Proto.{CastMessage}
use nexus_mainframe.Json.{Reals}
use nexus_mainframe.Cast.Device.{
  CastDevice, ReceiverStatus, MediaStatus, Outcome, returned, threw, undefined, ns_receiver,
  ns_media, no_session,
}
use nexus_mainframe.Cast.Device.Status.{
  Report, receiver, media, handle_message, handle_receiver_status, handle_media_status, caught,
  take_media_status, take_receiver_status, take_media_entry, read_receiver_status, media_entry,
  read_media_status, read_volume, has_application, read_application, idle_status, read_media,
  read_title,
}

module _ {J D : Type 0} (json : Json J) (reals : Reals J D json) where
  abbrev pub volume_json : D → Bool → J
  volume_json level muted =
      json.object ((codes "level", reals.real level) ∷ (codes "muted", json.boolean muted) ∷ [])

  abbrev pub application_fields : ReceiverStatus D → List (Str × J)
  application_fields st =
      (codes "appId", json.string st.app_id)
      ∷ (codes "displayName", json.string st.display_name)
      ∷ (codes "isIdleScreen", json.boolean st.is_idle_screen)
      ∷ (codes "sessionId", json.string st.session_id)
      ∷ (codes "transportId", json.string st.transport_id)
      ∷ []

  abbrev pub application_json : ReceiverStatus D → J
  application_json st = json.object (application_fields st)

  abbrev pub running_fields : ReceiverStatus D → List (Str × J)
  running_fields st =
      (codes "volume", volume_json st.volume_level st.muted)
      ∷ (codes "applications", json.array (application_json st ∷ []))
      ∷ []

  abbrev pub status_json : D → Bool → List (Str × J) → J
  status_json level muted rest = json.object ((codes "volume", volume_json level muted) ∷ rest)

  abbrev pub typed_fields : Str → J → List (Str × J)
  typed_fields type status = (codes "type", json.string type) ∷ (codes "status", status) ∷ []

  abbrev pub typed_json : Str → J → J
  typed_json type status = json.object (typed_fields type status)

  -- The message of a receiver that runs an application, and of one that runs none.
  abbrev pub running_json : ReceiverStatus D → J
  running_json st = typed_json (codes "RECEIVER_STATUS") (json.object (running_fields st))

  abbrev pub idle_json : D → Bool → J
  idle_json level muted = typed_json (codes "RECEIVER_STATUS") (status_json level muted [])

  read_volume-status :
      (level : D) (muted : Bool) (rest : List (Str × J))
      → read_volume json reals (status_json level muted rest) ≡ some (level, muted)
  unfolding read_volume field has_field str_eq
  read_volume-status level muted rest =
      rw
        (
          json.contains-object ((codes "volume", volume_json level muted) ∷ rest) (codes "volume"),
          json.at-object ((codes "volume", volume_json level muted) ∷ rest) (codes "volume") _ refl,
          reals.value_real-object
              ((codes "level", reals.real level) ∷ (codes "muted", json.boolean muted) ∷ [])
              (codes "level") reals.one level refl,
          json.value_boolean-object
              ((codes "level", reals.real level) ∷ (codes "muted", json.boolean muted) ∷ [])
              (codes "muted") false muted refl,
        )
        refl

  has_application-running :
      (st : ReceiverStatus D)
      → has_application json reals (json.object (running_fields st)) ≡ some true
  unfolding has_application field has_field str_eq
  has_application-running st =
      let fs = running_fields st in
      rw
        (
          json.contains-object fs (codes "applications"),
          json.at-object fs (codes "applications") _ refl,
          json.is_empty-array (application_json st) [],
        )
        refl

  read_application-running :
      (st : ReceiverStatus D)
      → read_application json reals (json.object (running_fields st)) st.volume_level st.muted
        ≡ some st
  unfolding read_application field str_eq
  read_application-running st =
      let fs = running_fields st in
      let app = application_fields st in
      rw
        (
          json.at-object fs (codes "applications") _ refl,
          json.first-array (application_json st) [],
          json.value_string-object app (codes "sessionId") [] _ refl,
          json.value_string-object app (codes "transportId") [] _ refl,
          json.value_string-object app (codes "appId") [] _ refl,
          json.value_string-object app (codes "displayName") [] _ refl,
          json.value_boolean-object app (codes "isIdleScreen") false _ refl,
        )
        refl

  read-running :
      (st : ReceiverStatus D)
      → read_receiver_status json reals (json.object (running_fields st)) ≡ some st
  unfolding read_receiver_status
  read-running st =
      rw
        (
          read_volume-status st.volume_level st.muted
              ((codes "applications", json.array (application_json st ∷ [])) ∷ []),
          has_application-running st,
          read_application-running st,
        )
        refl

  read-idle :
      (level : D) (muted : Bool)
      → read_receiver_status json reals (status_json level muted [])
        ≡ some (idle_status json reals level muted)
  unfolding read_receiver_status has_application field has_field str_eq
  read-idle level muted =
      rw
        (
          read_volume-status level muted [],
          json.contains-object ((codes "volume", volume_json level muted) ∷ [])
              (codes "applications"),
        )
        refl

  handle-typed :
      (d : CastDevice D) (s : J) (st : ReceiverStatus D)
      → read_receiver_status json reals s ≡ some st
      → handle_receiver_status json reals d (typed_json (codes "RECEIVER_STATUS") s)
        ≡ take_receiver_status json reals d (some st)
  unfolding handle_receiver_status field has_field str_eq
  handle-typed d s st e =
      let fs = typed_fields (codes "RECEIVER_STATUS") s in
      rw
        (
          handle_receiver_status,
          json.value_string-object fs (codes "type") [] _ refl,
          json.contains-object fs (codes "status"),
          json.at-object fs (codes "status") _ refl,
          e,
        )
        refl

  abbrev pub from_receiver : Str → CastMessage
  from_receiver text = record {
    source_id = codes "receiver-0";
    destination_id = codes "*";
    namespace_uri = codes "urn:x-cast:com.google.cast.receiver";
    payload_utf8 = text;
  }

  handle_message-receiver :
      (d : CastDevice D) (j : J) (text : Str)
      → json.parse text ≡ some j
      → handle_message json reals d (from_receiver text)
        ≡ caught json reals (handle_receiver_status json reals d j)
  unfolding handle_message ns_receiver str_eq
  handle_message-receiver d j text e = rw (handle_message, e) refl

  -- A status message of a receiver with an application, printed by the JSON library, is kept and
  -- reported as it was: its session and transport become the device's. One without applications
  -- takes session and transport away. Neither touches the media session.
  pub handle_message-status :
      (d : CastDevice D) (st : ReceiverStatus D) (busy idle : Str)
      → json.dump (running_json st) ≡ some busy
      → json.dump (idle_json st.volume_level st.muted) ≡ some idle
      → (handle_message json reals d (from_receiver busy)
          ≡ returned (
            record d {
              last_status = some st;
              session_id = st.session_id;
              transport_id = st.transport_id;
            },
            receiver st ∷ [],
          ))
        × (handle_message json reals d (from_receiver idle)
            ≡ returned (
              record d {
                last_status = some (idle_status json reals st.volume_level st.muted);
                session_id = [];
                transport_id = [];
              },
              receiver (idle_status json reals st.volume_level st.muted) ∷ [],
            ))
  unfolding caught take_receiver_status idle_status
  handle_message-status d st busy idle e f = (
    handle_message-receiver d (running_json st) busy (json.parse-dump _ busy e)
        ∙ ap (caught json reals) (handle-typed d _ st (read-running st)),
    handle_message-receiver d (idle_json st.volume_level st.muted) idle (json.parse-dump _ idle f)
        ∙ ap (caught json reals) (handle-typed d _ _ (read-idle st.volume_level st.muted)),
  )
