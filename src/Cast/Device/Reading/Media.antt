-- ===== src/Cast/Device/Reading/Media.antt =====
-- What a device makes of the messages of the media player.
use nexus_mainframe.Common.{◌≡◌, refl, List, [], ◌∷◌, Str, codes, str_eq, some}
use nexus_mainframe.Common.Ints.{IsInt}
use nexus_mainframe.Json.{Json, field, has_field}
use nexus_mainframe.Cast.Proto.{CastMessage}
use nexus_mainframe.Json.{Reals}
use nexus_mainframe.Cast.Device.{
  CastDevice, MediaStatus, returned, ns_receiver, ns_media, no_session,
}
use nexus_mainframe.Cast.Device.Status.{
  media, handle_message, handle_media_status, caught, take_media_status, take_media_entry,
  media_entry, read_media_status, read_media, read_title,
}
use nexus_mainframe.Cast.Device.Reading.{typed_fields, typed_json}

module _ {J D : Type 0} (json : Json J) (reals : Reals J D json) where
  abbrev pub media_fields : MediaStatus D → List (Str × J)
  media_fields st =
      (codes "contentId", json.string st.content_id)
      ∷ (codes "contentType", json.string st.content_type)
      ∷ (codes "duration", reals.real st.duration)
      ∷ (codes "metadata", json.object ((codes "title", json.string st.title) ∷ []))
      ∷ []

  abbrev pub media_status_fields : MediaStatus D → List (Str × J)
  media_status_fields st =
      (codes "mediaSessionId", json.integer st.session_id)
      ∷ (codes "playerState", json.string st.player_state)
      ∷ (codes "currentTime", reals.real st.current_time)
      ∷ (codes "media", json.object (media_fields st))
      ∷ []

  abbrev pub media_json : List J → J
  media_json entries = typed_json json reals (codes "MEDIA_STATUS") (json.array entries)

  read_title-media :
      (st : MediaStatus D) → read_title json reals (json.object (media_fields st)) ≡ some st.title
  unfolding read_title field has_field str_eq
  read_title-media st =
      rw
        (
          json.contains-object (media_fields st) (codes "metadata"),
          json.at-object (media_fields st) (codes "metadata") _ refl,
          json.value_string-object ((codes "title", json.string st.title) ∷ []) (codes "title") [] _
              refl,
        )
        refl

  read_media-media :
      (st : MediaStatus D)
      → read_media json reals (json.object (media_status_fields st))
        ≡ some (st.content_id, st.content_type, st.duration, st.title)
  unfolding read_media field has_field str_eq
  read_media-media st =
      rw
        (
          json.contains-object (media_status_fields st) (codes "media"),
          json.at-object (media_status_fields st) (codes "media") _ refl,
          json.value_string-object (media_fields st) (codes "contentId") [] _ refl,
          json.value_string-object (media_fields st) (codes "contentType") [] _ refl,
          reals.value_real-object (media_fields st) (codes "duration") reals.zero _ refl,
          read_title-media st,
        )
        refl

  read_media_status-media :
      (st : MediaStatus D)
      → IsInt st.session_id
      → read_media_status json reals (json.object (media_status_fields st)) ≡ some st
  unfolding read_media_status field has_field str_eq
  read_media_status-media st h =
      rw
        (
          json.value_int-object (media_status_fields st) (codes "mediaSessionId") no_session _ h
              refl,
          json.value_string-object (media_status_fields st) (codes "playerState") (codes "UNKNOWN")
              _ refl,
          reals.value_real-object (media_status_fields st) (codes "currentTime") reals.zero _ refl,
          read_media-media st,
        )
        refl

  media_entry-media :
      (j : J) (js : List J) → media_entry json reals (media_json (j ∷ js)) ≡ some (some j)
  unfolding media_entry field has_field str_eq
  media_entry-media j js =
      let fs = typed_fields json reals (codes "MEDIA_STATUS") (json.array (j ∷ js)) in
      rw
        (
          json.contains-object fs (codes "status"),
          json.at-object fs (codes "status") _ refl,
          json.is_empty-array j js,
          json.first-array j js,
        )
        refl

  abbrev pub from_media : Str → Str → CastMessage
  from_media transport text = record {
    source_id = transport;
    destination_id = codes "*";
    namespace_uri = codes "urn:x-cast:com.google.cast.media";
    payload_utf8 = text;
  }

  -- A status message of the media player, printed by the JSON library, whose first entry has a session
  -- that an `int` holds, is kept and reported as this entry says, whatever entries follow; the entry's
  -- session becomes the device's media session.
  pub handle_message-media :
      (d : CastDevice D) (st : MediaStatus D) (others : List J) (transport text : Str)
      → IsInt st.session_id
      → json.dump (media_json (json.object (media_status_fields st) ∷ others)) ≡ some text
      → handle_message json reals d (from_media transport text)
        ≡ returned (
          record d { last_media_status = some st; media_session_id = st.session_id },
          media st ∷ [],
        )
  unfolding ns_receiver ns_media field str_eq caught take_media_entry take_media_status
      handle_message handle_media_status
  handle_message-media d st others transport text h e =
      let j = json.object (media_status_fields st) in
      let fs = typed_fields json reals (codes "MEDIA_STATUS") (json.array (j ∷ others)) in
      rw
        (
          handle_message,
          json.parse-dump _ text e,
          handle_media_status,
          json.value_string-object fs (codes "type") [] _ refl,
          media_entry-media j others,
          read_media_status-media st h,
        )
        refl
