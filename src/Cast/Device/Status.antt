-- ===== src/Cast/Device/Status.antt =====
-- CastDevice.cpp: the messages of a receiver, and what the device keeps of them.
use nexus_mainframe.Common.{
  List, [], ◌∷◌, Str, codes, str_eq, Bool, true, false, not, Option, none, some, if◌then◌else◌,
}
use nexus_mainframe.Common.Options.{◌>>=◌}
use nexus_mainframe.Json.{Json}
use nexus_mainframe.Cast.Proto.{CastMessage}
use nexus_mainframe.Json.{Reals}
use nexus_mainframe.Cast.Device.{
  CastDevice, ReceiverStatus, MediaStatus, Outcome, returned, threw, undefined, ns_receiver,
  ns_media, no_session,
}

-- The calls of `statusCallback_` and `mediaCallback_`.
pub data Report (D : Type 0) : Type 0 where
  receiver : ReceiverStatus D → Report D
  media : MediaStatus D → Report D

module _ {J D : Type 0} (json : Json J) (reals : Reals J D json) where
  unfoldable pub read_volume : J → Option (D × Bool)
  read_volume s = if not (json.contains s (codes "volume")) then some (reals.one, false) else do
    v ← json.at s (codes "volume")
    level ← reals.value_real v (codes "level") reals.one
    muted ← json.value_boolean v (codes "muted") false
    some (level, muted)

  -- `s.contains("applications") && !s["applications"].empty()`.
  unfoldable pub has_application : J → Option Bool
  has_application s =
      if not (json.contains s (codes "applications"))
      then some false
      else do apps ← json.at s (codes "applications"); some (not (json.is_empty apps))

  unfoldable pub read_application : J → D → Bool → Option (ReceiverStatus D)
  read_application s level muted = do
    apps ← json.at s (codes "applications")
    app ← json.first apps
    session ← json.value_string app (codes "sessionId") []
    transport ← json.value_string app (codes "transportId") []
    app_id ← json.value_string app (codes "appId") []
    name ← json.value_string app (codes "displayName") []
    idle ← json.value_boolean app (codes "isIdleScreen") false
    some (record {
      session_id = session;
      transport_id = transport;
      app_id = app_id;
      display_name = name;
      is_idle_screen = idle;
      volume_level = level;
      muted = muted;
    })

  unfoldable pub idle_status : D → Bool → ReceiverStatus D
  idle_status level muted = record {
    session_id = [];
    transport_id = [];
    app_id = [];
    display_name = [];
    is_idle_screen = true;
    volume_level = level;
    muted = muted;
  }

  unfoldable pub read_receiver_status : J → Option (ReceiverStatus D)
  unfolding read_volume has_application read_application
  read_receiver_status s = do
    (level, muted) ← read_volume s
    running ← has_application s
    if running then read_application s level muted else some (idle_status level muted)

  unfoldable pub take_receiver_status :
      CastDevice D → Option (ReceiverStatus D) → Outcome (CastDevice D × List (Report D))
  take_receiver_status d none = threw (d, [])
  take_receiver_status d (some status) = returned (
    record d {
      last_status = some status;
      session_id = status.session_id;
      transport_id = status.transport_id;
    },
    receiver status ∷ [],
  )

  -- `j["status"]` of a constant object without a status is undefined.
  unfoldable pub handle_receiver_status :
      CastDevice D → J → Outcome (CastDevice D × List (Report D))
  handle_receiver_status d j = elim (json.value_string j (codes "type") []) [
    | none ↦ threw (d, [])
    | some type ↦
        if not (str_eq type (codes "RECEIVER_STATUS"))
        then returned (d, [])
        else if not (json.contains j (codes "status"))
        then undefined
        else take_receiver_status d (do s ← json.at j (codes "status"); read_receiver_status s)
  ]

  unfoldable pub read_title : J → Option Str
  read_title m =
      if not (json.contains m (codes "metadata"))
      then some []
      else do metadata ← json.at m (codes "metadata"); json.value_string metadata (codes "title") []

  -- `contentId`, `contentType`, `duration` and `title`.
  unfoldable pub read_media : J → Option (Str × Str × D × Str)
  unfolding read_title
  read_media ms =
      if not (json.contains ms (codes "media")) then some ([], [], reals.zero, []) else do
        m ← json.at ms (codes "media")
        content_id ← json.value_string m (codes "contentId") []
        content_type ← json.value_string m (codes "contentType") []
        duration ← reals.value_real m (codes "duration") reals.zero
        title ← read_title m
        some (content_id, content_type, duration, title)

  unfoldable pub read_media_status : J → Option (MediaStatus D)
  unfolding read_media
  read_media_status ms = do
    session ← json.value_int ms (codes "mediaSessionId") no_session
    player ← json.value_string ms (codes "playerState") (codes "UNKNOWN")
    time ← reals.value_real ms (codes "currentTime") reals.zero
    (content_id, content_type, duration, title) ← read_media ms
    some (record {
      session_id = session;
      player_state = player;
      current_time = time;
      duration = duration;
      title = title;
      content_id = content_id;
      content_type = content_type;
    })

  -- `none` where there is no status to read.
  unfoldable pub media_entry : J → Option (Option J)
  media_entry j = if not (json.contains j (codes "status")) then some none else do
    s ← json.at j (codes "status")
    if json.is_empty s then some none else (do ms ← json.first s; some (some ms))

  unfoldable pub take_media_status :
      CastDevice D → Option (MediaStatus D) → Outcome (CastDevice D × List (Report D))
  take_media_status d none = threw (d, [])
  take_media_status d (some status) = returned (
    record d { last_media_status = some status; media_session_id = status.session_id },
    media status ∷ [],
  )

  unfoldable pub take_media_entry :
      CastDevice D → Option (Option J) → Outcome (CastDevice D × List (Report D))
  take_media_entry d none = threw (d, [])
  take_media_entry d (some none) = returned (d, [])
  take_media_entry d (some (some ms)) = take_media_status d (read_media_status ms)

  unfoldable pub handle_media_status : CastDevice D → J → Outcome (CastDevice D × List (Report D))
  handle_media_status d j = elim (json.value_string j (codes "type") []) [
    | none ↦ threw (d, [])
    | some type ↦
        if not (str_eq type (codes "MEDIA_STATUS"))
        then returned (d, [])
        else take_media_entry d (media_entry j)
  ]

  unfoldable pub caught :
      Outcome (CastDevice D × List (Report D)) → Outcome (CastDevice D × List (Report D))
  caught (returned s) = returned s
  caught (threw s) = returned s
  caught undefined = undefined

  unfoldable pub handle_message :
      CastDevice D → CastMessage → Outcome (CastDevice D × List (Report D))
  handle_message d msg = elim (json.parse msg.payload_utf8) [
    | none ↦ returned (d, [])
    | some j ↦
        if str_eq msg.namespace_uri ns_receiver
        then caught (handle_receiver_status d j)
        else if str_eq msg.namespace_uri ns_media
        then caught (handle_media_status d j)
        else returned (d, [])
  ]
