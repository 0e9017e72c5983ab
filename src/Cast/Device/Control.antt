-- ===== src/Cast/Device/Control.antt =====
-- CastDevice.cpp: the commands for the receiver and for the media it plays.
use nexus_mainframe.Common.{
  [], ◌∷◌, Str, codes, is_empty, Bool, true, ◌||◌, Option, none, some, if◌then◌else◌,
}
use nexus_mainframe.Common.Ints.{pos, is_negative}
use nexus_mainframe.Json.{Json}
use nexus_mainframe.Cast.Socket.{TlsSocket}
use nexus_mainframe.Cast.Channel.{send_connect}
use nexus_mainframe.Json.{Reals}
use nexus_mainframe.Cast.Device.{
  CastDevice, Outcome, returned, threw, undefined, sender_id, next_id, request, send_receiver_msg,
  send_media_msg, get_status, connect, disconnect, is_connected,
}

-- The two members of a message that stand beside the type and the request id come first or last in
-- the source; the order of an object's fields is not part of its value.
module _ {J D : Type 0} (json : Json J) (reals : Reals J D json) where
  unfoldable pub launch_default_media_receiver : CastDevice D → Outcome (CastDevice D)
  launch_default_media_receiver d =
      send_receiver_msg json (next_id d)
        (request json d (codes "LAUNCH") ((codes "appId", json.string (codes "CC1AD845")) ∷ []))

  unfoldable pub stop_app : CastDevice D → Outcome (CastDevice D)
  stop_app d =
      if is_empty d.session_id
      then returned d
      else send_receiver_msg json (next_id d)
          (request json d (codes "STOP") ((codes "sessionId", json.string d.session_id) ∷ []))

  unfoldable pub set_volume_field : CastDevice D → Str → J → Outcome (CastDevice D)
  set_volume_field d name value = send_receiver_msg json (next_id d) (
      request json d (codes "SET_VOLUME") ((codes "volume", json.object ((name, value) ∷ [])) ∷ []))

  unfoldable pub set_volume : CastDevice D → D → Outcome (CastDevice D)
  unfolding set_volume_field
  set_volume d level = set_volume_field d (codes "level") (reals.real level)

  unfoldable pub set_muted : CastDevice D → Bool → Outcome (CastDevice D)
  unfolding set_volume_field
  set_muted d muted = set_volume_field d (codes "muted") (json.boolean muted)

  unfoldable pub load_payload : CastDevice D → Str → Str → Str → J
  load_payload d url content_type title = request json d (codes "LOAD") (
      (codes "autoplay", json.boolean true)
      ∷ (codes "currentTime", json.integer (pos 0))
      ∷ (
        codes "media",
        json.object (
            (codes "contentId", json.string url)
            ∷ (codes "contentType", json.string content_type)
            ∷ (codes "streamType", json.string (codes "BUFFERED"))
            ∷ (
              codes "metadata",
              json.object (
                  (codes "metadataType", json.integer (pos 0))
                  ∷ (codes "title", json.string (if is_empty title then url else title))
                  ∷ []),
            )
            ∷ []),
      )
      ∷ [])

  -- `channel_` is not tested here.
  unfoldable pub load_media : CastDevice D → Str → Str → Str → Outcome (CastDevice D)
  load_media d url content_type title =
      if is_empty d.transport_id then returned d else elim d.channel [
        | none ↦ undefined
        | some ch ↦
            let d' = record d {
              channel =
                  some (record ch { socket = (send_connect ch.socket sender_id d.transport_id).1 });
            } in
            send_media_msg json (next_id d') (load_payload d' url content_type title)
      ]

  unfoldable pub session_field : CastDevice D → Str × J
  session_field d = (codes "mediaSessionId", json.integer d.media_session_id)

  unfoldable pub play : CastDevice D → Outcome (CastDevice D)
  play d =
      if is_empty d.transport_id || is_negative d.media_session_id
      then returned d
      else send_media_msg json (next_id d) (request json d (codes "PLAY") (session_field d ∷ []))

  unfoldable pub pause : CastDevice D → Outcome (CastDevice D)
  pause d =
      if is_empty d.transport_id || is_negative d.media_session_id
      then returned d
      else send_media_msg json (next_id d) (request json d (codes "PAUSE") (session_field d ∷ []))

  unfoldable pub stop_media : CastDevice D → Outcome (CastDevice D)
  stop_media d =
      if is_empty d.transport_id || is_negative d.media_session_id
      then returned d
      else send_media_msg json (next_id d) (request json d (codes "STOP") (session_field d ∷ []))

  unfoldable pub seek : CastDevice D → D → Outcome (CastDevice D)
  seek d seconds =
      if is_empty d.transport_id || is_negative d.media_session_id
      then returned d
      else send_media_msg json (next_id d) (
          request json d (codes "SEEK")
            (session_field d ∷ (codes "currentTime", reals.real seconds) ∷ []))

-- The action of a command, with the fields it reads.
pub data Action (D : Type 0) : Type 0 where
  connects disconnects gets_status launches stops_app plays pauses stops_media : Action D
  seeks : D → Action D
  sets_volume : D → Action D
  sets_muted : Bool → Action D
  loads_media : Str → Str → Str → Action D

unfoldable pub device_of : {D : Type 0} → Outcome (CastDevice D × Bool) → Outcome (CastDevice D)
device_of (returned (d, b)) = returned d
device_of (threw (d, b)) = threw d
device_of undefined = undefined

module _ {J D : Type 0} (json : Json J) (reals : Reals J D json) (opened : Option TlsSocket) where
  -- The branches of `handleCommand`, on the device of the command; `opened` is what the socket's
  -- `connect` would make.
  unfoldable pub perform : Action D → CastDevice D → Outcome (CastDevice D)
  perform connects d = if is_connected d then returned d else device_of (connect json opened d)
  perform disconnects d = returned (disconnect d)
  perform gets_status d = get_status json d
  perform launches d = launch_default_media_receiver json reals d
  perform stops_app d = stop_app json reals d
  perform plays d = play json reals d
  perform pauses d = pause json reals d
  perform stops_media d = stop_media json reals d
  perform (seeks x) d = seek json reals d x
  perform (sets_volume x) d = set_volume json reals d x
  perform (sets_muted b) d = set_muted json reals d b
  perform (loads_media u c t) d = load_media json reals d u c t
