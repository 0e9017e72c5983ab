-- ===== src/Cast/Device/Tests.antt =====
-- A device at concrete inputs.
use nexus_mainframe.Common.{
  arith, ℕ, ◌≡◌, ◌≢◌, ◌⊎◌, ◌||◌, refl, [], ◌∷◌, codes, is_empty, true, false, none, some,
}
use nexus_mainframe.Common.Ints.{pos, is_negative}
use nexus_mainframe.Json.Packed.{packed, packed_reals, string, pack, parts, unpack, pairs}
use nexus_mainframe.Cast.Socket.{TlsSocket}
use nexus_mainframe.Cast.Channel.{CastChannel}
use nexus_mainframe.Cast.Device.{
  CastDevice, ReceiverStatus, MediaStatus, returned, undefined, new_device, next_id, send_media_msg,
  request, get_status, send_receiver_msg,
}
use nexus_mainframe.Cast.Device.Control.{connects, gets_status, plays, perform, play, session_field}
use nexus_mainframe.Cast.Device.Status.{receiver, media, handle_message, idle_status}
use nexus_mainframe.Cast.Device.Guards.{IsValid}
use nexus_mainframe.Cast.Device.Reach.{here, after, acts, reached-perform}
use nexus_mainframe.Cast.Device.Sending.{MediaRequest, perform-MediaRequest, numbered_on}
use nexus_mainframe.Cast.Device.Reading.{
  from_receiver, running_json, idle_json, handle_message-status,
}
use nexus_mainframe.Cast.Device.Reading.Media.{
  from_media, media_json, media_status_fields, handle_message-media,
}
use nexus_mainframe.Json.Packed

abbrev tv : CastDevice ℕ
tv = new_device (codes "tv") (pos 8009)

abbrev playing : ReceiverStatus ℕ
playing = record {
  session_id = codes "s";
  transport_id = codes "t";
  app_id = codes "CC1AD845";
  display_name = codes "Player";
  is_idle_screen = false;
  volume_level = 3;
  muted = true;
}

abbrev film : MediaStatus ℕ
film = record {
  session_id = pos 7;
  player_state = codes "PLAYING";
  current_time = 4;
  duration = 90;
  title = codes "Film";
  content_id = codes "u";
  content_type = codes "video/mp4";
}

handle_message-status_example :
    (handle_message packed packed_reals tv
        (from_receiver packed packed_reals (running_json packed packed_reals playing))
      ≡ returned (
        record tv { last_status = some playing; session_id = codes "s"; transport_id = codes "t" },
        receiver playing ∷ [],
      ))
    × (handle_message packed packed_reals tv
          (from_receiver packed packed_reals (idle_json packed packed_reals 3 true))
        ≡ returned (
          record tv {
            last_status = some (idle_status packed packed_reals 3 true);
            session_id = [];
            transport_id = [];
          },
          receiver (idle_status packed packed_reals 3 true) ∷ [],
        ))
handle_message-status_example = handle_message-status packed packed_reals tv playing _ _ refl refl

handle_message-media_example :
    handle_message packed packed_reals tv (
      from_media packed packed_reals (codes "t") (
        media_json packed packed_reals
          (Packed.object (media_status_fields packed packed_reals film) ∷ [])))
    ≡ returned
        (record tv { last_media_status = some film; media_session_id = pos 7 }, media film ∷ [])
handle_message-media_example =
    handle_message-media packed packed_reals tv film [] (codes "t") _ (omega arith) refl

abbrev line : TlsSocket
line = record { connected = true; ssl = true; incoming = []; accepts = 1000 ∷ []; outgoing = [] }

abbrev channel : CastChannel
channel = record { running = true; socket = line; callbacks = [] }

abbrev asked : CastDevice ℕ
asked = next_id tv

asks : perform packed packed_reals none gets_status tv ≡ returned asked
unfolding perform get_status send_receiver_msg new_device next_id
asks = refl

reached-perform_example :
    IsValid asked × (perform packed packed_reals (some line) connects asked ≢ undefined)
reached-perform_example =
    reached-perform packed packed_reals (codes "tv") (pos 8009) asked (some line) connects
      (after here (acts none gets_status asks))

abbrev busy : CastDevice ℕ
busy = record tv { channel = some channel; transport_id = codes "t"; media_session_id = pos 7 }

plays_on :
    perform packed packed_reals none plays busy
    ≡ returned (
        numbered_on busy channel
          (request packed busy (codes "PLAY") (session_field packed packed_reals busy ∷ [])))
unfolding perform play send_media_msg is_empty is_negative next_id new_device
plays_on = refl

perform-MediaRequest_example :
    ((is_empty busy.transport_id || is_negative busy.media_session_id ≡ true)
      × (numbered_on busy channel
            (request packed busy (codes "PLAY") (session_field packed packed_reals busy ∷ []))
          ≡ busy))
    ⊎ MediaRequest packed busy
        (numbered_on busy channel
          (request packed busy (codes "PLAY") (session_field packed packed_reals busy ∷ [])))
        channel
perform-MediaRequest_example =
    perform-MediaRequest packed packed_reals none plays busy _ channel refl refl plays_on
