-- ===== src/Cast/Tests.antt =====
-- Runs of the codec and of the channel, and their theorems at concrete inputs.
use nexus_mainframe.Common.{
  ◌+◌, ◌≤◌, ◌≡◌, ◌≢◌, ◌*◌, refl, [], ◌∷◌, ◌++◌, Str, codes, length, Bool, true, arith, str_eq,
  append-nil, length-append, replicate, All-replicate,
}
use nexus_mainframe.Common.WfOrder.{lt_wf}
use native.Mathlib.Decide.{dec_lt}
use nexus_mainframe.Cast.Proto.{
  CastMessage, ok, failed, threw, stuck, write_varint_loop, write_varint, write_varint_field,
  write_string_field, encode_cast_message, read_varint, read_varint_loop, decode_field, decode_loop,
  decode_cast_message,
}
use nexus_mainframe.Cast.Proto.Varint.{groups}
use nexus_mainframe.Cast.Proto.RoundTrip.{decode-encode, length-encode-bounds}
use nexus_mainframe.Cast.Proto.Total.{decode-ne-stuck, decode-throws}
use nexus_mainframe.Cast.Socket.{TlsSocket}
use nexus_mainframe.Cast.Socket.Chunks.{stream, IsOpen}
use nexus_mainframe.Cast.Channel.{
  packet, frame_header, CastChannel, disconnected, pong, ns_heartbeat, receive_loop, closed,
}
use nexus_mainframe.Cast.Channel.Receive.{After, frames, answers, deliveries, receive_loop-frames}

abbrev ping : CastMessage
ping = record {
  source_id = codes "r";
  destination_id = codes "s";
  namespace_uri = codes "urn:x-cast:com.google.cast.tp.heartbeat";
  payload_utf8 = codes "P";
}

abbrev status : CastMessage
status = record {
  source_id = codes "r";
  destination_id = codes "*";
  namespace_uri = codes "n";
  payload_utf8 = codes "{}";
}

encode_status :
    encode_cast_message status
    ≡ 8 ∷ 0 ∷ 18 ∷ 1 ∷ b'r' ∷ 26 ∷ 1 ∷ b'*' ∷ 34 ∷ 1 ∷ b'n' ∷ 40 ∷ 0 ∷ 50 ∷ 2 ∷ b'{' ∷ b'}' ∷ []
unfolding encode_cast_message write_varint_field write_string_field write_varint write_varint_loop
    lt_wf dec_lt
encode_status = refl

write_300 : write_varint [] 300 ≡ 0xac ∷ 2 ∷ []
unfolding write_varint write_varint_loop lt_wf dec_lt
write_300 = refl

decode_bad_wire_type : decode_cast_message (13 ∷ 0 ∷ []) ≡ failed
unfolding decode_cast_message decode_loop decode_field read_varint read_varint_loop
decode_bad_wire_type = refl

decode-encode_example : decode_cast_message (encode_cast_message status) ≡ ok status
decode-encode_example = decode-encode status (omega arith)

decode-ne-stuck_example : decode_cast_message (18 ∷ 5 ∷ 1 ∷ []) ≢ stuck
decode-ne-stuck_example = decode-ne-stuck (18 ∷ 5 ∷ 1 ∷ [])

-- The prefix `12 FF FF FF FF FF FF FF FF FF 01`.
decode-throws_example :
    decode_cast_message (groups 9 (2 * 8 + 2) ++ (groups 9 18446744073709551615 ++ [])) ≡ threw
unfolding groups
decode-throws_example =
    decode-throws 2 18446744073709551615 [] (omega arith) (omega arith) (omega arith) (omega arith)

abbrev chunked : TlsSocket
chunked = record {
  connected = true;
  ssl = true;
  incoming = (1 ∷ 2 ∷ []) ∷ (3 ∷ []) ∷ (4 ∷ 5 ∷ []) ∷ [];
  accepts = 1 ∷ 2 ∷ 3 ∷ [];
  outgoing = [];
}

chunked-IsOpen : IsOpen chunked
chunked-IsOpen = (refl, refl, ((λ e. cc), ((λ e. cc), ((λ e. cc), tt))))

-- The two frames in one chunk, and room for 200 bytes of answer.
abbrev peer : TlsSocket
peer = record {
  connected = true;
  ssl = true;
  incoming = frames (ping ∷ status ∷ []) ∷ [];
  accepts = replicate 200 100;
  outgoing = [];
}

abbrev by_letter : Str → Bool
by_letter p = str_eq p (codes "P")

frames-ne-[] : frames (ping ∷ status ∷ []) ≢ []
unfolding frames packet frame_header
frames-ne-[] e = cc

length-answers : length (answers by_letter (ping ∷ status ∷ [])) ≤ 200
unfolding answers str_eq ns_heartbeat packet frame_header pong
length-answers =
    omega
      (arith, length-append (packet (pong ping)) [], length-encode-bounds (pong ping) (omega arith))

peer-IsOpen : IsOpen peer
peer-IsOpen = (refl, refl, (frames-ne-[], tt))

abbrev channel : CastChannel
channel = record { running = true; socket = peer; callbacks = [] }

receive_loop-frames_example :
    (ch' : CastChannel) × (receive_loop by_letter 3 channel ≡ closed ch')
    × After by_letter channel ch'
        (answers by_letter (ping ∷ status ∷ []))
        (deliveries by_letter (ping ∷ status ∷ []) ++ disconnected ∷ [])
unfolding stream
receive_loop-frames_example =
    receive_loop-frames by_letter (ping ∷ status ∷ []) 3 channel
      ((omega arith), ((omega arith), tt)) (omega arith) refl peer-IsOpen
      (All-replicate (λ k. k ≢ 0) 200 100 (λ e. omega arith), length-answers)
      (append-nil (frames (ping ∷ status ∷ [])))
