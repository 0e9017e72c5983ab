-- ===== src/Cast/Channel/Frames.antt =====
-- Frames are read back, and the receiving thread handles a stream of them in order.
use nexus_mainframe.Common.{
  ℕ, ◌+◌, ◌%◌, ◌^◌, ◌≤◌, ◌<◌, ◌≡◌, ap, ◌∙◌, List, ◌++◌, append_assoc, length, some, arith,
}
use nexus_mainframe.Common.BigEndian.{be32_bytes}
use nexus_mainframe.Cast.Proto.{CastMessage, Read, ok, encode_cast_message, decode_cast_message}
use nexus_mainframe.Cast.Proto.RoundTrip.{text_size, decode-encode, length-encode-bounds}
use nexus_mainframe.Cast.Socket.{TlsSocket, recv_all}
use nexus_mainframe.Cast.Socket.Chunks.{stream, IsOpen, recv_all-append}
use nexus_mainframe.Cast.Channel.{
  max_message_size, frame_header, packet, header_length, read_message,
}

header_length-frame_header : (len : ℕ) → len < 2 ^ 32 → header_length (frame_header len) ≡ len
unfolding header_length frame_header
header_length-frame_header len h = be32_bytes len h

read_message_two :
    (s s1 s2 : TlsSocket) (h body : List ℕ) (n : ℕ)
    → recv_all s 4 ≡ (some h, s1)
    → recv_all s1 n ≡ (some body, s2)
    → header_length h ≡ n
    → 1 ≤ n
    → n ≤ max_message_size
    → read_message s ≡ (decode_cast_message body, s2)
unfolding read_message
read_message_two s s1 s2 h body n r1 r2 e lo hi = ground arith

-- On an open socket, a message of up to 999 880 bytes of text, framed by `send` and followed by anything, is what
-- `readMessage` returns, however the stream was cut into chunks; what followed is left.
pub read_message-packet :
    (s : TlsSocket) (msg : CastMessage) (back : List ℕ)
    → IsOpen s
    → 120 + text_size msg ≤ max_message_size
    → stream s.incoming ≡ packet msg ++ back
    → (s' : TlsSocket) × (read_message s ≡ (ok msg, s'))
      × IsOpen s'
      × (stream s'.incoming ≡ back)
      × (s'.outgoing ≡ s.outgoing)
      × (s'.accepts ≡ s.accepts)
unfolding packet frame_header
read_message-packet s msg back open' small e =
    let body = encode_cast_message msg in
    let len = length body % 2 ^ 32 in
    let (lo, hi) = length-encode-bounds msg (omega arith) in
    let same : len ≡ length body = omega arith in
    let (s1, r1, o1, st1, out1, acc1) =
      recv_all-append s (frame_header len) (body ++ back) open'
        (e ∙ append_assoc (frame_header len) body back) in
    let (s2, r2, o2, st2, out2, acc2) = recv_all-append s1 body back o1 st1 in
    (
      s2,
      read_message_two s s1 s2 (frame_header len) body (length body) r1 r2
            (header_length-frame_header len (omega arith) ∙ same) lo (omega arith)
          ∙ ap (λ (r : Read CastMessage). (r, s2)) (decode-encode msg (omega arith)),
      o2,
      st2,
      out2 ∙ out1,
      acc2 ∙ acc1,
    )
