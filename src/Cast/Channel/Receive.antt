-- ===== src/Cast/Channel/Receive.antt =====
-- The receiving thread handles a stream of frames in order: every ping is answered, every other
-- message is handed on, and the end of the stream ends the thread.
use nexus_mainframe.Common.{
  ℕ, zero, suc, ◌+◌, ◌≤◌, ◌<◌, ◌≡◌, refl, sym, ap, ◌∙◌, List, [], ◌∷◌, ◌++◌, append_assoc,
  append-nil, Str, length, length-append, Bool, true, false, ◌&&◌, arith, All, inl, inr, Bool-cases,
  str_eq, if◌then◌else◌,
}
use nexus_mainframe.Cast.Proto.{CastMessage, ok, failed}
use nexus_mainframe.Cast.Proto.RoundTrip.{text_size}
use nexus_mainframe.Cast.Socket.{TlsSocket, send_all}
use nexus_mainframe.Cast.Socket.Chunks.{stream, IsOpen, Ready, recv_all-end, send_all_lem}
use nexus_mainframe.Cast.Channel.Frames.{read_message-packet}
use nexus_mainframe.Cast.Channel.{
  max_message_size, packet, send, read_message, CastChannel, Callback, message, disconnected, pong,
  closed, handle_message, receive_loop, ns_heartbeat,
}

read_message-end :
    (s : TlsSocket)
    → IsOpen s
    → stream s.incoming ≡ []
    → read_message s ≡ (failed, record s { connected = false })
unfolding read_message
read_message-end s open' e = ground (arith, recv_all-end s 3 open' e)

inc_stream : (s s' : TlsSocket) → s'.incoming ≡ s.incoming → stream s'.incoming ≡ stream s.incoming
inc_stream s s' e = ap stream e

-- What the peer sends.
unfoldable pub frames : List CastMessage → List ℕ
frames [] = []
frames (msg ∷ msgs) = packet msg ++ frames msgs

module _ (is_ping : Str → Bool) where
  abbrev pub asks_pong : CastMessage → Bool
  asks_pong msg = str_eq msg.namespace_uri ns_heartbeat && is_ping msg.payload_utf8

  -- What the peer is to be answered, and what the module is to be told.
  unfoldable pub answers : List CastMessage → List ℕ
  answers [] = []
  answers (msg ∷ msgs) =
      let rest = answers msgs in if asks_pong msg then packet (pong msg) ++ rest else rest

  unfoldable pub deliveries : List CastMessage → List Callback
  deliveries [] = []
  deliveries (msg ∷ msgs) =
      let rest = deliveries msgs in if asks_pong msg then rest else message msg ∷ rest

  abbrev pub IsSmall : CastMessage → Type 0
  IsSmall msg = 120 + text_size msg ≤ max_message_size

  pub record After (ch ch' : CastChannel) (sent : List ℕ) (told : List Callback) : Type 0 where
    pub running : ch'.running ≡ false
    pub sent_all : ch'.socket.outgoing ≡ ch.socket.outgoing ++ sent
    pub told_all : ch'.callbacks ≡ ch.callbacks ++ told

  -- One round, by what it read.
  receive_end :
      (fuel : ℕ) (ch : CastChannel) (s : TlsSocket)
      → ch.running ≡ true
      → read_message ch.socket ≡ (failed, s)
      → receive_loop is_ping (suc fuel) ch
        ≡ closed (record ch {
          running = false;
          socket = s;
          callbacks = ch.callbacks ++ disconnected ∷ [];
        })
  unfolding receive_loop
  receive_end fuel ch s on r = ground arith

  receive_round :
      (fuel : ℕ) (ch ch' : CastChannel) (msg : CastMessage) (s : TlsSocket)
      → ch.running ≡ true
      → read_message ch.socket ≡ (ok msg, s)
      → handle_message is_ping (record ch { socket = s }) msg ≡ ch'
      → receive_loop is_ping (suc fuel) ch ≡ receive_loop is_ping fuel ch'
  unfolding receive_loop
  receive_round fuel ch ch' msg s on r h = ground arith

  handle_other :
      (ch : CastChannel) (msg : CastMessage)
      → asks_pong msg ≡ false
      → handle_message is_ping ch msg ≡ record ch { callbacks = ch.callbacks ++ message msg ∷ [] }
  unfolding handle_message
  handle_other ch msg other = rw other

  handle_ping :
      (ch : CastChannel) (msg : CastMessage) (s' : TlsSocket)
      → asks_pong msg ≡ true
      → send_all ch.socket (packet (pong msg)) ≡ (true, s')
      → handle_message is_ping ch msg ≡ record ch { socket = s' }
  unfolding handle_message send
  handle_ping ch msg s' ping sent = ground (arith, sent)

  ping_lists :
      (msg : CastMessage) (msgs : List CastMessage)
      → asks_pong msg ≡ true
      → (answers (msg ∷ msgs) ≡ packet (pong msg) ++ answers msgs)
        × (deliveries (msg ∷ msgs) ≡ deliveries msgs)
  unfolding answers deliveries
  ping_lists msg msgs ping = (rw ping, rw ping)

  other_lists :
      (msg : CastMessage) (msgs : List CastMessage)
      → asks_pong msg ≡ false
      → (answers (msg ∷ msgs) ≡ answers msgs)
        × (deliveries (msg ∷ msgs) ≡ message msg ∷ deliveries msgs)
  unfolding answers deliveries
  other_lists msg msgs other = (rw other, rw other)

  -- On a peer that sends `msgs` in frames and closes, in whatever chunks, the receiving thread reads
  -- them all and ends, within one round more than there are messages. It has sent a pong for each
  -- ping and nothing else, and called back with every other message, in order, and then once with
  -- the disconnection. It supposes messages of at most 999 880 bytes of text each and a socket that
  -- takes the pongs.
  pub receive_loop-frames :
      (msgs : List CastMessage) (fuel : ℕ) (ch : CastChannel)
      → All IsSmall msgs
      → length msgs < fuel
      → ch.running ≡ true
      → IsOpen ch.socket
      → Ready (length (answers msgs)) ch.socket
      → stream ch.socket.incoming ≡ frames msgs
      → (ch' : CastChannel) × (receive_loop is_ping fuel ch ≡ closed ch')
        × After ch ch' (answers msgs) (deliveries msgs ++ disconnected ∷ [])
  receive_loop-frames msgs zero ch small enough on open' ready e = absurd (omega arith)
  receive_loop-frames [] (suc fuel) ch small enough on open' ready e =
      let s : TlsSocket = record ch.socket { connected = false } in
      (
        record ch { running = false; socket = s; callbacks = ch.callbacks ++ disconnected ∷ [] },
        receive_end fuel ch s on (read_message-end ch.socket open' (unfold frames in e)),
        record {
          running = refl;
          sent_all = unfold answers in sym (append-nil ch.socket.outgoing);
          told_all = unfold deliveries in refl;
        },
      )
  receive_loop-frames (msg ∷ msgs) (suc fuel) ch small enough on open' ready e =
      let (s, r, o, st, out, acc) =
        read_message-packet ch.socket msg (frames msgs) open' small.0 (unfold frames in e) in
      elim (Bool-cases (asks_pong msg)) [
        | inl ping ↦
            let (an, de) = ping_lists msg msgs ping in
            let ready' : Ready (length (packet (pong msg)) + length (answers msgs)) s = (
              rw acc ready.0,
              rw acc (
                  omega (
                    arith,
                    ready.1,
                    ap length an,
                    length-append (packet (pong msg)) (answers msgs),
                  )),
            ) in
            let (s', sent, o', ready'', out', inc') =
              send_all_lem s (packet (pong msg)) (length (answers msgs)) o ready' in
            let (ch', run, aft) =
              receive_loop-frames msgs fuel (record ch { socket = s' }) small.1 (omega arith) on o'
                ready'' (inc_stream s s' inc' ∙ st) in
            (
              ch',
              receive_round fuel ch (record ch { socket = s' }) msg s on r
                    (handle_ping (record ch { socket = s }) msg s' ping sent)
                  ∙ run,
              record {
                running = aft.running;
                sent_all = cc (
                  aft.sent_all,
                  out',
                  out,
                  an,
                  append_assoc ch.socket.outgoing (packet (pong msg)) (answers msgs),
                );
                told_all = cc (aft.told_all, de);
              },
            )
        | inr other ↦
            let (an, de) = other_lists msg msgs other in
            let ch1 : CastChannel = record ch {
              socket = s;
              callbacks = ch.callbacks ++ message msg ∷ [];
            } in
            let (ch', run, aft) =
              receive_loop-frames msgs fuel ch1 small.1 (omega arith) on o
                (rw acc ready.0, rw acc (omega (arith, ready.1, ap length an))) st in
            (
              ch',
              receive_round fuel ch ch1 msg s on r
                    (handle_other (record ch { socket = s }) msg other)
                  ∙ run,
              record {
                running = aft.running;
                sent_all = cc (aft.sent_all, out, an);
                told_all = cc (
                  aft.told_all,
                  de,
                  append_assoc ch.callbacks (message msg ∷ [])
                      (deliveries msgs ++ disconnected ∷ []),
                );
              },
            )
      ]
