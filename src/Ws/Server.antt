-- ===== src/Ws/Server.antt =====
-- WsServer.cpp: frames, and the table of clients. The chunks that `recv` answers and the number of
-- bytes that each `send` takes are given; a missing entry is an error.
pub mod Frames
pub mod Reading
pub mod Handshake
use Prim.Native.Nat.{bit_and, bit_or, bit_xor}
use nexus_mainframe.Common.{
  ℕ, zero, suc, ◌+◌, ◌-◌, ◌*◌, ◌/◌, ◌%◌, ◌^◌, List, [], ◌∷◌, ◌++◌, Str, length, get_or, take, Bool,
  true, false, not, ◌==◌, Option, none, some, ltb, if◌then◌else◌, is_empty,
}
use nexus_mainframe.Common.OrdMap.{OrdMap, find, insert, erase}
use nexus_mainframe.Common.Keys.{nat_order}
use nexus_mainframe.Cast.Socket.{ssl_read}

pub record Connection : Type 0 where
  pub incoming : List (List ℕ)
  pub accepts : List ℕ
  pub outgoing : List ℕ

unfoldable pub os_send : Connection → List ℕ → Option ℕ × Connection
os_send c data' = elim c.accepts [
  | [] ↦ (none, c)
  | n ∷ ns ↦
      let sent = take n data' in
      (some (length sent), record c { accepts = ns; outgoing = c.outgoing ++ sent })
]

-- `(int)(n - got)`, as `recv` takes it: from 2 ^ 31 on it is another number, and where the `int` is
-- negative a size near 2 ^ 64.
unfoldable pub recv_size : ℕ → ℕ
recv_size left =
    let size = left % 2 ^ 32 in if ltb size (2 ^ 31) then size else size + (2 ^ 64 - 2 ^ 32)

-- `while (got < n)` over `recv`, which takes the front of the first chunk; `left` is `n - got`. A
-- call for 0 bytes is answered 0, a failure, as the end of the fuel is. What arrives beyond `n` is
-- written behind the buffer; it stands in the answer.
unfoldable pub recv_int : ℕ → ℕ → List ℕ → List (List ℕ) → Option (List ℕ) × List (List ℕ)
recv_int fuel zero got chunks = (some got, chunks)
recv_int zero (suc left) got chunks = (none, chunks)
recv_int (suc fuel) (suc left) got chunks = elim (ssl_read (recv_size (suc left)) chunks) [
  | none ↦ (none, chunks)
  | some (bytes, chunks') ↦ recv_int fuel (suc left - length bytes) (got ++ bytes) chunks'
]

-- `recvAll`: a call takes a byte at least, so `n` rounds are enough.
unfoldable pub recv_all : Connection → ℕ → Option (List ℕ) × Connection
recv_all c n =
    let (got, chunks) = recv_int n n [] c.incoming in (got, record c { incoming = chunks })

-- What `readFrame` returns, `closed` where it sets that flag; `threw` is the `std::length_error` of
-- a vector larger than any may be.
pub data Frame : Type 0 where
  content : Str → Frame
  closed : Frame
  threw : Frame

-- What follows a read, which a failed read leaves out.
unfoldable pub resume :
    (List ℕ → Connection → Frame × Connection) → Option (List ℕ) × Connection → Frame × Connection
resume next (none, c) = (closed, c)
resume next (some bytes, c) = next bytes c

unfoldable pub recv_then :
    ℕ → Connection → (List ℕ → Connection → Frame × Connection) → Frame × Connection
recv_then n c next = resume next (recv_all c n)

-- `payload[i] ^= mask[i % 4]`, from `i` on.
unfoldable pub unmask : ℕ → List ℕ → List ℕ → List ℕ
unmask i mask [] = []
unmask i mask (b ∷ bs) = bit_xor b (get_or mask (i % 4) 0) ∷ unmask (suc i) mask bs

unfoldable pub on_payload : ℕ → List ℕ → Connection → Frame × Connection
on_payload opcode payload c =
    if opcode == 0x8
    then (closed, c)
    else if opcode == 0x9
    then (content [], (os_send c (0x8a ∷ 0x00 ∷ [])).1)
    else (content payload, c)

unfoldable pub read_payload : ℕ → Bool → List ℕ → ℕ → Connection → Frame × Connection
read_payload opcode masked mask plen c =
    if ltb (2 ^ 63 - 1) plen
    then (threw, c)
    else recv_then plen c
        λ payload c'. on_payload opcode (if masked then unmask 0 mask payload else payload) c'

unfoldable pub read_masked : ℕ → Bool → ℕ → Connection → Frame × Connection
read_masked opcode masked plen c =
    if masked
    then recv_then 4 c (λ mask c'. read_payload opcode masked mask plen c')
    else read_payload opcode masked (0 ∷ 0 ∷ 0 ∷ 0 ∷ []) plen c

-- `plen = (plen << 8) | e[i]`, in `uint64_t`.
unfoldable pub join_bytes : ℕ → List ℕ → ℕ
join_bytes plen [] = plen
join_bytes plen (b ∷ bs) = join_bytes (bit_or (plen * 2 ^ 8 % 2 ^ 64) b) bs

unfoldable pub read_length : ℕ → Bool → ℕ → Connection → Frame × Connection
read_length opcode masked plen c =
    if plen == 126
    then recv_then 2 c
        (λ e c'. read_masked opcode masked (bit_or (get_or e 0 0 * 2 ^ 8) (get_or e 1 0)) c')
    else if plen == 127
    then recv_then 8 c (λ e c'. read_masked opcode masked (join_bytes 0 e) c')
    else read_masked opcode masked plen c

unfoldable pub read_frame : Connection → Frame × Connection
read_frame c = recv_then 2 c λ hdr c'.
    read_length (bit_and (get_or hdr 0 0) 0x0f) (not (bit_and (get_or hdr 1 0) 0x80 == 0))
      (bit_and (get_or hdr 1 0) 0x7f) c'

-- `for (int i = n - 1; i >= 0; --i) push_back((uint8_t)(len >> (i * 8)))`.
unfoldable pub high_bytes : ℕ → ℕ → List ℕ
high_bytes zero len = []
high_bytes (suc i) len = (len / 2 ^ (i * 8) % 2 ^ 8) ∷ high_bytes i len

unfoldable pub frame_bytes : Str → List ℕ
frame_bytes payload =
    let len = length payload in
    let coded =
      if ltb len 126
      then (len % 2 ^ 8) ∷ []
      else if ltb len 65536
      then 126 ∷ (len / 2 ^ 8 % 2 ^ 8) ∷ (len % 2 ^ 8) ∷ []
      else 127 ∷ high_bytes 8 len in
    0x81 ∷ coded ++ payload

-- `send` answers the number of bytes; fewer than the frame has is a failure.
unfoldable pub write_frame : Connection → Str → Bool × Connection
write_frame c payload =
    let frame = frame_bytes payload in
    let (sent, c') = os_send c frame in
    (elim sent [ none ↦ false | some n ↦ n == length frame ], c')

-- The clients by their ids. `sockets` holds each connection, by the handle of its socket.
pub record WsServer : Type 0 where
  pub running : Bool
  pub clients : OrdMap ℕ ℕ
  pub next_id : ℕ
  pub sockets : OrdMap ℕ Connection

unfoldable pub write_to : ℕ → Str → OrdMap ℕ Connection → OrdMap ℕ Connection
write_to sock msg m = elim (find sock m) [ none ↦ m | some c ↦ insert sock (write_frame c msg).1 m ]

unfoldable pub send : WsServer → ℕ → Str → WsServer
send s id msg = elim (find id s.clients) [
  | none ↦ s
  | some sock ↦ record s { sockets = write_to sock msg s.sockets }
]

unfoldable pub write_all : OrdMap ℕ ℕ → Str → OrdMap ℕ Connection → OrdMap ℕ Connection
write_all [] msg m = m
write_all ((_, sock) ∷ cs) msg m = write_all cs msg (write_to sock msg m)

unfoldable pub broadcast : WsServer → Str → WsServer
broadcast s msg = record s { sockets = write_all s.clients msg s.sockets }

-- A round of `acceptLoop` on a new socket.
unfoldable pub accept : WsServer → ℕ → Connection → ℕ × WsServer
accept s sock c = (
  s.next_id,
  record s {
    next_id = suc s.next_id;
    clients = insert s.next_id sock s.clients;
    sockets = insert sock c s.sockets;
  },
)

-- The end of `clientLoop`; the answer is whether `_onClose` is called.
unfoldable pub leave : WsServer → ℕ → Bool × WsServer
leave s id = (s.running, record s { clients = erase id s.clients })

unfoldable pub stop : WsServer → WsServer
stop s = if s.running then record s { running = false; clients = [] } else s
