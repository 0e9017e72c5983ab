-- ===== src/Cast/Socket.antt =====
-- TlsSocket.cpp: `sendAll` and `recvAll` over OpenSSL. The library is the environment: what the
-- peer sent is a list of chunks, of which `SSL_read` returns the front of the first, and what
-- `SSL_write` accepts is a list of numbers of bytes. An empty chunk, a 0 and the end of a list are
-- its error, `n <= 0`. The sizes are below 2 ^ 31, so that the casts to `int` keep them.
pub mod Chunks
use nexus_mainframe.Common.{
  ℕ, zero, suc, ◌+◌, ◌-◌, ◌≤◌, List, [], ◌∷◌, ◌++◌, length, take, drop, Bool, true, false, not,
  ◌||◌, Option, none, some, leb, if◌then◌else◌,
}

-- `ctx` and `sock` of the implementation come and go with `ssl`.
pub record TlsSocket : Type 0 where
  pub connected : Bool
  pub ssl : Bool
  pub incoming : List (List ℕ)
  pub accepts : List ℕ
  pub outgoing : List ℕ

-- `SSL_read` of up to `n` bytes: the bytes, and the chunks that are left.
unfoldable pub ssl_read : ℕ → List (List ℕ) → Option (List ℕ × List (List ℕ))
ssl_read n [] = none
ssl_read n ([] ∷ chunks) = none
ssl_read n ((b ∷ bs) ∷ chunks) =
    if leb (length (b ∷ bs)) n
    then some (b ∷ bs, chunks)
    else some (take n (b ∷ bs), drop n (b ∷ bs) ∷ chunks)

-- `while (got < size)`; `left` is `size - got`. A read takes a byte at least, so `size` rounds are
-- enough, and `fuel` running out is no answer of the loop.
unfoldable pub recv_loop : ℕ → ℕ → List ℕ → List (List ℕ) → Option (List ℕ) × List (List ℕ)
recv_loop fuel zero got chunks = (some got, chunks)
recv_loop zero (suc left) got chunks = (none, chunks)
recv_loop (suc fuel) (suc left) got chunks = elim (ssl_read (suc left) chunks) [
  | none ↦ (none, chunks)
  | some (bytes, chunks') ↦ recv_loop fuel (suc left - length bytes) (got ++ bytes) chunks'
]

-- The bytes, where `recvAll` returns `true`.
unfoldable pub recv_all : TlsSocket → ℕ → Option (List ℕ) × TlsSocket
recv_all s size =
    if not s.connected || not s.ssl
    then (none, s)
    else (let (got, chunks) = recv_loop size size [] s.incoming in
        elim got [
          | none ↦ (none, record s { connected = false; incoming = chunks })
          | some bytes ↦ (some bytes, record s { incoming = chunks })
        ])

-- `while (sent < data.size())`; the list is what has not been sent.
unfoldable pub send_loop : ℕ → List ℕ → List ℕ → List ℕ → Bool × List ℕ × List ℕ
send_loop fuel [] out accepts = (true, out, accepts)
send_loop zero (b ∷ bs) out accepts = (false, out, accepts)
send_loop (suc fuel) (b ∷ bs) out [] = (false, out, [])
send_loop (suc fuel) (b ∷ bs) out (zero ∷ accepts) = (false, out, accepts)
send_loop (suc fuel) (b ∷ bs) out (suc n ∷ accepts) =
    send_loop fuel (drop (suc n) (b ∷ bs)) (out ++ take (suc n) (b ∷ bs)) accepts

unfoldable pub send_all : TlsSocket → List ℕ → Bool × TlsSocket
send_all s bytes =
    if not s.connected || not s.ssl
    then (false, s)
    else (let (sent, out, accepts) = send_loop (length bytes) bytes s.outgoing s.accepts in
        if sent
        then (true, record s { outgoing = out; accepts = accepts })
        else (false, record s { connected = false; outgoing = out; accepts = accepts }))

unfoldable pub disconnect : TlsSocket → TlsSocket
disconnect s = record s { connected = false; ssl = false }
