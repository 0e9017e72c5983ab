-- ===== src/Cast/Socket/Chunks.antt =====
-- However the peer's bytes are cut into chunks, `recvAll` returns the same bytes, and whatever
-- `SSL_write` accepts at a time, `sendAll` sends the data in order.
use nexus_mainframe.Common.{
  ℕ, zero, suc, ◌+◌, ◌-◌, ◌≤◌, ◌<◌, ◌≡◌, refl, ◌≢◌, ◌⊎◌, ◌∙◌, List, [], ◌∷◌, ◌++◌, append_assoc,
  append-nil, length, length-append, take, drop, take-drop, length-take, length-drop, true, false,
  none, some, arith, leb, leb→le, leb_false→lt, sym, All, inl, inr, Bool-cases, ap,
}
use nexus_mainframe.Cast.Socket.{TlsSocket, ssl_read, recv_loop, recv_all, send_loop, send_all}

unfoldable pub stream : List (List ℕ) → List ℕ
stream [] = []
stream (c ∷ cs) = c ++ stream cs

abbrev pub IsOpen : TlsSocket → Type 0
IsOpen s = (s.connected ≡ true) × (s.ssl ≡ true) × All (λ c. c ≢ []) s.incoming

-- A read of `n > 0` bytes is a prefix of the stream.
ssl_read_lem :
    (n : ℕ) (c : List ℕ) (cs : List (List ℕ))
    → 0 < n
    → All (λ c. c ≢ []) (c ∷ cs)
    → (bytes : List ℕ) × (cs' : List (List ℕ)) × (ssl_read n (c ∷ cs) ≡ some (bytes, cs'))
      × (bytes ++ stream cs' ≡ stream (c ∷ cs))
      × (1 ≤ length bytes)
      × (length bytes ≤ n)
      × All (λ c. c ≢ []) cs'
unfolding ssl_read stream
ssl_read_lem n [] cs h a = absurd (a.0 refl)
ssl_read_lem n (b ∷ bs) cs h a = elim (Bool-cases (leb (length (b ∷ bs)) n)) [
  | inl whole ↦ (b ∷ bs, cs, rw whole, refl, omega arith, leb→le (length (b ∷ bs)) n whole, a.1)
  | inr part ↦
      let more = leb_false→lt (length (b ∷ bs)) n part in
      (
        take n (b ∷ bs),
        drop n (b ∷ bs) ∷ cs,
        rw part,
        (rw (← append_assoc (take n (b ∷ bs)) (drop n (b ∷ bs)) (stream cs))
            (ap (λ (l : List ℕ). l ++ stream cs) (take-drop n (b ∷ bs)))),
        omega (arith, length-take n (b ∷ bs)),
        omega (arith, length-take n (b ∷ bs)),
        ((λ e. absurd (omega (arith, ap length e, length-drop n (b ∷ bs)))), a.1),
      )
]

-- Two ways to cut one list.
append_split :
    (a b c d : List ℕ)
    → a ++ b ≡ c ++ d
    → length a ≤ length c
    → (m : List ℕ) × (c ≡ a ++ m) × (b ≡ m ++ d)
append_split [] b c d e h = (c, refl, e)
append_split (x ∷ a) b [] d e h = absurd (omega arith)
append_split (x ∷ a) b (y ∷ c) d e h =
    let (m, p, q) = append_split a b c d (cc) (omega arith) in (m, cc, q)

recv_loop_step :
    (fuel left : ℕ) (got bytes : List ℕ) (cs cs' : List (List ℕ))
    → ssl_read (suc left) cs ≡ some (bytes, cs')
    → recv_loop (suc fuel) (suc left) got cs
      ≡ recv_loop fuel (suc left - length bytes) (got ++ bytes) cs'
unfolding recv_loop
recv_loop_step fuel left got bytes cs cs' e = rw (e, recv_loop)

abbrev pub Received : ℕ → List ℕ → List ℕ → List ℕ → List (List ℕ) → Type 0
Received fuel front back got cs =
    (cs' : List (List ℕ)) × (recv_loop fuel (length front) got cs ≡ (some (got ++ front), cs'))
    × (stream cs' ≡ back)
    × All (λ c. c ≢ []) cs'

pub recv_loop-Received :
    (fuel : ℕ) (front back got : List ℕ) (cs : List (List ℕ))
    → All (λ c. c ≢ []) cs
    → stream cs ≡ front ++ back
    → length front ≤ fuel
    → Received fuel front back got cs
recv_loop-Received fuel [] back got cs a e h = (cs, unfold recv_loop in rw append-nil, e, a)
recv_loop-Received zero (x ∷ front) back got cs a e h = absurd (omega arith)
recv_loop-Received (suc fuel) (x ∷ front) back got [] a e h = unfold stream in cc
recv_loop-Received (suc fuel) (x ∷ front) back got (c ∷ cs) a e h =
    let (bytes, cs', r, s, lo, hi, a') = ssl_read_lem (length (x ∷ front)) c cs (omega arith) a in
    let (m, p, q) = append_split bytes (stream cs') (x ∷ front) back (s ∙ e) hi in
    let left : suc (length front) - length bytes ≡ length m =
      omega (arith, ap length p, length-append bytes m) in
    let whole : got ++ (x ∷ front) ≡ (got ++ bytes) ++ m = rw p (sym (append_assoc got bytes m)) in
    let (cs'', eq, st, ne) =
      recv_loop-Received fuel m back (got ++ bytes) cs' a' q
        (omega (arith, ap length p, length-append bytes m)) in
    (cs'', cc (recv_loop_step fuel (length front) got bytes (c ∷ cs) cs' r), st, ne)

-- On an open socket with a stream that begins with `front`, `recvAll` returns `front`, and the stream that is left is
-- what followed, however both were cut into chunks.
pub recv_all-append :
    (s : TlsSocket) (front back : List ℕ)
    → IsOpen s
    → stream s.incoming ≡ front ++ back
    → (s' : TlsSocket) × (recv_all s (length front) ≡ (some front, s'))
      × IsOpen s'
      × (stream s'.incoming ≡ back)
      × (s'.outgoing ≡ s.outgoing)
      × (s'.accepts ≡ s.accepts)
unfolding recv_all
recv_all-append s front back (hc, hs, ha) e =
    let (cs, eq, st, ne) =
      recv_loop-Received (length front) front back [] s.incoming ha e (omega arith) in
    (record s { incoming = cs }, ground (arith, eq), (hc, hs, ne), st, refl, refl)

-- At the end of the stream `recvAll` fails, and the socket is no longer connected.
pub recv_all-end :
    (s : TlsSocket) (n : ℕ)
    → IsOpen s
    → stream s.incoming ≡ []
    → recv_all s (suc n) ≡ (none, record s { connected = false })
unfolding recv_all recv_loop ssl_read stream
recv_all-end s n (hc, hs, ha) e = no_chunk s.incoming refl ha e
  where
    no_chunk :
        (cs : List (List ℕ))
        → s.incoming ≡ cs
        → All (λ c. c ≢ []) cs
        → stream cs ≡ []
        → recv_all s (suc n) ≡ (none, record s { connected = false })
    no_chunk [] i a q = ground arith
    no_chunk ([] ∷ cs) i a q = absurd (a.0 refl)
    no_chunk ((b ∷ bs) ∷ cs) i a q = cc

abbrev pub Ready : ℕ → TlsSocket → Type 0
Ready n s = All (λ k. k ≢ 0) s.accepts × (n ≤ length s.accepts)

send_loop_lem :
    (fuel : ℕ) (bytes out accepts : List ℕ)
    → All (λ n. n ≢ 0) accepts
    → length bytes ≤ length accepts
    → length bytes ≤ fuel
    → (accepts' : List ℕ) × (send_loop fuel bytes out accepts ≡ (true, out ++ bytes, accepts'))
      × All (λ n. n ≢ 0) accepts'
      × (length accepts ≤ length accepts' + length bytes)
unfolding send_loop
send_loop_lem fuel [] out accepts a h enough = (accepts, rw append-nil, a, omega arith)
send_loop_lem zero (b ∷ bs) out accepts a h enough = absurd (omega arith)
send_loop_lem (suc fuel) (b ∷ bs) out [] a h enough = absurd (omega arith)
send_loop_lem (suc fuel) (b ∷ bs) out (zero ∷ accepts) a h enough = absurd (a.0 refl)
send_loop_lem (suc fuel) (b ∷ bs) out (suc n ∷ accepts) a h enough =
    let (acc', e, a', spent) =
      send_loop_lem fuel (drop n bs) (out ++ b ∷ take n bs) accepts a.1
        (omega (arith, length-drop n bs)) (omega (arith, length-drop n bs)) in
    let whole : (out ++ b ∷ take n bs) ++ drop n bs ≡ out ++ b ∷ bs =
      append_assoc out (b ∷ take n bs) (drop n bs)
      ∙ ap (λ (l : List ℕ). out ++ b ∷ l) (take-drop n bs) in
    (
      acc',
      e ∙ ap (λ (l : List ℕ). (true, l, acc')) whole,
      a',
      omega (arith, spent, length-drop n bs),
    )

-- With no error from `SSL_write` in as many calls as there are bytes, `sendAll` returns `true` and has
-- sent exactly the data, in order, after what was sent before.
pub send_all_lem :
    (s : TlsSocket) (bytes : List ℕ) (n : ℕ)
    → IsOpen s
    → Ready (length bytes + n) s
    → (s' : TlsSocket) × (send_all s bytes ≡ (true, s'))
      × IsOpen s'
      × Ready n s'
      × (s'.outgoing ≡ s.outgoing ++ bytes)
      × (s'.incoming ≡ s.incoming)
unfolding send_all
send_all_lem s bytes n (hc, hs, hi) (a, h) =
    let (acc', e, a', spent) =
      send_loop_lem (length bytes) bytes s.outgoing s.accepts a (omega arith) (omega arith) in
    (
      record s { outgoing = s.outgoing ++ bytes; accepts = acc' },
      ground (arith, e),
      (hc, hs, hi),
      (a', omega (arith, spent)),
      refl,
      refl,
    )

send_loop-sent :
    (fuel : ℕ) (bytes out accepts : List ℕ)
    → (send_loop fuel bytes out accepts).0 ≡ true
    → (send_loop fuel bytes out accepts).1 ≡ out ++ bytes
unfolding send_loop
send_loop-sent fuel [] out accepts h = sym (append-nil out)
send_loop-sent zero (b ∷ bs) out accepts h = cc
send_loop-sent (suc fuel) (b ∷ bs) out [] h = cc
send_loop-sent (suc fuel) (b ∷ bs) out (zero ∷ accepts) h = cc
send_loop-sent (suc fuel) (b ∷ bs) out (suc n ∷ accepts) h =
    send_loop-sent fuel (drop n bs) (out ++ b ∷ take n bs) accepts h
    ∙ append_assoc out (b ∷ take n bs) (drop n bs)
    ∙ ap (λ (l : List ℕ). out ++ b ∷ l) (take-drop n bs)

-- Whenever `sendAll` returns `true` all of the data has been sent, in order, and the connection stays;
-- whenever it returns `false` the socket is not usable any more.
pub send_all_result :
    (s : TlsSocket) (bytes : List ℕ)
    → (((send_all s bytes).0 ≡ true)
        × ((send_all s bytes).1.outgoing ≡ s.outgoing ++ bytes)
        × ((send_all s bytes).1.connected ≡ s.connected))
      ⊎ (((send_all s bytes).0 ≡ false)
          × (((send_all s bytes).1.connected ≡ false) ⊎ ((send_all s bytes).1.ssl ≡ false)))
unfolding send_all
send_all_result s bytes = ground (arith, send_loop-sent (length bytes) bytes s.outgoing s.accepts)
