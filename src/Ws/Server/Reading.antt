-- ===== src/Ws/Server/Reading.antt =====
-- WsServer.cpp, `readFrame` on the bytes that a client sends.
use Prim.Native.Nat.{bit_and, bit_or}
use nexus_mainframe.Common.{
  ℕ, zero, suc, ◌-◌, Option, none, ◌+◌, ◌*◌, ◌/◌, ◌%◌, ◌^◌, ◌≤◌, ◌<◌, ◌≡◌, ◌≢◌, refl, subst, sym,
  ap, ◌∙◌, List, [], ◌∷◌, ◌++◌, length, get_or, All, Bool, true, not, ◌==◌, some, ltb, ◌⊎◌, inl,
  inr, Bool-cases, ltb→lt, ltb_false→le, arith,
}
use nexus_mainframe.Common.Bits.{bit_and_mask, bit_and_top}
use nexus_mainframe.Common.BigEndian.{be16}
use nexus_mainframe.Cast.Socket.{ssl_read, recv_loop}
use nexus_mainframe.Cast.Socket.Chunks.{stream, recv_loop-Received}
use nexus_mainframe.Ws.Server.{
  Connection, recv_size, recv_int, recv_all, resume, recv_then, Frame, threw, read_payload,
  read_masked, join_bytes, read_length, read_frame, high_bytes,
}
use nexus_mainframe.Ws.Server.Frames.{short_length, extended_length, join-high_bytes}

-- A connection whose peer has sent `bytes` in chunks that are not empty.
abbrev pub Sent : Connection → List ℕ → Type 0
Sent c bytes = All (λ k. k ≢ []) c.incoming × (stream c.incoming ≡ bytes)

-- The connection behind a read.
abbrev pub Same : Connection → Connection → Type 0
Same c c' = (c'.outgoing ≡ c.outgoing) × (c'.accepts ≡ c.accepts)

recv_size_lem : (left : ℕ) → left < 2 ^ 31 → recv_size left ≡ left
unfolding recv_size
recv_size_lem left h = ground arith

-- Below 2 ^ 31 the `int` is the number.
recv_int-recv_loop :
    (fuel left : ℕ) (got : List ℕ) (cs : List (List ℕ))
    → left < 2 ^ 31
    → recv_int fuel left got cs ≡ recv_loop fuel left got cs
unfolding recv_int recv_loop
recv_int-recv_loop fuel zero got cs h = refl
recv_int-recv_loop zero (suc left) got cs h = refl
recv_int-recv_loop (suc fuel) (suc left) got cs h =
    rw (recv_int, recv_size_lem (suc left) h, recv_loop)
      (next (ssl_read (suc left) cs) λ bytes cs'.
        recv_int-recv_loop fuel (suc left - length bytes) (got ++ bytes) cs' (omega arith))
  where
    next :
        (o : Option (List ℕ × List (List ℕ)))
        → ((bytes : List ℕ) (cs' : List (List ℕ))
            → recv_int fuel (suc left - length bytes) (got ++ bytes) cs'
              ≡ recv_loop fuel (suc left - length bytes) (got ++ bytes) cs')
        → elim o as (λ _. Option (List ℕ) × List (List ℕ)) [
          | none ↦ (none, cs)
          | some (bytes, cs') ↦ recv_int fuel (suc left - length bytes) (got ++ bytes) cs'
        ]
          ≡ elim o as (λ _. Option (List ℕ) × List (List ℕ)) [
            | none ↦ (none, cs)
            | some (bytes, cs') ↦ recv_loop fuel (suc left - length bytes) (got ++ bytes) cs'
          ]
    next none same = refl
    next (some (bytes, cs')) same = same bytes cs'

recv_all-got :
    (c : Connection) (n : ℕ) (got : List ℕ) (cs : List (List ℕ))
    → n < 2 ^ 31
    → recv_loop n n [] c.incoming ≡ (some got, cs)
    → recv_all c n ≡ (some got, record c { incoming = cs })
unfolding recv_all
recv_all-got c n got cs h e = ground (arith, recv_int-recv_loop n n [] c.incoming h, e)

recv_then-got :
    (c : Connection) (n : ℕ) (got : List ℕ) (cs : List (List ℕ))
    (next : List ℕ → Connection → Frame × Connection)
    → n < 2 ^ 31
    → recv_loop n n [] c.incoming ≡ (some got, cs)
    → recv_then n c next ≡ next got (record c { incoming = cs })
unfolding recv_then resume
recv_then-got c n got cs next h e = ap (resume next) (recv_all-got c n got cs h e)

recv_then-length :
    (c : Connection) (front back : List ℕ) (next : List ℕ → Connection → Frame × Connection)
    → length front < 2 ^ 31
    → Sent c (front ++ back)
    → (c' : Connection) × (recv_then (length front) c next ≡ next front c')
      × Sent c' back
      × Same c c'
recv_then-length c front back next h (ne, e) =
    let (cs, eq, st, ne') =
      recv_loop-Received (length front) front back [] c.incoming ne e (omega arith) in
    (
      record c { incoming = cs },
      recv_then-got c (length front) front cs next h eq,
      (ne', st),
      (refl, refl),
    )

recv_then-append :
    (c : Connection) (n : ℕ) (front back : List ℕ) (next : List ℕ → Connection → Frame × Connection)
    → length front ≡ n
    → n < 2 ^ 31
    → Sent c (front ++ back)
    → (c' : Connection) × (recv_then n c next ≡ next front c') × Sent c' back × Same c c'
recv_then-append c n front back next len h s =
    subst
      (λ (k : ℕ).
        (c' : Connection) × (recv_then k c next ≡ next front c') × Sent c' back × Same c c')
      len (recv_then-length c front back next (omega arith) s)

-- The two header bytes, taken apart.
header_bits :
    (opcode flag x : ℕ)
    → opcode < 16
    → x < 128
    → (flag ≡ 0) ⊎ (flag ≡ 128)
    → (bit_and (0x80 + opcode) 0x0f ≡ opcode)
      × (bit_and (flag + x) 0x80 ≡ flag)
      × (bit_and (flag + x) 0x7f ≡ x)
header_bits opcode flag x o h f = (
  bit_and_mask 4 (0x80 + opcode) ∙ omega arith,
  bit_and_top (flag + x) (omega arith) ∙ omega arith,
  bit_and_mask 7 (flag + x) ∙ omega arith,
)

-- Behind the header: the extended length.
read_length-two :
    (opcode n : ℕ) (masked : Bool) (rest : List ℕ) (c : Connection)
    → n < 65536
    → Sent c (n / 256 ∷ n % 256 ∷ rest)
    → (c' : Connection) × (read_length opcode masked 126 c ≡ read_masked opcode masked n c')
      × Sent c' rest
      × Same c c'
unfolding read_length
read_length-two opcode n masked rest c h s =
    let (c', eq, sent, same) =
      recv_then-append c 2 (n / 256 ∷ n % 256 ∷ []) rest
        (λ e c'. read_masked opcode masked (bit_or (get_or e 0 0 * 2 ^ 8) (get_or e 1 0)) c') refl
        (omega arith) s in
    (
      c',
      eq
          ∙ ap (λ k. read_masked opcode masked k c')
              (be16 (n / 256) (n % 256) (omega arith) ∙ omega arith),
      sent,
      same,
    )

read_length-eight :
    (opcode n : ℕ) (masked : Bool) (rest : List ℕ) (c : Connection)
    → n < 2 ^ 64
    → Sent c (high_bytes 8 n ++ rest)
    → (c' : Connection) × (read_length opcode masked 127 c ≡ read_masked opcode masked n c')
      × Sent c' rest
      × Same c c'
unfolding read_length
read_length-eight opcode n masked rest c h s =
    let (c', eq, sent, same) =
      recv_then-append c 8 (high_bytes 8 n) rest
        (λ e c'. read_masked opcode masked (join_bytes 0 e) c') (unfold high_bytes in refl)
        (omega arith) s in
    (c', eq ∙ ap (λ k. read_masked opcode masked k c') (join-high_bytes n h), sent, same)

small_code : (n : ℕ) → n < 126 → (short_length n ≡ n) × (extended_length n ≡ [])
unfolding short_length extended_length
small_code n h = (ground arith, ground arith)

two_code :
    (n : ℕ)
    → 126 ≤ n
    → n < 65536
    → (short_length n ≡ 126) × (extended_length n ≡ n / 256 ∷ n % 256 ∷ [])
unfolding short_length extended_length
two_code n l h = (ground arith, ground arith)

eight_code : (n : ℕ) → 65536 ≤ n → (short_length n ≡ 127) × (extended_length n ≡ high_bytes 8 n)
unfolding short_length extended_length
eight_code n h = (ground arith, ground arith)

read_length-small :
    (opcode n : ℕ) (masked : Bool) (c : Connection)
    → n < 126
    → read_length opcode masked n c ≡ read_masked opcode masked n c
unfolding read_length
read_length-small opcode n masked c h = ground arith

-- What is behind the header, whichever of the three codes the length has.
abbrev Behind : ℕ → ℕ → Bool → List ℕ → Connection → ℕ → Type 0
Behind opcode n masked rest c x =
    (c' : Connection) × (read_length opcode masked x c ≡ read_masked opcode masked n c')
    × Sent c' rest
    × Same c c'

read_length-code :
    (opcode n : ℕ) (masked : Bool) (rest : List ℕ) (c : Connection)
    → n < 2 ^ 64
    → Sent c (extended_length n ++ rest)
    → Behind opcode n masked rest c (short_length n)
read_length-code opcode n masked rest c h s = elim (Bool-cases (ltb n 126)) [
  | inl small ↦
      let (x, ext) = small_code n (ltb→lt n 126 small) in
      subst (Behind opcode n masked rest c) (sym x) (
        c,
        read_length-small opcode n masked c (ltb→lt n 126 small),
        subst (λ (l : List ℕ). Sent c (l ++ rest)) ext s,
        (refl, refl),
      )
  | inr big ↦ elim (Bool-cases (ltb n 65536)) [
    | inl two ↦
        let (x, ext) = two_code n (ltb_false→le n 126 big) (ltb→lt n 65536 two) in
        subst (Behind opcode n masked rest c) (sym x) (
          read_length-two opcode n masked rest c (ltb→lt n 65536 two)
            (subst (λ (l : List ℕ). Sent c (l ++ rest)) ext s))
    | inr eight ↦
        let (x, ext) = eight_code n (ltb_false→le n 65536 eight) in
        subst (Behind opcode n masked rest c) (sym x) (
          read_length-eight opcode n masked rest c (omega arith)
            (subst (λ (l : List ℕ). Sent c (l ++ rest)) ext s))
  ]
]

short_length-bound : (n : ℕ) → short_length n < 128
unfolding short_length
short_length-bound n = ground arith

read_length-bits :
    (opcode n : ℕ) (c : Connection)
    → opcode < 16
    → read_length
        (bit_and (0x80 + opcode) 0x0f)
        (not (bit_and (128 + short_length n) 0x80 == 0))
        (bit_and (128 + short_length n) 0x7f)
        c
      ≡ read_length opcode true (short_length n) c
read_length-bits opcode n c o =
    let (b0, b1, b2) =
      header_bits opcode 128 (short_length n) o (short_length-bound n) (inr refl) in
    rw (b0, b1, b2) refl

read_header :
    (opcode n : ℕ) (rest : List ℕ) (c : Connection)
    → opcode < 16
    → Sent c ((0x80 + opcode) ∷ (128 + short_length n) ∷ rest)
    → (c' : Connection) × (read_frame c ≡ read_length opcode true (short_length n) c')
      × Sent c' rest
      × Same c c'
unfolding read_frame
read_header opcode n rest c o s =
    let (c', eq, sent, same) =
      recv_then-append c 2 ((0x80 + opcode) ∷ (128 + short_length n) ∷ []) rest _ refl (omega arith)
        s in
    (c', eq ∙ read_length-bits opcode n c' o, sent, same)

read_mask :
    (opcode n m0 m1 m2 m3 : ℕ) (rest : List ℕ) (c : Connection)
    → Sent c (m0 ∷ m1 ∷ m2 ∷ m3 ∷ rest)
    → (c' : Connection) × (read_masked opcode true n c
        ≡ read_payload opcode true (m0 ∷ m1 ∷ m2 ∷ m3 ∷ []) n c')
      × Sent c' rest
      × Same c c'
unfolding read_masked
read_mask opcode n m0 m1 m2 m3 rest c s =
    recv_then-append c 4 (m0 ∷ m1 ∷ m2 ∷ m3 ∷ []) rest
      (λ mask c'. read_payload opcode true mask n c') refl (omega arith) s

read_payload-large :
    (opcode n : ℕ) (masked : Bool) (mask : List ℕ) (c : Connection)
    → 2 ^ 63 ≤ n
    → read_payload opcode masked mask n c ≡ (threw, c)
unfolding read_payload
read_payload-large opcode n masked mask c h = ground arith

-- A masked header that announces 2 ^ 63 bytes or more, which the RFC forbids, makes `readFrame`
-- throw, whatever follows the mask.
pub read_frame-throws :
    (opcode n : ℕ) (m0 m1 m2 m3 : ℕ) (back : List ℕ) (c : Connection)
    → opcode < 16
    → 2 ^ 63 ≤ n
    → n < 2 ^ 64
    → Sent c
        ((0x80 + opcode) ∷ (128 + short_length n) ∷ extended_length n ++ (m0 ∷ m1 ∷ m2 ∷ m3 ∷ back))
    → (read_frame c).0 ≡ threw
read_frame-throws opcode n m0 m1 m2 m3 back c o l h s =
    let mask : List ℕ = m0 ∷ m1 ∷ m2 ∷ m3 ∷ [] in
    let (c1, e1, s1, _) = read_header opcode n (extended_length n ++ (mask ++ back)) c o s in
    let (c2, e2, s2, _) = read_length-code opcode n true (mask ++ back) c1 h s1 in
    let (c3, e3, s3, _) = read_mask opcode n m0 m1 m2 m3 back c2 s2 in
    ap (λ (r : Frame × Connection). r.0) (e1 ∙ e2 ∙ e3 ∙ read_payload-large opcode n true mask c3 l)
