-- ===== src/Ws/Server/Frames.antt =====
-- The frames of RFC 6455 against `readFrame` and `writeFrame`.
use Prim.Native.Nat.{bit_or}
use nexus_mainframe.Common.{
  ℕ, suc, ◌+◌, ◌*◌, ◌/◌, ◌%◌, ◌^◌, ◌<◌, ◌≡◌, refl, ap, ◌∙◌, List, [], ◌∷◌, ◌++◌, Str, length,
  get_or, ltb, if◌then◌else◌, arith,
}
use nexus_mainframe.Common.Bits.{bit_or_above, bit_xor_twice}
use nexus_mainframe.Ws.Server.{unmask, join_bytes, high_bytes, frame_bytes}

-- The seven bits of length in the second byte, and the extended length behind it.
unfoldable pub short_length : ℕ → ℕ
short_length n = if ltb n 126 then n else if ltb n 65536 then 126 else 127

unfoldable pub extended_length : ℕ → List ℕ
extended_length n =
    if ltb n 126 then [] else if ltb n 65536 then n / 256 ∷ n % 256 ∷ [] else high_bytes 8 n

-- A frame of one fragment that a client sends: masked by four bytes.
unfoldable pub masked_frame : ℕ → List ℕ → Str → List ℕ
masked_frame opcode mask payload =
    (0x80 + opcode) ∷ (128 + short_length (length payload)) ∷ extended_length (length payload)
    ++ (mask ++ unmask 0 mask payload)

-- A frame of one fragment that a server sends.
unfoldable pub plain_frame : ℕ → Str → List ℕ
plain_frame opcode payload =
    (0x80 + opcode) ∷ short_length (length payload) ∷ extended_length (length payload) ++ payload

-- `writeFrame` writes the unmasked text frame of the RFC, for a payload of fewer than 2 ^ 64 bytes.
pub frame_bytes-plain :
    (payload : Str) → length payload < 2 ^ 64 → frame_bytes payload ≡ plain_frame 1 payload
unfolding frame_bytes plain_frame short_length extended_length
frame_bytes-plain payload h = ground arith

next_byte : (q b : ℕ) → q * 256 + b < 2 ^ 64 → b < 256 → bit_or (q * 2 ^ 8 % 2 ^ 64) b ≡ q * 256 + b
next_byte q b h k =
    let fits : q * 2 ^ 8 % 2 ^ 64 ≡ q * 2 ^ 8 = omega arith in rw fits (bit_or_above 8 q b k)

pub join-high_bytes : (n : ℕ) → n < 2 ^ 64 → join_bytes 0 (high_bytes 8 n) ≡ n
unfolding join_bytes high_bytes
join-high_bytes n h =
    let a0 : bit_or 0 (n / 2 ^ 56 % 2 ^ 8) ≡ n / 2 ^ 56 =
      bit_or_above 8 0 (n / 2 ^ 56 % 2 ^ 8) (omega arith) ∙ omega arith in
    let a1 : bit_or (n / 2 ^ 56 * 2 ^ 8 % 2 ^ 64) (n / 2 ^ 48 % 2 ^ 8) ≡ n / 2 ^ 48 =
      next_byte (n / 2 ^ 56) (n / 2 ^ 48 % 2 ^ 8) (omega arith) (omega arith) ∙ omega arith in
    let a2 : bit_or (n / 2 ^ 48 * 2 ^ 8 % 2 ^ 64) (n / 2 ^ 40 % 2 ^ 8) ≡ n / 2 ^ 40 =
      next_byte (n / 2 ^ 48) (n / 2 ^ 40 % 2 ^ 8) (omega arith) (omega arith) ∙ omega arith in
    let a3 : bit_or (n / 2 ^ 40 * 2 ^ 8 % 2 ^ 64) (n / 2 ^ 32 % 2 ^ 8) ≡ n / 2 ^ 32 =
      next_byte (n / 2 ^ 40) (n / 2 ^ 32 % 2 ^ 8) (omega arith) (omega arith) ∙ omega arith in
    let a4 : bit_or (n / 2 ^ 32 * 2 ^ 8 % 2 ^ 64) (n / 2 ^ 24 % 2 ^ 8) ≡ n / 2 ^ 24 =
      next_byte (n / 2 ^ 32) (n / 2 ^ 24 % 2 ^ 8) (omega arith) (omega arith) ∙ omega arith in
    let a5 : bit_or (n / 2 ^ 24 * 2 ^ 8 % 2 ^ 64) (n / 2 ^ 16 % 2 ^ 8) ≡ n / 2 ^ 16 =
      next_byte (n / 2 ^ 24) (n / 2 ^ 16 % 2 ^ 8) (omega arith) (omega arith) ∙ omega arith in
    let a6 : bit_or (n / 2 ^ 16 * 2 ^ 8 % 2 ^ 64) (n / 2 ^ 8 % 2 ^ 8) ≡ n / 2 ^ 8 =
      next_byte (n / 2 ^ 16) (n / 2 ^ 8 % 2 ^ 8) (omega arith) (omega arith) ∙ omega arith in
    let a7 : bit_or (n / 2 ^ 8 * 2 ^ 8 % 2 ^ 64) (n / 2 ^ 0 % 2 ^ 8) ≡ n / 2 ^ 0 =
      next_byte (n / 2 ^ 8) (n / 2 ^ 0 % 2 ^ 8) (omega arith) (omega arith) ∙ omega arith in
    rw (a0, a1, a2, a3, a4, a5, a6, a7) (omega arith)

pub unmask_twice : (i : ℕ) (mask : List ℕ) (p : Str) → unmask i mask (unmask i mask p) ≡ p
unfolding unmask
unmask_twice i mask [] = refl
unmask_twice i mask (b ∷ bs) =
    rw (bit_xor_twice b (get_or mask (i % 4) 0))
      (ap (λ (l : List ℕ). b ∷ l) (unmask_twice (suc i) mask bs))

pub length-unmask : (i : ℕ) (mask : List ℕ) (p : Str) → length (unmask i mask p) ≡ length p
unfolding unmask
length-unmask i mask [] = refl
length-unmask i mask (b ∷ bs) = ap suc (length-unmask (suc i) mask bs)
