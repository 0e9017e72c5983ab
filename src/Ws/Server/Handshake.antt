-- ===== src/Ws/Server/Handshake.antt =====
-- WsServer.cpp, `sha1` and `base64Encode`, which the answer to an opening request needs. `data[i]`
-- and `m[i]` are bytes; a `uint32_t` is a number below 2 ^ 32.
use Prim.Native.Nat.{bit_and, bit_or, bit_xor}
use nexus_mainframe.Common.{
  ℕ, zero, suc, ◌+◌, ◌-◌, ◌*◌, ◌/◌, ◌%◌, ◌^◌, ◌≤◌, ◌≡◌, refl, List, [], ◌∷◌, ◌++◌, Str, codes,
  length, length-append, get_or, drop, ◌==◌, ltb, if◌then◌else◌, arith,
}
use nexus_mainframe.Ws.Server.{high_bytes}

unfoldable pub base64_table : Str
base64_table = codes "ABCDEFGHIJKLMNOPQRSTUVWXYZabcdefghijklmnopqrstuvwxyz0123456789+/"

unfoldable pub base64_char : ℕ → ℕ
base64_char v = get_or base64_table (bit_and v 63) 0

unfoldable pub base64_encode : List ℕ → Str
base64_encode [] = []
base64_encode (a ∷ []) =
    let v = a * 2 ^ 16 in base64_char (v / 2 ^ 18) ∷ base64_char (v / 2 ^ 12) ∷ b'=' ∷ b'=' ∷ []
base64_encode (a ∷ b ∷ []) =
    let v = bit_or (a * 2 ^ 16) (b * 2 ^ 8) in
    base64_char (v / 2 ^ 18) ∷ base64_char (v / 2 ^ 12) ∷ base64_char (v / 2 ^ 6) ∷ b'=' ∷ []
base64_encode (a ∷ b ∷ c ∷ rest) =
    let v = bit_or (bit_or (a * 2 ^ 16) (b * 2 ^ 8)) c in
    base64_char (v / 2 ^ 18)
    ∷ base64_char (v / 2 ^ 12)
    ∷ base64_char (v / 2 ^ 6)
    ∷ base64_char v
    ∷ base64_encode rest

unfoldable pub rotl : ℕ → ℕ → ℕ
rotl v n = bit_or (v * 2 ^ n % 2 ^ 32) (v / 2 ^ (32 - n))

unfoldable pub complement : ℕ → ℕ
complement v = 2 ^ 32 - 1 - v

-- `while (m.size() % 64 != 56) m.push_back(0)`; 64 rounds are enough.
unfoldable pub pad_zeros : ℕ → List ℕ → List ℕ
pad_zeros zero m = m
pad_zeros (suc fuel) m =
    let rest = pad_zeros fuel (m ++ 0 ∷ []) in if length m % 64 == 56 then m else rest

unfoldable pub padded : List ℕ → List ℕ
padded data' = pad_zeros 64 (data' ++ 0x80 ∷ []) ++ high_bytes 8 (length data' * 8 % 2 ^ 64)

pad_zeros-aligned :
    (fuel : ℕ) (m : List ℕ)
    → (56 + 64 - length m % 64) % 64 ≤ fuel
    → length (pad_zeros fuel m) % 64 ≡ 56
unfolding pad_zeros
pad_zeros-aligned zero m h = omega arith
pad_zeros-aligned (suc fuel) m h =
    ground (arith, length-append m (0 ∷ []), pad_zeros-aligned fuel (m ++ 0 ∷ []))

length-high_bytes : (n len : ℕ) → length (high_bytes n len) ≡ n
unfolding high_bytes
length-high_bytes zero len = refl
length-high_bytes (suc n) len = omega (arith, length-high_bytes n len)

-- The padded message is a number of whole blocks of 64 bytes, so that no block is read past its end.
pub length-padded : (data' : List ℕ) → length (padded data') % 64 ≡ 0
unfolding padded
length-padded data' = omega (
  arith,
  pad_zeros-aligned 64 (data' ++ 0x80 ∷ []) (omega arith),
  length-high_bytes 8 (length data' * 8 % 2 ^ 64),
  length-append (pad_zeros 64 (data' ++ 0x80 ∷ [])) (high_bytes 8 (length data' * 8 % 2 ^ 64)),
)

-- Four characters for each three bytes that are begun.
pub length-base64_encode :
    (data' : List ℕ) → length (base64_encode data') ≡ 4 * ((length data' + 2) / 3)
unfolding base64_encode
length-base64_encode [] = omega arith
length-base64_encode (a ∷ []) = omega arith
length-base64_encode (a ∷ b ∷ []) = omega arith
length-base64_encode (a ∷ b ∷ c ∷ rest) = omega (arith, length-base64_encode rest)

-- `h0` to `h4`, and `a` to `e`.
pub record Sha1 : Type 0 where
  pub a : ℕ
  pub b : ℕ
  pub c : ℕ
  pub d : ℕ
  pub e : ℕ

abbrev pub sha1_init : Sha1
sha1_init = record {
  a = 0x67452301;
  b = 0xefcdab89;
  c = 0x98badcfe;
  d = 0x10325476;
  e = 0xc3d2e1f0;
}

-- The sixteen words of a block, from its place `m` on.
unfoldable pub block_words : ℕ → List ℕ → List ℕ
block_words zero m = []
block_words (suc n) m =
    bit_or (bit_or (bit_or (get_or m 0 0 * 2 ^ 24) (get_or m 1 0 * 2 ^ 16)) (get_or m 2 0 * 2 ^ 8))
      (get_or m 3 0)
    ∷ block_words n (drop 4 m)

-- `w[j]` for the `n` places from `j` on; `w` holds those before.
unfoldable pub extend_words : ℕ → ℕ → List ℕ → List ℕ
extend_words zero j w = w
extend_words (suc n) j w =
    let x =
      bit_xor (bit_xor (bit_xor (get_or w (j - 3) 0) (get_or w (j - 8) 0)) (get_or w (j - 14) 0))
        (get_or w (j - 16) 0) in
    extend_words n (suc j) (w ++ rotl x 1 ∷ [])

unfoldable pub round_f : ℕ → Sha1 → ℕ
round_f j s =
    if ltb j 20
    then bit_or (bit_and s.b s.c) (bit_and (complement s.b) s.d)
    else if ltb j 40
    then bit_xor (bit_xor s.b s.c) s.d
    else if ltb j 60
    then bit_or (bit_or (bit_and s.b s.c) (bit_and s.b s.d)) (bit_and s.c s.d)
    else bit_xor (bit_xor s.b s.c) s.d

unfoldable pub round_k : ℕ → ℕ
round_k j =
    if ltb j 20
    then 0x5a827999
    else if ltb j 40
    then 0x6ed9eba1
    else if ltb j 60
    then 0x8f1bbcdc
    else 0xca62c1d6

unfoldable pub rounds : ℕ → List ℕ → Sha1 → Sha1
rounds j [] s = s
rounds j (x ∷ xs) s =
    let t = (rotl s.a 5 + round_f j s + s.e + round_k j + x) % 2 ^ 32 in
    rounds (suc j) xs (record { a = t; b = s.a; c = rotl s.b 30; d = s.c; e = s.d })

unfoldable pub sha1_block : List ℕ → Sha1 → Sha1
sha1_block m h =
    let s = rounds 0 (extend_words 64 16 (block_words 16 m)) h in
    record {
      a = (h.a + s.a) % 2 ^ 32;
      b = (h.b + s.b) % 2 ^ 32;
      c = (h.c + s.c) % 2 ^ 32;
      d = (h.d + s.d) % 2 ^ 32;
      e = (h.e + s.e) % 2 ^ 32;
    }

-- `n` blocks.
unfoldable pub sha1_blocks : ℕ → List ℕ → Sha1 → Sha1
sha1_blocks zero m h = h
sha1_blocks (suc n) m h = sha1_blocks n (drop 64 m) (sha1_block m h)

unfoldable pub sha1 : List ℕ → List ℕ
sha1 data' =
    let m = padded data' in
    let h = sha1_blocks (length m / 64) m sha1_init in
    high_bytes 4 h.a ++ high_bytes 4 h.b ++ high_bytes 4 h.c ++ high_bytes 4 h.d ++ high_bytes 4 h.e

-- The `Sec-WebSocket-Accept` of a key.
unfoldable pub accept_key : Str → Str
accept_key key = base64_encode (sha1 (key ++ codes "258EAFA5-E914-47DA-95CA-C5AB0DC85B11"))

length-sha1 : (data' : List ℕ) → length (sha1 data') ≡ 20
unfolding sha1 high_bytes
length-sha1 data' = refl

-- The answer to any key has 28 characters.
pub length-accept_key : (key : Str) → length (accept_key key) ≡ 28
unfolding accept_key
length-accept_key key =
    let magic : Str = key ++ codes "258EAFA5-E914-47DA-95CA-C5AB0DC85B11" in
    omega (arith, length-base64_encode (sha1 magic), length-sha1 magic)
