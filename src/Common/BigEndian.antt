-- ===== src/Common/BigEndian.antt =====
-- Numbers put together from their bytes, highest first, by shifts and `|`.
use Prim.Native.Nat.{ℕ, ◌+◌, ◌*◌, ◌/◌, ◌%◌, ◌^◌, ◌<◌, bit_and, bit_or}
use mathlib.Core.Path.{◌≡◌}
use native.Mathlib.Omega.{arith}
use nexus_mainframe.Common.Bits.{bit_and_mask, bit_or_above}

pub be16 : (a b : ℕ) → b < 256 → bit_or (a * 2 ^ 8) b ≡ a * 2 ^ 8 + b
be16 a b h = bit_or_above 8 a b h

pub be32 :
    (a b c d : ℕ)
    → b < 256
    → c < 256
    → d < 256
    → bit_or (bit_or (bit_or (a * 2 ^ 24) (b * 2 ^ 16)) (c * 2 ^ 8)) d
      ≡ a * 2 ^ 24 + b * 2 ^ 16 + c * 2 ^ 8 + d
be32 a b c d hb hc hd =
    let two : a * 2 ^ 24 + b * 2 ^ 16 ≡ (a * 2 ^ 8 + b) * 2 ^ 16 = omega arith in
    let three : (a * 2 ^ 8 + b) * 2 ^ 16 + c * 2 ^ 8 ≡ ((a * 2 ^ 8 + b) * 2 ^ 8 + c) * 2 ^ 8 =
      omega arith in
    rw
      (
        bit_or_above 24 a (b * 2 ^ 16) (omega arith),
        two,
        bit_or_above 16 (a * 2 ^ 8 + b) (c * 2 ^ 8) (omega arith),
        three,
        bit_or_above 8 ((a * 2 ^ 8 + b) * 2 ^ 8 + c) d hd,
      )
      (omega arith)

-- `static_cast<uint8_t>((n >> 8 * k) & 0xFF)`, for each byte of a 32-bit number.
pub be32_bytes :
    (n : ℕ)
    → n < 2 ^ 32
    → bit_or
        (bit_or
          (bit_or (bit_and (n / 2 ^ 24) 0xff * 2 ^ 24) (bit_and (n / 2 ^ 16) 0xff * 2 ^ 16))
          (bit_and (n / 2 ^ 8) 0xff * 2 ^ 8))
        (bit_and n 0xff)
      ≡ n
be32_bytes n h =
    rw
      (
        bit_and_mask 8 (n / 2 ^ 24),
        bit_and_mask 8 (n / 2 ^ 16),
        bit_and_mask 8 (n / 2 ^ 8),
        bit_and_mask 8 n,
        be32 (n / 2 ^ 24 % 256) (n / 2 ^ 16 % 256) (n / 2 ^ 8 % 256) (n % 256) (omega arith)
            (omega arith) (omega arith),
      )
      (omega arith)
