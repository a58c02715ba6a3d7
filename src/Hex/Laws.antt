-- ===== src/Hex/Laws.antt =====
-- What a hexadecimal digit and a little-endian word are read back as.
use Prim.Native.Nat.{bit_or}
use native.Mathlib.Nat.{pow-suc}
use linux_fingerprint_r.Prelude.{
  ℕ, zero, suc, ◌*◌, ◌/◌, ◌%◌, ◌^◌, ◌<◌, ◌≡◌, refl, ap, some, [], ◌∷◌, Bytes, All, length, arith,
}
use linux_fingerprint_r.Prelude.Whitespace.Trimming.{IsGraphic}
use linux_fingerprint_r.Prelude.Bits.{bit_or_fields}
use linux_fingerprint_r.Crypto.{from_le_bytes}
use linux_fingerprint_r.Crypto.Bounds.{IsByte}
use linux_fingerprint_r.Hex.{hex_digit, to_hex, to_le_bytes, nybble}

pub nybble-hex_digit_high : (b : ℕ) → b < 256 → nybble (hex_digit (b / 16)) ≡ some (b / 16)
unfolding nybble hex_digit
nybble-hex_digit_high b h = ground arith

pub nybble-hex_digit_low : (b : ℕ) → nybble (hex_digit (b % 16)) ≡ some (b % 16)
unfolding nybble hex_digit
nybble-hex_digit_low b = ground arith

-- The two digits put together again, as `(hi << 4) | lo`.
pub join_nybbles : (b : ℕ) → bit_or (b / 16 * 2 ^ 4) (b % 16) ≡ b
join_nybbles b = omega (arith, bit_or_fields 4 (b / 16) (b % 16) (omega arith))

pub length-to_hex : (s : Bytes) → length (to_hex s) ≡ 2 * length s
unfolding to_hex
length-to_hex [] = refl
length-to_hex (b ∷ s) = omega (arith, length-to_hex s)

pub length-to_le_bytes : (k n : ℕ) → length (to_le_bytes k n) ≡ k
unfolding to_le_bytes
length-to_le_bytes zero n = refl
length-to_le_bytes (suc k) n = ap suc (length-to_le_bytes k (n / 256))

pub to_le_bytes-IsByte : (k n : ℕ) → All IsByte (to_le_bytes k n)
unfolding to_le_bytes
to_le_bytes-IsByte zero n = tt
to_le_bytes-IsByte (suc k) n = (omega arith, to_le_bytes-IsByte k (n / 256))

pub from_le_bytes-to_le_bytes : (k n : ℕ) → n < 256 ^ k → from_le_bytes (to_le_bytes k n) ≡ n
unfolding to_le_bytes from_le_bytes
from_le_bytes-to_le_bytes zero n h = omega arith
from_le_bytes-to_le_bytes (suc k) n h =
    omega (arith, from_le_bytes-to_le_bytes k (n / 256) (omega (arith, pow-suc 256 k)))

pub hex_digit-lt : (b : ℕ) → b < 256 → (hex_digit (b / 16) < 128) × (hex_digit (b % 16) < 128)
unfolding hex_digit
hex_digit-lt b h = ground arith

hex_digit-IsGraphic :
    (b : ℕ) → b < 256 → IsGraphic (hex_digit (b / 16)) × IsGraphic (hex_digit (b % 16))
unfolding hex_digit
hex_digit-IsGraphic b h = (ground arith, ground arith)

pub to_hex-IsGraphic : (s : Bytes) → All IsByte s → All IsGraphic (to_hex s)
unfolding to_hex
to_hex-IsGraphic [] h = tt
to_hex-IsGraphic (b ∷ s) h =
    let (high, low) = hex_digit-IsGraphic b h.0 in (high, (low, to_hex-IsGraphic s h.1))
