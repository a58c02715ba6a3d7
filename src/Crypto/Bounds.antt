-- ===== src/Crypto/Bounds.antt =====
-- The width of what `siphash24` of pcside/daemon/src/crypto.rs computes.
use Prim.Native.Nat.{bit_xor}
use linux_fingerprint_r.Prelude.{
  ℕ, zero, suc, ◌+◌, ◌*◌, ◌/◌, ◌%◌, ◌^◌, ◌<◌, [], ◌∷◌, Bytes, All, length, take, drop, arith,
}
use native.Mathlib.Nat.{pow-suc, one-le-pow}
use linux_fingerprint_r.Prelude.Bits.{bit_xor-lt, bit_or-lt}
use linux_fingerprint_r.Crypto.{
  from_le_bytes, load_u64_le, Words, sipround, compress, absorb, or_tail, init, finish, siphash24,
}
use linux_fingerprint_r.Crypto.Permutation.{IsWords, sipround-IsWords}

abbrev pub IsByte : ℕ → Type 0
IsByte b = b < 256

pub All-take : (n : ℕ) (s : Bytes) → All IsByte s → All IsByte (take n s)
All-take zero s h = tt
All-take (suc n) [] h = tt
All-take (suc n) (b ∷ s) h = (h.0, All-take n s h.1)

pub All-drop : (n : ℕ) (s : Bytes) → All IsByte s → All IsByte (drop n s)
All-drop zero s h = h
All-drop (suc n) [] h = tt
All-drop (suc n) (b ∷ s) h = All-drop n s h.1

from_le_bytes-lt : (n : ℕ) (s : Bytes) → All IsByte s → from_le_bytes (take n s) < 256 ^ n
unfolding from_le_bytes
from_le_bytes-lt zero s h = omega arith
from_le_bytes-lt (suc n) [] h = omega (arith, one-le-pow (suc n) 256)
from_le_bytes-lt (suc n) (b ∷ s) h = omega (arith, h.0, pow-suc 256 n, from_le_bytes-lt n s h.1)

-- Eight bytes make a 64-bit word.
pub load_u64_le-lt : (p : Bytes) → All IsByte p → load_u64_le p < 2 ^ 64
unfolding load_u64_le
load_u64_le-lt p h = from_le_bytes-lt 8 p h

pub compress-IsWords : (s : Words) (m : ℕ) → IsWords s → m < 2 ^ 64 → IsWords (compress s m)
unfolding compress
compress-IsWords s m w h =
    let keep : IsWords (sipround (sipround (record s { v3 = bit_xor s.v3 m }))) =
      sipround-IsWords _ (
        sipround-IsWords _
          (record { v0 = w.v0; v1 = w.v1; v2 = w.v2; v3 = bit_xor-lt 64 _ _ w.v3 h })) in
    record { v0 = bit_xor-lt 64 _ _ keep.v0 h; v1 = keep.v1; v2 = keep.v2; v3 = keep.v3 }

absorb-IsWords :
    (n i : ℕ) (msg : Bytes) (s : Words) → All IsByte msg → IsWords s → IsWords (absorb n i msg s)
unfolding absorb
absorb-IsWords zero i msg s h w = w
absorb-IsWords (suc n) i msg s h w =
    absorb-IsWords n (i + 1) msg _ h
      (compress-IsWords s _ w (load_u64_le-lt _ (All-drop (i * 8) msg h)))

shifted-lt : (byte i : ℕ) → byte * 2 ^ (i * 8) % 2 ^ 64 < 2 ^ 64
shifted-lt byte i = omega arith

or_tail-lt : (i b : ℕ) (tail : Bytes) → b < 2 ^ 64 → or_tail i b tail < 2 ^ 64
unfolding or_tail
or_tail-lt i b [] h = h
or_tail-lt i b (byte ∷ tail) h = or_tail-lt (i + 1) _ tail (bit_or-lt 64 _ _ h (shifted-lt byte i))

init-IsWords : (key : Bytes) → All IsByte key → IsWords (init key)
unfolding init
init-IsWords key h =
    let k0 : load_u64_le (take 8 key) < 2 ^ 64 = load_u64_le-lt _ (All-take 8 key h) in
    let k1 : load_u64_le (drop 8 key) < 2 ^ 64 = load_u64_le-lt _ (All-drop 8 key h) in
    record {
      v0 = bit_xor-lt 64 _ _ k0 (omega arith);
      v1 = bit_xor-lt 64 _ _ k1 (omega arith);
      v2 = bit_xor-lt 64 _ _ k0 (omega arith);
      v3 = bit_xor-lt 64 _ _ k1 (omega arith);
    }

finish-lt : (s : Words) → IsWords s → finish s < 2 ^ 64
unfolding finish
finish-lt s w =
    let r : IsWords
        (sipround (sipround (sipround (sipround (record s { v2 = bit_xor s.v2 0xff }))))) =
      sipround-IsWords _ (
        sipround-IsWords _ (
          sipround-IsWords _ (
            sipround-IsWords _ (record {
              v0 = w.v0;
              v1 = w.v1;
              v2 = bit_xor-lt 64 _ _ w.v2 (omega arith);
              v3 = w.v3;
            })))) in
    bit_xor-lt 64 _ _ (bit_xor-lt 64 _ _ (bit_xor-lt 64 _ _ r.v0 r.v1) r.v2) r.v3

top_byte-lt : (n : ℕ) → n % 256 * 2 ^ 56 < 2 ^ 64
top_byte-lt n = omega arith

-- For every key and message of bytes the MAC is a 64-bit word.
pub siphash24-lt : (key msg : Bytes) → All IsByte key → All IsByte msg → siphash24 key msg < 2 ^ 64
unfolding siphash24
siphash24-lt key msg hk hm = finish-lt _ (
    compress-IsWords _ _ (absorb-IsWords (length msg / 8) 0 msg _ hm (init-IsWords key hk))
      (or_tail-lt 0 _ (drop (length msg / 8 * 8) msg) (top_byte-lt (length msg))))
