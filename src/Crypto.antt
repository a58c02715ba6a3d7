-- ===== src/Crypto.antt =====
-- pcside/daemon/src/crypto.rs: SipHash-2-4 on 64-bit words, and the wire form of the MAC.
-- `& 0xff` is `% 256`. A `u64` is a number below 2 ^ 64 and keeps its wrap-around written out; `&[u8]` is a list of
-- bytes, and the key `[u8; 16]` a list of sixteen.
mod Tests
pub mod Bounds
pub mod Permutation
pub mod Tail
pub mod Spec
pub mod Reference
use Prim.Native.Nat.{bit_xor, bit_or}
use linux_fingerprint_r.Prelude.{
  ℕ, zero, suc, ◌+◌, ◌-◌, ◌*◌, ◌/◌, ◌%◌, ◌^◌, [], ◌∷◌, Bytes, length, take, drop,
}

-- `x.rotate_left(b)`, for b ≤ 64
unfoldable pub rotl64 : ℕ → ℕ → ℕ
rotl64 x b = x * 2 ^ b % 2 ^ 64 + x / 2 ^ (64 - b)

-- `a.wrapping_add(b)`
abbrev pub wrapping_add : ℕ → ℕ → ℕ
wrapping_add a b = (a + b) % 2 ^ 64

-- `u64::from_le_bytes` and `u32::from_le_bytes`
unfoldable pub from_le_bytes : Bytes → ℕ
from_le_bytes [] = 0
from_le_bytes (b ∷ bs) = b + 256 * from_le_bytes bs

unfoldable pub load_u64_le : Bytes → ℕ
load_u64_le p = from_le_bytes (take 8 p)

pub record Words : Type 0 where
  pub v0 : ℕ
  pub v1 : ℕ
  pub v2 : ℕ
  pub v3 : ℕ

-- The macro `sipround!`, one binding for each assignment.
unfoldable pub sipround : Words → Words
sipround s =
    let a0 = wrapping_add s.v0 s.v1 in
    let a1 = rotl64 s.v1 13 in
    let b1 = bit_xor a1 a0 in
    let b0 = rotl64 a0 32 in
    let a2 = wrapping_add s.v2 s.v3 in
    let a3 = rotl64 s.v3 16 in
    let b3 = bit_xor a3 a2 in
    let c0 = wrapping_add b0 b3 in
    let c3 = rotl64 b3 21 in
    let d3 = bit_xor c3 c0 in
    let b2 = wrapping_add a2 b1 in
    let c1 = rotl64 b1 17 in
    let d1 = bit_xor c1 b2 in let c2 = rotl64 b2 32 in record { v0 = c0; v1 = d1; v2 = c2; v3 = d3 }

-- One message word: the body of the block loop, and of the final block.
unfoldable pub compress : Words → ℕ → Words
compress s m =
    let r = sipround (sipround (record s { v3 = bit_xor s.v3 m })) in
    record r { v0 = bit_xor r.v0 m }

-- `for i in 0..blocks`, with the rounds that are left.
absorb : ℕ → ℕ → Bytes → Words → Words
absorb zero i msg s = s
absorb (suc left) i msg s = absorb left (i + 1) msg (compress s (load_u64_le (drop (i * 8) msg)))

-- `for (i, &byte) in tail.iter().enumerate() { b |= (byte as u64) << (i * 8) }`
pub or_tail : ℕ → ℕ → Bytes → ℕ
or_tail i b [] = b
or_tail i b (byte ∷ tail) = or_tail (i + 1) (bit_or b (byte * 2 ^ (i * 8) % 2 ^ 64)) tail

init : Bytes → Words
init key =
    let k0 = load_u64_le (take 8 key) in
    let k1 = load_u64_le (drop 8 key) in
    record {
      v0 = bit_xor k0 0x736f6d6570736575;
      v1 = bit_xor k1 0x646f72616e646f6d;
      v2 = bit_xor k0 0x6c7967656e657261;
      v3 = bit_xor k1 0x7465646279746573;
    }

finish : Words → ℕ
finish s =
    let r = sipround (sipround (sipround (sipround (record s { v2 = bit_xor s.v2 0xff })))) in
    bit_xor (bit_xor (bit_xor r.v0 r.v1) r.v2) r.v3

unfoldable pub siphash24 : Bytes → Bytes → ℕ
unfolding init absorb or_tail compress finish sipround rotl64 load_u64_le from_le_bytes
siphash24 key msg =
    let blocks = length msg / 8 in
    let s = absorb blocks 0 msg (init key) in
    let b = or_tail 0 (length msg % 256 * 2 ^ 56) (drop (blocks * 8) msg) in finish (compress s b)
