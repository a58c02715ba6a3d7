-- ===== src/Crypto/Spec.antt =====
-- SipHash-2-4 as its paper describes it, apart from the code of pcside/daemon/src/crypto.rs: rounds of two halves,
-- constants that are a text, little-endian words, and the padded message.
use mathlib.Core.List.{foldl}
use Prim.Native.Nat.{bit_xor}
use linux_fingerprint_r.Prelude.{
  ℕ, zero, suc, ◌+◌, ◌-◌, ◌*◌, ◌/◌, ◌%◌, ◌^◌, List, [], ◌∷◌, ◌++◌, Bytes, codes, length, take, drop,
}
use linux_fingerprint_r.Crypto.{Words}

unfoldable pub zeros : ℕ → Bytes
zeros zero = []
zeros (suc n) = 0 ∷ zeros n

-- The message, as many zero bytes as make its length 7 modulo 8, and its length modulo 256.
unfoldable pub padded : Bytes → Bytes
unfolding zeros
padded msg = msg ++ (zeros (7 - length msg % 8) ++ (length msg % 256) ∷ [])

unfoldable pub little_endian : Bytes → ℕ
little_endian [] = 0
little_endian (b ∷ bs) = b + 256 * little_endian bs

unfoldable pub big_endian : ℕ → Bytes → ℕ
big_endian n [] = n
big_endian n (b ∷ bs) = big_endian (256 * n + b) bs

-- The first words of a text.
unfoldable pub words : ℕ → Bytes → List ℕ
words zero s = []
words (suc n) s = little_endian (take 8 s) ∷ words n (drop 8 s)

-- The low bits move up, and the high ones come in below.
unfoldable pub rotate : ℕ → ℕ → ℕ
rotate x b = x % 2 ^ (64 - b) * 2 ^ b + x / 2 ^ (64 - b)

-- Half a round on a, b, c, d, with its two rotations.
abbrev pub half_round : (ℕ → ℕ) → (ℕ → ℕ) → (ℕ → ℕ) → ℕ × ℕ × ℕ × ℕ → ℕ × ℕ × ℕ × ℕ
half_round by_s by_t by_32 (a, b, c, d) = (
  by_32 ((a + b) % 2 ^ 64),
  bit_xor (by_s b) ((a + b) % 2 ^ 64),
  (c + d) % 2 ^ 64,
  bit_xor (by_t d) ((c + d) % 2 ^ 64),
)

swapped : ℕ × ℕ × ℕ × ℕ → ℕ × ℕ × ℕ × ℕ
swapped (a, b, c, d) = (c, b, a, d)

to_words : ℕ × ℕ × ℕ × ℕ → Words
to_words (c, b, a, d) = record { v0 = a; v1 = b; v2 = c; v3 = d }

-- A round, over the rotations by 13, 16, 17, 21 and 32.
unfoldable pub round_with : (ℕ → ℕ) → (ℕ → ℕ) → (ℕ → ℕ) → (ℕ → ℕ) → (ℕ → ℕ) → Words → Words
unfolding swapped to_words
round_with by_13 by_16 by_17 by_21 by_32 s =
    to_words (
      half_round by_17 by_21 by_32
        (swapped (half_round by_13 by_16 by_32 (s.v0, s.v1, s.v2, s.v3))))

unfoldable pub sip_round : Words → Words
sip_round s =
    round_with (λ x. rotate x 13) (λ x. rotate x 16) (λ x. rotate x 17) (λ x. rotate x 21)
      (λ x. rotate x 32) s

unfoldable pub take_word : Words → ℕ → Words
take_word s m =
    let r = sip_round (sip_round (record s { v3 = bit_xor s.v3 m })) in
    record r { v0 = bit_xor r.v0 m }

unfoldable pub initial : Bytes → Words
initial key = record {
  v0 = bit_xor (little_endian (take 8 key)) (big_endian 0 (codes "somepseu"));
  v1 = bit_xor (little_endian (take 8 (drop 8 key))) (big_endian 0 (codes "dorandom"));
  v2 = bit_xor (little_endian (take 8 key)) (big_endian 0 (codes "lygenera"));
  v3 = bit_xor (little_endian (take 8 (drop 8 key))) (big_endian 0 (codes "tedbytes"));
}

unfoldable pub final_rounds : Words → ℕ
final_rounds s =
    let r = sip_round (sip_round (sip_round (sip_round (record s { v2 = bit_xor s.v2 255 })))) in
    bit_xor (bit_xor (bit_xor r.v0 r.v1) r.v2) r.v3

unfoldable pub reference : Bytes → Bytes → ℕ
reference key msg =
    final_rounds (foldl take_word (initial key) (words (length (padded msg) / 8) (padded msg)))
