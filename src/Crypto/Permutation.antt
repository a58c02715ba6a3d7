-- ===== src/Crypto/Permutation.antt =====
-- One round of SipHash loses nothing of its state (`sipround!` of pcside/daemon/src/crypto.rs).
use Prim.Native.Nat.{bit_xor}
use linux_fingerprint_r.Prelude.{ℕ, ◌^◌, ◌<◌, ◌≡◌, ◌∙◌, refl, sym, ap, arith}
use linux_fingerprint_r.Prelude.Bits.{bit_xor-lt, bit_xor_cancel}
use linux_fingerprint_r.Crypto.{rotl64, wrapping_add, Words, sipround}

-- The four words fit 64 bits.
pub record IsWords (s : Words) : Type 0 where
  pub v0 : s.v0 < 2 ^ 64
  pub v1 : s.v1 < 2 ^ 64
  pub v2 : s.v2 < 2 ^ 64
  pub v3 : s.v3 < 2 ^ 64

module _ (x : ℕ) (h : x < 2 ^ 64) where
  pub rotl64-lt_13 : rotl64 x 13 < 2 ^ 64
  unfolding rotl64
  rotl64-lt_13 = omega arith

  pub rotl64-lt_16 : rotl64 x 16 < 2 ^ 64
  unfolding rotl64
  rotl64-lt_16 = omega arith

  pub rotl64-lt_17 : rotl64 x 17 < 2 ^ 64
  unfolding rotl64
  rotl64-lt_17 = omega arith

  pub rotl64-lt_21 : rotl64 x 21 < 2 ^ 64
  unfolding rotl64
  rotl64-lt_21 = omega arith

  pub rotl64-lt_32 : rotl64 x 32 < 2 ^ 64
  unfolding rotl64
  rotl64-lt_32 = omega arith

-- A function on words that merges no two of them, and stays within the width.
record IsRotation (f : ℕ → ℕ) : Type 0 where
  fits : (x : ℕ) → x < 2 ^ 64 → f x < 2 ^ 64
  injective : (x y : ℕ) → x < 2 ^ 64 → y < 2 ^ 64 → f x ≡ f y → x ≡ y

rotl64-IsRotation_13 : IsRotation (λ x. rotl64 x 13)
unfolding rotl64
rotl64-IsRotation_13 = record { fits = rotl64-lt_13; injective = λ x y h k e. omega arith }

rotl64-IsRotation_16 : IsRotation (λ x. rotl64 x 16)
unfolding rotl64
rotl64-IsRotation_16 = record { fits = rotl64-lt_16; injective = λ x y h k e. omega arith }

rotl64-IsRotation_17 : IsRotation (λ x. rotl64 x 17)
unfolding rotl64
rotl64-IsRotation_17 = record { fits = rotl64-lt_17; injective = λ x y h k e. omega arith }

rotl64-IsRotation_21 : IsRotation (λ x. rotl64 x 21)
unfolding rotl64
rotl64-IsRotation_21 = record { fits = rotl64-lt_21; injective = λ x y h k e. omega arith }

rotl64-IsRotation_32 : IsRotation (λ x. rotl64 x 32)
unfolding rotl64
rotl64-IsRotation_32 = record { fits = rotl64-lt_32; injective = λ x y h k e. omega arith }

bit_xor_injective :
    (x x' y : ℕ) → x < 2 ^ 64 → x' < 2 ^ 64 → y < 2 ^ 64 → bit_xor x y ≡ bit_xor x' y → x ≡ x'
bit_xor_injective x x' y h h' k e =
    sym (bit_xor_cancel 64 x y h k) ∙ ap (λ t. bit_xor t y) e ∙ bit_xor_cancel 64 x' y h' k

-- Add, rotate, exclusive or: the two words that go in can be had back.
module _ (f : ℕ → ℕ) (r : IsRotation f) where
  arx_injective :
      (a b c d : ℕ)
      → a < 2 ^ 64
      → b < 2 ^ 64
      → c < 2 ^ 64
      → d < 2 ^ 64
      → wrapping_add a b ≡ wrapping_add c d
      → bit_xor (f b) (wrapping_add a b) ≡ bit_xor (f d) (wrapping_add c d)
      → (a ≡ c) × (b ≡ d)
  arx_injective a b c d ha hb hc hd sums mixed =
      let same_b : b ≡ d = r.injective b d hb hd (
        bit_xor_injective (f b) (f d) (wrapping_add a b) (r.fits b hb) (r.fits d hd) (omega arith)
          (mixed ∙ ap (λ t. bit_xor (f d) t) (sym sums))) in
      (omega arith, same_b)

-- The two halves of a round, in the order of the assignments.
first_half : Words → Words
first_half s =
    let a0 = wrapping_add s.v0 s.v1 in
    let a2 = wrapping_add s.v2 s.v3 in
    record {
      v0 = rotl64 a0 32;
      v1 = bit_xor (rotl64 s.v1 13) a0;
      v2 = a2;
      v3 = bit_xor (rotl64 s.v3 16) a2;
    }

second_half : Words → Words
second_half s =
    let c0 = wrapping_add s.v0 s.v3 in
    let b2 = wrapping_add s.v2 s.v1 in
    record {
      v0 = c0;
      v1 = bit_xor (rotl64 s.v1 17) b2;
      v2 = rotl64 b2 32;
      v3 = bit_xor (rotl64 s.v3 21) c0;
    }

sipround_halves : (s : Words) → sipround s ≡ second_half (first_half s)
unfolding sipround first_half second_half
sipround_halves s = refl

wrapping_add-lt : (a b : ℕ) → wrapping_add a b < 2 ^ 64
wrapping_add-lt a b = omega arith

first_half-IsWords : (s : Words) → IsWords s → IsWords (first_half s)
unfolding first_half
first_half-IsWords s w = record {
  v0 = rotl64-lt_32 _ (wrapping_add-lt s.v0 s.v1);
  v1 = bit_xor-lt 64 _ _ (rotl64-lt_13 _ w.v1) (wrapping_add-lt s.v0 s.v1);
  v2 = wrapping_add-lt s.v2 s.v3;
  v3 = bit_xor-lt 64 _ _ (rotl64-lt_16 _ w.v3) (wrapping_add-lt s.v2 s.v3);
}

second_half-IsWords : (s : Words) → IsWords s → IsWords (second_half s)
unfolding second_half
second_half-IsWords s w = record {
  v0 = wrapping_add-lt s.v0 s.v3;
  v1 = bit_xor-lt 64 _ _ (rotl64-lt_17 _ w.v1) (wrapping_add-lt s.v2 s.v1);
  v2 = rotl64-lt_32 _ (wrapping_add-lt s.v2 s.v1);
  v3 = bit_xor-lt 64 _ _ (rotl64-lt_21 _ w.v3) (wrapping_add-lt s.v0 s.v3);
}

pub sipround-IsWords : (s : Words) → IsWords s → IsWords (sipround s)
sipround-IsWords s w =
    rw sipround_halves (second_half-IsWords (first_half s) (first_half-IsWords s w))

Words_path : (s t : Words) → (s.v0 ≡ t.v0) → (s.v1 ≡ t.v1) → (s.v2 ≡ t.v2) → (s.v3 ≡ t.v3) → s ≡ t
Words_path s t e0 e1 e2 e3 = λ i. record { v0 = e0 i; v1 = e1 i; v2 = e2 i; v3 = e3 i }

first_half_injective : (s t : Words) → IsWords s → IsWords t → first_half s ≡ first_half t → s ≡ t
unfolding first_half
first_half_injective s t ws wt e =
    let sums : wrapping_add s.v0 s.v1 ≡ wrapping_add t.v0 t.v1 =
      rotl64-IsRotation_32.injective _ _ (wrapping_add-lt s.v0 s.v1) (wrapping_add-lt t.v0 t.v1)
        (ap (λ (w : Words). w.v0) e) in
    let (e0, e1) =
      arx_injective (λ x. rotl64 x 13) rotl64-IsRotation_13 s.v0 s.v1 t.v0 t.v1 ws.v0 ws.v1 wt.v0
        wt.v1 sums (ap (λ (w : Words). w.v1) e) in
    let (e2, e3) =
      arx_injective (λ x. rotl64 x 16) rotl64-IsRotation_16 s.v2 s.v3 t.v2 t.v3 ws.v2 ws.v3 wt.v2
        wt.v3 (ap (λ (w : Words). w.v2) e) (ap (λ (w : Words). w.v3) e) in
    Words_path s t e0 e1 e2 e3

second_half_injective :
    (s t : Words) → IsWords s → IsWords t → second_half s ≡ second_half t → s ≡ t
unfolding second_half
second_half_injective s t ws wt e =
    let sums : wrapping_add s.v2 s.v1 ≡ wrapping_add t.v2 t.v1 =
      rotl64-IsRotation_32.injective _ _ (wrapping_add-lt s.v2 s.v1) (wrapping_add-lt t.v2 t.v1)
        (ap (λ (w : Words). w.v2) e) in
    let (e2, e1) =
      arx_injective (λ x. rotl64 x 17) rotl64-IsRotation_17 s.v2 s.v1 t.v2 t.v1 ws.v2 ws.v1 wt.v2
        wt.v1 sums (ap (λ (w : Words). w.v1) e) in
    let (e0, e3) =
      arx_injective (λ x. rotl64 x 21) rotl64-IsRotation_21 s.v0 s.v3 t.v0 t.v3 ws.v0 ws.v3 wt.v0
        wt.v3 (ap (λ (w : Words). w.v0) e) (ap (λ (w : Words). w.v3) e) in
    Words_path s t e0 e1 e2 e3

-- Two states of four 64-bit words that a SipHash round takes to the same state are the same state.
pub sipround_injective : (s t : Words) → IsWords s → IsWords t → sipround s ≡ sipround t → s ≡ t
sipround_injective s t ws wt e = first_half_injective s t ws wt (
    second_half_injective (first_half s) (first_half t) (first_half-IsWords s ws)
      (first_half-IsWords t wt) (sym (sipround_halves s) ∙ e ∙ sipround_halves t))
