-- ===== src/Crypto/Tail.antt =====
-- The loop over the last bytes in pcside/daemon/src/crypto.rs: each byte goes into an empty place.
use Prim.Native.Nat.{bit_or}
use linux_fingerprint_r.Prelude.{
  ℕ, zero, suc, ◌+◌, ◌*◌, ◌%◌, ◌^◌, ◌≤◌, ◌<◌, ◌≡◌, refl, sym, ap, ◌∙◌, [], ◌∷◌, Bytes, All, length,
  arith,
}
use native.Mathlib.Nat.{mod-eq_of_lt}
use linux_fingerprint_r.Prelude.Bits.{bit_or_between}
use linux_fingerprint_r.Crypto.{from_le_bytes, or_tail}
use linux_fingerprint_r.Crypto.Bounds.{IsByte}

shift_fits : (p q x : ℕ) → p * q ≡ 2 ^ 56 → 256 ≤ p → x < 256 → x * q < 2 ^ 64
shift_fits p q x e room hx = grind arith

-- One round of the tail loop puts its byte into the empty place below the length byte.
or_step :
    (v w q x low : ℕ)
    → 2 ^ v * 2 ^ w ≡ 2 ^ 56
    → 256 ≤ 2 ^ v
    → x < 256
    → low < 2 ^ w
    → bit_or (q * 2 ^ 56 + low) (x * 2 ^ w % 2 ^ 64) ≡ q * 2 ^ 56 + (low + x * 2 ^ w)
or_step v w q x low e room hx hl =
    let high : q * 2 ^ v * 2 ^ w ≡ q * 2 ^ 56 = omega (arith, ap (λ (t : ℕ). q * t) e) in
    let fits : x * 2 ^ w < 2 ^ 64 = shift_fits (2 ^ v) (2 ^ w) x e room hx in
    let arguments : bit_or (q * 2 ^ 56 + low) (x * 2 ^ w % 2 ^ 64)
        ≡ bit_or (q * 2 ^ v * 2 ^ w + low) (x * 2 ^ w) =
      λ i. bit_or (sym high i + low) (mod-eq_of_lt fits i) in
    omega (arith, high, arguments, bit_or_between v w q x low (omega arith) hl)

or_step_at :
    (i q x low : ℕ)
    → i < 7
    → x < 256
    → low < 2 ^ (i * 8)
    → bit_or (q * 2 ^ 56 + low) (x * 2 ^ (i * 8) % 2 ^ 64) ≡ q * 2 ^ 56 + (low + x * 2 ^ (i * 8))
or_step_at zero q x low h hx hl = or_step 56 0 q x low refl (omega arith) hx hl
or_step_at (suc zero) q x low h hx hl = or_step 48 8 q x low refl (omega arith) hx hl
or_step_at (suc (suc zero)) q x low h hx hl = or_step 40 16 q x low refl (omega arith) hx hl
or_step_at (suc (suc (suc zero))) q x low h hx hl = or_step 32 24 q x low refl (omega arith) hx hl
or_step_at (suc (suc (suc (suc zero)))) q x low h hx hl =
    or_step 24 32 q x low refl (omega arith) hx hl
or_step_at (suc (suc (suc (suc (suc zero))))) q x low h hx hl =
    or_step 16 40 q x low refl (omega arith) hx hl
or_step_at (suc (suc (suc (suc (suc (suc zero)))))) q x low h hx hl =
    or_step 8 48 q x low refl (omega arith) hx hl
or_step_at (suc (suc (suc (suc (suc (suc (suc i))))))) q x low h hx hl = absurd (omega arith)

next_place : (i : ℕ) → i < 7 → 2 ^ ((i + 1) * 8) ≡ 256 * 2 ^ (i * 8)
next_place zero h = refl
next_place (suc zero) h = refl
next_place (suc (suc zero)) h = refl
next_place (suc (suc (suc zero))) h = refl
next_place (suc (suc (suc (suc zero)))) h = refl
next_place (suc (suc (suc (suc (suc zero))))) h = refl
next_place (suc (suc (suc (suc (suc (suc zero)))))) h = refl
next_place (suc (suc (suc (suc (suc (suc (suc i))))))) h = absurd (omega arith)

low_fits : (p q x low : ℕ) → q ≡ 256 * p → x < 256 → low < p → low + x * p < q
low_fits p q x low e hx hl = grind arith

pub or_tail-value :
    (i q low : ℕ) (tail : Bytes)
    → i + length tail ≤ 7
    → low < 2 ^ (i * 8)
    → All IsByte tail
    → or_tail i (q * 2 ^ 56 + low) tail ≡ q * 2 ^ 56 + (low + from_le_bytes tail * 2 ^ (i * 8))
unfolding or_tail from_le_bytes
or_tail-value i q low [] h hl hb = omega arith
or_tail-value i q low (x ∷ tail) h hl hb =
    ap (λ (t : ℕ). or_tail (i + 1) t tail) (or_step_at i q x low (omega arith) hb.0 hl)
    ∙ or_tail-value (i + 1) q (low + x * 2 ^ (i * 8)) tail (omega arith)
        (low_fits (2 ^ (i * 8)) (2 ^ ((i + 1) * 8)) x low (next_place i (omega arith)) hb.0 hl) hb.1
    ∙ omega (arith, ap (λ (t : ℕ). from_le_bytes tail * t) (next_place i (omega arith)))
