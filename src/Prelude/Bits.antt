-- ===== src/Prelude/Bits.antt =====
-- `bit_xor` and `bit_or` at variables, by their lowest digits: the laws that words need.
use Prim.Native.Nat.{
  ℕ, zero, suc, ◌+◌, ◌*◌, ◌/◌, ◌%◌, ◌^◌, ◌≤◌, ◌<◌, max, differ, digits, bitwise, bit_xor, bit_or,
  bit_xor-bitwise, bit_or-bitwise,
}
use mathlib.Core.Path.{◌≡◌, refl, ap, ap₂}
use native.Mathlib.Nat.{pow-suc}
use native.Mathlib.Omega.{arith}

-- Any count of digits that is no less than the number serves.
count_any :
    (f : ℕ → ℕ → ℕ) (n m a b : ℕ)
    → a ≤ n
    → a ≤ m
    → digits (λ y. y) f n a b ≡ digits (λ y. y) f m a b
count_any f zero zero a b p q = refl
count_any f zero (suc m) zero b p q = refl
count_any f zero (suc m) (suc a) b p q = absurd (omega arith)
count_any f (suc n) zero zero b p q = refl
count_any f (suc n) zero (suc a) b p q = absurd (omega arith)
count_any f (suc n) (suc m) zero b p q = refl
count_any f (suc n) (suc m) (suc a) b p q =
    ap (λ (t : ℕ). t * 2 + f (suc a % 2) (b % 2))
      (count_any f n m (suc a / 2) (b / 2) (omega arith) (omega arith))

bitwise_low :
    (f : ℕ → ℕ → ℕ) (a b : ℕ)
    → bitwise (λ y. y) f (suc a) b
      ≡ bitwise (λ y. y) f (suc a / 2) (b / 2) * 2 + f (suc a % 2) (b % 2)
bitwise_low f a b =
    ap (λ (t : ℕ). t * 2 + f (suc a % 2) (b % 2))
      (count_any f a (suc a / 2) (suc a / 2) (b / 2) (omega arith) (omega arith))

differ-zero : (b : ℕ) → b < 2 → differ 0 b ≡ b
differ-zero zero h = refl
differ-zero (suc zero) h = refl
differ-zero (suc (suc b)) h = absurd (omega arith)

pub zero-bit_xor : (b : ℕ) → bit_xor 0 b ≡ b
zero-bit_xor b = bit_xor-bitwise 0 b

pub zero-bit_or : (b : ℕ) → bit_or 0 b ≡ b
zero-bit_or b = bit_or-bitwise 0 b

pub bit_xor_low : (a b : ℕ) → bit_xor a b ≡ bit_xor (a / 2) (b / 2) * 2 + differ (a % 2) (b % 2)
bit_xor_low zero b =
    omega (arith, zero-bit_xor b, zero-bit_xor (b / 2), differ-zero (b % 2) (omega arith))
bit_xor_low (suc a) b =
    omega (
      arith,
      bit_xor-bitwise (suc a) b,
      bit_xor-bitwise (suc a / 2) (b / 2),
      bitwise_low differ a b,
    )

pub bit_or_low : (a b : ℕ) → bit_or a b ≡ bit_or (a / 2) (b / 2) * 2 + max (a % 2) (b % 2)
bit_or_low zero b = omega (arith, zero-bit_or b, zero-bit_or (b / 2))
bit_or_low (suc a) b =
    omega (arith, bit_or-bitwise (suc a) b, bit_or-bitwise (suc a / 2) (b / 2), bitwise_low max a b)

-- What one digit does.
differ-lt : (x y : ℕ) → x < 2 → y < 2 → differ x y < 2
differ-lt zero y h k = k
differ-lt (suc zero) zero h k = omega arith
differ-lt (suc zero) (suc zero) h k = omega arith
differ-lt (suc zero) (suc (suc y)) h k = absurd (omega arith)
differ-lt (suc (suc x)) y h k = absurd (omega arith)

differ_cancel : (x y : ℕ) → x < 2 → y < 2 → differ (differ x y) y ≡ x
differ_cancel zero zero h k = refl
differ_cancel zero (suc zero) h k = refl
differ_cancel zero (suc (suc y)) h k = absurd (omega arith)
differ_cancel (suc zero) zero h k = refl
differ_cancel (suc zero) (suc zero) h k = refl
differ_cancel (suc zero) (suc (suc y)) h k = absurd (omega arith)
differ_cancel (suc (suc x)) y h k = absurd (omega arith)

bit_xor_parts :
    (a b : ℕ)
    → (bit_xor a b / 2 ≡ bit_xor (a / 2) (b / 2)) × (bit_xor a b % 2 ≡ differ (a % 2) (b % 2))
bit_xor_parts a b =
    omega (arith, bit_xor_low a b, differ-lt (a % 2) (b % 2) (omega arith) (omega arith))

-- Exclusive or stays within the width.
pub bit_xor-lt : (k a b : ℕ) → a < 2 ^ k → b < 2 ^ k → bit_xor a b < 2 ^ k
bit_xor-lt zero zero b h k = omega (arith, zero-bit_xor b)
bit_xor-lt zero (suc a) b h k = absurd (omega arith)
bit_xor-lt (suc w) a b h k = omega (
  arith,
  pow-suc 2 w,
  bit_xor_parts a b,
  differ-lt (a % 2) (b % 2) (omega arith) (omega arith),
  bit_xor-lt w (a / 2) (b / 2) (omega (arith, pow-suc 2 w)) (omega (arith, pow-suc 2 w)),
)

-- A second exclusive or with the same word undoes the first.
pub bit_xor_cancel : (k a b : ℕ) → a < 2 ^ k → b < 2 ^ k → bit_xor (bit_xor a b) b ≡ a
bit_xor_cancel zero zero zero h k = refl
bit_xor_cancel zero zero (suc b) h k = absurd (omega arith)
bit_xor_cancel zero (suc a) b h k = absurd (omega arith)
bit_xor_cancel (suc w) a b h k =
    let low : bit_xor (bit_xor a b) b
        ≡ bit_xor (bit_xor (a / 2) (b / 2)) (b / 2) * 2 + differ (differ (a % 2) (b % 2)) (b % 2) =
      rw ((bit_xor_low (bit_xor a b) b), (bit_xor_parts a b).0, (bit_xor_parts a b).1) in
    omega (
      arith,
      low,
      differ_cancel (a % 2) (b % 2) (omega arith) (omega arith),
      bit_xor_cancel w (a / 2) (b / 2) (omega (arith, pow-suc 2 w)) (omega (arith, pow-suc 2 w)),
    )

pub bit_or-lt : (k a b : ℕ) → a < 2 ^ k → b < 2 ^ k → bit_or a b < 2 ^ k
bit_or-lt zero zero b h k = omega (arith, zero-bit_or b)
bit_or-lt zero (suc a) b h k = absurd (omega arith)
bit_or-lt (suc w) a b h k = omega (
  arith,
  pow-suc 2 w,
  bit_or_low a b,
  bit_or-lt w (a / 2) (b / 2) (omega (arith, pow-suc 2 w)) (omega (arith, pow-suc 2 w)),
)

mul-two-pow-suc : (q w : ℕ) → q * 2 ^ suc w ≡ q * 2 ^ w * 2
mul-two-pow-suc q w = omega (arith, ap (λ (t : ℕ). q * t) (pow-suc 2 w))

bit_or-zero : (n a : ℕ) → a ≤ n → bit_or a 0 ≡ a
bit_or-zero zero zero h = refl
bit_or-zero zero (suc a) h = absurd (omega arith)
bit_or-zero (suc n) zero h = refl
bit_or-zero (suc n) (suc a) h =
    omega (arith, bit_or_low (suc a) 0, bit_or-zero n (suc a / 2) (omega arith))

-- `(q << w) | r` is a sum where `r` fits `w` bits.
pub bit_or_fields : (w q r : ℕ) → r < 2 ^ w → bit_or (q * 2 ^ w) r ≡ q * 2 ^ w + r
bit_or_fields zero q zero h = omega (arith, bit_or-zero (q * 2 ^ 0) (q * 2 ^ 0) (omega arith))
bit_or_fields zero q (suc r) h = absurd (omega arith)
bit_or_fields (suc w) q r h =
    let half : q * 2 ^ suc w / 2 ≡ q * 2 ^ w = omega (arith, mul-two-pow-suc q w) in
    let low : bit_or (q * 2 ^ suc w) r
        ≡ bit_or (q * 2 ^ w) (r / 2) * 2 + max (q * 2 ^ suc w % 2) (r % 2) =
      rw (bit_or_low (q * 2 ^ suc w) r, half) in
    omega (arith, low, mul-two-pow-suc q w, bit_or_fields w q (r / 2) (omega (arith, pow-suc 2 w)))

-- Fields that are cut at one place are joined side by side.
pub bit_or_split :
    (w a r c s : ℕ)
    → r < 2 ^ w
    → s < 2 ^ w
    → bit_or (a * 2 ^ w + r) (c * 2 ^ w + s) ≡ bit_or a c * 2 ^ w + bit_or r s
bit_or_split zero a zero c zero h k =
    let whole_a : a * 2 ^ 0 + 0 ≡ a = omega arith in
    let whole_c : c * 2 ^ 0 + 0 ≡ c = omega arith in
    omega (arith, ap₂ bit_or whole_a whole_c, zero-bit_or 0)
bit_or_split zero a zero c (suc s) h k = absurd (omega arith)
bit_or_split zero a (suc r) c s h k = absurd (omega arith)
bit_or_split (suc w) a r c s h k =
    let half_a : (a * 2 ^ suc w + r) / 2 ≡ a * 2 ^ w + r / 2 = omega (arith, mul-two-pow-suc a w) in
    let half_c : (c * 2 ^ suc w + s) / 2 ≡ c * 2 ^ w + s / 2 = omega (arith, mul-two-pow-suc c w) in
    let low : bit_or (a * 2 ^ suc w + r) (c * 2 ^ suc w + s)
        ≡ bit_or (a * 2 ^ w + r / 2) (c * 2 ^ w + s / 2) * 2
          + max ((a * 2 ^ suc w + r) % 2) ((c * 2 ^ suc w + s) % 2) =
      rw (bit_or_low (a * 2 ^ suc w + r) (c * 2 ^ suc w + s), half_a, half_c) in
    omega (
      arith,
      low,
      bit_or_low r s,
      mul-two-pow-suc a w,
      mul-two-pow-suc c w,
      mul-two-pow-suc (bit_or a c) w,
      bit_or_split w a (r / 2) c (s / 2) (omega (arith, pow-suc 2 w)) (omega (arith, pow-suc 2 w)),
    )

-- A field put into the empty place between a high field and a low one.
pub bit_or_between :
    (v w q x r : ℕ)
    → x < 2 ^ v
    → r < 2 ^ w
    → bit_or (q * 2 ^ v * 2 ^ w + r) (x * 2 ^ w) ≡ (q * 2 ^ v + x) * 2 ^ w + r
bit_or_between v w q x r h k =
    let high : bit_or (q * 2 ^ v) x * 2 ^ w ≡ (q * 2 ^ v + x) * 2 ^ w =
      ap (λ (t : ℕ). t * 2 ^ w) (bit_or_fields v q x h) in
    let right : x * 2 ^ w + 0 ≡ x * 2 ^ w = omega arith in
    omega (
      arith,
      high,
      ap (λ (t : ℕ). bit_or (q * 2 ^ v * 2 ^ w + r) t) right,
      bit_or_split w (q * 2 ^ v) r x 0 k (omega arith),
      bit_or-zero r r (omega arith),
    )
