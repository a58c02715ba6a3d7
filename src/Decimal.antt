-- ===== src/Decimal.antt =====
-- Decimal numbers as Rust prints them with `{}` and reads them with `str::parse` (the standard
-- library), and the strict readers of pcside/daemon/src/framing.rs.
mod Tests
pub mod Laws
use linux_fingerprint_r.Prelude.{
  ℕ, zero, suc, ◌+◌, ◌-◌, ◌*◌, ◌/◌, ◌%◌, ◌^◌, Bool, true, false, not, ◌&&◌, ◌||◌, Option, none,
  some, List, [], ◌∷◌, ◌++◌, Bytes, length, ltb, leb, ◌==◌, if◌then◌else◌,
}

abbrev pub max_u64 : ℕ
max_u64 = 2 ^ 64 - 1

abbrev pub max_u32 : ℕ
max_u32 = 2 ^ 32 - 1

abbrev pub max_u16 : ℕ
max_u16 = 2 ^ 16 - 1

abbrev pub max_u8 : ℕ
max_u8 = 2 ^ 8 - 1

-- `u8::is_ascii_digit`
abbrev pub is_ascii_digit : ℕ → Bool
is_ascii_digit c = leb b'0' c && leb c b'9'

-- Each round takes the last digit off.
digits : ℕ → ℕ → Bytes
digits zero n = []
digits (suc fuel) n =
    let rest = digits fuel (n / 10) in
    if ltb n 10 then (b'0' + n) ∷ [] else rest ++ (b'0' + n % 10) ∷ []

-- `format!("{}", n)`
unfoldable pub to_decimal : ℕ → Bytes
unfolding digits
to_decimal n = digits (suc n) n

-- The loop of `parse` behind the sign: `checked_mul`, then `checked_add`, within the type's maximum.
scan : ℕ → ℕ → Bytes → Option ℕ
scan max acc [] = some acc
scan max acc (c ∷ s) =
    let next = scan max (acc * 10 + (c - b'0')) s in
    if not (is_ascii_digit c)
    then none
    else if ltb max (acc * 10) || ltb max (acc * 10 + (c - b'0'))
    then none
    else next

-- `s.parse::<T>()` for an unsigned `T` with the given maximum: one leading `+` is accepted.
unfoldable pub parse : ℕ → Bytes → Option ℕ
unfolding scan
parse max [] = none
parse max (c ∷ []) = if c == b'+' || c == b'-' then none else scan max 0 (c ∷ [])
parse max (c ∷ d ∷ s) = if c == b'+' then scan max 0 (d ∷ s) else scan max 0 (c ∷ d ∷ s)

all_digits : Bytes → Bool
all_digits [] = true
all_digits (c ∷ s) = is_ascii_digit c && all_digits s

unfoldable pub parse_strict_u64 : Bytes → Option ℕ
unfolding all_digits parse
parse_strict_u64 [] = none
parse_strict_u64 (c ∷ s) =
    if ltb 1 (length (c ∷ s)) && (c == b'0')
    then none
    else if not (all_digits (c ∷ s))
    then none
    else parse max_u64 (c ∷ s)

narrow_u32 : Option ℕ → Option ℕ
narrow_u32 none = none
narrow_u32 (some v) = if ltb max_u32 v then none else some v

unfoldable pub parse_strict_u32 : Bytes → Option ℕ
unfolding narrow_u32
parse_strict_u32 s = narrow_u32 (parse_strict_u64 s)
