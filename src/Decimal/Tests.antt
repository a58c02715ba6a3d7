-- ===== src/Decimal/Tests.antt =====
-- The numbers of pcside/daemon/src/framing.rs at concrete inputs.
use linux_fingerprint_r.Prelude.{◌≡◌, refl, none, some, codes}
use linux_fingerprint_r.Decimal.{parse_strict_u64}

leading_zero : parse_strict_u64 (codes "007") ≡ none
unfolding parse_strict_u64
leading_zero = refl

leading_plus : parse_strict_u64 (codes "+7") ≡ none
unfolding parse_strict_u64
leading_plus = refl

too_large : parse_strict_u64 (codes "18446744073709551616") ≡ none
unfolding parse_strict_u64
too_large = refl

reads_1234 : parse_strict_u64 (codes "1234") ≡ some 1234
unfolding parse_strict_u64
reads_1234 = refl
