-- ===== src/Crypto/Tests.antt =====
-- Test vectors of SipHash-2-4 for pcside/daemon/src/crypto.rs, and its laws at concrete inputs.
use linux_fingerprint_r.Prelude.{◌≡◌, refl, [], ◌∷◌, Bytes, arith}
use linux_fingerprint_r.Crypto.{siphash24}
use linux_fingerprint_r.Crypto.Spec.{reference}
use linux_fingerprint_r.Crypto.Reference.{siphash24-eq-reference}

abbrev std_key : Bytes
std_key = 0 ∷ 1 ∷ 2 ∷ 3 ∷ 4 ∷ 5 ∷ 6 ∷ 7 ∷ 8 ∷ 9 ∷ 10 ∷ 11 ∷ 12 ∷ 13 ∷ 14 ∷ 15 ∷ []

abbrev fifteen : Bytes
fifteen = 0 ∷ 1 ∷ 2 ∷ 3 ∷ 4 ∷ 5 ∷ 6 ∷ 7 ∷ 8 ∷ 9 ∷ 10 ∷ 11 ∷ 12 ∷ 13 ∷ 14 ∷ []

siphash24-nil : siphash24 std_key [] ≡ 0x726fdb47dd0e0e31
unfolding siphash24
siphash24-nil = refl

siphash24-fifteen : siphash24 std_key fifteen ≡ 0xa129ca6149be45e5
unfolding siphash24
siphash24-fifteen = refl

siphash24-eq-reference_example : siphash24 std_key fifteen ≡ reference std_key fifteen
siphash24-eq-reference_example = siphash24-eq-reference std_key fifteen (omega arith)
