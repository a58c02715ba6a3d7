-- ===== src/Keystore/Loading.antt =====
-- What pcside/daemon/src/keystore.rs loads: the text of a key is read back, and a sealed key has no plain fallback.
use linux_fingerprint_r.Prelude.{
  ℕ, ◌≡◌, refl, sym, ap, ◌∙◌, inl, inr, true, Bool-cases, Option, some, [], ◌∷◌, Bytes, Result, ok,
  err, All, length, ◌==◌, arith, ok_injective,
}
use linux_fingerprint_r.Prelude.Actions.{and_then-eq-ok}
use linux_fingerprint_r.Crypto.Bounds.{IsByte}
use linux_fingerprint_r.Hex.{to_hex}
use linux_fingerprint_r.Hex.Laws.{
  nybble-hex_digit_high, nybble-hex_digit_low, join_nybbles, length-to_hex,
}
use linux_fingerprint_r.Tpm.{SealPolicy, pcrs, no_policy}
use linux_fingerprint_r.Tpm.Sealing.{
  Library, SealError, check_length, unseal_key, unseal_by, unseal_with_pcr_policy,
  unseal_with_no_policy, unseal_under_policy, unseal_openly,
}
use linux_fingerprint_r.Keystore.{
  KeySource, tpm, key_hex, parse_chunks, parse_key_hex, Seen, unsealed_key, load_key_with_source,
}

-- The 16 bytes of a key.
abbrev pub IsKey : Bytes → Type 0
IsKey key = (length key ≡ 16) × All IsByte key

parse_chunks-to_hex : (s : Bytes) → All IsByte s → parse_chunks (to_hex s) ≡ ok s
unfolding parse_chunks to_hex
parse_chunks-to_hex [] h = refl
parse_chunks-to_hex (b ∷ s) h =
    rw (
      nybble-hex_digit_high b h.0,
      nybble-hex_digit_low b,
      parse_chunks-to_hex s h.1,
      join_nybbles b,
    )

-- A key is read back from its text.
pub parse_key_hex-key_hex : (key : Bytes) → IsKey key → parse_key_hex (key_hex key) ≡ ok key
unfolding parse_key_hex key_hex
parse_key_hex-key_hex key h =
    let long : (length (to_hex key) == 32) ≡ true = ground (arith, length-to_hex key, h.0) in
    rw long (parse_chunks-to_hex key h.1)

module _ (L : Library) where
  check_length-long : (s k : Bytes) → check_length L s ≡ ok k → length k ≡ 16
  unfolding check_length
  check_length-long s k = elim (Bool-cases (length s == 16)) [
    | inl e ↦ rw e (λ h. ap length (sym (ok_injective h)) ∙ ground arith)
    | inr e ↦ rw e (λ h. cc h)
  ]

  unseal_under_policy-long :
      (selection : L.Selection) (p : L.Public) (q : L.Private) (s t : L.Session) (w : L.World)
      (k : Bytes)
      → (unseal_under_policy L selection p q s t w).0 ≡ ok k
      → length k ≡ 16
  unfolding unseal_under_policy
  unseal_under_policy-long selection p q s t w k h =
      let (_, _, h1) = and_then-eq-ok _ _ h in
      let (_, _, h2) = and_then-eq-ok _ _ h1 in
      let (_, _, h3) = and_then-eq-ok _ _ h2 in
      let (_, _, h4) = and_then-eq-ok _ _ h3 in
      let (unsealed, _, h5) = and_then-eq-ok _ _ h4 in
      let (_, _, h6) = and_then-eq-ok _ _ h5 in
      let (_, _, h7) = and_then-eq-ok _ _ h6 in
      let (_, _, h8) = and_then-eq-ok _ _ h7 in check_length-long unsealed k h8

  unseal_openly-long :
      (p : L.Public) (q : L.Private) (s : L.Session) (w : L.World) (k : Bytes)
      → (unseal_openly L p q s w).0 ≡ ok k
      → length k ≡ 16
  unfolding unseal_openly
  unseal_openly-long p q s w k h =
      let (_, _, h1) = and_then-eq-ok _ _ h in
      let (unsealed, _, h2) = and_then-eq-ok _ _ h1 in
      let (_, _, h3) = and_then-eq-ok _ _ h2 in
      let (_, _, h4) = and_then-eq-ok _ _ h3 in check_length-long unsealed k h4

  unseal_by-long :
      (how : SealPolicy) (p : L.Public) (q : L.Private) (w : L.World) (k : Bytes)
      → (unseal_by L how p q w).0 ≡ ok k
      → length k ≡ 16
  unfolding unseal_by unseal_with_pcr_policy unseal_with_no_policy
  unseal_by-long (pcrs ps) p q w k h =
      let (selection, _, h1) = and_then-eq-ok _ _ h in
      let (s, _, h2) = and_then-eq-ok _ _ h1 in
      let (t, _, h3) = and_then-eq-ok _ _ h2 in
      let (tried, kept, h4) = and_then-eq-ok _ _ h3 in
      let (_, _, h5) = and_then-eq-ok _ _ h4 in
      let (_, _, h6) = and_then-eq-ok _ _ h5 in
      unseal_under_policy-long selection p q s t _ k (ok_injective kept ∙ h6)
  unseal_by-long no_policy p q w k h =
      let (s, _, h1) = and_then-eq-ok _ _ h in
      let (tried, kept, h2) = and_then-eq-ok _ _ h1 in
      let (_, _, h3) = and_then-eq-ok _ _ h2 in
      unseal_openly-long p q s _ k (ok_injective kept ∙ h3)

  unseal_key-long :
      (blob : Bytes) (w : L.World) (k : Bytes) → (unseal_key L blob w).0 ≡ ok k → length k ≡ 16
  unfolding unseal_key
  unseal_key-long blob w k h =
      let (parts, _, h1) = and_then-eq-ok _ _ h in
      let (p, _, h2) = and_then-eq-ok _ _ h1 in
      let (q, _, h3) = and_then-eq-ok _ _ h2 in
      let (_, _, h4) = and_then-eq-ok _ _ h3 in unseal_by-long parts.policy p q _ k h4

  unsealed_key-tpm :
      (r : Result SealError Bytes) (key : Option (Bytes × KeySource))
      → unsealed_key r ≡ ok key
      → (k : Bytes) × (key ≡ some (k, tpm)) × (r ≡ ok k)
  unfolding unsealed_key
  unsealed_key-tpm (ok k) key h = (k, sym (ok_injective h), refl)
  unsealed_key-tpm (err e) key h = absurd (cc h)

  -- The file was read, and the TPM has unsealed the key from it.
  abbrev pub Unsealed : Result ℕ Bytes → L.World → Bytes → Type 0
  Unsealed read w k = (blob : Bytes) × (read ≡ ok blob) × ((unseal_key L blob w).0 ≡ ok k)

  -- While the file of a sealed key exists, the key is loaded without an error only as 16 bytes that the
  -- TPM has unsealed: neither a plain file nor the absence of a key is the result.
  pub load_key_with_source-sealed :
      (read : Result ℕ Bytes) (live backup : Seen) (w : L.World) (key : Option (Bytes × KeySource))
      → (load_key_with_source L (some read) live backup w).0 ≡ ok key
      → (k : Bytes) × (key ≡ some (k, tpm)) × (length k ≡ 16) × Unsealed read w k
  unfolding load_key_with_source
  load_key_with_source-sealed (err e) live backup w key h = absurd (cc h)
  load_key_with_source-sealed (ok blob) live backup w key h =
      let (k, same, unsealed) = unsealed_key-tpm (unseal_key L blob w).0 key h in
      (k, same, unseal_key-long blob w k unsealed, (blob, refl, unsealed))
