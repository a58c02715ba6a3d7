-- ===== src/Tpm/Sealing/Policies.antt =====
-- What the sealing functions of pcside/daemon/src/tpm.rs write into the file of a sealed key.
use linux_fingerprint_r.Prelude.{
  ℕ, ◌≤◌, ◌≡◌, refl, ◌∙◌, subst, Bytes, Result, ok, err, length, ok_injective,
}
use linux_fingerprint_r.Prelude.Actions.{and_then-eq-ok}
use linux_fingerprint_r.Tpm.{
  SealPolicy, pcrs, PcrError, validate_pcrs, serialize_blob, policy_of_blob, max_field,
}
use linux_fingerprint_r.Tpm.Pcrs.{IsPcrList, validate_pcrs_iff}
use linux_fingerprint_r.Tpm.Blob.{IsPolicy, deserialize_blob-serialize_blob}
use linux_fingerprint_r.Tpm.Sealing.{
  Library, of_list, of_library, create_sealed, seal_with, seal_key_with_pcrs,
}

-- What a TPM returns has a length of 16 bits: no field is longer than the reader takes.
abbrev pub IsShort : Library → Type 0
IsShort L =
    ((p : L.Public) (s : Bytes) → L.marshall p ≡ ok s → length s ≤ max_field)
    × ((p : L.Private) → length (L.private_value p) ≤ max_field)

of_library_ok : {A : Type 0} (r : Result ℕ A) {a : A} → of_library r ≡ ok a → r ≡ ok a
of_library_ok (ok a) h = cc h
of_library_ok (err e) h = cc h

of_list_ok : {A : Type 0} (r : Result PcrError A) {a : A} → of_list r ≡ ok a → r ≡ ok a
of_list_ok (ok a) h = cc h
of_list_ok (err e) h = cc h

policy_of_blob-serialize_blob :
    (how : SealPolicy) (a b : Bytes)
    → IsPolicy how
    → length a ≤ max_field
    → length b ≤ max_field
    → policy_of_blob (serialize_blob how a b) ≡ ok how
unfolding policy_of_blob
policy_of_blob-serialize_blob how a b h k l =
    rw (deserialize_blob-serialize_blob how a b h k l) refl

module _ (L : Library) (short : IsShort L) where
  abbrev Fits : Bytes × Bytes → Type 0
  Fits parts = (length parts.0 ≤ max_field) × (length parts.1 ≤ max_field)

  create_sealed-Fits :
      (key : Bytes) (template : Result ℕ L.Public) (s : L.Session) (w : L.World)
      (parts : Bytes × Bytes)
      → (create_sealed L key template s w).0 ≡ ok parts
      → Fits parts
  unfolding create_sealed
  create_sealed-Fits key template s w parts h =
      let (_, _, h1) = and_then-eq-ok _ _ h in
      let (_, _, h2) = and_then-eq-ok _ _ h1 in
      let (_, _, h3) = and_then-eq-ok _ _ h2 in
      let (_, _, h4) = and_then-eq-ok _ _ h3 in
      let (_, _, h5) = and_then-eq-ok _ _ h4 in
      let (created, _, h6) = and_then-eq-ok _ _ h5 in
      let (pub_bytes, marshalled, h7) = and_then-eq-ok _ _ h6 in
      let (_, _, h8) = and_then-eq-ok _ _ h7 in
      subst Fits (ok_injective h8) (
        short.0 created.0 pub_bytes (of_library_ok (L.marshall created.0) marshalled),
        short.1 created.1,
      )

  seal_with-policy :
      (key : Bytes) (template : Result ℕ L.Public) (how : SealPolicy) (w : L.World) (bytes : Bytes)
      → IsPolicy how
      → (seal_with L key template how w).0 ≡ ok bytes
      → policy_of_blob bytes ≡ ok how
  unfolding seal_with
  seal_with-policy key template how w bytes valid h =
      let (session, _, h1) = and_then-eq-ok _ _ h in
      let (tried, kept, h2) = and_then-eq-ok _ _ h1 in
      let (_, _, h3) = and_then-eq-ok _ _ h2 in
      let (parts, made, h4) = and_then-eq-ok _ _ h3 in
      let fits : Fits parts =
        create_sealed-Fits key template session _ parts (ok_injective kept ∙ made) in
      subst (λ (t : Bytes). policy_of_blob t ≡ ok how) (ok_injective h4)
        (policy_of_blob-serialize_blob how parts.0 parts.1 valid fits.0 fits.1)

  -- Where a key was sealed to a list of PCRs without error, the file names exactly those PCRs, and they
  -- are one to 24 different ones of the bank, provided that the TPM returns no field above 65536 bytes.
  pub seal_key_with_pcrs-policy :
      (key ps : Bytes) (w : L.World) (bytes : Bytes)
      → (seal_key_with_pcrs L key ps w).0 ≡ ok bytes
      → (policy_of_blob bytes ≡ ok (pcrs ps)) × IsPcrList ps
  unfolding seal_key_with_pcrs
  seal_key_with_pcrs-policy key ps w bytes h =
      let (_, checked, h1) = and_then-eq-ok _ _ h in
      let (_, _, h2) = and_then-eq-ok _ _ h1 in
      let (_, _, h3) = and_then-eq-ok _ _ h2 in
      let (digest, _, h4) = and_then-eq-ok _ _ h3 in
      let valid : IsPcrList ps = (validate_pcrs_iff ps).0 (of_list_ok (validate_pcrs ps) checked) in
      (seal_with-policy key _ (pcrs ps) _ bytes valid h4, valid)
