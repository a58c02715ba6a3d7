-- ===== src/Tpm/Sealing/RoundTrip.antt =====
-- A key that pcside/daemon/src/tpm.rs has sealed is unsealed again by a TPM that works.
use linux_fingerprint_r.Prelude.{◌≡◌, Option, none, some, Bytes, ok}
use linux_fingerprint_r.Tpm.{SealPolicy, pcrs, no_policy}
use linux_fingerprint_r.Tpm.Sealing.{Library, unseal_key}
use linux_fingerprint_r.Tpm.Sealing.Honest.{Honest}

module _ (L : Library) (T : Honest L) where
  -- How an object with this policy is sealed and unsealed.
  abbrev Fits : SealPolicy → Option L.Digest → Type 0
  Fits (pcrs ps) d = (s : L.Selection) × (L.pcr_selection ps ≡ ok s) × (d ≡ some (T.policy_of s))
  Fits no_policy d = d ≡ none

  -- The file of a sealed key can be unsealed, and gives the key.
  abbrev pub Unseals : Bytes → L.World → Bytes → Type 0
  Unseals key v blob = (unseal_key L blob v).0 ≡ ok key
