-- ===== src/Pairing/Policy.antt =====
-- run_reseal_policy of pcside/daemon/src/pairing.rs: the same key, sealed under another policy.
use linux_fingerprint_r.Prelude.{
  ℕ, not, Option, none, some, Bytes, eq, Result, ok, err, Done, ok_or, if◌then◌else◌,
}
use linux_fingerprint_r.Prelude.Actions.{Action, and_then, return, lift}
use linux_fingerprint_r.Disk.{Outcome, Trial}
use linux_fingerprint_r.Keystore.{KeySource, plaintext, tpm, Keys, Seen, load_key_with_source}
use linux_fingerprint_r.Keystore.Removing.{RemoveCalls, persist_sealed_blob, delete_key}
use linux_fingerprint_r.Pairing.{PairError, key_unusable, no_key, mismatch, sealing, io, map_error}
use linux_fingerprint_r.Tpm.Sealing.{
  Library, SealError, seal_key_with_pcrs, seal_key_no_policy, unseal_key,
}

infixl 5 ◌>>=◌
abbrev ◌>>=◌ :
    {W A B : Type 0} → Action W PairError A → (A → Action W PairError B) → Action W PairError B
m >>= next = λ w. and_then (m w) next

-- `context` and `map_err` on what changes the TPM
abbrev pub within : {W E A : Type 0} → (E → PairError) → Action W E A → Action W PairError A
within f m w = (map_error f (m w).0, (m w).1)

-- The sealed file is read once more for the name of its policy, which is only printed.
abbrev reread : KeySource → Result ℕ Bytes → Done PairError
reread plaintext blob = ok tt
reread tpm (ok blob) = ok tt
reread tpm (err e) = err (io e)

unfoldable pub check_same : Bytes → Bytes → Done PairError
check_same key again = if not (eq again key) then err mismatch else ok tt

-- What `persist_sealed_blob` and `delete_key` do.
pub record ResealCalls : Type 0 where
  pub policy_dir_created : Outcome
  pub policy_replaced : Trial
  pub plain_removed : RemoveCalls
  pub plain_backup_removed : RemoveCalls

unfoldable pub wipe_if_plain : ResealCalls → KeySource → Done ℕ × Keys → Done PairError × Keys
wipe_if_plain c source (err e, ks) = (err (io e), ks)
wipe_if_plain c tpm (ok _, ks) = (ok tt, ks)
wipe_if_plain c plaintext (ok _, ks) =
    (ok tt, (delete_key c.plain_removed c.plain_backup_removed ks).1)

unfoldable pub write_blob :
    ResealCalls → Keys → Result PairError (KeySource × Bytes) → Done PairError × Keys
write_blob c ks (err e) = (err e, ks)
write_blob c ks (ok (source, blob)) =
    wipe_if_plain c source (persist_sealed_blob c.policy_dir_created c.policy_replaced blob ks)

module _ (L : Library) where
  unfoldable pub reseal : Bytes → Option Bytes → Action L.World SealError Bytes
  reseal key (some ps) = seal_key_with_pcrs L key ps
  reseal key none = seal_key_no_policy L key

  -- Everything before the disk is touched: the new blob has been unsealed to the key that is in use.
  unfoldable pub verified_blob :
      Option (Result ℕ Bytes)
      → Result ℕ Bytes
      → Seen
      → Seen
      → Option Bytes
      → Action L.World PairError (KeySource × Bytes)
  verified_blob sealed again live backup new_pcrs = do
    loaded ← within key_unusable (load_key_with_source L sealed live backup)
    held ← lift (ok_or loaded no_key)
    _ ← lift (reread held.1 again)
    blob ← within sealing (reseal held.0 new_pcrs)
    reunsealed ← within sealing (unseal_key L blob)
    _ ← lift (check_same held.0 reunsealed)
    return (held.1, blob)

  unfoldable pub run_reseal_policy :
      ResealCalls
      → Option (Result ℕ Bytes)
      → Result ℕ Bytes
      → Seen
      → Seen
      → Option Bytes
      → Keys
      → L.World
      → Done PairError × Keys
  run_reseal_policy c sealed again live backup new_pcrs ks w =
      write_blob c ks (verified_blob sealed again live backup new_pcrs w).0
