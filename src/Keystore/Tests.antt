-- ===== src/Keystore/Tests.antt =====
-- The key's files of pcside/daemon/src/keystore.rs at concrete inputs.
use linux_fingerprint_r.Prelude.{
  ◌≡◌, refl, Option, none, some, [], ◌∷◌, Bytes, codes, ok, length, eq, arith,
}
use linux_fingerprint_r.Prelude.Actions.{and_then}
use linux_fingerprint_r.Disk.{
  done, failed, Trial, replace_file, open_tmp, write_tmp, sync_tmp, rename_tmp,
}
use linux_fingerprint_r.Crypto.{from_le_bytes}
use linux_fingerprint_r.Tpm
use linux_fingerprint_r.Tpm.Sealing
use linux_fingerprint_r.Tpm.Sealing.Tests.{accepting, accepting-IsShort, key, sealed_file}
use linux_fingerprint_r.Keystore
use linux_fingerprint_r.Keystore.Removing
use linux_fingerprint_r.Keystore.Loading.{IsKey, Unsealed, load_key_with_source-sealed}
use linux_fingerprint_r.Keystore.Saving.{seen, load_key-save_key}
use linux_fingerprint_r.Keystore.Sealed.{OnlySealed, save_key_sealed_with_pcrs-OnlySealed}

key-IsKey : IsKey key
key-IsKey = (refl, omega arith)

abbrev smooth : Trial
smooth = record { opened = done; wrote = done; partly = 0; synced = done; renamed = done }

-- A temporary file that everyone may read is in the way.
abbrev before : Keystore.Keys
before = record {
  live = record { target = none; tmp = some (record { content = codes "12"; mode = 420 }) };
  backup = none;
  sealed = record { target = none; tmp = none };
}

abbrev saving : Keystore.SaveCalls
saving = record {
  dir_created = done;
  replaced = smooth;
  copied = done;
  left_of_backup = none;
  restricted = done;
}

saves : (Keystore.save_key saving key before).0 ≡ ok tt
unfolding Keystore.save_key Keystore.save_in_dir Keystore.after_replacement Keystore.copy_backup
    replace_file open_tmp write_tmp sync_tmp rename_tmp
saves = refl

load_key-save_key_example :
    Keystore.load_key
      (seen ((Keystore.save_key saving key before).1).live.target)
      (seen ((Keystore.save_key saving key before).1).backup)
    ≡ some key
load_key-save_key_example = load_key-save_key saving key before key-IsKey refl saves

abbrev removing : Removing.RemoveCalls
removing = record {
  made_writable = done;
  opened_to_shred = failed 13;
  overwritten = done;
  partly = 0;
  removed = done;
}

abbrev sealing : Removing.SealCalls
sealing = record {
  seal_dir_created = done;
  blob_replaced = smooth;
  live_removed = removing;
  backup_removed = removing;
}

seals : (Removing.save_key_sealed_with_pcrs accepting sealing key (7 ∷ 11 ∷ []) before 0).0 ≡ ok tt
unfolding Removing.save_key_sealed_with_pcrs Removing.save_sealed Sealing.seal_key_with_pcrs
    and_then Tpm.validate_pcrs Sealing.trial_policy_pcr_digest Sealing.start_session
    Sealing.seal_with Sealing.create_sealed Sealing.sealed_object_template Removing.then_wipe
    Removing.persist_sealed_blob Removing.with_sealed replace_file open_tmp write_tmp sync_tmp
    rename_tmp
seals = refl

save_key_sealed_with_pcrs-OnlySealed_example :
    (blob : Bytes) × (Tpm.policy_of_blob blob ≡ ok (Tpm.pcrs (7 ∷ 11 ∷ [])))
    × OnlySealed blob
        (Removing.save_key_sealed_with_pcrs accepting sealing key (7 ∷ 11 ∷ []) before 0).1
save_key_sealed_with_pcrs-OnlySealed_example =
    save_key_sealed_with_pcrs-OnlySealed accepting accepting-IsShort sealing key (7 ∷ 11 ∷ [])
      before 0 refl refl seals

unseals :
    (Keystore.load_key_with_source accepting (some (ok sealed_file)) (seen none) (seen none) 0).0
    ≡ ok (some (key, Keystore.tpm))
unfolding Keystore.load_key_with_source Keystore.unsealed_key Sealing.unseal_key and_then
    Tpm.deserialize_blob eq Tpm.read_pcrs Tpm.after_validation Tpm.validate_pcrs Tpm.read_fields
    Tpm.read_len Tpm.read_pub from_le_bytes Tpm.read_priv Sealing.unseal_by
    Sealing.unseal_with_pcr_policy Sealing.start_session Sealing.unseal_under_policy
    Sealing.load_sealed Sealing.check_length
unseals = refl

load_key_with_source-sealed_example :
    (k : Bytes) × (◌≡◌ {A = Option (Bytes × Keystore.KeySource)}
      (some (key, Keystore.tpm))
      (some (k, Keystore.tpm)))
    × (length k ≡ 16)
    × Unsealed accepting (ok sealed_file) 0 k
load_key_with_source-sealed_example =
    load_key_with_source-sealed accepting (ok sealed_file) (seen none) (seen none) 0
      (some (key, Keystore.tpm)) unseals
