-- ===== src/Keystore/Removing.antt =====
-- How pcside/daemon/src/keystore.rs removes the key's files, and saves a key sealed to the TPM.
use linux_fingerprint_r.Prelude.{
  ℕ, zero, suc, min, Option, none, some, [], ◌∷◌, ◌++◌, Bytes, Result, ok, err, Done, drop,
}
use linux_fingerprint_r.Disk.{File, Disk, Outcome, done, failed, Trial, replace_file, private_mode}
use linux_fingerprint_r.Tpm.Sealing.{Library, SealError, seal_key_with_pcrs, seal_key_no_policy}
use linux_fingerprint_r.Keystore.{Keys, KeyError, io, sealing}

-- What the calls do that remove one file, and how many bytes a failing overwriting has written.
pub record RemoveCalls : Type 0 where
  pub made_writable : Outcome
  pub opened_to_shred : Outcome
  pub overwritten : Outcome
  pub partly : ℕ
  pub removed : Outcome

-- `[0xFFu8; 33]`
repeated : ℕ → Bytes
repeated zero = []
repeated (suc n) = 0xff ∷ repeated n

-- The first bytes are overwritten and the rest stays.
overwrite : ℕ → Bytes → Bytes
unfolding repeated
overwrite n content = repeated n ++ drop n content

shred_open : RemoveCalls → Outcome → File → File
unfolding overwrite
shred_open r (failed e) f = record f { content = overwrite (min r.partly 33) f.content }
shred_open r done f = record f { content = overwrite 33 f.content }

unfoldable pub shred_file : RemoveCalls → Outcome → File → File
unfolding shred_open
shred_file r (failed e) f = f
shred_file r done f = shred_open r r.overwritten f

unfoldable pub make_writable : Outcome → File → File
make_writable (failed e) f = f
make_writable done f = record f { mode = private_mode }

unfoldable pub unlink : Outcome → File → Done ℕ × Option File
unlink (failed e) f = (err e, some f)
unlink done f = (ok tt, none)

-- One round of `delete_key`; a missing file is no error. Only a failing `remove_file` is reported.
unfoldable pub remove_key_file : RemoveCalls → Option File → Done ℕ × Option File
remove_key_file r none = (ok tt, none)
remove_key_file r (some f) =
    unlink r.removed (shred_file r r.opened_to_shred (make_writable r.made_writable f))

unfoldable pub with_backup : Keys → Done ℕ × Option File → Done ℕ × Keys
with_backup ks (r, f) = (r, record ks { backup = f })

abbrev pub with_live : Keys → Option File → Keys
with_live ks f = record ks { live = record ks.live { target = f } }

unfoldable pub delete_backup : RemoveCalls → Keys → Done ℕ × Option File → Done ℕ × Keys
delete_backup r ks (err e, f) = (err e, with_live ks f)
delete_backup r ks (ok _, f) = with_backup (with_live ks f) (remove_key_file r ks.backup)

unfoldable pub delete_key : RemoveCalls → RemoveCalls → Keys → Done ℕ × Keys
delete_key live_calls backup_calls ks =
    delete_backup backup_calls ks (remove_key_file live_calls ks.live.target)

unfoldable pub with_sealed : Keys → Done ℕ × Disk → Done ℕ × Keys
with_sealed ks (r, d) = (r, record ks { sealed = d })

unfoldable pub persist_sealed_blob : Outcome → Trial → Bytes → Keys → Done ℕ × Keys
persist_sealed_blob (failed e) t blob ks = (err e, ks)
persist_sealed_blob done t blob ks = with_sealed ks (replace_file t blob ks.sealed)

unfoldable pub then_wipe :
    RemoveCalls → RemoveCalls → Done ℕ × Keys → Result KeyError (Unit {0}) × Keys
then_wipe live_calls backup_calls (err e, ks) = (err (io e), ks)
then_wipe live_calls backup_calls (ok _, ks) = (ok tt, (delete_key live_calls backup_calls ks).1)

-- What the calls of a sealed saving do: the directory, the replacement, the removal of the plain files.
pub record SealCalls : Type 0 where
  pub seal_dir_created : Outcome
  pub blob_replaced : Trial
  pub live_removed : RemoveCalls
  pub backup_removed : RemoveCalls

unfoldable pub save_sealed :
    SealCalls → Result SealError Bytes → Keys → Result KeyError (Unit {0}) × Keys
save_sealed c (err e) ks = (err (sealing e), ks)
save_sealed c (ok blob) ks =
    then_wipe c.live_removed c.backup_removed
      (persist_sealed_blob c.seal_dir_created c.blob_replaced blob ks)

module _ (L : Library) (c : SealCalls) where
  unfoldable pub save_key_sealed_with_pcrs :
      Bytes → Bytes → Keys → L.World → Result KeyError (Unit {0}) × Keys
  save_key_sealed_with_pcrs key ps ks w = save_sealed c (seal_key_with_pcrs L key ps w).0 ks

  pub save_key_sealed : Bytes → Keys → L.World → Result KeyError (Unit {0}) × Keys
  save_key_sealed key ks w = save_key_sealed_with_pcrs key (7 ∷ []) ks w

  pub save_key_sealed_no_policy : Bytes → Keys → L.World → Result KeyError (Unit {0}) × Keys
  save_key_sealed_no_policy key ks w = save_sealed c (seal_key_no_policy L key w).0 ks

-- A missing sealed file is no error.
unfoldable pub delete_sealed_key : Outcome → Keys → Done ℕ × Keys
delete_sealed_key r ks = elim ks.sealed.target [
  | none ↦ (ok tt, ks)
  | some f ↦ elim r [
    | failed e ↦ (err e, ks)
    | done ↦ (ok tt, record ks { sealed = record ks.sealed { target = none } })
  ]
]

unfoldable pub then_delete_sealed : Outcome → Done ℕ × Keys → Done ℕ × Keys
then_delete_sealed r (err e, ks) = (err e, ks)
then_delete_sealed r (ok _, ks) = delete_sealed_key r ks

pub delete_all_keys : RemoveCalls → RemoveCalls → Outcome → Keys → Done ℕ × Keys
delete_all_keys live_calls backup_calls r ks =
    then_delete_sealed r (delete_key live_calls backup_calls ks)
