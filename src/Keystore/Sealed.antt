-- ===== src/Keystore/Sealed.antt =====
-- What a sealed saving of pcside/daemon/src/keystore.rs leaves on the disk.
use linux_fingerprint_r.Prelude.{
  ℕ, ◌≡◌, refl, sym, ap, ◌∙◌, inl, inr, Option, none, some, Bytes, Result, ok, err, Done,
}
use linux_fingerprint_r.Disk.{
  File, Disk, Outcome, done, failed, Trial, replace_file, private_mode, created_mode,
}
use linux_fingerprint_r.Disk.Atomic.{Replaced, replace_file-atomic}
use linux_fingerprint_r.Tpm.{pcrs, policy_of_blob}
use linux_fingerprint_r.Tpm.Sealing.{Library, SealError, seal_key_with_pcrs}
use linux_fingerprint_r.Tpm.Sealing.Policies.{IsShort, seal_key_with_pcrs-policy}
use linux_fingerprint_r.Keystore.{Keys}
use linux_fingerprint_r.Keystore.Removing.{
  RemoveCalls, SealCalls, unlink, remove_key_file, delete_backup, with_backup, delete_key,
  persist_sealed_blob, with_sealed, then_wipe, save_sealed, save_key_sealed_with_pcrs,
}

-- The sealed file holds these bytes, and no plain file is left.
abbrev pub OnlySealed : Bytes → Keys → Type 0
OnlySealed blob ks =
    (mode : ℕ) × (ks.sealed.target ≡ some (record { content = blob; mode = mode }))
    × (ks.live.target ≡ none)
    × (ks.backup ≡ none)

-- A file whose removal does not fail is gone.
abbrev Gone : Done ℕ × Option File → Type 0
Gone r = (r.0 ≡ ok tt) × (r.1 ≡ none)

unlink-Gone : (o : Outcome) (f : File) → o ≡ done → Gone (unlink o f)
unfolding unlink
unlink-Gone (failed e) f h = absurd (cc h)
unlink-Gone done f h = (refl, refl)

remove_key_file-Gone :
    (r : RemoveCalls) (f : Option File) → r.removed ≡ done → Gone (remove_key_file r f)
unfolding remove_key_file
remove_key_file-Gone r none h = (refl, refl)
remove_key_file-Gone r (some f) h = unlink-Gone r.removed _ h

delete_backup-Gone :
    (r : RemoveCalls) (ks : Keys) (d : Done ℕ × Option File)
    → r.removed ≡ done
    → Gone d
    → (((delete_backup r ks d).1).live.target ≡ none)
      × (((delete_backup r ks d).1).backup ≡ none)
      × (((delete_backup r ks d).1).sealed ≡ ks.sealed)
unfolding delete_backup with_backup
delete_backup-Gone r ks (err e, f) h g = absurd (cc (g.0))
delete_backup-Gone r ks (ok _, f) h g = (g.1, (remove_key_file-Gone r ks.backup h).1, refl)

then_wipe-OnlySealed :
    (a b : RemoveCalls) (blob : Bytes) (mode : ℕ) (p : Done ℕ × Keys)
    → a.removed ≡ done
    → b.removed ≡ done
    → (p.0 ≡ ok tt → (p.1).sealed.target ≡ some (record { content = blob; mode = mode }))
    → (then_wipe a b p).0 ≡ ok tt
    → OnlySealed blob (then_wipe a b p).1
unfolding then_wipe delete_key
then_wipe-OnlySealed a b blob mode (err e, ks) h k f g = absurd (cc g)
then_wipe-OnlySealed a b blob mode (ok _, ks) h k f g =
    let (live, backup, same) =
      delete_backup-Gone b ks (remove_key_file a ks.live.target) k
        (remove_key_file-Gone a ks.live.target h) in
    (mode, ap (λ (d : Disk). d.target) same ∙ f refl, live, backup)

with_sealed-target :
    (blob : Bytes) (ks : Keys) (r : Done ℕ × Disk)
    → Replaced blob ks.sealed r
    → (with_sealed ks r).0 ≡ ok tt
    → ((with_sealed ks r).1).sealed.target
      ≡ some (record { content = blob; mode = created_mode ks.sealed.tmp private_mode })
unfolding with_sealed
with_sealed-target blob ks (r, d) (inl (_, target, _)) h = target
with_sealed-target blob ks (r, d) (inr (e, bad, _)) h = absurd (err-ne-ok e (sym bad ∙ h))
  where
    err-ne-ok : (e : ℕ) → ◌≡◌ {A = Done ℕ} (err e) (ok tt) → ⊥
    err-ne-ok e q = cc q

persisted :
    (o : Outcome) (t : Trial) (blob : Bytes) (ks : Keys)
    → (persist_sealed_blob o t blob ks).0 ≡ ok tt
    → ((persist_sealed_blob o t blob ks).1).sealed.target
      ≡ some (record { content = blob; mode = created_mode ks.sealed.tmp private_mode })
unfolding persist_sealed_blob
persisted (failed e) t blob ks h = absurd (cc h)
persisted done t blob ks h =
    with_sealed-target blob ks (replace_file t blob ks.sealed)
      (replace_file-atomic t blob ks.sealed) h

pub save_sealed-Stored :
    (c : SealCalls) (sealing : Result SealError Bytes) (ks : Keys)
    → c.live_removed.removed ≡ done
    → c.backup_removed.removed ≡ done
    → (save_sealed c sealing ks).0 ≡ ok tt
    → (blob : Bytes) × (sealing ≡ ok blob) × OnlySealed blob (save_sealed c sealing ks).1
unfolding save_sealed
save_sealed-Stored c (err e) ks h k g = absurd (cc g)
save_sealed-Stored c (ok blob) ks h k g = (
  blob,
  refl,
  then_wipe-OnlySealed c.live_removed c.backup_removed blob
      (created_mode ks.sealed.tmp private_mode)
      (persist_sealed_blob c.seal_dir_created c.blob_replaced blob ks) h k
      (persisted c.seal_dir_created c.blob_replaced blob ks) g,
)

-- Where a key was saved sealed to a list of PCRs without error, and the plain files could be removed, the
-- disk holds a sealed file that names exactly those PCRs, and no plain file, provided that the TPM returns
-- no field above 65536 bytes.
pub save_key_sealed_with_pcrs-OnlySealed :
    (L : Library) (short : IsShort L) (c : SealCalls) (key ps : Bytes) (ks : Keys) (w : L.World)
    → c.live_removed.removed ≡ done
    → c.backup_removed.removed ≡ done
    → (save_key_sealed_with_pcrs L c key ps ks w).0 ≡ ok tt
    → (blob : Bytes) × (policy_of_blob blob ≡ ok (pcrs ps))
      × OnlySealed blob (save_key_sealed_with_pcrs L c key ps ks w).1
unfolding save_key_sealed_with_pcrs
save_key_sealed_with_pcrs-OnlySealed L short c key ps ks w h k g =
    let (blob, sealed, stored) = save_sealed-Stored c (seal_key_with_pcrs L key ps w).0 ks h k g in
    (blob, (seal_key_with_pcrs-policy L short key ps w blob sealed).0, stored)
