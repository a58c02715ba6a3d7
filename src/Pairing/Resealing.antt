-- ===== src/Pairing/Resealing.antt =====
-- run_reseal_policy of pcside/daemon/src/pairing.rs never loses the key.
use linux_fingerprint_r.Prelude.{
  ℕ, ◌≡◌, ◌⊎◌, refl, sym, ap, ◌∙◌, inl, inr, Bool-cases, Option, some, Bytes, eq, eq_sound, Result,
  ok, err, Done, ok_or-eq-ok, ok_injective, subst,
}
use linux_fingerprint_r.Prelude.Actions.{and_then-eq-ok}
use linux_fingerprint_r.Disk.{File, Disk, Outcome, done, failed, Trial, replace_file}
use linux_fingerprint_r.Disk.Atomic.{Replaced, replace_file-atomic}
use linux_fingerprint_r.Keystore.{KeySource, plaintext, tpm, Keys, Seen, load_key_with_source}
use linux_fingerprint_r.Keystore.Removing.{
  RemoveCalls, persist_sealed_blob, delete_key, with_sealed, delete_backup, with_backup,
  remove_key_file,
}
use linux_fingerprint_r.Pairing.{PairError, map_error-ok, key_unusable, no_key, sealing}
use linux_fingerprint_r.Pairing.Policy.{
  ResealCalls, check_same, wipe_if_plain, write_blob, verified_blob, run_reseal_policy,
}
use linux_fingerprint_r.Tpm.Sealing.{Library, unseal_key}

check_same-ok : (key again : Bytes) → check_same key again ≡ ok tt → again ≡ key
unfolding check_same
check_same-ok key again = elim (Bool-cases (eq again key)) [
  | inl e ↦ rw e (λ h. eq_sound again key e)
  | inr e ↦ rw e (λ h. cc h)
]

-- A blob that gives, unsealed, the key that was loaded.
abbrev pub Keeps : (L : Library) → Option (Result ℕ Bytes) → Seen → Seen → L.World → Bytes → Type 0
Keeps L sealed live backup w blob =
    (key : Bytes) × (source : KeySource) × (later : L.World) × ((load_key_with_source L sealed live
        backup w).0
      ≡ ok (some (key, source)))
    × ((unseal_key L blob later).0 ≡ ok key)

verified_blob-Keeps :
    (L : Library) (sealed : Option (Result ℕ Bytes)) (again : Result ℕ Bytes) (live backup : Seen)
    (new_pcrs : Option Bytes) (w : L.World) (r : KeySource × Bytes)
    → (verified_blob L sealed again live backup new_pcrs w).0 ≡ ok r
    → Keeps L sealed live backup w r.1
unfolding verified_blob
verified_blob-Keeps L sealed again live backup new_pcrs w r h =
    let (loaded, got, h1) = and_then-eq-ok _ _ h in
    let (held, there, h2) = and_then-eq-ok _ _ h1 in
    let (_, _, h3) = and_then-eq-ok _ _ h2 in
    let (blob, made, h4) = and_then-eq-ok _ _ h3 in
    let (reunsealed, opened, h5) = and_then-eq-ok _ _ h4 in
    let (_, same, h6) = and_then-eq-ok _ _ h5 in
    subst (λ (x : Bytes). Keeps L sealed live backup w x)
      (ap (λ (x : KeySource × Bytes). x.1) (ok_injective h6))
      (
        held.0,
        held.1,
        _,
        map_error-ok key_unusable (load_key_with_source L sealed live backup w).0 got
            ∙ ap ok (ok_or-eq-ok loaded no_key there),
        map_error-ok sealing _ opened ∙ ap ok (check_same-ok held.0 reunsealed same),
      )

-- The sealed file is what it was, or it holds this blob.
abbrev Either : Bytes → Keys → Keys → Type 0
Either blob before after =
    (after.sealed.target ≡ before.sealed.target)
    ⊎ ((mode : ℕ) × (after.sealed.target ≡ some (record { content = blob; mode = mode })))

with_sealed-Either :
    (blob : Bytes) (ks : Keys) (r : Done ℕ × Disk)
    → Replaced blob ks.sealed r
    → Either blob ks (with_sealed ks r).1
unfolding with_sealed
with_sealed-Either blob ks (r, d) (inl (_, target, _)) = inr (_, target)
with_sealed-Either blob ks (r, d) (inr (_, _, same)) = inl same

persist-Either :
    (o : Outcome) (t : Trial) (blob : Bytes) (ks : Keys)
    → Either blob ks (persist_sealed_blob o t blob ks).1
unfolding persist_sealed_blob
persist-Either (failed e) t blob ks = inl refl
persist-Either done t blob ks =
    with_sealed-Either blob ks (replace_file t blob ks.sealed)
      (replace_file-atomic t blob ks.sealed)

delete_backup-sealed :
    (r : RemoveCalls) (ks : Keys) (d : Done ℕ × Option File)
    → ((delete_backup r ks d).1).sealed ≡ ks.sealed
unfolding delete_backup with_backup
delete_backup-sealed r ks (err e, f) = refl
delete_backup-sealed r ks (ok _, f) = refl

wipe_if_plain-sealed :
    (c : ResealCalls) (source : KeySource) (r : Done ℕ × Keys)
    → ((wipe_if_plain c source r).1).sealed ≡ (r.1).sealed
unfolding wipe_if_plain delete_key
wipe_if_plain-sealed c source (err e, ks) = refl
wipe_if_plain-sealed c tpm (ok _, ks) = refl
wipe_if_plain-sealed c plaintext (ok _, ks) =
    delete_backup-sealed c.plain_backup_removed ks (remove_key_file c.plain_removed ks.live.target)

write_blob-Either :
    (c : ResealCalls) (ks : Keys) (r : Result PairError (KeySource × Bytes))
    → ((write_blob c ks r).1.sealed.target ≡ ks.sealed.target)
      ⊎ ((made : KeySource × Bytes) × (r ≡ ok made) × Either made.1 ks (write_blob c ks r).1)
unfolding write_blob
write_blob-Either c ks (err e) = inl refl
write_blob-Either c ks (ok made) =
    let persisted = persist_sealed_blob c.policy_dir_created c.policy_replaced made.1 ks in
    inr (
      made,
      refl,
      subst (λ (d : Disk). Either made.1 ks (record ks { sealed = d }))
          (sym (wipe_if_plain-sealed c made.0 persisted))
          (persist-Either c.policy_dir_created c.policy_replaced made.1 ks),
    )

-- Whatever fails while a key is sealed under a new policy, the sealed file is the one from before, or it
-- holds a blob that unseals, in some state of the TPM, to the very key that was loaded.
pub run_reseal_policy-Keeps :
    (L : Library) (c : ResealCalls) (sealed : Option (Result ℕ Bytes)) (again : Result ℕ Bytes)
    (live backup : Seen) (new_pcrs : Option Bytes) (ks : Keys) (w : L.World)
    → ((run_reseal_policy L c sealed again live backup new_pcrs ks w).1.sealed.target
        ≡ ks.sealed.target)
      ⊎ ((blob : Bytes) × (mode : ℕ) × ((run_reseal_policy L c sealed again live backup new_pcrs ks
              w).1.sealed.target
            ≡ some (record { content = blob; mode = mode }))
          × Keeps L sealed live backup w blob)
unfolding run_reseal_policy
run_reseal_policy-Keeps L c sealed again live backup new_pcrs ks w =
    elim (write_blob-Either c ks (verified_blob L sealed again live backup new_pcrs w).0) [
      | inl same ↦ inl same
      | inr (made, e, inl same) ↦ inl same
      | inr (made, e, inr (mode, target)) ↦
          inr
            (made.1, mode, target, verified_blob-Keeps L sealed again live backup new_pcrs w made e)
    ]
