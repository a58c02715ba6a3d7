-- ===== src/Keystore/Saving.antt =====
-- A key that pcside/daemon/src/keystore.rs has saved is the key that it loads.
use Prim.Native.Nat.{bit_and}
use linux_fingerprint_r.Prelude.{
  ℕ, ◌≡◌, ◌⊎◌, refl, ap, ap₂, ◌∙◌, inl, inr, false, Bool-cases, Option, none, some, [], ◌∷◌, ◌++◌,
  Bytes, trim, ok, err, Done, ◌==◌,
}
use linux_fingerprint_r.Prelude.Whitespace.Trimming.{trim-line}
use linux_fingerprint_r.Disk.{
  File, Disk, Outcome, done, failed, replace_file, private_mode, created_mode,
}
use linux_fingerprint_r.Disk.Atomic.{Replaced, replace_file-atomic}
use linux_fingerprint_r.Hex.{to_hex}
use linux_fingerprint_r.Hex.Laws.{to_hex-IsGraphic}
use linux_fingerprint_r.Keystore.{
  access_bits, key_hex, Seen, not_found, found, check_stat, read_key_file_guarded, live_mask,
  backup_mask, parse_candidate, or_backup, load_key, Keys, SaveCalls, read_only, restrict,
  copy_backup, after_replacement, save_in_dir, save_key,
}
use linux_fingerprint_r.Keystore.Loading.{IsKey, parse_key_hex-key_hex}

-- What the daemon, which runs as root, sees of a file that it has written itself. A text that is not UTF-8
-- is refused when it is read; here it is refused when the key is read from it.
unfoldable pub seen : Option File → Seen
seen none = record { stat = not_found; text = err 2 }
seen (some f) = record { stat = found false 0 f.mode; text = ok f.content }

abbrev file_text : Bytes → Bytes
file_text key = key_hex key ++ b'\n' ∷ []

-- A file with the key's text gives the key, or is refused for its mode.
parse-file_text : (key : Bytes) → IsKey key → parse_candidate (some (file_text key)) ≡ some key
unfolding parse_candidate
parse-file_text key h =
    let line : trim (file_text key) ≡ key_hex key =
      unfold key_hex in trim-line (to_hex key) (to_hex-IsGraphic key h.1) in
    rw (line, parse_key_hex-key_hex key h) refl

own_file :
    (mask mode : ℕ) (text : Bytes)
    → (check_stat mask (ok text) (found false 0 mode) ≡ none)
      ⊎ (check_stat mask (ok text) (found false 0 mode) ≡ some text)
unfolding check_stat
own_file mask mode text = elim (Bool-cases (bit_and (bit_and mode access_bits) mask == 0)) [
  | inl e ↦ rw e (inr refl)
  | inr e ↦ rw e (inl refl)
]

own_backup : (text : Bytes) → check_stat backup_mask (ok text) (found false 0 read_only) ≡ some text
unfolding check_stat
own_backup text = refl

load-own :
    (key : Bytes) (mode : ℕ)
    → IsKey key
    → load_key
        (seen (some (record { content = file_text key; mode = mode })))
        (seen (some (record { content = file_text key; mode = read_only })))
      ≡ some key
unfolding load_key read_key_file_guarded seen or_backup
load-own key mode h = elim (own_file live_mask mode (file_text key)) [
  | inl e ↦
      rw (e, own_backup (file_text key), parse-file_text key h) (unfold parse_candidate in refl)
  | inr e ↦ rw (e, parse-file_text key h) refl
]

-- The live file, and the backup that no one may write.
abbrev Held : File → Keys → Type 0
Held f ks = (ks.live.target ≡ some f) × (ks.backup ≡ some (record f { mode = read_only }))

some_injective {ℓ} : {A : Type ℓ} {a b : A} → some a ≡ some b → a ≡ b
some_injective h = cc h

restrict-done : (o : Outcome) (f : File) → o ≡ done → restrict o f ≡ record f { mode = read_only }
unfolding restrict
restrict-done (failed e) f h = absurd (cc h)
restrict-done done f h = refl

copy_backup-Held :
    (c : SaveCalls) (o : Outcome) (source : Option File) (f : File) (ks : Keys)
    → c.restricted ≡ done
    → source ≡ some f
    → ks.live.target ≡ some f
    → (copy_backup c o source ks).0 ≡ ok tt
    → Held f (copy_backup c o source ks).1
unfolding copy_backup
copy_backup-Held c (failed e) source f ks d s t h = absurd (cc h)
copy_backup-Held c done none f ks d s t h = absurd (cc h)
copy_backup-Held c done (some g) f ks d s t h = (
  t,
  ap some (
      restrict-done c.restricted g d
      ∙ ap (λ (x : File). record x { mode = read_only }) (some_injective s)),
)

after_replacement-Held :
    (c : SaveCalls) (ks : Keys) (text : Bytes) (r : Done ℕ × Disk)
    → c.restricted ≡ done
    → Replaced text ks.live r
    → (after_replacement c ks r).0 ≡ ok tt
    → Held
        (record { content = text; mode = created_mode ks.live.tmp private_mode })
        (after_replacement c ks r).1
unfolding after_replacement
after_replacement-Held c ks text (err e, d) w p h = absurd (cc h)
after_replacement-Held c ks text (ok _, d) w (inr (e, bad, _)) h = absurd (cc bad)
after_replacement-Held c ks text (ok _, d) w (inl (_, target, _)) h =
    copy_backup-Held c c.copied d.target _ _ w target target h

save_in_dir-Held :
    (c : SaveCalls) (o : Outcome) (key : Bytes) (ks : Keys)
    → c.restricted ≡ done
    → (save_in_dir c o key ks).0 ≡ ok tt
    → Held
        (record { content = file_text key; mode = created_mode ks.live.tmp private_mode })
        (save_in_dir c o key ks).1
unfolding save_in_dir
save_in_dir-Held c (failed e) key ks w h = absurd (cc h)
save_in_dir-Held c done key ks w h =
    after_replacement-Held c ks (file_text key) (replace_file c.replaced (file_text key) ks.live) w
      (replace_file-atomic c.replaced (file_text key) ks.live) h

-- Where a key of 16 bytes was saved without error and the backup could be made read-only, it is the key
-- that is loaded next. This holds for any mode of the live file, which a temporary file of an interrupted
-- saving may have passed on: a live file that is refused for its mode is replaced by the backup.
pub load_key-save_key :
    (c : SaveCalls) (key : Bytes) (ks : Keys)
    → IsKey key
    → c.restricted ≡ done
    → (save_key c key ks).0 ≡ ok tt
    → load_key (seen ((save_key c key ks).1).live.target) (seen ((save_key c key ks).1).backup)
      ≡ some key
unfolding save_key
load_key-save_key c key ks k w h =
    let (live, backup) = save_in_dir-Held c c.dir_created key ks w h in
    ap₂ (λ (x y : Option File). load_key (seen x) (seen y)) live backup ∙ load-own key _ k
