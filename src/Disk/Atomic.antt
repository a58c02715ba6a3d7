-- ===== src/Disk/Atomic.antt =====
-- Whatever happens to the calls that replace a file, the file is whole.
use linux_fingerprint_r.Prelude.{
  Option, ℕ, Done, ◌≡◌, refl, ◌⊎◌, inl, inr, some, none, Bytes, ok, err, [],
}
use linux_fingerprint_r.Disk.{
  File, Disk, Outcome, done, failed, Trial, created_mode, private_mode, with_tmp, rename_tmp,
  sync_tmp, write_tmp, open_tmp, replace_file,
}

-- The two ends a replacement can have.
abbrev pub Replaced : Bytes → Disk → Done ℕ × Disk → Type 0
Replaced bytes d r =
    ((r.0 ≡ ok tt)
      × ((r.1).target ≡ some (record { content = bytes; mode = created_mode d.tmp private_mode }))
      × ((r.1).tmp ≡ none))
    ⊎ ((e : ℕ) × (r.0 ≡ err e) × ((r.1).target ≡ d.target))

abbrev renew : Bytes → Disk → Disk
renew bytes d = with_tmp d bytes (created_mode d.tmp private_mode)

rename_tmp-Replaced :
    (r : Outcome) (bytes : Bytes) (d : Disk) → Replaced bytes d (rename_tmp r (renew bytes d))
unfolding rename_tmp
rename_tmp-Replaced (failed e) bytes d = inr (e, refl, refl)
rename_tmp-Replaced done bytes d = inl (refl, refl, refl)

sync_tmp-Replaced :
    (s r : Outcome) (bytes : Bytes) (d : Disk) → Replaced bytes d (sync_tmp s r (renew bytes d))
unfolding sync_tmp
sync_tmp-Replaced (failed e) r bytes d = inr (e, refl, refl)
sync_tmp-Replaced done r bytes d = rename_tmp-Replaced r bytes d

write_tmp-Replaced :
    (t : Trial) (w : Outcome) (bytes : Bytes) (d : Disk)
    → Replaced bytes d (write_tmp t w (created_mode d.tmp private_mode) bytes (renew [] d))
unfolding write_tmp
write_tmp-Replaced t (failed e) bytes d = inr (e, refl, refl)
write_tmp-Replaced t done bytes d = sync_tmp-Replaced t.synced t.renamed bytes d

open_tmp-Replaced :
    (t : Trial) (o : Outcome) (bytes : Bytes) (d : Disk) → Replaced bytes d (open_tmp t o bytes d)
unfolding open_tmp
open_tmp-Replaced t (failed e) bytes d = inr (e, refl, refl)
open_tmp-Replaced t done bytes d = write_tmp-Replaced t t.wrote bytes d

-- Whichever of the calls fails, and however much a failing write has written, either the replacement
-- returns an error and the file is what it was, or it returns no error, the file has the new content,
-- whole, with the mode of a new file unless a temporary file was there, and no temporary file is left.
pub replace_file-atomic :
    (t : Trial) (bytes : Bytes) (d : Disk) → Replaced bytes d (replace_file t bytes d)
unfolding replace_file
replace_file-atomic t bytes d = open_tmp-Replaced t t.opened bytes d

-- The temporary file, if there is one, has the mode of a file that the daemon created.
abbrev pub IsPrivate : Option File → Type 0
IsPrivate none = Unit
IsPrivate (some f) = f.mode ≡ private_mode

pub created_mode-IsPrivate :
    (tmp : Option File) → IsPrivate tmp → created_mode tmp private_mode ≡ private_mode
unfolding created_mode
created_mode-IsPrivate none h = refl
created_mode-IsPrivate (some f) h = h

sync_tmp-IsPrivate :
    (s r : Outcome) (d : Disk) → IsPrivate d.tmp → IsPrivate ((sync_tmp s r d).1).tmp
unfolding sync_tmp rename_tmp
sync_tmp-IsPrivate (failed e) r d h = h
sync_tmp-IsPrivate done (failed e) d h = h
sync_tmp-IsPrivate done done d h = tt

write_tmp-IsPrivate :
    (t : Trial) (w : Outcome) (m : ℕ) (bytes : Bytes) (d : Disk)
    → m ≡ private_mode
    → IsPrivate ((write_tmp t w m bytes d).1).tmp
unfolding write_tmp
write_tmp-IsPrivate t (failed e) m bytes d h = h
write_tmp-IsPrivate t done m bytes d h =
    sync_tmp-IsPrivate t.synced t.renamed (with_tmp d bytes m) h

open_tmp-IsPrivate :
    (t : Trial) (o : Outcome) (bytes : Bytes) (d : Disk)
    → IsPrivate d.tmp
    → IsPrivate ((open_tmp t o bytes d).1).tmp
unfolding open_tmp
open_tmp-IsPrivate t (failed e) bytes d h = h
open_tmp-IsPrivate t done bytes d h =
    write_tmp-IsPrivate t t.wrote _ bytes _ (created_mode-IsPrivate d.tmp h)

pub replace_file-IsPrivate :
    (t : Trial) (bytes : Bytes) (d : Disk)
    → IsPrivate d.tmp
    → IsPrivate ((replace_file t bytes d).1).tmp
unfolding replace_file
replace_file-IsPrivate t bytes d h = open_tmp-IsPrivate t t.opened bytes d h
