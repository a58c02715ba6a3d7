-- ===== src/Disk.antt =====
-- The way pcside/daemon/src/storage.rs and state.rs replace a file: a temporary file beside it is written,
-- synchronised and renamed. A system call does its work or fails; a process that stops before a call
-- leaves the files as one whose call failed. A failed write has written some first bytes.
mod Tests
pub mod Atomic
use linux_fingerprint_r.Prelude.{
  ℕ, ◌*◌, Done, ◌≡◌, Option, none, some, [], Bytes, Result, ok, err, take,
}

pub record File : Type 0 where
  pub content : Bytes
  pub mode : ℕ

-- The file itself, and the temporary file.
pub record Disk : Type 0 where
  pub target : Option File
  pub tmp : Option File

-- What a system call does, with the error's number.
pub data Outcome : Type 0 where
  done : Outcome
  failed : ℕ → Outcome

-- What the calls of one replacement do, and how many bytes a failing write has written.
pub record Trial : Type 0 where
  pub opened : Outcome
  pub wrote : Outcome
  pub partly : ℕ
  pub synced : Outcome
  pub renamed : Outcome

-- `mode(0o600)` counts where the call creates the file; one that is there keeps its own.
unfoldable pub created_mode : Option File → ℕ → ℕ
created_mode none m = m
created_mode (some f) m = f.mode

abbrev pub private_mode : ℕ
private_mode = 6 * 8 * 8

abbrev pub with_tmp : Disk → Bytes → ℕ → Disk
with_tmp d content m = record d { tmp = some (record { content = content; mode = m }) }

unfoldable pub rename_tmp : Outcome → Disk → Done ℕ × Disk
rename_tmp (failed e) d = (err e, d)
rename_tmp done d = (ok tt, record { target = d.tmp; tmp = none })

unfoldable pub sync_tmp : Outcome → Outcome → Disk → Done ℕ × Disk
sync_tmp (failed e) r d = (err e, d)
sync_tmp done r d = rename_tmp r d

unfoldable pub write_tmp : Trial → Outcome → ℕ → Bytes → Disk → Done ℕ × Disk
write_tmp t (failed e) m bytes d = (err e, with_tmp d (take t.partly bytes) m)
write_tmp t done m bytes d = sync_tmp t.synced t.renamed (with_tmp d bytes m)

unfoldable pub open_tmp : Trial → Outcome → Bytes → Disk → Done ℕ × Disk
open_tmp t (failed e) bytes d = (err e, d)
open_tmp t done bytes d =
    let m = created_mode d.tmp private_mode in write_tmp t t.wrote m bytes (with_tmp d [] m)

unfoldable pub replace_file : Trial → Bytes → Disk → Done ℕ × Disk
replace_file t bytes d = open_tmp t t.opened bytes d
