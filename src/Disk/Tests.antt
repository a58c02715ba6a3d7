-- ===== src/Disk/Tests.antt =====
-- A replacement that fails half-way, as in pcside/daemon/src/storage.rs.
use linux_fingerprint_r.Prelude.{some, none, codes}
use linux_fingerprint_r.Disk.{Disk, Trial, done, failed, private_mode, replace_file}
use linux_fingerprint_r.Disk.Atomic.{Replaced, replace_file-atomic}

abbrev half_written : Trial
half_written = record {
  opened = done;
  wrote = failed 28;
  partly = 3;
  synced = done;
  renamed = done;
}

abbrev old_file : Disk
old_file = record {
  target = some (record { content = codes "old"; mode = private_mode });
  tmp = none;
}

replace_file-atomic_example :
    Replaced (codes "newer") old_file (replace_file half_written (codes "newer") old_file)
replace_file-atomic_example = replace_file-atomic half_written (codes "newer") old_file
