-- ===== src/Program/Restart.antt =====
-- The start of the daemon, of pcside/daemon/src/main.rs, after a pairing of pcside/daemon/src/pairing.rs.
use linux_fingerprint_r.Prelude.{◌≡◌, Option, none, some, Bytes, Result, ok, ℕ}
use linux_fingerprint_r.Counter
use linux_fingerprint_r.Disk.{File}
use linux_fingerprint_r.Keystore.{Keys}
use linux_fingerprint_r.Keystore.Saving.{seen}
use linux_fingerprint_r.Program.{Args}
use linux_fingerprint_r.Program.Startup.{Sensing, Registry, start_sensor, start_daemon}
use linux_fingerprint_r.Tpm.Sealing.{Library}
use linux_fingerprint_r.Tpm.Sealing.Honest.{Honest}

-- What reading a file gives, where it is there.
abbrev pub reading : Option File → Option (Result ℕ Bytes)
reading none = none
reading (some f) = some (ok f.content)

module _ (L : Library) (T : Honest L) (w v : L.World) (a : Args) (sensing : Sensing)
    (r : Registry) where
  -- The daemon that starts on the files goes on with the key.
  abbrev pub StartsWith : Keys → Bytes → Type 0
  StartsWith ks key =
      start_daemon L a sensing r (reading ks.sealed.target) (seen ks.live.target) (seen ks.backup) v
      ≡ start_sensor a sensing r (some key)
