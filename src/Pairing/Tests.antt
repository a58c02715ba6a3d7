-- ===== src/Pairing/Tests.antt =====
-- The recovery, the resealing and the unpairing of pcside/daemon/src/pairing.rs at concrete inputs.
mod Answers
pub mod Pair
use linux_fingerprint_r.Prelude.{
  ℕ, ◌+◌, false, ◌<◌, ◌≡◌, ◌⊎◌, refl, true, Option, none, some, Bytes, codes, Result, ok,
  strip_prefix, split_once, split_whitespace, eq, space_len,
}
use linux_fingerprint_r.Counter
use linux_fingerprint_r.Counter.Saving.{Holds}
use linux_fingerprint_r.Disk.{
  Disk, done, Trial, replace_file, open_tmp, write_tmp, sync_tmp, rename_tmp, created_mode,
}
use linux_fingerprint_r.Decimal.{parse}
use linux_fingerprint_r.Counter.Tests.{symbols, symbols-IsFaithful}
use linux_fingerprint_r.Framing.{counter_ceiling, encode_response}
use linux_fingerprint_r.Keystore.{KeyError, KeySource, tpm, Keys}
use linux_fingerprint_r.Keystore.Removing.{RemoveCalls}
use linux_fingerprint_r.Keystore.Saving.{seen}
use linux_fingerprint_r.Pairing
use linux_fingerprint_r.Pairing.{FirmwareStatus, parse_status, run_resync}
use linux_fingerprint_r.Pairing.Resync.{Reported, run_resync-Reported}
use linux_fingerprint_r.Pairing.Policy.{ResealCalls, run_reseal_policy}
use linux_fingerprint_r.Pairing.Resealing.{Keeps, run_reseal_policy-Keeps}
use linux_fingerprint_r.Pairing.Unpair.{Host, UnpairCalls, run_unpair}
use linux_fingerprint_r.Pairing.Unpairing.{Kept, Says, Agreed, run_unpair-Agreed}
use linux_fingerprint_r.Tpm.Sealing.Tests.{accepting, key, sealed_file}

abbrev status_line : Bytes
status_line = codes "OK paired=true counter=41 fmt=2 fw=1.0"

abbrev smooth : Trial
smooth = record { opened = done; wrote = done; partly = 0; synced = done; renamed = done }

abbrev lost : Disk
lost = record { target = none; tmp = none }

reads_status :
    parse_status status_line
    ≡ ok (record { paired = true; counter = 41; fmt = 2; fw = codes "1.0" })
unfolding parse_status strip_prefix split_whitespace space_len split_once eq parse
reads_status = refl

resynced :
    (run_resync symbols (ok (some (key, tpm))) (ok status_line) done done done smooth lost).0
    ≡ ok tt
unfolding run_resync Pairing.write_counter Pairing.new_counter parse_status strip_prefix
    split_whitespace space_len split_once eq parse Pairing.check_paired Pairing.resync_target
    Counter.load Pairing.reported_save Counter.save replace_file open_tmp write_tmp sync_tmp
    rename_tmp created_mode
resynced = refl

run_resync-Reported_example :
    (n : ℕ) × Reported (ok status_line) n
    × (n + 1 < counter_ceiling)
    × Holds symbols
        (run_resync symbols (ok (some (key, tpm))) (ok status_line) done done done smooth lost).1
        (n + 1)
run_resync-Reported_example =
    run_resync-Reported symbols (ok (some (key, tpm))) (ok status_line) done done done smooth lost
      symbols-IsFaithful tt resynced

abbrev removing : RemoveCalls
removing = record {
  made_writable = done;
  opened_to_shred = done;
  overwritten = done;
  partly = 0;
  removed = done;
}

abbrev resealing : ResealCalls
resealing = record {
  policy_dir_created = done;
  policy_replaced = smooth;
  plain_removed = removing;
  plain_backup_removed = removing;
}

abbrev sealed_keys : Keys
sealed_keys = record {
  live = lost;
  backup = none;
  sealed = record { target = some (record { content = sealed_file; mode = 384 }); tmp = none };
}

run_reseal_policy-Keeps_example :
    ((run_reseal_policy accepting resealing
        (some (ok sealed_file))
        (ok sealed_file)
        (seen none)
        (seen none)
        none
        sealed_keys
        0).1.sealed.target
      ≡ sealed_keys.sealed.target)
    ⊎ ((blob : Bytes) × (mode : ℕ) × ((run_reseal_policy accepting resealing
            (some (ok sealed_file))
            (ok sealed_file)
            (seen none)
            (seen none)
            none
            sealed_keys
            0).1.sealed.target
          ≡ some (record { content = blob; mode = mode }))
        × Keeps accepting (some (ok sealed_file)) (seen none) (seen none) 0 blob)
run_reseal_policy-Keeps_example =
    run_reseal_policy-Keeps accepting resealing (some (ok sealed_file)) (ok sealed_file) (seen none)
      (seen none) none sealed_keys 0

abbrev unpairing : UnpairCalls
unpairing = record {
  state_stat = done;
  state_read = done;
  state_dir = done;
  state_saved = smooth;
  live_gone = removing;
  backup_gone = removing;
  sealed_gone = done;
  state_gone = done;
}

abbrev host : Host
host = record { keys = sealed_keys; state = lost }

-- A firmware that agrees to the first command.
abbrev agreeing : Host → Bytes → Result ℕ Bytes
agreeing h frame = ok (encode_response key 1 0 (codes "OK unpaired"))

abbrev unpaired_line : Bytes
unpaired_line = codes "OK paired=false counter=1 fmt=2 fw=1.0"

run_unpair-Agreed_example :
    Kept host (
      run_unpair symbols unpairing agreeing
        (ok unpaired_line)
        (ok (some (key, tpm)))
        (ok status_line)
        host)
    ⊎ ((k : Bytes) × (source : KeySource) × (◌≡◌ {A = Result KeyError (Option (Bytes × KeySource))}
          (ok (some (key, tpm)))
          (ok (some (k, source))))
        × (Says (ok status_line) false
            ⊎ (Says (ok status_line) true
                × Agreed symbols unpairing agreeing (ok unpaired_line) k host)))
run_unpair-Agreed_example =
    run_unpair-Agreed symbols unpairing agreeing (ok unpaired_line) (ok (some (key, tpm)))
      (ok status_line) host
