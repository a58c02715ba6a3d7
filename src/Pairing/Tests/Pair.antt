-- ===== src/Pairing/Tests/Pair.antt =====
-- The pairing of pcside/daemon/src/pairing.rs at concrete inputs.
use linux_fingerprint_r.Prelude.{
  ℕ, ◌≡◌, refl, Bool, true, false, none, [], ◌∷◌, Bytes, codes, Result, ok, strip_prefix,
  split_once, split_whitespace, eq, space_len, ok_injective, subst, arith,
}
use linux_fingerprint_r.Prelude.Actions.{and_then}
use linux_fingerprint_r.Counter
use linux_fingerprint_r.Counter.Tests.{symbols, symbols-IsFaithful}
use linux_fingerprint_r.Decimal.{parse}
use linux_fingerprint_r.Disk.{
  done, replace_file, open_tmp, write_tmp, sync_tmp, rename_tmp, created_mode,
}
use linux_fingerprint_r.Keystore
use linux_fingerprint_r.Keystore.{Keys, SaveCalls}
use linux_fingerprint_r.Keystore.Loading.{IsKey}
use linux_fingerprint_r.Pairing
use linux_fingerprint_r.Pairing.{parse_status}
use linux_fingerprint_r.Pairing.Gate.{IsGated, pairing-IsGated}
use linux_fingerprint_r.Pairing.Pair
use linux_fingerprint_r.Pairing.Pair.{
  Station, Nano, PairCalls, PurgeCalls, run_pair, run_reseal_tpm,
}
use linux_fingerprint_r.Pairing.Paired.{IsSmooth, after, Accepted, Ready, run_pair-Ready}
use linux_fingerprint_r.Pairing.Tests.{status_line, unpaired_line, smooth, lost, removing}
use linux_fingerprint_r.Pairing.Unpairing.{Says}
use linux_fingerprint_r.Tpm.Sealing.Tests.{accepting, key}

abbrev pub calls : PairCalls
calls = record {
  tpm_present = true;
  port = ok tt;
  generated = ok key;
  marker_removed = done;
  key_saved = record {
    dir_created = done;
    replaced = smooth;
    copied = done;
    left_of_backup = none;
    restricted = done;
  };
  key_sealed = record {
    seal_dir_created = done;
    blob_replaced = smooth;
    live_removed = removing;
    backup_removed = removing;
  };
  fresh_dir = done;
  fresh_saved = smooth;
}

abbrev purging : PurgeCalls
purging = record {
  probed = ok tt;
  live_purged = removing;
  backup_purged = removing;
  sealed_purged = done;
  state_purged = done;
}

-- A new host with the marker.
abbrev pub station : Station
station = record {
  host = record { keys = record { live = lost; backup = none; sealed = lost }; state = lost };
  opt_in = true;
  sent = [];
}

-- A firmware that takes a key: it is unpaired, agrees, and is paired.
abbrev pub willing : Nano
willing [] = ok []
willing (e ∷ []) = ok unpaired_line
willing (e ∷ f ∷ []) = ok (codes "OK paired")
willing (e ∷ f ∷ g ∷ sent) = ok status_line

pairs : (run_pair accepting 0 calls symbols willing false none station).0 ≡ ok tt
unfolding run_pair Pair.allow_pair_present Pair.check_opt_in Pair.check_tpm Pair.query_status
    Pair.link_cmd Pair.check_fresh Pair.remove_allow_pair Pair.remove_marker Pair.send_key
    Pair.check_accepted Pair.check_committed Pair.store_key Pair.save_plain Pair.put_keys
    Pair.init_state and_then parse_status strip_prefix split_whitespace space_len split_once eq
    parse Pairing.reported_save Counter.save replace_file open_tmp write_tmp sync_tmp rename_tmp
    created_mode Keystore.save_key Keystore.save_in_dir Keystore.after_replacement
    Keystore.copy_backup Keystore.restrict
pairs = refl

pub calls-IsSmooth : IsSmooth calls
calls-IsSmooth = record { restricted = refl; live_removed = refl; backup_removed = refl }

pub generated-IsKey : IsKey key
generated-IsKey = (refl, omega arith)

pairing-IsGated_example :
    IsGated (run_pair accepting 0 calls symbols willing true none station).1
    × IsGated (run_reseal_tpm accepting 0 calls purging symbols willing none station).1
pairing-IsGated_example =
    pairing-IsGated accepting 0 calls purging symbols willing true none station tt

run_pair-Ready_example :
    (k : Bytes) × (◌≡◌ {A = Result ℕ Bytes} (ok key) (ok k))
    × (◌≡◌ {A = Bool} true true)
    × Says (willing (after (codes "status") station)) false
    × Accepted willing k (record station { opt_in = false; sent = after (codes "status") station })
    × Ready accepting 0 calls calls-IsSmooth symbols false none k
        (run_pair accepting 0 calls symbols willing false none station).1.host
run_pair-Ready_example =
    run_pair-Ready accepting 0 calls calls-IsSmooth symbols willing false none station
      symbols-IsFaithful tt (λ k e. subst IsKey (ok_injective e) generated-IsKey) pairs
