-- ===== src/Program/Tests.antt =====
-- The command line, the start and the watcher of pcside/daemon/src/main.rs at concrete inputs.
mod Start
use linux_fingerprint_r.Prelude.{
  trim_end, ◌≡◌, ◌⊎◌, inr, refl, true, false, none, some, [], ◌∷◌, ◌++◌, Bytes, codes, ok, err,
  length, eq, starts_with, trim, space_len,
}
use linux_fingerprint_r.Device.{DeviceState}
use linux_fingerprint_r.Disk.{done}
use linux_fingerprint_r.Keystore.Loading.{Unsealed}
use linux_fingerprint_r.Keystore.{tpm, KeyError, load_key_with_source}
use linux_fingerprint_r.Keystore.Saving.{seen}
use linux_fingerprint_r.Program.{
  Args, is_set, accepts, dispatch, do_reseal_policy, default_storage_path,
}
use linux_fingerprint_r.Program.Startup.{exits, Sensing, Registry, start_daemon}
use linux_fingerprint_r.Program.Startup.Sealed.{Fails, Serves, start_daemon-sealed}
use linux_fingerprint_r.Program.Watcher.{
  unreadable, changed, watch, on_signal, IsFree, IsReleased, watch-frees,
}
use linux_fingerprint_r.Tpm.Sealing.Tests.{accepting, sealed_file}

abbrev pub plain_args : Args
plain_args = record {
  session = false;
  port = none;
  storage = none;
  confidence = 80;
  pair = false;
  seal_tpm = false;
  seal_tpm_pcrs = none;
  unpair = false;
  status = false;
  resync = false;
  reseal_tpm = false;
  reseal_policy = false;
}

-- The word none, in any case and with spaces, is no list.
abbrev policy_args : Args
policy_args = record plain_args { reseal_policy = true; seal_tpm_pcrs = some (codes " None ") }

drops_policy : dispatch policy_args ≡ do_reseal_policy none
unfolding dispatch trim trim_end space_len eq
drops_policy = refl

refuses_two : accepts (record policy_args { pair = true }) ≡ false
unfolding accepts is_set
refuses_two = refl

session_path :
    default_storage_path none (some (codes "/home/mat")) true
    ≡ codes "/home/mat/.local/state/r503d/users.json"
unfolding default_storage_path
session_path = refl

abbrev pub sensing : Sensing
sensing = record {
  opened = λ key. ok tt;
  probed = λ key. ok (record { fw = codes "1.0"; capacity = 200; enrolled = 3 });
}

abbrev pub registry : Registry
registry = record {
  codec = record { encode = λ users. ok []; decode = λ text. ok [] };
  dir_created = done;
  file_stat = done;
  file_read = done;
  file_replaced = record { opened = done; wrote = done; partly = 0; synced = done; renamed = done };
  disk = record { target = none; tmp = none };
}

start_daemon-sealed_example :
    (((e : KeyError) × ((load_key_with_source accepting
            (some (ok sealed_file))
            (seen none)
            (seen none)
            0).0
          ≡ err e))
      × (start_daemon accepting plain_args sensing registry
            (some (ok sealed_file))
            (seen none)
            (seen none)
            0
          ≡ exits 78))
    ⊎ ((k : Bytes) × ((load_key_with_source accepting
            (some (ok sealed_file))
            (seen none)
            (seen none)
            0).0
          ≡ ok (some (k, tpm)))
        × (length k ≡ 16)
        × Unsealed accepting (ok sealed_file) 0 k
        × (Fails (
              start_daemon accepting plain_args sensing registry
                (some (ok sealed_file))
                (seen none)
                (seen none)
                0)
            ⊎ Serves plain_args sensing k (
                start_daemon accepting plain_args sensing registry
                  (some (ok sealed_file))
                  (seen none)
                  (seen none)
                  0)))
start_daemon-sealed_example =
    start_daemon-sealed accepting plain_args sensing registry (ok sealed_file) (seen none)
      (seen none) 0

abbrev client : Bytes
client = codes ":1.42"

abbrev claimed : DeviceState
claimed = record {
  claimed_by = some (codes "mat");
  claim_sender = some client;
  action = none;
  next_epoch = 0;
  finger_present = false;
  finger_needed = false;
}

is_unique : starts_with (codes ":") client ≡ true
unfolding starts_with
is_unique = refl

watch-frees_example :
    IsFree client
      (watch ((unreadable ∷ []) ++ changed client (some client) (some []) true ∷ []) claimed)
    × IsReleased client
        (watch (unreadable ∷ []) claimed)
        (on_signal (changed client (some client) (some []) true) (watch (unreadable ∷ []) claimed))
        (watch ((unreadable ∷ []) ++ changed client (some client) (some []) true ∷ []) claimed)
watch-frees_example =
    watch-frees client b':' (codes "1.42") (some []) (unreadable ∷ []) [] claimed is_unique
      (inr refl)
