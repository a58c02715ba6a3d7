-- ===== src/Program/Startup.antt =====
-- The start of the daemon in pcside/daemon/src/main.rs and `SensorActor::spawn` of sensor_actor.rs, up to the
-- registration on the bus. Opening the sensor and asking it for its data are arguments, which depend on
-- the key.
pub mod Sealed
use linux_fingerprint_r.Prelude.{
  ℕ, ◌≡◌, ◌⊎◌, refl, sym, ap, ◌∙◌, inl, inr, Option, none, some, Bytes, Result, ok, err, Done,
  length, map,
}
use linux_fingerprint_r.Disk.{Disk, Outcome, Trial}
use linux_fingerprint_r.Keystore.{KeySource, tpm, KeyError, Seen, load_key_with_source}
use linux_fingerprint_r.Keystore.Loading.{load_key_with_source-sealed}
use linux_fingerprint_r.Program.{Args, default_storage_path}
use linux_fingerprint_r.Sensor.{SensorError}
use linux_fingerprint_r.Sensor.Commands.{SensorInfo}
use linux_fingerprint_r.Storage.{Codec, Storage, StorageError, open_registry}
use linux_fingerprint_r.Tpm.Sealing.{Library}

pub data StartError : Type 0 where
  sensor_open info : SensorError → StartError
  opening_storage : StorageError → StartError

-- How a start ends: with an exit code, with an error, or with the parts of the device.
pub data Started : Type 0 where
  exits : ℕ → Started
  fails : StartError → Started
  serves : Option Bytes → Storage → ℕ → Started

-- What the sensor does with a key: the opening, and the answer to the first `info`.
pub record Sensing : Type 0 where
  pub opened : Option Bytes → Done SensorError
  pub probed : Option Bytes → Result SensorError SensorInfo

unfoldable spawn_opened :
    Result SensorError SensorInfo → Done SensorError → Result StartError SensorInfo
spawn_opened probed (err e) = err (sensor_open e)
spawn_opened (err e) (ok _) = err (info e)
spawn_opened (ok i) (ok _) = ok i

unfoldable pub spawn : Sensing → Option Bytes → Result StartError SensorInfo
unfolding spawn_opened
spawn sensing key = spawn_opened (sensing.probed key) (sensing.opened key)

-- What the calls of `Storage::open` do, and the file of the registry.
pub record Registry : Type 0 where
  pub codec : Codec
  pub dir_created : Outcome
  pub file_stat : Outcome
  pub file_read : Outcome
  pub file_replaced : Trial
  pub disk : Disk

unfoldable serve_storage : Args → Option Bytes → Result StorageError Storage → Started
serve_storage a key (err e) = fails (opening_storage e)
serve_storage a key (ok storage) = serves key storage a.confidence

unfoldable with_info : Args → Registry → Option Bytes → Result StartError SensorInfo → Started
unfolding serve_storage
with_info a r key (err e) = fails e
with_info a r key (ok i) =
    serve_storage a key
      (open_registry r.codec r.dir_created r.file_stat r.file_read r.file_replaced i.capacity
        r.disk).0

unfoldable pub start_sensor : Args → Sensing → Registry → Option Bytes → Started
unfolding with_info
start_sensor a sensing r key = with_info a r key (spawn sensing key)

-- Exit code 78: systemd does not start the daemon again.
unfoldable pub start_with :
    Args → Sensing → Registry → Result KeyError (Option (Bytes × KeySource)) → Started
start_with a sensing r (ok (some (k, source))) = start_sensor a sensing r (some k)
start_with a sensing r (ok none) = start_sensor a sensing r none
start_with a sensing r (err e) = exits 78

module _ (L : Library) where
  unfoldable pub start_daemon :
      Args → Sensing → Registry → Option (Result ℕ Bytes) → Seen → Seen → L.World → Started
  start_daemon a sensing r sealed live backup w =
      start_with a sensing r (load_key_with_source L sealed live backup w).0
