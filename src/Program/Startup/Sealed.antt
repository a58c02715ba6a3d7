-- ===== src/Program/Startup/Sealed.antt =====
-- The start of the daemon, pcside/daemon/src/main.rs, while the file of a sealed key is there.
use linux_fingerprint_r.Prelude.{
  ℕ, ◌≡◌, ◌⊎◌, refl, sym, ap, inl, inr, Option, none, some, Bytes, Result, ok, err, Done, length,
  subst,
}
use linux_fingerprint_r.Keystore.{KeySource, tpm, KeyError, Seen, load_key_with_source}
use linux_fingerprint_r.Keystore.Loading.{Unsealed, load_key_with_source-sealed}
use linux_fingerprint_r.Program.{Args}
use linux_fingerprint_r.Program.Startup.{
  StartError, Started, exits, fails, serves, Sensing, Registry, spawn_opened, spawn, serve_storage,
  with_info, start_sensor, start_with, start_daemon,
}
use linux_fingerprint_r.Sensor.{SensorError}
use linux_fingerprint_r.Sensor.Commands.{SensorInfo}
use linux_fingerprint_r.Storage.{Storage, StorageError, open_registry}
use linux_fingerprint_r.Storage.Opening.{open_registry-capacity}
use linux_fingerprint_r.Tpm.Sealing.{Library}

-- The device is served with this key and the threshold of the command line, on a sensor that has opened with
-- the key, and with a registry for as many slots as the sensor has said.
abbrev pub Serves : Args → Sensing → Bytes → Started → Type 0
Serves a sensing k started =
    (i : SensorInfo) × (st : Storage) × (started ≡ serves (some k) st a.confidence)
    × (sensing.opened (some k) ≡ ok tt)
    × (sensing.probed (some k) ≡ ok i)
    × (st.capacity ≡ i.capacity)

abbrev pub Fails : Started → Type 0
Fails started = (e : StartError) × (started ≡ fails e)

serve_storage-cases :
    (a : Args) (k : Bytes) (r : Result StorageError Storage)
    → Fails (serve_storage a (some k) r)
      ⊎ ((st : Storage) × (r ≡ ok st)
          × (serve_storage a (some k) r ≡ serves (some k) st a.confidence))
unfolding serve_storage
serve_storage-cases a k (err e) = inl (_, refl)
serve_storage-cases a k (ok st) = inr (st, refl, refl)

with_info-cases :
    (a : Args) (sensing : Sensing) (r : Registry) (k : Bytes)
    (probed : Result SensorError SensorInfo) (opened : Done SensorError)
    → sensing.probed (some k) ≡ probed
    → sensing.opened (some k) ≡ opened
    → Fails (with_info a r (some k) (spawn_opened probed opened))
      ⊎ Serves a sensing k (with_info a r (some k) (spawn_opened probed opened))
unfolding with_info spawn_opened
with_info-cases a sensing r k probed (err e) p o = inl (_, refl)
with_info-cases a sensing r k (err e) (ok _) p o = inl (_, refl)
with_info-cases a sensing r k (ok i) (ok _) p o =
    elim (serve_storage-cases a k
      (open_registry r.codec r.dir_created r.file_stat r.file_read r.file_replaced i.capacity
        r.disk).0) [
          | inl f ↦ inl f
          | inr (st, opened, served) ↦ inr (
            i,
            st,
            served,
            o,
            p,
            open_registry-capacity r.codec r.dir_created r.file_stat r.file_read r.file_replaced
                i.capacity r.disk st opened,
          )
        ]

start_sensor-cases :
    (a : Args) (sensing : Sensing) (r : Registry) (k : Bytes)
    → Fails (start_sensor a sensing r (some k))
      ⊎ Serves a sensing k (start_sensor a sensing r (some k))
unfolding start_sensor spawn
start_sensor-cases a sensing r k = with_info-cases a sensing r k _ _ refl refl

start_with-sealed :
    (a : Args) (sensing : Sensing) (r : Registry)
    (load : Result KeyError (Option (Bytes × KeySource))) (From : Bytes → Type 0)
    → ((key : Option (Bytes × KeySource))
        → load ≡ ok key
        → (k : Bytes) × (key ≡ some (k, tpm)) × (length k ≡ 16) × From k)
    → (((e : KeyError) × (load ≡ err e)) × (start_with a sensing r load ≡ exits 78))
      ⊎ ((k : Bytes) × (load ≡ ok (some (k, tpm)))
          × (length k ≡ 16)
          × From k
          × (start_with a sensing r load ≡ start_sensor a sensing r (some k)))
unfolding start_with
start_with-sealed a sensing r (err e) From h = inl ((e, refl), refl)
start_with-sealed a sensing r (ok none) From h =
    let (k, same, _, _) = h none refl in absurd (cc same)
start_with-sealed a sensing r (ok (some (k, source))) From h =
    let (j, same, long, from) = h (some (k, source)) refl in
    inr (j, ap ok same, long, from, cc same)

-- While the file of a sealed key is there, the daemon exits with 78 where the key cannot be loaded; else it
-- starts with the 16 bytes that the TPM has unsealed, or fails: it never serves the sensor without a key or
-- with a key from a plain file. A device that is served has the sensor's number of slots and the
-- threshold of the command line.
pub start_daemon-sealed :
    (L : Library) (a : Args) (sensing : Sensing) (r : Registry) (read : Result ℕ Bytes)
    (live backup : Seen) (w : L.World)
    → (((e : KeyError) × ((load_key_with_source L (some read) live backup w).0 ≡ err e))
        × (start_daemon L a sensing r (some read) live backup w ≡ exits 78))
      ⊎ ((k : Bytes) × ((load_key_with_source L (some read) live backup w).0 ≡ ok (some (k, tpm)))
          × (length k ≡ 16)
          × Unsealed L read w k
          × (Fails (start_daemon L a sensing r (some read) live backup w)
              ⊎ Serves a sensing k (start_daemon L a sensing r (some read) live backup w)))
unfolding start_daemon
start_daemon-sealed L a sensing r read live backup w =
    let load = (load_key_with_source L (some read) live backup w).0 in
    elim (start_with-sealed a sensing r load (Unsealed L read w)
      (load_key_with_source-sealed L read live backup w)) [
        | inl out ↦ inl out
        | inr (k, loaded, long, unsealed, same) ↦ inr (
          k,
          loaded,
          long,
          unsealed,
          subst (λ (t : Started). Fails t ⊎ Serves a sensing k t) (sym same)
              (start_sensor-cases a sensing r k),
        )
      ]
