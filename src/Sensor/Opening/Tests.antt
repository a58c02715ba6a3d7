-- ===== src/Sensor/Opening/Tests.antt =====
-- The search for the port and the handshake of pcside/daemon/src/sensor.rs at concrete inputs.
use linux_fingerprint_r.Prelude.{
  ◌*◌, ◌^◌, ◌≡◌, ◌⊎◌, refl, false, Option, some, none, [], ◌∷◌, ◌++◌, Bytes, codes, All, List, ok,
  err, starts_with, split_once, eq,
}
use linux_fingerprint_r.Disk.{Disk, done}
use linux_fingerprint_r.Sensor.{
  chunk, silence, expired, no_device, read_line, settle, trim_cr, weight,
}
use linux_fingerprint_r.Sensor.Opening.{
  find_port, timed_out, some_bytes, Handshake, sync, drain, await_pong, ping_once, ping_until,
  open_sensor, chosen,
}
use linux_fingerprint_r.Sensor.Opening.Finding.{Least, Unmatched, find_port-Least}
use linux_fingerprint_r.Sensor.Opening.Syncing.{Meets, Ready, open_sensor-Meets}
use linux_fingerprint_r.Storage.{name_le}

abbrev dev : List (Option Bytes)
dev =
    some (codes "ttyUSB0")
    ∷ none
    ∷ some (codes "ttyACM1")
    ∷ some (codes "ttyACM0")
    ∷ some (codes "tty1")
    ∷ []

finds_acm : find_port false dev dev ≡ ok (codes "/dev/ttyACM0")
unfolding find_port starts_with name_le
finds_acm = refl

find_port-Least_example :
    ((port : Bytes) × (find_port false dev dev ≡ ok port)
      × (Least (codes "ttyACM") dev port
          ⊎ (All (Unmatched (codes "ttyACM")) dev × Least (codes "ttyUSB") dev port)))
    ⊎ ((find_port false dev dev ≡ err no_device)
        × All (Unmatched (codes "ttyACM")) dev
        × All (Unmatched (codes "ttyUSB")) dev)
find_port-Least_example = find_port-Least dev dev

-- A cold start: a byte, silence, a first ping that is lost, and a pong after some noise.
abbrev cold : Handshake
cold = record {
  deadline = 8 * 10 ^ 9;
  drain_start = 0;
  rounds =
      record { began = 10; got = some_bytes; came_back = 20 }
      ∷ record { began = 30; got = timed_out; came_back = 400 * 10 ^ 6 }
      ∷ [];
  attempts =
      record { cleared = done; wrote = done; flushed = done; arrivals = silence ∷ expired ∷ [] }
      ∷ record {
        cleared = done;
        wrote = done;
        flushed = done;
        arrivals =
            chunk (codes "R503FP READY" ++ 13 ∷ 10 ∷ [])
            ∷ chunk (codes "OK pong" ++ 13 ∷ 10 ∷ [])
            ∷ [];
      }
      ∷ [];
}

syncs : sync (λ s. s) cold (codes "old") ≡ some (ok [])
unfolding sync drain ping_until ping_once await_pong read_line settle trim_cr split_once weight eq
syncs = refl

abbrev no_file : Disk
no_file = record { target = none; tmp = none }

open_sensor-Meets_example :
    Meets
      (Ready (λ s. s) (λ path. done) (chosen none (find_port false dev dev)) cold no_file)
      (open_sensor (λ s. s) (λ path. done) none (find_port false dev dev) cold [] no_file)
open_sensor-Meets_example =
    open_sensor-Meets (λ s. s) (λ path. done) none (find_port false dev dev) cold [] no_file
