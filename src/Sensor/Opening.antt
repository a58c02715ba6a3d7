-- ===== src/Sensor/Opening.antt =====
-- How pcside/daemon/src/sensor.rs finds and opens the port and meets the firmware: find_port, open and sync.
-- The clock is outside: a round of the draining has the times at which it began and at which its read came
-- back, and where the list of attempts ends the deadline has passed. Times are in nanoseconds.
mod Tests
pub mod Finding
pub mod Lines
pub mod Syncing
use linux_fingerprint_r.Prelude.{
  ℕ, zero, suc, ◌+◌, ◌-◌, ◌*◌, ◌^◌, Bool, true, false, ◌&&◌, Option, none, some, List, [], ◌∷◌,
  ◌++◌, Bytes, codes, eq, length, leb, ltb, starts_with, Result, ok, err, Done, if◌then◌else◌,
}
use linux_fingerprint_r.Disk.{Disk, Outcome, done, failed}
use linux_fingerprint_r.Sensor.{
  SensorError, io, timeout, no_device, open_failed, Arrival, Reading, read_line, weight, R503,
}
use linux_fingerprint_r.Storage.{name_le}

-- The directory entries whose names are text; a name that is none is passed over. Where the directory cannot be
-- read there are no entries.
matching : Bytes → List (Option Bytes) → List Bytes
matching pattern [] = []
matching pattern (none ∷ entries) = matching pattern entries
matching pattern (some name ∷ entries) =
    let rest = matching pattern entries in if starts_with pattern name then name ∷ rest else rest

-- The first of the sorted matches is the least: no name holds a slash, so the paths are in the order of the names.
least : Bytes → List Bytes → Bytes
least name [] = name
least name (other ∷ names) = least (if name_le name other then name else other) names

first_match : List Bytes → Option Bytes
first_match [] = none
first_match (name ∷ names) = some (codes "/dev/" ++ least name names)

or_match : Option Bytes → Option Bytes → Result SensorError Bytes
or_match (some port) next = ok port
or_match none (some port) = ok port
or_match none none = err no_device

-- Whether /dev/r503 exists, and the entries that the directory has for each of the two patterns.
unfoldable pub find_port :
    Bool → List (Option Bytes) → List (Option Bytes) → Result SensorError Bytes
unfolding matching least first_match or_match
find_port true acm usb = ok (codes "/dev/r503")
find_port false acm usb =
    or_match (first_match (matching (codes "ttyACM") acm))
      (first_match (matching (codes "ttyUSB") usb))

-- What one read of the draining gives.
pub data Drained : Type 0 where
  nothing timed_out : Drained
  some_bytes : Drained
  broke : ℕ → Drained

pub record Round : Type 0 where
  pub began : ℕ
  pub got : Drained
  pub came_back : ℕ

abbrev pub first_byte_grace : ℕ
first_byte_grace = 800 * 10 ^ 6

abbrev pub silence_after_byte : ℕ
silence_after_byte = 300 * 10 ^ 6

-- No byte has come, and the grace is over.
is_idle : ℕ → ℕ → Option ℕ → Bool
is_idle start now none = ltb first_byte_grace (now - start)
is_idle start now (some t) = false

has_settled : ℕ → Option ℕ → Bool
has_settled now none = false
has_settled now (some t) = ltb silence_after_byte (now - t)

-- `rest` is the loop's next round, with the time of the last byte.
after_read : (Option ℕ → Done SensorError) → Option ℕ → ℕ → Drained → Done SensorError
unfolding has_settled
after_read rest last now nothing = rest last
after_read rest last now some_bytes = rest (some now)
after_read rest last now timed_out = if has_settled now last then ok tt else rest last
after_read rest last now (broke e) = err (io e)

unfoldable pub drain : ℕ → ℕ → List Round → Option ℕ → Done SensorError
unfolding is_idle after_read
drain deadline start [] last = ok tt
drain deadline start (r ∷ rs) last =
    let next = after_read (drain deadline start rs) last r.came_back r.got in
    if leb deadline r.began then ok tt else if is_idle start r.began last then ok tt else next

-- What one attempt meets: the calls before the answers, and what is read then.
pub record Attempt : Type 0 where
  pub cleared : Outcome
  pub wrote : Outcome
  pub flushed : Outcome
  pub arrivals : List Arrival

abbrev pub pong : Bytes
pong = codes "OK pong"

-- What an attempt gives: whether a pong has come, and the driver's buffer, which is cleared at a pong.
abbrev pub Ponged : Type 0
Ponged = Option (Result SensorError (Bool × Bytes))

-- With fuel; `none` means that the fuel ran out.
on_line : (Bytes → List Arrival → Ponged) → Reading → Ponged
on_line loop (err e, rx, as') = some (err e)
on_line loop (ok none, rx, as') = some (ok (false, rx))
on_line loop (ok (some l), rx, as') =
    let rest = loop rx as' in if eq l pong then some (ok (true, [])) else rest

unfoldable pub await_pong : (Bytes → Bytes) → ℕ → Bytes → List Arrival → Ponged
unfolding on_line
await_pong lossy zero rx as' = none
await_pong lossy (suc fuel) rx as' = on_line (await_pong lossy fuel) (read_line lossy rx as')

listen : (Bytes → Bytes) → Bytes → List Arrival → Outcome → Ponged
listen lossy rx as' (failed e) = some (err (io e))
listen lossy rx as' done = await_pong lossy (suc (length rx + weight as')) rx as'

write_ping : (Bytes → Bytes) → Bytes → Attempt → Outcome → Ponged
unfolding listen
write_ping lossy rx a (failed e) = some (err (io e))
write_ping lossy rx a done = listen lossy rx a.arrivals a.flushed

clear_queue : (Bytes → Bytes) → Bytes → Attempt → Outcome → Ponged
unfolding write_ping
clear_queue lossy rx a (failed e) = some (err (io e))
clear_queue lossy rx a done = write_ping lossy rx a a.wrote

-- One attempt, with what the buffer still holds, which is cleared first.
unfoldable pub ping_once : (Bytes → Bytes) → Bytes → Attempt → Ponged
unfolding clear_queue
ping_once lossy rx a = clear_queue lossy [] a a.cleared

after_ping :
    Ponged → (Bytes → Option (Result SensorError Bytes)) → Option (Result SensorError Bytes)
after_ping none next = none
after_ping (some (err e)) next = some (err e)
after_ping (some (ok (true, rx))) next = some (ok rx)
after_ping (some (ok (false, rx))) next = next rx

unfoldable pub ping_until :
    (Bytes → Bytes) → List Attempt → Bytes → Option (Result SensorError Bytes)
unfolding after_ping
ping_until lossy [] rx = some (err (timeout (codes "sync")))
ping_until lossy (a ∷ attempts) rx = after_ping (ping_once lossy rx a) (ping_until lossy attempts)

-- What the handshake meets.
pub record Handshake : Type 0 where
  pub deadline : ℕ
  pub drain_start : ℕ
  pub rounds : List Round
  pub attempts : List Attempt

after_drain :
    (Bytes → Bytes) → List Attempt → Bytes → Done SensorError → Option (Result SensorError Bytes)
after_drain lossy attempts rx (err e) = some (err e)
after_drain lossy attempts rx (ok _) = ping_until lossy attempts rx

-- With the driver's buffer before and after; the draining reads into a buffer of its own.
unfoldable pub sync : (Bytes → Bytes) → Handshake → Bytes → Option (Result SensorError Bytes)
unfolding after_drain
sync lossy h rx = after_drain lossy h.attempts rx (drain h.deadline h.drain_start h.rounds none)

with_opened : R503 → Result SensorError Bytes → Result SensorError R503
with_opened s (err e) = err e
with_opened s (ok rx) = ok (record s { rx_buf = rx })

after_sync : R503 → Option (Result SensorError Bytes) → Option (Result SensorError R503)
unfolding with_opened
after_sync s none = none
after_sync s (some r) = some (with_opened s r)

-- The fields as `open` sets them before the handshake; what is still to come from the port and the counter's
-- file belong to the outside.
abbrev pub unset : List Arrival → Disk → R503
unset as' d = record {
  rx_buf = [];
  key = none;
  client_counter = 0;
  arrivals = as';
  disk = d;
  sent = [];
  progress = [];
}

open_path :
    (Bytes → Bytes)
    → (Bytes → Outcome)
    → Handshake
    → R503
    → Result SensorError Bytes
    → Option (Result SensorError R503)
open_path lossy port h s (err e) = some (err e)
open_path lossy port h s (ok path) = elim (port path) [
  | failed e ↦ some (err (open_failed path e))
  | done ↦ after_sync s (sync lossy h s.rx_buf)
]

abbrev pub chosen : Option Bytes → Result SensorError Bytes → Result SensorError Bytes
chosen (some path) found = ok path
chosen none found = found

-- `R503::open`; `port` is what the opening of a path does.
unfoldable pub open_sensor :
    (Bytes → Bytes)
    → (Bytes → Outcome)
    → Option Bytes
    → Result SensorError Bytes
    → Handshake
    → List Arrival
    → Disk
    → Option (Result SensorError R503)
unfolding after_sync open_path
open_sensor lossy port path found h as' d = open_path lossy port h (unset as' d) (chosen path found)
