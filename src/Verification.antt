-- ===== src/Verification.antt =====
-- pcside/daemon/src/dbus_iface.rs: the retry loop of the task that `verify_start` spawns. The sensor, the clock and the
-- operations that run meanwhile are outside: a `Round` says what one pass of the loop meets.
mod Tests
pub mod Bounded
use linux_fingerprint_r.Prelude.{
  ℕ, zero, suc, ◌+◌, ◌&&◌, ◌||◌, Bool, true, false, Option, none, some, List, Bytes, codes, eq, leb,
  if◌then◌else◌, map, starts_with, Result, ok, err,
}
use linux_fingerprint_r.Sensor.{SensorError, command, timeout}
use linux_fingerprint_r.Storage.{contains}

-- The final statuses of `VerifyStatus`.
pub data Status : Type 0 where
  verify_match verify_no_match verify_unknown_error verify_disconnected : Status

-- What one pass meets: whether the token still owns the action, the sensor's result (slot and
-- confidence), and whether the time is up.
pub record Round : Type 0 where
  pub owned : Bool
  pub result : Result SensorError (ℕ × ℕ)
  pub over_budget : Bool

abbrev pub max_retries : ℕ
max_retries = 5

-- The codes after which the scan is tried again, in lower case.
pub is_retryable : Bytes → Bool
is_retryable code =
    eq code (codes "timeout")
    || (eq code (codes "poor_quality")
        || (starts_with (codes "capture_failed") code
            || starts_with (codes "image2tz_failed") code))

-- What a result leads to: the end of the loop, or another try while the budget lasts.
pub data Decision : Type 0 where
  settled : Status → Decision
  retry : Decision

decide_code : Bytes → Decision
decide_code code =
    if eq code (codes "no_match")
    then settled verify_no_match
    else if is_retryable code
    then retry
    else settled verify_unknown_error

decide_failure : (Bytes → Bytes) → (SensorError → Bool) → SensorError → Decision
decide_failure to_lowercase is_fatal_io (command code detail) = decide_code (to_lowercase code)
decide_failure to_lowercase is_fatal_io (timeout cmd) = retry
decide_failure to_lowercase is_fatal_io e =
    if is_fatal_io e then settled verify_disconnected else settled verify_unknown_error

-- `to_lowercase` of the standard library and `is_fatal_io`, which looks at an error's kind, are parameters.
pub decide :
    (Bytes → Bytes) → (SensorError → Bool) → List ℕ → ℕ → Result SensorError (ℕ × ℕ) → Decision
decide to_lowercase is_fatal_io expected_slots threshold (ok (slot, confidence)) =
    if contains slot expected_slots && leb threshold confidence
    then settled verify_match
    else settled verify_no_match
decide to_lowercase is_fatal_io expected_slots threshold (err e) =
    decide_failure to_lowercase is_fatal_io e

-- The status, or none where the verification was stopped, and the number of scans that were asked for.
abbrev pub Ending : Type 0
Ending = Option Status × ℕ

-- `more` is the next pass, where a retry is left.
pub after_result : Bool → ℕ → Option Ending → Decision → Ending
after_result over_budget scans more (settled status) = (some status, scans)
after_result over_budget scans none retry = (some verify_no_match, scans)
after_result over_budget scans (some more) retry =
    if over_budget then (some verify_no_match, scans) else more

-- The loop from pass `i` on, with the retries that are left.
pub verify_loop : (Result SensorError (ℕ × ℕ) → Decision) → (ℕ → Round) → ℕ → ℕ → Ending
verify_loop judge rounds zero i =
    if (rounds i).owned
    then after_result (rounds i).over_budget (i + 1) none (judge (rounds i).result)
    else (none, i)
verify_loop judge rounds (suc left) i =
    let more = verify_loop judge rounds left (i + 1) in
    if (rounds i).owned
    then after_result (rounds i).over_budget (i + 1) (some more) (judge (rounds i).result)
    else (none, i)
