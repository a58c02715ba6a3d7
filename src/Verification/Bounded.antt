-- ===== src/Verification/Bounded.antt =====
-- What the retry loop of pcside/daemon/src/dbus_iface.rs can end in.
use linux_fingerprint_r.Prelude.{
  ℕ, zero, suc, ◌+◌, ◌≤◌, ◌≡◌, ◌≢◌, refl, ap, inl, inr, ◌⊎◌, Bool, true, false, Bool-cases, ◌&&◌,
  &&-eq-true, leb, leb→le, Option, none, some, List, Bytes, Result, ok, err, if◌then◌else◌, arith,
  eq, codes,
}
use linux_fingerprint_r.Sensor.{
  SensorError, command, timeout, io, persisting, protocol, counter_exhausted, no_device,
  open_failed,
}
use linux_fingerprint_r.Storage.{contains}
use linux_fingerprint_r.Verification.{
  Status, verify_match, verify_no_match, verify_unknown_error, verify_disconnected, decide_code,
  decide_failure, is_retryable, Round, Decision, settled, retry, decide, Ending, after_result,
  verify_loop, max_retries,
}

after_result-scans :
    (over : Bool) (scans bound : ℕ) (more : Ending) (d : Decision)
    → scans ≤ bound
    → more.1 ≤ bound
    → (after_result over scans (some more) d).1 ≤ bound
unfolding after_result
after_result-scans over scans bound more (settled s) h k = h
after_result-scans true scans bound more retry h k = h
after_result-scans false scans bound more retry h k = k

after_result-last :
    (over : Bool) (scans bound : ℕ) (d : Decision)
    → scans ≤ bound
    → (after_result over scans none d).1 ≤ bound
unfolding after_result
after_result-last over scans bound (settled s) h = h
after_result-last over scans bound retry h = h

loop-scans :
    (judge : Result SensorError (ℕ × ℕ) → Decision) (rounds : ℕ → Round) (left i : ℕ)
    → (verify_loop judge rounds left i).1 ≤ i + 1 + left
unfolding verify_loop
loop-scans judge rounds zero i = elim (Bool-cases (rounds i).owned) [
  | inl p ↦ rw p (
      after_result-last (rounds i).over_budget (i + 1) (i + 1 + 0) (judge (rounds i).result)
        (omega arith))
  | inr p ↦ rw p (omega arith)
]
loop-scans judge rounds (suc left) i = elim (Bool-cases (rounds i).owned) [
  | inl p ↦ rw p (
      after_result-scans (rounds i).over_budget (i + 1) (i + 1 + suc left)
        (verify_loop judge rounds left (i + 1)) (judge (rounds i).result) (omega arith)
        (omega (arith, loop-scans judge rounds left (i + 1))))
  | inr p ↦ rw p (omega arith)
]

-- Whatever the sensor answers and however long it takes, one verification asks for at most six scans.
verify_loop-scans :
    (judge : Result SensorError (ℕ × ℕ) → Decision) (rounds : ℕ → Round)
    → (verify_loop judge rounds max_retries 0).1 ≤ 6
verify_loop-scans judge rounds = loop-scans judge rounds 5 0

-- What a scan that decides for a match has found.
abbrev pub Matches : List ℕ → ℕ → Result SensorError (ℕ × ℕ) → Type 0
Matches expected threshold r =
    (slot : ℕ) × (confidence : ℕ) × (r ≡ ok (slot, confidence))
    × (contains slot expected ≡ true)
    × (threshold ≤ confidence)

apart_no_match : settled verify_no_match ≢ settled verify_match
apart_no_match h = cc h

apart_unknown : settled verify_unknown_error ≢ settled verify_match
apart_unknown h = cc h

apart_retry : retry ≢ settled verify_match
apart_retry h = cc h

apart_status : some verify_no_match ≢ some verify_match
apart_status h = cc h

none_apart : ◌≢◌ {A = Option Status} none (some verify_match)
none_apart h = cc h

status_of : (s : Status) → some s ≡ some verify_match → s ≡ verify_match
status_of s h = cc h

code-no_match : (code : Bytes) → decide_code code ≢ settled verify_match
unfolding decide_code
code-no_match code h = elim (Bool-cases (eq code (codes "no_match"))) [
  | inl p ↦ absurd (apart_no_match (rw p at h))
  | inr p ↦ elim (Bool-cases (is_retryable code)) [
    | inl q ↦ absurd (apart_retry (rw (p, q) at h))
    | inr q ↦ absurd (apart_unknown (rw (p, q) at h))
  ]
]

fatal-no_match :
    (b : Bool)
    → (if b then settled verify_disconnected else settled verify_unknown_error)
      ≢ settled verify_match
fatal-no_match true h = cc h
fatal-no_match false h = cc h

failure-no_match :
    (low : Bytes → Bytes) (fatal : SensorError → Bool) (e : SensorError)
    → decide_failure low fatal e ≢ settled verify_match
unfolding decide_failure
failure-no_match low fatal (command code detail) h = code-no_match (low code) h
failure-no_match low fatal (timeout cmd) h = apart_retry h
failure-no_match low fatal (io n) h = fatal-no_match (fatal (io n)) h
failure-no_match low fatal (persisting n) h = fatal-no_match (fatal (persisting n)) h
failure-no_match low fatal (protocol n) h = fatal-no_match (fatal (protocol n)) h
failure-no_match low fatal counter_exhausted h = fatal-no_match (fatal counter_exhausted) h
failure-no_match low fatal no_device h = fatal-no_match (fatal no_device) h
failure-no_match low fatal (open_failed p n) h = fatal-no_match (fatal (open_failed p n)) h

decide-Matches :
    (low : Bytes → Bytes) (fatal : SensorError → Bool) (expected : List ℕ) (threshold : ℕ)
    (r : Result SensorError (ℕ × ℕ))
    → decide low fatal expected threshold r ≡ settled verify_match
    → Matches expected threshold r
unfolding decide
decide-Matches low fatal expected threshold (err e) h = absurd (failure-no_match low fatal e h)
decide-Matches low fatal expected threshold (ok (slot, confidence)) h =
    elim (Bool-cases (contains slot expected && leb threshold confidence)) [
      | inl p ↦
          let (known, sure) = &&-eq-true _ _ p in
          (slot, confidence, refl, known, leb→le threshold confidence sure)
      | inr p ↦ absurd (apart_no_match (rw p at h))
    ]

-- A match comes from the decision of this pass or from the next passes.
after_result-match :
    (over : Bool) (scans : ℕ) (more : Ending) (d : Decision)
    → (after_result over scans (some more) d).0 ≡ some verify_match
    → (d ≡ settled verify_match) ⊎ (more.0 ≡ some verify_match)
unfolding after_result
after_result-match over scans more (settled s) h = inl (ap settled (status_of s h))
after_result-match true scans more retry h = absurd (apart_status h)
after_result-match false scans more retry h = inr h

last-match :
    (over : Bool) (scans : ℕ) (d : Decision)
    → (after_result over scans none d).0 ≡ some verify_match
    → d ≡ settled verify_match
unfolding after_result
last-match over scans (settled s) h = ap settled (status_of s h)
last-match over scans retry h = absurd (apart_status h)

loop-match :
    (judge : Result SensorError (ℕ × ℕ) → Decision) (rounds : ℕ → Round) (left i : ℕ)
    → (verify_loop judge rounds left i).0 ≡ some verify_match
    → (j : ℕ) × (j ≤ i + left)
      × ((rounds j).owned ≡ true)
      × (judge (rounds j).result ≡ settled verify_match)
unfolding verify_loop
loop-match judge rounds zero i h = elim (Bool-cases (rounds i).owned) [
  | inl p ↦ (
    i,
    omega arith,
    p,
    last-match (rounds i).over_budget (i + 1) (judge (rounds i).result) (rw p at h),
  )
  | inr p ↦ absurd (none_apart (rw p at h))
]
loop-match judge rounds (suc left) i h = elim (Bool-cases (rounds i).owned) [
  | inl p ↦
      elim (after_result-match (rounds i).over_budget (i + 1)
        (verify_loop judge rounds left (i + 1)) (judge (rounds i).result) (rw p at h)) [
          | inl q ↦ (i, omega arith, p, q)
          | inr q ↦
              let (j, small, owned, found) = loop-match judge rounds left (i + 1) q in
              (j, omega arith, owned, found)
        ]
  | inr p ↦ absurd (none_apart (rw p at h))
]

-- A verification reports a match only where one of its first six scans, asked for while the task's
-- token owned the action, found one of the expected slots with a confidence of at least the threshold.
pub verify_loop-match :
    (low : Bytes → Bytes) (fatal : SensorError → Bool) (expected : List ℕ) (threshold : ℕ)
    (rounds : ℕ → Round)
    → (verify_loop (decide low fatal expected threshold) rounds max_retries 0).0 ≡ some verify_match
    → (j : ℕ) × (j ≤ 5) × ((rounds j).owned ≡ true) × Matches expected threshold (rounds j).result
verify_loop-match low fatal expected threshold rounds h =
    let (j, small, owned, found) = loop-match (decide low fatal expected threshold) rounds 5 0 h in
    (j, small, owned, decide-Matches low fatal expected threshold (rounds j).result found)
