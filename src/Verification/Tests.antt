-- ===== src/Verification/Tests.antt =====
-- The retry loop of pcside/daemon/src/dbus_iface.rs at a sensor that always times out.
use linux_fingerprint_r.Prelude.{zero, suc, ◌∷◌, ok, ℕ, ◌≤◌, ◌≡◌, refl, some, [], false, true, err}
use linux_fingerprint_r.Storage.{contains}
use linux_fingerprint_r.Sensor.{timeout}
use linux_fingerprint_r.Verification.{
  Round, decide, decide_failure, after_result, verify_loop, max_retries, verify_no_match,
  verify_match,
}
use linux_fingerprint_r.Verification.Bounded.{verify_loop-match, Matches}

abbrev times_out : ℕ → Round
times_out i = record { owned = true; result = err (timeout []); over_budget = false }

six_scans :
    verify_loop (decide (λ s. s) (λ e. false) [] 0) times_out max_retries 0
    ≡ (some verify_no_match, 6)
unfolding verify_loop decide decide_failure after_result
six_scans = refl

-- The second scan finds slot 3.
abbrev second_finds : ℕ → Round
second_finds zero = record { owned = true; result = err (timeout []); over_budget = false }
second_finds (suc i) = record { owned = true; result = ok (3, 120); over_budget = false }

finds :
    (verify_loop (decide (λ s. s) (λ e. false) (3 ∷ []) 50) second_finds max_retries 0).0
    ≡ some verify_match
unfolding verify_loop decide decide_failure after_result contains
finds = refl

verify_loop-match_example :
    (j : ℕ) × (j ≤ 5)
    × ((second_finds j).owned ≡ true)
    × Matches (3 ∷ []) 50 (second_finds j).result
verify_loop-match_example = verify_loop-match (λ s. s) (λ e. false) (3 ∷ []) 50 second_finds finds
