-- ===== src/Pairing/Resync.antt =====
-- What `run_resync` of pcside/daemon/src/pairing.rs makes of the counter.
use linux_fingerprint_r.Prelude.{
  ℕ, ◌+◌, ◌-◌, ◌<◌, ◌≡◌, refl, sym, ◌∙◌, inl, inr, true, Bool-cases, Option, Bytes, Result, ok, err,
  Done, ok_or, leb, ok_injective, >>=-eq-ok, arith, subst,
}
use linux_fingerprint_r.Counter
use linux_fingerprint_r.Counter.Saving.{IsFaithful, Saved, Holds, save-Saved}
use linux_fingerprint_r.Disk.{Disk, Outcome, Trial}
use linux_fingerprint_r.Disk.Atomic.{IsPrivate}
use linux_fingerprint_r.Framing.{counter_ceiling}
use linux_fingerprint_r.Keystore.{KeyError, KeySource}
use linux_fingerprint_r.Pairing.{
  FirmwareStatus, parse_status, PairError, map_error-ok, map_error, resync_target, check_paired,
  new_counter, reported_save, write_counter, run_resync, key_unusable, no_key, link, bad_status,
  bad_state,
}

resync_target-ok : (n m : ℕ) → resync_target n ≡ ok m → (m ≡ n + 1) × (m < counter_ceiling)
unfolding resync_target
resync_target-ok n m = elim (Bool-cases (leb (counter_ceiling - 1) n)) [
  | inl e ↦ rw e (λ h. absurd (cc h))
  | inr e ↦ rw e (λ h. let same : n + 1 ≡ m = ok_injective h in (sym same, ground arith))
]

check_paired-ok : (s : FirmwareStatus) → check_paired s ≡ ok tt → s.paired ≡ true
unfolding check_paired
check_paired-ok s = elim (Bool-cases s.paired) [
  | inl e ↦ rw e (λ h. refl)
  | inr e ↦ rw e (λ h. cc h)
]

-- The firmware has said that it is paired and which counter it saw last.
abbrev pub Reported : Result ℕ Bytes → ℕ → Type 0
Reported reply n =
    (line : Bytes) × (status : FirmwareStatus) × (reply ≡ ok line)
    × (parse_status line ≡ ok status)
    × (status.paired ≡ true)
    × (status.counter ≡ n)

new_counter-Reported :
    (key : Result KeyError (Option (Bytes × KeySource))) (reply : Result ℕ Bytes)
    (old : Result Counter.StateError (Option ℕ)) (m : ℕ)
    → new_counter key reply old ≡ ok m
    → (n : ℕ) × Reported reply n × (m ≡ n + 1) × (m < counter_ceiling)
unfolding new_counter
new_counter-Reported key reply old m h =
    let (held, _, h1) = >>=-eq-ok (map_error key_unusable key) _ h in
    let (_, _, h2) = >>=-eq-ok (ok_or held no_key) _ h1 in
    let (line, replied, h3) = >>=-eq-ok (map_error link reply) _ h2 in
    let (status, parsed, h4) = >>=-eq-ok (map_error bad_status (parse_status line)) _ h3 in
    let (_, paired, h5) = >>=-eq-ok (check_paired status) _ h4 in
    let (target, counted, h6) = >>=-eq-ok (resync_target status.counter) _ h5 in
    let (_, _, h7) = >>=-eq-ok (map_error bad_state old) _ h6 in
    let (next, below) = resync_target-ok status.counter m (counted ∙ h7) in
    (
      status.counter,
      (
        line,
        status,
        map_error-ok link reply replied,
        map_error-ok bad_status (parse_status line) parsed,
        check_paired-ok status paired,
        refl,
      ),
      next,
      below,
    )

pub reported_save-Holds :
    (c : Counter.Codec) (n : ℕ) (d : Disk) (r : Done Counter.StateError × Disk)
    → Saved c n d r
    → (reported_save r).0 ≡ ok tt
    → Holds c (reported_save r).1 n
unfolding reported_save
reported_save-Holds c n d (ok _, e) (inl (a, b)) h = b
reported_save-Holds c n d (ok _, e) (inr (x, a, b)) h = absurd (cc a)
reported_save-Holds c n d (err x, e) s h = absurd (cc h)

write_counter-Holds :
    (c : Counter.Codec) (dir : Outcome) (t : Trial) (d : Disk) (r : Result PairError ℕ)
    → IsFaithful c
    → IsPrivate d.tmp
    → (write_counter c dir t d r).0 ≡ ok tt
    → (m : ℕ) × (r ≡ ok m) × Holds c (write_counter c dir t d r).1 m
unfolding write_counter
write_counter-Holds c dir t d (err e) f p h = absurd (cc h)
write_counter-Holds c dir t d (ok m) f p h =
    (m, refl, reported_save-Holds c m d (Counter.save c dir t m d) (save-Saved c dir t m d f p) h)

-- Where a resynchronisation ends without an error, the firmware has reported itself paired with some last
-- counter, and the next start loads exactly that counter plus one, whatever the counter was before; it
-- is below the reserved band. serde_json has to read back what it has written, and no temporary file of
-- another mode to be there.
pub run_resync-Reported :
    (c : Counter.Codec) (key : Result KeyError (Option (Bytes × KeySource)))
    (reply : Result ℕ Bytes) (stat read dir : Outcome) (t : Trial) (d : Disk)
    → IsFaithful c
    → IsPrivate d.tmp
    → (run_resync c key reply stat read dir t d).0 ≡ ok tt
    → (n : ℕ) × Reported reply n
      × (n + 1 < counter_ceiling)
      × Holds c (run_resync c key reply stat read dir t d).1 (n + 1)
unfolding run_resync
run_resync-Reported c key reply stat read dir t d f p h =
    let (m, target, holds) =
      write_counter-Holds c dir t d (new_counter key reply (Counter.load c stat read d.target)) f p
        h in
    let (n, reported, next, below) =
      new_counter-Reported key reply (Counter.load c stat read d.target) m target in
    (
      n,
      reported,
      subst (λ (x : ℕ). x < counter_ceiling) next below,
      subst
          (λ (x : ℕ).
            Holds c
              (write_counter c dir t d
                (new_counter key reply (Counter.load c stat read d.target))).1
              x)
          next holds,
    )
