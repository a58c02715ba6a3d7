-- ===== src/Sensor/Replay.antt =====
-- No counter of pcside/daemon/src/sensor.rs is used twice, whatever fails and however often the daemon starts again.
use linux_fingerprint_r.Prelude.{
  ℕ, ◌+◌, ◌≤◌, ◌<◌, ◌≡◌, ◌≢◌, refl, sym, ap, subst, ◌∙◌, inl, inr, Option, some, none, List, [],
  ◌∷◌, Bytes, Result, ok, err, All, arith, Done,
}
use linux_fingerprint_r.Disk.{Disk, Outcome, done}
use linux_fingerprint_r.Disk.Atomic.{IsPrivate}
use linux_fingerprint_r.Counter.{Codec, StateError}
use linux_fingerprint_r.Counter
use linux_fingerprint_r.Counter.Saving.{
  IsFaithful, Holds, load-Holds, Saved, save-Saved, save-IsPrivate,
}
use linux_fingerprint_r.Framing.{encode_command, counter_ceiling}
use linux_fingerprint_r.Sensor.{
  Arrival, R503, Inspection, receive, SensorError, transmit, Calls, enough, Sent, inspect_framed,
  inspect_unframed, after_persist, with_next, execute_framed, execute_unframed, execute_with,
  execute, advance_counter, apply_auth, counter_or_fresh, set_auth,
}
use linux_fingerprint_r.Sensor.Transmit.{Keeps, with_sent, transmit-cases, receive-Keeps}

-- All frames have counters below a bound; each has a greater counter than those that were sent before it.
abbrev pub Below : ℕ → List Sent → Type 0
Below n sent = All (λ (f : Sent). f.counter < n) sent

abbrev pub Descending : List Sent → Type 0
Descending [] = Unit
Descending (f ∷ sent) = Below f.counter sent × Descending sent

abbrev FreshAt : Codec → Disk × ℕ × List Sent → Type 0
FreshAt c (d, n, sent) = Holds c d n × IsPrivate d.tmp × Below n sent × Descending sent

-- The next start finds the counter that the running daemon has, and it was never sent.
abbrev pub IsFresh : Codec → R503 → Type 0
IsFresh c s =
    Holds c s.disk s.client_counter
    × IsPrivate (s.disk).tmp
    × Below s.client_counter s.sent
    × Descending s.sent

Below-mono : (m n : ℕ) (sent : List Sent) → m ≤ n → Below m sent → Below n sent
Below-mono m n [] h b = tt
Below-mono m n (f ∷ sent) h (x, b) = (omega arith, Below-mono m n sent h b)

Keeps-IsFresh : (c : Codec) (s t : R503) → Keeps s t → IsFresh c s → IsFresh c t
Keeps-IsFresh c s t (a, b, d, e) h = subst (FreshAt c) (λ i. (sym d i, sym b i, sym e i)) h

transmit-IsFresh :
    (lossy : Bytes → Bytes) (c : Codec) (inspect : Inspection) (cmd : Bytes) (frames : List Sent)
    (calls : Calls) (s : R503)
    → IsFresh c s
    → IsFresh c (with_sent frames s)
    → IsFresh c (transmit lossy inspect cmd frames calls s).1
transmit-IsFresh lossy c inspect cmd frames calls s before after =
    elim (transmit-cases lossy inspect cmd frames calls s) [
      | inl (e, p) ↦ subst (IsFresh c) (sym (λ i. (p i).1)) before
      | inr (inl (e, p)) ↦ subst (IsFresh c) (sym (λ i. (p i).1)) after
      | inr (inr p) ↦ subst (IsFresh c) (sym (λ i. (p i).1)) (
          Keeps-IsFresh c (with_sent frames s)
            (receive lossy inspect cmd (enough (with_sent frames s)) 0 (with_sent frames s)).1
            (receive-Keeps lossy inspect cmd (enough (with_sent frames s)) 0 (with_sent frames s)
              (with_sent frames s) (refl, refl, refl, refl))
            after)
    ]

ok_apart : (e : StateError) → ◌≢◌ {A = Done StateError} (err e) (ok tt)
ok_apart e h = cc h

err_apart : (e : StateError) → ◌≢◌ {A = Done StateError} (ok tt) (err e)
err_apart e h = cc h

after_persist-IsFresh :
    (lossy : Bytes → Bytes) (c : Codec) (calls : Calls) (cmd key : Bytes) (next : ℕ) (s : R503)
    (r : Done StateError × Disk)
    → IsFresh c s
    → next ≡ s.client_counter + 1
    → Saved c next s.disk r
    → IsPrivate (r.1).tmp
    → IsFresh c (after_persist lossy calls cmd key next s r).1
unfolding after_persist
after_persist-IsFresh lossy c calls cmd key next s (err e, d) (h, p, b, o) n (inl (x, y)) q =
    absurd (ok_apart e x)
after_persist-IsFresh lossy c calls cmd key next s (err e, d) (h, p, b, o) n (inr (x, y, z)) q =
    (ap (Counter.load c done done) z ∙ h, q, b, o)
after_persist-IsFresh lossy c calls cmd key next s (ok u, d) (h, p, b, o) n (inr (x, y, z)) q =
    absurd (err_apart x y)
after_persist-IsFresh lossy c calls cmd key next s (ok u, d) (h, p, b, o) n (inl (x, y)) q =
    transmit-IsFresh lossy c (inspect_framed key s.client_counter) cmd
      (record { counter = s.client_counter; frame = encode_command key s.client_counter cmd } ∷ [])
      calls (record s { disk = d; client_counter = next })
      (y, q, Below-mono s.client_counter next s.sent (omega arith) b, o)
      (y, q, (omega arith, Below-mono s.client_counter next s.sent (omega arith) b), (b, o))

advance_counter-ok :
    (n next : ℕ) → advance_counter n ≡ ok next → (next ≡ n + 1) × (n < counter_ceiling)
unfolding advance_counter
advance_counter-ok n next h = ground arith

with_next-IsFresh :
    (lossy : Bytes → Bytes) (c : Codec) (calls : Calls) (cmd key : Bytes) (s : R503)
    (r : Result SensorError ℕ)
    → IsFaithful c
    → IsFresh c s
    → advance_counter s.client_counter ≡ r
    → IsFresh c (with_next lossy c calls cmd key s r).1
unfolding with_next
with_next-IsFresh lossy c calls cmd key s (err e) f h a = h
with_next-IsFresh lossy c calls cmd key s (ok next) f h a =
    after_persist-IsFresh lossy c calls cmd key next s
      (Counter.save c calls.directory calls.saved next s.disk) h
      ((advance_counter-ok s.client_counter next a).0)
      (save-Saved c calls.directory calls.saved next s.disk f h.1)
      (save-IsPrivate c calls.directory calls.saved next s.disk h.1)

execute_with-IsFresh :
    (lossy : Bytes → Bytes) (c : Codec) (calls : Calls) (cmd : Bytes) (s : R503)
    (key : Option Bytes)
    → IsFaithful c
    → IsFresh c s
    → IsFresh c (execute_with lossy c calls cmd s key).1
unfolding execute_with execute_unframed execute_framed
execute_with-IsFresh lossy c calls cmd s none f h =
    transmit-IsFresh lossy c inspect_unframed cmd [] calls s h h
execute_with-IsFresh lossy c calls cmd s (some key) f h =
    with_next-IsFresh lossy c calls cmd key s (advance_counter s.client_counter) f h refl

pub execute-IsFresh :
    (lossy : Bytes → Bytes) (c : Codec) (calls : Calls) (cmd : Bytes) (s : R503)
    → IsFaithful c
    → IsFresh c s
    → IsFresh c (execute lossy c calls cmd s).1
unfolding execute
execute-IsFresh lossy c calls cmd s f h = execute_with-IsFresh lossy c calls cmd s s.key f h

-- A new start on what the disk holds: nothing of the old process is left, the files are.
abbrev pub restarted : Codec → Outcome → Outcome → Bytes → List Arrival → R503 → R503
restarted c stat read key arrivals s =
    apply_auth c stat read (some key)
      (record s { rx_buf = []; key = none; client_counter = 0; arrivals = arrivals; progress = [] })

counter_or_fresh_lem :
    (r : Result StateError (Option ℕ)) (n : ℕ) → r ≡ ok (some n) → counter_or_fresh r ≡ n
unfolding counter_or_fresh
counter_or_fresh_lem r n h = rw h

restarted-IsFresh :
    (c : Codec) (stat read : Outcome) (key : Bytes) (arrivals : List Arrival) (found : Option ℕ)
    (s : R503)
    → Counter.load c stat read (s.disk).target ≡ ok found
    → IsFresh c s
    → IsFresh c (restarted c stat read key arrivals s)
unfolding apply_auth set_auth
restarted-IsFresh c stat read key arrivals found s loads h =
    let reads = load-Holds c stat read s.disk s.client_counter found loads h.0 in
    subst (FreshAt c) (λ i. (s.disk, sym (counter_or_fresh_lem _ s.client_counter reads) i, s.sent))
      h

-- What a daemon with the file of the counter does over its life: commands, and new starts that load that
-- file without an error. More bytes may have arrived before a step.
pub data Step (lossy : Bytes → Bytes) (c : Codec) : R503 → R503 → Type 0 where
  command :
      (calls : Calls) (cmd : Bytes) (s : R503) → Step lossy c s (execute lossy c calls cmd s).1
  arrival : (arrivals : List Arrival) (s : R503) → Step lossy c s (record s { arrivals = arrivals })
  restart :
      (stat read : Outcome) (key : Bytes) (arrivals : List Arrival) (found : Option ℕ) (s : R503)
      → Counter.load c stat read (s.disk).target ≡ ok found
      → Step lossy c s (restarted c stat read key arrivals s)

pub data Steps (lossy : Bytes → Bytes) (c : Codec) : R503 → R503 → Type 0 where
  stay : (s : R503) → Steps lossy c s s
  then_step : (s t u : R503) → Steps lossy c s t → Step lossy c t u → Steps lossy c s u

Step-IsFresh :
    (lossy : Bytes → Bytes) (c : Codec) (s t : R503)
    → IsFaithful c
    → Step lossy c s t
    → IsFresh c s
    → IsFresh c t
Step-IsFresh lossy c s t f (command calls cmd r) h = execute-IsFresh lossy c calls cmd r f h
Step-IsFresh lossy c s t f (arrival arrivals r) h = h
Step-IsFresh lossy c s t f (restart stat read key arrivals found r loads) h =
    restarted-IsFresh c stat read key arrivals found r loads h

Steps-IsFresh :
    (lossy : Bytes → Bytes) (c : Codec) (s t : R503)
    → IsFaithful c
    → IsFresh c s
    → Steps lossy c s t
    → IsFresh c t
Steps-IsFresh lossy c s t f h (stay r) = h
Steps-IsFresh lossy c s t f h (then_step r u v steps step) =
    Step-IsFresh lossy c u v f step (Steps-IsFresh lossy c r u f h steps)

-- If serde_json reads back what it has written and the daemon begins with a state file that holds its
-- counter, no foreign temporary file, and no sent frame with that or a greater counter, then after any
-- number of commands, and of restarts in which loading that file returns no error, whatever else failed, every
-- frame that was sent has a greater counter than all frames before it.
pub Steps-Descending :
    (lossy : Bytes → Bytes) (c : Codec) (s t : R503)
    → IsFaithful c
    → IsFresh c s
    → Steps lossy c s t
    → Descending t.sent
Steps-Descending lossy c s t f h steps = (Steps-IsFresh lossy c s t f h steps).3
