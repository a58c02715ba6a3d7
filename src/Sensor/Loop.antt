-- ===== src/Sensor/Loop.antt =====
-- The loop of pcside/daemon/src/sensor.rs that waits for an answer comes to an end.
use linux_fingerprint_r.Prelude.{
  ℕ, zero, suc, ◌+◌, ◌≤◌, ◌<◌, ◌≡◌, ◌≢◌, refl, ap, inl, inr, Option, none, some, List, [], ◌∷◌,
  ◌++◌, Bytes, length, length-append, split_once, split_once_sound, Result, ok, err, arith,
  Bool-cases, ltb, Done,
}
use linux_fingerprint_r.Disk.{Disk, Outcome, done, failed}
use linux_fingerprint_r.Counter.{Codec, StateError}
use linux_fingerprint_r.Counter
use linux_fingerprint_r.Framing.{encode_command}
use linux_fingerprint_r.Sensor.{
  io, Sent, inspect_framed, inspect_unframed, execute_with, advance_counter, flush_port, end_line,
  write_text, clear_input, Arrival, Reading, read_line, settle, weight, chunk, silence, expired,
  broken, R503, Answer, Inspection, receive, on_reading, on_verdict, enough, SensorError, Verdict,
  again, final, after_reading, max_line_len, transmit, execute, execute_framed, execute_unframed,
  Calls, after_persist, with_next,
}

-- A reading that brings a line leaves less to read than there was.
abbrev pub Less : ℕ → Reading → Type 0
Less n r = (line : Bytes) → r.0 ≡ ok (some line) → length (r.1) + weight (r.2) < n

cut_shorter :
    (rx : Bytes) (cut : Bytes × Bytes) → split_once b'\n' rx ≡ some cut → length cut.1 < length rx
cut_shorter rx cut h = omega (
  arith,
  ap (λ (t : Bytes). length t) (split_once_sound b'\n' rx cut.0 cut.1 h),
  length-append cut.0 (b'\n' ∷ cut.1),
)

Less-mono : (m n : ℕ) (r : Reading) → m ≤ n → Less m r → Less n r
Less-mono m n r h less line e = omega (arith, less line e)

no_line : (line : Bytes) → ◌≢◌ {A = Result SensorError (Option Bytes)} (ok none) (ok (some line))
no_line line e = cc e

no_error :
    (x : SensorError) (line : Bytes)
    → ◌≢◌ {A = Result SensorError (Option Bytes)} (err x) (ok (some line))
no_error x line e = cc e

settle-Less :
    (lossy : Bytes → Bytes) (rx : Bytes) (as' : List Arrival) (o : Option (Bytes × Bytes))
    (rest : Reading)
    → split_once b'\n' rx ≡ o
    → Less (length rx + weight as') rest
    → Less (length rx + weight as') (settle lossy rx as' o rest)
unfolding settle
settle-Less lossy rx as' (some cut) rest e h = λ text d. omega (arith, cut_shorter rx cut e)
settle-Less lossy rx as' none rest e h = elim (Bool-cases (ltb max_line_len (length rx))) [
  | inl p ↦ rw p (λ text d. absurd (no_error _ text d))
  | inr p ↦ rw p h
]

pub read_line-Less :
    (lossy : Bytes → Bytes) (rx : Bytes) (as' : List Arrival)
    → Less (length rx + weight as') (read_line lossy rx as')
unfolding read_line weight
read_line-Less lossy rx [] =
    settle-Less lossy rx [] (split_once b'\n' rx) (ok none, rx, []) refl
      (λ line e. absurd (no_line line e))
read_line-Less lossy rx (expired ∷ as') =
    settle-Less lossy rx (expired ∷ as') (split_once b'\n' rx) (ok none, rx, as') refl
      (λ line e. absurd (no_line line e))
read_line-Less lossy rx (silence ∷ as') =
    settle-Less lossy rx (silence ∷ as') (split_once b'\n' rx) (read_line lossy rx as') refl
      (Less-mono _ _ (read_line lossy rx as') (omega arith) (read_line-Less lossy rx as'))
read_line-Less lossy rx (chunk b ∷ as') =
    settle-Less lossy rx (chunk b ∷ as') (split_once b'\n' rx) (read_line lossy (rx ++ b) as') refl
      (Less-mono _ _ (read_line lossy (rx ++ b) as') (omega (arith, length-append rx b))
        (read_line-Less lossy (rx ++ b) as'))
read_line-Less lossy rx (broken x ∷ as') =
    settle-Less lossy rx (broken x ∷ as') (split_once b'\n' rx) (err (io x), rx, as') refl
      (λ line e. absurd (no_error (io x) line e))

-- One round of the loop, whose next round has an answer wherever less is left to read.
abbrev Answers : (ℕ → R503 → Answer) → ℕ → Type 0
Answers loop n =
    (seq : ℕ) (s : R503) → length s.rx_buf + weight s.arrivals < n → (loop seq s).0 ≢ none

on_verdict-Answers :
    (loop : ℕ → R503 → Answer) (n : ℕ) (s : R503) (v : Result SensorError Verdict)
    → Answers loop n
    → length s.rx_buf + weight s.arrivals < n
    → (on_verdict loop s v).0 ≢ none
unfolding on_verdict
on_verdict-Answers loop n s (err e) h k = λ d. cc d
on_verdict-Answers loop n s (ok (final body)) h k = λ d. cc d
on_verdict-Answers loop n s (ok (again called next)) h k = h next _ k

on_reading-Answers :
    (loop : ℕ → R503 → Answer) (inspect : Inspection) (cmd : Bytes) (n seq : ℕ) (s : R503)
    (r : Reading)
    → Answers loop n
    → Less n r
    → (on_reading loop inspect cmd seq s r).0 ≢ none
unfolding on_reading
on_reading-Answers loop inspect cmd n seq s (err e, rx, as') h k = λ d. cc d
on_reading-Answers loop inspect cmd n seq s (ok none, rx, as') h k = λ d. cc d
on_reading-Answers loop inspect cmd n seq s (ok (some line), rx, as') h k =
    on_verdict-Answers loop n (after_reading s rx as') (inspect seq line) h (k line refl)

-- With fuel above the number of bytes and reads that are left, the loop has an answer: the line that
-- ends it, an error, or the deadline.
pub receive-returns :
    (lossy : Bytes → Bytes) (inspect : Inspection) (cmd : Bytes) (fuel seq : ℕ) (s : R503)
    → length s.rx_buf + weight s.arrivals < fuel
    → (receive lossy inspect cmd fuel seq s).0 ≢ none
unfolding receive
receive-returns lossy inspect cmd zero seq s h = absurd (omega arith)
receive-returns lossy inspect cmd (suc fuel) seq s h =
    on_reading-Answers (receive lossy inspect cmd fuel) inspect cmd
      (length s.rx_buf + weight s.arrivals) seq s (read_line lossy s.rx_buf s.arrivals)
      (λ next t k. receive-returns lossy inspect cmd fuel next t (omega arith))
      (read_line-Less lossy s.rx_buf s.arrivals)

flush_port-returns :
    (lossy : Bytes → Bytes) (inspect : Inspection) (cmd : Bytes) (o : Outcome) (s : R503)
    → (flush_port lossy inspect cmd o s).0 ≢ none
unfolding flush_port
flush_port-returns lossy inspect cmd (failed e) s = λ d. cc d
flush_port-returns lossy inspect cmd done s =
    receive-returns lossy inspect cmd (enough s) 0 s (omega arith)

end_line-returns :
    (lossy : Bytes → Bytes) (inspect : Inspection) (cmd : Bytes) (calls : Calls) (o : Outcome)
    (s : R503)
    → (end_line lossy inspect cmd calls o s).0 ≢ none
unfolding end_line
end_line-returns lossy inspect cmd calls (failed e) s = λ d. cc d
end_line-returns lossy inspect cmd calls done s =
    flush_port-returns lossy inspect cmd calls.flushed s

write_text-returns :
    (lossy : Bytes → Bytes) (inspect : Inspection) (cmd : Bytes) (calls : Calls) (o : Outcome)
    (s : R503)
    → (write_text lossy inspect cmd calls o s).0 ≢ none
unfolding write_text
write_text-returns lossy inspect cmd calls (failed e) s = λ d. cc d
write_text-returns lossy inspect cmd calls done s =
    end_line-returns lossy inspect cmd calls calls.ended s

clear_input-returns :
    (lossy : Bytes → Bytes) (inspect : Inspection) (cmd : Bytes) (frames : List Sent)
    (calls : Calls) (o : Outcome) (s : R503)
    → (clear_input lossy inspect cmd frames calls o s).0 ≢ none
unfolding clear_input
clear_input-returns lossy inspect cmd frames calls (failed e) s = λ d. cc d
clear_input-returns lossy inspect cmd frames calls done s =
    write_text-returns lossy inspect cmd calls calls.wrote _

transmit-returns :
    (lossy : Bytes → Bytes) (inspect : Inspection) (cmd : Bytes) (frames : List Sent)
    (calls : Calls) (s : R503)
    → (transmit lossy inspect cmd frames calls s).0 ≢ none
unfolding transmit
transmit-returns lossy inspect cmd frames calls s =
    clear_input-returns lossy inspect cmd frames calls calls.cleared (record s { rx_buf = [] })

after_persist-returns :
    (lossy : Bytes → Bytes) (calls : Calls) (cmd key : Bytes) (next : ℕ) (s : R503)
    (r : Done StateError × Disk)
    → (after_persist lossy calls cmd key next s r).0 ≢ none
unfolding after_persist
after_persist-returns lossy calls cmd key next s (err e, d) = λ x. cc x
after_persist-returns lossy calls cmd key next s (ok u, d) =
    transmit-returns lossy (inspect_framed key s.client_counter) cmd
      (record { counter = s.client_counter; frame = encode_command key s.client_counter cmd } ∷ [])
      calls (record s { disk = d; client_counter = next })

with_next-returns :
    (lossy : Bytes → Bytes) (c : Codec) (calls : Calls) (cmd key : Bytes) (s : R503)
    (r : Result SensorError ℕ)
    → (with_next lossy c calls cmd key s r).0 ≢ none
unfolding with_next
with_next-returns lossy c calls cmd key s (err e) = λ d. cc d
with_next-returns lossy c calls cmd key s (ok next) =
    after_persist-returns lossy calls cmd key next s
      (Counter.save c calls.directory calls.saved next s.disk)

execute_with-returns :
    (lossy : Bytes → Bytes) (c : Codec) (calls : Calls) (cmd : Bytes) (s : R503)
    (key : Option Bytes)
    → (execute_with lossy c calls cmd s key).0 ≢ none
unfolding execute_with execute_unframed execute_framed
execute_with-returns lossy c calls cmd s none =
    transmit-returns lossy inspect_unframed cmd [] calls s
execute_with-returns lossy c calls cmd s (some key) =
    with_next-returns lossy c calls cmd key s (advance_counter s.client_counter)

-- Every command comes to an end, with and without a key, whatever the port's calls do and whatever the
-- port sends: the fuel that `execute` gives the loop is enough.
pub execute-returns :
    (lossy : Bytes → Bytes) (c : Codec) (calls : Calls) (cmd : Bytes) (s : R503)
    → (execute lossy c calls cmd s).0 ≢ none
unfolding execute
execute-returns lossy c calls cmd s = execute_with-returns lossy c calls cmd s s.key
