-- ===== src/Sensor.antt =====
-- pcside/daemon/src/sensor.rs: the driver of the sensor's serial port, plain and authenticated.
-- The port is outside: `arrivals` are the results of the reads to come, and `Calls` what the other system
-- calls of a command do. `String::from_utf8_lossy` is a parameter.
mod Tests
pub mod Loop
pub mod Authentic
pub mod Replay
pub mod Transmit
pub mod Commands
pub mod Opening
use linux_fingerprint_r.Prelude.{
  ℕ, zero, suc, ◌+◌, ◌-◌, ◌%◌, ◌^◌, ◌==◌, leb, ltb, if◌then◌else◌, Bool, true, false, not, ◌||◌,
  Option, none, some, List, [], ◌∷◌, ◌++◌, Bytes, codes, length, take, drop, get_elem?,
  strip_prefix, starts_with, split_once, Result, Done, ok, err, ok_or, to_option, ◌>>=◌, Map,
  lookup, insert, arith,
}
use linux_fingerprint_r.Disk.{Disk, Outcome, done, failed, Trial}
use linux_fingerprint_r.Counter.{Codec, StateError}
use linux_fingerprint_r.Counter
use linux_fingerprint_r.Framing.{FramingError, counter_ceiling, encode_command, verify_response}

abbrev pub max_line_len : ℕ
max_line_len = 4096

-- The texts that `SensorError::Protocol` carries, as data.
pub data ProtocolFault : Type 0 where
  line_too_long : ProtocolFault
  response_framing : FramingError → Bytes → ProtocolFault
  counter_mismatch seq_mismatch : ℕ → ℕ → ProtocolFault
  missing_field bad_field : Bytes → ProtocolFault

-- The errors that the modelled operations return; an I/O error has its number.
pub data SensorError : Type 0 where
  io : ℕ → SensorError
  persisting : StateError → SensorError
  timeout : Bytes → SensorError
  command : Bytes → Option Bytes → SensorError
  protocol : ProtocolFault → SensorError
  counter_exhausted no_device : SensorError
  open_failed : Bytes → ℕ → SensorError

unfoldable pub advance_counter : ℕ → Result SensorError ℕ
advance_counter counter =
    if leb counter_ceiling counter then err counter_exhausted else ok (counter + 1)

-- What a read of the port gives: some bytes, nothing in its time, an error; or the deadline has passed
-- before it. Where the list ends the deadline has passed.
pub data Arrival : Type 0 where
  chunk : Bytes → Arrival
  silence expired : Arrival
  broken : ℕ → Arrival

-- What `read_line` returns, with the buffer and the reads that are left.
abbrev pub Reading : Type 0
Reading = Result SensorError (Option Bytes) × Bytes × List Arrival

-- A carriage return at the end is dropped.
unfoldable pub trim_cr : Bytes → Bytes
trim_cr [] = []
trim_cr (b ∷ []) = if b == 13 then [] else b ∷ []
trim_cr (b ∷ c ∷ s) = b ∷ trim_cr (c ∷ s)

-- One round of `read_line` before the port is read; `rest` is what reading it leads to.
unfoldable pub settle :
    (Bytes → Bytes) → Bytes → List Arrival → Option (Bytes × Bytes) → Reading → Reading
settle lossy rx as' (some (line, left)) rest = (ok (some (trim_cr (lossy line))), left, as')
settle lossy rx as' none rest =
    if ltb max_line_len (length rx) then (err (protocol line_too_long), [], as') else rest

unfoldable pub read_line : (Bytes → Bytes) → Bytes → List Arrival → Reading
read_line lossy rx [] = settle lossy rx [] (split_once b'\n' rx) (ok none, rx, [])
read_line lossy rx (expired ∷ as') =
    settle lossy rx (expired ∷ as') (split_once b'\n' rx) (ok none, rx, as')
read_line lossy rx (silence ∷ as') =
    settle lossy rx (silence ∷ as') (split_once b'\n' rx) (read_line lossy rx as')
read_line lossy rx (chunk b ∷ as') =
    settle lossy rx (chunk b ∷ as') (split_once b'\n' rx) (read_line lossy (rx ++ b) as')
read_line lossy rx (broken e ∷ as') =
    settle lossy rx (broken e ∷ as') (split_once b'\n' rx) (err (io e), rx, as')

-- What a line is for the loop that waits for the answer: one more line is to be read, with what
-- `on_progress` is called with and the next sequence number, or the answer is there.
pub data Verdict : Type 0 where
  again : List Bytes → ℕ → Verdict
  final : Bytes → Verdict

abbrev pub unhandled : Bytes → Bytes
unhandled body = codes "[unhandled] " ++ body

-- What a body that is not empty is, with what stands behind a leading "PROGRESS ".
unfoldable pub classify_rest : ℕ → Bytes → Option Bytes → Verdict
classify_rest next body (some rest) = again (rest ∷ []) next
classify_rest next body none =
    if starts_with (codes "OK") body || starts_with (codes "ERR") body
    then final body
    else again (unhandled body ∷ []) next

unfoldable pub classify : ℕ → Bytes → Verdict
classify next body = classify_rest next body (strip_prefix (codes "PROGRESS ") body)

-- The plain protocol.
unfoldable pub inspect_unframed : ℕ → Bytes → Result SensorError Verdict
inspect_unframed seq line = if length line == 0 then ok (again [] seq) else ok (classify seq line)

-- The number of the next response is a `u32`.
abbrev pub next_seq : ℕ → ℕ
next_seq seq = (seq + 1) % 2 ^ 32

-- `map_err` of the error of `framing::verify_response`
framing_fault : Bytes → Result FramingError (ℕ × ℕ × Bytes) → Result SensorError (ℕ × ℕ × Bytes)
framing_fault line (ok frame) = ok frame
framing_fault line (err e) = err (protocol (response_framing e line))

check_frame : ℕ → ℕ → ℕ × ℕ × Bytes → Result SensorError Verdict
check_frame counter seq (got_ctr, got_seq, body) =
    if not (got_ctr == counter)
    then err (protocol (counter_mismatch got_ctr counter))
    else if not (got_seq == seq)
    then err (protocol (seq_mismatch got_seq seq))
    else ok (classify (next_seq seq) body)

-- The framed protocol.
unfoldable pub inspect_framed : Bytes → ℕ → ℕ → Bytes → Result SensorError Verdict
unfolding framing_fault check_frame
inspect_framed key counter seq line =
    if length line == 0
    then ok (again [] seq)
    else if not (starts_with (codes "R ") line)
    then err (command (codes "framing_rejected") (some line))
    else (framing_fault line (verify_response key line) >>= check_frame counter seq)

-- A frame that was written to the port, with its counter.
pub record Sent : Type 0 where
  pub counter : ℕ
  pub frame : Bytes

-- `R503`, with the port, the counter's file, and what was written and called back so far.
pub record R503 : Type 0 where
  pub rx_buf : Bytes
  pub key : Option Bytes
  pub client_counter : ℕ
  pub arrivals : List Arrival
  pub disk : Disk
  pub sent : List Sent
  pub progress : List Bytes

-- What the system calls of one command do.
pub record Calls : Type 0 where
  pub directory : Outcome
  pub saved : Trial
  pub cleared : Outcome
  pub wrote : Outcome
  pub ended : Outcome
  pub flushed : Outcome

abbrev pub Inspection : Type 0
Inspection = ℕ → Bytes → Result SensorError Verdict

-- The answer, where the fuel was enough.
abbrev pub Answer : Type 0
Answer = Option (Result SensorError Bytes) × R503

abbrev pub after_reading : R503 → Bytes → List Arrival → R503
after_reading s rx as' = record s { rx_buf = rx; arrivals = as' }

-- What the loop does with a verdict and with a line; `loop` is its next round.
unfoldable pub on_verdict : (ℕ → R503 → Answer) → R503 → Result SensorError Verdict → Answer
on_verdict loop s (err e) = (some (err e), s)
on_verdict loop s (ok (final body)) = (some (ok body), s)
on_verdict loop s (ok (again called next)) =
    loop next (record s { progress = s.progress ++ called })

unfoldable pub on_reading : (ℕ → R503 → Answer) → Inspection → Bytes → ℕ → R503 → Reading → Answer
on_reading loop inspect cmd seq s (err e, rx, as') = (some (err e), after_reading s rx as')
on_reading loop inspect cmd seq s (ok none, rx, as') =
    (some (err (timeout cmd)), after_reading s rx as')
on_reading loop inspect cmd seq s (ok (some line), rx, as') =
    on_verdict loop (after_reading s rx as') (inspect seq line)

-- The loop that waits for the answer to `cmd`.
unfoldable pub receive : (Bytes → Bytes) → Inspection → Bytes → ℕ → ℕ → R503 → Answer
receive lossy inspect cmd zero seq s = (none, s)
receive lossy inspect cmd (suc fuel) seq s =
    on_reading (receive lossy inspect cmd fuel) inspect cmd seq s
      (read_line lossy s.rx_buf s.arrivals)

-- How often the loop can go round: every line takes a line feed, and every byte is read once.
unfoldable pub weight : List Arrival → ℕ
weight [] = 0
weight (chunk b ∷ as') = 1 + (length b + weight as')
weight (silence ∷ as') = 1 + weight as'
weight (expired ∷ as') = 1 + weight as'
weight (broken e ∷ as') = 1 + weight as'

abbrev pub enough : R503 → ℕ
enough s = suc (length s.rx_buf + weight s.arrivals)

-- From the cleared input queue on: the text and a line feed are written, the port is flushed, and the
-- answer is awaited.
flush_port : (Bytes → Bytes) → Inspection → Bytes → Outcome → R503 → Answer
flush_port lossy inspect cmd (failed e) s = (some (err (io e)), s)
flush_port lossy inspect cmd done s = receive lossy inspect cmd (enough s) 0 s

end_line : (Bytes → Bytes) → Inspection → Bytes → Calls → Outcome → R503 → Answer
end_line lossy inspect cmd calls (failed e) s = (some (err (io e)), s)
end_line lossy inspect cmd calls done s = flush_port lossy inspect cmd calls.flushed s

write_text : (Bytes → Bytes) → Inspection → Bytes → Calls → Outcome → R503 → Answer
write_text lossy inspect cmd calls (failed e) s = (some (err (io e)), s)
write_text lossy inspect cmd calls done s = end_line lossy inspect cmd calls calls.ended s

-- `send` and the loop behind it, once the input queue is cleared. Where the write of a frame was begun, also where it fails, the
-- frame counts as sent.
clear_input : (Bytes → Bytes) → Inspection → Bytes → List Sent → Calls → Outcome → R503 → Answer
clear_input lossy inspect cmd frames calls (failed e) s = (some (err (io e)), s)
clear_input lossy inspect cmd frames calls done s =
    write_text lossy inspect cmd calls calls.wrote (record s { sent = frames ++ s.sent })

pub transmit : (Bytes → Bytes) → Inspection → Bytes → List Sent → Calls → R503 → Answer
unfolding clear_input write_text end_line flush_port
transmit lossy inspect cmd frames calls s =
    clear_input lossy inspect cmd frames calls calls.cleared (record s { rx_buf = [] })

pub execute_unframed : (Bytes → Bytes) → Calls → Bytes → R503 → Answer
execute_unframed lossy calls cmd s = transmit lossy inspect_unframed cmd [] calls s

-- With the counter that is to follow on the disk, or with the error of the save.
unfoldable pub after_persist :
    (Bytes → Bytes) → Calls → Bytes → Bytes → ℕ → R503 → Done StateError × Disk → Answer
after_persist lossy calls cmd key next s (err e, d) =
    (some (err (persisting e)), record s { disk = d })
after_persist lossy calls cmd key next s (ok u, d) =
    transmit lossy (inspect_framed key s.client_counter) cmd
      (record { counter = s.client_counter; frame = encode_command key s.client_counter cmd } ∷ [])
      calls (record s { disk = d; client_counter = next })

unfoldable pub with_next :
    (Bytes → Bytes) → Codec → Calls → Bytes → Bytes → R503 → Result SensorError ℕ → Answer
with_next lossy c calls cmd key s (err e) = (some (err e), s)
with_next lossy c calls cmd key s (ok next) =
    after_persist lossy calls cmd key next s
      (Counter.save c calls.directory calls.saved next s.disk)

unfoldable pub execute_framed : (Bytes → Bytes) → Codec → Calls → Bytes → Bytes → R503 → Answer
execute_framed lossy c calls cmd key s =
    with_next lossy c calls cmd key s (advance_counter s.client_counter)

execute_with : (Bytes → Bytes) → Codec → Calls → Bytes → R503 → Option Bytes → Answer
execute_with lossy c calls cmd s none = execute_unframed lossy calls cmd s
execute_with lossy c calls cmd s (some key) = execute_framed lossy c calls cmd key s

unfoldable pub execute : (Bytes → Bytes) → Codec → Calls → Bytes → R503 → Answer
unfolding execute_with
execute lossy c calls cmd s = execute_with lossy c calls cmd s s.key

pub set_auth : Bytes → ℕ → R503 → R503
set_auth key next_counter s = record s { key = some key; client_counter = next_counter }

-- `sensor_actor::apply_auth`, after a new start: what the state file says, and 1 where it says nothing
-- or cannot be read.
counter_or_fresh : Result StateError (Option ℕ) → ℕ
counter_or_fresh (err e) = Counter.fresh
counter_or_fresh (ok none) = Counter.fresh
counter_or_fresh (ok (some n)) = n

unfoldable pub apply_auth : Codec → Outcome → Outcome → Option Bytes → R503 → R503
unfolding counter_or_fresh set_auth
apply_auth c stat read none s = s
apply_auth c stat read (some k) s =
    set_auth k (counter_or_fresh (Counter.load c stat read (s.disk).target)) s
