-- ===== src/Sensor/Tests.antt =====
-- The driver of pcside/daemon/src/sensor.rs at concrete inputs.
use linux_fingerprint_r.Prelude.{
  ◌≡◌, ◌≢◌, refl, some, none, [], ◌∷◌, ◌++◌, Bytes, codes, ok, split_once, starts_with,
  strip_prefix, arith,
}
use linux_fingerprint_r.Disk.{replace_file, open_tmp, write_tmp, sync_tmp, rename_tmp, done, failed}
use linux_fingerprint_r.Counter.{load, save}
use linux_fingerprint_r.Counter.Tests.{symbols, symbols-IsFaithful, all_done, seven}
use linux_fingerprint_r.Framing.{
  encode_response, verify_response, response_mac_input, parse_response, split_mac_suffix,
  parse_mac_hex, mac_bytes, nybble_at, is_char_boundary, boundary_before,
}
use linux_fingerprint_r.Crypto.{siphash24, from_le_bytes}
use linux_fingerprint_r.Decimal.{to_decimal, parse_strict_u64, parse_strict_u32}
use linux_fingerprint_r.Hex.{mac_to_hex, nybble}
use linux_fingerprint_r.Sensor.{
  R503, Calls, chunk, silence, broken, execute, execute_framed, with_next, advance_counter,
  after_persist, transmit, receive, on_reading, read_line, settle, on_verdict, inspect_framed,
  classify, classify_rest, trim_cr, weight,
}
use linux_fingerprint_r.Sensor.Commands.{read_match}
use linux_fingerprint_r.Sensor.Commands.Answers.{match_line, read_match-match_line}
use linux_fingerprint_r.Sensor.Loop.{execute-returns}
use linux_fingerprint_r.Sensor.Opening.Lines.{received}
use linux_fingerprint_r.Sensor.Authentic.{Conversation, execute_framed-authentic}
use linux_fingerprint_r.Sensor.Replay.{
  IsFresh, Descending, Steps, stay, then_step, command, restart, restarted, execute-IsFresh,
  Steps-Descending,
}

abbrev key : Bytes
key = 0 ∷ 1 ∷ 2 ∷ 3 ∷ 4 ∷ 5 ∷ 6 ∷ 7 ∷ 8 ∷ 9 ∷ 10 ∷ 11 ∷ 12 ∷ 13 ∷ 14 ∷ 15 ∷ []

-- A `from_utf8_lossy` for texts that are UTF-8.
abbrev lossy : Bytes → Bytes
lossy s = s

abbrev all_well : Calls
all_well = record {
  directory = done;
  saved = all_done;
  cleared = done;
  wrote = done;
  ended = done;
  flushed = done;
}

abbrev flush_fails : Calls
flush_fails = record all_well { flushed = failed 5 }

-- The next counter is 7, on the disk too; the port falls silent, and then breaks.
abbrev ready : R503
ready = record {
  rx_buf = [];
  key = some key;
  client_counter = 7;
  arrivals = silence ∷ broken 5 ∷ [];
  disk = seven;
  sent = [];
  progress = [];
}

execute-returns_example : (execute lossy symbols all_well (codes "ping") ready).0 ≢ none
execute-returns_example = execute-returns lossy symbols all_well (codes "ping") ready

ready-IsFresh : IsFresh symbols ready
unfolding load
ready-IsFresh = (refl, tt, tt, tt)

abbrev once : R503
once = (execute lossy symbols flush_fails (codes "ping") ready).1

once_loads : load symbols done done (once.disk).target ≡ ok (some once.client_counter)
once_loads =
    (execute-IsFresh lossy symbols flush_fails (codes "ping") ready symbols-IsFaithful
      ready-IsFresh).0

abbrev again_up : R503
again_up = restarted symbols done done key [] once

abbrev twice : R503
twice = (execute lossy symbols all_well (codes "ping") again_up).1

two_commands : Steps lossy symbols ready twice
two_commands =
    then_step ready again_up twice
      (then_step ready once again_up
        (then_step ready ready once (stay ready) (command flush_fails (codes "ping") ready))
        (restart done done key [] (some once.client_counter) once once_loads))
      (command all_well (codes "ping") again_up)

Steps-Descending_example : Descending twice.sent
Steps-Descending_example =
    Steps-Descending lossy symbols ready twice symbols-IsFaithful ready-IsFresh two_commands

abbrev answer : Bytes
answer = codes "OK pong"

abbrev answered : R503
answered = record ready { arrivals = chunk (encode_response key 7 0 answer ++ b'\n' ∷ []) ∷ [] }

answers : (execute_framed lossy symbols all_well (codes "ping") key answered).0 ≡ some (ok answer)
unfolding execute_framed with_next advance_counter after_persist save replace_file open_tmp
    write_tmp sync_tmp rename_tmp transmit receive on_reading read_line settle split_once on_verdict
    inspect_framed classify classify_rest starts_with strip_prefix trim_cr weight encode_response
    response_mac_input verify_response parse_response split_mac_suffix parse_mac_hex mac_bytes
    nybble_at is_char_boundary boundary_before siphash24 to_decimal mac_to_hex nybble from_le_bytes
    parse_strict_u64 parse_strict_u32
answers = refl

execute_framed-authentic_example : Conversation lossy key 7 answer 0 (received answered.arrivals)
execute_framed-authentic_example =
    execute_framed-authentic lossy symbols all_well (codes "ping") key answered answer answers

read_match-match_line_example :
    read_match (match_line 0 168) ≡ ok (record { slot = 0; confidence = 168 })
read_match-match_line_example = read_match-match_line 0 168 (omega arith) (omega arith)
