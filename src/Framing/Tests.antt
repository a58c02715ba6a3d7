-- ===== src/Framing/Tests.antt =====
-- The frames of pcside/daemon/src/framing.rs at concrete inputs.
use linux_fingerprint_r.Prelude.{◌≤◌, ◌≡◌, [], ◌∷◌, ◌++◌, Bytes, codes, ok, length, arith}
use linux_fingerprint_r.Crypto.{siphash24}
use linux_fingerprint_r.Decimal.{max_u64, max_u32, to_decimal}
use linux_fingerprint_r.Framing.{
  command_mac_input, response_mac_input, encode_command, encode_response, verify_command,
  verify_response, parse_mac_hex,
}
use linux_fingerprint_r.Framing.RoundTrip.{
  with_suffix, verify_command-encode_command, verify_response-encode_response,
}
use linux_fingerprint_r.Framing.Strict.{verify_command_sound, verify_response_sound}

abbrev key : Bytes
key = 0 ∷ 1 ∷ 2 ∷ 3 ∷ 4 ∷ 5 ∷ 6 ∷ 7 ∷ 8 ∷ 9 ∷ 10 ∷ 11 ∷ 12 ∷ 13 ∷ 14 ∷ 15 ∷ []

abbrev cmd : Bytes
cmd = codes "verify 3"

abbrev body : Bytes
body = codes "OK match=3 confidence=120"

verify_command-encode_command_example : verify_command key (encode_command key 7 cmd) ≡ ok (7, cmd)
verify_command-encode_command_example =
    verify_command-encode_command key 7 cmd (omega arith) (omega arith) (omega arith)

verify_response-encode_response_example :
    verify_response key (encode_response key 7 2 body) ≡ ok (7, 2, body)
verify_response-encode_response_example =
    verify_response-encode_response key 7 2 body (omega arith) (omega arith) (omega arith)
      (omega arith)

verify_command-encode_command_run : verify_command key (encode_command key 7 cmd) ≡ ok (7, cmd)
verify_command-encode_command_run =
    verify_command-encode_command key 7 cmd (omega arith) (omega arith) (omega arith)

verify_response-encode_response_run :
    verify_response key (encode_response key 7 2 body) ≡ ok (7, 2, body)
verify_response-encode_response_run =
    verify_response-encode_response key 7 2 body (omega arith) (omega arith) (omega arith)
      (omega arith)

verify_command_sound_example :
    (hex : Bytes) × (encode_command key 7 cmd
      ≡ codes "C " ++ with_suffix (to_decimal 7 ++ b' ' ∷ cmd) hex)
    × (length hex ≡ 16)
    × (parse_mac_hex hex ≡ ok (siphash24 key (command_mac_input 7 cmd)))
    × (7 ≤ max_u64)
verify_command_sound_example =
    verify_command_sound key (encode_command key 7 cmd) cmd 7 verify_command-encode_command_run

verify_response_sound_example :
    (hex : Bytes) × (encode_response key 7 2 body
      ≡ codes "R " ++ with_suffix (to_decimal 7 ++ b' ' ∷ (to_decimal 2 ++ b' ' ∷ body)) hex)
    × (length hex ≡ 16)
    × (parse_mac_hex hex ≡ ok (siphash24 key (response_mac_input 7 2 body)))
    × (7 ≤ max_u64)
    × (2 ≤ max_u32)
verify_response_sound_example =
    verify_response_sound key (encode_response key 7 2 body) body 7 2
      verify_response-encode_response_run
