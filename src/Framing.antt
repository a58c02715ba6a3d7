-- ===== src/Framing.antt =====
-- pcside/daemon/src/framing.rs: the frames of the authenticated channel. A text is its bytes.
mod Tests
pub mod Mac
pub mod RoundTrip
pub mod Strict
pub mod Domains
use Prim.Native.Nat.{bit_or}
use linux_fingerprint_r.Prelude.{
  ℕ, zero, suc, ◌+◌, ◌-◌, ◌*◌, ◌^◌, Bool, true, false, not, ◌||◌, Option, none, some, [], ◌∷◌, ◌++◌,
  Bytes, codes, Result, ok, err, ◌>>=◌, ok_or, length, take, drop, get_elem?, starts_with,
  strip_prefix, split_once, ltb, leb, ◌==◌, if◌then◌else◌,
}
use linux_fingerprint_r.Crypto.{siphash24, from_le_bytes}
use linux_fingerprint_r.Decimal.{to_decimal, parse_strict_u64, parse_strict_u32}
use linux_fingerprint_r.Hex.{nybble, mac_to_hex}

abbrev pub mac_hex_len : ℕ
mac_hex_len = 16

-- " M " and the digits
abbrev pub mac_suffix_len : ℕ
mac_suffix_len = 3 + mac_hex_len

abbrev pub counter_ceiling : ℕ
counter_ceiling = 0xFFFF_FFFF_FFFF_0000

pub data FramingError : Type 0 where
  too_short : ℕ → FramingError
  wrong_leader : ℕ → FramingError
  missing_mac_suffix invalid_mac invalid_counter invalid_seq mac_mismatch : FramingError

-- `format!("CMD {} {}", counter, cmd_line)`
pub command_mac_input : ℕ → Bytes → Bytes
command_mac_input counter cmd_line = codes "CMD " ++ (to_decimal counter ++ b' ' ∷ cmd_line)

-- `format!("RSP {} {} {}", counter, seq, body_line)`
unfoldable pub response_mac_input : ℕ → ℕ → Bytes → Bytes
response_mac_input counter seq body_line =
    codes "RSP " ++ (to_decimal counter ++ b' ' ∷ (to_decimal seq ++ b' ' ∷ body_line))

pub encode_command : Bytes → ℕ → Bytes → Bytes
encode_command key counter cmd_line =
    let mac = siphash24 key (command_mac_input counter cmd_line) in
    codes "C " ++ ((to_decimal counter ++ b' ' ∷ cmd_line) ++ (codes " M " ++ mac_to_hex mac))

unfoldable pub encode_response : Bytes → ℕ → ℕ → Bytes → Bytes
encode_response key counter seq body_line =
    let mac = siphash24 key (response_mac_input counter seq body_line) in
    codes "R "
    ++ ((to_decimal counter ++ b' ' ∷ (to_decimal seq ++ b' ' ∷ body_line))
        ++ (codes " M " ++ mac_to_hex mac))

-- `bytes[k]` read as a digit; the caller has checked the length, so `k` is in range.
unfoldable pub nybble_at : Bytes → ℕ → Result FramingError ℕ
nybble_at bytes k = do c ← ok_or (get_elem? bytes k) invalid_mac; ok_or (nybble c) invalid_mac

-- `for i in 0..8`, with the rounds that are left; the result is `out` from index `i` on.
unfoldable pub mac_bytes : ℕ → ℕ → Bytes → Result FramingError Bytes
mac_bytes zero i bytes = ok []
mac_bytes (suc left) i bytes = do
  hi ← nybble_at bytes (i * 2)
  lo ← nybble_at bytes (i * 2 + 1)
  out ← mac_bytes left (i + 1) bytes
  ok (bit_or (hi * 2 ^ 4) lo ∷ out)

unfoldable pub parse_mac_hex : Bytes → Result FramingError ℕ
parse_mac_hex hex =
    if not (length hex == mac_hex_len)
    then err invalid_mac
    else (do out ← mac_bytes 8 0 hex; ok (from_le_bytes out))

-- `str::is_char_boundary`: no cut before a continuation byte of UTF-8.
unfoldable pub boundary_before : Option ℕ → Bool
boundary_before none = false
boundary_before (some b) = ltb b 128 || leb 192 b

unfoldable pub is_char_boundary : Bytes → ℕ → Bool
is_char_boundary s i = i == 0 || (i == length s || boundary_before (get_elem? s i))

unfoldable pub split_mac_suffix : Bytes → Result FramingError (Bytes × ℕ)
split_mac_suffix s =
    let split_at = length s - mac_suffix_len in
    let suffix = drop split_at s in
    if ltb (length s) mac_suffix_len
    then err (too_short (length s))
    else if not (is_char_boundary s split_at)
    then err missing_mac_suffix
    else if not (starts_with (codes " M ") suffix)
    then err missing_mac_suffix
    else (do mac ← parse_mac_hex (drop 3 suffix); ok (take split_at s, mac))

-- The slices `&s[..sp]` and `&s[sp + 1..]` are what `split_once` returns.
split_counter_body : Bytes → Result FramingError (ℕ × Bytes)
split_counter_body s = do
  (before, after) ← ok_or (split_once b' ' s) (too_short (length s))
  counter ← ok_or (parse_strict_u64 before) invalid_counter
  ok (counter, after)

pub parse_command : Bytes → Result FramingError (ℕ × Bytes × ℕ)
parse_command line = do
  rest ← ok_or (strip_prefix (codes "C ") line) (wrong_leader b'C')
  (head, mac) ← split_mac_suffix rest
  (counter, cmd_line) ← split_counter_body head
  ok (counter, cmd_line, mac)

-- `ct_eq` is equality.
pub verify_command : Bytes → Bytes → Result FramingError (ℕ × Bytes)
verify_command key line = do
  (counter, cmd_line, claimed) ← parse_command line
  if siphash24 key (command_mac_input counter cmd_line) == claimed
      then ok (counter, cmd_line)
      else err mac_mismatch

unfoldable pub parse_response : Bytes → Result FramingError (ℕ × ℕ × Bytes × ℕ)
parse_response line = do
  rest ← ok_or (strip_prefix (codes "R ") line) (wrong_leader b'R')
  (head, mac) ← split_mac_suffix rest
  (before, rest1) ← ok_or (split_once b' ' head) (too_short (length head))
  counter ← ok_or (parse_strict_u64 before) invalid_counter
  (middle, body) ← ok_or (split_once b' ' rest1) (too_short (length rest1))
  seq ← ok_or (parse_strict_u32 middle) invalid_seq
  ok (counter, seq, body, mac)

unfoldable pub verify_response : Bytes → Bytes → Result FramingError (ℕ × ℕ × Bytes)
verify_response key line = do
  (counter, seq, body, claimed) ← parse_response line
  if siphash24 key (response_mac_input counter seq body) == claimed
      then ok (counter, seq, body)
      else err mac_mismatch
