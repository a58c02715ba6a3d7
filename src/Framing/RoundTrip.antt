-- ===== src/Framing/RoundTrip.antt =====
-- A frame that is encoded is verified: pcside/daemon/src/framing.rs.
use linux_fingerprint_r.Prelude.{
  ℕ, ◌+◌, ◌-◌, ◌≤◌, ◌≡◌, ◌≢◌, refl, true, some, [], ◌∷◌, ◌++◌, Bytes, codes, All, All-append, ok,
  length, length-append, take-append, drop-append, strip_prefix-append, split_once,
  split_once-append, starts_with, arith, ◌==◌, ltb, false,
}
use linux_fingerprint_r.Crypto.{siphash24}
use linux_fingerprint_r.Crypto.Bounds.{IsByte, siphash24-lt}
use linux_fingerprint_r.Decimal.{max_u64, max_u32, to_decimal}
use linux_fingerprint_r.Decimal.Laws.{
  IsDigit, to_decimal-IsDigit, parse_strict_u64-to_decimal, parse_strict_u32-to_decimal,
}
use linux_fingerprint_r.Hex.{mac_to_hex}
use linux_fingerprint_r.Framing.{
  command_mac_input, response_mac_input, encode_command, encode_response, is_char_boundary,
  boundary_before, parse_mac_hex, split_mac_suffix, split_counter_body, parse_command,
  verify_command, parse_response, verify_response,
}
use linux_fingerprint_r.Framing.Mac.{get_elem?-append, length-mac_to_hex, parse_mac_hex-mac_to_hex}

digits-lack_space : (s : Bytes) → All IsDigit s → All (λ x. x ≢ b' ') s
digits-lack_space [] h = tt
digits-lack_space (c ∷ s) h = (omega arith, digits-lack_space s h.1)

pub split_once-to_decimal :
    (n : ℕ) (s : Bytes) → split_once b' ' (to_decimal n ++ b' ' ∷ s) ≡ some (to_decimal n, s)
split_once-to_decimal n s =
    split_once-append b' ' (to_decimal n) s
      (digits-lack_space (to_decimal n) (to_decimal-IsDigit n))

abbrev pub with_suffix : Bytes → Bytes → Bytes
with_suffix head hex = head ++ (codes " M " ++ hex)

is_char_boundary-suffix :
    (head hex : Bytes) → is_char_boundary (with_suffix head hex) (length head) ≡ true
unfolding is_char_boundary boundary_before
is_char_boundary-suffix head hex =
    ground (arith, get_elem?-append head (b'M' ∷ b' ' ∷ hex) b' ' (length head) refl)

split_mac_suffix-append :
    (head hex : Bytes) (mac : ℕ)
    → length hex ≡ 16
    → parse_mac_hex hex ≡ ok mac
    → split_mac_suffix (with_suffix head hex) ≡ ok (head, mac)
unfolding split_mac_suffix starts_with
split_mac_suffix-append head hex mac h e =
    let s = with_suffix head hex in
    let whole : length s ≡ length head + 19 =
      omega (arith, h, length-append head (codes " M " ++ hex)) in
    let long : ltb (length s) 19 ≡ false = ground arith in
    let at_head : length s - 19 ≡ length head = omega arith in
    rw (
      long,
      at_head,
      is_char_boundary-suffix head hex,
      drop-append head (codes " M " ++ hex) refl,
      take-append head (codes " M " ++ hex) refl,
      e,
    )

parse_command-append :
    (counter mac : ℕ) (cmd hex : Bytes)
    → counter ≤ max_u64
    → length hex ≡ 16
    → parse_mac_hex hex ≡ ok mac
    → parse_command (codes "C " ++ with_suffix (to_decimal counter ++ b' ' ∷ cmd) hex)
      ≡ ok (counter, cmd, mac)
unfolding parse_command split_counter_body
parse_command-append counter mac cmd hex h l e = rw (
  strip_prefix-append (codes "C ") (with_suffix (to_decimal counter ++ b' ' ∷ cmd) hex),
  split_mac_suffix-append (to_decimal counter ++ b' ' ∷ cmd) hex mac l e,
  split_once-to_decimal counter cmd,
  parse_strict_u64-to_decimal counter h,
)

parse_response-append :
    (counter seq mac : ℕ) (body hex : Bytes)
    → counter ≤ max_u64
    → seq ≤ max_u32
    → length hex ≡ 16
    → parse_mac_hex hex ≡ ok mac
    → parse_response (
        codes "R "
        ++ with_suffix (to_decimal counter ++ b' ' ∷ (to_decimal seq ++ b' ' ∷ body)) hex)
      ≡ ok (counter, seq, body, mac)
unfolding parse_response
parse_response-append counter seq mac body hex h k l e =
    let head = to_decimal counter ++ b' ' ∷ (to_decimal seq ++ b' ' ∷ body) in
    rw (
      strip_prefix-append (codes "R ") (with_suffix head hex),
      split_mac_suffix-append head hex mac l e,
      split_once-to_decimal counter (to_decimal seq ++ b' ' ∷ body),
      parse_strict_u64-to_decimal counter h,
      split_once-to_decimal seq body,
      parse_strict_u32-to_decimal seq k,
    )

digits-IsByte : (s : Bytes) → All IsDigit s → All IsByte s
digits-IsByte [] h = tt
digits-IsByte (c ∷ s) h = (omega arith, digits-IsByte s h.1)

to_decimal-IsByte : (n : ℕ) → All IsByte (to_decimal n)
to_decimal-IsByte n = digits-IsByte (to_decimal n) (to_decimal-IsDigit n)

command_mac_input-IsByte :
    (counter : ℕ) (cmd : Bytes) → All IsByte cmd → All IsByte (command_mac_input counter cmd)
unfolding command_mac_input
command_mac_input-IsByte counter cmd h =
    All-append IsByte (codes "CMD ") (to_decimal counter ++ b' ' ∷ cmd) (omega arith) (
      All-append IsByte (to_decimal counter) (b' ' ∷ cmd) (to_decimal-IsByte counter)
        (omega arith, h))

response_mac_input-IsByte :
    (counter seq : ℕ) (body : Bytes)
    → All IsByte body
    → All IsByte (response_mac_input counter seq body)
unfolding response_mac_input
response_mac_input-IsByte counter seq body h =
    All-append IsByte (codes "RSP ") (to_decimal counter ++ b' ' ∷ (to_decimal seq ++ b' ' ∷ body))
      (omega arith)
      (All-append IsByte (to_decimal counter) (b' ' ∷ (to_decimal seq ++ b' ' ∷ body))
        (to_decimal-IsByte counter)
        (
          omega arith,
          All-append IsByte (to_decimal seq) (b' ' ∷ body) (to_decimal-IsByte seq) (omega arith, h),
        ))

==_refl : (n : ℕ) → (n == n) ≡ true
==_refl n = ground arith

-- For every key of bytes, every `u64` counter and every command text, without restriction on the
-- characters of the text, the encoded frame is verified and gives the counter and the text back.
pub verify_command-encode_command :
    (key : Bytes) (counter : ℕ) (cmd : Bytes)
    → All IsByte key
    → counter ≤ max_u64
    → All IsByte cmd
    → verify_command key (encode_command key counter cmd) ≡ ok (counter, cmd)
unfolding verify_command encode_command
verify_command-encode_command key counter cmd hk h hb =
    let mac = siphash24 key (command_mac_input counter cmd) in
    rw (
      parse_command-append counter mac cmd (mac_to_hex mac) h (length-mac_to_hex mac) (
          parse_mac_hex-mac_to_hex mac
            (siphash24-lt key _ hk (command_mac_input-IsByte counter cmd hb))),
      ==_refl mac,
    )

-- For every key of bytes, every `u64` counter, every `u32` sequence number and every body, the encoded
-- response is verified and gives the three back.
pub verify_response-encode_response :
    (key : Bytes) (counter seq : ℕ) (body : Bytes)
    → All IsByte key
    → counter ≤ max_u64
    → seq ≤ max_u32
    → All IsByte body
    → verify_response key (encode_response key counter seq body) ≡ ok (counter, seq, body)
unfolding verify_response encode_response
verify_response-encode_response key counter seq body hk h k hb =
    let mac = siphash24 key (response_mac_input counter seq body) in
    rw (
      parse_response-append counter seq mac body (mac_to_hex mac) h k (length-mac_to_hex mac) (
          parse_mac_hex-mac_to_hex mac
            (siphash24-lt key _ hk (response_mac_input-IsByte counter seq body hb))),
      ==_refl mac,
    )
