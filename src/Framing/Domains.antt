-- ===== src/Framing/Domains.antt =====
-- The texts that the MACs of pcside/daemon/src/framing.rs are made of.
use linux_fingerprint_r.Prelude.{
  Option, ℕ, ◌≤◌, ◌≡◌, ◌≢◌, sym, ap, ◌∙◌, some, ◌∷◌, ◌++◌, Bytes, ok, err, split_once, strip_prefix,
  drop, get_elem?, arith,
}
use linux_fingerprint_r.Decimal.{max_u64, max_u32, to_decimal, parse_strict_u64}
use linux_fingerprint_r.Decimal.Laws.{parse_strict_u64-to_decimal}
use linux_fingerprint_r.Framing.{
  wrong_leader, command_mac_input, response_mac_input, verify_command, parse_response,
  verify_response,
}
use linux_fingerprint_r.Framing.Strict.{verify_command_sound}
use linux_fingerprint_r.Framing.RoundTrip.{split_once-to_decimal}

some_injective {ℓ} : {A : Type ℓ} (a b : A) → some a ≡ some b → a ≡ b
some_injective a b e = cc e

prints_same :
    (a b s t : Bytes) → ◌≡◌ {A = Option (Bytes × Bytes)} (some (a, s)) (some (b, t)) → a ≡ b
prints_same a b s t e = cc e

rests_same :
    (a b s t : Bytes) → ◌≡◌ {A = Option (Bytes × Bytes)} (some (a, s)) (some (b, t)) → s ≡ t
rests_same a b s t e = cc e

-- A print and what follows the space behind it can be told from the text.
field_injective :
    (m n : ℕ) (s t : Bytes)
    → m ≤ max_u64
    → n ≤ max_u64
    → to_decimal m ++ b' ' ∷ s ≡ to_decimal n ++ b' ' ∷ t
    → (m ≡ n) × (s ≡ t)
field_injective m n s t h k e =
    let cuts : some (to_decimal m, s) ≡ some (to_decimal n, t) =
      sym (split_once-to_decimal m s) ∙ ap (split_once b' ') e ∙ split_once-to_decimal n t in
    let prints : to_decimal m ≡ to_decimal n = prints_same _ _ _ _ cuts in
    let read : some m ≡ some n =
      sym (parse_strict_u64-to_decimal m h)
      ∙ ap parse_strict_u64 prints
      ∙ parse_strict_u64-to_decimal n k in
    (some_injective m n read, rests_same _ _ _ _ cuts)

leaders_apart : ◌≢◌ {A = Option ℕ} (some b'C') (some b'R')
leaders_apart e = ground arith

-- Two commands with `u64` counters whose MACs are taken of the same text are the same command.
pub command_mac_input_injective :
    (m n : ℕ) (s t : Bytes)
    → m ≤ max_u64
    → n ≤ max_u64
    → command_mac_input m s ≡ command_mac_input n t
    → (m ≡ n) × (s ≡ t)
unfolding command_mac_input
command_mac_input_injective m n s t h k e = field_injective m n s t h k (ap (drop 4) e)

-- Two responses with `u64` counters and `u32` sequence numbers whose MACs are taken of the same text
-- are the same response.
pub response_mac_input_injective :
    (m n p q : ℕ) (s t : Bytes)
    → m ≤ max_u64
    → n ≤ max_u64
    → p ≤ max_u32
    → q ≤ max_u32
    → response_mac_input m p s ≡ response_mac_input n q t
    → (m ≡ n) × (p ≡ q) × (s ≡ t)
unfolding response_mac_input
response_mac_input_injective m n p q s t h k hp hq e =
    let (first, rest) =
      field_injective m n (to_decimal p ++ b' ' ∷ s) (to_decimal q ++ b' ' ∷ t) h k
        (ap (drop 4) e) in
    let (second, body) = field_injective p q s t (omega arith) (omega arith) rest in
    (first, second, body)

-- The MAC text of a command is never that of a response, whatever the two hold.
domains_apart : (m n seq : ℕ) (s t : Bytes) → command_mac_input m s ≢ response_mac_input n seq t
unfolding command_mac_input response_mac_input
domains_apart m n seq s t e = leaders_apart (ap (λ (x : Bytes). get_elem? x 0) e)

-- No frame is both: with any two keys, a line that `verify_command` accepts is refused by
-- `verify_response` for its leader.
pub command-refused_as_response :
    (key other line cmd : Bytes) (counter : ℕ)
    → verify_command key line ≡ ok (counter, cmd)
    → verify_response other line ≡ err (wrong_leader b'R')
unfolding verify_response parse_response strip_prefix
command-refused_as_response key other line cmd counter e =
    let (hex, whole, long, read, small) = verify_command_sound key line cmd counter e in rw whole
