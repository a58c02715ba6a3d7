-- ===== src/Sensor/Commands/Answers.antt =====
-- The answer to a match, as the firmware prints it, is what pcside/daemon/src/sensor.rs reads.
use linux_fingerprint_r.Prelude.{
  ℕ, ◌≤◌, ◌≡◌, ◌≢◌, refl, sym, ap, ◌∙◌, inl, inr, some, [], ◌∷◌, ◌++◌, append_assoc, Bytes, codes,
  All, All-append, ok, lookup, insert, eq, strip_prefix, split_once-append, trim, split_whitespace,
  arith,
}
use linux_fingerprint_r.Prelude.Whitespace.Trimming.{IsGraphic}
use linux_fingerprint_r.Prelude.Whitespace.Splitting.{IsPlain, trim-space, split_whitespace-two}
use linux_fingerprint_r.Decimal.{to_decimal, max_u8, max_u16}
use linux_fingerprint_r.Decimal.Laws.{IsDigit, to_decimal-IsDigit, parse-to_decimal}
use linux_fingerprint_r.Sensor.Commands.{
  expect_ok, parse_kv, parse_field, read_match, collect_fields, add_field, field_value, expect_rest,
}

-- The line of firmware/r503fp/r503fp.ino for a match, behind the OK.
abbrev match_fields : ℕ → ℕ → Bytes
match_fields slot confidence =
    codes "match=" ++ (to_decimal slot ++ (codes " confidence=" ++ to_decimal confidence))

abbrev pub match_line : ℕ → ℕ → Bytes
match_line slot confidence = codes "OK " ++ match_fields slot confidence

digits-IsGraphic : (s : Bytes) → All IsDigit s → All IsGraphic s
digits-IsGraphic [] h = tt
digits-IsGraphic (c ∷ s) h = (omega (arith, h.0), digits-IsGraphic s h.1)

graphic-IsPlain : (s : Bytes) → All IsGraphic s → All IsPlain s
graphic-IsPlain [] h = tt
graphic-IsPlain (c ∷ s) h = (inr h.0, graphic-IsPlain s h.1)

decimal-IsGraphic : (n : ℕ) → All IsGraphic (to_decimal n)
decimal-IsGraphic n = digits-IsGraphic (to_decimal n) (to_decimal-IsDigit n)

letters : All IsGraphic (codes "atch=")
letters = (omega arith, (omega arith, (omega arith, (omega arith, (omega arith, tt)))))

more_letters : All IsGraphic (codes "onfidence=")
more_letters = (
  omega arith,
  (
    omega arith,
    (
      omega arith,
      (
        omega arith,
        (
          omega arith,
          (omega arith, (omega arith, (omega arith, (omega arith, (omega arith, tt))))),
        ),
      ),
    ),
  ),
)

match_token : (n : ℕ) → All IsGraphic (codes "atch=" ++ to_decimal n)
match_token n = All-append IsGraphic (codes "atch=") (to_decimal n) letters (decimal-IsGraphic n)

confidence_token : (n : ℕ) → All IsGraphic (codes "onfidence=" ++ to_decimal n)
confidence_token n =
    All-append IsGraphic (codes "onfidence=") (to_decimal n) more_letters (decimal-IsGraphic n)

trim-match_fields :
    (slot confidence : ℕ) → trim (32 ∷ match_fields slot confidence) ≡ match_fields slot confidence
trim-match_fields slot confidence =
    let tail = codes "onfidence=" ++ to_decimal confidence in
    let head = codes "atch=" ++ to_decimal slot in
    let space : (head ++ 32 ∷ []) ++ b'c' ∷ tail ≡ head ++ 32 ∷ b'c' ∷ tail =
      append_assoc head (32 ∷ []) (b'c' ∷ tail) in
    ap (λ (t : Bytes). trim (32 ∷ b'm' ∷ t)) (sym space)
    ∙ trim-space b'm' (head ++ 32 ∷ []) b'c' tail (omega arith)
        (All-append IsPlain head (32 ∷ []) (graphic-IsPlain head (match_token slot)) (inl refl, tt))
        (omega arith) (confidence_token confidence)
    ∙ ap (λ (t : Bytes). b'm' ∷ t) space

split-match_fields :
    (slot confidence : ℕ)
    → split_whitespace (match_fields slot confidence)
      ≡ (codes "match=" ++ to_decimal slot) ∷ (codes "confidence=" ++ to_decimal confidence) ∷ []
split-match_fields slot confidence =
    split_whitespace-two b'm' (codes "atch=" ++ to_decimal slot) b'c'
      (codes "onfidence=" ++ to_decimal confidence) (omega arith, match_token slot)
      (omega arith, confidence_token confidence)

match_key : All (λ x. x ≢ b'=') (codes "match")
match_key = (omega arith, (omega arith, (omega arith, (omega arith, (omega arith, tt)))))

confidence_key : All (λ x. x ≢ b'=') (codes "confidence")
confidence_key = (
  omega arith,
  (
    omega arith,
    (
      omega arith,
      (
        omega arith,
        (
          omega arith,
          (omega arith, (omega arith, (omega arith, (omega arith, (omega arith, tt))))),
        ),
      ),
    ),
  ),
)

parse_kv-match_fields :
    (slot confidence : ℕ)
    → parse_kv (match_fields slot confidence)
      ≡ (codes "match", to_decimal slot) ∷ (codes "confidence", to_decimal confidence) ∷ []
unfolding parse_kv collect_fields add_field insert eq
parse_kv-match_fields slot confidence = rw (
  split-match_fields slot confidence,
  split_once-append b'=' (codes "match") (to_decimal slot) match_key,
  split_once-append b'=' (codes "confidence") (to_decimal confidence) confidence_key,
)

expect_ok-match_line :
    (slot confidence : ℕ)
    → expect_ok (match_line slot confidence) ≡ ok (match_fields slot confidence)
unfolding expect_ok expect_rest strip_prefix
expect_ok-match_line slot confidence = rw (trim-match_fields slot confidence) refl

lookup_match :
    (v w : Bytes)
    → lookup (codes "match") ((codes "match", v) ∷ (codes "confidence", w) ∷ []) ≡ some v
unfolding lookup eq
lookup_match v w = refl

lookup_confidence :
    (v w : Bytes)
    → lookup (codes "confidence") ((codes "match", v) ∷ (codes "confidence", w) ∷ []) ≡ some w
unfolding lookup eq
lookup_confidence v w = refl

field_value-to_decimal :
    (max : ℕ) (key : Bytes) (n : ℕ) → n ≤ max → field_value max key (some (to_decimal n)) ≡ ok n
unfolding field_value
field_value-to_decimal max key n h = rw (field_value, parse-to_decimal max n h) refl

-- The line `OK match=S confidence=C`, with S and C in decimal, is read back as the slot S and the confidence C,
-- for every slot that fits a u8 and every confidence that fits a u16.
pub read_match-match_line :
    (slot confidence : ℕ)
    → slot ≤ max_u8
    → confidence ≤ max_u16
    → read_match (match_line slot confidence) ≡ ok (record { slot = slot; confidence = confidence })
unfolding read_match parse_field
read_match-match_line slot confidence s c = rw (
  expect_ok-match_line slot confidence,
  parse_kv-match_fields slot confidence,
  lookup_match (to_decimal slot) (to_decimal confidence),
  lookup_confidence (to_decimal slot) (to_decimal confidence),
  field_value-to_decimal max_u8 (codes "match") slot s,
  field_value-to_decimal max_u16 (codes "confidence") confidence c,
)
