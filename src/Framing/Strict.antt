-- ===== src/Framing/Strict.antt =====
-- What the verifiers of pcside/daemon/src/framing.rs accept: nothing but frames.
use linux_fingerprint_r.Prelude.{
  ℕ, ◌-◌, ◌≤◌, ◌≡◌, sym, ap, ◌∙◌, subst, Bool-cases, inl, inr, true, false, ◌∷◌, ◌++◌, Bytes, codes,
  Result, ok, err, ok_or, >>=-eq-ok, ok_or-eq-ok, length, take, drop, length-drop, take-append-drop,
  strip_prefix, strip_prefix_sound, split_once, split_once_sound, starts_with, starts_with_sound,
  arith, ◌==◌, ==_iff, ltb, if◌then◌else◌, ok_injective,
}
use linux_fingerprint_r.Crypto.{siphash24}
use linux_fingerprint_r.Decimal.{max_u64, max_u32, to_decimal, parse_strict_u64, parse_strict_u32}
use linux_fingerprint_r.Decimal.Laws.{parse_strict_u64_sound, parse_strict_u32_sound}
use linux_fingerprint_r.Framing.{
  FramingError, command_mac_input, response_mac_input, parse_mac_hex, split_mac_suffix,
  split_counter_body, parse_command, verify_command, parse_response, verify_response, too_short,
  wrong_leader, invalid_counter, invalid_seq, mac_mismatch,
}
use linux_fingerprint_r.Framing.RoundTrip.{with_suffix}

-- The tests that a successful cut has passed.
split_tests :
    (s head : Bytes) (mac : ℕ)
    → split_mac_suffix s ≡ ok (head, mac)
    → (ltb (length s) 19 ≡ false)
      × (starts_with (codes " M ") (drop (length s - 19) s) ≡ true)
      × (head ≡ take (length s - 19) s)
      × (parse_mac_hex (drop 3 (drop (length s - 19) s)) ≡ ok mac)
unfolding split_mac_suffix
split_tests s head mac e = ground arith

not_short : (s : Bytes) → ltb (length s) 19 ≡ false → 19 ≤ length s
not_short s h = ground arith

split_mac_suffix_sound :
    (s head : Bytes) (mac : ℕ)
    → split_mac_suffix s ≡ ok (head, mac)
    → (hex : Bytes) × (s ≡ with_suffix head hex) × (length hex ≡ 16) × (parse_mac_hex hex ≡ ok mac)
split_mac_suffix_sound s head mac e =
    let (long, starts, front, read) = split_tests s head mac e in
    let suffix = drop (length s - 19) s in
    (
      drop 3 suffix,
      sym (take-append-drop (length s - 19) s)
          ∙ (λ i. sym front i ++ starts_with_sound (codes " M ") suffix starts i),
      omega (arith, not_short s long, length-drop (length s - 19) s, length-drop 3 suffix),
      read,
    )

-- The body of a command is the print of the counter, a space, and the command line.
split_counter_body_sound :
    (s rest : Bytes) (counter : ℕ)
    → split_counter_body s ≡ ok (counter, rest)
    → (s ≡ to_decimal counter ++ b' ' ∷ rest) × (counter ≤ max_u64)
unfolding split_counter_body
split_counter_body_sound s rest counter e =
    let (cut, e1, e2) = >>=-eq-ok (ok_or (split_once b' ' s) (too_short (length s))) _ e in
    let (n, e3, e4) = >>=-eq-ok (ok_or (parse_strict_u64 cut.0) invalid_counter) _ e2 in
    let (print, small) = parse_strict_u64_sound cut.0 n (ok_or-eq-ok _ _ e3) in
    let whole : s ≡ cut.0 ++ b' ' ∷ cut.1 =
      split_once_sound b' ' s cut.0 cut.1 (ok_or-eq-ok _ _ e1) in
    let same : n ≡ counter = cc e4 in
    let tail : cut.1 ≡ rest = cc e4 in
    (whole ∙ (λ i. (print ∙ ap to_decimal same) i ++ b' ' ∷ tail i), omega arith)

parse_command_sound :
    (line cmd : Bytes) (counter mac : ℕ)
    → parse_command line ≡ ok (counter, cmd, mac)
    → (hex : Bytes) × (line ≡ codes "C " ++ with_suffix (to_decimal counter ++ b' ' ∷ cmd) hex)
      × (length hex ≡ 16)
      × (parse_mac_hex hex ≡ ok mac)
      × (counter ≤ max_u64)
unfolding parse_command
parse_command_sound line cmd counter mac e =
    let (rest, e1, e2) =
      >>=-eq-ok (ok_or (strip_prefix (codes "C ") line) (wrong_leader b'C')) _ e in
    let (cut, e3, e4) = >>=-eq-ok (split_mac_suffix rest) _ e2 in
    let (body, e5, e6) = >>=-eq-ok (split_counter_body cut.0) _ e4 in
    let (hex, whole, long, read) = split_mac_suffix_sound rest cut.0 cut.1 e3 in
    let (front, small) = split_counter_body_sound cut.0 body.1 body.0 e5 in
    let same : body.0 ≡ counter = cc e6 in
    let text : body.1 ≡ cmd = cc e6 in
    let tag : cut.1 ≡ mac = cc e6 in
    (
      hex,
      strip_prefix_sound (codes "C ") line rest (ok_or-eq-ok _ _ e1)
          ∙ ap (λ (t : Bytes). codes "C " ++ t)
              (whole
                ∙ ap (λ (t : Bytes). with_suffix t hex)
                    (front ∙ (λ i. to_decimal (same i) ++ b' ' ∷ text i))),
      long,
      read ∙ ap (λ (t : ℕ). ok t) tag,
      omega arith,
    )

not_ok {ℓ} : {A : Type ℓ} (w : A) → ◌≡◌ {A = Result FramingError A} (err mac_mismatch) (ok w) → ⊥
not_ok w e = cc

-- What is behind the comparison of the MACs was returned because they are equal.
checked {ℓ} :
    {A : Type ℓ} (expected claimed : ℕ) (v w : A)
    → ◌≡◌ {A = Result FramingError A}
        (if expected == claimed then ok v else err mac_mismatch)
        (ok w)
    → (expected ≡ claimed) × (v ≡ w)
checked expected claimed v w e = elim (Bool-cases (expected == claimed)) [
  | inl p ↦ ((==_iff expected claimed).0 p, ok_injective (rw p at e))
  | inr p ↦ absurd (not_ok w (rw p at e))
]

-- What `verify_command` accepts, for any key and any line, is a frame: the leader, the decimal print of
-- a counter that fits a `u64`, the command line, and sixteen digits that read as the MAC which the
-- key gives to that counter and that command line. So a counter has one spelling.
pub verify_command_sound :
    (key line cmd : Bytes) (counter : ℕ)
    → verify_command key line ≡ ok (counter, cmd)
    → (hex : Bytes) × (line ≡ codes "C " ++ with_suffix (to_decimal counter ++ b' ' ∷ cmd) hex)
      × (length hex ≡ 16)
      × (parse_mac_hex hex ≡ ok (siphash24 key (command_mac_input counter cmd)))
      × (counter ≤ max_u64)
unfolding verify_command
verify_command_sound key line cmd counter e =
    let (parts, e1, e2) = >>=-eq-ok (parse_command line) _ e in
    let (hex, whole, long, read, small) = parse_command_sound line parts.1 parts.0 parts.2 e1 in
    let (tag, same) = checked (siphash24 key (command_mac_input parts.0 parts.1)) parts.2 _ _ e2 in
    (
      hex,
      whole ∙ (λ i. codes "C " ++ with_suffix (to_decimal (same i).0 ++ b' ' ∷ (same i).1) hex),
      long,
      read
          ∙ (λ i. ok (sym tag i))
          ∙ (λ i. ok (siphash24 key (command_mac_input (same i).0 (same i).1))),
      subst (λ (t : ℕ). t ≤ max_u64) (λ i. (same i).0) small,
    )

parse_response_sound :
    (line body : Bytes) (counter seq mac : ℕ)
    → parse_response line ≡ ok (counter, seq, body, mac)
    → (hex : Bytes) × (line
        ≡ codes "R "
          ++ with_suffix (to_decimal counter ++ b' ' ∷ (to_decimal seq ++ b' ' ∷ body)) hex)
      × (length hex ≡ 16)
      × (parse_mac_hex hex ≡ ok mac)
      × (counter ≤ max_u64)
      × (seq ≤ max_u32)
unfolding parse_response
parse_response_sound line body counter seq mac e =
    let (rest, e1, e2) =
      >>=-eq-ok (ok_or (strip_prefix (codes "R ") line) (wrong_leader b'R')) _ e in
    let (cut, e3, e4) = >>=-eq-ok (split_mac_suffix rest) _ e2 in
    let (one, e5, e6) = >>=-eq-ok (ok_or (split_once b' ' cut.0) (too_short (length cut.0))) _ e4 in
    let (n, e7, e8) = >>=-eq-ok (ok_or (parse_strict_u64 one.0) invalid_counter) _ e6 in
    let (two, e9, e10) =
      >>=-eq-ok (ok_or (split_once b' ' one.1) (too_short (length one.1))) _ e8 in
    let (m, e11, e12) = >>=-eq-ok (ok_or (parse_strict_u32 two.0) invalid_seq) _ e10 in
    let (hex, whole, long, read) = split_mac_suffix_sound rest cut.0 cut.1 e3 in
    let (print, small) = parse_strict_u64_sound one.0 n (ok_or-eq-ok _ _ e7) in
    let (print2, small2) = parse_strict_u32_sound two.0 m (ok_or-eq-ok _ _ e11) in
    let same : ◌≡◌ {A = ℕ × ℕ × Bytes × ℕ} (n, m, two.1, cut.1) (counter, seq, body, mac) =
      ok_injective e12 in
    let front : cut.0 ≡ to_decimal n ++ b' ' ∷ (to_decimal m ++ b' ' ∷ two.1) =
      split_once_sound b' ' cut.0 one.0 one.1 (ok_or-eq-ok _ _ e5) ∙ (λ i.
        print i
        ++ b' '
          ∷ (split_once_sound b' ' one.1 two.0 two.1 (ok_or-eq-ok _ _ e9)
                ∙ ap (λ (t : Bytes). t ++ b' ' ∷ two.1) print2)
              i) in
    (
      hex,
      strip_prefix_sound (codes "R ") line rest (ok_or-eq-ok _ _ e1)
          ∙ ap (λ (t : Bytes). codes "R " ++ t)
              (whole ∙ ap (λ (t : Bytes). with_suffix t hex) front)
          ∙ (λ i.
              codes "R "
              ++ with_suffix
                  (to_decimal (same i).0 ++ b' ' ∷ (to_decimal (same i).1 ++ b' ' ∷ (same i).2))
                  hex),
      long,
      read ∙ (λ i. ok (same i).3),
      subst (λ (t : ℕ). t ≤ max_u64) (λ i. (same i).0) small,
      subst (λ (t : ℕ). t ≤ max_u32) (λ i. (same i).1) small2,
    )

-- What `verify_response` accepts, for any key and any line, is a frame: the leader, the decimal prints
-- of a counter that fits a `u64` and of a sequence number that fits a `u32`, the body, and sixteen
-- digits that read as the MAC which the key gives to those three.
pub verify_response_sound :
    (key line body : Bytes) (counter seq : ℕ)
    → verify_response key line ≡ ok (counter, seq, body)
    → (hex : Bytes) × (line
        ≡ codes "R "
          ++ with_suffix (to_decimal counter ++ b' ' ∷ (to_decimal seq ++ b' ' ∷ body)) hex)
      × (length hex ≡ 16)
      × (parse_mac_hex hex ≡ ok (siphash24 key (response_mac_input counter seq body)))
      × (counter ≤ max_u64)
      × (seq ≤ max_u32)
unfolding verify_response
verify_response_sound key line body counter seq e =
    let (p, e1, e2) = >>=-eq-ok (parse_response line) _ e in
    let (hex, whole, long, read, small, small2) = parse_response_sound line p.2 p.0 p.1 p.3 e1 in
    let (tag, same) = checked (siphash24 key (response_mac_input p.0 p.1 p.2)) p.3 _ _ e2 in
    (
      hex,
      whole ∙ (λ i.
          codes "R "
          ++ with_suffix
              (to_decimal (same i).0 ++ b' ' ∷ (to_decimal (same i).1 ++ b' ' ∷ (same i).2)) hex),
      long,
      read
          ∙ (λ i. ok (sym tag i))
          ∙ (λ i. ok (siphash24 key (response_mac_input (same i).0 (same i).1 (same i).2))),
      subst (λ (t : ℕ). t ≤ max_u64) (λ i. (same i).0) small,
      subst (λ (t : ℕ). t ≤ max_u32) (λ i. (same i).1) small2,
    )
