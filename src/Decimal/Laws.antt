-- ===== src/Decimal/Laws.antt =====
-- The strict readers accept exactly what `{}` prints.
use mathlib.Core.WellFounded
use native.Mathlib.Decide.{dec_lt}
use linux_fingerprint_r.Prelude.{
  ℕ, zero, suc, ◌+◌, ◌-◌, ◌*◌, ◌/◌, ◌%◌, ◌≤◌, ◌<◌, ◌≡◌, ◌≢◌, refl, sym, ap, ◌∙◌, ◌⊎◌, inl, inr,
  true, some, [], ◌∷◌, ◌++◌, append_assoc, append-nil, Bytes, All, All-append, ltb, if◌then◌else◌,
  arith, lt_wf,
}
use linux_fingerprint_r.Decimal.{
  max_u64, max_u32, digits, to_decimal, scan, parse, all_digits, parse_strict_u64, parse_strict_u32,
}

digits_fuel : (f g n : ℕ) → n < f → n < g → digits f n ≡ digits g n
unfolding digits
digits_fuel zero g n h k = absurd (omega arith)
digits_fuel (suc f) zero n h k = absurd (omega arith)
digits_fuel (suc f) (suc g) n h k = ground (arith, digits_fuel f g (n / 10))

pub to_decimal_step :
    (n : ℕ)
    → to_decimal n
      ≡ (if ltb n 10 then (b'0' + n) ∷ [] else to_decimal (n / 10) ++ (b'0' + n % 10) ∷ [])
unfolding to_decimal
to_decimal_step n = ground (arith, digits_fuel n (suc (n / 10)) (n / 10))

to_decimal_small : (n : ℕ) → n < 10 → to_decimal n ≡ (b'0' + n) ∷ []
to_decimal_small n h = to_decimal_step n ∙ ground arith

to_decimal_large : (n : ℕ) → 10 ≤ n → to_decimal n ≡ to_decimal (n / 10) ++ (b'0' + n % 10) ∷ []
to_decimal_large n h = to_decimal_step n ∙ ground arith

scan_digit :
    (max acc d : ℕ) (rest : Bytes)
    → d < 10
    → acc * 10 + d ≤ max
    → scan max acc ((b'0' + d) ∷ rest) ≡ scan max (acc * 10 + d) rest
unfolding scan
scan_digit max acc d rest h k = ground arith

-- Reading a print leaves the number, whatever follows.
scan-to_decimal :
    (max n : ℕ) (rest : Bytes) → n ≤ max → scan max 0 (to_decimal n ++ rest) ≡ scan max n rest
scan-to_decimal max n =
    WellFounded.induction lt_wf
      {C = λ m. (rest : Bytes) → m ≤ max → scan max 0 (to_decimal m ++ rest) ≡ scan max m rest} n
      λ m ih rest h. elim (dec_lt m 10) [
        | yes small ↦
            ap (λ (t : Bytes). scan max 0 (t ++ rest)) (to_decimal_small m small)
            ∙ scan_digit max 0 m rest small (omega arith)
            ∙ ap (λ (t : ℕ). scan max t rest) (omega arith)
        | no large ↦
            ap (λ (t : Bytes). scan max 0 (t ++ rest)) (to_decimal_large m (omega arith))
            ∙ ap (λ (t : Bytes). scan max 0 t)
                (append_assoc (to_decimal (m / 10)) ((b'0' + m % 10) ∷ []) rest)
            ∙ ih (m / 10) (omega arith) ((b'0' + m % 10) ∷ rest) (omega arith)
            ∙ scan_digit max (m / 10) (m % 10) rest (omega arith) (omega arith)
            ∙ ap (λ (t : ℕ). scan max t rest) (omega arith)
      ]

abbrev pub IsDigit : ℕ → Type 0
IsDigit c = (b'0' ≤ c) × (c ≤ b'9')

-- A print is made of digits.
pub to_decimal-IsDigit : (n : ℕ) → All IsDigit (to_decimal n)
to_decimal-IsDigit n = WellFounded.induction lt_wf {C = λ m. All IsDigit (to_decimal m)} n λ m ih.
    elim (dec_lt m 10) [
      | yes small ↦ rw (to_decimal_small m small) (omega arith)
      | no large ↦ rw (to_decimal_large m (omega arith)) (
          All-append IsDigit (to_decimal (m / 10)) ((b'0' + m % 10) ∷ [])
            (ih (m / 10) (omega arith)) (omega arith))
    ]

all_digits-true : (s : Bytes) → All IsDigit s → all_digits s ≡ true
unfolding all_digits
all_digits-true [] h = refl
all_digits-true (c ∷ s) h = ground (arith, all_digits-true s h.1)

-- A positive number's print starts with a digit other than zero.
abbrev StartsNonzero : Bytes → Type 0
StartsNonzero [] = ⊥
StartsNonzero (c ∷ s) = (b'1' ≤ c) × (c ≤ b'9')

StartsNonzero-append : (s t : Bytes) → StartsNonzero s → StartsNonzero (s ++ t)
StartsNonzero-append [] t h = absurd h
StartsNonzero-append (c ∷ s) t h = h

to_decimal-StartsNonzero : (n : ℕ) → 0 < n → StartsNonzero (to_decimal n)
to_decimal-StartsNonzero n =
    WellFounded.induction lt_wf {C = λ m. 0 < m → StartsNonzero (to_decimal m)} n λ m ih pos.
      elim (dec_lt m 10) [
        | yes small ↦ rw (to_decimal_small m small) (omega arith)
        | no large ↦
            rw (to_decimal_large m (omega arith)) (
              StartsNonzero-append (to_decimal (m / 10)) _
                (ih (m / 10) (omega arith) (omega arith)))
      ]

strict_scan : (s : Bytes) → StartsNonzero s → All IsDigit s → parse_strict_u64 s ≡ scan max_u64 0 s
unfolding parse_strict_u64
strict_scan [] h k = absurd h
strict_scan (c ∷ []) h k = unfold parse in ground (arith, all_digits-true (c ∷ []) k)
strict_scan (c ∷ d ∷ s) h k = unfold parse in ground (arith, all_digits-true (c ∷ d ∷ s) k)

-- Every `u64` is read back from its print by the strict reader.
pub parse_strict_u64-to_decimal : (n : ℕ) → n ≤ max_u64 → parse_strict_u64 (to_decimal n) ≡ some n
parse_strict_u64-to_decimal zero h = unfold parse_strict_u64 parse scan to_decimal in refl
parse_strict_u64-to_decimal (suc n) h =
    strict_scan (to_decimal (suc n)) (to_decimal-StartsNonzero (suc n) (omega arith))
      (to_decimal-IsDigit (suc n))
    ∙ ap (λ (t : Bytes). scan max_u64 0 t) (sym (append-nil (to_decimal (suc n))))
    ∙ scan-to_decimal max_u64 (suc n) [] h
    ∙ unfold scan in refl

pub parse_strict_u32-to_decimal : (n : ℕ) → n ≤ max_u32 → parse_strict_u32 (to_decimal n) ≡ some n
unfolding parse_strict_u32
parse_strict_u32-to_decimal n h = ground (arith, parse_strict_u64-to_decimal n)

-- A number that fits is read back by `parse` of its type.
starts_digit : (max : ℕ) (s : Bytes) → s ≢ [] → All IsDigit s → parse max s ≡ scan max 0 s
unfolding parse
starts_digit max [] h k = absurd (h refl)
starts_digit max (c ∷ []) h k = ground arith
starts_digit max (c ∷ d ∷ s) h k = ground arith

to_decimal-nonempty : (n : ℕ) → to_decimal n ≢ []
to_decimal-nonempty n e = elim (dec_lt n 10) [
  | yes small ↦ cc (sym (to_decimal_small n small) ∙ e)
  | no large ↦
      append_cons-nonempty (to_decimal (n / 10)) (b'0' + n % 10)
        (sym (to_decimal_large n (omega arith)) ∙ e)
]
  where
    append_cons-nonempty : (s : Bytes) (c : ℕ) → s ++ c ∷ [] ≢ []
    append_cons-nonempty [] c h = cc h
    append_cons-nonempty (b ∷ s) c h = cc h

pub parse-to_decimal : (max n : ℕ) → n ≤ max → parse max (to_decimal n) ≡ some n
parse-to_decimal max n h =
    starts_digit max (to_decimal n) (to_decimal-nonempty n) (to_decimal-IsDigit n)
    ∙ ap (λ (t : Bytes). scan max 0 t) (sym (append-nil (to_decimal n)))
    ∙ scan-to_decimal max n [] h
    ∙ unfold scan in refl

-- What a step of the reader has checked.
scan_cons :
    (max acc n c : ℕ) (s : Bytes)
    → scan max acc (c ∷ s) ≡ some n
    → IsDigit c × (acc * 10 + (c - b'0') ≤ max) × (scan max (acc * 10 + (c - b'0')) s ≡ some n)
unfolding scan
scan_cons max acc n c s e = ground arith

to_decimal_push :
    (acc c : ℕ)
    → 0 < acc
    → IsDigit c
    → to_decimal (acc * 10 + (c - b'0')) ≡ to_decimal acc ++ c ∷ []
to_decimal_push acc c pos h =
    to_decimal_large (acc * 10 + (c - b'0')) (omega arith)
    ∙ (λ i. to_decimal (quotient acc c h i) ++ remainder acc c h i ∷ [])
  where
    quotient : (acc c : ℕ) → IsDigit c → (acc * 10 + (c - b'0')) / 10 ≡ acc
    quotient acc c h = omega arith

    remainder : (acc c : ℕ) → IsDigit c → b'0' + (acc * 10 + (c - b'0')) % 10 ≡ c
    remainder acc c h = omega arith

-- From a positive number on, what is read is printed back behind that number's print.
to_decimal-scan :
    (s : Bytes) (max acc n : ℕ)
    → 0 < acc
    → acc ≤ max
    → scan max acc s ≡ some n
    → (to_decimal n ≡ to_decimal acc ++ s) × (n ≤ max)
to_decimal-scan [] max acc n pos fits e = unfold scan in ground (arith, append-nil (to_decimal acc))
to_decimal-scan (c ∷ s) max acc n pos fits e =
    let (digit, room, rest) = scan_cons max acc n c s e in
    let (print, small) = to_decimal-scan s max (acc * 10 + (c - b'0')) n (omega arith) room rest in
    (
      print
          ∙ ap (λ (t : Bytes). t ++ s) (to_decimal_push acc c pos digit)
          ∙ append_assoc (to_decimal acc) (c ∷ []) s,
      small,
    )

strict_cons :
    (c n : ℕ) (s : Bytes)
    → parse_strict_u64 (c ∷ s) ≡ some n
    → (scan max_u64 0 (c ∷ s) ≡ some n) × ((s ≡ []) ⊎ (c ≢ b'0'))
strict_cons c n [] e = (unfold parse_strict_u64 parse in ground arith, inl refl)
strict_cons c n (d ∷ s) e = (
  unfold parse_strict_u64 parse in ground arith,
  inr (unfold parse_strict_u64 parse in ground arith),
)

-- The one text that may start with a zero.
zero_only :
    (c n : ℕ) (s : Bytes)
    → s ≡ []
    → c ≡ b'0'
    → scan max_u64 0 (c ∷ s) ≡ some n
    → (c ∷ s ≡ to_decimal n) × (n ≤ max_u64)
zero_only c n [] last low e =
    let is_zero : n ≡ 0 = unfold scan in ground arith in
    (sym (to_decimal_small n (omega arith) ∙ ap (λ (t : ℕ). t ∷ []) (omega arith)), omega arith)
zero_only c n (d ∷ s) last low e = cc

-- What the strict reader accepts is the print of the number that it returns, which fits a `u64`.
pub parse_strict_u64_sound :
    (s : Bytes) (n : ℕ) → parse_strict_u64 s ≡ some n → (s ≡ to_decimal n) × (n ≤ max_u64)
parse_strict_u64_sound [] n e = unfold parse_strict_u64 in ground arith
parse_strict_u64_sound (c ∷ s) n e =
    let (scanned, first) = strict_cons c n s e in
    let (digit, room, rest) = scan_cons max_u64 0 n c s scanned in
    elim (dec_lt b'0' c) [
      | yes pos ↦
          let (print, small) =
            to_decimal-scan s max_u64 (0 * 10 + (c - b'0')) n (omega arith) room rest in
          (
            sym (
                print
                ∙ ap (λ (t : Bytes). t ++ s)
                    (to_decimal_small (0 * 10 + (c - b'0')) (omega arith)
                      ∙ ap (λ (t : ℕ). t ∷ []) (omega arith))),
            small,
          )
      | no low ↦ elim first [
        | inl last ↦ zero_only c n s last (omega arith) scanned
        | inr nonzero ↦ absurd (nonzero (omega arith))
      ]
    ]

pub parse_strict_u32_sound :
    (s : Bytes) (n : ℕ) → parse_strict_u32 s ≡ some n → (s ≡ to_decimal n) × (n ≤ max_u32)
parse_strict_u32_sound s n e =
    let (wide, small) = narrow s n e in
    let (print, _) = parse_strict_u64_sound s n wide in (print, small)
  where
    narrow :
        (s : Bytes) (n : ℕ)
        → parse_strict_u32 s ≡ some n
        → (parse_strict_u64 s ≡ some n) × (n ≤ max_u32)
    narrow s n e = unfold parse_strict_u32 in ground arith
