-- ===== src/Tpm/Pcrs.antt =====
-- Which lists `validate_pcrs` of pcside/daemon/src/tpm.rs accepts.
use linux_fingerprint_r.Prelude.{
  ℕ, suc, ◌≤◌, ◌<◌, ◌≡◌, ◌≢◌, ◌↔◌, refl, sym, ap, ◌∙◌, inl, inr, Bool-cases, [], ◌∷◌, Bytes, Result,
  ok, All, length, ltb, leb, ◌==◌, arith, >>=-eq-ok, ◌>>=◌, subst, ok_injective,
}
use linux_fingerprint_r.Tpm.{
  PcrError, insert_sorted, sort, dedup, dedup_behind, check_range, check_duplicates, validate_pcrs,
  read_tokens, split_at, check_nonempty, parse_pcr_list,
}

-- No element stands in the list twice.
abbrev pub IsDistinct : Bytes → Type 0
IsDistinct [] = Unit
IsDistinct (p ∷ ps) = All (λ q. p ≢ q) ps × IsDistinct ps

-- What the TPM's SHA-256 bank can bind: one to 24 different indices below 24.
abbrev pub IsPcrList : Bytes → Type 0
IsPcrList ps = (1 ≤ length ps) × (length ps ≤ 24) × All (λ p. p ≤ 23) ps × IsDistinct ps

abbrev IsSorted : Bytes → Type 0
IsSorted [] = Unit
IsSorted (p ∷ ps) = All (λ q. p ≤ q) ps × IsSorted ps

All-imp {ℓ κ} :
    (P : ℕ → Type ℓ) (Q : ℕ → Type κ) (s : Bytes) → ((x : ℕ) → P x → Q x) → All P s → All Q s
All-imp P Q [] f h = tt
All-imp P Q (x ∷ s) f h = (f x h.0, All-imp P Q s f h.1)

module _ {ℓ} (P : ℕ → Type ℓ) where
  All-insert_sorted : (p : ℕ) (s : Bytes) → P p → All P s → All P (insert_sorted p s)
  unfolding insert_sorted
  All-insert_sorted p [] h k = (h, tt)
  All-insert_sorted p (q ∷ s) h k = elim (Bool-cases (leb p q)) [
    | inl e ↦ rw e (h, k)
    | inr e ↦ rw e (k.0, All-insert_sorted p s h k.1)
  ]

  insert_sorted-All : (p : ℕ) (s : Bytes) → All P (insert_sorted p s) → P p × All P s
  unfolding insert_sorted
  insert_sorted-All p [] = λ h. h
  insert_sorted-All p (q ∷ s) = elim (Bool-cases (leb p q)) [
    | inl e ↦ rw e (λ h. h)
    | inr e ↦ rw e (λ h. let (a, b) = insert_sorted-All p s h.1 in (a, (h.0, b)))
  ]

  All-sort : (s : Bytes) → All P s → All P (sort s)
  unfolding sort
  All-sort [] h = tt
  All-sort (p ∷ s) h = All-insert_sorted p (sort s) h.0 (All-sort s h.1)

  sort-All : (s : Bytes) → All P (sort s) → All P s
  unfolding sort
  sort-All [] h = tt
  sort-All (p ∷ s) h = let (a, b) = insert_sorted-All p (sort s) h in (a, sort-All s b)

insert_sorted-IsSorted : (p : ℕ) (s : Bytes) → IsSorted s → IsSorted (insert_sorted p s)
unfolding insert_sorted
insert_sorted-IsSorted p [] h = (tt, tt)
insert_sorted-IsSorted p (q ∷ s) h = elim (Bool-cases (leb p q)) [
  | inl e ↦ rw e ((ground arith, All-imp (λ x. q ≤ x) (λ x. p ≤ x) s (λ x k. ground arith) h.0), h)
  | inr e ↦
      rw e (All-insert_sorted (λ x. q ≤ x) p s (ground arith) h.0, insert_sorted-IsSorted p s h.1)
]

sort-IsSorted : (s : Bytes) → IsSorted (sort s)
unfolding sort
sort-IsSorted [] = tt
sort-IsSorted (p ∷ s) = insert_sorted-IsSorted p (sort s) (sort-IsSorted s)

insert_sorted-IsDistinct :
    (p : ℕ) (s : Bytes) → All (λ q. p ≢ q) s → IsDistinct s → IsDistinct (insert_sorted p s)
unfolding insert_sorted
insert_sorted-IsDistinct p [] h k = (tt, tt)
insert_sorted-IsDistinct p (q ∷ s) h k = elim (Bool-cases (leb p q)) [
  | inl e ↦ rw e (h, k)
  | inr e ↦ rw e (
    All-insert_sorted (λ x. q ≢ x) p s (λ t. h.0 (sym t)) k.0,
    insert_sorted-IsDistinct p s h.1 k.1,
  )
]

IsDistinct-insert_sorted :
    (p : ℕ) (s : Bytes) → IsDistinct (insert_sorted p s) → All (λ q. p ≢ q) s × IsDistinct s
unfolding insert_sorted
IsDistinct-insert_sorted p [] = λ h. (tt, tt)
IsDistinct-insert_sorted p (q ∷ s) = elim (Bool-cases (leb p q)) [
  | inl e ↦ rw e (λ h. h)
  | inr e ↦ rw e (λ h.
      let (apart, others) = insert_sorted-All (λ x. q ≢ x) p s h.0 in
      let (a, b) = IsDistinct-insert_sorted p s h.1 in ((λ t. apart (sym t), a), (others, b)))
]

sort-IsDistinct : (s : Bytes) → IsDistinct s → IsDistinct (sort s)
unfolding sort
sort-IsDistinct [] h = tt
sort-IsDistinct (p ∷ s) h =
    insert_sorted-IsDistinct p (sort s) (All-sort (λ q. p ≢ q) s h.0) (sort-IsDistinct s h.1)

IsDistinct-sort : (s : Bytes) → IsDistinct (sort s) → IsDistinct s
unfolding sort
IsDistinct-sort [] h = tt
IsDistinct-sort (p ∷ s) h =
    let (a, b) = IsDistinct-insert_sorted p (sort s) h in
    (sort-All (λ q. p ≢ q) s a, IsDistinct-sort s b)

length-insert_sorted : (p : ℕ) (s : Bytes) → length (insert_sorted p s) ≡ suc (length s)
unfolding insert_sorted
length-insert_sorted p [] = refl
length-insert_sorted p (q ∷ s) = ground (arith, length-insert_sorted p s)

length-sort : (s : Bytes) → length (sort s) ≡ length s
unfolding sort
length-sort [] = refl
length-sort (p ∷ s) = length-insert_sorted p (sort s) ∙ ap suc (length-sort s)

-- Removing equal neighbours never makes a list longer, and leaves a sorted list's length where no two are equal.
length-dedup_behind : (p : ℕ) (s : Bytes) → length (dedup_behind p s) ≤ length s
unfolding dedup_behind
length-dedup_behind p [] = omega arith
length-dedup_behind p (q ∷ s) = ground (arith, length-dedup_behind q s)

dedup_behind-IsDistinct :
    (p : ℕ) (s : Bytes)
    → All (λ q. p ≤ q) s
    → IsSorted s
    → length (dedup_behind p s) ≡ length s
    → All (λ q. p ≢ q) s × IsDistinct s
unfolding dedup_behind
dedup_behind-IsDistinct p [] h k = λ e. (tt, tt)
dedup_behind-IsDistinct p (q ∷ s) h k = elim (Bool-cases (p == q)) [
  | inl t ↦ rw t (λ e. absurd (omega (arith, length-dedup_behind q s, e)))
  | inr t ↦ rw t (λ e.
      let rest = dedup_behind-IsDistinct q s k.0 k.1 (omega (arith, e)) in
      let low : p < q = ground (arith, h.0) in
      ((λ w. ground arith, All-imp (λ x. q ≤ x) (λ x. p ≢ x) s (λ x le w. ground arith) k.0), rest))
]

IsDistinct-dedup_behind :
    (p : ℕ) (s : Bytes) → All (λ q. p ≢ q) s → IsDistinct s → length (dedup_behind p s) ≡ length s
unfolding dedup_behind
IsDistinct-dedup_behind p [] h k = refl
IsDistinct-dedup_behind p (q ∷ s) h k = elim (Bool-cases (p == q)) [
  | inl t ↦ absurd (h.0 (ground arith))
  | inr t ↦ rw t (ap suc (IsDistinct-dedup_behind q s k.0 k.1))
]

dedup_iff : (s : Bytes) → IsSorted s → (length (dedup s) ≡ length s) ↔ IsDistinct s
unfolding dedup
dedup_iff [] h = (λ e. tt, λ k. refl)
dedup_iff (p ∷ s) h = (
  λ e. dedup_behind-IsDistinct p s h.0 h.1 (omega (arith, e)),
  λ k. ap suc (IsDistinct-dedup_behind p s k.0 k.1),
)

check_duplicates_iff : (s : Bytes) → (check_duplicates s ≡ ok tt) ↔ IsDistinct s
unfolding check_duplicates
check_duplicates_iff s =
    let (there, back) = dedup_iff (sort s) (sort-IsSorted s) in
    elim (Bool-cases (length (dedup (sort s)) == length s)) [
      | inl e ↦ rw e (λ t. IsDistinct-sort s (there (ground (arith, length-sort s))), λ k. refl)
      | inr e ↦
          rw e (λ t. cc t, λ k. absurd (ground (arith, back (sort-IsDistinct s k), length-sort s)))
    ]

check_range_iff : (s : Bytes) → (check_range s ≡ ok tt) ↔ All (λ p. p ≤ 23) s
unfolding check_range
check_range_iff [] = (λ e. tt, λ h. refl)
check_range_iff (p ∷ s) = elim (Bool-cases (ltb 23 p)) [
  | inl e ↦ rw e (λ t. cc t, λ h. absurd (ground (arith, h.0)))
  | inr e ↦ rw e (λ t. (ground arith, (check_range_iff s).0 t), λ h. (check_range_iff s).1 h.1)
]

-- `validate_pcrs` accepts a list exactly where it has one to 24 indices, all below 24 and no two equal.
pub validate_pcrs_iff : (s : Bytes) → (validate_pcrs s ≡ ok tt) ↔ IsPcrList s
unfolding validate_pcrs
validate_pcrs_iff s = elim (Bool-cases (length s == 0)) [
  | inl e ↦ rw e (λ t. cc t, λ h. absurd (ground (arith, h.0)))
  | inr e ↦ elim (Bool-cases (ltb 24 (length s))) [
    | inl f ↦ rw (e, f) (λ t. cc t, λ h. absurd (ground (arith, h.1)))
    | inr f ↦
        rw (e, f)
          (
            λ t.
                let (_, ranged, rest) = >>=-eq-ok (check_range s) (λ _. check_duplicates s) t in
                (
                  ground arith,
                  ground arith,
                  (check_range_iff s).0 ranged,
                  (check_duplicates_iff s).0 rest,
                ),
            λ h. rw ((check_range_iff s).1 h.2) ((check_duplicates_iff s).1 h.3),
          )
  ]
]

abbrev validated : Bytes → Result PcrError Bytes
validated out = check_nonempty out >>= λ _. validate_pcrs out >>= λ _. ok out

-- A list of PCRs that is read from a text can be bound: it satisfies what `validate_pcrs` asks for.
pub parse_pcr_list-IsPcrList : (s ps : Bytes) → parse_pcr_list s ≡ ok ps → IsPcrList ps
unfolding parse_pcr_list
parse_pcr_list-IsPcrList s ps h =
    let (out, _, checked) = >>=-eq-ok (read_tokens (split_at b',' [] s)) (λ out. validated out) h in
    let (_, _, valid) =
      >>=-eq-ok (check_nonempty out) (λ _. validate_pcrs out >>= λ _. ok out) checked in
    let (_, accepted, same) = >>=-eq-ok (validate_pcrs out) (λ _. ok out) valid in
    subst IsPcrList (ok_injective same) ((validate_pcrs_iff out).0 accepted)
