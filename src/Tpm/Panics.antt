-- ===== src/Tpm/Panics.antt =====
-- On which files `deserialize_blob` of pcside/daemon/src/tpm.rs panics.
use linux_fingerprint_r.Prelude.{
  ℕ, ◌+◌, ◌≤◌, ◌<◌, ◌≡◌, ◌≢◌, ◌↔◌, refl, sym, ap, ap₂, ◌∙◌, inl, inr, false, Bool-cases, [], ◌∷◌,
  ◌++◌, Bytes, eq, eq_sound, eq_refl, Result, ok, err, Done, take, drop, length, length-append,
  length-take, length-drop, take-append-drop, take-append, drop-append, ltb, ◌==◌, arith,
}
use linux_fingerprint_r.Crypto.{from_le_bytes}
use linux_fingerprint_r.Tpm.{
  SealPolicy, pcrs, no_policy, default_pcrs, validate_pcrs, magic_v1, magic_v2, magic_v3, BlobError,
  max_field, read_len, read_priv, read_pub, read_fields, after_validation, read_pcrs,
  deserialize_blob, panicked, PcrError,
}
use linux_fingerprint_r.Tpm.Pcrs.{IsPcrList, validate_pcrs_iff}

read_priv-total :
    (how : SealPolicy) (a : Bytes) (n : ℕ) (rest : Bytes) → read_priv how a n rest ≢ err panicked
unfolding read_priv
read_priv-total how a n rest = elim (Bool-cases (ltb max_field n)) [
  | inl e ↦ rw e (λ t. cc t)
  | inr e ↦ elim (Bool-cases (n == length rest)) [
    | inl f ↦ rw (e, f) (λ t. cc t)
    | inr f ↦ rw (e, f) (λ t. cc t)
  ]
]

-- A length is read where four bytes are left.
read_len-enough {ℓ} :
    {A : Type ℓ} (rest : Bytes) (next : ℕ → Bytes → Result BlobError A)
    → 4 ≤ length rest
    → read_len rest next ≡ next (from_le_bytes (take 4 rest)) (drop 4 rest)
unfolding read_len
read_len-enough rest next h = let e : ltb (length rest) 4 ≡ false = ground arith in rw e refl

read_pub-total : (how : SealPolicy) (n : ℕ) (rest : Bytes) → read_pub how n rest ≢ err panicked
unfolding read_pub
read_pub-total how n rest = elim (Bool-cases (ltb max_field n)) [
  | inl e ↦ rw e (λ t. cc t)
  | inr e ↦ elim (Bool-cases (ltb (length rest) (n + 4))) [
    | inl f ↦ rw (e, f) (λ t. cc t)
    | inr f ↦
        let enough : 4 ≤ length (drop n rest) = ground (arith, length-drop n rest) in
        rw (e, f, read_len-enough (drop n rest) (read_priv how (take n rest)) enough)
          (read_priv-total how (take n rest) _ _)
  ]
]

read_fields-panics :
    (how : SealPolicy) (rest : Bytes) → (read_fields how rest ≡ err panicked) ↔ (length rest < 4)
unfolding read_fields read_len
read_fields-panics how rest = elim (Bool-cases (ltb (length rest) 4)) [
  | inl e ↦ rw e (λ t. ground arith, λ h. refl)
  | inr e ↦ rw e (λ t. absurd (read_pub-total how _ _ t), λ h. absurd (ground arith))
]

-- Behind the second magic: a list of PCRs that can be bound, and less than four bytes.
abbrev pub IsCut : Bytes → Type 0
IsCut body =
    (ps : Bytes) × (rest : Bytes) × (body ≡ length ps ∷ ps ++ rest)
    × IsPcrList ps
    × (length rest < 4)

read_pcrs-whole :
    (ps rest : Bytes)
    → IsPcrList ps
    → read_pcrs (length ps ∷ ps ++ rest) ≡ read_fields (pcrs ps) rest
unfolding read_pcrs after_validation
read_pcrs-whole ps rest h =
    let some_pcrs : (length ps == 0) ≡ false = ground (arith, h.0) in
    let few : ltb 24 (length ps) ≡ false = ground (arith, h.1) in
    let long : ltb (length (ps ++ rest)) (length ps) ≡ false =
      ground (arith, length-append ps rest) in
    rw (
      some_pcrs,
      few,
      long,
      take-append ps rest refl,
      drop-append ps rest refl,
      (validate_pcrs_iff ps).1 h,
    )

validated :
    (ps rest : Bytes) (v : Done PcrError)
    → after_validation ps rest v ≡ err panicked
    → (v ≡ ok tt) × (length rest < 4)
unfolding after_validation
validated ps rest (err e) h = absurd (cc h)
validated ps rest (ok _) h = (refl, (read_fields-panics (pcrs ps) rest).0 h)

count_first :
    (count : ℕ) (s : Bytes)
    → count ≡ length (take count s)
    → count ∷ s ≡ length (take count s) ∷ take count s ++ drop count s
count_first count s h = ap₂ (λ (n : ℕ) (t : Bytes). n ∷ t) h (sym (take-append-drop count s))

read_pcrs-panics : (body : Bytes) → read_pcrs body ≡ err panicked → IsCut body
unfolding read_pcrs
read_pcrs-panics [] = λ h. absurd (cc h)
read_pcrs-panics (count ∷ s) = elim (Bool-cases (count == 0)) [
  | inl e ↦ rw e (λ h. absurd (cc h))
  | inr e ↦ elim (Bool-cases (ltb 24 count)) [
    | inl f ↦ rw (e, f) (λ h. absurd (cc h))
    | inr f ↦ elim (Bool-cases (ltb (length s) count)) [
      | inl g ↦ rw (e, f, g) (λ h. absurd (cc h))
      | inr g ↦
          rw (e, f, g)
            (λ h.
              let (valid, short) =
                validated (take count s) (drop count s) (validate_pcrs (take count s)) h in
              let long : count ≡ length (take count s) = ground (arith, length-take count s) in
              (
                take count s,
                drop count s,
                count_first count s long,
                (validate_pcrs_iff (take count s)).0 valid,
                short,
              ))
    ]
  ]
]

IsCut-panics : (body : Bytes) → IsCut body → read_pcrs body ≡ err panicked
IsCut-panics body (ps, rest, e, valid, short) =
    ap read_pcrs e ∙ read_pcrs-whole ps rest valid ∙ (read_fields-panics (pcrs ps) rest).1 short

never_cut : {n : ℕ} → 4 ≤ n → n < 4 → ⊥
never_cut h k = omega arith

v1_not_v2 : magic_v1 ≢ magic_v2
v1_not_v2 h = cc h

not_v2 : (blob : Bytes) → eq (take 8 blob) magic_v2 ≡ false → take 8 blob ≢ magic_v2
not_v2 blob h k = cc (sym h ∙ ap (λ (t : Bytes). eq t magic_v2) k ∙ eq_refl magic_v2)

-- `deserialize_blob` panics exactly on a file of at least 16 bytes that has the second magic, a list of PCRs
-- that can be bound, and less than the four bytes of a length behind it. Every other file is read or
-- refused with an error.
pub deserialize_blob-panics :
    (blob : Bytes)
    → (deserialize_blob blob ≡ err panicked)
      ↔ ((16 ≤ length blob) × (take 8 blob ≡ magic_v2) × IsCut (drop 8 blob))
unfolding deserialize_blob
deserialize_blob-panics blob = elim (Bool-cases (ltb (length blob) 16)) [
  | inl e ↦ rw e (λ h. absurd (cc h), λ k. absurd (ground (arith, k.0)))
  | inr e ↦
      let long : 4 ≤ length (drop 8 blob) = ground (arith, length-drop 8 blob) in
      elim (Bool-cases (eq (take 8 blob) magic_v1)) [
        | inl f ↦
            rw (e, f)
              (
                λ h.
                    absurd
                      (never_cut long ((read_fields-panics (pcrs default_pcrs) (drop 8 blob)).0 h)),
                λ k. absurd (v1_not_v2 (sym (eq_sound _ _ f) ∙ k.1)),
              )
        | inr f ↦ elim (Bool-cases (eq (take 8 blob) magic_v2)) [
          | inl g ↦
              rw (e, f, g)
                (
                  λ h. (ground arith, eq_sound _ _ g, read_pcrs-panics (drop 8 blob) h),
                  λ k. IsCut-panics (drop 8 blob) k.2,
                )
          | inr g ↦ elim (Bool-cases (eq (take 8 blob) magic_v3)) [
            | inl l ↦
                rw (e, f, g, l)
                  (
                    λ h. absurd (never_cut long ((read_fields-panics no_policy (drop 8 blob)).0 h)),
                    λ k. absurd (not_v2 blob g k.1),
                  )
            | inr l ↦ rw (e, f, g, l) (λ h. absurd (cc h), λ k. absurd (not_v2 blob g k.1))
          ]
        ]
      ]
]
