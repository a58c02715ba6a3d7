-- ===== src/Tpm/Blob.antt =====
-- The file of a sealed key, as pcside/daemon/src/tpm.rs writes and reads it.
use linux_fingerprint_r.Prelude.{
  ℕ, ◌+◌, ◌%◌, ◌^◌, ◌≤◌, ◌≡◌, refl, sym, ap, ◌∙◌, inl, inr, true, false, Bool-cases, [], ◌∷◌, ◌++◌,
  append_assoc, append-nil, Bytes, eq, eq_sound, Result, ok, err, take, length, length-append,
  take-append, drop-append, ltb, ◌==◌, if◌then◌else◌, arith,
}
use linux_fingerprint_r.Crypto.{from_le_bytes}
use linux_fingerprint_r.Hex.{to_le_bytes}
use linux_fingerprint_r.Hex.Laws.{from_le_bytes-to_le_bytes, length-to_le_bytes}
use linux_fingerprint_r.Tpm.{
  SealPolicy, pcrs, no_policy, default_pcrs, magic_v1, magic_v2, magic_v3, serialize_field,
  serialize_policy, serialize_blob, BlobError, magic_mismatch, max_field, read_len, read_priv,
  read_pub, read_fields, after_validation, read_pcrs, deserialize_blob,
}
use linux_fingerprint_r.Tpm.Pcrs.{IsPcrList, validate_pcrs_iff}

-- A policy that can be bound.
abbrev pub IsPolicy : SealPolicy → Type 0
IsPolicy (pcrs ps) = IsPcrList ps
IsPolicy no_policy = Unit

pub length-serialize_field : (s : Bytes) → length (serialize_field s) ≡ 4 + length s
unfolding serialize_field
length-serialize_field s =
    length-append (to_le_bytes 4 (length s % 2 ^ 32)) s
    ∙ ap (λ (t : ℕ). t + length s) (length-to_le_bytes 4 (length s % 2 ^ 32))

take-length : (s : Bytes) → take (length s) s ≡ s
take-length s = ap (λ (t : Bytes). take (length s) t) (sym (append-nil s)) ∙ take-append s [] refl

read_len-append {ℓ} :
    {A : Type ℓ} (w rest : Bytes) (next : ℕ → Bytes → Result BlobError A)
    → length w ≡ 4
    → read_len (w ++ rest) next ≡ next (from_le_bytes w) rest
unfolding read_len
read_len-append w rest next h =
    let long : ltb (length (w ++ rest)) 4 ≡ false = ground (arith, length-append w rest, h) in
    rw (long, take-append w rest (sym h), drop-append w rest (sym h))

read_len-serialize_field {ℓ} :
    {A : Type ℓ} (s rest : Bytes) (next : ℕ → Bytes → Result BlobError A)
    → length s ≤ max_field
    → read_len (serialize_field s ++ rest) next ≡ next (length s) (s ++ rest)
unfolding serialize_field
read_len-serialize_field s rest next h =
    let word = to_le_bytes 4 (length s % 2 ^ 32) in
    let value : from_le_bytes word ≡ length s =
      from_le_bytes-to_le_bytes 4 (length s % 2 ^ 32) (omega arith) ∙ omega arith in
    rw (
      append_assoc word s rest,
      read_len-append word (s ++ rest) next (length-to_le_bytes 4 _),
      value,
    )

read_priv-whole :
    (how : SealPolicy) (a b : Bytes)
    → length b ≤ max_field
    → read_priv how a (length b) b ≡ ok (record { policy = how; pub_bytes = a; priv_bytes = b })
unfolding read_priv
read_priv-whole how a b h =
    let small : ltb max_field (length b) ≡ false = ground arith in
    let same : (length b == length b) ≡ true = ground arith in rw (small, same, take-length b)

read_fields-serialize :
    (how : SealPolicy) (a b : Bytes)
    → length a ≤ max_field
    → length b ≤ max_field
    → read_fields how (serialize_field a ++ serialize_field b)
      ≡ ok (record { policy = how; pub_bytes = a; priv_bytes = b })
unfolding read_fields read_pub
read_fields-serialize how a b h k =
    let small : ltb max_field (length a) ≡ false = ground arith in
    let long : ltb (length (a ++ serialize_field b)) (length a + 4) ≡ false =
      ground (arith, length-append a (serialize_field b), length-serialize_field b) in
    read_len-serialize_field a (serialize_field b) (read_pub how) h
    ∙ rw
        (
          small,
          long,
          take-append a (serialize_field b) refl,
          drop-append a (serialize_field b) refl,
        )
        (ap (λ (t : Bytes). read_len t (read_priv how a)) (sym (append-nil (serialize_field b)))
          ∙ read_len-serialize_field b [] (read_priv how a) k
          ∙ ap (λ (t : Bytes). read_priv how a (length b) t) (append-nil b)
          ∙ read_priv-whole how a b k)

read_pcrs-serialize :
    (ps rest : Bytes)
    → IsPcrList ps
    → read_pcrs ((length ps % 2 ^ 8) ∷ ps ++ rest) ≡ read_fields (pcrs ps) rest
unfolding read_pcrs after_validation
read_pcrs-serialize ps rest h =
    let count : length ps % 2 ^ 8 ≡ length ps = omega (arith, h.1) in
    let some_pcrs : (length ps == 0) ≡ false = ground (arith, h.0) in
    let few : ltb 24 (length ps) ≡ false = ground (arith, h.1) in
    let long : ltb (length (ps ++ rest)) (length ps) ≡ false =
      ground (arith, length-append ps rest) in
    rw (
      count,
      some_pcrs,
      few,
      long,
      take-append ps rest refl,
      drop-append ps rest refl,
      (validate_pcrs_iff ps).1 h,
    )

-- What stands in front of the fields, and how the reader goes on behind it.
read_head :
    (magic rest : Bytes)
    → length magic ≡ 8
    → 8 ≤ length rest
    → deserialize_blob (magic ++ rest) ≡ (
        if eq magic magic_v1
        then read_fields (pcrs default_pcrs) rest
        else if eq magic magic_v2
        then read_pcrs rest
        else if eq magic magic_v3
        then read_fields no_policy rest
        else err magic_mismatch)
unfolding deserialize_blob
read_head magic rest h k =
    let long : ltb (length (magic ++ rest)) 16 ≡ false = ground (arith, length-append magic rest) in
    rw (long, take-append magic rest (sym h), drop-append magic rest (sym h))

fields_long : (a b : Bytes) → 8 ≤ length (serialize_field a ++ serialize_field b)
fields_long a b = omega (
  arith,
  length-append (serialize_field a) (serialize_field b),
  length-serialize_field a,
  length-serialize_field b,
)

longer : (n : ℕ) (ps rest : Bytes) → 8 ≤ length rest → 8 ≤ length (n ∷ ps ++ rest)
longer n ps rest h = omega (arith, length-append ps rest)

read_policy :
    (how : SealPolicy) (a b : Bytes)
    → IsPolicy how
    → deserialize_blob (serialize_policy how ++ (serialize_field a ++ serialize_field b))
      ≡ read_fields how (serialize_field a ++ serialize_field b)
unfolding serialize_policy
read_policy no_policy a b h =
    read_head magic_v3 (serialize_field a ++ serialize_field b) refl (fields_long a b)
    ∙ unfold eq in refl
read_policy (pcrs ps) a b h = elim (Bool-cases (eq ps default_pcrs)) [
  | inl e ↦ rw e (
      read_head magic_v1 (serialize_field a ++ serialize_field b) refl (fields_long a b)
      ∙ unfold eq in
        ap (λ (t : Bytes). read_fields (pcrs t) (serialize_field a ++ serialize_field b))
          (sym (eq_sound ps default_pcrs e)))
  | inr e ↦ rw e (
      read_head magic_v2 (length ps % 2 ^ 8 ∷ ps ++ (serialize_field a ++ serialize_field b)) refl
        (longer (length ps % 2 ^ 8) ps (serialize_field a ++ serialize_field b) (fields_long a b))
      ∙ unfold eq in read_pcrs-serialize ps (serialize_field a ++ serialize_field b) h)
]

-- A sealed key's file is read back as what was written, for every policy that can be bound and fields of
-- at most 65536 bytes.
pub deserialize_blob-serialize_blob :
    (how : SealPolicy) (pub_bytes priv_bytes : Bytes)
    → IsPolicy how
    → length pub_bytes ≤ max_field
    → length priv_bytes ≤ max_field
    → deserialize_blob (serialize_blob how pub_bytes priv_bytes)
      ≡ ok (record { policy = how; pub_bytes = pub_bytes; priv_bytes = priv_bytes })
unfolding serialize_blob
deserialize_blob-serialize_blob how pub_bytes priv_bytes h k l =
    ap deserialize_blob
      (append_assoc (serialize_policy how) (serialize_field pub_bytes) (serialize_field priv_bytes))
    ∙ read_policy how pub_bytes priv_bytes h
    ∙ read_fields-serialize how pub_bytes priv_bytes k l
