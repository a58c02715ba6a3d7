-- ===== src/Tpm/Tests.antt =====
-- The PCR lists and the sealed key's file of pcside/daemon/src/tpm.rs at concrete inputs.
use linux_fingerprint_r.Prelude.{
  ◌≤◌, ◌≡◌, ◌↔◌, refl, [], ◌∷◌, ◌++◌, Bytes, codes, ok, err, take, drop, length, arith, trim,
  trim_end, space_len, eq,
}
use linux_fingerprint_r.Decimal.{parse}
use linux_fingerprint_r.Tpm.{
  read_pcrs, after_validation, read_fields, read_len, pcrs, validate_pcrs, parse_pcr_list, magic_v2,
  serialize_blob, deserialize_blob, panicked, duplicates,
}
use linux_fingerprint_r.Tpm.Pcrs.{IsPcrList, validate_pcrs_iff, parse_pcr_list-IsPcrList}
use linux_fingerprint_r.Tpm.Blob.{deserialize_blob-serialize_blob}
use linux_fingerprint_r.Tpm.Panics.{IsCut, deserialize_blob-panics}

abbrev two_pcrs : Bytes
two_pcrs = 7 ∷ 11 ∷ []

reads_two : parse_pcr_list (codes "7, 11") ≡ ok two_pcrs
unfolding parse_pcr_list trim trim_end space_len parse validate_pcrs
reads_two = refl

refuses_twice : parse_pcr_list (codes "7,7") ≡ err duplicates
unfolding parse_pcr_list trim trim_end space_len parse validate_pcrs
refuses_twice = refl

two_pcrs-IsPcrList : IsPcrList two_pcrs
two_pcrs-IsPcrList = parse_pcr_list-IsPcrList (codes "7, 11") two_pcrs reads_two

validate_pcrs_iff_example : (validate_pcrs two_pcrs ≡ ok tt) ↔ IsPcrList two_pcrs
validate_pcrs_iff_example = validate_pcrs_iff two_pcrs

deserialize_blob-serialize_blob_example :
    deserialize_blob (serialize_blob (pcrs two_pcrs) (1 ∷ 2 ∷ 3 ∷ []) (4 ∷ []))
    ≡ ok (record { policy = pcrs two_pcrs; pub_bytes = 1 ∷ 2 ∷ 3 ∷ []; priv_bytes = 4 ∷ [] })
deserialize_blob-serialize_blob_example =
    deserialize_blob-serialize_blob (pcrs two_pcrs) (1 ∷ 2 ∷ 3 ∷ []) (4 ∷ []) two_pcrs-IsPcrList
      (omega arith) (omega arith)

-- Sixteen bytes: five PCRs, and two bytes where a length of four should stand.
abbrev cut_blob : Bytes
cut_blob = magic_v2 ++ (5 ∷ 0 ∷ 2 ∷ 4 ∷ 7 ∷ 11 ∷ 0 ∷ 0 ∷ [])

cut_panics : deserialize_blob cut_blob ≡ err panicked
unfolding deserialize_blob eq read_pcrs after_validation validate_pcrs read_fields read_len
cut_panics = refl

deserialize_blob-panics_example :
    (deserialize_blob cut_blob ≡ err panicked)
    ↔ ((16 ≤ length cut_blob) × (take 8 cut_blob ≡ magic_v2) × IsCut (drop 8 cut_blob))
deserialize_blob-panics_example = deserialize_blob-panics cut_blob
