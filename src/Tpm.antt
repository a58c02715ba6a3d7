-- ===== src/Tpm.antt =====
-- pcside/daemon/src/tpm.rs: the PCR lists and the file that a sealed key is kept in.
mod Tests
pub mod Pcrs
pub mod Blob
pub mod Panics
pub mod Sealing
use linux_fingerprint_r.Prelude.{
  ℕ, zero, suc, ◌>>=◌, ◌+◌, ◌%◌, ◌^◌, Bool, true, false, not, Option, none, some, List, [], ◌∷◌,
  ◌++◌, Bytes, codes, eq, split_once, trim, Result, ok, err, Done, take, drop, length, ltb, leb,
  ◌==◌, if◌then◌else◌,
}
use linux_fingerprint_r.Crypto.{from_le_bytes}
use linux_fingerprint_r.Decimal.{parse, max_u8}
use linux_fingerprint_r.Hex.{to_le_bytes}

pub data SealPolicy : Type 0 where
  pcrs : Bytes → SealPolicy
  no_policy : SealPolicy

abbrev pub default_pcrs : Bytes
default_pcrs = 7 ∷ []

pub data PcrError : Type 0 where
  not_a_u8 : Bytes → PcrError
  empty_list duplicates : PcrError
  too_long out_of_range : ℕ → PcrError

-- `sort_unstable`; equal numbers cannot be told apart.
insert_sorted : ℕ → Bytes → Bytes
insert_sorted p [] = p ∷ []
insert_sorted p (q ∷ qs) = let rest = insert_sorted p qs in if leb p q then p ∷ q ∷ qs else q ∷ rest

sort : Bytes → Bytes
sort [] = []
sort (p ∷ ps) = insert_sorted p (sort ps)

-- `Vec::dedup`: of equal neighbours the first stays.
dedup_behind : ℕ → Bytes → Bytes
dedup_behind p [] = []
dedup_behind p (q ∷ qs) = let rest = dedup_behind q qs in if p == q then rest else q ∷ rest

dedup : Bytes → Bytes
dedup [] = []
dedup (p ∷ ps) = p ∷ dedup_behind p ps

-- The loop that looks for an index above 23.
check_range : Bytes → Done PcrError
check_range [] = ok tt
check_range (p ∷ ps) = let rest = check_range ps in if ltb 23 p then err (out_of_range p) else rest

check_duplicates : Bytes → Done PcrError
check_duplicates ps = if not (length (dedup (sort ps)) == length ps) then err duplicates else ok tt

unfoldable pub validate_pcrs : Bytes → Done PcrError
unfolding check_range check_duplicates sort insert_sorted dedup dedup_behind
validate_pcrs ps =
    if length ps == 0
    then err empty_list
    else if ltb 24 (length ps)
    then err (too_long (length ps))
    else do _ ← check_range ps; check_duplicates ps

-- `str::split` at a byte, with the part that is being read.
split_at : ℕ → Bytes → Bytes → List Bytes
split_at c part [] = part ∷ []
split_at c part (b ∷ s) =
    let more = split_at c (part ++ b ∷ []) s in
    let next = split_at c [] s in if b == c then part ∷ next else more

abbrev read_index : Bytes → Option ℕ → Result PcrError ℕ
read_index tok none = err (not_a_u8 tok)
read_index tok (some n) = ok n

-- The loop over the parts; an empty one is passed over.
read_token : Bytes → Result PcrError Bytes → Result PcrError Bytes
read_token tok rest = do n ← read_index tok (parse max_u8 tok); ns ← rest; ok (n ∷ ns)

read_tokens : List Bytes → Result PcrError Bytes
read_tokens [] = ok []
read_tokens (tok ∷ toks) =
    let rest = read_tokens toks in
    if length (trim tok) == 0 then rest else read_token (trim tok) rest

check_nonempty : Bytes → Done PcrError
check_nonempty [] = err empty_list
check_nonempty (n ∷ ns) = ok tt

unfoldable pub parse_pcr_list : Bytes → Result PcrError Bytes
unfolding split_at read_token read_tokens check_nonempty
parse_pcr_list s = do
  out ← read_tokens (split_at b',' [] s)
  _ ← check_nonempty out
  _ ← validate_pcrs out
  ok out

abbrev pub magic_v1 : Bytes
magic_v1 = codes "R503TPM" ++ 1 ∷ []

abbrev pub magic_v2 : Bytes
magic_v2 = codes "R503TPM" ++ 2 ∷ []

abbrev pub magic_v3 : Bytes
magic_v3 = codes "R503TPM" ++ 3 ∷ []

-- The length as `u32`, and the field.
unfoldable pub serialize_field : Bytes → Bytes
serialize_field s = to_le_bytes 4 (length s % 2 ^ 32) ++ s

unfoldable pub serialize_policy : SealPolicy → Bytes
serialize_policy (pcrs ps) =
    if eq ps default_pcrs then magic_v1 else magic_v2 ++ (length ps % 2 ^ 8) ∷ ps
serialize_policy no_policy = magic_v3

unfoldable pub serialize_blob : SealPolicy → Bytes → Bytes → Bytes
serialize_blob policy pub_bytes priv_bytes =
    serialize_policy policy ++ serialize_field pub_bytes ++ serialize_field priv_bytes

-- The errors of `deserialize_blob`. `panicked` is none: a slice's bounds are not met, which stops the thread.
pub data BlobError : Type 0 where
  too_short truncated_before_count truncated_list magic_mismatch pub_truncated length_mismatch
        panicked :
      BlobError
  bad_count pub_too_large priv_too_large : ℕ → BlobError
  bad_pcrs : PcrError → BlobError

abbrev pub max_field : ℕ
max_field = 65536

pub record Parts : Type 0 where
  pub policy : SealPolicy
  pub pub_bytes : Bytes
  pub priv_bytes : Bytes

-- `u32::from_le_bytes(blob[off..off + 4])` with what follows; `rest` is `blob[off..]`, here and below.
unfoldable pub read_len {ℓ} :
    {A : Type ℓ} → Bytes → (ℕ → Bytes → Result BlobError A) → Result BlobError A
read_len rest next =
    if ltb (length rest) 4 then err panicked else next (from_le_bytes (take 4 rest)) (drop 4 rest)

unfoldable pub read_priv : SealPolicy → Bytes → ℕ → Bytes → Result BlobError Parts
read_priv policy pub_bytes priv_len rest =
    if ltb max_field priv_len
    then err (priv_too_large priv_len)
    else if not (priv_len == length rest)
    then err length_mismatch
    else ok (record { policy = policy; pub_bytes = pub_bytes; priv_bytes = take priv_len rest })

-- The sums are below 2^63 + 2^17, since a slice is shorter than 2^63: `checked_add` does not fail.
unfoldable pub read_pub : SealPolicy → ℕ → Bytes → Result BlobError Parts
read_pub policy pub_len rest =
    if ltb max_field pub_len
    then err (pub_too_large pub_len)
    else if ltb (length rest) (pub_len + 4)
    then err pub_truncated
    else read_len (drop pub_len rest) (read_priv policy (take pub_len rest))

unfoldable pub read_fields : SealPolicy → Bytes → Result BlobError Parts
read_fields policy rest = read_len rest (read_pub policy)

unfoldable pub after_validation : Bytes → Bytes → Done PcrError → Result BlobError Parts
after_validation ps rest (err e) = err (bad_pcrs e)
after_validation ps rest (ok _) = read_fields (pcrs ps) rest

unfoldable pub read_pcrs : Bytes → Result BlobError Parts
read_pcrs [] = err truncated_before_count
read_pcrs (count ∷ rest) =
    if count == 0
    then err (bad_count count)
    else if ltb 24 count
    then err (bad_count count)
    else if ltb (length rest) count
    then err truncated_list
    else after_validation (take count rest) (drop count rest) (validate_pcrs (take count rest))

unfoldable pub deserialize_blob : Bytes → Result BlobError Parts
deserialize_blob blob =
    if ltb (length blob) (8 + 8)
    then err too_short
    else if eq (take 8 blob) magic_v1
    then read_fields (pcrs default_pcrs) (drop 8 blob)
    else if eq (take 8 blob) magic_v2
    then read_pcrs (drop 8 blob)
    else if eq (take 8 blob) magic_v3
    then read_fields no_policy (drop 8 blob)
    else err magic_mismatch

unfoldable pub policy_of_blob : Bytes → Result BlobError SealPolicy
policy_of_blob blob = do parts ← deserialize_blob blob; ok parts.policy
