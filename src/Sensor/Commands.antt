-- ===== src/Sensor/Commands.antt =====
-- The commands of pcside/daemon/src/sensor.rs and the reading of their answers.
pub mod Answers
use linux_fingerprint_r.Prelude.{
  ℕ, Bool, false, Option, none, some, List, [], ◌∷◌, ◌++◌, Bytes, codes, eq, strip_prefix,
  starts_with, split_once, Result, ok, err, ◌>>=◌, Map, lookup, insert, trim, split_whitespace,
  split_space,
}
use linux_fingerprint_r.Decimal.{parse, max_u8, max_u16, to_decimal}
use linux_fingerprint_r.Counter.{Codec}
use linux_fingerprint_r.Sensor.{
  SensorError, command, protocol, missing_field, bad_field, R503, Answer, Calls, execute,
}

-- `parts.next()` after the first part: the code and the detail of an error line.
error_rest : Option (Bytes × Bytes) → SensorError
error_rest none = command (codes "unknown") none
error_rest (some (first, rest)) = elim (split_space rest) [
  | none ↦ command rest none
  | some (code, detail) ↦ command code (some detail)
]

unfoldable expect_rest : Bytes → Option Bytes → Result SensorError Bytes
expect_rest line (some rest) = ok (trim rest)
expect_rest line none = err (error_rest (split_space line))

unfoldable pub expect_ok : Bytes → Result SensorError Bytes
unfolding expect_rest error_rest
expect_ok line = expect_rest line (strip_prefix (codes "OK") line)

-- `collect` into a `HashMap`: of two fields with one name the later one stays.
unfoldable add_field : Option (Bytes × Bytes) → Map Bytes → Map Bytes
add_field none kv = kv
add_field (some (k, v)) kv = insert k v kv

unfoldable collect_fields : List Bytes → Map Bytes → Map Bytes
collect_fields [] kv = kv
collect_fields (token ∷ tokens) kv = collect_fields tokens (add_field (split_once b'=' token) kv)

unfoldable pub parse_kv : Bytes → Map Bytes
unfolding collect_fields add_field
parse_kv body = collect_fields (split_whitespace body) []

unfoldable field_value : ℕ → Bytes → Option Bytes → Result SensorError ℕ
field_value max key none = err (protocol (missing_field key))
field_value max key (some v) = elim (parse max v) [
  | none ↦ err (protocol (bad_field key))
  | some n ↦ ok n
]

-- `parse_field::<T>`, for an unsigned `T` with the given maximum
unfoldable pub parse_field : ℕ → Map Bytes → Bytes → Result SensorError ℕ
unfolding field_value
parse_field max kv key = field_value max key (lookup key kv)

pub record SensorInfo : Type 0 where
  pub fw : Bytes
  pub capacity : ℕ
  pub enrolled : ℕ

pub record MatchResult : Type 0 where
  pub slot : ℕ
  pub confidence : ℕ

abbrev pub datasheet_capacity : ℕ
datasheet_capacity = 200

-- `unwrap_or`
abbrev pub or_else : Result SensorError ℕ → ℕ → ℕ
or_else (ok n) d = n
or_else (err e) d = d

abbrev or_empty : Option Bytes → Bytes
or_empty none = []
or_empty (some v) = v

-- The readers of the answers' lines.
unfoldable pub read_info : Bytes → Result SensorError SensorInfo
read_info line = do
  body ← expect_ok line
  ok (record {
    fw = or_empty (lookup (codes "fw") (parse_kv body));
    capacity = or_else (parse_field max_u16 (parse_kv body) (codes "capacity")) datasheet_capacity;
    enrolled = or_else (parse_field max_u16 (parse_kv body) (codes "enrolled")) 0;
  })

unfoldable pub read_slot : Bytes → Bytes → Result SensorError ℕ
read_slot field line = do body ← expect_ok line; parse_field max_u8 (parse_kv body) field

unfoldable pub read_match : Bytes → Result SensorError MatchResult
read_match line = do
  body ← expect_ok line
  slot ← parse_field max_u8 (parse_kv body) (codes "match")
  confidence ← parse_field max_u16 (parse_kv body) (codes "confidence")
  ok (record { slot = slot; confidence = confidence })

unfoldable pub read_unit : Bytes → Result SensorError (Unit {0})
read_unit line = do body ← expect_ok line; ok tt

wake_value : Option Bytes → Bool
wake_value none = false
wake_value (some s) = eq s (codes "1")

unfoldable pub read_wake : Bytes → Result SensorError Bool
unfolding wake_value
read_wake line = do body ← expect_ok line; ok (wake_value (lookup (codes "wake") (parse_kv body)))

unfoldable pub read_pong : Bytes → Result SensorError Bool
read_pong line = ok (starts_with (codes "OK pong") line)

-- A command: the line is executed, and the answer, if there is one, is read.
unfoldable pub after_answer {ℓ} :
    {A : Type ℓ} → (Bytes → Result SensorError A) → Answer → Option (Result SensorError A) × R503
after_answer reader (none, s) = (none, s)
after_answer reader (some (err e), s) = (some (err e), s)
after_answer reader (some (ok line), s) = (some (reader line), s)

module _ (lossy : Bytes → Bytes) (c : Codec) (calls : Calls) where
  pub info : R503 → Option (Result SensorError SensorInfo) × R503
  info s = after_answer read_info (execute lossy c calls (codes "info") s)

  pub enroll : ℕ → R503 → Option (Result SensorError ℕ) × R503
  enroll slot s =
      after_answer (read_slot (codes "enrolled"))
        (execute lossy c calls (codes "enroll " ++ to_decimal slot) s)

  pub verify : R503 → Option (Result SensorError MatchResult) × R503
  verify s = after_answer read_match (execute lossy c calls (codes "verify") s)

  pub identify : R503 → Option (Result SensorError MatchResult) × R503
  identify s = after_answer read_match (execute lossy c calls (codes "identify") s)

  pub delete : ℕ → R503 → Option (Result SensorError ℕ) × R503
  delete slot s =
      after_answer (read_slot (codes "deleted"))
        (execute lossy c calls (codes "delete " ++ to_decimal slot) s)

  pub clear : R503 → Option (Result SensorError (Unit {0})) × R503
  clear s = after_answer read_unit (execute lossy c calls (codes "clear confirm") s)

  pub wake : R503 → Option (Result SensorError Bool) × R503
  wake s = after_answer read_wake (execute lossy c calls (codes "wake") s)

  pub ping : R503 → Option (Result SensorError Bool) × R503
  ping s = after_answer read_pong (execute lossy c calls (codes "ping") s)

  pub led_off : R503 → Option (Result SensorError (Unit {0})) × R503
  led_off s = after_answer read_unit (execute lossy c calls (codes "led off") s)
