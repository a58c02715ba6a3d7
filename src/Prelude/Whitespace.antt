-- ===== src/Prelude/Whitespace.antt =====
-- Rust's `char::is_whitespace` on UTF-8, with the operations on `str` that use it.
pub mod Trimming
pub mod Splitting
use Prim.Native.Nat.{ℕ, zero, suc, ◌-◌}
use mathlib.Core.Bool.{Bool, true, false, ◌&&◌, ◌||◌}
use mathlib.Core.Option.{Option, none, some}
use mathlib.Core.List.{List, [], ◌∷◌, ◌++◌}
use linux_fingerprint_r.Prelude.Tests.{◌==◌, leb, if◌then◌else◌}
use linux_fingerprint_r.Prelude.Texts.{Bytes}

-- The last byte of a whitespace character that begins with E2 80.
abbrev is_general_space : ℕ → Bool
is_general_space c = (leb 0x80 c && leb c 0x8a) || (c == 0xa8 || (c == 0xa9 || c == 0xaf))

two_bytes : ℕ → Bytes → ℕ
two_bytes a [] = 0
two_bytes a (b ∷ s) = if a == 0xc2 && (b == 0x85 || b == 0xa0) then 2 else 0

three_bytes : ℕ → Bytes → ℕ
three_bytes a [] = 0
three_bytes a (b ∷ []) = 0
three_bytes a (b ∷ c ∷ s) =
    if (a == 0xe1 && (b == 0x9a && c == 0x80))
      || ((a == 0xe2 && (b == 0x80 && is_general_space c))
          || ((a == 0xe2 && (b == 0x81 && c == 0x9f)) || (a == 0xe3 && (b == 0x80 && c == 0x80))))
    then 3
    else 0

-- How many bytes the whitespace character takes that a text begins with; 0 where it begins with none.
unfoldable pub space_len : Bytes → ℕ
unfolding two_bytes three_bytes
space_len [] = 0
space_len (a ∷ s) =
    if (leb 9 a && leb a 13) || a == 32
    then 1
    else if two_bytes a s == 0
    then three_bytes a s
    else 2

-- The text behind the whitespace it begins with; `skip` bytes belong to a character that was seen.
trim_start_from : ℕ → Bytes → Bytes
trim_start_from skip [] = []
trim_start_from (suc skip) (b ∷ s) = trim_start_from skip s
trim_start_from zero (b ∷ s) =
    let rest = trim_start_from (space_len (b ∷ s) - 1) s in
    if space_len (b ∷ s) == 0 then b ∷ s else rest

all_space : ℕ → Bytes → Bool
all_space skip [] = true
all_space (suc skip) (b ∷ s) = all_space skip s
all_space zero (b ∷ s) =
    let rest = all_space (space_len (b ∷ s) - 1) s in if space_len (b ∷ s) == 0 then false else rest

unfoldable pub trim_end : Bytes → Bytes
unfolding all_space
trim_end [] = []
trim_end (b ∷ s) = let rest = trim_end s in if all_space 0 (b ∷ s) then [] else b ∷ rest

-- `str::trim`
unfoldable pub trim : Bytes → Bytes
unfolding trim_start_from
trim s = trim_end (trim_start_from 0 s)

-- The word that was being read, unless it is empty.
abbrev word : Bytes → List Bytes → List Bytes
word [] ws = ws
word (b ∷ w) ws = (b ∷ w) ∷ ws

split_from : ℕ → Bytes → Bytes → List Bytes
split_from skip w [] = word w []
split_from (suc skip) w (b ∷ s) = split_from skip w s
split_from zero w (b ∷ s) =
    let more = split_from 0 (w ++ b ∷ []) s in
    let next = split_from (space_len (b ∷ s) - 1) [] s in
    if space_len (b ∷ s) == 0 then more else word w next

-- `str::split_whitespace`
unfoldable pub split_whitespace : Bytes → List Bytes
unfolding split_from
split_whitespace s = split_from 0 [] s

abbrev drop_bytes : ℕ → Bytes → Bytes
drop_bytes zero s = s
drop_bytes (suc n) [] = []
drop_bytes (suc n) (b ∷ s) = drop_bytes n s

-- The text before the first whitespace character and the one behind it: a step of `splitn`.
unfoldable pub split_space : Bytes → Option (Bytes × Bytes)
split_space [] = none
split_space (b ∷ s) =
    let rest = split_space s in
    if space_len (b ∷ s) == 0
    then elim rest [ none ↦ none | some (x, y) ↦ some (b ∷ x, y) ]
    else some ([], drop_bytes (space_len (b ∷ s)) (b ∷ s))
