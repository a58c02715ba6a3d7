-- ===== src/Prelude/Whitespace/Trimming.antt =====
-- What `trim` leaves of a line.
use Prim.Native.Nat.{ℕ, ◌≤◌, ◌<◌}
use mathlib.Core.Path.{◌≡◌, refl, ap, ◌∙◌}
use mathlib.Core.Bool.{false, ◌&&◌, ◌||◌}
use mathlib.Core.List.{[], ◌∷◌, ◌++◌}
use native.Mathlib.Omega.{arith}
use linux_fingerprint_r.Prelude.Lists.{All}
use linux_fingerprint_r.Prelude.Tests.{◌==◌, leb}
use linux_fingerprint_r.Prelude.Texts.{Bytes}
use linux_fingerprint_r.Prelude.Whitespace.{
  space_len, two_bytes, three_bytes, trim_start_from, all_space, trim_end, trim,
}

-- A printable ASCII character that is no space.
abbrev pub IsGraphic : ℕ → Type 0
IsGraphic b = (33 ≤ b) × (b < 127)

two_bytes-ascii : (a : ℕ) (s : Bytes) → a < 127 → two_bytes a s ≡ 0
unfolding two_bytes
two_bytes-ascii a [] h = refl
two_bytes-ascii a (b ∷ s) h = ground arith

three_bytes-ascii : (a : ℕ) (s : Bytes) → a < 127 → three_bytes a s ≡ 0
unfolding three_bytes
three_bytes-ascii a [] h = refl
three_bytes-ascii a (b ∷ []) h = refl
three_bytes-ascii a (b ∷ c ∷ s) h = ground arith

pub space_len-graphic : (b : ℕ) (s : Bytes) → IsGraphic b → space_len (b ∷ s) ≡ 0
unfolding space_len
space_len-graphic b s h =
    let no_control : ((leb 9 b && leb b 13) || b == 32) ≡ false = ground (arith, h.0) in
    rw (no_control, two_bytes-ascii b s h.1, three_bytes-ascii b s h.1) refl

trim_end-graphic : (s : Bytes) → All IsGraphic s → trim_end (s ++ b'\n' ∷ []) ≡ s
unfolding trim_end all_space
trim_end-graphic [] h = unfold space_len in refl
trim_end-graphic (b ∷ s) h =
    rw (space_len-graphic b (s ++ b'\n' ∷ []) h.0, trim_end-graphic s h.1) refl

trim_start-graphic : (b : ℕ) (s : Bytes) → IsGraphic b → trim_start_from 0 (b ∷ s) ≡ b ∷ s
unfolding trim_start_from
trim_start-graphic b s h = rw (space_len-graphic b s h) refl

-- A line of graphic characters without its line feed.
pub trim-line : (s : Bytes) → All IsGraphic s → trim (s ++ b'\n' ∷ []) ≡ s
unfolding trim
trim-line [] h = unfold trim_start_from space_len trim_end in refl
trim-line (b ∷ s) h =
    ap trim_end (trim_start-graphic b (s ++ b'\n' ∷ []) h.0) ∙ trim_end-graphic (b ∷ s) h
