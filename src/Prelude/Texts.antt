-- ===== src/Prelude/Texts.antt =====
-- Rust's `str` and `[u8]` as lists of bytes, with the operations of the standard library.
use Prim.Native.Nat.{ℕ}
use Prim.Native.Char.{code}
use Prim.Native.String.{String}
use mathlib.Core.Path.{◌≡◌, refl, subst}
use mathlib.Core.Logic.{◌↔◌, ◌≢◌}
use mathlib.Core.Bool.{Bool, true, false, ◌&&◌}
use mathlib.Core.List.{List, [], ◌∷◌, ◌++◌}
use mathlib.Core.Option.{Option, none, some}
use native.Mathlib.Omega.{arith}
use linux_fingerprint_r.Prelude.Tests.{◌==◌, if◌then◌else◌}
use linux_fingerprint_r.Prelude.Lists.{All, length, drop}

abbrev pub Bytes : Type 0
Bytes = List ℕ

-- The bytes of an ASCII literal.
abbrev pub codes : String → Bytes
codes String.[] = []
codes (String.◌∷◌ c s) = code c ∷ codes s

-- `a == b` on texts
unfoldable pub eq : Bytes → Bytes → Bool
eq [] [] = true
eq [] (b ∷ bs) = false
eq (a ∷ as') [] = false
eq (a ∷ as') (b ∷ bs) = (a == b) && eq as' bs

pub eq_sound : (a b : Bytes) → eq a b ≡ true → a ≡ b
unfolding eq
eq_sound [] [] h = refl
eq_sound [] (b ∷ bs) h = ground arith
eq_sound (a ∷ as') [] h = ground arith
eq_sound (a ∷ as') (b ∷ bs) h = ground (arith, eq_sound as' bs)

pub eq_refl : (a : Bytes) → eq a a ≡ true
unfolding eq
eq_refl [] = refl
eq_refl (a ∷ as') = ground (arith, eq_refl as')

pub eq_iff : (a b : Bytes) → (eq a b ≡ true) ↔ (a ≡ b)
eq_iff a b = (eq_sound a b, λ p. subst (λ c. eq a c ≡ true) p (eq_refl a))

-- Whether a text starts with another, and what follows it: `str::strip_prefix`.
unfoldable pub strip_prefix : Bytes → Bytes → Option Bytes
strip_prefix [] s = some s
strip_prefix (p ∷ ps) [] = none
strip_prefix (p ∷ ps) (c ∷ s) = if p == c then strip_prefix ps s else none

unfoldable pub starts_with : Bytes → Bytes → Bool
starts_with [] s = true
starts_with (p ∷ ps) [] = false
starts_with (p ∷ ps) (c ∷ s) = (p == c) && starts_with ps s

pub strip_prefix-append : (p s : Bytes) → strip_prefix p (p ++ s) ≡ some s
unfolding strip_prefix
strip_prefix-append [] s = refl
strip_prefix-append (c ∷ p) s = ground (arith, strip_prefix-append p s)

pub strip_prefix_sound : (p s r : Bytes) → strip_prefix p s ≡ some r → s ≡ p ++ r
unfolding strip_prefix
strip_prefix_sound [] s r h = ground arith
strip_prefix_sound (c ∷ p) [] r h = ground arith
strip_prefix_sound (c ∷ p) (d ∷ s) r h = ground (arith, strip_prefix_sound p s r)

pub starts_with_sound : (p s : Bytes) → starts_with p s ≡ true → s ≡ p ++ drop (length p) s
unfolding starts_with
starts_with_sound [] s h = refl
starts_with_sound (c ∷ p) [] h = ground arith
starts_with_sound (c ∷ p) (d ∷ s) h = ground (arith, starts_with_sound p s)

-- `s.find(c)` with the cut it is used for: what stands before the first `c`, and what follows it.
unfoldable pub split_once : ℕ → Bytes → Option (Bytes × Bytes)
split_once c [] = none
split_once c (d ∷ s) =
    let rest = split_once c s in
    if d == c then some ([], s) else elim rest [ none ↦ none | some (a, b) ↦ some (d ∷ a, b) ]

pub split_once_sound : (c : ℕ) (s a b : Bytes) → split_once c s ≡ some (a, b) → s ≡ a ++ c ∷ b
unfolding split_once
split_once_sound c [] a b h = ground arith
split_once_sound c (d ∷ s) [] b h = ground arith
split_once_sound c (d ∷ s) (e ∷ a) b h = ground (arith, split_once_sound c s a b)

pub split_once-append :
    (c : ℕ) (a b : Bytes) → All (λ x. x ≢ c) a → split_once c (a ++ c ∷ b) ≡ some (a, b)
unfolding split_once
split_once-append c [] b h = ground arith
split_once-append c (d ∷ a) b (hd, h) = ground (arith, split_once-append c a b h)
