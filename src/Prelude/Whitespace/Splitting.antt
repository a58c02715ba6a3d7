-- ===== src/Prelude/Whitespace/Splitting.antt =====
-- What `trim` and `split_whitespace` make of words with one space between them.
use Prim.Native.Nat.{ℕ}
use mathlib.Core.Path.{◌≡◌, refl, sym, ap, ◌∙◌}
use mathlib.Core.Bool.{false}
use mathlib.Core.Logic.{inl, inr, ◌⊎◌}
use mathlib.Core.List.{List, [], ◌∷◌, ◌++◌, append_assoc, append-nil}
use linux_fingerprint_r.Prelude.Lists.{All}
use linux_fingerprint_r.Prelude.Texts.{Bytes}
use linux_fingerprint_r.Prelude.Whitespace.{
  space_len, trim_start_from, all_space, trim_end, trim, split_from, split_whitespace,
}
use linux_fingerprint_r.Prelude.Whitespace.Trimming.{IsGraphic, space_len-graphic}

-- A graphic character or a space.
abbrev pub IsPlain : ℕ → Type 0
IsPlain b = (b ≡ 32) ⊎ IsGraphic b

space_len-space : (b : ℕ) (s : Bytes) → b ≡ 32 → space_len (b ∷ s) ≡ 1
space_len-space b s h = ap (λ (x : ℕ). space_len (x ∷ s)) h ∙ unfold space_len in refl

all_space-plain :
    (u : Bytes) (b : ℕ) (s : Bytes) → All IsPlain u → IsGraphic b → all_space 0 (u ++ b ∷ s) ≡ false
unfolding all_space
all_space-plain [] b s h g = rw (space_len-graphic b s g) refl
all_space-plain (c ∷ u) b s (inl e, h) g =
    rw (space_len-space c (u ++ b ∷ s) e, all_space-plain u b s h g) refl
all_space-plain (c ∷ u) b s (inr e, h) g = rw (space_len-graphic c (u ++ b ∷ s) e) refl

trim_end-graphic : (s : Bytes) → All IsGraphic s → trim_end s ≡ s
unfolding trim_end
trim_end-graphic [] h = refl
trim_end-graphic (b ∷ s) h = rw (all_space-plain [] b s tt h.0, trim_end-graphic s h.1) refl

trim_end-plain :
    (u : Bytes) (b : ℕ) (s : Bytes)
    → All IsPlain u
    → IsGraphic b
    → All IsGraphic s
    → trim_end (u ++ b ∷ s) ≡ u ++ b ∷ s
unfolding trim_end
trim_end-plain [] b s h g k = trim_end-graphic (b ∷ s) (g, k)
trim_end-plain (c ∷ u) b s h g k =
    rw (all_space-plain (c ∷ u) b s h g, trim_end-plain u b s h.1 g k) refl

-- A space before the text is dropped.
pub trim-space :
    (a : ℕ) (u : Bytes) (b : ℕ) (s : Bytes)
    → IsGraphic a
    → All IsPlain u
    → IsGraphic b
    → All IsGraphic s
    → trim (32 ∷ a ∷ u ++ b ∷ s) ≡ a ∷ u ++ b ∷ s
unfolding trim trim_start_from
trim-space a u b s f h g k =
    rw (space_len-space 32 (a ∷ u ++ b ∷ s) refl, space_len-graphic a (u ++ b ∷ s) f)
      (trim_end-plain (a ∷ u) b s (inr f, h) g k)

split_from-graphic :
    (g w rest : Bytes) → All IsGraphic g → split_from 0 w (g ++ rest) ≡ split_from 0 (w ++ g) rest
unfolding split_from
split_from-graphic [] w rest h = ap (λ (x : Bytes). split_from 0 x rest) (sym (append-nil w))
split_from-graphic (b ∷ g) w rest h = rw (space_len-graphic b (g ++ rest) h.0) (
    split_from-graphic g (w ++ b ∷ []) rest h.1
    ∙ ap (λ (x : Bytes). split_from 0 x rest) (append_assoc w (b ∷ []) g))

-- The last word.
split_from-last :
    (b : ℕ) (y : Bytes) → All IsGraphic (b ∷ y) → split_from 0 [] (b ∷ y) ≡ (b ∷ y) ∷ []
unfolding split_from
split_from-last b y k =
    ap (λ (x : Bytes). split_from 0 [] x) (sym (append-nil (b ∷ y)))
    ∙ split_from-graphic (b ∷ y) [] [] k

split_from-space :
    (a : ℕ) (x : Bytes) (b : ℕ) (y : Bytes)
    → All IsGraphic (b ∷ y)
    → split_from 0 (a ∷ x) (32 ∷ b ∷ y) ≡ (a ∷ x) ∷ (b ∷ y) ∷ []
unfolding split_from
split_from-space a x b y k =
    rw (space_len-space 32 (b ∷ y) refl)
      (ap (λ (ws : List Bytes). (a ∷ x) ∷ ws) (split_from-last b y k))

-- Two words.
pub split_whitespace-two :
    (a : ℕ) (x : Bytes) (b : ℕ) (y : Bytes)
    → All IsGraphic (a ∷ x)
    → All IsGraphic (b ∷ y)
    → split_whitespace ((a ∷ x) ++ 32 ∷ b ∷ y) ≡ (a ∷ x) ∷ (b ∷ y) ∷ []
unfolding split_whitespace
split_whitespace-two a x b y h k =
    split_from-graphic (a ∷ x) [] (32 ∷ b ∷ y) h ∙ split_from-space a x b y k
