-- ===== src/Crypto/Reference.antt =====
-- `siphash24` of pcside/daemon/src/crypto.rs against the specification of SipHash.
use mathlib.Core.List.{foldl, foldl-append}
use linux_fingerprint_r.Prelude.{
  ℕ, zero, suc, ◌+◌, ◌-◌, ◌*◌, ◌/◌, ◌%◌, ◌^◌, ◌≤◌, ◌≡◌, refl, sym, ap, ◌∙◌, List, [], ◌∷◌, ◌++◌,
  Bytes, All, length, take, drop, arith, append_assoc, length-append, length-take, length-drop,
  take-append-drop,
}
use Prim.Native.Nat.{bit_xor}
use linux_fingerprint_r.Crypto.{
  from_le_bytes, load_u64_le, rotl64, Words, sipround, compress, absorb, or_tail, init, finish,
  siphash24,
}
use linux_fingerprint_r.Crypto.Spec
use linux_fingerprint_r.Crypto.Spec.{
  zeros, padded, little_endian, big_endian, rotate, round_with, sip_round, take_word, initial,
  final_rounds, reference,
}
use linux_fingerprint_r.Crypto.Tail.{or_tail-value}
use linux_fingerprint_r.Crypto.Bounds.{IsByte, All-drop}

-- The words as the code loads them.
words : ℕ → Bytes → List ℕ
words zero s = []
words (suc n) s = load_u64_le s ∷ words n (drop 8 s)

from_le_bytes-eq : (s : Bytes) → from_le_bytes s ≡ little_endian s
unfolding from_le_bytes little_endian
from_le_bytes-eq [] = refl
from_le_bytes-eq (b ∷ s) = ap (λ (n : ℕ). b + 256 * n) (from_le_bytes-eq s)

words-eq : (n : ℕ) (s : Bytes) → words n s ≡ Spec.words n s
unfolding words Spec.words load_u64_le
words-eq zero s = refl
words-eq (suc n) s = λ i. from_le_bytes-eq (take 8 s) i ∷ words-eq n (drop 8 s) i

rotl64-13 : (x : ℕ) → rotl64 x 13 ≡ rotate x 13
unfolding rotl64 rotate
rotl64-13 x = omega arith

rotl64-16 : (x : ℕ) → rotl64 x 16 ≡ rotate x 16
unfolding rotl64 rotate
rotl64-16 x = omega arith

rotl64-17 : (x : ℕ) → rotl64 x 17 ≡ rotate x 17
unfolding rotl64 rotate
rotl64-17 x = omega arith

rotl64-21 : (x : ℕ) → rotl64 x 21 ≡ rotate x 21
unfolding rotl64 rotate
rotl64-21 x = omega arith

rotl64-32 : (x : ℕ) → rotl64 x 32 ≡ rotate x 32
unfolding rotl64 rotate
rotl64-32 x = omega arith

sipround-eq : (s : Words) → sipround s ≡ sip_round s
unfolding sipround sip_round round_with
sipround-eq s = λ i.
    round_with (λ x. rotl64-13 x i) (λ x. rotl64-16 x i) (λ x. rotl64-17 x i) (λ x. rotl64-21 x i)
      (λ x. rotl64-32 x i) s

compress-eq : (s : Words) (m : ℕ) → compress s m ≡ take_word s m
unfolding compress take_word
compress-eq s m =
    let two =
      ap sipround (sipround-eq (record s { v3 = bit_xor s.v3 m }))
      ∙ sipround-eq (sip_round (record s { v3 = bit_xor s.v3 m })) in
    ap (λ (r : Words). record r { v0 = bit_xor r.v0 m }) two

foldl-compress : (ws : List ℕ) (s : Words) → foldl compress s ws ≡ foldl take_word s ws
foldl-compress [] s = refl
foldl-compress (m ∷ ws) s =
    foldl-compress ws (compress s m) ∙ ap (λ (t : Words). foldl take_word t ws) (compress-eq s m)

take-take : (n : ℕ) (s : Bytes) → take n (take n s) ≡ take n s
take-take zero s = refl
take-take (suc n) [] = refl
take-take (suc n) (b ∷ s) = ap (λ t. b ∷ t) (take-take n s)

init-eq : (key : Bytes) → init key ≡ initial key
unfolding init initial load_u64_le big_endian
init-eq key = λ i. record {
  v0 =
      bit_xor ((ap from_le_bytes (take-take 8 key) ∙ from_le_bytes-eq (take 8 key)) i)
        0x736f6d6570736575;
  v1 = bit_xor (from_le_bytes-eq (take 8 (drop 8 key)) i) 0x646f72616e646f6d;
  v2 =
      bit_xor ((ap from_le_bytes (take-take 8 key) ∙ from_le_bytes-eq (take 8 key)) i)
        0x6c7967656e657261;
  v3 = bit_xor (from_le_bytes-eq (take 8 (drop 8 key)) i) 0x7465646279746573;
}

finish-eq : (s : Words) → finish s ≡ final_rounds s
unfolding finish final_rounds
finish-eq s =
    let t : Words = record s { v2 = bit_xor s.v2 255 } in
    let one = sipround-eq t in
    let two = ap sipround one ∙ sipround-eq (sip_round t) in
    let three = ap sipround two ∙ sipround-eq (sip_round (sip_round t)) in
    let four = ap sipround three ∙ sipround-eq (sip_round (sip_round (sip_round t))) in
    ap (λ (r : Words). bit_xor (bit_xor (bit_xor r.v0 r.v1) r.v2) r.v3) four

drop-nil : (m : ℕ) → drop {A = ℕ} m [] ≡ []
drop-nil zero = refl
drop-nil (suc m) = refl

drop-drop : (m n k : ℕ) (s : Bytes) → k ≡ n + m → drop m (drop n s) ≡ drop k s
drop-drop m zero k s e = ap (λ (t : ℕ). drop t s) (omega arith)
drop-drop m (suc n) k [] e = drop-nil m ∙ sym (drop-nil k)
drop-drop m (suc n) zero (b ∷ s) e = absurd (omega arith)
drop-drop m (suc n) (suc k) (b ∷ s) e = drop-drop m n k s (omega arith)

absorb-words :
    (n i : ℕ) (msg : Bytes) (s : Words)
    → absorb n i msg s ≡ foldl compress s (words n (drop (i * 8) msg))
unfolding absorb words
absorb-words zero i msg s = refl
absorb-words (suc n) i msg s =
    absorb-words n (i + 1) msg _
    ∙ ap (λ (t : Bytes). foldl compress (compress s (load_u64_le (drop (i * 8) msg))) (words n t))
        (sym (drop-drop 8 (i * 8) ((i + 1) * 8) msg (omega arith)))

take-append_le : (n : ℕ) (xs ys : Bytes) → n ≤ length xs → take n (xs ++ ys) ≡ take n xs
take-append_le zero xs ys h = refl
take-append_le (suc n) [] ys h = absurd (omega arith)
take-append_le (suc n) (x ∷ xs) ys h = ap (λ t. x ∷ t) (take-append_le n xs ys (omega arith))

drop-append_le : (n : ℕ) (xs ys : Bytes) → n ≤ length xs → drop n (xs ++ ys) ≡ drop n xs ++ ys
drop-append_le zero xs ys h = refl
drop-append_le (suc n) [] ys h = absurd (omega arith)
drop-append_le (suc n) (x ∷ xs) ys h = drop-append_le n xs ys (omega arith)

load-append : (xs ys : Bytes) → 8 ≤ length xs → load_u64_le (xs ++ ys) ≡ load_u64_le xs
unfolding load_u64_le
load-append xs ys h = ap from_le_bytes (take-append_le 8 xs ys h)

words-append : (n : ℕ) (xs ys : Bytes) → n * 8 ≤ length xs → words n (xs ++ ys) ≡ words n xs
unfolding words
words-append zero xs ys h = refl
words-append (suc n) xs ys h = λ i.
    load-append xs ys (omega arith) i
    ∷ (ap (words n) (drop-append_le 8 xs ys (omega arith))
          ∙ words-append n (drop 8 xs) ys (omega (arith, length-drop 8 xs)))
        i

words_last :
    (n : ℕ) (xs ys : Bytes)
    → length xs ≡ n * 8
    → words (suc n) (xs ++ ys) ≡ words n xs ++ load_u64_le ys ∷ []
unfolding words
words_last zero [] ys h = refl
words_last zero (x ∷ xs) ys h = absurd (omega arith)
words_last (suc n) xs ys h = λ i.
    load-append xs ys (omega arith) i
    ∷ (ap (words (suc n)) (drop-append_le 8 xs ys (omega arith))
          ∙ words_last n (drop 8 xs) ys (omega (arith, length-drop 8 xs)))
        i

-- The last word of the padded message: the tail, zeros, and the length byte on top.
last_word :
    (q : ℕ) (tail : Bytes)
    → length tail ≤ 7
    → from_le_bytes (tail ++ (zeros (7 - length tail) ++ q ∷ [])) ≡ q * 2 ^ 56 + from_le_bytes tail
unfolding from_le_bytes zeros
last_word q [] h = omega arith
last_word q (a ∷ []) h = omega arith
last_word q (a ∷ b ∷ []) h = omega arith
last_word q (a ∷ b ∷ c ∷ []) h = omega arith
last_word q (a ∷ b ∷ c ∷ d ∷ []) h = omega arith
last_word q (a ∷ b ∷ c ∷ d ∷ e ∷ []) h = omega arith
last_word q (a ∷ b ∷ c ∷ d ∷ e ∷ f ∷ []) h = omega arith
last_word q (a ∷ b ∷ c ∷ d ∷ e ∷ f ∷ g ∷ []) h = omega arith
last_word q (a ∷ b ∷ c ∷ d ∷ e ∷ f ∷ g ∷ k ∷ rest) h = absurd (omega arith)

length-zeros : (n : ℕ) → length (zeros n) ≡ n
unfolding zeros
length-zeros zero = refl
length-zeros (suc n) = ap suc (length-zeros n)

take_all : (n : ℕ) (s : Bytes) → length s ≡ n → take n s ≡ s
take_all zero [] h = refl
take_all zero (b ∷ s) h = absurd (omega arith)
take_all (suc n) [] h = refl
take_all (suc n) (b ∷ s) h = ap (λ t. b ∷ t) (take_all n s (omega arith))

-- What follows the last whole block of the padded message.
pad : Bytes → Bytes
pad msg = zeros (7 - length msg % 8) ++ (length msg % 256) ∷ []

length-pad : (msg : Bytes) → length (pad msg) ≡ 8 - length msg % 8
unfolding pad
length-pad msg = omega (
  arith,
  length-append (zeros (7 - length msg % 8)) ((length msg % 256) ∷ []),
  length-zeros (7 - length msg % 8),
)

module _ (msg : Bytes) (h : All IsByte msg) where
  abbrev blocks : ℕ
  blocks = length msg / 8

  abbrev body : Bytes
  body = take (blocks * 8) msg

  abbrev rest : Bytes
  rest = drop (blocks * 8) msg

  length-rest : length rest ≡ length msg % 8
  length-rest = omega (arith, length-drop (blocks * 8) msg)

  length-body : length body ≡ blocks * 8
  length-body = omega (arith, length-take (blocks * 8) msg)

  words-body : words blocks msg ≡ words blocks body
  words-body =
      ap (words blocks) (sym (take-append-drop (blocks * 8) msg))
      ∙ words-append blocks body rest (omega (arith, length-body))

  padded_parts : padded msg ≡ body ++ (rest ++ pad msg)
  unfolding padded pad
  padded_parts =
      ap (λ (t : Bytes). t ++ pad msg) (sym (take-append-drop (blocks * 8) msg))
      ∙ append_assoc body rest (pad msg)

  count_words : length (padded msg) / 8 ≡ suc blocks
  count_words = omega (
    arith,
    ap (λ (t : Bytes). length t) padded_parts,
    length-append body (rest ++ pad msg),
    length-append rest (pad msg),
    length-body,
    length-rest,
    length-pad msg,
  )

  words-padded :
      words (length (padded msg) / 8) (padded msg)
      ≡ words blocks body ++ load_u64_le (rest ++ pad msg) ∷ []
  words-padded =
      (λ i. words (count_words i) (padded_parts i))
      ∙ words_last blocks body (rest ++ pad msg) length-body

  length_last : length (rest ++ pad msg) ≡ 8
  length_last = omega (arith, length-append rest (pad msg), length-rest, length-pad msg)

  or_tail-rest :
      or_tail 0 (length msg % 256 * 2 ^ 56) rest ≡ length msg % 256 * 2 ^ 56 + from_le_bytes rest
  or_tail-rest =
      ap (λ (t : ℕ). or_tail 0 t rest) (omega arith)
      ∙ or_tail-value 0 (length msg % 256) 0 rest (omega (arith, length-rest)) (omega arith)
          (All-drop (blocks * 8) msg h)
      ∙ omega arith

  last-or_tail : or_tail 0 (length msg % 256 * 2 ^ 56) rest ≡ load_u64_le (rest ++ pad msg)
  unfolding load_u64_le pad
  last-or_tail =
      or_tail-rest
      ∙ sym (
          ap from_le_bytes (take_all 8 (rest ++ pad msg) length_last)
          ∙ ap (λ (t : ℕ). from_le_bytes (rest ++ (zeros (7 - t) ++ (length msg % 256) ∷ [])))
              (sym length-rest)
          ∙ last_word (length msg % 256) rest (omega (arith, length-rest)))

siphash24_lem :
    (key msg : Bytes)
    → siphash24 key msg
      ≡ finish (
          compress
            (absorb (length msg / 8) 0 msg (init key))
            (or_tail 0 (length msg % 256 * 2 ^ 56) (drop (length msg / 8 * 8) msg)))
unfolding siphash24
siphash24_lem key msg = refl

-- For every key and every message of bytes, the code computes SipHash-2-4 as the paper describes it: the loop
-- over slices with its separate tail is a fold over the words of the padded message, each assignment of
-- the round is that of two halves with the rotations 13, 16, 17, 21 and 32, and the constants are the text
-- "somepseudorandomlygeneratedbytes".
pub siphash24-eq-reference :
    (key msg : Bytes) → All IsByte msg → siphash24 key msg ≡ reference key msg
unfolding reference
siphash24-eq-reference key msg h =
    siphash24_lem key msg
    ∙ ap finish (
        (λ i.
          compress
            ((absorb-words (blocks msg h) 0 msg (init key)
                ∙ ap (foldl compress (init key)) (words-body msg h))
              i)
            (last-or_tail msg h i))
        ∙ sym (
            ap (foldl compress (init key)) (words-padded msg h)
            ∙ foldl-append compress (init key) (words (blocks msg h) (body msg h))
                (load_u64_le (rest msg h ++ pad msg) ∷ []))
        ∙ foldl-compress (words (length (padded msg) / 8) (padded msg)) (init key)
        ∙ (λ i.
            foldl take_word (init-eq key i) (words-eq (length (padded msg) / 8) (padded msg) i)))
    ∙ finish-eq (foldl take_word (initial key) (Spec.words (length (padded msg) / 8) (padded msg)))
