-- ===== src/Framing/Mac.antt =====
-- The MAC on the wire: `parse_mac_hex` of pcside/daemon/src/framing.rs reads what `mac_to_hex` writes.
use Prim.Native.Nat.{bit_or}
use linux_fingerprint_r.Prelude.{
  ℕ, zero, suc, ◌+◌, ◌*◌, ◌/◌, ◌%◌, ◌^◌, ◌<◌, ◌≡◌, refl, sym, ap, ◌∙◌, some, [], ◌∷◌, ◌++◌,
  append_assoc, Bytes, All, Result, ok, length, get_elem?, length-append, arith,
}
use linux_fingerprint_r.Crypto.{from_le_bytes}
use linux_fingerprint_r.Crypto.Bounds.{IsByte}
use linux_fingerprint_r.Hex.{hex_digit, to_hex, mac_to_hex, mac_to_le_bytes, to_le_bytes, nybble}
use linux_fingerprint_r.Hex.Laws.{
  nybble-hex_digit_high, nybble-hex_digit_low, join_nybbles, length-to_hex, length-to_le_bytes,
  to_le_bytes-IsByte, from_le_bytes-to_le_bytes,
}
use linux_fingerprint_r.Framing.{FramingError, nybble_at, mac_bytes, parse_mac_hex}

pub get_elem?-append :
    (pre s : Bytes) (c k : ℕ) → length pre ≡ k → get_elem? (pre ++ c ∷ s) k ≡ some c
get_elem?-append [] s c zero h = refl
get_elem?-append [] s c (suc k) h = absurd (omega arith)
get_elem?-append (p ∷ pre) s c zero h = absurd (omega arith)
get_elem?-append (p ∷ pre) s c (suc k) h = get_elem?-append pre s c k (omega arith)

nybble_at-append :
    (pre s : Bytes) (c k n : ℕ)
    → length pre ≡ k
    → nybble c ≡ some n
    → nybble_at (pre ++ c ∷ s) k ≡ ok n
nybble_at-append pre s c k n h e = unfold nybble_at in rw (get_elem?-append pre s c k h) (rw e)

mac_bytes_step :
    (left i : ℕ) (s : Bytes) {hi lo : ℕ} {out : Bytes}
    → nybble_at s (i * 2) ≡ ok hi
    → nybble_at s (i * 2 + 1) ≡ ok lo
    → mac_bytes left (i + 1) s ≡ ok out
    → mac_bytes (suc left) i s ≡ ok (bit_or (hi * 2 ^ 4) lo ∷ out)
unfolding mac_bytes
mac_bytes_step left i s eh el eo = rw (eh, el, eo)

mac_bytes-to_hex :
    (left i : ℕ) (pre bs : Bytes)
    → length pre ≡ i * 2
    → length bs ≡ left
    → All IsByte bs
    → mac_bytes left i (pre ++ to_hex bs) ≡ ok bs
mac_bytes-to_hex zero i pre [] h k b = unfold mac_bytes in refl
mac_bytes-to_hex zero i pre (x ∷ bs) h k b = absurd (omega arith)
mac_bytes-to_hex (suc left) i pre [] h k b = absurd (omega arith)
mac_bytes-to_hex (suc left) i pre (x ∷ bs) h k b =
    let high = hex_digit (x / 16) in
    let low = hex_digit (x % 16) in
    let whole : pre ++ to_hex (x ∷ bs) ≡ pre ++ high ∷ low ∷ to_hex bs = unfold to_hex in refl in
    let second : (pre ++ high ∷ []) ++ low ∷ to_hex bs ≡ pre ++ to_hex (x ∷ bs) =
      append_assoc pre (high ∷ []) (low ∷ to_hex bs) ∙ sym whole in
    let third : (pre ++ high ∷ low ∷ []) ++ to_hex bs ≡ pre ++ to_hex (x ∷ bs) =
      append_assoc pre (high ∷ low ∷ []) (to_hex bs) ∙ sym whole in
    mac_bytes_step left i (pre ++ to_hex (x ∷ bs))
      (ap (λ (t : Bytes). nybble_at t (i * 2)) whole
        ∙ nybble_at-append pre (low ∷ to_hex bs) high (i * 2) (x / 16) h
            (nybble-hex_digit_high x b.0))
      (ap (λ (t : Bytes). nybble_at t (i * 2 + 1)) (sym second)
        ∙ nybble_at-append (pre ++ high ∷ []) (to_hex bs) low (i * 2 + 1) (x % 16)
            (omega (arith, length-append pre (high ∷ []))) (nybble-hex_digit_low x))
      (ap (mac_bytes left (i + 1)) (sym third)
        ∙ mac_bytes-to_hex left (i + 1) (pre ++ high ∷ low ∷ []) bs
            (omega (arith, length-append pre (high ∷ low ∷ []))) (omega arith) b.1)
    ∙ ap {B = Result FramingError Bytes} (λ (t : ℕ). ok (t ∷ bs)) (join_nybbles x)

pub length-mac_to_hex : (mac : ℕ) → length (mac_to_hex mac) ≡ 16
length-mac_to_hex mac =
    unfold mac_to_hex mac_to_le_bytes in
    omega (arith, length-to_hex (to_le_bytes 8 mac), length-to_le_bytes 8 mac)

parse_mac_hex_lem :
    (hex out : Bytes)
    → length hex ≡ 16
    → mac_bytes 8 0 hex ≡ ok out
    → parse_mac_hex hex ≡ ok (from_le_bytes out)
unfolding parse_mac_hex
parse_mac_hex_lem hex out h e = rw (h, e)

-- For every 64-bit MAC, the sixteen digits written by `mac_to_hex` are read back as that MAC.
pub parse_mac_hex-mac_to_hex : (mac : ℕ) → mac < 2 ^ 64 → parse_mac_hex (mac_to_hex mac) ≡ ok mac
parse_mac_hex-mac_to_hex mac h =
    parse_mac_hex_lem (mac_to_hex mac) (to_le_bytes 8 mac) (length-mac_to_hex mac) (
      unfold mac_to_hex mac_to_le_bytes in
      mac_bytes-to_hex 8 0 [] (to_le_bytes 8 mac) (omega arith) (length-to_le_bytes 8 mac)
        (to_le_bytes-IsByte 8 mac))
    ∙ ap {B = Result FramingError ℕ} ok (from_le_bytes-to_le_bytes 8 mac h)
