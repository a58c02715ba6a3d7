-- ===== src/Hex.antt =====
-- Hexadecimal digits: `{:02x}` of the standard library, `mac_to_le_bytes` and `mac_to_hex` of
-- pcside/daemon/src/crypto.rs, and `nybble`, which framing.rs and keystore.rs beside it both have.
pub mod Laws
use linux_fingerprint_r.Prelude.{
  ℕ, zero, suc, ◌+◌, ◌-◌, ◌/◌, ◌%◌, ◌&&◌, Option, none, some, [], ◌∷◌, Bytes, ltb, leb,
  if◌then◌else◌,
}

pub hex_digit : ℕ → ℕ
hex_digit d = if ltb d 10 then b'0' + d else b'a' + (d - 10)

-- `format!("{:02x}", b)` for each byte, one behind the other
unfoldable pub to_hex : Bytes → Bytes
unfolding hex_digit
to_hex [] = []
to_hex (b ∷ bs) = hex_digit (b / 16) ∷ hex_digit (b % 16) ∷ to_hex bs

-- `to_le_bytes` of a word of so many bytes
unfoldable pub to_le_bytes : ℕ → ℕ → Bytes
to_le_bytes zero n = []
to_le_bytes (suc k) n = n % 256 ∷ to_le_bytes k (n / 256)

unfoldable pub mac_to_le_bytes : ℕ → Bytes
unfolding to_le_bytes
mac_to_le_bytes mac = to_le_bytes 8 mac

unfoldable pub mac_to_hex : ℕ → Bytes
unfolding mac_to_le_bytes to_hex
mac_to_hex mac = to_hex (mac_to_le_bytes mac)

unfoldable pub nybble : ℕ → Option ℕ
nybble c =
    if leb b'0' c && leb c b'9'
    then some (c - b'0')
    else if leb b'a' c && leb c b'f'
    then some (10 + c - b'a')
    else if leb b'A' c && leb c b'F'
    then some (10 + c - b'A')
    else none
