-- ===== src/Program/Tests/Start.antt =====
-- A pairing of pcside/daemon/src/pairing.rs and the start after it at concrete inputs.
use linux_fingerprint_r.Counter
use linux_fingerprint_r.Keystore
use linux_fingerprint_r.Keystore.Removing
use linux_fingerprint_r.Pairing
use linux_fingerprint_r.Pairing.Pair
use linux_fingerprint_r.Tpm
use linux_fingerprint_r.Tpm.Sealing
