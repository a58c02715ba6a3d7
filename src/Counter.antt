-- ===== src/Counter.antt =====
-- pcside/daemon/src/state.rs: the file that keeps the counter of the next framed command. serde_json is a
-- parameter, the system calls are a `Trial`; the two writes of a save are one write of both texts.
pub mod Tests
pub mod Saving
use linux_fingerprint_r.Prelude.{
  ℕ, ◌==◌, if◌then◌else◌, not, Option, none, some, [], ◌∷◌, ◌++◌, Bytes, Result, Done, ok, err,
}
use linux_fingerprint_r.Disk.{Disk, File, Outcome, done, failed, Trial, replace_file, private_mode}

pub data StateError : Type 0 where
  io insecure_mode parsing serializing : ℕ → StateError

-- serde_json on a `State`, which is its one number.
pub record Codec : Type 0 where
  pub encode : ℕ → Result ℕ Bytes
  pub decode : Bytes → Result ℕ ℕ

-- `State::fresh`
abbrev pub fresh : ℕ
fresh = 1

decoded : Result ℕ ℕ → Result StateError (Option ℕ)
decoded (ok n) = ok (some n)
decoded (err e) = err (parsing e)

-- What `metadata` and `read` do, for a file that exists.
read_state : Codec → Outcome → Outcome → File → Result StateError (Option ℕ)
read_state c (failed e) r f = err (io e)
read_state c done (failed e) f =
    if not (f.mode == private_mode) then err (insecure_mode f.mode) else err (io e)
read_state c done done f =
    if not (f.mode == private_mode)
    then err (insecure_mode f.mode)
    else decoded (c.decode f.content)

unfoldable pub load : Codec → Outcome → Outcome → Option File → Result StateError (Option ℕ)
unfolding read_state decoded
load c stat read none = ok none
load c stat read (some f) = read_state c stat read f

replaced : Done ℕ × Disk → Done StateError × Disk
replaced (ok u, d) = (ok u, d)
replaced (err e, d) = (err (io e), d)

save_encoded : Trial → Disk → Result ℕ Bytes → Done StateError × Disk
save_encoded t d (err e) = (err (serializing e), d)
save_encoded t d (ok json) = replaced (replace_file t (json ++ b'\n' ∷ []) d)

-- `save`, with what `create_dir_all` does first; the result of `set_permissions` is not looked at.
unfoldable pub save : Codec → Outcome → Trial → ℕ → Disk → Done StateError × Disk
unfolding save_encoded replaced
save c (failed e) t n d = (err (io e), d)
save c done t n d = save_encoded t d (c.encode n)

-- `delete`: the file is removed, is not there, or stays.
unfoldable pub delete : Outcome → Disk → Done StateError × Disk
delete (failed e) d = elim (d.target) [ none ↦ (ok tt, d) | some f ↦ (err (io e), d) ]
delete done d = (ok tt, record d { target = none })
