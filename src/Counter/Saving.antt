-- ===== src/Counter/Saving.antt =====
-- The counter on the disk: pcside/daemon/src/state.rs.
use linux_fingerprint_r.Prelude.{
  ℕ, ◌≡◌, ◌⊎◌, refl, ap, ◌∙◌, inl, inr, Option, some, none, [], ◌∷◌, ◌++◌, Bytes, Result, Done, ok,
  err, arith,
}
use linux_fingerprint_r.Disk.{Disk, File, Outcome, done, failed, Trial, replace_file, private_mode}
use linux_fingerprint_r.Disk.Atomic.{
  IsPrivate, created_mode-IsPrivate, replace_file-IsPrivate, Replaced, replace_file-atomic,
}
use linux_fingerprint_r.Counter.{
  Codec, StateError, load, read_state, decoded, save, save_encoded, replaced, io, serializing,
}

-- serde_json reads what it has written, also with a line feed behind it.
abbrev pub IsFaithful : Codec → Type 0
IsFaithful c = (n : ℕ) (json : Bytes) → c.encode n ≡ ok json → c.decode (json ++ b'\n' ∷ []) ≡ ok n

abbrev pub Holds : Codec → Disk → ℕ → Type 0
Holds c d n = load c done done d.target ≡ ok (some n)

load-reads :
    (c : Codec) (stat read : Outcome) (file : Option File) (n : ℕ) (found : Option ℕ)
    → load c stat read file ≡ ok found
    → load c done done file ≡ ok (some n)
    → load c stat read file ≡ ok (some n)
unfolding load read_state decoded
load-reads c stat read none n found h k = k
load-reads c done done (some f) n found h k = k
load-reads c (failed e) read (some f) n found h k = ground arith
load-reads c done (failed e) (some f) n found h k = ground arith

-- Whatever `metadata` and `read` do, a load without an error finds the counter that the file holds.
pub load-Holds :
    (c : Codec) (stat read : Outcome) (d : Disk) (n : ℕ) (found : Option ℕ)
    → load c stat read d.target ≡ ok found
    → Holds c d n
    → load c stat read d.target ≡ ok (some n)
load-Holds c stat read d n found = load-reads c stat read d.target n found

loaded :
    (c : Codec) (content : Bytes) (m n : ℕ)
    → m ≡ private_mode
    → c.decode content ≡ ok n
    → load c done done (some (record { content = content; mode = m })) ≡ ok (some n)
unfolding load read_state decoded
loaded c content m n h d = rw (h, d)

-- The two ends a save can have.
abbrev pub Saved : Codec → ℕ → Disk → Done StateError × Disk → Type 0
Saved c n d r =
    ((r.0 ≡ ok tt) × Holds c r.1 n) ⊎ ((e : StateError) × (r.0 ≡ err e) × ((r.1).target ≡ d.target))

replaced-Saved :
    (c : Codec) (n : ℕ) (bytes : Bytes) (d : Disk) (r : Done ℕ × Disk)
    → c.decode bytes ≡ ok n
    → IsPrivate d.tmp
    → Replaced bytes d r
    → Saved c n d (replaced r)
unfolding replaced
replaced-Saved c n bytes d (ok u, after) h p (inl (a, b, z)) =
    inl (refl, ap (load c done done) b ∙ loaded c bytes _ n (created_mode-IsPrivate d.tmp p) h)
replaced-Saved c n bytes d (err e, after) h p (inl (a, b, z)) = cc
replaced-Saved c n bytes d (ok u, after) h p (inr (e, a, b)) = cc
replaced-Saved c n bytes d (err e, after) h p (inr (f, a, b)) = inr (io e, refl, b)

save_encoded-Saved :
    (c : Codec) (t : Trial) (n : ℕ) (d : Disk) (r : Result ℕ Bytes)
    → IsFaithful c
    → IsPrivate d.tmp
    → c.encode n ≡ r
    → Saved c n d (save_encoded t d r)
unfolding save_encoded
save_encoded-Saved c t n d (err e) f p h = inr (serializing e, refl, refl)
save_encoded-Saved c t n d (ok json) f p h =
    replaced-Saved c n (json ++ b'\n' ∷ []) d (replace_file t (json ++ b'\n' ∷ []) d) (f n json h) p
      (replace_file-atomic t (json ++ b'\n' ∷ []) d)

-- If serde_json reads back what it has written and no temporary file of another mode is there, then,
-- whichever call of the save fails, either it returns no error and the next start loads the new
-- counter, or it returns an error and the next start loads what it would have loaded before.
pub save-Saved :
    (c : Codec) (dir : Outcome) (t : Trial) (n : ℕ) (d : Disk)
    → IsFaithful c
    → IsPrivate d.tmp
    → Saved c n d (save c dir t n d)
unfolding save
save-Saved c (failed e) t n d f p = inr (io e, refl, refl)
save-Saved c done t n d f p = save_encoded-Saved c t n d (c.encode n) f p refl

replaced-IsPrivate : (r : Done ℕ × Disk) → IsPrivate (r.1).tmp → IsPrivate ((replaced r).1).tmp
unfolding replaced
replaced-IsPrivate (ok u, d) h = h
replaced-IsPrivate (err e, d) h = h

save_encoded-IsPrivate :
    (t : Trial) (d : Disk) (r : Result ℕ Bytes)
    → IsPrivate d.tmp
    → IsPrivate ((save_encoded t d r).1).tmp
unfolding save_encoded
save_encoded-IsPrivate t d (err e) h = h
save_encoded-IsPrivate t d (ok json) h = replaced-IsPrivate _ (replace_file-IsPrivate t _ d h)

pub save-IsPrivate :
    (c : Codec) (dir : Outcome) (t : Trial) (n : ℕ) (d : Disk)
    → IsPrivate d.tmp
    → IsPrivate ((save c dir t n d).1).tmp
unfolding save
save-IsPrivate c (failed e) t n d h = h
save-IsPrivate c done t n d h = save_encoded-IsPrivate t d (c.encode n) h
