-- ===== src/Prelude/Results.antt =====
-- `Result<A, E>` of Rust, with `?` as bind.
use mathlib.Core.Path.{◌≡◌, refl}
use mathlib.Core.Option.{Option, none, some}

pub data Result {ℓ κ} (E : Type ℓ) (A : Type κ) : Type (ℓ ⊔ κ) where
  ok : A → Result E A
  err : E → Result E A

-- `Result<(), E>`
abbrev pub Done {ℓ} : Type ℓ → Type ℓ
Done E = Result E (Unit {0})

infixl 5 ◌>>=◌
abbrev pub ◌>>=◌ {ℓ κ μ} :
    {E : Type ℓ} {A : Type κ} {B : Type μ} → Result E A → (A → Result E B) → Result E B
ok a >>= f = f a
err e >>= f = err e

-- `Option::ok_or`
abbrev pub ok_or {ℓ κ} : {E : Type ℓ} {A : Type κ} → Option A → E → Result E A
ok_or none e = err e
ok_or (some a) e = ok a

-- `Result::ok`
abbrev pub to_option {ℓ κ} : {E : Type ℓ} {A : Type κ} → Result E A → Option A
to_option (ok a) = some a
to_option (err e) = none

-- What success says of the parts of a bind and of an `ok_or`.
pub >>=-eq-ok {ℓ κ μ} :
    {E : Type ℓ} {A : Type κ} {B : Type μ} (r : Result E A) (next : A → Result E B) {v : B}
    → r >>= next ≡ ok v
    → (x : A) × (r ≡ ok x) × (next x ≡ ok v)
>>=-eq-ok (err d) next e = cc
>>=-eq-ok (ok x) next e = (x, refl, e)

pub ok_or-eq-ok {ℓ κ} :
    {E : Type ℓ} {A : Type κ} (o : Option A) (e : E) {a : A} → ok_or o e ≡ ok a → o ≡ some a
ok_or-eq-ok none e h = cc
ok_or-eq-ok (some a) e h = cc

pub ok_injective {ℓ κ} :
    {E : Type ℓ} {A : Type κ} {a b : A} → ◌≡◌ {A = Result E A} (ok a) (ok b) → a ≡ b
ok_injective h = cc h

err_injective {ℓ κ} :
    {E : Type ℓ} {A : Type κ} {d e : E} → ◌≡◌ {A = Result E A} (err d) (err e) → d ≡ e
err_injective h = cc h

pub ok_or-eq-err {ℓ κ} :
    {E : Type ℓ} {A : Type κ} (o : Option A) (e : E) {d : E}
    → ok_or o e ≡ err d
    → (o ≡ none) × (e ≡ d)
ok_or-eq-err none e h = (refl, err_injective h)
ok_or-eq-err (some a) e h = cc
