-- ===== src/Base/Results.antt =====
-- What a fallible call gives: a value, an error that the caller sees, or a panic, which ends the
-- thread (a failed `unwrap`, `unreachable!`, an arithmetic overflow of a debug build).
use mathlib.Core.Path.{◌≡◌, refl}
use mathlib.Core.Logic.{◌⊎◌, inl, inr}
use mathlib.Core.Option.{Option, none, some}

pub data Result {ℓ} (E : Type 0) (A : Type ℓ) : Type ℓ where
  ok : A → Result E A
  err : E → Result E A
  panic : Result E A

-- `abbrev`, so that `ok a >>= f` computes wherever it stands.
infixl 5 ◌>>=◌
abbrev pub ◌>>=◌ {ℓ κ} :
    {E : Type 0} {A : Type ℓ} {B : Type κ} → Result E A → (A → Result E B) → Result E B
ok a >>= f = f a
err e >>= f = err e
panic >>= f = panic

-- `Option::ok_or` followed by `?`.
abbrev pub ok_or {ℓ} : {E : Type 0} {A : Type ℓ} → Option A → E → Result E A
ok_or none e = err e
ok_or (some a) e = ok a

-- `Option::unwrap`.
abbrev pub unwrap {ℓ} : {E : Type 0} {A : Type ℓ} → Option A → Result E A
unwrap none = panic
unwrap (some a) = ok a

-- A chain that succeeds has gone through both of its calls.
pub >>=-eq-ok {ℓ κ} :
    {E : Type 0} {A : Type ℓ} {B : Type κ} (call : Result E A) (next : A → Result E B) {res : B}
    → (call >>= next) ≡ ok res
    → (mid : A) × (call ≡ ok mid) × (next mid ≡ ok res)
>>=-eq-ok (ok mid) next e = (mid, refl, e)
>>=-eq-ok (err x) next e = cc
>>=-eq-ok panic next e = cc

pub Result-cases {ℓ} :
    {E : Type 0} {A : Type ℓ} (r : Result E A)
    → ((x : A) × (r ≡ ok x)) ⊎ (((e : E) × (r ≡ err e)) ⊎ (r ≡ panic))
Result-cases (ok x) = inl (x, refl)
Result-cases (err e) = inr (inl (e, refl))
Result-cases panic = inr (inr refl)

pub some_eq {ℓ} : {A : Type ℓ} {x y : A} → some x ≡ some y → x ≡ y
some_eq h = cc
