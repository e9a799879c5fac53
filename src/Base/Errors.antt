-- ===== src/Base/Errors.antt =====
-- A value of type `A`, or an error of type `E`: Go's pair of a result and an error, one of which is nil.
use mathlib.Core.Path.{◌≡◌, refl}

pub data Fallible {κ} (E : Type 0) (A : Type κ) : Type κ where
  err : E → Fallible E A
  ok : A → Fallible E A

-- `if err != nil { return err }`
infixl 5 ◌>>=◌
abbrev pub ◌>>=◌ {κ μ} :
    {E : Type 0} {A : Type κ} {B : Type μ} → Fallible E A → (A → Fallible E B) → Fallible E B
err e >>= rest = err e
ok a >>= rest = rest a

infixl 5 ◌>>◌
abbrev pub ◌>>◌ {κ} :
    {E : Type 0} {B : Type κ} → Fallible E (Unit {0}) → Fallible E B → Fallible E B
check >> rest = check >>= λ nothing. rest

-- What follows a step was reached only by its success.
pub >>=-eq-ok {κ μ} :
    {E : Type 0} {A : Type κ} {B : Type μ} (x : Fallible E A) (rest : A → Fallible E B) {b : B}
    → (x >>= rest) ≡ ok b
    → (a : A) × (x ≡ ok a) × (rest a ≡ ok b)
>>=-eq-ok (err e) rest h = cc
>>=-eq-ok (ok a) rest h = (a, refl, h)
