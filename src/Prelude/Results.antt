-- ===== src/Prelude/Results.antt =====
-- A Go function that returns `(A, error)`: its error, or its result.
use mathlib.Core.Path.{◌≡◌, refl, ap, subst}
use mathlib.Core.Logic.{◌⊎◌, inl, inr}
use mathlib.Core.Bool.{Bool, true, false}

pub data Result {ℓ κ} (Failure : Type ℓ) (A : Type κ) : Type (ℓ ⊔ κ) where
  err : Failure → Result Failure A
  ok : A → Result Failure A

-- `a, e := m; if e != nil { return e }`, and the rest of the function.
unfoldable pub ◌>>=◌ {ℓ κ ι} :
    {Failure : Type ℓ} {A : Type κ} {B : Type ι}
    → Result Failure A
    → (A → Result Failure B)
    → Result Failure B
err e >>= rest = err e
ok a >>= rest = rest a

-- `if e := m; e != nil { return e }`, and the rest of the function.
abbrev pub ◌>>◌ {ℓ ι} :
    {Failure : Type ℓ} {B : Type ι}
    → Result Failure (Unit {0})
    → Result Failure B
    → Result Failure B
m >> rest = m >>= (λ done. rest)

infixr 5 ◌>>=◌ ◌>>◌
-- `if test { return e }`, where the result is to go on.
abbrev pub refuse_if {ℓ} : {E : Type ℓ} → Bool → E → Result E (Unit {0})
refuse_if true e = err e
refuse_if false e = ok tt

pub Result-cases {ℓ κ} :
    {E : Type ℓ} {A : Type κ} (r : Result E A) → ((a : A) × (r ≡ ok a)) ⊎ ((e : E) × (r ≡ err e))
Result-cases (ok a) = inl (a, refl)
Result-cases (err e) = inr (e, refl)

-- A function that returned no error went through its first call and then through the rest.
pub >>=-eq-ok {ℓ κ ι} :
    {Failure : Type ℓ} {A : Type κ} {B : Type ι} (first : Result Failure A)
    (rest : A → Result Failure B) {result : B}
    → (first >>= rest) ≡ ok result
    → (found : A) × (first ≡ ok found) × (rest found ≡ ok result)
unfolding ◌>>=◌
>>=-eq-ok (err e) rest returned = cc
>>=-eq-ok (ok found) rest returned = (found, refl, returned)

abbrev pub ok_or {ℓ κ} : {E : Type ℓ} {A : Type κ} → A → Result E A → A
ok_or default (err e) = default
ok_or default (ok a) = a

pub ok-injective {ℓ κ} :
    {E : Type ℓ} {A : Type κ} {a b : A} → ◌≡◌ {A = Result E A} (ok a) (ok b) → a ≡ b
ok-injective {a = a} e = ap (ok_or a) e

-- What holds of every value that a function returns without an error.
pub record Ensures {ℓ κ ι} {E : Type ℓ} {A : Type κ} (P : A → Type ι) (r : Result E A)
    : Type (ℓ ⊔ κ ⊔ ι) where
  pub value : (a : A) → r ≡ ok a → P a

module _ {ℓ κ ι} {E : Type ℓ} {B : Type κ} {P : B → Type ι} where
  pub Ensures-ok : (b : B) → P b → Ensures {E = E} P (ok b)
  Ensures-ok b h = record { value = λ a e. subst P (ok-injective e) h }

  pub Ensures->>= {υ} :
      {A : Type υ} (m : Result E A) (rest : A → Result E B)
      → ((a : A) → m ≡ ok a → Ensures P (rest a))
      → Ensures P (m >>= rest)
  unfolding ◌>>=◌
  Ensures->>= (err e) rest h = record { value = λ a x. cc }
  Ensures->>= (ok a) rest h = h a refl

  pub Ensures-refuse_if :
      (test : Bool) (e : E) (rest : Result E B)
      → (test ≡ false → Ensures P rest)
      → Ensures P (refuse_if test e >> rest)
  unfolding ◌>>=◌
  Ensures-refuse_if true e rest h = record { value = λ a x. cc }
  Ensures-refuse_if false e rest h = h refl
