-- ===== src/Base/Results.antt =====
-- `Result<T, E>`: success or a typed error, with the `?` operator as bind.
use mathlib.Core.Path.{◌≡◌, refl}
use mathlib.Core.Logic.{◌↔◌, ◌⊎◌, inl, inr}
use mathlib.Core.Bool.{Bool, true, false}
use mathlib.Core.Option.{Option, none, some}

pub data Result {ℓ κ} (E : Type ℓ) (A : Type κ) : Type (ℓ ⊔ κ) where
  ok : A → Result E A
  err : E → Result E A

-- `if failed { return Err(error) }`.
abbrev pub fail_if {ℓ} : {E : Type ℓ} → Bool → E → Result E (Unit {0})
fail_if true e = err e
fail_if false e = ok tt

-- `Option::ok_or`.
abbrev pub ok_or {ℓ κ} : {E : Type ℓ} {A : Type κ} → Option A → E → Result E A
ok_or none e = err e
ok_or (some a) e = ok a

-- `Result::map_err`.
abbrev pub map_err {ℓ κ μ} :
    {E : Type ℓ} {F : Type κ} {A : Type μ} → Result E A → (E → F) → Result F A
map_err (ok a) f = ok a
map_err (err e) f = err (f e)

infixl 5 ◌>>=◌
-- The `?` operator: an error ends the function.
abbrev pub ◌>>=◌ {ι κ μ} :
    {E : Type ι} {A : Type κ} {B : Type μ} → Result E A → (A → Result E B) → Result E B
err problem >>= next = err problem
ok value >>= next = next value

infixl 5 ◌>>◌
-- A check whose success says nothing.
abbrev pub ◌>>◌ {ι κ} : {E : Type ι} {B : Type κ} → Result E (Unit {0}) → Result E B → Result E B
check >> rest = check >>= λ passed. rest

pub Result-cases {ℓ κ} :
    {E : Type ℓ} {A : Type κ} (r : Result E A) → ((a : A) × (r ≡ ok a)) ⊎ ((e : E) × (r ≡ err e))
Result-cases (ok a) = inl (a, refl)
Result-cases (err e) = inr (e, refl)

-- Inversion of a bind that succeeds.
pub >>=-eq-ok {ι κ μ} :
    {E : Type ι} {A : Type κ} {B : Type μ} (first : Result E A) (next : A → Result E B) {last : B}
    → (first >>= next) ≡ ok last
    → (value : A) × (first ≡ ok value) × (next value ≡ ok last)
>>=-eq-ok (err problem) next e = cc
>>=-eq-ok (ok value) next e = (value, refl, e)

-- What follows a guard has been reached.
pub fail_if-eq-ok {ι κ} :
    {E : Type ι} {B : Type κ} (failed : Bool) (problem : E) (rest : Result E B) {last : B}
    → (fail_if failed problem >> rest) ≡ ok last
    → (failed ≡ false) × (rest ≡ ok last)
fail_if-eq-ok true problem rest e = cc
fail_if-eq-ok false problem rest e = (refl, e)

pub ok_inj {ι κ} : {E : Type ι} {B : Type κ} {a b : B} → ◌≡◌ {A = Result E B} (ok a) (ok b) → a ≡ b
ok_inj e = cc

-- What both cases of a match have, the match has.
pub on_cases {ι κ μ ν} :
    {E : Type ι} {A : Type κ} {B : Type μ} (P : B → Type ν) (r : Result E A) {f : A → B} {g : E → B}
    → ((a : A) → r ≡ ok a → P (f a))
    → ((e : E) → r ≡ err e → P (g e))
    → P (elim r [ ok a ↦ f a | err e ↦ g e ])
on_cases P (ok a) h k = h a refl
on_cases P (err e) h k = k e refl

pub check_iff {ι κ} :
    {E : Type ι} {B : Type κ} (check : Result E (Unit {0})) (rest : Result E B) {last : B}
    → ((check >> rest) ≡ ok last) ↔ ((check ≡ ok tt) × (rest ≡ ok last))
check_iff (ok u) rest = (λ h. (refl, h), λ h. h.1)
check_iff (err e) rest = (λ h. cc, λ h. cc)

pub guard_iff {ι} :
    {E : Type ι} (failed : Bool) (problem : E) → (fail_if failed problem ≡ ok tt) ↔ (failed ≡ false)
guard_iff true problem = (λ h. cc, λ h. cc)
guard_iff false problem = (λ h. refl, λ h. refl)
