-- ===== src/Base/Results.antt =====
-- What a Python call does: it returns, or it raises. The messages of the exceptions are left out.
use mathlib.Core.Path.{◌≡◌, refl}
use mathlib.Core.Bool.{Bool, true, false}
use fuzz_helm.Base.Tests.{if◌then◌else◌}
use mathlib.Core.Logic.{◌⊎◌, inl, inr}

-- The exceptions that the modelled code raises, its own (core/errors.py) and the built-in ones.
pub data Error : Type 0 where
  value_error type_error index_error key_error lookahead_error permission_denied : Error
  division_by_zero invalid_operation : Error

-- Every exception ends the call that raised it.
pub data Result {ℓ} (T : Type ℓ) : Type ℓ where
  err : (raised : Error) → Result T
  ok : (value : T) → Result T

pub ok-injective {ℓ} : {T : Type ℓ} {x y : T} → ok x ≡ ok y → x ≡ y
ok-injective same = cc

-- One call after another; the second one needs the value of the first, or only that it returned.
abbrev pub ◌>>=◌ {ℓ ℓ'} : {S : Type ℓ} {T : Type ℓ'} → Result S → (S → Result T) → Result T
err raised >>= next = err raised
ok value >>= next = next value

-- `if test: raise exception`
abbrev pub raise_if : (test : Bool) (exception : Error) → Result (Unit {0})
raise_if false exception = ok tt
raise_if true exception = err exception

abbrev pub ◌>>◌ {ℓ} : {T : Type ℓ} → Result (Unit {0}) → Result T → Result T
first >> next = first >>= λ unit. next

infixl 5 ◌>>◌ ◌>>=◌
-- Where two calls in a row returned, so did the first one.
pub >>=-eq-ok {ℓ ℓ'} :
    {S : Type ℓ} {T : Type ℓ'} (first : Result S) (next : S → Result T) {out : T}
    → (first >>= next) ≡ ok out
    → (value : S) × (first ≡ ok value) × (next value ≡ ok out)
>>=-eq-ok (err raised) next same = cc
>>=-eq-ok (ok value) next same = (value, refl, same)

-- Where a call returned after a test, the test failed.
pub raise_if-eq-ok {ℓ} :
    {T : Type ℓ} (test : Bool) (exception : Error) (next : Result T) {out : T}
    → (raise_if test exception >> next) ≡ ok out
    → (test ≡ false) × (next ≡ ok out)
raise_if-eq-ok false exception next same = (refl, same)
raise_if-eq-ok true exception next same = cc

-- A call that raises nothing returns.
pub ok_of_ne_err {ℓ} :
    {A : Type ℓ} (m : Result A) → ((e : Error) → ¬ (m ≡ err e)) → (a : A) × (m ≡ ok a)
ok_of_ne_err (ok a) h = (a, refl)
ok_of_ne_err (err e) h = absurd (h e refl)

pub Result-cases :
    {A : Type 0} (m : Result A) → ((a : A) × (m ≡ ok a)) ⊎ ((e : Error) × (m ≡ err e))
Result-cases (ok a) = inl (a, refl)
Result-cases (err e) = inr (e, refl)

pub err_ne_ok : {A : Type 0} {a : A} {e : Error} → err e ≡ ok a → ⊥
err_ne_ok h = cc

-- The value of a call that is known to return.
abbrev pub IsOk : {A : Type 0} → Result A → Type 0
IsOk (ok a) = Unit
IsOk (err e) = ⊥

abbrev pub got : {A : Type 0} (m : Result A) → IsOk m → A
got (ok a) t = a
got (err e) t = absurd t

pub got-eq : {A : Type 0} (m : Result A) (t : IsOk m) → m ≡ ok (got m t)
got-eq (ok a) t = refl
got-eq (err e) t = absurd t

-- Where a call that depends on a test returned, so did one of its branches.
pub if-eq-ok :
    {A : Type 0} (test : Bool) (yes_call no_call : Result A) {out : A}
    → (if test then yes_call else no_call) ≡ ok out
    → ((test ≡ true) × (yes_call ≡ ok out)) ⊎ ((test ≡ false) × (no_call ≡ ok out))
if-eq-ok true yes_call no_call same = inl (refl, same)
if-eq-ok false yes_call no_call same = inr (refl, same)
