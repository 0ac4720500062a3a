-- ===== src/Prelude/Results.antt =====
-- The exceptions that the modelled code raises, and a computation that may raise one.
use mathlib.Core.Bool.{Bool, true, false}
use mathlib.Core.Logic.{◌⊎◌, inl, inr}
use mathlib.Core.Path.{◌≡◌, refl}

-- `conflict` is `AdmissionConflictError`, `unavailable` is `AdmissionUnavailableError` or
-- `BudgetStateUnavailableError`; all three are subclasses of `ValueError` in the source.
pub data Error : Type 0 where
  value_error type_error key_error conflict unavailable assertion_error : Error

pub data Result {ℓ} (T : Type ℓ) : Type ℓ where
  err : Error → Result T
  ok : T → Result T

infixl 5 ◌>>=◌ ◌>>◌
-- What follows a call that may raise.
abbrev pub ◌>>=◌ {ℓ κ} : {T : Type ℓ} {U : Type κ} → Result T → (T → Result U) → Result U
err raised >>= next = err raised
ok value >>= next = next value

-- What follows a check.
abbrev pub ◌>>◌ {ℓ} : {U : Type ℓ} → Result (Unit {0}) → Result U → Result U
err raised >> next = err raised
ok _ >> next = next

-- `if c: raise e`
abbrev pub raise_if : Bool → Error → Result (Unit {0})
raise_if true e = err e
raise_if false e = ok tt

-- A chain that returned has both its calls return.
pub >>=-eq-ok {ℓ κ} :
    {T : Type ℓ} {U : Type κ} (call : Result T) (next : T → Result U) {u : U}
    → (call >>= next) ≡ ok u
    → (t : T) × (call ≡ ok t) × (next t ≡ ok u)
>>=-eq-ok (err raised) next h = cc
>>=-eq-ok (ok t) next h = (t, refl, h)

-- Two checks in a row pass exactly when both pass.
pub >>-eq-ok : (m k : Result (Unit {0})) → (m >> k) ≡ ok tt → (m ≡ ok tt) × (k ≡ ok tt)
>>-eq-ok (ok tt) k h = (refl, h)
>>-eq-ok (err e) k h = cc

pub ok->> : (m k : Result (Unit {0})) → m ≡ ok tt → k ≡ ok tt → (m >> k) ≡ ok tt
ok->> (ok tt) k h g = g
ok->> (err e) k h g = cc

pub raise_if-eq-ok : (b : Bool) (e : Error) → raise_if b e ≡ ok tt → b ≡ false
raise_if-eq-ok true e h = cc
raise_if-eq-ok false e h = refl

-- A check before a result.
pub >>-then-ok {ℓ} :
    {A : Type ℓ} (m : Result (Unit {0})) (a : A) {b : A}
    → (m >> ok a) ≡ ok b
    → (m ≡ ok tt) × (a ≡ b)
>>-then-ok (ok tt) a h = (refl, cc)
>>-then-ok (err e) a h = cc

pub ok-injective {ℓ} : {A : Type ℓ} {a b : A} → ok a ≡ ok b → a ≡ b
ok-injective h = cc

-- A check before a computation.
pub >>-then {ℓ} :
    {A : Type ℓ} (m : Result (Unit {0})) {k : Result A} {b : A}
    → (m >> k) ≡ ok b
    → (m ≡ ok tt) × (k ≡ ok b)
>>-then (ok tt) h = (refl, h)
>>-then (err e) h = cc

abbrev pub is_ok {ℓ} : {T : Type ℓ} → Result T → Bool
is_ok (err raised) = false
is_ok (ok value) = true

pub is_ok->>= {ℓ κ} :
    {T : Type ℓ} {U : Type κ} (call : Result T) (next : T → Result U)
    → is_ok call ≡ true
    → ((t : T) → is_ok (next t) ≡ true)
    → is_ok (call >>= next) ≡ true
is_ok->>= (err raised) next h k = cc
is_ok->>= (ok t) next h k = k t

pub Result-cases {ℓ} :
    {A : Type ℓ} (x : Result A) → ((a : A) × (x ≡ ok a)) ⊎ ((e : Error) × (x ≡ err e))
Result-cases (ok a) = inl (a, refl)
Result-cases (err e) = inr (e, refl)
