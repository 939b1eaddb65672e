-- ===== src/Base/Results.antt =====
-- What a call of the program comes to: a value, or the way in which it stops.
use mathlib.Core.Path.{◌≡◌, refl}
use mathlib.Core.Bool.{Bool, true, false}
use mathlib.Core.Option.{Option, none, some}

-- A failed `assert`, a NULL that is dereferenced, a deleted object that is used,
-- an index past the end, `exit`.
pub data Fault : Type 0 where
  assertion null_pointer dangling out_of_bounds exited : Fault

pub data Result {ℓ} (A : Type ℓ) : Type ℓ where
  ok : A → Result A
  fault : Fault → Result A

infixl 5 ◌>>=◌ ◌>>◌
-- What is missing stops the program.
abbrev pub or_fault {ℓ} : {A : Type ℓ} → Fault → Option A → Result A
or_fault e (some a) = ok a
or_fault e none = fault e

-- The first call that stops is the last.
abbrev pub ◌>>=◌ {ℓ κ} : {A : Type ℓ} {B : Type κ} → Result A → (A → Result B) → Result B
fault stop >>= next = fault stop
ok value >>= next = next value

-- A test that has to hold.
abbrev pub guard : Bool → Fault → Result (Unit {0})
guard false stop = fault stop
guard true stop = ok tt

abbrev pub ◌>>◌ {ℓ} : {B : Type ℓ} → Result (Unit {0}) → Result B → Result B
first >> second = first >>= λ _. second

-- Inversion of a step that went well.
pub >>=-eq-ok {ℓ κ} :
    {A : Type ℓ} {B : Type κ} (first : Result A) (next : A → Result B) {b : B}
    → (first >>= next) ≡ ok b
    → (a : A) × (first ≡ ok a) × (next a ≡ ok b)
>>=-eq-ok (fault stop) next h = cc
>>=-eq-ok (ok value) next h = (value, refl, h)

pub ok-inj {ℓ} : {A : Type ℓ} {x y : A} → ok x ≡ ok y → x ≡ y
ok-inj e = cc

-- Where a call goes well, P holds of what it gives.
abbrev pub Leaves {ℓ κ} : {A : Type ℓ} → (A → Type κ) → Result A → Type κ
Leaves P (ok value) = P value
Leaves P (fault stop) = Unit

pub Leaves-bind {ℓ κ ν μ} :
    {A : Type ℓ} {B : Type κ} (P : A → Type ν) (Q : B → Type μ) (first : Result A)
    (next : A → Result B)
    → Leaves P first
    → ((value : A) → P value → Leaves Q (next value))
    → Leaves Q (first >>= next)
Leaves-bind P Q (ok value) next held keeps = keeps value held
Leaves-bind P Q (fault stop) next held keeps = tt

-- Nothing need be known of the first call.
pub Leaves-then {ℓ κ μ} :
    {A : Type ℓ} {B : Type κ} (Q : B → Type μ) (first : Result A) (next : A → Result B)
    → ((value : A) → Leaves Q (next value))
    → Leaves Q (first >>= next)
Leaves-then Q (ok value) next keeps = keeps value
Leaves-then Q (fault stop) next keeps = tt

pub Leaves-both {ℓ κ μ} :
    {A : Type ℓ} (P : A → Type κ) (Q : A → Type μ) (call : Result A)
    → Leaves P call
    → Leaves Q call
    → Leaves (λ value. P value × Q value) call
Leaves-both P Q (ok value) held also = (held, also)
Leaves-both P Q (fault stop) held also = tt

-- What holds of a call that went well.
pub Leaves-ok {ℓ κ} :
    {A : Type ℓ} (P : A → Type κ) (call : Result A) {value : A}
    → Leaves P call
    → call ≡ ok value
    → P value
Leaves-ok P call held well = rw well at held

-- The result of each call that goes well serves for all.
pub Leaves-of_ok {ℓ κ} :
    {A : Type ℓ} (P : A → Type κ) (call : Result A)
    → ((value : A) → call ≡ ok value → P value)
    → Leaves P call
Leaves-of_ok P (ok value) all = all value refl
Leaves-of_ok P (fault stop) all = tt
