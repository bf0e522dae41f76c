-- ===== src/Machine/Run.antt =====
-- The ways a C function with an error exit can end: with a result, at the exit (returnCode -1), by a
-- fault (an access out of bounds), or not within the fuel.
use csnip.Base.{◌≢◌, subst, ◌≤◌, Bool, true, false, Option, none, some, if◌then◌else◌, arith}

pub data Run {ℓ} (A : Type ℓ) : Type ℓ where
  ok : A → Run A
  failed fault spinning : Run A

infixl 5 ◌>>=◌
abbrev pub ◌>>=◌ {ℓ κ} : {A : Type ℓ} {B : Type κ} → Run A → (A → Run B) → Run B
ok a >>= f = f a
failed >>= f = failed
fault >>= f = fault
spinning >>= f = spinning

-- A load or a copy that leaves its array is a fault.
abbrev pub or_fault {ℓ} : {A : Type ℓ} → Option A → Run A
or_fault none = fault
or_fault (some a) = ok a

-- The exit is taken unless the test holds.
infixr 4 ◌orfail◌
abbrev pub ◌orfail◌ {ℓ} : {A : Type ℓ} → Bool → Run A → Run A
b orfail r = if b then r else failed

-- A run that ends, and whose result, if it has one, satisfies a predicate.
abbrev pub Ends {ℓ} : {A : Type ℓ} → (A → Type 0) → Run A → Type 0
Ends P (ok a) = P a
Ends P failed = Unit {0}
Ends P fault = Unit {0}
Ends P spinning = 1 ≤ 0

pub Ends-bind {ℓ κ} :
    {A : Type ℓ} {B : Type κ} (P : A → Type 0) (Q : B → Type 0)
    → (r : Run A) (k : A → Run B) → Ends P r
    → ((a : A) → P a → Ends Q (k a))
    → Ends Q (r >>= k)
Ends-bind P Q (ok a) k h g = g a h
Ends-bind P Q failed k h g = tt
Ends-bind P Q fault k h g = tt
Ends-bind P Q spinning k h g = absurd (omega arith)

pub Ends-if {ℓ} :
    {A : Type ℓ} (P : A → Type 0)
    → (b : Bool) (r s : Run A) → Ends P r
    → Ends P s
    → Ends P (if b then r else s)
Ends-if P true r s h g = h
Ends-if P false r s h g = g

pub Ends-weaken {ℓ} :
    {A : Type ℓ} (P Q : A → Type 0) (r : Run A) → Ends P r → ((a : A) → P a → Q a) → Ends Q r
Ends-weaken P Q (ok a) h k = k a h
Ends-weaken P Q failed h k = tt
Ends-weaken P Q fault h k = tt
Ends-weaken P Q spinning h k = h

-- A run that ends, whatever its result.
abbrev pub Returns {ℓ} : {A : Type ℓ} → Run A → Type 0
Returns r = Ends (λ a. Unit {0}) r

pub Returns-bind {ℓ κ} :
    {A : Type ℓ} {B : Type κ} (r : Run A) (k : A → Run B)
    → Returns r
    → ((a : A) → Returns (k a))
    → Returns (r >>= k)
Returns-bind r k h g = Ends-bind (λ a. Unit {0}) (λ b. Unit {0}) r k h (λ a u. g a)

pub Returns-if {ℓ} :
    {A : Type ℓ} (b : Bool) (r s : Run A) → Returns r → Returns s → Returns (if b then r else s)
Returns-if b r s = Ends-if (λ a. Unit {0}) b r s

pub Returns-spinning {ℓ} : {A : Type ℓ} (r : Run A) → Returns r → r ≢ spinning
Returns-spinning r h e = let never : 1 ≤ 0 = subst Returns e h in absurd (omega (arith, never))
