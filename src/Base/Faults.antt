-- ===== src/Base/Faults.antt =====
-- The result of C code that may leave the memory it owns: `fault` is a read or a write out of the
-- bounds of an array, or through a null pointer. `no_fuel` says that a loop ran out of its fuel.
use mathlib.Core.Path.{◌≡◌, refl, subst}

pub data Outcome {ℓ} (A : Type ℓ) : Type ℓ where
  ok : A → Outcome A
  fault : Outcome A
  no_fuel : Outcome A

infixl 5 ◌>>=◌
abbrev pub ◌>>=◌ {ℓ κ} : {A : Type ℓ} {B : Type κ} → Outcome A → (A → Outcome B) → Outcome B
ok a >>= f = f a
fault >>= f = fault
no_fuel >>= f = no_fuel

-- What holds of the value of code that does not fault.
abbrev pub OnOk {ℓ κ} : {A : Type ℓ} → (A → Type κ) → Outcome A → Type κ
OnOk P (ok a) = P a
OnOk P fault = Unit
OnOk P no_fuel = Unit

pub ok-injective {ℓ} : {A : Type ℓ} {a b : A} → ok a ≡ ok b → a ≡ b
ok-injective e = cc

pub OnOk-ok {ℓ κ} :
    {A : Type ℓ} (P : A → Type κ) (m : Outcome A) {a : A} → m ≡ ok a → OnOk P m → P a
OnOk-ok P (ok b) e h = subst P (ok-injective e) h
OnOk-ok P fault e h = cc
OnOk-ok P no_fuel e h = cc

-- What holds of the result of code that comes to its end.
abbrev pub OnEnd {ℓ} : {A : Type ℓ} → (A → Type 0) → Outcome A → Type 0
OnEnd P (ok a) = P a
OnEnd P fault = Unit
OnEnd P no_fuel = ⊥

pub OnEnd->>= {ℓ κ} :
    {A : Type ℓ} {B : Type κ} (P : A → Type 0) (Q : B → Type 0) (m : Outcome A) (f : A → Outcome B)
    → OnEnd P m
    → ((a : A) → P a → OnEnd Q (f a))
    → OnEnd Q (m >>= f)
OnEnd->>= P Q (ok a) f h k = k a h
OnEnd->>= P Q fault f h k = tt
OnEnd->>= P Q no_fuel f h k = absurd h

-- What holds of the result of code that does not fault.
abbrev pub OnSafe {ℓ} : {A : Type ℓ} → (A → Type 0) → Outcome A → Type 0
OnSafe P (ok a) = P a
OnSafe P fault = ⊥
OnSafe P no_fuel = Unit

pub OnSafe->>= {ℓ κ} :
    {A : Type ℓ} {B : Type κ} (P : A → Type 0) (Q : B → Type 0) (m : Outcome A) (f : A → Outcome B)
    → OnSafe P m
    → ((a : A) → P a → OnSafe Q (f a))
    → OnSafe Q (m >>= f)
OnSafe->>= P Q (ok a) f h k = k a h
OnSafe->>= P Q no_fuel f h k = tt
OnSafe->>= P Q fault f h k = absurd h

pub returns {ℓ} :
    {A : Type ℓ} (P : A → Type 0) (m : Outcome A)
    → OnEnd (λ a. Unit) m
    → OnSafe P m
    → (a : A) × (m ≡ ok a) × P a
returns P (ok a) e s = (a, refl, s)
returns P fault e s = absurd s
returns P no_fuel e s = absurd e

-- Code that returns, with a property of what it returns.
abbrev pub Returns {ℓ} : {A : Type ℓ} → (A → Type 0) → Outcome A → Type 0
Returns P (ok a) = P a
Returns P fault = ⊥
Returns P no_fuel = ⊥

pub Returns->>= {ℓ κ} :
    {A : Type ℓ} {B : Type κ} (P : A → Type 0) (Q : B → Type 0) (m : Outcome A) (f : A → Outcome B)
    → Returns P m
    → ((a : A) → P a → Returns Q (f a))
    → Returns Q (m >>= f)
Returns->>= P Q (ok a) f h k = k a h
Returns->>= P Q fault f h k = absurd h
Returns->>= P Q no_fuel f h k = absurd h

pub OnOk->>= {ℓ κ} :
    {A : Type ℓ} {B : Type κ} (P : A → Type 0) (Q : B → Type 0) (m : Outcome A) (f : A → Outcome B)
    → OnOk P m
    → ((a : A) → P a → OnOk Q (f a))
    → OnOk Q (m >>= f)
OnOk->>= P Q (ok a) f h k = k a h
OnOk->>= P Q fault f h k = tt
OnOk->>= P Q no_fuel f h k = tt

-- It holds of the value whatever it is.
pub OnOk-always {ℓ} : {A : Type ℓ} (m : Outcome A) → OnOk (λ a. Unit {0}) m
OnOk-always (ok a) = tt
OnOk-always fault = tt
OnOk-always no_fuel = tt

-- A weaker property.
pub OnOk-map {ℓ} :
    {A : Type ℓ} (P Q : A → Type 0) (m : Outcome A) → OnOk P m → ((a : A) → P a → Q a) → OnOk Q m
OnOk-map P Q (ok a) h k = k a h
OnOk-map P Q fault h k = tt
OnOk-map P Q no_fuel h k = tt

pub Returns-OnOk {ℓ} :
    {A : Type ℓ} (P Q : A → Type 0) (m : Outcome A)
    → Returns P m
    → OnOk Q m
    → Returns (λ a. P a × Q a) m
Returns-OnOk P Q (ok a) h k = (h, k)
Returns-OnOk P Q fault h k = h
Returns-OnOk P Q no_fuel h k = h

pub Returns-map {ℓ} :
    {A : Type ℓ} (P Q : A → Type 0) (m : Outcome A)
    → Returns P m
    → ((a : A) → P a → Q a)
    → Returns Q m
Returns-map P Q (ok a) h k = k a h
Returns-map P Q fault h k = h
Returns-map P Q no_fuel h k = h

pub Returns-ok {ℓ} :
    {A : Type ℓ} (P : A → Type 0) (m : Outcome A) → Returns P m → (a : A) × (m ≡ ok a) × P a
Returns-ok P (ok a) h = (a, refl, h)
Returns-ok P fault h = absurd h
Returns-ok P no_fuel h = absurd h
