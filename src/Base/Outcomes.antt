-- ===== src/Base/Outcomes.antt =====
-- Python expressions that may raise, without a state: `do` blocks of outcomes.
use mathlib.Core.Path.{◌≡◌, refl}
use native.Mathlib.Omega.{arith}
use mathlib.Core.Bool.{Bool, true, false, not, ◌&&◌}
use mathlib.Core.List.{List, []}
use azure_iot_ops_cli_extens.Base.Exec.{Exc, Outcome, returned, raised, Exec, is_returned}

infixl 5 ◌>>=◌ ◌>>◌
abbrev pub ◌>>=◌ {ℓ} : {A B : Type ℓ} → Outcome A → (A → Outcome B) → Outcome B
returned a >>= f = f a
raised e >>= f = raised e

abbrev pub ◌>>◌ {ℓ} : {A B : Type ℓ} → Outcome A → Outcome B → Outcome B
m >> k = m >>= λ _. k

-- An expression inside a statement.
abbrev pub lift {ℓ} : {S A : Type ℓ} → Outcome A → Exec S A
lift o s = (o, s)

-- `if test: raise e`
abbrev pub raise_if : Bool → Exc → Outcome (Unit {0})
raise_if true e = raised e
raise_if false e = returned tt

-- What is planned behind a value that may not be there.
abbrev pub planned {ℓ κ} : {A : Type ℓ} {Q : Type κ} → Outcome A → (A → List Q) → List Q
planned (returned a) f = f a
planned (raised e) f = []

pub planned-returned {ℓ κ} :
    {A : Type ℓ} {Q : Type κ} (o : Outcome A) (f : A → List Q) (a : A)
    → o ≡ returned a
    → f a ≡ planned o f
planned-returned o f a h = rw h refl

pub raise_if-returned : (b : Bool) (x : Exc) → is_returned (raise_if b x) ≡ not b
raise_if-returned true x = refl
raise_if-returned false x = refl

pub raise_if-then :
    {A : Type 0} (b : Bool) (x : Exc) (k : Unit {0} → Outcome A)
    → is_returned (raise_if b x >>= k) ≡ not b && is_returned (k tt)
raise_if-then true x k = refl
raise_if-then false x k = refl

-- What returns behind a value has returned that value.
pub bind-returned {ℓ} :
    {A B : Type ℓ} (o : Outcome A) (f : A → Outcome B) (b : B)
    → (o >>= f) ≡ returned b
    → (a : A) × (o ≡ returned a) × (f a ≡ returned b)
bind-returned (returned a) f b h = (a, refl, h)
bind-returned (raised e) f b h = ground (arith, h)

pub returned-injective {ℓ} : {A : Type ℓ} (a b : A) → returned a ≡ returned b → a ≡ b
returned-injective a b h = ground (arith, h)
