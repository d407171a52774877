-- ===== src/Base/Exec.antt =====
-- Python statements with exceptions and state: a state goes in, and an outcome and a state come out.
use Prim.Native.Nat.{ℕ}
use Prim.Native.String.{String}
use mathlib.Core.Path.{◌≡◌, refl}
use mathlib.Core.Logic.{◌⊎◌, inl, inr}
use mathlib.Core.Bool.{Bool, true, false}
use mathlib.Core.Option.{Option}

-- The exception classes that the program raises or catches, with their texts.
pub data Exc : Type 0 where
  http_error : Option ℕ → String → Exc
  -- `ResourceNotFoundError` of azure.core, the HTTP error of a client for the status 404.
  not_found : String → Exc
  argument_usage resource_not_found validation value_error key_error type_error : String → Exc
  attribute_error unbound_local : String → Exc

-- `str(exc)`
abbrev pub exc_text : Exc → String
exc_text (http_error _ t) = t
exc_text (not_found t) = t
exc_text (argument_usage t) = t
exc_text (resource_not_found t) = t
exc_text (validation t) = t
exc_text (value_error t) = t
exc_text (key_error t) = t
exc_text (type_error t) = t
exc_text (attribute_error t) = t
exc_text (unbound_local t) = t

pub data Outcome {ℓ} (A : Type ℓ) : Type ℓ where
  returned : A → Outcome A
  raised : Exc → Outcome A

abbrev pub Exec {ℓ} : Type ℓ → Type ℓ → Type ℓ
Exec S A = S → Outcome A × S

-- What follows a statement in the same block.
abbrev pub and_then {ℓ} : {S A B : Type ℓ} → Outcome A → S → (A → Exec S B) → Outcome B × S
and_then (returned a) s f = f a s
and_then (raised e) s f = (raised e, s)

infixl 5 ◌>>=◌ ◌>>◌
unfoldable pub ◌>>=◌ {ℓ} : {S A B : Type ℓ} → Exec S A → (A → Exec S B) → Exec S B
◌>>=◌ m f s = and_then (m s).0 (m s).1 f

abbrev pub ◌>>◌ {ℓ} : {S A B : Type ℓ} → Exec S A → Exec S B → Exec S B
m >> k = m >>= λ _. k

abbrev pub pure {ℓ} : {S A : Type ℓ} → A → Exec S A
pure a s = (returned a, s)

abbrev pub raise {ℓ} : {S A : Type ℓ} → Exc → Exec S A
raise e s = (raised e, s)

abbrev pub handle {ℓ} : {S A : Type ℓ} → Outcome A → S → (Exc → Exec S A) → Outcome A × S
handle (returned a) s h = (returned a, s)
handle (raised e) s h = h e s

-- `try: m  except Exception as e: h(e)`
unfoldable pub try_except {ℓ} : {S A : Type ℓ} → Exec S A → (Exc → Exec S A) → Exec S A
try_except m h s = handle (m s).0 (m s).1 h

abbrev pub is_returned {ℓ} : {A : Type ℓ} → Outcome A → Bool
is_returned (returned _) = true
is_returned (raised _) = false

pub Outcome-cases {ℓ} :
    {A : Type ℓ} (o : Outcome A) → ((e : Exc) × (o ≡ raised e)) ⊎ ((a : A) × (o ≡ returned a))
Outcome-cases (raised e) = inl (e, refl)
Outcome-cases (returned a) = inr (a, refl)
