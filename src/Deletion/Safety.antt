-- ===== src/Deletion/Safety.antt =====
-- Rules for statements that update only steps which the display knows.
use azure_iot_ops_cli_extens.Base.{
  ℕ, zero, suc, String, ◌≡◌, ◌∙◌, Bool, true, false, ◌||◌, List, [], ◌∷◌, arith, Bool-cases, inl,
  inr,
}
use azure_iot_ops_cli_extens.Base.Exec.{
  Exc, value_error, Outcome, returned, raised, Exec, ◌>>=◌, pure, raise, try_except, and_then,
  handle,
}
use azure_iot_ops_cli_extens.Workflow
use azure_iot_ops_cli_extens.Workflow.{StepState, Display}
use azure_iot_ops_cli_extens.Base.Exec.{is_returned}
use azure_iot_ops_cli_extens.Workflow.Steps.{
  known, update_step-known, update_step-no_progress, update_step-returned,
}
use azure_iot_ops_cli_extens.Cloud.{
  Request, Cloud, Run, begin_delete, poll_result, wait_state, wait_for_terminal_state,
  wait_for_terminal_states,
}
use azure_iot_ops_cli_extens.Deletion.Execute.{update_step, wait_if_any}

abbrev pub is_value_error : Exc → Bool
is_value_error (value_error _) = true
is_value_error _ = false

-- A returned value with a property, or an error of another class.
abbrev pub Good : {A : Type 0} → (A → Type 0) → Outcome A → Type 0
Good Q (returned a) = Q a
Good Q (raised e) = is_value_error e ≡ false

-- The display shows nothing, or knows the steps in `T`.
abbrev pub Fits : (String → String → Type 0) → Display → Type 0
Fits T d = (c st : String) → T c st → (d.no_progress || known c st d) ≡ true

-- What the clients of the service promise: their errors are not ValueErrors.
pub record IsHonest (C : Cloud Request) : Type 0 where
  pub begins : (q : Request) (w : C.World) → Good (λ _. Unit) (C.begin_delete q w).0
  pub results : (p : C.Poller) (w : C.World) → Good (λ _. Unit) (C.result p w).0

module _ (C : Cloud Request) (honest : IsHonest C) (T : String → String → Type 0) where
  pub record IsSafe {A : Type 0} (Q : A → Type 0) (m : Exec (Run C) A) : Type 0 where
    pub fits : (s : Run C) → Fits T s.display → Fits T (m s).1.display
    pub good : (s : Run C) → Fits T s.display → Good Q (m s).0

  pub IsSafe-pure : {A : Type 0} (Q : A → Type 0) (a : A) → Q a → IsSafe Q (pure a)
  IsSafe-pure Q a q = record { fits = λ s f. f; good = λ s f. q }

  pub IsSafe-raise :
      {A : Type 0} (Q : A → Type 0) (e : Exc) → is_value_error e ≡ false → IsSafe Q (raise e)
  IsSafe-raise Q e h = record { fits = λ s f. f; good = λ s f. h }

  module _ {A B : Type 0} (Q : A → Type 0) (R : B → Type 0) where
    Fits-then :
        (f : A → Exec (Run C) B)
        → ((a : A) → Q a → IsSafe R (f a))
        → (o : Outcome A) (t : Run C) → Good Q o
        → Fits T t.display
        → Fits T (and_then o t f).1.display
    Fits-then f k (returned a) t g h = (k a g).fits t h
    Fits-then f k (raised e) t g h = h

    Good-then :
        (f : A → Exec (Run C) B)
        → ((a : A) → Q a → IsSafe R (f a))
        → (o : Outcome A) (t : Run C) → Good Q o
        → Fits T t.display
        → Good R (and_then o t f).0
    Good-then f k (returned a) t g h = (k a g).good t h
    Good-then f k (raised e) t g h = g

    pub IsSafe-bind :
        (m : Exec (Run C) A) (f : A → Exec (Run C) B)
        → IsSafe Q m
        → ((a : A) → Q a → IsSafe R (f a))
        → IsSafe R (m >>= f)
    unfolding ◌>>=◌
    IsSafe-bind m f k l = record {
      fits = λ s h. Fits-then f l (m s).0 (m s).1 (k.good s h) (k.fits s h);
      good = λ s h. Good-then f l (m s).0 (m s).1 (k.good s h) (k.fits s h);
    }

  module _ {A : Type 0} (Q : A → Type 0) where
    Fits-handle :
        (h : Exc → Exec (Run C) A)
        → ((e : Exc) → is_value_error e ≡ false → IsSafe Q (h e))
        → (o : Outcome A) (t : Run C) → Good Q o
        → Fits T t.display
        → Fits T (handle o t h).1.display
    Fits-handle h k (returned a) t g f = f
    Fits-handle h k (raised e) t g f = (k e g).fits t f

    Good-handle :
        (h : Exc → Exec (Run C) A)
        → ((e : Exc) → is_value_error e ≡ false → IsSafe Q (h e))
        → (o : Outcome A) (t : Run C) → Good Q o
        → Fits T t.display
        → Good Q (handle o t h).0
    Good-handle h k (returned a) t g f = g
    Good-handle h k (raised e) t g f = (k e g).good t f

    pub IsSafe-try_except :
        (m : Exec (Run C) A) (h : Exc → Exec (Run C) A)
        → IsSafe Q m
        → ((e : Exc) → is_value_error e ≡ false → IsSafe Q (h e))
        → IsSafe Q (try_except m h)
    unfolding try_except
    IsSafe-try_except m h k l = record {
      fits = λ s f. Fits-handle h l (m s).0 (m s).1 (k.good s f) (k.fits s f);
      good = λ s f. Good-handle h l (m s).0 (m s).1 (k.good s f) (k.fits s f);
    }

  pub IsSafe-update_step :
      (c st : String) (state : StepState) (detail : String)
      → T c st
      → IsSafe (λ _. Unit) (update_step C c st state detail)
  unfolding update_step
  IsSafe-update_step c st state detail t = record {
    fits = λ s f d u h.
        rw
          (
            update_step-no_progress c st state detail s.display,
            update_step-known c st state detail s.display d u,
          )
          (f d u h);
    good = λ s f.
        Good-update (Workflow.update_step c st state detail s.display).0
          (update_step-returned c st state detail s.display ∙ f c st t);
  }
    where
      Good-update : (o : Outcome (Unit {0})) → is_returned o ≡ true → Good (λ _. Unit) o
      Good-update (returned a) h = tt
      Good-update (raised e) h = absurd (ground arith)

  pub IsSafe-begin_delete : (q : Request) → IsSafe (λ _. Unit) (begin_delete C q)
  unfolding begin_delete
  IsSafe-begin_delete q = record { fits = λ s f. f; good = λ s f. honest.begins q s.world }

  Fits-wait_state :
      (left : ℕ) (p : C.Poller) (s : Run C)
      → Fits T s.display
      → Fits T (wait_state C left p s).1.display × Good (λ _. Unit) (wait_state C left p s).0
  unfolding wait_state poll_result
  Fits-wait_state zero p s f = (f, honest.results p s.world)
  Fits-wait_state (suc left) p s f = elim (Bool-cases (C.done p s.world).0) [
    | inl h ↦ rw (wait_state, h) (f, honest.results p (C.done p s.world).1)
    | inr h ↦
        rw (wait_state, h)
          (Fits-wait_state left p
            (record {
              world = C.sleep (C.done p s.world).1;
              display = s.display;
              requests = s.requests;
            })
            f)
  ]

  pub IsSafe-wait : (p : C.Poller) → IsSafe (λ _. Unit) (wait_for_terminal_state C p)
  unfolding wait_for_terminal_state
  IsSafe-wait p = record {
    fits = λ s f. (Fits-wait_state 240 p s f).0;
    good = λ s f. (Fits-wait_state 240 p s f).1;
  }

  pub IsSafe-wait_if_any : (ps : List C.Poller) → IsSafe (λ _. Unit) (wait_if_any C ps)
  unfolding wait_if_any wait_for_terminal_states ◌>>=◌
  IsSafe-wait_if_any [] = IsSafe-pure _ tt tt
  IsSafe-wait_if_any (p ∷ ps) = record { fits = λ s f. f; good = λ s f. tt }
