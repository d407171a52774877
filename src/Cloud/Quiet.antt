-- ===== src/Cloud/Quiet.antt =====
-- What waits and updates of the display send, and the log of the requests.
use azure_iot_ops_cli_extens.Base.{ℕ, zero, suc, String, ◌≡◌, refl, ◌∙◌, true, List, [], ◌∷◌, arith}
use azure_iot_ops_cli_extens.Base.Exec.{
  Exc, Outcome, returned, raised, Exec, ◌>>=◌, raise, and_then, handle, try_except, is_returned,
}
use azure_iot_ops_cli_extens.Base.Sends.{Sends, Sends-quiet, Sends-bind, Sends-try_except}
use azure_iot_ops_cli_extens.Workflow.{StepState, active, failed}
use azure_iot_ops_cli_extens.Cloud.{
  Cloud, Run, begin_delete, poll_result, wait_state, wait_for_terminal_state,
}
use azure_iot_ops_cli_extens.Cloud.Scope.{update_step, fail_step, step_scope, short}

module _ {Q : Type 0} (C : Cloud Q) where
  abbrev pub log : Run C → List Q
  log s = s.requests

  pub update_step-requests :
      (c st : String) (state : StepState) (detail : String) (s : Run C)
      → (update_step C c st state detail s).1.requests ≡ s.requests
  unfolding update_step
  update_step-requests c st state detail s = refl

  wait_state-requests :
      (left : ℕ) (p : C.Poller) (s : Run C) → (wait_state C left p s).1.requests ≡ s.requests
  unfolding wait_state poll_result
  wait_state-requests zero p s = refl
  wait_state-requests (suc left) p s =
      let (b, w) = C.done p s.world in
      ground (
        arith,
        wait_state-requests left p
            (record { world = C.sleep w; display = s.display; requests = s.requests }),
      )

  pub wait-requests :
      (p : C.Poller) (s : Run C) → (wait_for_terminal_state C p s).1.requests ≡ s.requests
  unfolding wait_for_terminal_state
  wait-requests p s = wait_state-requests 240 p s

  pub bind-requests :
      {A B : Type 0} (m : Exec (Run C) A) (f : A → Exec (Run C) B)
      → ((s : Run C) → (m s).1.requests ≡ s.requests)
      → ((a : A) (s : Run C) → (f a s).1.requests ≡ s.requests)
      → (s : Run C) → ((m >>= f) s).1.requests ≡ s.requests
  unfolding ◌>>=◌
  bind-requests {A} m f h k s = go (m s).0 (m s).1 (h s)
    where
      go :
          (o : Outcome A) (t : Run C)
          → t.requests ≡ s.requests
          → (and_then o t f).1.requests ≡ s.requests
      go (returned a) t e = k a t ∙ e
      go (raised x) t e = e

  pub try-requests :
      {A : Type 0} (m : Exec (Run C) A) (h : Exc → Exec (Run C) A)
      → ((s : Run C) → (m s).1.requests ≡ s.requests)
      → ((e : Exc) (s : Run C) → (h e s).1.requests ≡ s.requests)
      → (s : Run C) → (try_except m h s).1.requests ≡ s.requests
  unfolding try_except
  try-requests {A} m h k l s = go (m s).0 (m s).1 (k s)
    where
      go :
          (o : Outcome A) (t : Run C)
          → t.requests ≡ s.requests
          → (handle o t h).1.requests ≡ s.requests
      go (returned a) t e = e
      go (raised x) t e = l x t ∙ e

  module _ (A : Type 0) where
    pub fail_step-requests :
        (c st : String) (e : Exc) (s : Run C)
        → (fail_step C {A = A} c st e s).1.requests ≡ s.requests
    unfolding fail_step
    fail_step-requests c st e s =
        bind-requests (update_step C c st failed (short e)) (λ _. raise e)
          (update_step-requests c st failed (short e)) (λ _ t. refl) s

    pub fail_step-raises :
        (c st : String) (e : Exc) (s : Run C)
        → ¬ (is_returned (fail_step C {A = A} c st e s).0 ≡ true)
    unfolding fail_step ◌>>=◌
    fail_step-raises c st e s h = ground (arith, h)

    pub step_scope-requests :
        (c st : String) (body : Exec (Run C) A)
        → ((s : Run C) → (body s).1.requests ≡ s.requests)
        → (s : Run C) → (step_scope C c st body s).1.requests ≡ s.requests
    unfolding step_scope
    step_scope-requests c st body k =
        bind-requests (update_step C c st active "") _ (update_step-requests c st active "")
          (λ _. try-requests body (fail_step C c st) k (fail_step-requests c st))

    -- The scope of a step sends what its body sends.
    pub step_scope-Sends :
        (c st : String) {p : List Q} (body : Exec (Run C) A)
        → Sends log is_returned p body
        → Sends log is_returned p (step_scope C c st body)
    unfolding step_scope
    step_scope-Sends c st body k =
        Sends-bind log (update_step C c st active "") (λ _. try_except body (fail_step C c st))
          (Sends-quiet log is_returned _ (update_step-requests c st active ""))
          (λ _.
            Sends-try_except log is_returned body (fail_step C c st) k (fail_step-requests c st)
              (λ e s h. absurd (fail_step-raises c st e s h)) (λ a. refl))

  pub Sends-begin_delete : (q : Q) → Sends log (λ _. true) (q ∷ []) (begin_delete C q)
  unfolding begin_delete
  Sends-begin_delete q = record {
    sent = λ s. q ∷ [];
    unsent = λ s. [];
    requests = λ s. refl;
    split = λ s. refl;
    complete = λ s _. refl;
  }
