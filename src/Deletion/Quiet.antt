-- ===== src/Deletion/Quiet.antt =====
-- Statements that send no request.
use azure_iot_ops_cli_extens.Base.{String, ◌≡◌, refl, List, [], ◌∷◌, arith}
use azure_iot_ops_cli_extens.Base.Exec.{Exc, ◌>>=◌}
use azure_iot_ops_cli_extens.Workflow.{StepState}
use azure_iot_ops_cli_extens.ResourceMap.{Resource}
use azure_iot_ops_cli_extens.Cloud.{Request, Cloud, Run, wait_for_terminal_states}
use azure_iot_ops_cli_extens.Deletion.Execute.{update_step, unless_not_found, set_all, wait_if_any}
use azure_iot_ops_cli_extens.Cloud.Quiet.{update_step-requests, bind-requests}

module _ (C : Cloud Request) where
  pub wait_if_any-requests :
      (ps : List C.Poller) (s : Run C) → (wait_if_any C ps s).1.requests ≡ s.requests
  unfolding wait_if_any wait_for_terminal_states ◌>>=◌
  wait_if_any-requests [] s = refl
  wait_if_any-requests (p ∷ ps) s = refl

  pub set_all-requests :
      (c : String) (state : StepState) (detail : String) (rs : List Resource) (s : Run C)
      → (set_all C c state detail rs s).1.requests ≡ s.requests
  unfolding set_all
  set_all-requests c state detail [] s = refl
  set_all-requests c state detail (r ∷ rs) s =
      bind-requests C (update_step C c r.display_name state detail) _
        (update_step-requests C c r.display_name state detail)
        (λ _. set_all-requests c state detail rs) s

  pub unless_not_found-requests :
      (e : Exc) (s : Run C) → (unless_not_found C e s).1.requests ≡ s.requests
  unfolding unless_not_found
  unless_not_found-requests e s = ground arith
