-- ===== src/Cloud/Scope.antt =====
-- The scope of a step of a running command.
use azure_iot_ops_cli_extens.Base.{String, truncate}
use azure_iot_ops_cli_extens.Base.Exec.{Exc, exc_text, Exec, ◌>>◌, raise, try_except}
use azure_iot_ops_cli_extens.Workflow
use azure_iot_ops_cli_extens.Workflow.{StepState, active, failed}
use azure_iot_ops_cli_extens.Cloud.{Cloud, Run}

-- `str(e)[:40]`
abbrev pub short : Exc → String
short e = truncate 40 (exc_text e)

module _ {Q : Type 0} (C : Cloud Q) where
  -- A call on the display of the run.
  unfoldable pub update_step : String → String → StepState → String → Exec (Run C) (Unit {0})
  update_step category step state detail s =
      let (o, d) = Workflow.update_step category step state detail s.display in
      (o, record { world = s.world; display = d; requests = s.requests })

  -- The handler of `step_scope`.
  unfoldable pub fail_step : {A : Type 0} → String → String → Exc → Exec (Run C) A
  unfolding update_step
  fail_step category step e = update_step category step failed (short e) >> raise e

  -- `with display.step_scope(category, step): body`
  unfoldable pub step_scope : {A : Type 0} → String → String → Exec (Run C) A → Exec (Run C) A
  unfolding fail_step
  step_scope category step body =
      update_step category step active "" >> try_except body (fail_step category step)
