-- ===== src/Deletion/Requests.antt =====
-- The requests of a deletion: the log of a run, and the outcomes that a step leaves.
use azure_iot_ops_cli_extens.Base.{Bool, true, false}
use azure_iot_ops_cli_extens.Base.Exec.{value_error, Outcome, raised}

-- Every outcome but the ValueError of a display that does not know the step.
abbrev pub settled {ℓ} : {A : Type ℓ} → Outcome A → Bool
settled (raised (value_error _)) = false
settled _ = true
