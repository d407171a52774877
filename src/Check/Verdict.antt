-- ===== src/Check/Verdict.antt =====
-- What the check of a pod reports, and what it does to the status of the check.
use azure_iot_ops_cli_extens.Base.{◌≡◌, string_eq}
use azure_iot_ops_cli_extens.Base.Exec.{Outcome, returned, Exec}
use azure_iot_ops_cli_extens.Check.{CheckTaskStatus}
use azure_iot_ops_cli_extens.Check.Severity.{worse}
use azure_iot_ops_cli_extens.Check.Pod.{Pod, PodManager, PodStatusResult}

-- What the check of a pod reports, and the status that it leaves.
abbrev pub Reports : CheckTaskStatus → PodManager → Outcome PodStatusResult × PodManager → Type 0
Reports status m run =
    (result : PodStatusResult) × (run.0 ≡ returned result)
    × (result.eval_status ≡ status)
    × (run.1.worst_status ≡ worse status m.worst_status)
