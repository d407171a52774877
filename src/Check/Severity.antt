-- ===== src/Check/Severity.antt =====
-- The order of the statuses that `_process_status` follows.
use azure_iot_ops_cli_extens.Base.{ℕ, ◌≡◌, refl, if◌then◌else◌, ltb}
use azure_iot_ops_cli_extens.Check.{CheckTaskStatus, success, warning, error, skipped}
use azure_iot_ops_cli_extens.Check.Manager.{overrides}

abbrev pub severity : CheckTaskStatus → ℕ
severity skipped = 0
severity success = 1
severity warning = 2
severity error = 3

abbrev pub worse : CheckTaskStatus → CheckTaskStatus → CheckTaskStatus
worse s t = if ltb (severity t) (severity s) then s else t

-- A status takes the place of the one before only if it is worse or equal to it.
pub overrides-worse : (s t : CheckTaskStatus) → (if overrides s t then s else t) ≡ worse s t
overrides-worse success success = refl
overrides-worse success warning = refl
overrides-worse success error = refl
overrides-worse success skipped = refl
overrides-worse warning success = refl
overrides-worse warning warning = refl
overrides-worse warning error = refl
overrides-worse warning skipped = refl
overrides-worse error success = refl
overrides-worse error warning = refl
overrides-worse error error = refl
overrides-worse error skipped = refl
overrides-worse skipped success = refl
overrides-worse skipped warning = refl
overrides-worse skipped error = refl
overrides-worse skipped skipped = refl
