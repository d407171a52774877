-- ===== src/Check.antt =====
-- azext_edge/edge/common.py and azext_edge/edge/providers/check/base: the checks of a deployment's
-- health, their statuses and how they are gathered.
pub mod Manager
pub mod Severity
pub mod Gathering
pub mod Coverage
pub mod Report
pub mod Pod
pub mod PodCheck
pub mod Health
pub mod Verdict
use azure_iot_ops_cli_extens.Base.{
  String, ◌<>◌, Bool, true, false, if◌then◌else◌, ◌==◌, string_eq, lower, get_or, [], ◌∷◌,
}
use azure_iot_ops_cli_extens.Base.Dict.{Dict, lookup}

-- The statuses, which the checks pass on by their values.
pub data CheckTaskStatus : Type 0 where
  success warning error skipped : CheckTaskStatus

-- `value`
abbrev pub status_value : CheckTaskStatus → String
status_value success = "success"
status_value warning = "warning"
status_value error = "error"
status_value skipped = "skipped"

abbrev pub is_success : CheckTaskStatus → Bool
is_success success = true
is_success _ = false

abbrev pub is_error : CheckTaskStatus → Bool
is_error error = true
is_error _ = false

abbrev pub is_skipped : CheckTaskStatus → Bool
is_skipped skipped = true
is_skipped _ = false

abbrev pub color : CheckTaskStatus → String
color success = "green"
color warning = "yellow"
color error = "red"
color skipped = "bright white"

abbrev pub emoji : CheckTaskStatus → String
emoji success = ":heavy_check_mark:"
emoji warning = ":warning:"
emoji error = ":stop_sign:"
emoji skipped = ":hammer:"

-- `CheckTaskStatus.map_to_colored_emoji`, of a member.
abbrev pub map_to_colored_emoji : CheckTaskStatus → String
map_to_colored_emoji s = "[" <> (color s <> ("]" <> (emoji s <> ("[/" <> (color s <> "]")))))

abbrev resource_status_map : Dict String CheckTaskStatus
resource_status_map =
    ("starting", warning)
    ∷ ("recovering", warning)
    ∷ ("warn", warning)
    ∷ ("n/a", warning)
    ∷ ("failed", error)
    ∷ ("error", error)
    ∷ ("waiting", warning)
    ∷ ("warning", warning)
    ∷ ("available", success)
    ∷ ("degraded", warning)
    ∷ ("unavailable", error)
    ∷ ("unknown", skipped)
    ∷ []

-- `ResourceState.map_to_status`
unfoldable pub resource_state_to_status : String → CheckTaskStatus
unfolding lookup lower
resource_state_to_status value = get_or (lookup (lower value) resource_status_map) success

-- `ResourceState.map_to_color`
unfoldable pub resource_state_to_color : String → String
unfolding resource_state_to_status
resource_state_to_color value = color (resource_state_to_status value)

abbrev pod_status_map : Dict String CheckTaskStatus
pod_status_map = ("pending", warning) ∷ ("unknown", warning) ∷ ("failed", error) ∷ []

-- `PodState.map_to_status`
unfoldable pub pod_state_to_status : String → CheckTaskStatus
unfolding lookup lower
pod_state_to_status value = get_or (lookup (lower value) pod_status_map) success
