-- ===== src/Tests/Checks.antt =====
-- A check with one target and one pod.
use azure_iot_ops_cli_extens.Base.{String, Bool, none, some, [], ◌∷◌, nonempty, nat_eq}
use azure_iot_ops_cli_extens.Base.Dict.{Dict}
use azure_iot_ops_cli_extens.Check.{warning}
use azure_iot_ops_cli_extens.Check.Manager.{new, add_target, add_target_eval}
use azure_iot_ops_cli_extens.Check.Coverage.{
  add_target_op, add_eval_op, start, step, Covers, Reachable-Covers,
}
use azure_iot_ops_cli_extens.Check.Pod.{Pod, PodValue, PodDisplay, PodManager}

abbrev broker : String
broker = "broker"

abbrev ns : String
ns = "ns"

abbrev no_text : String
no_text = ""

-- A check with one target.
abbrev pod_text : Dict String PodValue → Bool
pod_text = nonempty

abbrev empty_check : PodManager
empty_check = new "evaluate" "Evaluate"

abbrev one_target : PodManager
one_target = (add_target "broker" "ns" none none empty_check).1

abbrev one_evaluated : PodManager
one_evaluated =
    (add_target_eval pod_text "broker" warning none "ns" (some "pod/a") none one_target).1

Reachable-Covers_example : Covers one_evaluated
Reachable-Covers_example =
    Reachable-Covers (Dict String PodValue) PodDisplay pod_text one_evaluated (
      step (add_eval_op "broker" warning none "ns" (some "pod/a") none) one_target
        (step (add_target_op "broker" "ns" none none) empty_check (start "evaluate" "Evaluate")))

abbrev sick_pod : Pod
sick_pod = record {
  name = "a";
  phase = some "Running";
  conditions = record { type = "Ready"; status = "False"; reason = some "Unhealthy" } ∷ [];
}
