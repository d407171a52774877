-- ===== src/Check/PodCheck.antt =====
-- azext_edge/edge/providers/check/base/pod.py: the check of a pod and of a list of pods, behind the
-- loop over the conditions.
use azure_iot_ops_cli_extens.Base.{
  ℕ, String, ◌<>◌, Bool, ◌&&◌, ◌||◌, none, some, List, [], ◌∷◌, map, if◌then◌else◌, get_or, truthy,
  ◌==◌, string_eq, lower, nonempty, all,
}
use azure_iot_ops_cli_extens.Base.Exec.{
  attribute_error, Outcome, returned, raised, Exec, ◌>>=◌, ◌>>◌, pure, raise,
}
use azure_iot_ops_cli_extens.Check.{is_success, is_error, color, emoji, pod_state_to_status}
use azure_iot_ops_cli_extens.Check.Manager.{
  at, add_target_conditions, set_target_conditions, add_target_eval, add_display,
}
use azure_iot_ops_cli_extens.Check.Pod.{
  Pod, PodManager, colorize_string, decorate_pod_phase, PodStatusConditionResult, PodStatusResult,
  Loop, gather, verdict, start_loop, pod_table, footer,
}

abbrev pub is_succeeded : String → Bool
is_succeeded phase = lower phase == "succeeded"

-- The text of the table's third column, of the detail levels above the summary.
unfoldable pub conditions_text : String → Bool → Bool → Loop → String
conditions_text level any_condition succeeded l =
    if any_condition
    then (if level == "1" && l.ready
        then if succeeded then "[green]Completed[/green]" else "[green]Ready[/green]"
        else "")
      <> (known_lines l.known_results <> (if l.ready then unknown_lines l.unknown_results else ""))
    else "N/A"
  where
    reason_line : String → String
    reason_line reason = if truthy reason then reason <> "\n" else ""

    known_lines : List PodStatusConditionResult → String
    known_lines [] = ""
    known_lines (r ∷ rs) =
        (if level == "1" && is_error r.eval_status || level == "2"
          then r.condition_string <> ("\n" <> reason_line r.failed_reason)
          else "")
        <> known_lines rs

    unknown_lines : List PodStatusConditionResult → String
    unknown_lines [] = ""
    unknown_lines (r ∷ rs) =
        ("[yellow]Irregular Condition " <> (r.condition_string <> " found.[/yellow]\n"))
        <> ((if level == "2" then reason_line r.failed_reason else "") <> unknown_lines rs)

-- `PodStatusResult` of a pod whose conditions are gathered.
unfoldable pub pod_result : String → Pod → String → Loop → PodStatusResult
unfolding conditions_text decorate_pod_phase
pod_result level pod phase l =
    let status = verdict l in
    if level == "0"
    then record {
      display_strings =
          colorize_string (emoji status) (color status)
          ∷ ("Pod {[bright_blue]" <> (pod.name <> "[/bright_blue]}"))
          ∷ [];
      eval_status = status;
    }
    else record {
      display_strings =
          pod.name
          ∷ (decorate_pod_phase phase).0
          ∷ conditions_text level (nonempty pod.conditions) (is_succeeded phase) l
          ∷ [];
      eval_status = status;
    }

-- The conditions of the target, which are added to those that are there.
unfoldable pub note_conditions : String → String → Pod → Exec PodManager (Unit {0})
unfolding at
note_conditions target namespace pod m =
    let service = "pod/" <> pod.name in
    let conditions = (service <> ".status.phase") ∷ (service <> ".status.conditions") ∷ [] in
    elim (at target namespace m.targets) [
      | none ↦ set_target_conditions target (some conditions) namespace m
      | some t ↦
          if nonempty (get_or t.conditions [])
          then add_target_conditions target conditions namespace m
          else set_target_conditions target (some conditions) namespace m
    ]

-- The evaluation, once the conditions are gathered.
unfoldable pub finish_pod :
    String → String → Pod → String → String → Outcome Loop → Exec PodManager PodStatusResult
unfolding pod_result
finish_pod target namespace pod level phase (raised e) = raise e
finish_pod target namespace pod level phase (returned l) = do
  add_target_eval nonempty target (verdict l) (some l.values) namespace (some ("pod/" <> pod.name))
      none
  pure (pod_result level pod phase l)

-- `_process_pod_status`
unfoldable pub process_pod_status : String → Pod → String → String → Exec PodManager PodStatusResult
unfolding note_conditions finish_pod gather pod_state_to_status
process_pod_status target pod namespace level =
    note_conditions target namespace pod >> elim pod.phase [
      | none ↦ raise (attribute_error "'NoneType' object has no attribute 'lower'")
      | some phase ↦ finish_pod target namespace pod level phase (
          gather (is_succeeded phase) pod.conditions (start_loop (pod_state_to_status phase) phase))
    ]

unfoldable pub process_pods :
    String → List Pod → String → String → Exec PodManager (List PodStatusResult)
unfolding process_pod_status
process_pods target [] namespace level = pure []
process_pods target (p ∷ ps) namespace level = do
  result ← process_pod_status target p namespace level
  rest ← process_pods target ps namespace level
  pure (result ∷ rest)

unfoldable pub show_pods :
    String → String → ℕ → String → List PodStatusResult → Exec PodManager (Unit {0})
show_pods target namespace padding level results =
    add_display target
      (pod_table (level == "0") (map (λ (r : PodStatusResult). r.display_strings) results) padding)
      namespace
    >> (if all (λ (r : PodStatusResult). is_success r.eval_status) results
        then pure tt
        else add_display target
            (footer
              (":magnifying_glass_tilted_left:"
                <> colorize_string
                    " See more details by attaching : --detail-level 1 or --detail-level 2" "cyan")
              padding)
            namespace)

unfoldable pub evaluate_pod_health :
    String → String → ℕ → List Pod → String → Exec PodManager (Unit {0})
unfolding process_pods show_pods
evaluate_pod_health target namespace padding [] level = pure tt
evaluate_pod_health target namespace padding (p ∷ ps) level = do
  results ← process_pods target (p ∷ ps) namespace level
  show_pods target namespace padding level results
