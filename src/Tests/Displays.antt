-- ===== src/Tests/Displays.antt =====
-- The step table at concrete tables.
use azure_iot_ops_cli_extens.Base.{
  ◌+◌, ◌≡◌, refl, String, false, ◌&&◌, not, some, List, [], ◌∷◌, if◌then◌else◌, str_len, ◌==◌,
  string_eq, nat_eq,
}
use Prim.Native.Nat.{max}
use azure_iot_ops_cli_extens.Base.Dict.{Dict, lookup}
use azure_iot_ops_cli_extens.Workflow
use azure_iot_ops_cli_extens.Workflow.{
  StepState, pending, active, complete, failed, Entry, Steps, Display, init, complete_category,
  finish_entry, category_style, format_dot_leader, fresh_entry, is_failed, is_done,
}
use azure_iot_ops_cli_extens.Workflow.Steps.{entry_of, known, update_step-entry_of, NodupKeys}
use azure_iot_ops_cli_extens.Workflow.Layout.{format_dot_leader-len}

abbrev instance_key : String
instance_key = "Instance"

abbrev step_a : String
step_a = "a"

abbrev step_b : String
step_b = "b"

-- The steps of a run, and a table in which one step is complete and one failed.
abbrev two_steps : Dict String (List String)
two_steps = ("Instance", "ops" ∷ []) ∷ ("CL Resources", "2 resources" ∷ []) ∷ []

abbrev some_entries : Steps
some_entries =
    ("a", record { state = complete; detail = "" })
    ∷ ("b", record { state = failed; detail = "no" })
    ∷ []

abbrev some_display : Display
some_display = record { title = "t"; no_progress = false; steps = ("Instance", some_entries) ∷ [] }

update_step-entry_of_example :
    entry_of "Instance" "b" (Workflow.update_step "Instance" "a" active "now" some_display).1 ≡ (
      if not false
        && (known "Instance" "a" some_display && (instance_key == instance_key && step_b == step_a))
      then some (record { state = active; detail = "now" })
      else entry_of "Instance" "b" some_display)
update_step-entry_of_example =
    update_step-entry_of "Instance" "a" active "now" some_display "Instance" "b"

two_steps_distinct : NodupKeys two_steps
unfolding lookup string_eq
two_steps_distinct = (refl, (refl, tt))

format_dot_leader-len_example :
    str_len (format_dot_leader "ops" "removed" 40 "  " ".")
    ≡ max 40 (str_len "  " + str_len "ops" + str_len "removed" + 4)
unfolding str_len
format_dot_leader-len_example = format_dot_leader-len "ops" "removed" 40 "  " "." refl
