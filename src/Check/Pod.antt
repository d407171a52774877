-- ===== src/Check/Pod.antt =====
-- azext_edge/edge/providers/check/base/pod.py: the health of pods. The tables of the display are
-- values here; what draws them is not in the repository.
use azure_iot_ops_cli_extens.Base.{
  ℕ, String, ◌<>◌, Bool, true, false, ◌&&◌, ◌||◌, not, Option, none, some, List, [], ◌∷◌, ◌++◌, map,
  if◌then◌else◌, get_or, is_some, truthy, ◌==◌, string_eq, contains, lower, split, join, nonempty,
}
use azure_iot_ops_cli_extens.Base.Dict.{Dict, lookup, insert, values}
use azure_iot_ops_cli_extens.Base.Exec.{unbound_local, Outcome, returned, raised}
use azure_iot_ops_cli_extens.Check.{
  CheckTaskStatus, success, warning, error, is_success, is_error, color, pod_state_to_status,
}
use azure_iot_ops_cli_extens.Check.Manager.{CheckManager}

-- What the checks read of a pod: a phase or a reason that is `None` is `none`.
pub record Condition : Type 0 where
  pub type : String
  pub status : String
  pub reason : Option String

pub record Pod : Type 0 where
  pub name : String
  pub phase : Option String
  pub conditions : List Condition

abbrev pub pod_condition_text_map : Dict String String
pod_condition_text_map =
    ("Ready", "Pod Readiness")
    ∷ ("Initialized", "Pod Initialized")
    ∷ ("ContainersReady", "Containers Readiness")
    ∷ ("PodScheduled", "Pod Scheduled")
    ∷ ("PodReadyToStartContainers", "Pod Ready To Start Containers")
    ∷ []

-- `value.replace(" ", "").lower()`
unfoldable pub normalized : String → String
normalized value = lower (join "" (split 32 value))

unfoldable pub known_condition_values : List String
unfolding normalized
known_condition_values = map normalized (values pod_condition_text_map)

-- A value of an evaluation.
pub data PodValue : Type 0 where
  text : String → PodValue
  flag : Bool → PodValue

abbrev pub value_text : PodValue → String
value_text (text s) = s
value_text (flag true) = "True"
value_text (flag false) = "False"

pub data PodDisplay : Type 0 where
  pod_table : Bool → List (List String) → ℕ → PodDisplay
  footer : String → ℕ → PodDisplay

abbrev pub PodManager : Type 0
PodManager = CheckManager (Dict String PodValue) PodDisplay

abbrev pub colorize_string : String → String → String
colorize_string value color = "[" <> (color <> ("]" <> (value <> ("[/" <> (color <> "]")))))

-- `decorate_pod_phase`
unfoldable pub decorate_pod_phase : String → String × CheckTaskStatus
unfolding pod_state_to_status
decorate_pod_phase phase =
    let status = pod_state_to_status phase in (colorize_string phase (color status), status)

pub record PodStatusConditionResult : Type 0 where
  pub condition_string : String
  pub failed_reason : String
  pub eval_status : CheckTaskStatus

pub record PodStatusResult : Type 0 where
  pub display_strings : List String
  pub eval_status : CheckTaskStatus

-- The variables of the loop over the conditions; `deco` is not bound before the first known one.
pub record Loop : Type 0 where
  pub status : CheckTaskStatus
  pub eval_status : CheckTaskStatus
  pub ready : Bool
  pub deco : Option String
  pub known_results : List PodStatusConditionResult
  pub unknown_results : List PodStatusConditionResult
  pub values : Dict String PodValue

abbrev pub holds : Condition → Bool
holds c = lower c.status == "true"

-- The part of the loop's body under `if condition_type`.
abbrev pub judge : Bool → Condition → Loop → Loop
judge succeeded c l = elim (lookup c.type pod_condition_text_map) [
  | none ↦ l
  | some _ ↦
      let counts = succeeded || holds c in
      let status = if counts then success else error in
      record {
        status = status;
        eval_status = if is_success status then l.eval_status else status;
        ready = l.ready && counts;
        deco = some (colorize_string (value_text (flag (holds c))) (color status));
        known_results = l.known_results;
        unknown_results = l.unknown_results;
        values = l.values;
      }
]

abbrev pub condition_label : Condition → String
condition_label c = get_or (lookup c.type pod_condition_text_map) c.type

abbrev pub condition_value : Condition → PodValue
condition_value c =
    if is_some (lookup c.type pod_condition_text_map) then flag (holds c) else text c.status

abbrev formatted_reason : Condition → CheckTaskStatus → String
formatted_reason c status = elim c.reason [
  | none ↦ ""
  | some reason ↦
      if truthy reason
      then if is_error status then "[red]Reason: " <> (reason <> "[/red]") else "Reason: " <> reason
      else ""
]

abbrev set_results :
    List PodStatusConditionResult
    → List PodStatusConditionResult
    → Dict String PodValue
    → Loop
    → Loop
set_results known unknown values l = record {
  status = l.status;
  eval_status = l.eval_status;
  ready = l.ready;
  deco = l.deco;
  known_results = known;
  unknown_results = unknown;
  values = values;
}

abbrev pub condition_result : Condition → Loop → String → PodStatusConditionResult
condition_result c l shown = record {
  condition_string = condition_label c <> (": " <> shown);
  failed_reason = formatted_reason c l.status;
  eval_status = l.status;
}

-- The rest of the body: a label among the known ones needs the decoration, which may not be bound.
unfoldable pub file_result : Condition → Loop → Outcome Loop
unfolding known_condition_values lookup
file_result c l =
    let label = condition_label c in
    let values = insert ("status.conditions." <> lower c.type) (condition_value c) l.values in
    if contains known_condition_values (normalized label)
    then elim l.deco [
      | none ↦ raised (unbound_local "pod_condition_deco")
      | some deco ↦ returned (
          set_results (l.known_results ++ condition_result c l deco ∷ []) l.unknown_results values
            l)
    ]
    else returned (
        set_results l.known_results
          (l.unknown_results ++ condition_result c l (value_text (condition_value c)) ∷ []) values
          l)

unfoldable pub gather : Bool → List Condition → Loop → Outcome Loop
unfolding file_result lookup
gather succeeded [] l = returned l
gather succeeded (c ∷ cs) l = elim (file_result c (judge succeeded c l)) [
  | raised e ↦ raised e
  | returned l' ↦ gather succeeded cs l'
]

-- The status of the pod behind the loop.
abbrev pub verdict : Loop → CheckTaskStatus
verdict l =
    if not l.ready
    then error
    else if nonempty l.unknown_results && not (is_error l.eval_status)
    then warning
    else l.eval_status

abbrev pub start_loop : CheckTaskStatus → String → Loop
start_loop status phase = record {
  status = status;
  eval_status = status;
  ready = true;
  deco = none;
  known_results = [];
  unknown_results = [];
  values = ("status.phase", text phase) ∷ [];
}
