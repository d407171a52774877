-- ===== src/Check/Manager.antt =====
-- azext_edge/edge/providers/check/base/check_manager.py: `CheckManager`. The values of evaluations
-- and the displays are types of the client's; `is_truthy` is the truth value of a value.
use azure_iot_ops_cli_extens.Base.{
  String, Bool, true, false, ◌&&◌, not, Option, none, some, List, [], ◌∷◌, ◌++◌, if◌then◌else◌,
  get_or, truthy, string_eq,
}
use azure_iot_ops_cli_extens.Base.Dict.{Dict, lookup, insert, has}
use azure_iot_ops_cli_extens.Base.Exec.{key_error, returned, raised, Exec, ◌>>◌}
use azure_iot_ops_cli_extens.Check.{
  CheckTaskStatus, success, warning, error, skipped, is_skipped, is_error,
}

-- `eval_dict`: a field is there where its argument is true.
pub record Evaluation (V : Type 0) : Type 0 where
  pub status : CheckTaskStatus
  pub name : Option String
  pub value : Option V
  pub kind : Option String

-- `self.targets[target_name][namespace]`
pub record Target (V : Type 0) : Type 0 where
  pub conditions : Option (List String)
  pub evaluations : List (Evaluation V)
  pub status : CheckTaskStatus
  pub description : Option String

abbrev pub Nested : Type 0 → Type 0
Nested A = Dict String (Dict String A)

pub record CheckManager (V D : Type 0) : Type 0 where
  pub check_name : String
  pub check_desc : String
  pub targets : Nested (Target V)
  pub target_displays : Nested (List D)
  pub worst_status : CheckTaskStatus

-- `d[a][b]`, where both keys are there.
unfoldable pub at : {A : Type 0} → String → String → Nested A → Option A
at a b d = elim (lookup a d) [ none ↦ none | some inner ↦ lookup b inner ]

-- `d[a][b] = v`, where `d[a]` is there or made.
unfoldable pub put : {A : Type 0} → String → String → A → Nested A → Nested A
put a b v d = insert a (insert b v (get_or (lookup a d) [])) d

abbrev pub non_empty_text : Option String → Option String
non_empty_text none = none
non_empty_text (some s) = if truthy s then some s else none

-- When a status takes the place of the one before.
abbrev pub overrides : CheckTaskStatus → CheckTaskStatus → Bool
overrides success old = is_skipped old
overrides warning old = not (is_error old)
overrides error old = true
overrides skipped old = false

module _ {V : Type 0} where
  abbrev pub fresh : Target V
  fresh = record { conditions = none; evaluations = []; status = skipped; description = none }

  abbrev pub raise_status : CheckTaskStatus → Target V → Target V
  raise_status status t = record {
    conditions = t.conditions;
    evaluations = t.evaluations;
    status = if overrides status t.status then status else t.status;
    description = t.description;
  }

  abbrev pub append_eval : Evaluation V → Target V → Target V
  append_eval e t = record {
    conditions = t.conditions;
    evaluations = t.evaluations ++ e ∷ [];
    status = t.status;
    description = t.description;
  }

module _ {V D : Type 0} where
  -- `__init__`
  unfoldable pub new : String → String → CheckManager V D
  new check_name check_desc = record {
    check_name = check_name;
    check_desc = check_desc;
    targets = [];
    target_displays = [];
    worst_status = skipped;
  }

  abbrev pub with_targets : CheckManager V D → Nested (Target V) → CheckManager V D
  with_targets m targets = record {
    check_name = m.check_name;
    check_desc = m.check_desc;
    targets = targets;
    target_displays = m.target_displays;
    worst_status = m.worst_status;
  }

  -- `add_target`: a namespace that is "" is not made, and its use is a KeyError.
  unfoldable pub add_target :
      String → String → Option (List String) → Option String → Exec (CheckManager V D) (Unit {0})
  add_target target_name namespace conditions description m =
      let spaces = get_or (lookup target_name m.targets) [] in
      let made =
        if truthy namespace && not (has namespace spaces)
        then insert namespace fresh spaces
        else spaces in
      elim (lookup namespace made) [
        | none ↦ (raised (key_error namespace), with_targets m (insert target_name made m.targets))
        | some old ↦ (
          returned tt,
          with_targets m (
              insert target_name
                (insert namespace
                  (record {
                    conditions = conditions;
                    evaluations = [];
                    status = skipped;
                    description = elim (non_empty_text description) [
                      | none ↦ old.description
                      | some text ↦ some text
                    ];
                  })
                  made)
                m.targets),
        )
      ]

  -- A change of a target that must be there.
  unfoldable pub change_target :
      String → String → (Target V → Target V) → Exec (CheckManager V D) (Unit {0})
  change_target target_name namespace f m = elim (at target_name namespace m.targets) [
    | none ↦ (raised (key_error target_name), m)
    | some t ↦ (returned tt, with_targets m (put target_name namespace (f t) m.targets))
  ]

  unfoldable pub set_target_conditions :
      String → Option (List String) → String → Exec (CheckManager V D) (Unit {0})
  unfolding change_target
  set_target_conditions target_name conditions namespace = change_target target_name namespace λ t.
      record {
        conditions = conditions;
        evaluations = t.evaluations;
        status = t.status;
        description = t.description;
      }

  unfoldable pub add_target_conditions :
      String → List String → String → Exec (CheckManager V D) (Unit {0})
  unfolding change_target
  add_target_conditions target_name conditions namespace = change_target target_name namespace λ t.
      record {
        conditions = some (get_or t.conditions [] ++ conditions);
        evaluations = t.evaluations;
        status = t.status;
        description = t.description;
      }

  -- `_process_status`: the status of the target, and the worst one of all.
  unfoldable pub process_status :
      String → CheckTaskStatus → String → Exec (CheckManager V D) (Unit {0})
  process_status target_name status namespace m = elim (at target_name namespace m.targets) [
    | none ↦ (raised (key_error target_name), m)
    | some t ↦ (
      returned tt,
      record {
        check_name = m.check_name;
        check_desc = m.check_desc;
        targets = put target_name namespace (raise_status status t) m.targets;
        target_displays = m.target_displays;
        worst_status = if overrides status m.worst_status then status else m.worst_status;
      },
    )
  ]

  unfoldable pub set_target_status :
      String → CheckTaskStatus → String → Exec (CheckManager V D) (Unit {0})
  unfolding process_status
  set_target_status target_name status namespace = process_status target_name status namespace

  unfoldable pub add_target_eval :
      (V → Bool)
      → String
      → CheckTaskStatus
      → Option V
      → String
      → Option String
      → Option String
      → Exec (CheckManager V D) (Unit {0})
  unfolding change_target process_status
  add_target_eval is_truthy target_name status value namespace resource_name resource_kind =
      change_target target_name namespace (
        append_eval (record {
          status = status;
          name = non_empty_text resource_name;
          value = elim value [ none ↦ none | some v ↦ if is_truthy v then some v else none ];
          kind = non_empty_text resource_kind;
        }))
      >> process_status target_name status namespace

  unfoldable pub add_display : String → D → String → Exec (CheckManager V D) (Unit {0})
  unfolding at put
  add_display target_name display namespace m = (
    returned tt,
    record {
      check_name = m.check_name;
      check_desc = m.check_desc;
      targets = m.targets;
      target_displays =
          put target_name namespace
            (get_or (at target_name namespace m.target_displays) [] ++ display ∷ [])
            m.target_displays;
      worst_status = m.worst_status;
    },
  )
