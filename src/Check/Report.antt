-- ===== src/Check/Report.antt =====
-- azext_edge/edge/providers/check/base/check_manager.py: `as_dict`.
use azure_iot_ops_cli_extens.Base.{
  String, Bool, Option, none, some, List, [], ◌∷◌, if◌then◌else◌, string_eq,
}
use azure_iot_ops_cli_extens.Base.Dict.{Dict, map_values}
use azure_iot_ops_cli_extens.Base.Exec.{key_error, Outcome, returned, raised}
use azure_iot_ops_cli_extens.Check.{CheckTaskStatus}
use azure_iot_ops_cli_extens.Check.Manager.{CheckManager, Target, Nested, at, put}

-- A target of the report, with its displays where they are asked for.
abbrev pub Shown : Type 0 → Type 0 → Type 0
Shown V D = Target V × Option (List D)

pub record Report (V D : Type 0) : Type 0 where
  pub name : String
  pub description : String
  pub targets : Nested (Shown V D)
  pub status : CheckTaskStatus

module _ {V D : Type 0} where
  abbrev without_displays : Dict String (Target V) → Dict String (Shown V D)
  without_displays = map_values (λ t. (t, none))

  -- The loop over the namespaces of a target: displays of a target that is not there are a KeyError.
  unfoldable pub attach_spaces :
      String → Dict String (List D) → Nested (Shown V D) → Outcome (Nested (Shown V D))
  unfolding at put
  attach_spaces target_name [] report = returned report
  attach_spaces target_name ((namespace, displays) ∷ rest) report =
      elim (at target_name namespace report) [
        | none ↦ raised (key_error namespace)
        | some t ↦
            attach_spaces target_name rest (put target_name namespace (t.0, some displays) report)
      ]

  unfoldable pub attach : Nested (List D) → Nested (Shown V D) → Outcome (Nested (Shown V D))
  unfolding attach_spaces
  attach [] report = returned report
  attach ((target_name, spaces) ∷ rest) report = elim (attach_spaces target_name spaces report) [
    | raised e ↦ raised e
    | returned report' ↦ attach rest report'
  ]

  unfoldable pub as_dict : Bool → CheckManager V D → Outcome (Report V D)
  unfolding attach
  as_dict as_list m =
      let targets = map_values without_displays m.targets in
      let report : Nested (Shown V D) → Report V D = λ ts. record {
        name = m.check_name;
        description = m.check_desc;
        targets = ts;
        status = m.worst_status;
      } in
      if as_list
      then elim (attach m.target_displays targets) [
        | raised e ↦ raised e
        | returned ts ↦ returned (report ts)
      ]
      else returned (report targets)
