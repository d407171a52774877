-- ===== src/Permissions.antt =====
-- azext_edge/edge/providers/orchestration/permissions.py, on what the authorization client lists, and
-- rp_namespace.py beside it, on what the resource client lists and registers.
pub mod Verdict
use azure_iot_ops_cli_extens.Base.{
  String, Bool, true, false, ◌&&◌, not, Option, none, some, List, [], ◌∷◌, ◌++◌, if◌then◌else◌, any,
  contains, get_or, lower, ◌==◌, string_eq, is_some,
}
use azure_iot_ops_cli_extens.Base.Dict.{Dict, lookup}
use azure_iot_ops_cli_extens.Base.Exec.{
  Exc, validation, Outcome, returned, raised, Exec, ◌>>=◌, ◌>>◌, pure, raise, try_except,
}

-- A missing list of actions is empty.
pub record Permission : Type 0 where
  pub actions : List String
  pub not_actions : List String

abbrev pub valid_perm_forms : List String
valid_perm_forms =
    "*" ∷ "*/write" ∷ "microsoft.authorization/roleassignments/write"
    ∷ "microsoft.authorization/*/write" ∷ []

-- The loop that stops at the first valid action.
unfoldable pub has_valid : List String → Bool
unfolding lower
has_valid actions = any (λ action. contains valid_perm_forms (lower action)) actions

-- The loop of `verify_write_permission_against_rg`.
unfoldable pub verify_write_permission_against_rg : List Permission → Outcome (Unit {0})
unfolding has_valid
verify_write_permission_against_rg [] = raised (
    validation
      "This IoT Operations deployment config includes resource sync rules which require the logged-in principal\nto have permission to write role assignments (Microsoft.Authorization/roleAssignments/write) against the resource group.\n\nRun the command with --enable-rsync False to not include resource sync rules in the deployment.\n")
verify_write_permission_against_rg (p ∷ ps) =
    let rest = verify_write_permission_against_rg ps in
    if has_valid p.actions && not (has_valid p.not_actions) then returned tt else rest

pub data PermissionState : Type 0 where
  action_allowed action_denied action_undefined : PermissionState

unfoldable pub calculate_action : Permission → PermissionState
unfolding has_valid
calculate_action p =
    if has_valid p.actions && not (has_valid p.not_actions)
    then action_allowed
    else if has_valid p.not_actions
    then action_denied
    else action_undefined

-- `action_allowed` of the loop: None, True or False.
abbrev pub note_action : PermissionState → Option Bool → Option Bool
note_action action_allowed (some false) = some false
note_action action_allowed _ = some true
note_action action_denied _ = some false
note_action action_undefined seen = seen

unfoldable pub allowed_loop : List Permission → Option Bool → Option Bool
unfolding calculate_action
allowed_loop [] seen = seen
allowed_loop (p ∷ ps) seen = allowed_loop ps (note_action (calculate_action p) seen)

unfoldable pub can_apply_role_assignment : List Permission → Bool
unfolding allowed_loop
can_apply_role_assignment ps = get_or (allowed_loop ps none) false

pub record RoleAssignment : Type 0 where
  pub role_definition_id : String
  pub principal_id : String
  pub principal_type : Option String

-- The definitions that are assigned, and the assignment to create, if the role is not among them.
unfoldable pub apply_role_assignment :
    List String → String → String → Option String → Option RoleAssignment
apply_role_assignment assigned principal_id role_def_id principal_type =
    if any (λ role. role == role_def_id) assigned
    then none
    else some (record {
      role_definition_id = role_def_id;
      principal_id = principal_id;
      principal_type = principal_type;
    })

-- The resource providers that a deployment requires, and those that it can do without.
abbrev pub rp_namespace_set : List String
rp_namespace_set =
    "Microsoft.IoTOperations" ∷ "Microsoft.SecretSyncController" ∷ "Microsoft.DeviceRegistry" ∷ []

abbrev pub rp_namespace_optional_set : List String
rp_namespace_optional_set = "Microsoft.ResourceHealth" ∷ []

unfoldable pub needs_registration : String → Bool
unfolding lower
needs_registration state = not (contains ("registered" ∷ "registering" ∷ []) (lower state))

-- `providers.get(rp, "")`
abbrev pub state_of : Dict String String → String → String
state_of states rp = get_or (lookup rp states) ""

module _ {S : Type 0} (register : String → Exec S (Unit {0})) where
  -- `_try_register`
  unfoldable pub try_register : String → Bool → Exec S Bool
  try_register rp optional =
      try_except (register rp >>= λ _. pure true) (λ e. if optional then pure false else raise e)

  unfoldable pub register_required : Dict String String → List String → Exec S (Unit {0})
  unfolding try_register needs_registration lookup
  register_required states [] = pure tt
  register_required states (rp ∷ rps) =
      if needs_registration (state_of states rp)
      then (try_register rp false >>= λ _. register_required states rps)
      else register_required states rps

  -- The providers that failed, in the order of the loop.
  unfoldable pub register_optional : Dict String String → List String → Exec S (List String)
  unfolding try_register needs_registration lookup
  register_optional states [] = pure []
  register_optional states (rp ∷ rps) =
      if needs_registration (state_of states rp)
      then (try_register rp true >>= λ done.
          register_optional states rps >>= λ failed. pure (if done then failed else rp ∷ failed))
      else register_optional states rps

  -- The sets are walked in the order given here.
  unfoldable pub register_providers : Dict String String → Option String → Exec S (List String)
  unfolding register_required register_optional
  register_providers states (some rp) = register_required states (rp ∷ []) >>= λ _. pure []
  register_providers states none = register_required states rp_namespace_set >>= λ _.
      register_optional states rp_namespace_optional_set
