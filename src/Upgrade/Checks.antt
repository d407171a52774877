-- ===== src/Upgrade/Checks.antt =====
-- `_check_default_registry_needed` and `_check_opcua_connector_template_needed` of the manager, on
-- what the client's listing gives.
use azure_iot_ops_cli_extens.Base.{
  String, Bool, true, false, not, Option, none, List, [], ◌∷◌, if◌then◌else◌, any, ◌==◌, string_eq,
  get_or, lower,
}
use text.Mathlib.Text.{starts_with}
use azure_iot_ops_cli_extens.Base.Exec.{http_error, not_found, Outcome, returned, raised}
use azure_iot_ops_cli_extens.Upgrade.{
  opcua_connector_template_name_prefix, provisioning_state_failed,
}

-- A connector template, by `get`.
pub record Template : Type 0 where
  pub name : Option String
  pub provisioning_state : Option String

-- `except HttpResponseError`, of which a resource that is not found is one.
abbrev pub on_http_error {ℓ} : {A : Type ℓ} → A → Outcome A → Outcome A
on_http_error answer (raised (http_error _ _)) = returned answer
on_http_error answer (raised (not_found _)) = returned answer
on_http_error answer o = o

abbrev pub map_outcome {ℓ} : {A B : Type ℓ} → (A → B) → Outcome A → Outcome B
map_outcome f (returned a) = returned (f a)
map_outcome f (raised e) = raised e

-- The names of the endpoints.
unfoldable pub check_default_registry_needed : Outcome (List String) → Outcome Bool
unfolding lower
check_default_registry_needed listing =
    on_http_error false
      (map_outcome (λ names. not (any (λ name. lower name == "default") names)) listing)

abbrev pub is_opcua_template : Template → Bool
is_opcua_template t = starts_with (lower (get_or t.name "")) opcua_connector_template_name_prefix

-- The loop: the first template with the prefix decides.
unfoldable pub template_verdict : List Template → Bool × Option String
unfolding lower
template_verdict [] = (true, none)
template_verdict (t ∷ ts) =
    if not (is_opcua_template t)
    then template_verdict ts
    else if lower (get_or t.provisioning_state "") == lower provisioning_state_failed
    then (true, t.name)
    else (false, none)

unfoldable pub check_opcua_connector_template_needed :
    Outcome (List Template) → Outcome (Bool × Option String)
unfolding template_verdict
check_opcua_connector_template_needed listing =
    on_http_error (false, none) (map_outcome template_verdict listing)
