-- ===== src/Connector/Templates.antt =====
-- The loop of `_get_metadata` over the connector templates, up to the first that matches.
use azure_iot_ops_cli_extens.Base.{
  Bool, true, false, not, Option, none, some, List, [], ◌∷◌, if◌then◌else◌, ◌==◌, string_eq, lower,
  truthy,
}
use azure_iot_ops_cli_extens.Base.Exec.{Outcome, returned}
use azure_iot_ops_cli_extens.Base.Outcomes.{◌>>=◌}
use azure_iot_ops_cli_extens.Base.Json.{
  Json, null, dict, arr, of_elements, json_truthy, get, list_of,
}
use azure_iot_ops_cli_extens.Connector.{Host, Validator, text, present, lowerable}

module _ (H : Host) (v : Validator) where
  -- A device that names a version wants the same one.
  abbrev pub version_matches : Json → Bool
  version_matches ev = elim v.endpoint_version [
    | none ↦ true
    | some version ↦
        if truthy version then if json_truthy ev then text H ev == version else false else true
  ]

  unfoldable pub matches_info : Json → Outcome Bool
  unfolding lower
  matches_info info = do
    et ← get "endpointType" null info
    ev ← get "version" null info
    if not (json_truthy et) then returned false else (do
      name ← lowerable et
      own ← present v.endpoint_type
      returned (if lower name == lower own then version_matches ev else false))

  unfoldable pub matches_any : List Json → Outcome Bool
  unfolding matches_info
  matches_any [] = returned false
  matches_any (info ∷ infos) =
      let rest = matches_any infos in
      do found ← matches_info info; if found then returned true else rest

  unfoldable pub matches_template : Json → Outcome Bool
  unfolding matches_any
  matches_template template = do
    properties ← get "properties" (dict []) template
    types ← get "deviceInboundEndpointTypes" (arr (of_elements [])) properties
    infos ← list_of types
    matches_any infos

  unfoldable pub match_templates : List Json → Outcome (Option Json)
  unfolding matches_template
  match_templates [] = returned none
  match_templates (template ∷ templates) =
      let rest = match_templates templates in
      do found ← matches_template template; if found then returned (some template) else rest
