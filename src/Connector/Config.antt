-- ===== src/Connector/Config.antt =====
-- `_parse_config` and `_validate`: the configuration of a resource, and its check by a schema.
use azure_iot_ops_cli_extens.Base.{String, ◌<>◌, not, [], if◌then◌else◌}
use azure_iot_ops_cli_extens.Base.Exec.{validation, value_error, Outcome, returned, raised}
use azure_iot_ops_cli_extens.Base.Outcomes.{◌>>=◌}
use azure_iot_ops_cli_extens.Base.Json.{Json, null, str, dict, json_truthy, get, is_key}
use azure_iot_ops_cli_extens.Connector.{
  loaded, malformed, undecodable, conforms, invalid, bad_schema, Host,
}

module _ (H : Host) where
  -- `_parse_config`: None is the document `null`.
  unfoldable pub parse_config : Json → String → String → Json → Outcome Json
  unfolding get is_key json_truthy
  parse_config data_doc config_key resource_name default_if_empty =
      is_key config_key data_doc >>= λ found.
      if not found
      then returned (if json_truthy default_if_empty then default_if_empty else dict [])
      else (get config_key null data_doc >>= λ config.
          if not (json_truthy config) then returned default_if_empty else elim config [
            | str s ↦ elim (H.loads s) [
              | loaded v ↦ returned v
              | malformed e ↦ raised (
                  validation (
                    "Invalid " <> (config_key <> (" JSON for " <> (resource_name <> (": " <> e))))))
              | undecodable e ↦ raised (value_error e)
            ]
            | other ↦ returned other
          ])

  -- `_validate`
  unfoldable pub validate_by : Json → Json → String → Outcome (Unit {0})
  validate_by config schema resource_name = elim (H.check config schema) [
    | conforms ↦ returned tt
    | invalid e ↦ raised (validation (resource_name <> (" configuration is invalid: " <> e)))
    | bad_schema e ↦ raised (validation (resource_name <> (" schema is invalid: " <> e)))
  ]
