-- ===== src/Connector/Resources.antt =====
-- `validate_dataset`, `validate_datapoint`, `validate_event` and `validate_event_group`.
use azure_iot_ops_cli_extens.Base.{String, ◌<>◌, if◌then◌else◌}
use azure_iot_ops_cli_extens.Base.Exec.{Exec, ◌>>=◌, ◌>>◌, pure}
use azure_iot_ops_cli_extens.Base.Outcomes.{lift}
use azure_iot_ops_cli_extens.Base.Json.{Json, null, str, is_null, get}
use azure_iot_ops_cli_extens.Connector.{Host, Validator, text}
use azure_iot_ops_cli_extens.Connector.Endpoint.{
  schema_key_dataset, schema_key_datapoint, schema_key_event, schema_key_event_group,
  get_endpoint_metadata, schema_of,
}
use azure_iot_ops_cli_extens.Connector.Config.{parse_config, validate_by}
use azure_iot_ops_cli_extens.Connector.Destinations.{
  Kind, datasets, datapoints, events, validate_and_apply_destination,
}

abbrev pub config_key_dataset : String
config_key_dataset = "datasetConfiguration"

abbrev pub config_key_datapoint : String
config_key_datapoint = "dataPointConfiguration"

abbrev pub config_key_event : String
config_key_event = "eventConfiguration"

abbrev pub config_key_event_group : String
config_key_event_group = "eventGroupConfiguration"

module _ (H : Host) where
  -- `_get_schema`
  unfoldable pub get_schema : String → Exec Validator Json
  unfolding get_endpoint_metadata schema_of
  get_schema schema_key v =
      (do endpoint ← get_endpoint_metadata H; lift (schema_of H v schema_key endpoint)) v

  -- `_validate_and_apply_destination`, with the endpoint that `self` gives.
  unfoldable pub apply_destination : Kind → Json → Exec Validator (Unit {0})
  unfolding get_endpoint_metadata validate_and_apply_destination
  apply_destination kind resource = do
    endpoint ← get_endpoint_metadata H
    lift (validate_and_apply_destination H kind endpoint resource)

  -- The rest of a method, with the schema of a key, behind the parsing of the configuration.
  unfoldable pub check_config :
      String → String → Json → Exec Validator (Unit {0}) → Exec Validator (Unit {0})
  unfolding get_schema validate_by
  check_config schema_key resource_name config rest = if is_null config then pure tt else (do
    schema ← get_schema schema_key
    lift (validate_by H config schema resource_name)
    rest)

  abbrev skip_without_metadata : Exec Validator (Unit {0}) → Exec Validator (Unit {0})
  skip_without_metadata rest v = if is_null v.metadata then pure tt v else rest v

  unfoldable pub validate_dataset : Json → Exec Validator (Unit {0})
  unfolding check_config apply_destination parse_config
  validate_dataset dataset = skip_without_metadata (do
    config ← lift (parse_config H dataset config_key_dataset "dataset" null)
    check_config schema_key_dataset "Dataset" config (apply_destination datasets config))

  unfoldable pub validate_datapoint : Json → Exec Validator (Unit {0})
  unfolding check_config apply_destination parse_config
  validate_datapoint datapoint = skip_without_metadata (do
    name ← lift (get "name" (str "unnamed") datapoint)
    config ←
        lift (
          parse_config H datapoint config_key_datapoint ("datapoint '" <> (text H name <> "'"))
            null)
    check_config schema_key_datapoint "Datapoint" config (apply_destination datapoints config))

  unfoldable pub validate_event : Json → Exec Validator (Unit {0})
  unfolding check_config apply_destination parse_config
  validate_event event = skip_without_metadata (do
    name ← lift (get "name" (str "unnamed") event)
    config ← lift (parse_config H event config_key_event ("event '" <> (text H name <> "'")) null)
    check_config schema_key_event "Event" config (apply_destination events event))

  unfoldable pub validate_event_group : Json → Exec Validator (Unit {0})
  unfolding check_config parse_config
  validate_event_group event_group = skip_without_metadata (do
    name ← lift (get "name" (str "unnamed") event_group)
    config ← lift (
        parse_config H event_group config_key_event_group ("event-group '" <> (text H name <> "'"))
          null)
    check_config schema_key_event_group "Event-group" config (pure tt))
