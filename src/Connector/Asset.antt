-- ===== src/Connector/Asset.antt =====
-- `from_asset`: the validator of an asset, by the endpoint of the device that it names.
use azure_iot_ops_cli_extens.Base.{
  String, ◌<>◌, Bool, ◌&&◌, ◌||◌, not, Option, none, some, List, [], ◌∷◌, if◌then◌else◌, ◌==◌,
  string_eq, lower, truthy, get_or,
}
use azure_iot_ops_cli_extens.Base.Exec.{Exc, validation, Exec, ◌>>=◌, ◌>>◌, pure}
use azure_iot_ops_cli_extens.Base.Outcomes.{lift, raise_if}
use azure_iot_ops_cli_extens.Base.Json.{Json, null, str, is_null, json_truthy, get, text_of}
use azure_iot_ops_cli_extens.ResourceId.{Child, Parts, Parsed, matched, parse_resource_id}
use azure_iot_ops_cli_extens.Connector.{Host, Validator, text, or_default}
use azure_iot_ops_cli_extens.Connector.Metadata.{Process, call, get_metadata}
use azure_iot_ops_cli_extens.Connector.Device.{device_reference, inbound_endpoints}

-- `asset_id.get("child_type_1")`
abbrev pub first_child_type : List Child → Option String
first_child_type [] = none
first_child_type (c ∷ cs) = some c.type

abbrev pub is_asset_id : Parts → Bool
is_asset_id p =
    (lower (or_default p.namespace "") == "microsoft.deviceregistry")
    && ((lower (or_default p.type "") == "namespaces")
        && (lower (or_default (first_child_type p.children) "") == "assets"))

-- `namespace_name`
unfoldable pub asset_namespace : Parsed → Option String
unfolding lower
asset_namespace (matched p) = if is_asset_id p then p.name else none
asset_namespace _ = none

abbrev pub asset_group : Parsed → Option String
asset_group (matched p) = p.resource_group
asset_group _ = none

abbrev pub subscription_of : Parsed → Option String
subscription_of (matched p) = some p.subscription
subscription_of _ = none

abbrev no_namespace : String → Exc
no_namespace asset_id = validation (
    "Could not extract namespace from asset ID: "
    <> (asset_id <> ". Expected format: .../namespaces/{namespace}/assets/{asset}"))

abbrev no_reference : Exc
no_reference =
    validation
      "Asset must reference a device and endpoint via deviceRef.deviceName and deviceRef.endpointName"

abbrev no_endpoint : Host → Json → Json → Exc
no_endpoint H device_name endpoint_name = validation (
    "Device '"
    <> (text H device_name
        <> ("' does not have inbound endpoint '" <> (text H endpoint_name <> "'."))))

-- The versions of endpoints are texts.
abbrev pub version_of : Host → Json → Option String
version_of H v = if is_null v then none else some (text H v)

module _ (H : Host) where
  -- `__init__`
  unfoldable pub new_validator :
      Option String → Option String → Option String → Option String → Exec (Process H) Validator
  unfolding get_metadata
  new_validator resource_group_name instance_name endpoint_type endpoint_version = do
    let fresh : Validator = record {
      resource_group_name = resource_group_name;
      instance_name = instance_name;
      endpoint_type = endpoint_type;
      endpoint_version = endpoint_version;
      metadata = null;
      matched_endpoint = null;
    }
    metadata ← get_metadata H fresh
    pure (record fresh { metadata = metadata })

  -- Behind the endpoint of the device.
  unfoldable pub from_endpoint : String → String → Json → Json → Exec (Process H) Validator
  unfolding new_validator
  from_endpoint instance_name group endpoint_name endpoint = do
    endpoint_type ← lift (get "endpointType" null endpoint)
    endpoint_version ← lift (get "version" null endpoint)
    lift (
        raise_if (not (json_truthy endpoint_type)) (
          validation
            ("Endpoint '" <> (text H endpoint_name <> "' does not have endpointType specified."))))
    type_text ← lift (text_of endpoint_type)
    new_validator (some group) (some instance_name) (some type_text) (version_of H endpoint_version)

  -- Behind the parsing of the id.
  unfoldable pub from_parsed : Json → String → Parsed → String → String → Exec (Process H) Validator
  unfolding from_endpoint device_reference inbound_endpoints asset_namespace call
  from_parsed asset asset_id parsed instance_name group = do
    let namespace_name = get_or (asset_namespace parsed) ""
    lift (raise_if (not (truthy namespace_name)) (no_namespace asset_id))
    device_ref ← lift (device_reference asset)
    device_name ← lift (get "deviceName" null device_ref)
    endpoint_name ← lift (get "endpointName" null device_ref)
    lift (raise_if (not (json_truthy device_name) || not (json_truthy endpoint_name)) no_reference)
    device_text ← lift (text_of device_name)
    endpoint_text ← lift (text_of endpoint_name)
    device ←
        call H
          (H.get_device (subscription_of parsed) (asset_group parsed) namespace_name device_text)
    inbound ← lift (inbound_endpoints device)
    endpoint ← lift (get endpoint_text null inbound)
    lift (raise_if (not (json_truthy endpoint)) (no_endpoint H device_name endpoint_name))
    from_endpoint instance_name group endpoint_name endpoint

  -- The instance's name, then its resource group.
  unfoldable pub from_asset : Json → String → String → Exec (Process H) Validator
  unfolding from_parsed
  from_asset asset instance_name group = do
    found ← lift (get "id" (str "") asset)
    lift (raise_if (not (json_truthy found)) (validation "Asset does not have an ID."))
    asset_id ← lift (text_of found)
    from_parsed asset asset_id (parse_resource_id asset_id) instance_name group
