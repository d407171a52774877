-- ===== src/Tests/Connectors.antt =====
-- The validation of parts of assets at concrete metadata.
use azure_iot_ops_cli_extens.Base.{
  ℕ, suc, String, ◌≡◌, refl, true, false, ◌&&◌, none, some, [], ◌∷◌, ◌==◌, string_eq, nat_eq, find,
  map,
}
use azure_iot_ops_cli_extens.Base.Dict.{lookup}
use azure_iot_ops_cli_extens.Base.Exec.{returned, is_returned}
use azure_iot_ops_cli_extens.Base.Json.{
  Json, null, pos, str, arr, obj, dict, nil, cons, Fields, end, field, entries, of_elements,
  is_null, get, json_truthy,
}
use azure_iot_ops_cli_extens.Connector.{loaded, contents, conforms, Host, Validator}
use azure_iot_ops_cli_extens.Connector.Fields.{validate_action}
use azure_iot_ops_cli_extens.Connector.Accepted.{
  is_bool, entry, is_action, validate_action-returned,
}
use azure_iot_ops_cli_extens.Connector.Endpoint.{find_endpoint}
use azure_iot_ops_cli_extens.Connector.Matching.{
  Inbound, documents, document_of, result, serves, find_endpoint-find,
}
use azure_iot_ops_cli_extens.Connector.Metadata.{Process, make_metadata_cache_key, get_metadata}
use azure_iot_ops_cli_extens.Connector.Cached.{get_metadata-cached}
use azure_iot_ops_cli_extens.Connector.Destinations.{events, validate_and_apply_destination}
use azure_iot_ops_cli_extens.Connector.Resources.{validate_event}
use azure_iot_ops_cli_extens.Connector.Events.{
  EventEndpoint, is_conforming, validate_event-returned,
}
use azure_iot_ops_cli_extens.Connector.Targets.{
  value, are_supported, Declares, of_events, validate_and_apply_destination-returned,
}

abbrev event_destinations : Fields
event_destinations = field "supportedDestinations" (arr (cons (str "Mqtt") nil)) end

abbrev endpoint_fields : Fields
endpoint_fields = field "endpointType" (str "Acme.Cam") (
    field "version" (str "1") (
      field "eventGroups"
        (dict (("events", dict (("destinations", obj event_destinations) ∷ [])) ∷ []))
        (field "datasets"
          (dict (
            ("datasetConfigurationSchema", dict [])
            ∷ ("destinations", obj event_destinations)
            ∷ []))
          end)))

abbrev metadata_doc : Json
metadata_doc = dict (("inboundEndpoints", arr (cons (obj endpoint_fields) nil)) ∷ [])

-- One template, whose artifact holds the metadata, and a schema that everything meets.
abbrev template_doc : Json
template_doc = dict (
    (
      "properties",
      dict (
          (
            "deviceInboundEndpointTypes",
            arr (cons (dict (("endpointType", str "acme.cam") ∷ ("version", str "1") ∷ [])) nil),
          )
          ∷ ("connectorMetadataRef", str "registry/cam:1")
          ∷ []),
    )
    ∷ [])

abbrev host : Host
host = record {
  World = ℕ;
  Content = Json;
  subscription_id = some "s";
  config_media_type = none;
  schema_folder = "schemas";
  opcua_file = contents (loaded metadata_doc);
  schema_file = contents (loaded (dict []));
  show = λ v. "value";
  loads = λ s. loaded (dict []);
  load_content = λ content. loaded content;
  check = λ instance_doc schema. conforms;
  list_templates = λ group name w. (returned (template_doc ∷ []), suc w);
  fetch_first_layer = λ ref media w. (returned metadata_doc, suc w);
  get_device = λ sub group ns name w. (returned (dict []), suc w);
}

abbrev camera : Validator
camera = record {
  resource_group_name = some "g";
  instance_name = some "aio";
  endpoint_type = some "ACME.cam";
  endpoint_version = some "1";
  metadata = metadata_doc;
  matched_endpoint = null;
}

abbrev fresh_process : Process host
fresh_process = record { world = 0; metadata_cache = []; schema_cache = null }

get_metadata-cached_example :
    ((j : String)
      → (j == make_metadata_cache_key host camera) ≡ false
      → lookup j (get_metadata host camera fresh_process).1.metadata_cache
        ≡ lookup j fresh_process.metadata_cache)
    × ((m : Json)
        → (get_metadata host camera fresh_process).0 ≡ returned m
        → is_null m ≡ false
        → get_metadata host camera (get_metadata host camera fresh_process).1
          ≡ (returned m, (get_metadata host camera fresh_process).1))
get_metadata-cached_example = get_metadata-cached host camera fresh_process

abbrev action_fields : Fields
action_fields = field "name" (str "stop") (
    field "targetUri" (str "/stop")
      (field "timeoutInSeconds" (pos 30) (field "actionType" (str "Call") end)))

no_bool : is_bool (entry "timeoutInSeconds" null action_fields) ≡ false
unfolding lookup string_eq
no_bool = refl

validate_action-returned_example :
    is_returned (validate_action host (obj action_fields)) ≡ is_action host action_fields
validate_action-returned_example = validate_action-returned host action_fields no_bool

endpoint_fields-type : lookup "endpointType" (entries endpoint_fields) ≡ some (str "Acme.Cam")
unfolding lookup string_eq
endpoint_fields-type = refl

abbrev cam : Inbound
cam = record {
  document = endpoint_fields;
  endpoint_type = "Acme.Cam";
  is_type = endpoint_fields-type;
}

-- An endpoint of the same type and another version stands before it.
abbrev old_fields : Fields
old_fields = field "endpointType" (str "acme.cam") (field "version" (str "0") end)

old_fields-type : lookup "endpointType" (entries old_fields) ≡ some (str "acme.cam")
unfolding lookup string_eq
old_fields-type = refl

abbrev old_cam : Inbound
old_cam = record { document = old_fields; endpoint_type = "acme.cam"; is_type = old_fields-type }

abbrev both_doc : Json
both_doc =
    dict (("inboundEndpoints", arr (cons (obj old_fields) (cons (obj endpoint_fields) nil))) ∷ [])

abbrev both : Validator
both = record camera { metadata = both_doc }

inbound_known :
    get "inboundEndpoints" (arr nil) both_doc
    ≡ returned (arr (of_elements (documents (old_cam ∷ cam ∷ []))))
unfolding get lookup string_eq
inbound_known = refl

find_endpoint-find_example :
    result (find_endpoint host both)
    ≡ document_of (find (serves host both "ACME.cam") (old_cam ∷ cam ∷ []))
find_endpoint-find_example =
    find_endpoint-find host both "ACME.cam" refl (old_cam ∷ cam ∷ []) refl inbound_known

abbrev event_fields : Fields
event_fields =
    field "name" (str "e")
      (field "destinations" (arr (cons (dict (("target", str "Storage") ∷ [])) nil)) end)

abbrev event_schema : Json
event_schema = dict (("type", str "object") ∷ [])

abbrev inner_fields : Fields
inner_fields =
    field "eventConfigurationSchema" event_schema
      (field "destinations" (obj event_destinations) end)

abbrev group_fields : Fields
group_fields = field "events" (obj inner_fields) end

abbrev matched_fields : Fields
matched_fields = field "endpointType" (str "acme.cam") (field "eventGroups" (obj group_fields) end)

event_known : Declares matched_fields event_destinations events
unfolding lookup string_eq
event_known = of_events {groups = group_fields} {inner = inner_fields} refl refl refl

event_supported :
    lookup "supportedDestinations" (entries event_destinations)
    ≡ some (arr (of_elements (map str ("Mqtt" ∷ []))))
unfolding lookup string_eq
event_supported = refl

no_default : lookup "defaultDestination" (entries event_destinations) ≡ none
unfolding lookup string_eq
no_default = refl

validate_and_apply_destination-returned_example :
    is_returned (validate_and_apply_destination host events (obj matched_fields) (obj event_fields))
    ≡ are_supported ("Mqtt" ∷ []) (value "destinations" event_fields)
validate_and_apply_destination-returned_example =
    validate_and_apply_destination-returned host events matched_fields event_destinations "Mqtt" []
      event_fields event_known event_supported no_default

matched_fields-EventEndpoint : EventEndpoint matched_fields event_schema "Mqtt" []
unfolding lookup string_eq json_truthy
matched_fields-EventEndpoint = record {
  groups = group_fields;
  inner = inner_fields;
  meta = event_destinations;
  has_groups = refl;
  has_events = refl;
  has_schema = refl;
  has_destinations = refl;
  has_supported = refl;
  no_default = refl;
  is_there = refl;
  is_schema = refl;
}

abbrev matched : Validator
matched = record camera { matched_endpoint = obj matched_fields }

abbrev rate_fields : Fields
rate_fields = field "rate" (pos 1) end

abbrev rated_event : Fields
rated_event = field "eventConfiguration" (obj rate_fields) event_fields

rated : lookup "eventConfiguration" (entries rated_event) ≡ some (obj rate_fields)
unfolding lookup string_eq
rated = refl

rate_truthy : json_truthy (obj rate_fields) ≡ true
unfolding json_truthy
rate_truthy = refl

validate_event-returned_example :
    ((validate_event host (obj rated_event) matched).1 ≡ matched)
    × (is_returned (validate_event host (obj rated_event) matched).0 ≡ (
        is_conforming (host.check (obj rate_fields) event_schema)
        && are_supported ("Mqtt" ∷ []) (value "destinations" rated_event)))
validate_event-returned_example =
    validate_event-returned host matched_fields event_schema "Mqtt" [] matched_fields-EventEndpoint
      matched refl rated_event rate_fields refl rated rate_truthy
