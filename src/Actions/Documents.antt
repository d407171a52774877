-- ===== src/Actions/Documents.antt =====
-- The parts of `show` that read the documents of resources that are there.
use azure_iot_ops_cli_extens.Base.{String, true, not, [], ◌∷◌, if◌then◌else◌}
use azure_iot_ops_cli_extens.Base.Exec.{Outcome, returned}
use azure_iot_ops_cli_extens.Base.Outcomes.{◌>>=◌}
use azure_iot_ops_cli_extens.Base.Json.{Json, null, bool, str, arr, nil, dict, json_truthy, get}

-- What `show` reads of a management endpoint that is there.
unfoldable pub endpoint_section : Json → Outcome Json
unfolding get json_truthy
endpoint_section endpoint = if not (json_truthy endpoint) then returned null else (do
  endpoint_type ← get "endpointType" (str "") endpoint
  address ← get "address" (str "") endpoint
  scope ← get "scopeId" (str "") endpoint
  returned
      (dict (("endpointType", endpoint_type) ∷ ("address", address) ∷ ("scopeId", scope) ∷ [])))

-- `properties.topicSpacesConfiguration.hostname` of a namespace of Event Grid
unfoldable pub hostname_of : Json → Outcome Json
unfolding get
hostname_of ns = do
  properties ← get "properties" (dict []) ns
  spaces ← get "topicSpacesConfiguration" (dict []) properties
  get "hostname" (str "") spaces

-- The section of a topic space that is there.
unfoldable pub templates_of : String → String → Json → Outcome Json
unfolding get
templates_of ts_name scope_id found = do
  properties ← get "properties" (dict []) found
  templates ← get "topicTemplates" (arr nil) properties
  returned (
      dict (
        ("name", str ts_name)
        ∷ ("scopeId", str scope_id)
        ∷ ("topicTemplates", templates)
        ∷ ("exists", bool true)
        ∷ []))

-- The section of a permission binding that is there.
unfoldable pub client_group_of : String → Json → Outcome Json
unfolding get
client_group_of name found = do
  properties ← get "properties" (dict []) found
  group ← get "clientGroupName" (str "") properties
  returned (dict (("name", str name) ∷ ("clientGroup", group) ∷ []))

-- `properties.mqttSettings.authentication` of a dataflow endpoint
unfoldable pub authentication_of : Json → Outcome Json
unfolding get
authentication_of found = do
  properties ← get "properties" (dict []) found
  settings ← get "mqttSettings" (dict []) properties
  get "authentication" null settings
