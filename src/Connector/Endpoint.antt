-- ===== src/Connector/Endpoint.antt =====
-- `_get_endpoint_metadata` and `_get_schema`: the endpoint of the metadata, and a schema in it.
use azure_iot_ops_cli_extens.Base.{
  String, ◌<>◌, Bool, true, false, not, Option, none, some, List, [], ◌∷◌, if◌then◌else◌, ◌==◌,
  string_eq, lower, nonempty, get_or,
}
use azure_iot_ops_cli_extens.Base.Dict.{Dict, lookup}
use azure_iot_ops_cli_extens.Base.Exec.{Exc, validation, Outcome, returned, raised, Exec}
use azure_iot_ops_cli_extens.Base.Outcomes.{◌>>=◌, ◌>>◌, raise_if}
use azure_iot_ops_cli_extens.Base.Json.{
  Json, null, str, arr, obj, dict, entries, of_elements, is_null, json_truthy, get, list_of,
}
use azure_iot_ops_cli_extens.Connector.{Host, Validator, text, option_text, present, lowerable}

abbrev pub schema_key_dataset : String
schema_key_dataset = "datasetConfigurationSchema"

abbrev pub schema_key_datapoint : String
schema_key_datapoint = "dataPointConfigurationSchema"

abbrev pub schema_key_event : String
schema_key_event = "eventConfigurationSchema"

abbrev pub schema_key_event_group : String
schema_key_event_group = "eventGroupConfigurationSchema"

-- `_init_schema_paths`
abbrev pub schema_paths : Dict String (List String)
schema_paths =
    (schema_key_dataset, "datasets" ∷ schema_key_dataset ∷ [])
    ∷ (schema_key_datapoint, "datasets" ∷ "dataPoints" ∷ schema_key_datapoint ∷ [])
    ∷ (schema_key_event, "eventGroups" ∷ "events" ∷ schema_key_event ∷ [])
    ∷ (schema_key_event_group, "eventGroups" ∷ schema_key_event_group ∷ [])
    ∷ ("additionalConfigurationSchema", "additionalConfigurationSchema" ∷ [])
    ∷ (
      "actionConfigurationSchema",
      "managementGroups" ∷ "managementGroupActions" ∷ "actionConfigurationSchema" ∷ [],
    )
    ∷ (
      "managementGroupConfigurationSchema",
      "managementGroups" ∷ "managementGroupConfigurationSchema" ∷ [],
    )
    ∷ []

-- The loop over a path; what is no dict has no schema below it.
unfoldable pub walk : List String → Json → Json
walk [] schema = schema
walk (key ∷ []) (obj fs) = get_or (lookup key (entries fs)) null
walk (key ∷ other ∷ keys) (obj fs) =
    walk (other ∷ keys) (get_or (lookup key (entries fs)) (dict []))
walk (key ∷ keys) _ = null

module _ (H : Host) (v : Validator) where
  -- Versions are compared where both sides have one.
  abbrev pub compatible : Json → Bool
  compatible ev = elim v.endpoint_version [
    | none ↦ true
    | some version ↦ if is_null ev then true else text H ev == version
  ]

  -- One turn of the loop, up to its `continue`.
  unfoldable pub is_match : Json → Outcome Bool
  unfolding lower
  is_match endpoint = do
    et ← get "endpointType" null endpoint
    if not (json_truthy et) then returned false else (do
      name ← lowerable et
      own ← present v.endpoint_type
      if lower name == lower own
          then (do ev ← get "version" null endpoint; returned (compatible ev))
          else returned false)

  unfoldable pub first_match : List Json → Outcome (Option Json)
  unfolding is_match
  first_match [] = returned none
  first_match (endpoint ∷ endpoints) =
      let rest = first_match endpoints in
      do found ← is_match endpoint; if found then returned (some endpoint) else rest

  unfoldable pub descriptions : List Json → Outcome (List Json)
  descriptions [] = returned []
  descriptions (endpoint ∷ endpoints) =
      let rest = descriptions endpoints in
      do
        et ← get "endpointType" null endpoint
        ev ← get "version" null endpoint
        more ← rest
        returned (str ("type=" <> (text H et <> (", version=" <> text H ev))) ∷ more)

  abbrev unavailable : List Json → Exc
  unavailable available = validation (
      "Connector metadata unavailable for requested endpoint: type='"
      <> (option_text v.endpoint_type
          <> ("', version='"
              <> (option_text v.endpoint_version
                  <> ("'. Available inbound endpoints: "
                      <> (if nonempty available
                          then H.show (arr (of_elements available))
                          else "none found"))))))

  -- Behind the test for an endpoint that was matched before.
  unfoldable pub find_endpoint : Outcome Json
  unfolding first_match descriptions
  find_endpoint =
      if is_null v.metadata
      then raised (validation "Cannot get endpoint metadata: connector metadata is not available.")
      else (do
        inbound ← get "inboundEndpoints" (arr (of_elements [])) v.metadata
        endpoints ← list_of inbound
        found ← first_match endpoints
        elim found [
          | some endpoint ↦ returned endpoint
          | none ↦ descriptions endpoints >>= λ available. raised (unavailable available)
        ])

-- `self._matched_endpoint = endpoint`
abbrev pub with_endpoint : Validator → Json → Validator
with_endpoint v endpoint = record v { matched_endpoint = endpoint }

module _ (H : Host) where
  unfoldable pub get_endpoint_metadata : Exec Validator Json
  unfolding find_endpoint
  get_endpoint_metadata v =
      if json_truthy v.matched_endpoint
      then (returned v.matched_endpoint, v)
      else elim (find_endpoint H v) [
        | returned endpoint ↦ (returned endpoint, with_endpoint v endpoint)
        | raised e ↦ (raised e, v)
      ]

  abbrev no_schema : Validator → String → Exc
  no_schema v schema_key = validation (
      "Connector metadata is missing '"
      <> (schema_key
          <> ("' for endpoint type '"
              <> (option_text v.endpoint_type
                  <> ("' version '" <> (option_text v.endpoint_version <> "'."))))))

  -- The schema under a key of an endpoint.
  unfoldable pub schema_of : Validator → String → Json → Outcome Json
  unfolding walk
  schema_of v schema_key endpoint = elim (lookup schema_key schema_paths) [
    | none ↦ raised (validation ("Unknown schema key: '" <> (schema_key <> "'")))
    | some path ↦ (do
      raise_if (is_null (walk path endpoint)) (no_schema v schema_key)
      returned (walk path endpoint))
  ]
