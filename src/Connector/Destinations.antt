-- ===== src/Connector/Destinations.antt =====
-- `_validate_and_apply_destination`: the destinations of a resource against those that the metadata
-- of its endpoint supports.
use azure_iot_ops_cli_extens.Base.{
  ◌<>◌, Bool, get_or, ◌&&◌, not, List, [], ◌∷◌, if◌then◌else◌, string_eq,
}
use azure_iot_ops_cli_extens.Base.Dict.{lookup}
use azure_iot_ops_cli_extens.Base.Exec.{Exc, validation, Outcome, returned, raised}
use azure_iot_ops_cli_extens.Base.Outcomes.{◌>>=◌, ◌>>◌, raise_if}
use azure_iot_ops_cli_extens.Base.Json.{
  Json, null, arr, obj, Items, dict, entries, elements, is_null, json_truthy, get,
}
use azure_iot_ops_cli_extens.Base.JsonEqual.{is_in}
use azure_iot_ops_cli_extens.Connector.{Host, text}

pub data Kind : Type 0 where
  datasets datapoints events : Kind

-- The loop over the destinations of a resource, by one of them.
abbrev pub dest_target : Json → Json
dest_target (obj fs) = get_or (lookup "target" (entries fs)) null
dest_target _ = null

-- `target and target not in supported`
abbrev pub is_refused : List Json → Json → Bool
is_refused supported dest =
    json_truthy (dest_target dest) && not (is_in (dest_target dest) supported)

-- `dest_meta`
unfoldable pub destinations_of : Kind → Json → Outcome Json
unfolding get
destinations_of datasets endpoint = do
  sets ← get "datasets" (dict []) endpoint
  get "destinations" (dict []) sets
destinations_of datapoints endpoint = do
  sets ← get "datasets" (dict []) endpoint
  points ← get "dataPoints" (dict []) sets
  get "destinations" (dict []) points
destinations_of events endpoint = do
  groups ← get "eventGroups" (dict []) endpoint
  inner ← get "events" (dict []) groups
  get "destinations" (dict []) inner

module _ (H : Host) where
  abbrev unsupported : Items → Json → Exc
  unsupported supported target = validation (
      "Destination target '"
      <> (text H target <> ("' is not supported. Supported: " <> H.show (arr supported))))

  unfoldable pub check_targets : Items → List Json → Outcome (Unit {0})
  check_targets supported [] = returned tt
  check_targets supported (dest ∷ dests) =
      let rest = check_targets supported dests in
      raise_if (is_refused (elements supported) dest) (unsupported supported (dest_target dest))
      >> rest

  -- `existing_destinations`
  unfoldable pub check_existing : Items → Json → Outcome (Unit {0})
  unfolding check_targets
  check_existing supported null = returned tt
  check_existing supported (arr dests) = check_targets supported (elements dests)
  check_existing supported _ = raised (validation "destinations must be an array.")

  unfoldable pub check_supported : Json → Json → Json → Outcome (Unit {0})
  unfolding check_existing get
  check_supported (arr supported) default_dest resource = do
    raise_if (not (is_null default_dest) && not (is_in default_dest (elements supported))) (
        validation (
          "defaultDestination '"
          <> (text H default_dest
              <> ("' is not listed in supportedDestinations: " <> H.show (arr supported)))))
    existing ← get "destinations" null resource
    check_existing supported existing
  check_supported _ default_dest resource =
      raised
        (validation "supportedDestinations must be an array if specified in connector metadata.")

  -- Behind the destinations of the metadata.
  unfoldable pub check_against : Json → Json → Outcome (Unit {0})
  unfolding check_supported
  check_against (obj meta) resource = do
    supported ← get "supportedDestinations" null (obj meta)
    default_dest ← get "defaultDestination" null (obj meta)
    if not (json_truthy supported)
        then returned tt
        else check_supported supported default_dest resource
  check_against _ resource = returned tt

  unfoldable pub validate_and_apply_destination : Kind → Json → Json → Outcome (Unit {0})
  unfolding destinations_of check_against
  validate_and_apply_destination kind endpoint resource = do
    dest_meta ← destinations_of kind endpoint
    check_against dest_meta resource
