-- ===== src/Connector/Events.antt =====
-- What `validate_event` accepts where the endpoint of the metadata is known.
use azure_iot_ops_cli_extens.Base.{
  String, ◌≡◌, refl, Bool, true, false, ◌&&◌, none, some, sym, arith, List, [], ◌∷◌, map, string_eq,
}
use azure_iot_ops_cli_extens.Base.Dict.{lookup}
use azure_iot_ops_cli_extens.Base.Exec.{Outcome, Exec, returned, raised, is_returned, ◌>>=◌, ◌>>◌}
use azure_iot_ops_cli_extens.Base.Outcomes.{lift}
use azure_iot_ops_cli_extens.Base.Json.{
  Json, str, arr, obj, Fields, entries, of_elements, is_null, json_truthy, get, is_key,
}
use azure_iot_ops_cli_extens.Connector.{Verdict, conforms, Host, Validator}
use azure_iot_ops_cli_extens.Connector.Config.{parse_config, validate_by}
use azure_iot_ops_cli_extens.Connector.Destinations.{events}
use azure_iot_ops_cli_extens.Connector.Endpoint.{get_endpoint_metadata, schema_of, walk}
use azure_iot_ops_cli_extens.Connector.Resources.{
  get_schema, apply_destination, check_config, validate_event,
}
use azure_iot_ops_cli_extens.Connector.Targets.{
  value, are_supported, of_events, validate_and_apply_destination-returned,
}

-- What an endpoint says of its events: the schema of their configuration, and the texts of the
-- destinations that they may have, of which none is the default.
pub record EventEndpoint (endpoint : Fields) (schema : Json) (t : String) (ts : List String)
    : Type 0 where
  pub groups : Fields
  pub inner : Fields
  pub meta : Fields
  pub has_groups : lookup "eventGroups" (entries endpoint) ≡ some (obj groups)
  pub has_events : lookup "events" (entries groups) ≡ some (obj inner)
  pub has_schema : lookup "eventConfigurationSchema" (entries inner) ≡ some schema
  pub has_destinations : lookup "destinations" (entries inner) ≡ some (obj meta)
  pub has_supported :
      lookup "supportedDestinations" (entries meta) ≡ some (arr (of_elements (map str (t ∷ ts))))
  pub no_default : lookup "defaultDestination" (entries meta) ≡ none
  pub is_there : json_truthy (obj endpoint) ≡ true
  pub is_schema : is_null schema ≡ false

abbrev pub is_conforming : Verdict → Bool
is_conforming conforms = true
is_conforming _ = false

-- A statement that leaves the validator as it is, behind a check.
lift_then-returned :
    (o : Outcome (Unit {0})) (k : Exec Validator (Unit {0})) (v : Validator) {b c : Bool}
    → is_returned o ≡ b
    → ((k v).1 ≡ v) × (is_returned (k v).0 ≡ c)
    → (((lift o >> k) v).1 ≡ v) × (is_returned ((lift o >> k) v).0 ≡ (b && c))
unfolding ◌>>=◌
lift_then-returned (returned tt) k v h l = rw (sym h) l
lift_then-returned (raised e) k v h l = rw (sym h) (refl, refl)

validate_by-conforming :
    (H : Host) (config schema : Json) (name : String)
    → is_returned (validate_by H config schema name) ≡ is_conforming (H.check config schema)
unfolding validate_by
validate_by-conforming H config schema name = ground arith

module _ (H : Host) (endpoint : Fields) (schema : Json) (t : String) (ts : List String)
    (E : EventEndpoint endpoint schema t ts) where
  module _ (v : Validator) (known : v.matched_endpoint ≡ obj endpoint) where
    gives_endpoint : get_endpoint_metadata H v ≡ (returned (obj endpoint), v)
    unfolding get_endpoint_metadata
    gives_endpoint = rw (known, E.is_there) refl

    has_path :
        walk ("eventGroups" ∷ "events" ∷ "eventConfigurationSchema" ∷ []) (obj endpoint) ≡ schema
    unfolding walk
    has_path = rw (walk, E.has_groups, walk, E.has_events, walk, E.has_schema) refl

    knows_schema : schema_of H v "eventConfigurationSchema" (obj endpoint) ≡ returned schema
    unfolding schema_of lookup string_eq
    knows_schema = rw (has_path, E.is_schema) refl

    gives_schema : get_schema H "eventConfigurationSchema" v ≡ (returned schema, v)
    unfolding get_schema ◌>>=◌
    gives_schema = rw (gives_endpoint, knows_schema) refl

    apply_destination-returned :
        (fs : Fields)
        → ((apply_destination H events (obj fs) v).1 ≡ v)
          × (is_returned (apply_destination H events (obj fs) v).0
              ≡ are_supported (t ∷ ts) (value "destinations" fs))
    unfolding apply_destination ◌>>=◌
    apply_destination-returned fs = rw gives_endpoint (
      refl,
      validate_and_apply_destination-returned H events endpoint E.meta t ts fs
          (of_events E.has_groups E.has_events E.has_destinations) E.has_supported E.no_default,
    )

    -- Where the endpoint of the metadata is known and has a schema for events and texts as their
    -- destinations, none of them the default, and the event has a configuration that is a dict and
    -- not empty, `validate_event` returns exactly if the configuration conforms to the schema and
    -- the event has no destinations, or a list of them in which each target is missing, a value
    -- that is false in Python, or one of the texts; it leaves the validator as it is.
    pub validate_event-returned :
        (fs cs : Fields)
        → is_null v.metadata ≡ false
        → lookup "eventConfiguration" (entries fs) ≡ some (obj cs)
        → json_truthy (obj cs) ≡ true
        → ((validate_event H (obj fs) v).1 ≡ v)
          × (is_returned (validate_event H (obj fs) v).0 ≡ (
              is_conforming (H.check (obj cs) schema)
              && are_supported (t ∷ ts) (value "destinations" fs)))
    unfolding validate_event check_config ◌>>=◌ parse_config get is_key validate_by
    validate_event-returned fs cs m c n =
        rw (m, c, n, gives_schema)
          (lift_then-returned (validate_by H (obj cs) schema "Event")
            (apply_destination H events (obj fs)) v
            (validate_by-conforming H (obj cs) schema "Event") (apply_destination-returned fs))
