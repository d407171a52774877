-- ===== src/Connector/Metadata.antt =====
-- `_get_metadata`: the metadata of a connector from the cache, from the file for OPC UA, or from the
-- registry that the matching template names.
use azure_iot_ops_cli_extens.Base.{
  String, ◌<>◌, Bool, true, ◌&&◌, not, Option, none, some, [], ◌∷◌, if◌then◌else◌, ◌==◌, string_eq,
  nat_eq, lower, join, blank,
}
use azure_iot_ops_cli_extens.Base.Dict.{Dict, lookup, insert}
use azure_iot_ops_cli_extens.Base.Exec.{
  validation, value_error, Outcome, returned, raised, Exec, ◌>>=◌, ◌>>◌, pure,
}
use azure_iot_ops_cli_extens.Base.Outcomes
use azure_iot_ops_cli_extens.Base.Outcomes.{lift}
use azure_iot_ops_cli_extens.Base.Json.{
  Json, null, dict, arr, of_elements, is_null, json_truthy, get, is_key, keys_of, json_len, text_of,
}
use azure_iot_ops_cli_extens.Connector.{
  loaded, malformed, undecodable, absent, unreadable, contents, conforms, invalid, bad_schema, Host,
  Validator, or_default,
}
use azure_iot_ops_cli_extens.Connector.Templates.{match_templates}

abbrev pub endpoint_type_opcua : String
endpoint_type_opcua = "microsoft.opcua"

abbrev pub default_config_media_type : String
default_config_media_type = "application/vnd.microsoft.akri-connector.v1+json"

abbrev pub is_blank : Option String → Bool
is_blank none = true
is_blank (some version) = blank version

unfoldable pub is_local : Validator → Bool
unfolding lower blank
is_local v =
    (lower (or_default v.endpoint_type "") == endpoint_type_opcua) && is_blank v.endpoint_version

-- The process: the world outside, and the two caches of the class.
pub record Process (H : Host) : Type 0 where
  pub world : H.World
  pub metadata_cache : Dict String Json
  pub schema_cache : Json

module _ (H : Host) where
  -- `_make_metadata_cache_key`
  unfoldable pub make_metadata_cache_key : Validator → String
  unfolding join
  make_metadata_cache_key v = join ":" (
      or_default H.subscription_id "unknown-subscription"
      ∷ or_default v.resource_group_name "unknown-rg"
      ∷ or_default v.instance_name "unknown-instance"
      ∷ or_default v.endpoint_type "unknown-endpoint"
      ∷ or_default v.endpoint_version "none"
      ∷ [])

  unfoldable pub call : {A : Type 0} → (H.World → Outcome A × H.World) → Exec (Process H) A
  call f s =
      let (o, w) = f s.world in
      (o, record { world = w; metadata_cache = s.metadata_cache; schema_cache = s.schema_cache })

  -- `self._METADATA_CACHE[cache_key] = metadata`
  unfoldable pub store : String → Json → Exec (Process H) (Unit {0})
  store key metadata s = (
    returned tt,
    record {
      world = s.world;
      metadata_cache = insert key metadata s.metadata_cache;
      schema_cache = s.schema_cache;
    },
  )

  unfoldable pub load_local_opcua_metadata : Outcome Json
  load_local_opcua_metadata = elim H.opcua_file [
    | absent ↦ raised (
        validation (
          "OPC UA metadata file not found: "
          <> (H.schema_folder <> "/opcua_connector_metadata.json")))
    | unreadable e ↦ raised (validation ("Failed to read local OPC UA metadata file: " <> e))
    | contents l ↦ elim l [
      | loaded metadata ↦ returned metadata
      | malformed e ↦ raised (validation ("Invalid JSON in local OPC UA metadata file: " <> e))
      | undecodable e ↦ raised (value_error e)
    ]
  ]

  -- `_get_expected_config_media_type` for connector templates.
  unfoldable pub expected_config_media_type : String
  expected_config_media_type = or_default H.config_media_type default_config_media_type

  unfoldable pub extract_metadata_from_blob : H.Content → String → Outcome Json
  extract_metadata_from_blob content image_ref = elim (H.load_content content) [
    | loaded metadata ↦ returned metadata
    | malformed e ↦
        raised (validation ("Artifact at " <> (image_ref <> (" is not valid JSON: " <> e))))
    | undecodable e ↦ raised (value_error e)
  ]

  unfoldable pub read_schema_file : Outcome Json
  read_schema_file = elim H.schema_file [
    | absent ↦ raised (
        validation (
          "Connector metadata schema file not found: "
          <> (H.schema_folder <> "/connector_metadata_schema.json")))
    | unreadable e ↦ raised (validation ("Failed to read connector metadata schema file: " <> e))
    | contents l ↦ elim l [
      | loaded schema ↦ returned schema
      | malformed e ↦ raised (validation ("Invalid JSON in connector metadata schema file: " <> e))
      | undecodable e ↦ raised (value_error e)
    ]
  ]

  -- `_get_connector_metadata_schema`: the schema is read once.
  unfoldable pub get_connector_metadata_schema : Exec (Process H) Json
  unfolding read_schema_file
  get_connector_metadata_schema s =
      if not (is_null s.schema_cache) then (returned s.schema_cache, s) else elim read_schema_file [
        | raised e ↦ (raised e, s)
        | returned schema ↦ (
          returned schema,
          record { world = s.world; metadata_cache = s.metadata_cache; schema_cache = schema },
        )
      ]

  unfoldable pub check_metadata : Json → Json → Outcome (Unit {0})
  check_metadata metadata schema = elim (H.check metadata schema) [
    | conforms ↦ returned tt
    | invalid e ↦ raised (validation ("Connector metadata does not match schema: " <> e))
    | bad_schema e ↦ raised (validation ("Invalid connector metadata schema: " <> e))
  ]

  abbrev missing_endpoints : Json → String → Bool → Outcome (Unit {0})
  missing_endpoints metadata image_ref found = Outcomes.raise_if (not found) (
      validation (
        "Artifact at "
        <> (image_ref
            <> (" does not contain expected connector metadata structure. Found keys: "
                <> H.show (keys_of metadata)))))

  unfoldable pub validate_connector_metadata : Json → String → Exec (Process H) (Unit {0})
  unfolding get_connector_metadata_schema check_metadata
  validate_connector_metadata metadata image_ref = do
    schema ← get_connector_metadata_schema
    lift (check_metadata metadata schema)
    found ← lift (is_key "inboundEndpoints" metadata)
    lift (missing_endpoints metadata image_ref found)

  -- `_fetch_connector_metadata_from_oci`
  unfoldable pub fetch_connector_metadata_from_oci : String → Exec (Process H) Json
  unfolding call extract_metadata_from_blob validate_connector_metadata expected_config_media_type
  fetch_connector_metadata_from_oci image_ref = do
    content ← call (H.fetch_first_layer image_ref (some expected_config_media_type))
    metadata ← lift (extract_metadata_from_blob content image_ref)
    validate_connector_metadata metadata image_ref
    endpoints ← lift (get "inboundEndpoints" (arr (of_elements [])) metadata)
    endpoint_count ← lift (json_len endpoints)
    pure metadata

  unfoldable pub fetch_by_template : String → Option Json → Exec (Process H) Json
  unfolding fetch_connector_metadata_from_oci store
  fetch_by_template key none = pure null
  fetch_by_template key (some template) = do
    properties ← lift (get "properties" (dict []) template)
    reference ← lift (get "connectorMetadataRef" null properties)
    if not (json_truthy reference) then pure null else (do
      image_ref ← lift (text_of reference)
      metadata ← fetch_connector_metadata_from_oci image_ref
      store key metadata
      pure metadata)

  -- Behind a miss of the cache. The handler logs the error and raises it again.
  unfoldable pub fetch_metadata : Validator → String → Exec (Process H) Json
  unfolding fetch_by_template store load_local_opcua_metadata is_local
  fetch_metadata v key =
      if is_local v
      then (do metadata ← lift load_local_opcua_metadata; store key metadata; pure metadata)
      else (do
        templates ← call (H.list_templates v.resource_group_name v.instance_name)
        matched ← lift (match_templates H v templates)
        fetch_by_template key matched)

  -- The cache under a key, and what is fetched on a miss.
  unfoldable pub read_through : Validator → String → Exec (Process H) Json
  unfolding fetch_metadata
  read_through v key s = elim (lookup key s.metadata_cache) [
    | some metadata ↦ (returned metadata, s)
    | none ↦ fetch_metadata v key s
  ]

  unfoldable pub get_metadata : Validator → Exec (Process H) Json
  unfolding read_through make_metadata_cache_key
  get_metadata v = read_through v (make_metadata_cache_key v)
