-- ===== src/Deletion/Discovery.antt =====
-- The discovery phase of `DeletionManager`: what it reads from the services, and what it records.
pub use azure_iot_ops_cli_extens.ExtensionTypes.{extension_type_ops, extension_type_acs}
use azure_iot_ops_cli_extens.Base.{
  String, Bool, false, ◌&&◌, not, Option, none, some, List, [], ◌∷◌, ◌++◌, map, if◌then◌else◌,
  get_or, contains, ◌==◌, string_eq, lower, truthy, split, last_or,
}
use azure_iot_ops_cli_extens.Base.Exec.{
  Exc, http_error, not_found, value_error, key_error, type_error, Outcome, returned, raised, Exec,
  pure, raise, try_except,
}
use azure_iot_ops_cli_extens.ResourceId.{
  slash, Parsed, empty, unmatched, matched, parse_resource_id, resource_name,
}
use azure_iot_ops_cli_extens.ResourceMap.{Resource}
use azure_iot_ops_cli_extens.Deletion.Manager.{Manager, Instance, ClusterInfo}

-- A cluster extension, as listed.
pub record Extension : Type 0 where
  pub id : Option String
  pub name : Option String
  pub extension_type : Option String
  pub version : Option String

pub record CustomLocation : Type 0 where
  pub id : String
  pub host_resource_id : Option String
  pub namespace : Option String
  pub cluster_extension_ids : List String

-- An entry with an id and a name: a sync rule.
pub record Named : Type 0 where
  pub id : String
  pub name : Option String

-- A row of the sweep by Resource Graph.
pub record SweepRow : Type 0 where
  pub id : Option String
  pub api_version : Option String

-- The services as one discovery finds them, and the packaged version parser.
pub record Services : Type 1 where
  pub show_instance : String → String → Outcome Instance
  pub list_instances : String → Outcome (List Instance)
  pub host_of_custom_location : String → Outcome (Option String)
  pub show_cluster : String → String → Outcome ClusterInfo
  pub list_extensions : String → String → Outcome (List Extension)
  pub list_custom_locations : String → Outcome (List CustomLocation)
  pub list_sync_rules : String → String → Outcome (List Named)
  pub query_resources : String → Outcome (List SweepRow)
  pub Version : Type 0
  pub parse_version : String → Option Version
  pub le_version : Version → Version → Bool

abbrev pub custom_locations_api_version : String
custom_locations_api_version = "2021-08-31-preview"

abbrev pub secret_sync_api_version : String
secret_sync_api_version = "2024-08-21-preview"

abbrev pub cluster_extensions_api_version : String
cluster_extensions_api_version = "2023-05-01"

abbrev pub default_iotops_mgmt_api_version : String
default_iotops_mgmt_api_version = "2026-07-01"

abbrev pub max_instance_version_acs_dependency : String
max_instance_version_acs_dependency = "1.1.69"

abbrev pub dep_extension_types : List String
dep_extension_types =
    "microsoft.certmanagement" ∷ "microsoft.iotoperations.platform" ∷ "microsoft.azure.secretstore"
    ∷ []

abbrev pub aio_extension_types : List String
aio_extension_types = extension_type_ops ∷ extension_type_acs ∷ dep_extension_types

abbrev pub aio_default_namespace : String
aio_default_namespace = "azure-iot-operations"

-- A text or None, by its truth value.
abbrev pub text_or_empty : Option String → String
text_or_empty o = get_or o ""

-- `parsed.get("name", "")`
abbrev pub name_of : Parsed → String
name_of empty = ""
name_of (unmatched rid) = rid
name_of (matched p) = text_or_empty p.name

-- `parsed.get("resource_group", default)`
abbrev pub group_of : Parsed → String → String
group_of (matched p) d = get_or p.resource_group d
group_of _ d = d

-- `parsed.get("resource_name", rid.rsplit("/", 1)[-1])`
unfoldable pub display_name_of : String → String
unfolding parse_resource_id
display_name_of rid =
    let fallback = last_or "" (split slash rid) in
    elim (parse_resource_id rid) [ matched p ↦ get_or (resource_name p) fallback | _ ↦ fallback ]

abbrev pub modify : (Manager → Manager) → Exec Manager (Unit {0})
modify f m = (returned tt, f m)

abbrev pub ask {ℓ} :
    {A : Type ℓ} → Outcome A → (A → Exec Manager (Unit {0})) → Exec Manager (Unit {0})
ask (returned a) f m = f a m
ask (raised e) f m = (raised e, m)

-- `_collect_spc_from_instance`
unfoldable pub collect_spc_from_instance : Exec Manager (Unit {0})
collect_spc_from_instance m = elim m.instance [
  | none ↦ (returned tt, m)
  | some inst ↦
      let spc_id = text_or_empty inst.default_spc_id in
      if truthy spc_id
      then (
        returned tt,
        record m {
          cl_resources =
              m.cl_resources
              ++ record {
                resource_id = spc_id;
                display_name = display_name_of spc_id;
                api_version = secret_sync_api_version;
              }
                ∷ [];
        },
      )
      else (returned tt, m)
]

-- What the loop over the extensions has found.
pub record Found : Type 0 where
  pub manager : Manager
  pub aio_version : Option String
  pub acs_extension : Option Resource

abbrev pub to_extension : Extension → Resource
to_extension ext = record {
  resource_id = text_or_empty ext.id;
  display_name = text_or_empty ext.name;
  api_version = cluster_extensions_api_version;
}

abbrev pub type_of : Extension → String
type_of ext = lower (text_or_empty ext.extension_type)

-- The branches on the type of one extension.
unfoldable pub classify : Extension → Found → Found
classify ext f =
    if type_of ext == extension_type_ops
    then record f {
      manager = record (f.manager) { aio_extension = some (to_extension ext) };
      aio_version = some (text_or_empty ext.version);
    }
    else if type_of ext == extension_type_acs
    then record f { acs_extension = some (to_extension ext) }
    else if contains dep_extension_types (type_of ext)
    then record f {
      manager = record (f.manager) {
        dep_extensions = f.manager.dep_extensions ++ to_extension ext ∷ [];
      };
    }
    else f

-- The type-verified ids: a set, so an id that is there is not added again.
unfoldable pub track : Extension → Found → Found
track ext f =
    let id = lower (text_or_empty ext.id) in
    if contains aio_extension_types (type_of ext) && not (contains f.manager.aio_typed_ext_ids id)
    then record f {
      manager = record (f.manager) { aio_typed_ext_ids = f.manager.aio_typed_ext_ids ++ id ∷ [] };
    }
    else f

unfoldable pub scan_extensions : List Extension → Found → Found
unfolding classify track
scan_extensions [] f = f
scan_extensions (ext ∷ exts) f = scan_extensions exts (track ext (classify ext f))

abbrev pub to_sync_rule : Named → Resource
to_sync_rule rule = record {
  resource_id = rule.id;
  display_name = text_or_empty rule.name;
  api_version = custom_locations_api_version;
}

abbrev pub warn_http : Exc → Exec Manager (Unit {0})
warn_http (http_error _ _) = pure tt
warn_http (not_found _) = pure tt
warn_http e = raise e

-- The rows of the sweep whose ids are not among those collected before.
unfoldable pub swept : List String → List SweepRow → List Resource
unfolding display_name_of
swept existing [] = []
swept existing (row ∷ rows) =
    let rid = text_or_empty row.id in
    let rest = swept existing rows in
    if contains existing (lower rid)
    then rest
    else record {
      resource_id = rid;
      display_name = display_name_of rid;
      api_version = text_or_empty row.api_version;
    }
      ∷ rest

abbrev pub lower_ids : List Resource → List String
lower_ids = map (λ (r : Resource). lower r.resource_id)

abbrev warn_sweep : Exc → Exec Manager (Unit {0})
warn_sweep (http_error _ _) = pure tt
warn_sweep (not_found _) = pure tt
warn_sweep (value_error _) = pure tt
warn_sweep (key_error _) = pure tt
warn_sweep (type_error _) = pure tt
warn_sweep e = raise e

module _ (S : Services) where
  -- `_should_include_acs`
  unfoldable pub should_include_acs : Option String → Option Instance → Bool
  should_include_acs aio_version inst =
      let own = text_or_empty aio_version in
      let other : String = elim inst [ none ↦ "" | some i ↦ text_or_empty i.version ] in
      let version = if truthy own then own else other in
      let old_enough : Bool = elim (S.parse_version version) [
        | none ↦ false
        | some parsed ↦ elim (S.parse_version max_instance_version_acs_dependency) [
          | none ↦ false
          | some threshold ↦ S.le_version parsed threshold
        ]
      ] in
      truthy version && old_enough

  -- The version gate behind the loop.
  unfoldable pub add_acs : Found → Manager
  unfolding should_include_acs
  add_acs f = elim f.acs_extension [
    | none ↦ f.manager
    | some acs ↦
        if should_include_acs f.aio_version f.manager.instance
        then record (f.manager) { dep_extensions = f.manager.dep_extensions ++ acs ∷ [] }
        else f.manager
  ]

  -- `_discover_extensions`
  unfoldable pub discover_extensions : Exec Manager (Unit {0})
  unfolding scan_extensions add_acs
  discover_extensions m =
      let cluster = text_or_empty m.cluster_name in
      if truthy cluster
      then ask (S.list_extensions m.resource_group_name cluster)
          (λ exts. modify (λ m'. add_acs (
            scan_extensions exts
              (record { manager = m'; aio_version = none; acs_extension = none }))))
          m
      else (returned tt, m)

  -- `_discover_sync_rules`
  unfoldable pub discover_sync_rules : Exec Manager (Unit {0})
  discover_sync_rules m =
      let id = text_or_empty m.cl_id in
      let name = text_or_empty m.cl_name in
      if truthy id && truthy name
      then try_except
          (ask (S.list_sync_rules (group_of (parse_resource_id id) m.resource_group_name) name)
            (λ rules.
              modify (λ m'. record m' { sync_rules = m'.sync_rules ++ map to_sync_rule rules })))
          warn_http m
      else (returned tt, m)

  -- `_run_arg_sweep`
  unfoldable pub run_arg_sweep : Exec Manager (Unit {0})
  unfolding swept
  run_arg_sweep m =
      let id = text_or_empty m.cl_id in
      if truthy id
      then try_except
          (ask (S.query_resources id) (λ rows. modify (λ m'. record m' {
            cl_resources = m'.cl_resources ++ swept (lower_ids m'.cl_resources) rows;
          })))
          warn_sweep m
      else (returned tt, m)
