-- ===== src/Upgrade/Cluster.antt =====
-- `ClusterUpgradeState`: the queue of extension changes, and what else an upgrade has to do.
use azure_iot_ops_cli_extens.Base.{
  String, Bool, true, false, ◌&&◌, ◌||◌, not, Option, none, some, List, [], ◌∷◌, ◌++◌,
  if◌then◌else◌, ◌==◌, string_eq, get_or, is_some,
}
use azure_iot_ops_cli_extens.Base.Dict.{Dict, lookup, has}
use azure_iot_ops_cli_extens.Base.Exec.{validation, Outcome, returned, raised}
use azure_iot_ops_cli_extens.Base.Outcomes.{◌>>=◌, ◌>>◌}
use azure_iot_ops_cli_extens.Upgrade.{
  Semver, Urls, create, delete, given, or_else, extension_type_platform, extension_type_ops,
  extension_type_cm, moniker_cm, moniker_ops, extension_type_to_moniker_map, VersionMap,
  no_versions, InstalledExtension, min_instance_version_for_cm_migrate,
  min_instance_version_for_opcua_connector_template, parsed_at_least,
}
use azure_iot_ops_cli_extens.Upgrade.Config.{ConfigOverride, no_override}
use azure_iot_ops_cli_extens.Upgrade.Extension.{
  ExtensionUpgradeState, new_extension_state, can_upgrade,
}
use azure_iot_ops_cli_extens.Upgrade.Validate.{validate_upgrade}
use azure_iot_ops_cli_extens.Upgrade.SecretSync.{SecretSync, has_v1_spc}

-- `adrNamespaceRef.resourceId` and `defaultSecretProviderClassRef.resourceId` of the instance.
pub record InstanceRecord : Type 0 where
  pub adr_namespace_ref : Option String
  pub default_spc_ref : Option String

-- The arguments of `__init__`, which the manager always gives an instance; a check is what its call
-- gives.
pub record ClusterInput : Type 0 where
  pub extensions_map : Dict String InstalledExtension
  pub init_version_map : Dict String VersionMap
  pub desired_config_map : Dict String (Dict String String)
  pub override_map : Dict String ConfigOverride
  pub instance_record : InstanceRecord
  pub adr_namespace_resource_id : Option String
  pub registry_endpoint_check : Option (Outcome Bool)
  pub connector_template_check : Option (Outcome (Bool × Option String))
  pub secretsync_migration : Option SecretSync
  pub force : Bool
  pub no_cm_install : Bool

pub record ClusterUpgradeState : Type 0 where
  pub input : ClusterInput
  pub extension_upgrades : List ExtensionUpgradeState
  pub instance_upgrade : Bool
  pub registry_endpoint_needed : Bool
  pub connector_template_needed : Bool
  pub connector_template_repair_name : Option String
  pub secretsync_migration_needed : Bool

unfoldable pub get_target_ops_version : ClusterInput → Option String
unfolding lookup
get_target_ops_version c = elim (lookup extension_type_ops c.extensions_map) [
  | none ↦ none
  | some x ↦
      or_else (get_or (lookup moniker_ops c.override_map) no_override).version
        (or_else (get_or (lookup moniker_ops c.init_version_map) no_versions).version x.version)
]

-- `_check_adr_namespace_update`
unfoldable pub check_adr_namespace_update : Option String → InstanceRecord → Outcome Bool
check_adr_namespace_update wanted instance_record =
    if given wanted
    then returned (not (same_id instance_record.adr_namespace_ref wanted))
    else if given instance_record.adr_namespace_ref
    then returned false
    else raised (
        validation
          "The instance requires an ADR namespace for migration to v2.\nPlease provide a value for --ns-resource-id.")
  where
    same_id : Option String → Option String → Bool
    same_id (some a) (some b) = a == b
    same_id none none = true
    same_id _ _ = false

-- `_check_spc_reference_update`
abbrev pub check_spc_reference_update : Option SecretSync → InstanceRecord → Bool
check_spc_reference_update migration instance_record =
    if given instance_record.default_spc_ref
    then false
    else elim migration [ none ↦ false | some m ↦ is_some m.spc_default ]

-- The state of an extension that is there.
abbrev pub installed_state : ClusterInput → String → InstalledExtension → ExtensionUpgradeState
installed_state c moniker x =
    new_extension_state (some x) (get_or (lookup moniker c.init_version_map) no_versions)
      (lookup moniker c.desired_config_map) (lookup moniker c.override_map) c.force none none

abbrev pub deleted_platform : InstalledExtension → ExtensionUpgradeState
deleted_platform x =
    new_extension_state (some x) no_versions none (some no_override) true (some delete) none

abbrev pub created_certmanager : ClusterInput → ExtensionUpgradeState
created_certmanager c =
    new_extension_state none (get_or (lookup moniker_cm c.init_version_map) no_versions)
      (lookup moniker_cm c.desired_config_map) (lookup moniker_cm c.override_map) c.force
      (some create) (some extension_type_cm)

-- The loop over the types.
unfoldable pub regular_updates :
    ClusterInput
    → ExtensionUpgradeState
    → Bool
    → Bool
    → Dict String String
    → List ExtensionUpgradeState
unfolding new_extension_state lookup
regular_updates c ops deleting creating [] = []
regular_updates c ops deleting creating ((ext_type, ext_moniker) ∷ types) =
    let rest = regular_updates c ops deleting creating types in
    if ext_type == extension_type_platform && deleting
    then rest
    else if ext_type == extension_type_cm && creating
    then rest
    else if ext_type == extension_type_ops
    then ops ∷ rest
    else elim (lookup ext_type c.extensions_map) [
      | none ↦ rest
      | some x ↦ installed_state c ext_moniker x ∷ rest
    ]

-- The deletion of the platform, if it is decided and there is one.
unfoldable pub deletion_of : Option InstalledExtension → Bool → List ExtensionUpgradeState
unfolding new_extension_state
deletion_of (some x) true = deleted_platform x ∷ []
deletion_of _ _ = []

-- The queue, with the decisions taken.
unfoldable pub upgrade_queue :
    ClusterInput → ExtensionUpgradeState → Bool → Bool → List ExtensionUpgradeState
unfolding regular_updates new_extension_state lookup deletion_of
upgrade_queue c ops deleting creating =
    deletion_of (lookup extension_type_platform c.extensions_map) deleting
    ++ ((if creating then created_certmanager c ∷ [] else [])
        ++ regular_updates c ops deleting creating extension_type_to_moniker_map)

module _ (SV : Semver) where
  unfoldable pub is_target_version_at_least : ClusterInput → String → Outcome Bool
  unfolding get_target_ops_version parsed_at_least
  is_target_version_at_least c min_version =
      if given (get_target_ops_version c)
      then parsed_at_least SV (get_or (get_target_ops_version c) "") min_version
      else returned false

  abbrev pub is_target_version_above_migration_threshold : ClusterInput → Outcome Bool
  is_target_version_above_migration_threshold c =
      is_target_version_at_least c min_instance_version_for_cm_migrate

  unfoldable pub should_delete_platform : ClusterInput → Outcome Bool
  unfolding is_target_version_at_least lookup
  should_delete_platform c =
      if has extension_type_platform c.extensions_map
      then is_target_version_above_migration_threshold c
      else returned false

  unfoldable pub should_create_certmanager : ClusterInput → Bool → Outcome Bool
  unfolding is_target_version_at_least lookup
  should_create_certmanager c deleting_platform =
      if c.no_cm_install
      then returned false
      else if has extension_type_cm c.extensions_map
      then returned false
      else if has extension_type_platform c.extensions_map && not deleting_platform
      then returned false
      else is_target_version_above_migration_threshold c

  module _ (U : Urls) where
    -- Behind the presence of the extension of the operations.
    unfoldable pub refresh_with :
        ClusterInput → InstalledExtension → Outcome (List ExtensionUpgradeState)
    unfolding validate_upgrade should_delete_platform should_create_certmanager upgrade_queue
        new_extension_state
    refresh_with c x = do
      validate_upgrade SV U (installed_state c moniker_ops x)
      deleting ← should_delete_platform c
      creating ← should_create_certmanager c deleting
      returned (upgrade_queue c (installed_state c moniker_ops x) deleting creating)

    unfoldable pub refresh_upgrade_state : ClusterInput → Outcome (List ExtensionUpgradeState)
    unfolding refresh_with lookup
    refresh_upgrade_state c = elim (lookup extension_type_ops c.extensions_map) [
      | none ↦ raised (
          validation
            "The cluster backing the instance has an invalid state. IoT Operations extension not detected.")
      | some x ↦ refresh_with c x
    ]

  unfoldable pub check_instance_upgrade : ClusterInput → Outcome Bool
  unfolding is_target_version_at_least check_adr_namespace_update
  check_instance_upgrade c = do
    above ← is_target_version_above_migration_threshold c
    if above
        then (do
          adr ← check_adr_namespace_update c.adr_namespace_resource_id c.instance_record
          returned (adr || check_spc_reference_update c.secretsync_migration c.instance_record))
        else returned false

  unfoldable pub check_registry_endpoint_needed : ClusterInput → Outcome Bool
  unfolding is_target_version_at_least
  check_registry_endpoint_needed c = do
    above ← is_target_version_above_migration_threshold c
    if above then get_or c.registry_endpoint_check (returned false) else returned false

  -- Whether it is needed, and the name of the template to repair.
  unfoldable pub check_connector_template_needed : ClusterInput → Outcome (Bool × Option String)
  unfolding is_target_version_at_least
  check_connector_template_needed c = do
    above ← is_target_version_at_least c min_instance_version_for_opcua_connector_template
    if above
        then get_or c.connector_template_check (returned (false, none))
        else returned (false, none)

  unfoldable pub check_secretsync_migration_needed : ClusterInput → Outcome Bool
  unfolding is_target_version_at_least
  check_secretsync_migration_needed c = do
    above ← is_target_version_above_migration_threshold c
    returned (above && elim c.secretsync_migration [ none ↦ false | some m ↦ has_v1_spc m ])

  module _ (U : Urls) where
    -- `__init__`
    unfoldable pub new_cluster_state : ClusterInput → Outcome ClusterUpgradeState
    unfolding refresh_upgrade_state check_instance_upgrade check_registry_endpoint_needed
        check_connector_template_needed check_secretsync_migration_needed
    new_cluster_state c = do
      queue ← refresh_upgrade_state U c
      instance_upgrade ← check_instance_upgrade c
      registry ← check_registry_endpoint_needed c
      template ← check_connector_template_needed c
      secretsync ← check_secretsync_migration_needed c
      returned (record {
        input = c;
        extension_upgrades = queue;
        instance_upgrade = instance_upgrade;
        registry_endpoint_needed = registry;
        connector_template_needed = template.0;
        connector_template_repair_name = template.1;
        secretsync_migration_needed = secretsync;
      })

    -- `any(state.can_upgrade() for state in states)`
    unfoldable pub any_can_upgrade : List ExtensionUpgradeState → Outcome Bool
    unfolding can_upgrade
    any_can_upgrade [] = returned false
    any_can_upgrade (e ∷ es) = do
      can ← can_upgrade SV U e
      if can then returned true else any_can_upgrade es

    unfoldable pub has_upgrades : ClusterUpgradeState → Outcome Bool
    unfolding any_can_upgrade
    has_upgrades s = do
      can ← any_can_upgrade s.extension_upgrades
      returned (
          can || s.instance_upgrade || s.registry_endpoint_needed || s.connector_template_needed
          || s.secretsync_migration_needed)
