-- ===== src/Upgrade/Plan.antt =====
-- What an upgrade is to send, told from the state of the cluster, and what `apply_upgrades` sends.
use azure_iot_ops_cli_extens.Base.{
  String, Bool, true, false, ◌&&◌, Option, some, List, [], ◌∷◌, ◌++◌, if◌then◌else◌, ◌==◌,
  string_eq, map, flatten,
}
use azure_iot_ops_cli_extens.Base.Exec.{Outcome, returned, raised}
use azure_iot_ops_cli_extens.Upgrade.{
  Semver, Urls, ExtensionOperation, create, update, delete, moniker_ops,
}
use azure_iot_ops_cli_extens.Upgrade.Extension.{ExtensionUpgradeState, moniker, can_upgrade}
use azure_iot_ops_cli_extens.Upgrade.Validate.{get_patch}
use azure_iot_ops_cli_extens.Upgrade.SecretSync.{
  Yaml, Spc, SyncResource, SecretSync, merged_objects,
}
use azure_iot_ops_cli_extens.Upgrade.Cluster.{
  ClusterUpgradeState, check_adr_namespace_update, check_spc_reference_update,
}
use azure_iot_ops_cli_extens.Upgrade.Apply.{
  delete_extension, create_extension, update_extension, update_instance, create_registry_endpoint,
  create_connector_template, update_spc, update_secret_sync, delete_spc, Event, sent, slept,
  Service, Session, Targets, iot_ops_delay, build_creation_payload, updated_instance, new_adr_id,
  new_spc_id, extension_name, names_class,
}
use azure_iot_ops_cli_extens.Upgrade.Drive.{UpgradeManager}
use azure_iot_ops_cli_extens.Base.Outcomes.{planned}

abbrev pub is_operation : ExtensionOperation → ExtensionOperation → Bool
is_operation create create = true
is_operation update update = true
is_operation delete delete = true
is_operation _ _ = false

-- The extensions of a queue that one kind of operation changes.
unfoldable pub chosen :
    Semver → Urls → ExtensionOperation → List ExtensionUpgradeState → List ExtensionUpgradeState
unfolding can_upgrade
chosen SV U op [] = []
chosen SV U op (e ∷ es) =
    if is_operation op e.operation_type && goes (can_upgrade SV U e)
    then e ∷ chosen SV U op es
    else chosen SV U op es
  where
    goes : Outcome Bool → Bool
    goes (returned b) = b
    goes (raised _) = false

abbrev pub event_log : {V : Service} → Session V → List Event
event_log s = s.events

abbrev pub update_plan : Semver → Urls → ExtensionUpgradeState → String → List Event
update_plan SV U e name = planned (get_patch SV U e) (λ patch.
    sent (update_extension name patch)
    ∷ (if moniker e == moniker_ops then slept iot_ops_delay ∷ [] else []))

-- The name is not needed to create.
unfoldable pub operation_plan :
    Semver → Urls → Targets → ExtensionOperation → ExtensionUpgradeState → List Event
unfolding get_patch moniker build_creation_payload
operation_plan SV U targets create e =
    sent (create_extension (build_creation_payload targets e)) ∷ []
operation_plan SV U targets delete e =
    planned (extension_name e) (λ name. sent (delete_extension name) ∷ [])
operation_plan SV U targets update e = planned (extension_name e) (update_plan SV U e)

unfoldable pub operations_plan :
    Semver → Urls → Targets → ExtensionOperation → List ExtensionUpgradeState → List Event
unfolding chosen operation_plan
operations_plan SV U targets op es =
    flatten (map (operation_plan SV U targets op) (chosen SV U op es))

abbrev pub moved_plan : String → String → List SyncResource → List Event
moved_plan old new [] = []
moved_plan old new (r ∷ rs) =
    (if names_class r.secret_provider_class_name old
      then sent (update_secret_sync r.name new) ∷ []
      else [])
    ++ moved_plan old new rs

abbrev pub classes_plan : Yaml → List SyncResource → Spc → Spc → List Event
classes_plan Y syncs old new = planned (merged_objects Y old new) (λ text.
    sent (update_spc new.name text) ∷ moved_plan old.name new.name syncs
    ++ sent (delete_spc old.name) ∷ [])

abbrev pub found_plan : Yaml → List SyncResource → Option Spc → Option Spc → List Event
found_plan Y syncs (some old) (some new) = classes_plan Y syncs old new
found_plan Y syncs _ _ = []

unfoldable pub secrets_plan : Yaml → SecretSync → List Event
unfolding merged_objects
secrets_plan Y m = found_plan Y m.secret_syncs m.spc_opcua m.spc_default

unfoldable pub instance_plan : UpgradeManager → ClusterUpgradeState → List Event
unfolding check_adr_namespace_update
instance_plan m c =
    planned (check_adr_namespace_update c.input.adr_namespace_resource_id c.input.instance_record)
      (λ adr.
        sent (
          update_instance (
            updated_instance (new_adr_id m.targets adr)
              (new_spc_id (some m.secretsync_migration)
                (check_spc_reference_update c.input.secretsync_migration c.input.instance_record))
              m.instance_record))
        ∷ [])

abbrev pub where_needed : Bool → List Event → List Event
where_needed needed plan = if needed then plan else []

abbrev pub groups_plan : Semver → Urls → Targets → List ExtensionUpgradeState → List Event
groups_plan SV U targets es =
    operations_plan SV U targets delete es
    ++ (operations_plan SV U targets create es ++ operations_plan SV U targets update es)

abbrev pub rest_plan : Yaml → UpgradeManager → ClusterUpgradeState → List Event
rest_plan Y m c =
    where_needed c.instance_upgrade (instance_plan m c)
    ++ (where_needed c.registry_endpoint_needed (sent create_registry_endpoint ∷ [])
        ++ (where_needed c.connector_template_needed
              (sent (create_connector_template c.connector_template_repair_name) ∷ [])
            ++ where_needed c.secretsync_migration_needed (secrets_plan Y m.secretsync_migration)))

-- Deletions, creations, updates, the instance, the registry, the template and the secrets.
unfoldable pub upgrade_plan :
    Semver → Urls → Yaml → UpgradeManager → ClusterUpgradeState → List Event
unfolding operations_plan instance_plan secrets_plan
upgrade_plan SV U Y m c = groups_plan SV U m.targets c.extension_upgrades ++ rest_plan Y m c
