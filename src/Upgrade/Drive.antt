-- ===== src/Upgrade/Drive.antt =====
-- `apply_upgrades`, from the groups to the payload, and `upgrade_ops_instance`. A failed request is
-- logged and raised again, which changes nothing here; the progress display is left out.
use azure_iot_ops_cli_extens.Base.{
  String, ◌<>◌, ◌&&◌, Bool, Option, none, some, List, [], ◌∷◌, ◌++◌, if◌then◌else◌,
}
use azure_iot_ops_cli_extens.Base.Exec.{validation, Outcome, raised, Exec, ◌>>=◌, pure}
use azure_iot_ops_cli_extens.Base.Outcomes.{lift}
use azure_iot_ops_cli_extens.Upgrade.{Semver, Urls, create, update, delete}
use azure_iot_ops_cli_extens.Upgrade.SecretSync.{Yaml, SecretSync}
use azure_iot_ops_cli_extens.Upgrade.Cluster.{
  InstanceRecord, ClusterInput, ClusterUpgradeState, check_adr_namespace_update,
  check_spc_reference_update, new_cluster_state, has_upgrades,
}
use azure_iot_ops_cli_extens.Upgrade.Apply.{
  Service, Session, Result, reply, Targets, Groups, no_groups, group_loop, apply_group,
  apply_instance_update, send, create_registry_endpoint, create_connector_template, migrate_to_v2,
}

-- What the manager holds.
pub record UpgradeManager : Type 0 where
  pub targets : Targets
  pub instance_record : InstanceRecord
  pub secretsync_migration : SecretSync

module _ (V : Service) where
  -- A step that is done if it is needed, and adds to the payload.
  unfoldable pub if_needed :
      Bool → Exec (Session V) (Result V) → List (Result V) → Exec (Session V) (List (Result V))
  if_needed needed step payload =
      if needed then (do result ← step; pure (payload ++ result ∷ [])) else pure payload

  unfoldable pub apply_instance : UpgradeManager → ClusterUpgradeState → Exec (Session V) (Result V)
  unfolding check_adr_namespace_update apply_instance_update
  apply_instance m c = do
    needs_adr ←
        lift (check_adr_namespace_update c.input.adr_namespace_resource_id c.input.instance_record)
    apply_instance_update V m.targets (some m.secretsync_migration) m.instance_record needs_adr
        (check_spc_reference_update c.input.secretsync_migration c.input.instance_record)

  module _ (SV : Semver) (U : Urls) (Y : Yaml) where
    unfoldable pub apply_groups : UpgradeManager → Groups → Exec (Session V) (List (Result V))
    unfolding apply_group
    apply_groups m groups = do
      deleted ← apply_group V SV U m.targets delete groups.deletes []
      created ← apply_group V SV U m.targets create groups.creates deleted
      apply_group V SV U m.targets update groups.updates created

    -- Behind the extensions: the instance, the registry, the template and the secrets.
    unfoldable pub apply_rest :
        UpgradeManager → ClusterUpgradeState → List (Result V) → Exec (Session V) (List (Result V))
    unfolding if_needed apply_instance send migrate_to_v2
    apply_rest m c payload = do
      p1 ← if_needed c.instance_upgrade (apply_instance m c) payload
      p2 ←
          if_needed c.registry_endpoint_needed
            (do answer ← send V create_registry_endpoint; pure (reply answer)) p1
      p3 ←
          if_needed c.connector_template_needed
            (do
              answer ← send V (create_connector_template c.connector_template_repair_name)
              pure (reply answer))
            p2
      if_needed c.secretsync_migration_needed (migrate_to_v2 V Y m.secretsync_migration) p3

    unfoldable pub apply_upgrades :
        UpgradeManager → ClusterUpgradeState → Exec (Session V) (List (Result V))
    unfolding group_loop apply_groups apply_rest
    apply_upgrades m c = do
      groups ← lift (group_loop SV U c.extension_upgrades no_groups)
      payload ← apply_groups m groups
      apply_rest m c payload

    -- `analyze_cluster`, behind the reading of the cluster.
    unfoldable pub analyze_cluster : Bool → String → ClusterInput → Outcome ClusterUpgradeState
    unfolding new_cluster_state
    analyze_cluster connected cluster_name input =
        if connected
        then new_cluster_state SV U input
        else raised (validation ("Cluster " <> (cluster_name <> " is not connected.")))

    -- `upgrade_ops_instance`, with the answer to its prompt; `none` is None.
    unfoldable pub upgrade_ops_instance :
        UpgradeManager
        → Bool
        → String
        → ClusterInput
        → Bool
        → Exec (Session V) (Option (List (Result V)))
    unfolding analyze_cluster has_upgrades apply_upgrades
    upgrade_ops_instance m connected cluster_name input confirmed = do
      c ← lift (analyze_cluster connected cluster_name input)
      needed ← lift (has_upgrades SV U c)
      if needed && confirmed
          then (do payload ← apply_upgrades m c; pure (some payload))
          else pure none
