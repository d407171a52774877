-- ===== src/Upgrade/Quiet.antt =====
-- When an upgrade has nothing to do.
use azure_iot_ops_cli_extens.Base.{◌≡◌, refl, false, List, [], ◌∷◌, arith, string_eq}
use azure_iot_ops_cli_extens.Base.Exec.{returned, ◌>>=◌}
use azure_iot_ops_cli_extens.Upgrade.{Semver, Urls}
use azure_iot_ops_cli_extens.Upgrade.Extension.{ExtensionUpgradeState}
use azure_iot_ops_cli_extens.Upgrade.SecretSync.{Yaml}
use azure_iot_ops_cli_extens.Upgrade.Cluster.{ClusterUpgradeState, any_can_upgrade, has_upgrades}
use azure_iot_ops_cli_extens.Upgrade.Apply.{
  Service, Session, Groups, no_groups, group_loop, apply_group,
}
use azure_iot_ops_cli_extens.Upgrade.Drive.{
  UpgradeManager, if_needed, apply_groups, apply_rest, apply_upgrades,
}

module _ (SV : Semver) (U : Urls) where
  any_can_upgrade-groups :
      (es : List ExtensionUpgradeState) (g : Groups)
      → any_can_upgrade SV U es ≡ returned false
      → group_loop SV U es g ≡ returned g
  unfolding any_can_upgrade group_loop
  any_can_upgrade-groups [] g h = refl
  any_can_upgrade-groups (e ∷ es) g h = ground (arith, h, any_can_upgrade-groups es g)

  has_upgrades-false :
      (c : ClusterUpgradeState)
      → has_upgrades SV U c ≡ returned false
      → (any_can_upgrade SV U c.extension_upgrades ≡ returned false)
        × (c.instance_upgrade ≡ false)
        × (c.registry_endpoint_needed ≡ false)
        × (c.connector_template_needed ≡ false)
        × (c.secretsync_migration_needed ≡ false)
  unfolding has_upgrades
  has_upgrades-false c h = ground (arith, h)

  module _ (V : Service) (Y : Yaml) (m : UpgradeManager) where
    -- Where `has_upgrades` returns false, `apply_upgrades` returns no results and leaves the
    -- session as it was.
    pub apply_upgrades-nothing :
        (c : ClusterUpgradeState) (s : Session V)
        → has_upgrades SV U c ≡ returned false
        → apply_upgrades V SV U Y m c s ≡ (returned [], s)
    unfolding apply_upgrades apply_groups apply_group apply_rest if_needed ◌>>=◌
    apply_upgrades-nothing c s h =
        let (a, i, r, t, x) = has_upgrades-false c h in
        rw (any_can_upgrade-groups c.extension_upgrades no_groups a, i, r, t, x) refl
