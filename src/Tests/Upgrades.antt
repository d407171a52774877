-- ===== src/Tests/Upgrades.antt =====
-- Upgrades of a small cluster, with versions written as one number.
use Prim.Native.Nat.{compare}
use azure_iot_ops_cli_extens.Base.{
  nonempty, ℕ, suc, ◌≡◌, refl, sym, ap, ◌∙◌, String, Bool, true, false, none, some, List, [], ◌∷◌,
  ◌++◌, map, all, ◌/◌, ◌%◌, ◌==◌, str_nat, string_eq, nat_eq, arith, eq→≡, lower, if◌then◌else◌,
  get_or,
}
use azure_iot_ops_cli_extens.Base.Dict.{Dict, lookup}
use azure_iot_ops_cli_extens.Base.Exec.{value_error, returned, raised, is_returned}
use azure_iot_ops_cli_extens.Upgrade.{
  Semver, Urls, update, VersionMap, InstalledExtension, extension_type_ops, ge_version, gt_version,
}
use azure_iot_ops_cli_extens.Upgrade.Config.{no_override, mode_full, calculate_config_delta}
use azure_iot_ops_cli_extens.Upgrade.Delta.{patched, wanted, calculate_config_delta-Refines}
use azure_iot_ops_cli_extens.Upgrade.Extension.{
  ExtensionUpgradeState, has_delta_in_version, has_delta_in_train, has_delta_in_config,
  has_non_success_state, compare_parsed, config_delta, mqtt_settings, should_migrate_mqtt_config,
  new_extension_state,
}
use azure_iot_ops_cli_extens.Upgrade.Validate.{
  Patch, validate_version_upgrade, validate_upgrade, get_patch,
}
use azure_iot_ops_cli_extens.Upgrade.Compat.{allowed, validate_version_upgrade-allowed}
use azure_iot_ops_cli_extens.Upgrade.SecretSync.{Yaml}
use azure_iot_ops_cli_extens.Upgrade.Cluster.{
  check_adr_namespace_update, ClusterInput, ClusterUpgradeState, refresh_upgrade_state,
  upgrade_queue, has_upgrades, should_delete_platform, should_create_certmanager,
  is_target_version_at_least, get_target_ops_version, deletion_of, regular_updates,
}
use azure_iot_ops_cli_extens.Upgrade.Apply.{Event, Service, Session}
use azure_iot_ops_cli_extens.Upgrade.Drive.{UpgradeManager, apply_upgrades}
use azure_iot_ops_cli_extens.Upgrade.Plan.{upgrade_plan}
use azure_iot_ops_cli_extens.Upgrade.Order.{apply_upgrades-events}
use azure_iot_ops_cli_extens.Upgrade.Table.{
  registry_row, render_upgrade_table, skipped_rows, extension_rows,
}
use azure_iot_ops_cli_extens.Upgrade.Shown.{render_upgrade_table-nonempty}
use azure_iot_ops_cli_extens.Upgrade.Quiet.{apply_upgrades-nothing}
use azure_iot_ops_cli_extens.Upgrade.Entries.{is_ready, entry_type, distinct}
use azure_iot_ops_cli_extens.Upgrade.Queue.{
  IsKeyed, refresh_upgrade_state-Ready, refresh_upgrade_state-Distinct,
}

-- The versions of the examples: major, minor and patch as two digits each.
abbrev known_versions : Dict String ℕ
known_versions =
    ("1.1.59", 10159)
    ∷ ("1.2.36", 10236)
    ∷ ("1.2.83", 10283)
    ∷ ("1.3.50", 10350)
    ∷ ("1.4.72", 10472)
    ∷ []

abbrev numbers : Semver
numbers = record {
  Version = ℕ;
  parse =
      λ s. elim (lookup s known_versions) [ none ↦ raised (value_error s) | some n ↦ returned n ];
  major = λ v. v / 10000;
  minor = λ v. (v / 100) % 100;
  text = str_nat;
  compare = compare;
}

abbrev no_urls : Urls
no_urls = record { hostname = λ s. returned none; port = λ s. returned none }

-- One entry a document.
abbrev lines : Yaml
lines = record {
  Doc = List String;
  load = λ s. returned (s ∷ []);
  array = λ d. returned d;
  with_array = λ d xs. xs;
  dump = λ d. elim d [ [] ↦ "" | x ∷ _ ↦ x ];
}

abbrev installed_ops : InstalledExtension
installed_ops = record {
  name = "aio";
  extension_type = "microsoft.iotoperations";
  version = some "1.2.36";
  release_train = some "stable";
  provisioning_state = some "Succeeded";
  configuration = ("a", "1") ∷ [];
}

abbrev ops_state : VersionMap → ExtensionUpgradeState
ops_state versions = record {
  extension = some installed_ops;
  extension_type = some extension_type_ops;
  desired_version_map = versions;
  desired_config = [];
  override = no_override;
  force = false;
  operation_type = update;
}

abbrev newer : VersionMap
newer = record { version = some "1.2.83"; train = some "stable" }

abbrev unchanged : VersionMap
unchanged = record { version = some "1.2.36"; train = some "stable" }

abbrev before : Dict String String
before = ("a", "1") ∷ ("b", "2") ∷ []

abbrev after : Dict String String
after = ("a", "3") ∷ ("c", "4") ∷ []

abbrev key_b : String
key_b = "b"

calculate_config_delta-Refines_example :
    patched before (calculate_config_delta before after none) key_b
    ≡ wanted (get_or none mode_full) before after key_b
calculate_config_delta-Refines_example = calculate_config_delta-Refines before after none key_b

validate_version_upgrade-allowed_example :
    is_returned (validate_version_upgrade numbers (ops_state newer))
    ≡ allowed numbers (ops_state newer) 10236 10283 10159 10236
unfolding lookup string_eq
validate_version_upgrade-allowed_example =
    validate_version_upgrade-allowed numbers (ops_state newer) 10236 10283 10159 10236 refl refl
      refl refl refl refl refl refl refl refl

abbrev ops_input : ClusterInput
ops_input = record {
  extensions_map = (extension_type_ops, installed_ops) ∷ [];
  init_version_map = ("iotOperations", unchanged) ∷ [];
  desired_config_map = [];
  override_map = [];
  instance_record = record { adr_namespace_ref = some "ns"; default_spc_ref = none };
  adr_namespace_resource_id = none;
  registry_endpoint_check = none;
  connector_template_check = none;
  secretsync_migration = none;
  force = false;
  no_cm_install = false;
}

abbrev ops_queue : List ExtensionUpgradeState
ops_queue = ops_state unchanged ∷ []

ops_refreshed : refresh_upgrade_state numbers no_urls ops_input ≡ returned ops_queue
unfolding refresh_upgrade_state lookup string_eq lower validate_version_upgrade validate_upgrade
    has_delta_in_version has_non_success_state compare_parsed gt_version ge_version
    is_target_version_at_least should_delete_platform should_create_certmanager upgrade_queue
    regular_updates new_extension_state deletion_of get_target_ops_version
ops_refreshed = refl

refresh_upgrade_state-Ready_example : all is_ready ops_queue ≡ true
refresh_upgrade_state-Ready_example =
    refresh_upgrade_state-Ready numbers no_urls ops_input ops_queue ops_refreshed

only_ops :
    (b : Bool) (t : String) (x : InstalledExtension)
    → (b ≡ true → t ≡ extension_type_ops)
    → (if b then some installed_ops else none) ≡ some x
    → lower x.extension_type ≡ t
unfolding lower
only_ops true t x k h =
    ap (λ o. lower (get_or o installed_ops).extension_type) (sym h) ∙ sym (k refl)
only_ops false t x k h = ground (arith, h)

ops_keyed : IsKeyed ops_input
unfolding lookup
ops_keyed t x h = only_ops (t == extension_type_ops) t x (eq→≡ t extension_type_ops) h

refresh_upgrade_state-Distinct_example : distinct (map entry_type ops_queue) ≡ true
refresh_upgrade_state-Distinct_example =
    refresh_upgrade_state-Distinct numbers no_urls ops_input ops_queue ops_keyed ops_refreshed

abbrev echo : Service
echo = record { World = ℕ; Reply = ℕ; send = λ q w. (returned w, suc w); sleep = λ n w. w }

abbrev start : Session echo
start = record { world = 0; events = [] }

abbrev ops_manager : UpgradeManager
ops_manager = record {
  targets = record { adr_namespace_resource_id = none; cm_version = none };
  instance_record = ops_input.instance_record;
  secretsync_migration = record { secret_syncs = []; spc_opcua = none; spc_default = none };
}

abbrev cluster_state : VersionMap → Bool → ClusterUpgradeState
cluster_state versions needed = record {
  input = ops_input;
  extension_upgrades = ops_state versions ∷ [];
  instance_upgrade = false;
  registry_endpoint_needed = needed;
  connector_template_needed = false;
  connector_template_repair_name = none;
  secretsync_migration_needed = false;
}

apply_upgrades-events_example :
    (sent : List Event) × (unsent : List Event) × ((apply_upgrades echo numbers no_urls lines
        ops_manager
        (cluster_state newer true)
        start).1.events
      ≡ [] ++ sent)
    × (upgrade_plan numbers no_urls lines ops_manager (cluster_state newer true) ≡ sent ++ unsent)
    × (is_returned
            (apply_upgrades echo numbers no_urls lines ops_manager
              (cluster_state newer true)
              start).0
          ≡ true
        → unsent ≡ [])
apply_upgrades-events_example =
    apply_upgrades-events numbers no_urls echo lines ops_manager (cluster_state newer true) start

nothing_needed : has_upgrades numbers no_urls (cluster_state unchanged false) ≡ returned false
unfolding has_upgrades lookup string_eq lower has_delta_in_version has_delta_in_train
    has_delta_in_config has_non_success_state compare_parsed gt_version ge_version config_delta
    mqtt_settings should_migrate_mqtt_config
nothing_needed = refl

apply_upgrades-nothing_example :
    apply_upgrades echo numbers no_urls lines ops_manager (cluster_state unchanged false) start
    ≡ (returned [], start)
apply_upgrades-nothing_example =
    apply_upgrades-nothing numbers no_urls echo lines ops_manager (cluster_state unchanged false)
      start nothing_needed

abbrev newer_patch : Patch
newer_patch = record { version = some (some "1.2.83"); release_train = none; configuration = none }

newer_patched : get_patch numbers no_urls (ops_state newer) ≡ returned (some newer_patch)
unfolding get_patch lookup string_eq lower has_delta_in_version has_delta_in_train
    has_delta_in_config has_non_success_state compare_parsed gt_version ge_version config_delta
    mqtt_settings should_migrate_mqtt_config validate_version_upgrade nat_eq
newer_patched = refl

abbrev kept_secrets : List String
kept_secrets = "x" ∷ "y" ∷ []

abbrev moved_secrets : List String
moved_secrets = "y" ∷ "z" ∷ []

abbrev secret_z : String
secret_z = "z"

registry_shown :
    render_upgrade_table numbers no_urls (cluster_state unchanged true)
    ≡ returned (registry_row ∷ [])
unfolding render_upgrade_table lookup string_eq lower has_delta_in_version has_delta_in_train
    has_delta_in_config has_non_success_state compare_parsed gt_version ge_version config_delta
    mqtt_settings should_migrate_mqtt_config skipped_rows extension_rows
registry_shown = refl

namespace_kept : check_adr_namespace_update none ops_input.instance_record ≡ returned false
unfolding check_adr_namespace_update
namespace_kept = refl

render_upgrade_table-nonempty_example :
    has_upgrades numbers no_urls (cluster_state unchanged true)
    ≡ returned (nonempty (registry_row ∷ []))
render_upgrade_table-nonempty_example =
    render_upgrade_table-nonempty numbers no_urls (cluster_state unchanged true) false
      (registry_row ∷ []) refl namespace_kept registry_shown
