-- ===== src/Upgrade/Extension.antt =====
-- `ExtensionUpgradeState`: what an extension is, what it should be, and whether they differ. The
-- caches of the class hold what these functions compute.
use azure_iot_ops_cli_extens.Base.{
  ℕ, String, ◌<>◌, Bool, true, false, ◌&&◌, ◌||◌, not, Option, none, some, [], ◌∷◌, if◌then◌else◌,
  any, nonempty, ◌==◌, string_eq, get_or, lower, truthy, str_nat,
}
use azure_iot_ops_cli_extens.Base.Dict.{Dict, lookup, insert, has}
use azure_iot_ops_cli_extens.Base.Exec.{Outcome, returned, raised}
use azure_iot_ops_cli_extens.Base.Outcomes.{◌>>=◌}
use azure_iot_ops_cli_extens.Upgrade.{
  Semver, Urls, ExtensionOperation, update, is_update, or_else, given, text_or,
  extension_type_to_moniker_map, moniker_ops, provisioning_state_success, VersionMap,
  InstalledExtension, min_instance_version_for_cm_migrate, parsed_at_least, gt_version, ge_version,
}
use azure_iot_ops_cli_extens.Upgrade.Config.{
  Settings, ConfigOverride, no_override, calculate_config_delta, mode_full,
}

pub record ExtensionUpgradeState : Type 0 where
  pub extension : Option InstalledExtension
  pub extension_type : Option String
  pub desired_version_map : VersionMap
  pub desired_config : Dict String String
  pub override : ConfigOverride
  pub force : Bool
  pub operation_type : ExtensionOperation

-- `__init__`
unfoldable pub new_extension_state :
    Option InstalledExtension
    → VersionMap
    → Option (Dict String String)
    → Option ConfigOverride
    → Bool
    → Option ExtensionOperation
    → Option String
    → ExtensionUpgradeState
unfolding lower
new_extension_state extension desired_version_map desired_config override force operation_type
      extension_type =
    record {
      extension = extension;
      extension_type =
          or_else extension_type
            (elim extension [ none ↦ none | some x ↦ some (lower x.extension_type) ]);
      desired_version_map = desired_version_map;
      desired_config = get_or desired_config [];
      override = get_or override no_override;
      force = force;
      operation_type = get_or operation_type update;
    }

unfoldable pub moniker : ExtensionUpgradeState → String
unfolding lookup
moniker e =
    if given e.extension_type
    then get_or (lookup (get_or e.extension_type "") extension_type_to_moniker_map) "unknown"
    else "unknown"

abbrev pub current_version : ExtensionUpgradeState → Option String
current_version e = elim e.extension [ none ↦ none | some x ↦ x.version ]

abbrev pub current_train : ExtensionUpgradeState → Option String
current_train e = elim e.extension [ none ↦ none | some x ↦ x.release_train ]

abbrev pub desired_version : ExtensionUpgradeState → Option String
desired_version e = or_else e.override.version e.desired_version_map.version

abbrev pub desired_train : ExtensionUpgradeState → Option String
desired_train e = or_else e.override.train e.desired_version_map.train

abbrev pub provisioning_state : ExtensionUpgradeState → String
provisioning_state e = elim e.extension [
  | none ↦ "N/A"
  | some x ↦ get_or x.provisioning_state "Unknown"
]

-- `configurationSettings` of the extension.
abbrev pub current_config : ExtensionUpgradeState → Dict String String
current_config e = elim e.extension [ none ↦ [] | some x ↦ x.configuration ]

unfoldable pub has_non_success_state : ExtensionUpgradeState → Bool
unfolding lower
has_non_success_state e = not (lower (provisioning_state e) == lower provisioning_state_success)

abbrev broker_prefix : String
broker_prefix = "dataFlows.values.tinyKube.mqttBroker"

-- The `try` block: the host name, and the port if it can be read too.
unfoldable pub host_settings : Urls → String → Dict String String
host_settings U address = elim (U.hostname address) [
  | raised e ↦ []
  | returned none ↦ []
  | returned (some host) ↦
      if truthy host
      then (broker_prefix <> ".hostName", host) ∷ port_settings (U.port address)
      else []
]
  where
    -- A port 0 is none.
    port_settings : Outcome (Option ℕ) → Dict String String
    port_settings (returned (some (ℕ.suc n))) = (broker_prefix <> ".port", str_nat (ℕ.suc n)) ∷ []
    port_settings _ = []

unfoldable pub get_mqtt_migration_config : Urls → ExtensionUpgradeState → Dict String String
unfolding host_settings lookup insert
get_mqtt_migration_config U e =
    let address = lookup "connectors.values.mqttBroker.address" (current_config e) in
    let audience =
      lookup "connectors.values.mqttBroker.serviceAccountTokenAudience" (current_config e) in
    let host = host_settings U (get_or address "") in
    if given address
    then if given audience
      then insert (broker_prefix <> ".authentication.serviceAccountTokenAudience")
          (get_or audience "") host
      else host
    else []

-- `config_delta`, as `_has_delta_in_config` leaves it.
unfoldable pub config_delta : ExtensionUpgradeState → Settings
unfolding calculate_config_delta
config_delta e =
    if nonempty e.desired_config
    then calculate_config_delta (current_config e) e.desired_config
        (some (text_or e.override.config_sync_mode mode_full))
    else []

module _ (SV : Semver) (U : Urls) where
  unfoldable pub should_migrate_mqtt_config : ExtensionUpgradeState → Outcome Bool
  unfolding moniker parsed_at_least
  should_migrate_mqtt_config e = elim e.extension [
    | none ↦ returned false
    | some _ ↦
        if moniker e == moniker_ops && given (desired_version e)
        then parsed_at_least SV (get_or (desired_version e) "") min_instance_version_for_cm_migrate
        else returned false
  ]

  -- `parse(a) ◌ parse(b)` for a comparison.
  unfoldable pub compare_parsed :
      (SV.Version → SV.Version → Bool) → Option String → Option String → Outcome Bool
  compare_parsed test a b = do
    v ← SV.parse (get_or a "")
    w ← SV.parse (get_or b "")
    returned (test v w)

  unfoldable pub has_delta_in_version : ExtensionUpgradeState → Outcome Bool
  unfolding compare_parsed
  has_delta_in_version e = elim e.extension [
    | none ↦ returned false
    | some _ ↦
        if given e.override.version
        then returned true
        else if given (current_version e) && given (desired_version e)
        then compare_parsed (gt_version SV) (desired_version e) (current_version e)
        else returned false
  ]

  unfoldable pub has_delta_in_train : ExtensionUpgradeState → Outcome Bool
  unfolding compare_parsed lower
  has_delta_in_train e = elim e.extension [
    | none ↦ returned false
    | some _ ↦
        if given e.override.train
        then returned true
        else if given (current_version e)
            && given (current_train e)
            && given (desired_version e)
            && given (desired_train e)
        then (do
          newer ← compare_parsed (ge_version SV) (desired_version e) (current_version e)
          returned (
              newer
              && not (given e.override.version)
              && not (lower (get_or (desired_train e) "") == lower (get_or (current_train e) ""))))
        else returned false
  ]

  -- The settings of the broker that an upgrade to version 2 carries over.
  unfoldable pub mqtt_settings : ExtensionUpgradeState → Outcome (Dict String String)
  unfolding should_migrate_mqtt_config get_mqtt_migration_config moniker
  mqtt_settings e =
      if moniker e == moniker_ops
      then (do
        migrate ← should_migrate_mqtt_config e
        returned (if migrate then get_mqtt_migration_config U e else []))
      else returned []

  unfoldable pub has_delta_in_config : ExtensionUpgradeState → Outcome Bool
  unfolding config_delta mqtt_settings
  has_delta_in_config e = elim e.extension [
    | none ↦ returned false
    | some _ ↦ do
      broker ← mqtt_settings e
      returned (
          nonempty e.override.config
          || nonempty (config_delta e)
          || any (λ (key, value). not (has key (current_config e))) broker)
  ]

  -- The list that `any` takes is built whole, so that each test may raise.
  unfoldable pub can_upgrade : ExtensionUpgradeState → Outcome Bool
  unfolding has_delta_in_version has_delta_in_train has_delta_in_config has_non_success_state
  can_upgrade e = elim e.extension [
    | none ↦ returned (not (is_update e.operation_type))
    | some _ ↦
        if is_update e.operation_type
        then (do
          version ← has_delta_in_version e
          train ← has_delta_in_train e
          config ← has_delta_in_config e
          returned (version || train || config || has_non_success_state e))
        else returned true
  ]
