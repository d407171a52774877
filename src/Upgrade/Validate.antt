-- ===== src/Upgrade/Validate.antt =====
-- `_validate_version_upgrade`, `validate_upgrade` and `get_patch`.
use azure_iot_ops_cli_extens.Base.{
  ◌+◌, String, ◌<>◌, Bool, ◌&&◌, ◌||◌, not, Option, none, some, [], ◌∷◌, if◌then◌else◌, nonempty,
  ◌==◌, string_eq, get_or, lower, nat_eq, ltb,
}
use azure_iot_ops_cli_extens.Base.Dict.{insert}
use azure_iot_ops_cli_extens.Base.Exec.{Exc, validation, Outcome, returned}
use azure_iot_ops_cli_extens.Base.Outcomes.{◌>>=◌, ◌>>◌, raise_if}
use azure_iot_ops_cli_extens.Upgrade.{
  Semver, Urls, is_update, given, moniker_ops, min_instance_version_v2,
  min_instance_version_v1_for_v2_upgrade, lt_version, ge_version, same_version,
}
use azure_iot_ops_cli_extens.Upgrade.Config.{Settings, calculate_config_delta, mode_add}
use azure_iot_ops_cli_extens.Upgrade.Extension.{
  ExtensionUpgradeState, moniker, current_version, current_train, desired_version, desired_train,
  current_config, has_non_success_state, has_delta_in_version, has_delta_in_train,
  has_delta_in_config, config_delta, mqtt_settings, can_upgrade,
}

-- A value that the code knows to be there.
abbrev pub known_text : Option String → String
known_text o = get_or o ""

abbrev unable : String → ExtensionUpgradeState → Exc
unable what e = validation (
    "Unable to determine "
    <> (what <> (" for " <> (moniker e <> " extension. Cannot validate upgrade path."))))

abbrev unable_train : String → ExtensionUpgradeState → Exc
unable_train what e =
    validation (
      "Unable to determine "
      <> (what <> (moniker e <> " extension. Cannot validate upgrade path.")))

abbrev installed_is : ExtensionUpgradeState → String → Exc
installed_is e rest = validation (
    "Installed "
    <> (moniker e
        <> (" extension version is "
            <> (known_text (current_version e)
                <> (".\nThe desired " <> (known_text (desired_version e) <> rest))))))

abbrev pub is_preview : Option String → Bool
is_preview train = not (lower (known_text train) == "stable")

abbrev pub same_train : ExtensionUpgradeState → Bool
same_train e = lower (known_text (current_train e)) == lower (known_text (desired_train e))

module _ (SV : Semver) where
  -- The rules for the extension of the operations, behind the test for a downgrade.
  unfoldable pub validate_ops : ExtensionUpgradeState → SV.Version → SV.Version → Outcome (Unit {0})
  unfolding lt_version ge_version same_version lower
  validate_ops e current desired = do
    raise_if (not (SV.major desired == SV.major current))
        (installed_is e " version is incompatible (different major version).")
    raise_if (ltb (SV.minor current + 2) (SV.minor desired))
        (installed_is e " version is incompatible (more than 2 minor versions ahead).")
    first_allowed ← SV.parse min_instance_version_v1_for_v2_upgrade
    second ← SV.parse min_instance_version_v2
    raise_if (lt_version SV current first_allowed && ge_version SV desired second) (
        installed_is e (
          " version is incompatible (min compatible upgrade version "
          <> (SV.text first_allowed
              <> (").\nPlease first upgrade to at least "
                  <> (SV.text first_allowed
                      <> "/AIO2506. See https://aka.ms/aio-versions for version details.")))))
    raise_if
        ((is_preview (current_train e) || is_preview (desired_train e))
          && (not (same_version SV current desired) || not (same_train e)))
        (validation (
          "Installed "
          <> (moniker e
              <> (" extension is on train "
                  <> (known_text (current_train e)
                      <> (".\nDesired version would be on train "
                          <> (known_text (desired_train e)
                              <> ".\nUpgrades to or from non-stable release trains are not supported.")))))))

  -- Behind the presence of versions and trains.
  unfoldable pub validate_parsed : ExtensionUpgradeState → Outcome (Unit {0})
  unfolding validate_ops moniker
  validate_parsed e = do
    current ← SV.parse (known_text (current_version e))
    desired ← SV.parse (known_text (desired_version e))
    raise_if (lt_version SV desired current)
        (installed_is e " version is a downgrade which is not supported.")
    if moniker e == moniker_ops then validate_ops e current desired else returned tt

  -- `_validate_version_upgrade`
  unfoldable pub validate_version_upgrade : ExtensionUpgradeState → Outcome (Unit {0})
  unfolding validate_parsed
  validate_version_upgrade e =
      let checked = (do
        raise_if (not (given (current_version e))) (unable "installed version" e)
        raise_if (not (given (desired_version e))) (unable "target version" e)
        raise_if (not (given (current_train e))) (unable_train "release train for installed " e)
        raise_if (not (given (desired_train e))) (unable_train "target release train for " e)
        validate_parsed e) in
      if is_update e.operation_type && not e.force then checked else returned tt

  module _ (U : Urls) where
    unfoldable pub validate_upgrade : ExtensionUpgradeState → Outcome (Unit {0})
    unfolding has_delta_in_version has_non_success_state validate_version_upgrade
    validate_upgrade e = do
      version ← has_delta_in_version SV U e
      if version || has_non_success_state e then validate_version_upgrade e else returned tt

-- The payload of `get_patch`: a key that is not there is `none`.
pub record Patch : Type 0 where
  pub version : Option (Option String)
  pub release_train : Option (Option String)
  pub configuration : Option Settings

-- `d.update(other)`
unfoldable pub update_settings : Settings → Settings → Settings
unfolding insert
update_settings settings [] = settings
update_settings settings ((key, value) ∷ rest) = update_settings (insert key value settings) rest

module _ (SV : Semver) (U : Urls) where
  -- The settings of the patch: the delta, then the user's, then those of the broker that are new.
  unfoldable pub patch_settings : ExtensionUpgradeState → Outcome Settings
  unfolding config_delta mqtt_settings update_settings calculate_config_delta
  patch_settings e = do
    broker ← mqtt_settings SV U e
    let own = update_settings (config_delta e) e.override.config
    let added = calculate_config_delta (current_config e) broker (some mode_add)
    returned (if nonempty broker then update_settings own added else own)

  -- The payload, if `can_upgrade` is true; a nonempty one is `some`.
  unfoldable pub build_patch : ExtensionUpgradeState → Outcome (Option Patch)
  unfolding patch_settings has_delta_in_version has_delta_in_train has_delta_in_config
      has_non_success_state validate_version_upgrade
  build_patch e = do
    version ← has_delta_in_version SV U e
    if version || has_non_success_state e then validate_version_upgrade SV e else returned tt
    train ← has_delta_in_train SV U e
    config ← has_delta_in_config SV U e
    settings ← (if config then (do s ← patch_settings e; returned (some s)) else returned none)
    returned (
        some (record {
          version = if version || has_non_success_state e then some (desired_version e) else none;
          release_train = if train then some (desired_train e) else none;
          configuration = settings;
        }))

  -- `get_patch`: `{}` is `none`.
  unfoldable pub get_patch : ExtensionUpgradeState → Outcome (Option Patch)
  unfolding build_patch can_upgrade
  get_patch e =
      if is_update e.operation_type
      then (do can ← can_upgrade SV U e; if can then build_patch e else returned none)
      else returned none
