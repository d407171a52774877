-- ===== src/Upgrade/Config.antt =====
-- `ConfigOverride`, `build_override_map` and `calculate_config_delta`.
use azure_iot_ops_cli_extens.Base.{
  String, ◌<>◌, Bool, ◌||◌, not, Option, none, some, List, [], ◌∷◌, if◌then◌else◌, nonempty, ◌==◌,
  string_eq, get_or,
}
use azure_iot_ops_cli_extens.Base.Dict.{Dict, lookup, insert, has}
use azure_iot_ops_cli_extens.Common.{parse_kvp_nargs}
use azure_iot_ops_cli_extens.Upgrade.{given, extension_moniker_to_alias_map}

-- `None` for a key takes the key away.
abbrev pub Settings : Type 0
Settings = Dict String (Option String)

pub record ConfigOverride : Type 0 where
  pub config : Settings
  pub config_sync_mode : Option String
  pub version : Option String
  pub train : Option String

-- `__init__`
unfoldable pub new_override :
    Option (List String) → Option String → Option String → Option String → ConfigOverride
unfolding parse_kvp_nargs
new_override config config_sync_mode version train = record {
  config = parse_kvp_nargs config;
  config_sync_mode = config_sync_mode;
  version = version;
  train = train;
}

abbrev pub no_override : ConfigOverride
no_override = record { config = []; config_sync_mode = none; version = none; train = none }

abbrev pub is_empty : ConfigOverride → Bool
is_empty o = not (nonempty o.config || given o.config_sync_mode || given o.version || given o.train)

-- The keyword arguments of the command: a list of items, or a text.
pub record Arguments : Type 0 where
  pub lists : Dict String (List String)
  pub texts : Dict String String

unfoldable pub override_of : Arguments → String → ConfigOverride
unfolding new_override lookup
override_of args alias =
    new_override (lookup (alias <> "_config") args.lists)
      (lookup (alias <> "_config_sync_mode") args.texts) (lookup (alias <> "_version") args.texts)
      (lookup (alias <> "_train") args.texts)

-- The loop of `build_override_map`.
unfoldable pub override_loop :
    Arguments → Dict String String → Dict String ConfigOverride → Dict String ConfigOverride
unfolding override_of insert
override_loop args [] result = result
override_loop args ((moniker, alias) ∷ rest) result = override_loop args rest (
    if is_empty (override_of args alias)
    then result
    else insert moniker (override_of args alias) result)

unfoldable pub build_override_map : Arguments → Dict String ConfigOverride
unfolding override_loop
build_override_map args = override_loop args extension_moniker_to_alias_map []

abbrev pub mode_add : String
mode_add = "add"

abbrev pub mode_full : String
mode_full = "full"

abbrev pub mode_none : String
mode_none = "none"

-- One key that is there: its value in the target, or None for what the target lacks.
abbrev pub changed_key : String → String → Dict String String → Settings → Settings
changed_key key value target delta = elim (lookup key target) [
  | none ↦ insert key none delta
  | some wanted ↦ if value == wanted then delta else insert key (some wanted) delta
]

-- The loop over the keys that are there.
unfoldable pub changed_keys : Dict String String → Dict String String → Settings → Settings
unfolding lookup insert
changed_keys [] target delta = delta
changed_keys ((key, value) ∷ current) target delta =
    changed_keys current target (changed_key key value target delta)

-- The loop over the keys of the target: those that are not there yet.
unfoldable pub added_keys :
    Dict String String → Dict String String → Dict String String → Settings → Settings
unfolding lookup insert
added_keys [] target current delta = delta
added_keys ((key, _) ∷ keys) target current delta =
    added_keys keys target current
      (if has key current then delta else insert key (lookup key target) delta)

unfoldable pub calculate_config_delta :
    Dict String String → Dict String String → Option String → Settings
unfolding changed_keys added_keys
calculate_config_delta current target sync_mode =
    let mode = get_or sync_mode mode_full in
    let changed = changed_keys current target [] in
    let start : Settings = if mode == mode_full then changed else [] in
    if mode == mode_none
    then []
    else if mode == mode_full || mode == mode_add
    then added_keys target target current start
    else start
