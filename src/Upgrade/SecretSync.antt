-- ===== src/Upgrade/SecretSync.antt =====
-- azext_edge/edge/providers/orchestration/migration.py: `SecretSyncMigrationManager`, its state and
-- the merged objects of its patch. The packaged reader and writer of YAML are a parameter.
use azure_iot_ops_cli_extens.Base.{
  String, Bool, Option, none, some, List, [], ◌∷◌, ◌++◌, if◌then◌else◌, ◌==◌, string_eq, get_or,
  lower, is_some, contains,
}
use azure_iot_ops_cli_extens.Base.Exec.{Outcome, returned}
use azure_iot_ops_cli_extens.Base.Outcomes.{◌>>=◌}

-- `yaml.safe_load`, `doc["array"]`, the document with another array, and `yaml.safe_dump` behind the
-- text's `replace`.
pub record Yaml : Type 1 where
  pub Doc : Type 0
  pub load : String → Outcome Doc
  pub array : Doc → Outcome (List String)
  pub with_array : Doc → List String → Doc
  pub dump : Doc → String

-- A secret provider class, as far as the migration reads it.
pub record Spc : Type 0 where
  pub name : String
  pub id : Option String
  pub objects : Option String

pub record SyncResource : Type 0 where
  pub name : String
  pub secret_provider_class_name : Option String

pub record SecretSync : Type 0 where
  pub secret_syncs : List SyncResource
  pub spc_opcua : Option Spc
  pub spc_default : Option Spc

abbrev pub opcua_spc_name : String
opcua_spc_name = "opc-ua-connector"

-- `_identify_spcs`: the last of each kind stays.
unfoldable pub identify_spcs : List Spc → SecretSync → SecretSync
unfolding lower
identify_spcs [] m = m
identify_spcs (spc ∷ spcs) m = identify_spcs spcs (
    if lower spc.name == lower opcua_spc_name
    then record { secret_syncs = m.secret_syncs; spc_opcua = some spc; spc_default = m.spc_default }
    else record { secret_syncs = m.secret_syncs; spc_opcua = m.spc_opcua; spc_default = some spc })

-- `__init__`
unfoldable pub new_secret_sync : List Spc → List SyncResource → SecretSync
unfolding identify_spcs
new_secret_sync spcs syncs =
    identify_spcs spcs (record { secret_syncs = syncs; spc_opcua = none; spc_default = none })

abbrev pub has_v1_spc : SecretSync → Bool
has_v1_spc m = is_some m.spc_opcua

-- The loop that appends the entries that the set does not have; `known` is the set of the entries
-- before the loop.
unfoldable pub merge_entries : List String → List String → List String → List String
merge_entries known [] merged = merged
merge_entries known (entry ∷ entries) merged =
    merge_entries known entries (if contains known entry then merged else merged ++ entry ∷ [])

module _ (Y : Yaml) where
  -- `properties.objects` of the patch for the default class.
  unfoldable pub merged_objects : Spc → Spc → Outcome String
  unfolding merge_entries
  merged_objects opcua default = do
    from ← Y.load (get_or opcua.objects "array: []")
    to ← Y.load (get_or default.objects "array: []")
    known ← Y.array to
    entries ← Y.array from
    returned (Y.dump (Y.with_array to (merge_entries known entries known)))
