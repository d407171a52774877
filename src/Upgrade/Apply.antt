-- ===== src/Upgrade/Apply.antt =====
-- `apply_upgrades` and the operations it carries out, and `migrate_to_v2` of
-- azext_edge/edge/providers/orchestration/migration.py. The management clients are a machine with a
-- state of its own: a request stands for a client call with the wait for its terminal state.
use azure_iot_ops_cli_extens.Base.{
  ℕ, String, Bool, false, Option, none, some, List, [], ◌∷◌, ◌++◌, if◌then◌else◌, nonempty, ◌==◌,
  string_eq, get_or,
}
use azure_iot_ops_cli_extens.Base.Dict.{Dict}
use azure_iot_ops_cli_extens.Base.Exec.{
  type_error, Outcome, returned, raised, Exec, ◌>>=◌, ◌>>◌, pure,
}
use azure_iot_ops_cli_extens.Base.Outcomes
use azure_iot_ops_cli_extens.Base.Outcomes.{lift}
use azure_iot_ops_cli_extens.Upgrade.{
  Semver, Urls, ExtensionOperation, create, update, delete, given, text_or, moniker_ops,
  extension_type_cm,
}
use azure_iot_ops_cli_extens.Upgrade.Extension.{
  ExtensionUpgradeState, moniker, desired_version, desired_train, can_upgrade,
}
use azure_iot_ops_cli_extens.Upgrade.Validate.{Patch, get_patch}
use azure_iot_ops_cli_extens.Upgrade.SecretSync.{
  Yaml, Spc, SyncResource, SecretSync, merged_objects,
}
use azure_iot_ops_cli_extens.Upgrade.Cluster.{InstanceRecord}

pub record CreationPayload : Type 0 where
  pub extension_type : String
  pub version : String
  pub release_train : String
  pub configuration : Dict String String

pub data Request : Type 0 where
  delete_extension : String → Request
  create_extension : CreationPayload → Request
  update_extension : String → Option Patch → Request
  update_instance : InstanceRecord → Request
  create_registry_endpoint : Request
  create_connector_template : Option String → Request
  update_spc : String → String → Request
  update_secret_sync : String → String → Request
  delete_spc : String → Request

pub data Event : Type 0 where
  sent : Request → Event
  slept : ℕ → Event

pub record Service : Type 1 where
  pub World : Type 0
  pub Reply : Type 0
  pub send : Request → World → Outcome Reply × World
  pub sleep : ℕ → World → World

pub record Session (V : Service) : Type 0 where
  pub world : V.World
  pub events : List Event

-- An item of the payload that the command returns.
pub data Result (V : Service) : Type 0 where
  deleted : String → Option String → Result V
  reply : V.Reply → Result V
  no_result : Result V

-- What the upgrade reads of the targets of the deployment.
pub record Targets : Type 0 where
  pub adr_namespace_resource_id : Option String
  pub cm_version : Option String

abbrev pub iot_ops_delay : ℕ
iot_ops_delay = 30

-- `_group_by_operation`
pub record Groups : Type 0 where
  pub deletes : List ExtensionUpgradeState
  pub creates : List ExtensionUpgradeState
  pub updates : List ExtensionUpgradeState

abbrev pub no_groups : Groups
no_groups = record { deletes = []; creates = []; updates = [] }

-- `groups[op].append(ext)`
abbrev pub add_to_group : ExtensionOperation → ExtensionUpgradeState → Groups → Groups
add_to_group delete e g = record {
  deletes = g.deletes ++ e ∷ [];
  creates = g.creates;
  updates = g.updates;
}
add_to_group create e g = record {
  deletes = g.deletes;
  creates = g.creates ++ e ∷ [];
  updates = g.updates;
}
add_to_group update e g = record {
  deletes = g.deletes;
  creates = g.creates;
  updates = g.updates ++ e ∷ [];
}

unfoldable pub group_loop : Semver → Urls → List ExtensionUpgradeState → Groups → Outcome Groups
unfolding can_upgrade
group_loop SV U [] g = returned g
group_loop SV U (e ∷ es) g =
    Outcomes.◌>>=◌ (can_upgrade SV U e)
      (λ can. group_loop SV U es (if can then add_to_group e.operation_type e g else g))

-- `_build_creation_payload`
unfoldable pub build_creation_payload : Targets → ExtensionUpgradeState → CreationPayload
build_creation_payload targets e = record {
  extension_type = text_or e.extension_type extension_type_cm;
  version =
      if given (desired_version e)
      then get_or (desired_version e) ""
      else get_or targets.cm_version "0.6.2";
  release_train = text_or (desired_train e) "stable";
  configuration =
      if nonempty e.desired_config
      then e.desired_config
      else ("AgentOperationTimeoutInMinutes", "20") ∷ [];
}

-- The body that `Instances.update` sends.
abbrev pub updated_instance : Option String → Option String → InstanceRecord → InstanceRecord
updated_instance adr spc r = record {
  adr_namespace_ref = if given adr then adr else r.adr_namespace_ref;
  default_spc_ref = if given spc then spc else r.default_spc_ref;
}

-- The references that `_apply_instance_update` passes on.
abbrev pub new_adr_id : Targets → Bool → Option String
new_adr_id targets needed = if needed then targets.adr_namespace_resource_id else none

abbrev pub new_spc_id : Option SecretSync → Bool → Option String
new_spc_id migration needed = if needed then default_id migration else none
  where
    default_id : Option SecretSync → Option String
    default_id none = none
    default_id (some m) = elim m.spc_default [ none ↦ none | some spc ↦ spc.id ]

-- `secretsync["properties"].get("secretProviderClassName") == name`
abbrev pub names_class : Option String → String → Bool
names_class none name = false
names_class (some s) name = s == name

-- `ext.extension["name"]`
abbrev pub extension_name : ExtensionUpgradeState → Outcome String
extension_name e = elim e.extension [
  | none ↦ raised (type_error "'NoneType' object is not subscriptable")
  | some x ↦ returned x.name
]

module _ (V : Service) where
  unfoldable pub send : Request → Exec (Session V) V.Reply
  send q s =
      let (o, w) = V.send q s.world in (o, record { world = w; events = s.events ++ sent q ∷ [] })

  unfoldable pub sleep : ℕ → Exec (Session V) (Unit {0})
  sleep n s = (returned tt, record { world = V.sleep n s.world; events = s.events ++ slept n ∷ [] })

  -- The loop over the secret syncs that name the old class.
  unfoldable pub move_secret_syncs :
      String → String → List SyncResource → Exec (Session V) (Unit {0})
  unfolding send
  move_secret_syncs old new [] = pure tt
  move_secret_syncs old new (r ∷ rs) =
      if names_class r.secret_provider_class_name old
      then (send (update_secret_sync r.name new) >>= λ _. move_secret_syncs old new rs)
      else move_secret_syncs old new rs

  -- `migrate_to_v2`, behind the presence of both classes.
  unfoldable pub migrate_classes : Yaml → SecretSync → Spc → Spc → Exec (Session V) (Result V)
  unfolding merged_objects send move_secret_syncs
  migrate_classes Y m opcua default = do
    text ← lift (merged_objects Y opcua default)
    answer ← send (update_spc default.name text)
    move_secret_syncs opcua.name default.name m.secret_syncs
    send (delete_spc opcua.name)
    pure (reply answer)

  unfoldable pub migrate_found :
      Yaml → SecretSync → Option Spc → Option Spc → Exec (Session V) (Result V)
  unfolding migrate_classes
  migrate_found Y m (some opcua) (some default) = migrate_classes Y m opcua default
  migrate_found Y m _ _ = pure no_result

  unfoldable pub migrate_to_v2 : Yaml → SecretSync → Exec (Session V) (Result V)
  unfolding migrate_found
  migrate_to_v2 Y m = migrate_found Y m m.spc_opcua m.spc_default

  unfoldable pub apply_instance_update :
      Targets → Option SecretSync → InstanceRecord → Bool → Bool → Exec (Session V) (Result V)
  unfolding send
  apply_instance_update targets migration r needs_adr needs_spc = do
    answer ← send (
        update_instance
          (updated_instance (new_adr_id targets needs_adr) (new_spc_id migration needs_spc) r))
    pure (reply answer)

  module _ (SV : Semver) (U : Urls) where
    unfoldable pub apply_update : ExtensionUpgradeState → String → Exec (Session V) (Result V)
    unfolding get_patch send sleep moniker
    apply_update e name = do
      patch ← lift (get_patch SV U e)
      answer ← send (update_extension name patch)
      if moniker e == moniker_ops then sleep iot_ops_delay else pure tt
      pure (reply answer)

    -- `_apply_single_operation`
    unfoldable pub apply_single_operation :
        Targets → ExtensionUpgradeState → ExtensionOperation → Exec (Session V) (Result V)
    unfolding send build_creation_payload apply_update
    apply_single_operation targets e delete = do
      name ← lift (extension_name e)
      send (delete_extension name)
      pure (deleted name e.extension_type)
    apply_single_operation targets e create = do
      answer ← send (create_extension (build_creation_payload targets e))
      pure (reply answer)
    apply_single_operation targets e update = do name ← lift (extension_name e); apply_update e name

    -- The loop over a group, which appends to the payload.
    unfoldable pub apply_group :
        Targets
        → ExtensionOperation
        → List ExtensionUpgradeState
        → List (Result V)
        → Exec (Session V) (List (Result V))
    unfolding apply_single_operation
    apply_group targets op [] payload = pure payload
    apply_group targets op (e ∷ es) payload = do
      result ← apply_single_operation targets e op
      apply_group targets op es (payload ++ result ∷ [])
