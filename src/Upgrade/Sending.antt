-- ===== src/Upgrade/Sending.antt =====
-- What `apply_upgrades` and the statements below it send, against the plan.
use mathlib.Core.List.{append-nil}
use azure_iot_ops_cli_extens.Base.{
  String, refl, Bool, true, false, Option, none, some, List, [], ◌∷◌, ◌++◌, if◌then◌else◌, ◌==◌,
  string_eq, map, flatten,
}
use azure_iot_ops_cli_extens.Base.Exec.{Exec, ◌>>=◌, pure, is_returned}
use azure_iot_ops_cli_extens.Base.Outcomes.{planned-returned}
use azure_iot_ops_cli_extens.Base.Sends.{
  Sends, Sends-quiet, Sends-bind, Sends-cast, Sends-lift, Sends-sent,
}
use azure_iot_ops_cli_extens.Upgrade.{
  Semver, Urls, ExtensionOperation, create, update, delete, moniker_ops,
}
use azure_iot_ops_cli_extens.Upgrade.Extension.{ExtensionUpgradeState, moniker}
use azure_iot_ops_cli_extens.Upgrade.Validate.{get_patch}
use azure_iot_ops_cli_extens.Upgrade.SecretSync.{
  Yaml, Spc, SyncResource, SecretSync, merged_objects,
}
use azure_iot_ops_cli_extens.Upgrade.Cluster.{ClusterUpgradeState}
use azure_iot_ops_cli_extens.Upgrade.Apply.{
  Request, delete_extension, update_extension, create_registry_endpoint, create_connector_template,
  update_spc, update_secret_sync, delete_spc, Event, sent, slept, Service, Session, Result, reply,
  deleted, extension_name, Targets, iot_ops_delay, names_class, send, sleep, move_secret_syncs,
  migrate_classes, migrate_found, migrate_to_v2, apply_instance_update, apply_update,
  apply_single_operation, apply_group,
}
use azure_iot_ops_cli_extens.Upgrade.Drive.{UpgradeManager, if_needed, apply_instance, apply_rest}
use azure_iot_ops_cli_extens.Upgrade.Plan.{
  event_log, update_plan, operation_plan, secrets_plan, moved_plan, classes_plan, found_plan,
  instance_plan, where_needed, rest_plan,
}

module _ (V : Service) where
  send-Sends : (q : Request) → Sends event_log is_returned (sent q ∷ []) (send V q)
  unfolding send
  send-Sends q = Sends-sent event_log is_returned (sent q ∷ []) (send V q) (λ s. refl)

  -- A request, and an answer made of its reply.
  answer-Sends :
      {A : Type 0} (q : Request) (f : V.Reply → A)
      → Sends event_log is_returned (sent q ∷ []) (send V q >>= λ r. pure (f r))
  answer-Sends q f =
      Sends-bind event_log (send V q) (λ r. pure (f r)) (send-Sends q)
        (λ r. Sends-quiet event_log is_returned _ (λ s. refl))

  if_Sends :
      {A : Type 0} (b : Bool) (p : List Event) {q : List Event} {m k : Exec (Session V) A}
      → Sends event_log is_returned (p ++ q) m
      → Sends event_log is_returned q k
      → Sends event_log is_returned ((if b then p else []) ++ q) (if b then m else k)
  if_Sends true p h k = h
  if_Sends false p h k = k

  pause_Sends :
      {A : Type 0} (b : Bool) (a : A)
      → Sends event_log is_returned
          (if b then slept iot_ops_delay ∷ [] else [])
          ((if b then sleep V iot_ops_delay else pure tt) >>= λ _. pure a)
  unfolding sleep ◌>>=◌
  pause_Sends true a = Sends-sent event_log is_returned _ _ (λ s. refl)
  pause_Sends false a = Sends-quiet event_log is_returned _ (λ s. refl)

  move_secret_syncs-Sends :
      (old new : String) (rs : List SyncResource)
      → Sends event_log is_returned (moved_plan old new rs) (move_secret_syncs V old new rs)
  unfolding move_secret_syncs
  move_secret_syncs-Sends old new [] = Sends-quiet event_log is_returned _ (λ s. refl)
  move_secret_syncs-Sends old new (r ∷ rs) =
      if_Sends (names_class r.secret_provider_class_name old) _
        (Sends-bind event_log (send V (update_secret_sync r.name new))
          (λ _. move_secret_syncs V old new rs) (send-Sends _)
          (λ _. move_secret_syncs-Sends old new rs))
        (move_secret_syncs-Sends old new rs)

  migrate_classes-Sends :
      (Y : Yaml) (m : SecretSync) (old new : Spc)
      → Sends event_log is_returned
          (classes_plan Y m.secret_syncs old new)
          (migrate_classes V Y m old new)
  unfolding migrate_classes
  migrate_classes-Sends Y m old new = Sends-lift event_log (merged_objects Y old new) _ (λ text h.
      Sends-cast event_log (planned-returned (merged_objects Y old new) _ text h) (
        Sends-bind event_log (send V (update_spc new.name text)) _ (send-Sends _) (λ answer.
          Sends-bind event_log (move_secret_syncs V old.name new.name m.secret_syncs) _
            (move_secret_syncs-Sends old.name new.name m.secret_syncs)
            (λ _. answer-Sends (delete_spc old.name) (λ _. reply answer)))))

  migrate_found-Sends :
      (Y : Yaml) (m : SecretSync) (old new : Option Spc)
      → Sends event_log is_returned
          (found_plan Y m.secret_syncs old new)
          (migrate_found V Y m old new)
  unfolding migrate_found
  migrate_found-Sends Y m none new = Sends-quiet event_log is_returned _ (λ s. refl)
  migrate_found-Sends Y m (some old) none = Sends-quiet event_log is_returned _ (λ s. refl)
  migrate_found-Sends Y m (some old) (some new) = migrate_classes-Sends Y m old new

  migrate_to_v2-Sends :
      (Y : Yaml) (m : SecretSync)
      → Sends event_log is_returned (secrets_plan Y m) (migrate_to_v2 V Y m)
  unfolding migrate_to_v2 secrets_plan
  migrate_to_v2-Sends Y m = migrate_found-Sends Y m m.spc_opcua m.spc_default

  apply_instance-Sends :
      (m : UpgradeManager) (c : ClusterUpgradeState)
      → Sends event_log is_returned (instance_plan m c) (apply_instance V m c)
  unfolding apply_instance instance_plan apply_instance_update
  apply_instance-Sends m c =
      Sends-lift event_log _ _
        (λ adr h. Sends-cast event_log (planned-returned _ _ adr h) (answer-Sends _ reply))

  module _ (SV : Semver) (U : Urls) (targets : Targets) where
    apply_update-Sends :
        (e : ExtensionUpgradeState) (name : String)
        → Sends event_log is_returned (update_plan SV U e name) (apply_update V SV U e name)
    unfolding apply_update
    apply_update-Sends e name = Sends-lift event_log (get_patch SV U e) _ (λ patch h.
        Sends-cast event_log (planned-returned (get_patch SV U e) _ patch h) (
          Sends-bind event_log (send V (update_extension name patch)) _ (send-Sends _)
            (λ answer. pause_Sends (moniker e == moniker_ops) (reply answer))))

    apply_single-Sends :
        (op : ExtensionOperation) (e : ExtensionUpgradeState)
        → Sends event_log is_returned
            (operation_plan SV U targets op e)
            (apply_single_operation V SV U targets e op)
    unfolding apply_single_operation operation_plan
    apply_single-Sends create e = answer-Sends _ reply
    apply_single-Sends delete e = Sends-lift event_log (extension_name e) _ (λ name h.
        Sends-cast event_log (planned-returned (extension_name e) _ name h)
          (answer-Sends (delete_extension name) (λ _. deleted name e.extension_type)))
    apply_single-Sends update e = Sends-lift event_log (extension_name e) _ (λ name h.
        Sends-cast event_log (planned-returned (extension_name e) _ name h)
          (apply_update-Sends e name))

    pub apply_group-Sends :
        (op : ExtensionOperation) (es : List ExtensionUpgradeState) (payload : List (Result V))
        → Sends event_log is_returned
            (flatten (map (operation_plan SV U targets op) es))
            (apply_group V SV U targets op es payload)
    unfolding apply_group
    apply_group-Sends op [] payload = Sends-quiet event_log is_returned _ (λ s. refl)
    apply_group-Sends op (e ∷ es) payload =
        Sends-bind event_log (apply_single_operation V SV U targets e op) _
          (apply_single-Sends op e) (λ result. apply_group-Sends op es (payload ++ result ∷ []))

  if_needed-Sends :
      {p : List Event} (needed : Bool) (step : Exec (Session V) (Result V))
      (payload : List (Result V))
      → Sends event_log is_returned p step
      → Sends event_log is_returned (where_needed needed p) (if_needed V needed step payload)
  unfolding if_needed
  if_needed-Sends false step payload k = Sends-quiet event_log is_returned _ (λ s. refl)
  if_needed-Sends {p} true step payload k =
      Sends-cast event_log (append-nil p)
        (Sends-bind event_log step _ k (λ r. Sends-quiet event_log is_returned _ (λ s. refl)))

  pub apply_rest-Sends :
      (SV : Semver) (U : Urls) (Y : Yaml) (m : UpgradeManager) (c : ClusterUpgradeState)
      (payload : List (Result V))
      → Sends event_log is_returned (rest_plan Y m c) (apply_rest V SV U Y m c payload)
  unfolding apply_rest
  apply_rest-Sends SV U Y m c payload =
      Sends-bind event_log _ _
        (if_needed-Sends c.instance_upgrade _ payload (apply_instance-Sends m c))
        (λ p1.
          Sends-bind event_log _ _
            (if_needed-Sends c.registry_endpoint_needed _ p1
              (answer-Sends create_registry_endpoint reply))
            (λ p2.
              Sends-bind event_log _ _
                (if_needed-Sends c.connector_template_needed _ p2
                  (answer-Sends (create_connector_template c.connector_template_repair_name) reply))
                (λ p3.
                  if_needed-Sends c.secretsync_migration_needed _ p3
                    (migrate_to_v2-Sends Y m.secretsync_migration))))
