-- ===== src/Actions.antt =====
-- azext_edge/edge/providers/orchestration/mgmt_actions.py: the resources of the management actions
-- of an instance, and the clients of the three services that keep them.
pub mod Namespace
pub mod Discovery
pub mod Context
pub mod Teardown
pub mod Plan
pub mod Disable
pub mod Summary
pub mod Quiet
pub mod Refine
pub mod Profiles
pub mod Documents
pub mod Show
pub mod Shown
use azure_iot_ops_cli_extens.Base.{
  ℕ, String, ◌<>◌, Bool, true, false, List, if◌then◌else◌, truncate, get_or, Option,
}
use azure_iot_ops_cli_extens.Base.Json.{Json}
use azure_iot_ops_cli_extens.Base.Exec.{
  Exc, not_found, Outcome, Exec, ◌>>=◌, ◌>>◌, pure, raise, try_except,
}
use azure_iot_ops_cli_extens.ResourceId.{Parsed, empty, unmatched, matched}
use azure_iot_ops_cli_extens.Cloud.{Cloud, Run, begin_delete, wait_for_terminal_state}

abbrev pub mgmt_actions_resource_prefix : String
mgmt_actions_resource_prefix = "mgmt-actions"

abbrev pub default_dataflow_profile : String
default_dataflow_profile = "default"

-- `hash` is the hex text of the SHA-256 digest, of hashlib.
unfoldable pub get_mgmt_actions_resource_name : (String → String) → String → String → String
get_mgmt_actions_resource_name hash purpose instance_resource_id =
    mgmt_actions_resource_prefix
    <> ("-" <> (purpose <> ("-" <> truncate 8 (hash instance_resource_id))))

-- What a client gets or deletes, by the arguments of the call: of an instance, by resource group,
-- instance, profile and name; of Event Grid, by the client's subscription, group, namespace, name.
pub data Address : Type 0 where
  dataflow dataflow_graph : String → String → String → String → Address
  dataflow_endpoint : String → String → String → Address
  permission_binding topic_space : String → String → String → String → Address
  event_grid_namespace : String → String → String → Address

-- A request that changes the cloud: a `begin_delete`, or `begin_create_or_replace` of a namespace.
pub data Change : Type 0 where
  remove : Address → Change
  replace_namespace : String → String → Json → Change

-- The clients: the changes they start, and what they get. The loop over the pages of a list is one
-- call. `resource_group` and then the name are the arguments of the gets.
pub record Clients : Type 1 where
  pub cloud : Cloud Change
  pub hash : String → String
  pub get_instance : String → String → cloud.World → Outcome Json × cloud.World
  pub get_namespace : String → String → cloud.World → Outcome Json × cloud.World
  pub get_target : Address → cloud.World → Outcome Json × cloud.World
  pub list_profiles : String → String → cloud.World → Outcome (List Json) × cloud.World

-- `EgNamespaceContext`
pub record EgContext : Type 0 where
  pub resource_id : String
  pub subscription_id : String
  pub resource_group_name : String
  pub namespace_name : String
  pub mqtt_hostname : Json

-- `parsed.get(key, "")` on what `parse_resource_id` gives.
abbrev pub id_name : Parsed → String
id_name empty = ""
id_name (unmatched rid) = rid
id_name (matched p) = get_or p.name ""

abbrev pub id_group : Parsed → String
id_group (matched p) = get_or p.resource_group ""
id_group _ = ""

abbrev pub id_subscription : Parsed → String
id_subscription (matched p) = p.subscription
id_subscription _ = ""

-- `except ResourceNotFoundError`
abbrev pub is_missing : Exc → Bool
is_missing (not_found _) = true
is_missing _ = false

module _ (V : Clients) where
  -- A call of a client that gets.
  unfoldable pub ask :
      {A : Type 0} → (V.cloud.World → Outcome A × V.cloud.World) → Exec (Run V.cloud) A
  ask f s =
      let (o, w) = f s.world in
      (o, record { world = w; display = s.display; requests = s.requests })

  -- `try: get() except ResourceNotFoundError: exists = False`
  unfoldable pub exists : Address → Exec (Run V.cloud) Bool
  unfolding ask
  exists t =
      try_except (ask (V.get_target t) >> pure true)
        (λ e. if is_missing e then pure false else raise e)

  -- `_graceful_delete`
  unfoldable pub graceful_delete : Address → Exec (Run V.cloud) (Unit {0})
  graceful_delete t =
      try_except
        (do poller ← begin_delete V.cloud (remove t); wait_for_terminal_state V.cloud poller)
        (λ e. if is_missing e then pure tt else raise e)
