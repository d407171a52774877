-- ===== src/Actions/Teardown.antt =====
-- `_execute_disable_teardown` and its three parts, on a display that stays.
use azure_iot_ops_cli_extens.Base.{
  String, ◌<>◌, Bool, ◌||◌, Option, none, some, List, [], ◌∷◌, if◌then◌else◌,
}
use azure_iot_ops_cli_extens.Base.Dict.{Dict}
use azure_iot_ops_cli_extens.Base.Exec.{Exec, ◌>>=◌, ◌>>◌, pure}
use azure_iot_ops_cli_extens.Base.Outcomes.{lift}
use azure_iot_ops_cli_extens.Base.Json.{Json, is_key}
use azure_iot_ops_cli_extens.ResourceId.{or_text}
use azure_iot_ops_cli_extens.Workflow
use azure_iot_ops_cli_extens.Workflow.{complete, skipped}
use azure_iot_ops_cli_extens.Cloud.{Run, begin_delete, wait_for_terminal_state}
use azure_iot_ops_cli_extens.Cloud.Scope.{update_step, step_scope}
use azure_iot_ops_cli_extens.Actions.{
  Address, dataflow, dataflow_graph, dataflow_endpoint, permission_binding, topic_space,
  replace_namespace, Clients, EgContext, graceful_delete,
}
use azure_iot_ops_cli_extens.Actions.Namespace.{build_adr_put_payload}
use azure_iot_ops_cli_extens.Actions.Discovery.{EgFound}

-- The arguments of the teardown: what the discovery resolved. `client` is the subscription of the
-- Event Grid client.
pub record Findings : Type 0 where
  pub name : String
  pub resource_group_name : String
  pub dataflow_profile_name : Option String
  pub resp_profile_name : Option String
  pub resp_name : String
  pub graph_name : String
  pub ep_name : String
  pub ep_exists : Bool
  pub adr_namespace : Json
  pub adr_resource_group : String
  pub adr_namespace_name : String
  pub custom_location_id : String
  pub existing_endpoints : Json
  pub eg_ctx : Option EgContext
  pub client : String
  pub pub_name : String
  pub sub_name : String
  pub ts_name : String
  pub eg : EgFound

-- `if name:` on what may be None.
abbrev pub stated : Option String → Option String
stated o = or_text o none

abbrev pub eg_label : Option EgContext → String
eg_label none = "Event Grid Namespace"
eg_label (some c) = "Event Grid Namespace (" <> (c.namespace_name <> ")")

abbrev pub aio_label : String → String
aio_label name = "IoT Operations Instance (" <> (name <> ")")

abbrev pub adr_label : String → String
adr_label name = "Device Registry Namespace (" <> (name <> ")")

abbrev pub teardown_categories : Findings → Dict String (List String)
teardown_categories f =
    (aio_label f.name, "Response dataflow" ∷ "Dataflow graph" ∷ "EG dataflow endpoint" ∷ [])
    ∷ (adr_label f.adr_namespace_name, "Management endpoint" ∷ [])
    ∷ (eg_label f.eg_ctx, "Permission bindings" ∷ "Topic space" ∷ [])
    ∷ []

abbrev pub response_target : Findings → String → Address
response_target f profile = dataflow f.resource_group_name f.name profile f.resp_name

abbrev pub graph_target : Findings → String → Address
graph_target f profile = dataflow_graph f.resource_group_name f.name profile f.graph_name

abbrev pub endpoint_target : Findings → Address
endpoint_target f = dataflow_endpoint f.resource_group_name f.name f.ep_name

abbrev pub binding_target : Findings → EgContext → String → Address
binding_target f c name = permission_binding f.client c.resource_group_name c.namespace_name name

abbrev pub topic_target : Findings → EgContext → Address
topic_target f c = topic_space f.client c.resource_group_name c.namespace_name f.ts_name

module _ (V : Clients) where
  -- `with display.step_scope(category, step)`: the deletion of one resource.
  unfoldable pub removal : String → String → Address → Exec (Run V.cloud) (Unit {0})
  unfolding graceful_delete
  removal category step t =
      step_scope V.cloud category step
        (graceful_delete V t >> update_step V.cloud category step complete "removed")

  unfoldable pub skip : String → String → Exec (Run V.cloud) (Unit {0})
  skip category step = update_step V.cloud category step skipped "not found"

  -- The dataflow and its graph, by the profiles where they were found.
  unfoldable pub teardown_dataflows :
      Findings → String → Option String → Option String → Exec (Run V.cloud) (Unit {0})
  unfolding removal skip
  teardown_dataflows f category (some profile) _ =
      removal category "Response dataflow" (response_target f profile)
      >> removal category "Dataflow graph" (graph_target f profile)
  teardown_dataflows f category none (some profile) =
      removal category "Response dataflow" (response_target f profile)
      >> skip category "Dataflow graph"
  teardown_dataflows f category none none =
      skip category "Response dataflow" >> skip category "Dataflow graph"

  unfoldable pub teardown_aio_resources : Findings → String → Exec (Run V.cloud) (Unit {0})
  unfolding teardown_dataflows
  teardown_aio_resources f category =
      teardown_dataflows f category (stated f.dataflow_profile_name) (stated f.resp_profile_name)
      >> (if f.ep_exists
          then removal category "EG dataflow endpoint" (endpoint_target f)
          else skip category "EG dataflow endpoint")

  -- The namespace is put back without the endpoint.
  unfoldable pub remove_endpoint : Findings → Exec (Run V.cloud) (Unit {0})
  unfolding build_adr_put_payload
  remove_endpoint f = do
    put_payload ← lift (build_adr_put_payload f.adr_namespace f.custom_location_id)
    poller ←
        begin_delete V.cloud
          (replace_namespace f.adr_resource_group f.adr_namespace_name put_payload)
    wait_for_terminal_state V.cloud poller

  unfoldable pub teardown_adr_endpoint : Findings → String → Exec (Run V.cloud) (Unit {0})
  unfolding remove_endpoint skip is_key
  teardown_adr_endpoint f category = do
    found ← lift (is_key f.custom_location_id f.existing_endpoints)
    if found
        then step_scope V.cloud category "Management endpoint" (
            remove_endpoint f
            >> update_step V.cloud category "Management endpoint" complete "removed")
        else skip category "Management endpoint"

  unfoldable pub delete_if : Bool → Address → Exec (Run V.cloud) (Unit {0})
  unfolding graceful_delete
  delete_if wanted t = if wanted then graceful_delete V t else pure tt

  unfoldable pub teardown_bindings : Findings → String → EgContext → Exec (Run V.cloud) (Unit {0})
  unfolding delete_if skip
  teardown_bindings f category c =
      if f.eg.pub_exists || f.eg.sub_exists
      then step_scope V.cloud category "Permission bindings" (
          delete_if f.eg.pub_exists (binding_target f c f.pub_name)
          >> (delete_if f.eg.sub_exists (binding_target f c f.sub_name)
              >> update_step V.cloud category "Permission bindings" complete "removed"))
      else skip category "Permission bindings"

  unfoldable pub teardown_eg_resources :
      Findings → String → Option EgContext → Exec (Run V.cloud) (Unit {0})
  unfolding teardown_bindings removal
  teardown_eg_resources f category none =
      skip category "Permission bindings" >> skip category "Topic space"
  teardown_eg_resources f category (some c) =
      teardown_bindings f category c
      >> (if f.eg.ts_exists
          then removal category "Topic space" (topic_target f c)
          else skip category "Topic space")

  unfoldable pub teardown : Findings → Exec (Run V.cloud) (Unit {0})
  unfolding teardown_aio_resources teardown_adr_endpoint teardown_eg_resources
  teardown f =
      teardown_aio_resources f (aio_label f.name)
      >> (teardown_adr_endpoint f (adr_label f.adr_namespace_name)
          >> teardown_eg_resources f (eg_label f.eg_ctx) f.eg_ctx)

  -- On a display of its own.
  unfoldable pub execute_disable_teardown : Bool → Findings → Exec (Run V.cloud) (Unit {0})
  unfolding teardown
  execute_disable_teardown no_progress f s = teardown f (record {
    world = s.world;
    display = Workflow.init "Management Actions Disablement" (teardown_categories f) no_progress;
    requests = s.requests;
  })
