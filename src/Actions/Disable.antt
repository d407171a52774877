-- ===== src/Actions/Disable.antt =====
-- `disable`: the discovery on a transient display, the prompt and the teardown.
use azure_iot_ops_cli_extens.Base.{
  ℕ, zero, suc, ◌+◌, String, ◌<>◌, Bool, not, Option, none, some, List, [], ◌∷◌, if◌then◌else◌,
  is_some, str_nat,
}
use azure_iot_ops_cli_extens.Base.Dict.{Dict}
use azure_iot_ops_cli_extens.Base.Exec.{Exec, ◌>>=◌, ◌>>◌, pure, raise, try_except}
use azure_iot_ops_cli_extens.Base.Outcomes.{lift}
use azure_iot_ops_cli_extens.Base.Json.{Json, null, json_truthy, get, index, text_of}
use azure_iot_ops_cli_extens.ResourceId.{parse_resource_id}
use azure_iot_ops_cli_extens.Workflow
use azure_iot_ops_cli_extens.Workflow.{complete, skipped}
use azure_iot_ops_cli_extens.Cloud.{Run}
use azure_iot_ops_cli_extens.Cloud.Scope.{update_step, step_scope}
use azure_iot_ops_cli_extens.Deletion.Work.{should_continue_prompt}
use azure_iot_ops_cli_extens.Actions.{
  Address, dataflow, dataflow_graph, dataflow_endpoint, Clients, EgContext, id_name, id_group,
  is_missing, ask, exists, get_mgmt_actions_resource_name,
}
use azure_iot_ops_cli_extens.Actions.Namespace.{endpoints_of, adr_reference, custom_location_of}
use azure_iot_ops_cli_extens.Actions.Context.{discover_eg_context}
use azure_iot_ops_cli_extens.Actions.Discovery.{
  EgFound, probe_eg_resources, discover_dataflow_profile,
}
use azure_iot_ops_cli_extens.Actions.Teardown.{Findings, stated, execute_disable_teardown}

-- What the first step finds.
pub record Located : Type 0 where
  pub instance_resource_id : String
  pub adr_namespace : Json
  pub adr_resource_group : String
  pub adr_namespace_name : String
  pub custom_location_id : String
  pub existing_endpoints : Json
  pub eg_ctx : Option EgContext
  pub client : String

-- What the second step finds.
pub record Profiles : Type 0 where
  pub dataflow_profile_name : Option String
  pub resp_profile_name : Option String
  pub ep_exists : Bool

abbrev pub first_step : String
first_step = "Instance & ADR namespace"

abbrev pub analyzing_categories : Dict String (List String)
analyzing_categories =
    ("Analyzing", first_step ∷ "Dataflow profile detection" ∷ "EG resource probing" ∷ []) ∷ []

abbrev pub profile_detail : Option String → Option String → String
profile_detail (some _) _ = "found"
profile_detail none (some _) = "orphaned"
profile_detail none none = "not found"

abbrev pub count_of : Bool → ℕ
count_of b = if b then 1 else 0

abbrev pub probe_detail : EgFound → String
probe_detail e =
    let found = count_of e.ts_exists + count_of e.pub_exists + count_of e.sub_exists in
    elim found [ zero ↦ "none found" | suc n ↦ str_nat (suc n) <> " found" ]

-- The argument pairs of the command: instance, resource group, and the subscription of the clients.
pub record Command : Type 0 where
  pub name : String
  pub resource_group_name : String
  pub default_subscription_id : String
  pub client : String

module _ (V : Clients) (q : Command) where
  unfoldable pub own_name : String → String → String
  unfolding get_mgmt_actions_resource_name
  own_name = get_mgmt_actions_resource_name V.hash

  -- `try: namespaces.get(...) except ResourceNotFoundError`
  unfoldable pub find_namespace : String → String → Exec (Run V.cloud) (Option Json)
  unfolding ask
  find_namespace group name =
      try_except (do ns ← ask V (V.get_namespace group name); pure (some ns))
        (λ e. if is_missing e then pure none else raise e)

  unfoldable pub skip_analysis : String → Exec (Run V.cloud) (Option Located)
  skip_analysis detail = update_step V.cloud "Analyzing" first_step skipped detail >> pure none

  -- Behind the namespace.
  unfoldable pub locate :
      Json → String → String → String → Option Json → Exec (Run V.cloud) (Option Located)
  unfolding skip_analysis endpoints_of custom_location_of discover_eg_context
  locate instance_doc instance_id group name none = skip_analysis "not found"
  locate instance_doc instance_id group name (some ns) = do
    custom_location_id ← lift (custom_location_of instance_doc)
    existing ← lift (endpoints_of ns)
    mgmt_endpoint ← lift (get custom_location_id null existing)
    (ctx, client) ← lift (discover_eg_context q.default_subscription_id q.client mgmt_endpoint)
    update_step V.cloud "Analyzing" first_step complete "found"
    pure (
        some (record {
          instance_resource_id = instance_id;
          adr_namespace = ns;
          adr_resource_group = group;
          adr_namespace_name = name;
          custom_location_id = custom_location_id;
          existing_endpoints = existing;
          eg_ctx = ctx;
          client = client;
        }))

  unfoldable pub locate_by : Json → String → Json → Exec (Run V.cloud) (Option Located)
  unfolding locate find_namespace skip_analysis
  locate_by instance_doc instance_id reference =
      if not (json_truthy reference) then skip_analysis "no ref" else (do
        rid ← lift (text_of reference)
        let parsed = parse_resource_id rid
        ns ← find_namespace (id_group parsed) (id_name parsed)
        locate instance_doc instance_id (id_group parsed) (id_name parsed) ns)

  -- The body of the first step.
  unfoldable pub locate_instance : Exec (Run V.cloud) (Option Located)
  unfolding locate_by adr_reference
  locate_instance = do
    instance_doc ← ask V (V.get_instance q.resource_group_name q.name)
    id ← lift (index "id" instance_doc)
    instance_id ← lift (text_of id)
    reference ← lift (adr_reference instance_doc)
    locate_by instance_doc instance_id reference

  unfoldable pub orphan_target : String → String → Address
  unfolding own_name
  orphan_target rid profile = dataflow q.resource_group_name q.name profile (own_name "resp" rid)

  -- Where the graph is gone, the profile of an orphaned response dataflow.
  unfoldable pub find_orphan : String → Option String → Exec (Run V.cloud) (Option String)
  unfolding discover_dataflow_profile
  find_orphan rid graph =
      if is_some (stated graph)
      then pure none
      else discover_dataflow_profile V q.name q.resource_group_name (orphan_target rid)

  -- The body of the second step.
  unfoldable pub find_profiles : String → Exec (Run V.cloud) Profiles
  unfolding find_orphan discover_dataflow_profile own_name
  find_profiles rid = do
    graph ←
        discover_dataflow_profile V q.name q.resource_group_name
          (λ p. dataflow_graph q.resource_group_name q.name p (own_name "req" rid))
    response ← find_orphan rid graph
    ep_exists ← exists V (dataflow_endpoint q.resource_group_name q.name (own_name "eg" rid))
    update_step V.cloud "Analyzing" "Dataflow profile detection" complete
        (profile_detail (stated graph) (stated response))
    pure (record {
      dataflow_profile_name = graph;
      resp_profile_name = response;
      ep_exists = ep_exists;
    })

  -- The body of the third step.
  unfoldable pub find_eg : Located → Exec (Run V.cloud) EgFound
  unfolding probe_eg_resources own_name
  find_eg l = do
    let rid = l.instance_resource_id
    eg ←
        probe_eg_resources V l.client l.eg_ctx (own_name "ops" rid) (own_name "pub" rid)
          (own_name "sub" rid)
    update_step V.cloud "Analyzing" "EG resource probing" complete (probe_detail eg)
    pure eg

  unfoldable pub findings_of : Located → Profiles → EgFound → Findings
  unfolding own_name
  findings_of l p eg =
      let rid = l.instance_resource_id in
      record {
        name = q.name;
        resource_group_name = q.resource_group_name;
        dataflow_profile_name = p.dataflow_profile_name;
        resp_profile_name = p.resp_profile_name;
        resp_name = own_name "resp" rid;
        graph_name = own_name "req" rid;
        ep_name = own_name "eg" rid;
        ep_exists = p.ep_exists;
        adr_namespace = l.adr_namespace;
        adr_resource_group = l.adr_resource_group;
        adr_namespace_name = l.adr_namespace_name;
        custom_location_id = l.custom_location_id;
        existing_endpoints = l.existing_endpoints;
        eg_ctx = l.eg_ctx;
        client = l.client;
        pub_name = own_name "pub" rid;
        sub_name = own_name "sub" rid;
        ts_name = own_name "ops" rid;
        eg = eg;
      }

  unfoldable pub probe : Option Located → Exec (Run V.cloud) (Option Findings)
  unfolding find_profiles find_eg findings_of
  probe none = pure none
  probe (some l) = do
    p ←
        step_scope V.cloud "Analyzing" "Dataflow profile detection"
          (find_profiles l.instance_resource_id)
    eg ← step_scope V.cloud "Analyzing" "EG resource probing" (find_eg l)
    pure (some (findings_of l p eg))

  -- The first phase, on its display.
  unfoldable pub analyze : Bool → Exec (Run V.cloud) (Option Findings)
  unfolding locate_instance probe
  analyze no_progress s =
      (step_scope V.cloud "Analyzing" first_step locate_instance >>= probe) (record {
        world = s.world;
        display = Workflow.init "Management Actions Disablement" analyzing_categories no_progress;
        requests = s.requests;
      })

  -- `answer` is what the user would reply to the prompt.
  unfoldable pub teardown_if_confirmed :
      Bool → Bool → Bool → Option Findings → Exec (Run V.cloud) (Unit {0})
  unfolding execute_disable_teardown should_continue_prompt
  teardown_if_confirmed confirm_yes answer no_progress none = pure tt
  teardown_if_confirmed confirm_yes answer no_progress (some f) =
      if should_continue_prompt confirm_yes answer
      then execute_disable_teardown V no_progress f
      else pure tt

  unfoldable pub disable : Bool → Bool → Bool → Exec (Run V.cloud) (Unit {0})
  unfolding analyze teardown_if_confirmed
  disable confirm_yes answer no_progress =
      analyze no_progress >>= teardown_if_confirmed confirm_yes answer no_progress
