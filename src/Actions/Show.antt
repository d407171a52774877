-- ===== src/Actions/Show.antt =====
-- `show`: the status of the management actions of an instance, on a transient display.
use azure_iot_ops_cli_extens.Base.{
  String, Bool, true, false, ◌&&◌, Option, none, some, List, [], ◌∷◌, if◌then◌else◌, truthy,
  is_some,
}
use azure_iot_ops_cli_extens.Base.Dict.{Dict}
use azure_iot_ops_cli_extens.Base.Exec.{
  Outcome, returned, Exec, ◌>>=◌, ◌>>◌, pure, raise, try_except,
}
use azure_iot_ops_cli_extens.Base.Outcomes.{lift}
use azure_iot_ops_cli_extens.Base.Json.{
  Json, null, bool, str, dict, json_truthy, get, index, text_of,
}
use azure_iot_ops_cli_extens.ResourceId.{Parsed, parse_resource_id, or_text}
use azure_iot_ops_cli_extens.Workflow
use azure_iot_ops_cli_extens.Workflow.{complete}
use azure_iot_ops_cli_extens.Cloud.{Run}
use azure_iot_ops_cli_extens.Cloud.Scope.{update_step, step_scope}
use azure_iot_ops_cli_extens.Actions.{
  Address, dataflow_graph, dataflow_endpoint, permission_binding, topic_space, event_grid_namespace,
  Clients, EgContext, id_name, id_group, id_subscription, is_missing, ask, exists,
}
use azure_iot_ops_cli_extens.Actions.Namespace.{endpoints_of, adr_reference, custom_location_of}
use azure_iot_ops_cli_extens.Actions.Documents.{
  endpoint_section, hostname_of, templates_of, client_group_of, authentication_of,
}
use azure_iot_ops_cli_extens.Actions.Context.{is_complete, discover_eg_context}
use azure_iot_ops_cli_extens.Actions.Discovery.{discover_dataflow_profile}
use azure_iot_ops_cli_extens.Actions.Teardown.{stated}
use azure_iot_ops_cli_extens.Actions.Disable.{Command, first_step, own_name, orphan_target}

abbrev pub status_categories : Dict String (List String)
status_categories =
    ("Analyzing", first_step ∷ "Event Grid resources" ∷ "Instance dataflow resources" ∷ []) ∷ []

-- What a step finds: a section of the answer, and whether all of it is there.
pub record Part : Type 0 where
  pub section : Json
  pub all_exist : Bool

-- `adr_section` and `mgmt_endpoint`
pub record AdrPart : Type 0 where
  pub adr_section : Json
  pub mgmt_endpoint : Json

abbrev pub no_adr : AdrPart
no_adr = record { adr_section = null; mgmt_endpoint = null }

abbrev pub adr_section_of : Parsed → Json → Json
adr_section_of parsed endpoint = dict (
    ("name", str (id_name parsed))
    ∷ ("resourceGroup", str (id_group parsed))
    ∷ ("subscriptionId", str (id_subscription parsed))
    ∷ ("managementEndpoint", endpoint)
    ∷ [])

abbrev pub eg_detail : Json → Option EgContext → String
eg_detail section ctx =
    if json_truthy section then "done" else elim ctx [ none ↦ "skipped" | some _ ↦ "not reachable" ]

-- A name or None.
abbrev pub name_or_null : Option String → Json
name_or_null none = null
name_or_null (some s) = str s

abbrev pub exists_section : String → Bool → Json
exists_section name b = dict (("name", str name) ∷ ("exists", bool b) ∷ [])

module _ (V : Clients) (q : Command) where
  -- `try: r = get() ... except ResourceNotFoundError: pass`: what is there, and what is read of it.
  unfoldable pub read : Address → (Json → Outcome Json) → Json → Exec (Run V.cloud) Part
  unfolding ask
  read t f absent =
      try_except
        (do
          found ← ask V (V.get_target t)
          section ← lift (f found)
          pure (record { section = section; all_exist = true }))
        (λ e.
          if is_missing e then pure (record { section = absent; all_exist = false }) else raise e)

  unfoldable pub read_namespace : Parsed → String → Exec (Run V.cloud) AdrPart
  unfolding ask endpoints_of endpoint_section
  read_namespace parsed location =
      try_except
        (do
          ns ← ask V (V.get_namespace (id_group parsed) (id_name parsed))
          existing ← lift (endpoints_of ns)
          endpoint ← lift (if truthy location then get location null existing else returned null)
          section ← lift (endpoint_section endpoint)
          pure (record { adr_section = adr_section_of parsed section; mgmt_endpoint = endpoint }))
        (λ e. if is_missing e then pure no_adr else raise e)

  unfoldable pub read_reference : Json → String → Exec (Run V.cloud) AdrPart
  unfolding read_namespace
  read_reference reference location =
      if json_truthy reference
      then (do
        rid ← lift (text_of reference)
        if is_complete (parse_resource_id rid)
            then read_namespace (parse_resource_id rid) location
            else pure no_adr)
      else pure no_adr

  -- The body of the first step: the id of the instance with what the registry has.
  unfoldable pub show_adr : Exec (Run V.cloud) (String × AdrPart)
  unfolding read_reference adr_reference custom_location_of
  show_adr = do
    instance_doc ← ask V (V.get_instance q.resource_group_name q.name)
    id ← lift (index "id" instance_doc)
    instance_id ← lift (text_of id)
    location ← lift (custom_location_of instance_doc)
    reference ← lift (adr_reference instance_doc)
    part ← read_reference reference location
    update_step V.cloud "Analyzing" first_step complete "done"
    pure (instance_id, part)

  unfoldable pub read_binding : String → EgContext → String → Exec (Run V.cloud) Part
  unfolding read client_group_of
  read_binding client c name =
      read (permission_binding client c.resource_group_name c.namespace_name name)
        (client_group_of name) (dict (("name", str name) ∷ []))

  abbrev eg_section : EgContext → Json → Part → Part → Part → Json
  eg_section c mqtt_hostname ts publisher subscriber = dict (
      (
        "namespace",
        dict (
            ("name", str c.namespace_name)
            ∷ ("resourceGroup", str c.resource_group_name)
            ∷ ("subscriptionId", str c.subscription_id)
            ∷ ("mqttHostname", mqtt_hostname)
            ∷ []),
      )
      ∷ ("topicSpace", ts.section)
      ∷ (
        "permissionBindings",
        dict (
            ("publisher", publisher.section)
            ∷ ("subscriber", subscriber.section)
            ∷ ("exists", bool (publisher.all_exist && subscriber.all_exist))
            ∷ []),
      )
      ∷ [])

  -- Where a context was discovered. A namespace that is missing leaves the section out.
  unfoldable pub read_eg : String → String → EgContext → Exec (Run V.cloud) Part
  unfolding read read_binding ask hostname_of templates_of own_name
  read_eg rid client c =
      try_except
        (do
          ns ←
              ask V
                (V.get_target (event_grid_namespace client c.resource_group_name c.namespace_name))
          mqtt_hostname ← lift (hostname_of ns)
          let ts_name = own_name V q "ops" rid
          ts ←
              read (topic_space client c.resource_group_name c.namespace_name ts_name)
                (templates_of ts_name q.name) (exists_section ts_name false)
          publisher ← read_binding client c (own_name V q "pub" rid)
          subscriber ← read_binding client c (own_name V q "sub" rid)
          pure (record {
            section = eg_section c mqtt_hostname ts publisher subscriber;
            all_exist = ts.all_exist && (publisher.all_exist && subscriber.all_exist);
          }))
        (λ e. if is_missing e then pure (record { section = null; all_exist = false }) else raise e)

  unfoldable pub read_context : String → String → Option EgContext → Exec (Run V.cloud) Part
  unfolding read_eg
  read_context rid client none = pure (record { section = null; all_exist = false })
  read_context rid client (some c) = read_eg rid client c

  -- The body of the second step.
  unfoldable pub show_eg : String → Json → Exec (Run V.cloud) Part
  unfolding read_context discover_eg_context
  show_eg rid mgmt_endpoint = do
    (ctx, client) ← lift (discover_eg_context q.default_subscription_id q.client mgmt_endpoint)
    part ← read_context rid client ctx
    update_step V.cloud "Analyzing" "Event Grid resources" complete (eg_detail part.section ctx)
    pure part

  unfoldable pub graph_address : String → String → Address
  unfolding own_name
  graph_address rid profile =
      dataflow_graph q.resource_group_name q.name profile (own_name V q "req" rid)

  -- The response dataflow, first in the profile of the graph.
  unfoldable pub find_response : String → Option String → Exec (Run V.cloud) (Option String)
  unfolding discover_dataflow_profile orphan_target exists
  find_response rid none =
      discover_dataflow_profile V q.name q.resource_group_name (orphan_target V q rid)
  find_response rid (some profile) = do
    found ← exists V (orphan_target V q rid profile)
    if found
        then pure (some profile)
        else discover_dataflow_profile V q.name q.resource_group_name (orphan_target V q rid)

  abbrev instance_section : String → Part → Option String → Option String → Json
  instance_section rid ep graph response = dict (
      ("dataflowProfile", name_or_null (or_text graph response))
      ∷ (
        "dataflowEndpoint",
        dict (
            ("name", str (own_name V q "eg" rid))
            ∷ ("authentication", ep.section)
            ∷ ("exists", bool ep.all_exist)
            ∷ []),
      )
      ∷ ("requestDataflowGraph", exists_section (own_name V q "req" rid) (is_some (stated graph)))
      ∷ ("responseDataflow", exists_section (own_name V q "resp" rid) (is_some (stated response)))
      ∷ [])

  -- The body of the third step.
  unfoldable pub show_instance : String → Exec (Run V.cloud) Part
  unfolding read find_response discover_dataflow_profile graph_address authentication_of own_name
  show_instance rid = do
    ep ←
        read (dataflow_endpoint q.resource_group_name q.name (own_name V q "eg" rid))
          authentication_of null
    graph ← discover_dataflow_profile V q.name q.resource_group_name (graph_address rid)
    response ← find_response rid (stated graph)
    update_step V.cloud "Analyzing" "Instance dataflow resources" complete "done"
    pure (record {
      section = instance_section rid ep graph response;
      all_exist = ep.all_exist && (is_some (stated graph) && is_some (stated response));
    })

  abbrev status_of : AdrPart → Part → Part → Json
  status_of adr eg aio = dict (
      ("enabled", bool (json_truthy adr.mgmt_endpoint && (eg.all_exist && aio.all_exist)))
      ∷ ("instance", aio.section)
      ∷ ("eventGrid", eg.section)
      ∷ ("deviceRegistryNamespace", adr.adr_section)
      ∷ [])

  unfoldable pub show : Bool → Exec (Run V.cloud) Json
  unfolding show_adr show_eg show_instance
  show no_progress s =
      (do
        (rid, adr) ← step_scope V.cloud "Analyzing" first_step show_adr
        eg ← step_scope V.cloud "Analyzing" "Event Grid resources" (show_eg rid adr.mgmt_endpoint)
        aio ← step_scope V.cloud "Analyzing" "Instance dataflow resources" (show_instance rid)
        pure (status_of adr eg aio))
        (record {
          world = s.world;
          display = Workflow.init "Management Actions Status" status_categories no_progress;
          requests = s.requests;
        })
