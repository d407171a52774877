-- ===== src/Actions/Shown.antt =====
-- `show` only reads.
use azure_iot_ops_cli_extens.Base.{
  String, ◌≡◌, refl, Bool, Option, none, some, if◌then◌else◌, arith,
}
use azure_iot_ops_cli_extens.Base.Exec.{Outcome, Exec, pure, raise, try_except}
use azure_iot_ops_cli_extens.Base.Json.{Json, json_truthy, text_of}
use azure_iot_ops_cli_extens.Cloud.{Run}
use azure_iot_ops_cli_extens.Cloud.Scope.{step_scope}
use azure_iot_ops_cli_extens.Cloud.Quiet.{bind-requests, try-requests, step_scope-requests}
use azure_iot_ops_cli_extens.Actions.{
  Address, Clients, EgContext, is_missing, id_group, id_name, event_grid_namespace, ask, exists,
}
use azure_iot_ops_cli_extens.Actions.Discovery.{discover_dataflow_profile}
use azure_iot_ops_cli_extens.Actions.Teardown.{stated}
use azure_iot_ops_cli_extens.Actions.Disable.{Command, orphan_target}
use azure_iot_ops_cli_extens.Actions.Quiet.{
  IsQuiet, ask-IsQuiet, lift-IsQuiet, exists-IsQuiet, if_IsQuiet, discover-IsQuiet, update_IsQuiet,
}
use azure_iot_ops_cli_extens.ResourceId.{Parsed, parse_resource_id}
use azure_iot_ops_cli_extens.Actions.Context.{is_complete}
use azure_iot_ops_cli_extens.Actions.Show.{
  read, read_namespace, read_reference, show_adr, read_binding, read_eg, read_context, show_eg,
  graph_address, find_response, show_instance, show,
}

abbrev namespace_of_context : String → EgContext → Address
namespace_of_context client c = event_grid_namespace client c.resource_group_name c.namespace_name

module _ (V : Clients) (q : Command) where
  -- A get whose errors are all missing resources or go on.
  guarded_IsQuiet :
      {A : Type 0} (m : Exec (Run V.cloud) A) (absent : A)
      → IsQuiet V m
      → IsQuiet V (try_except m (λ e. if is_missing e then pure absent else raise e))
  guarded_IsQuiet m absent h = try-requests V.cloud m _ h (λ e s. ground arith)

  read-IsQuiet :
      (t : Address) (f : Json → Outcome Json) (absent : Json) → IsQuiet V (read V q t f absent)
  unfolding read
  read-IsQuiet t f absent = guarded_IsQuiet _ _ (
      bind-requests V.cloud (ask V (V.get_target t)) _ (ask-IsQuiet V (V.get_target t))
        λ found. lift-IsQuiet V (f found) _ (λ section s. refl))

  read_namespace-IsQuiet :
      (parsed : Parsed) (location : String) → IsQuiet V (read_namespace V q parsed location)
  unfolding read_namespace
  read_namespace-IsQuiet parsed location = guarded_IsQuiet _ _ (
      bind-requests V.cloud (ask V (V.get_namespace (id_group parsed) (id_name parsed))) _
        (ask-IsQuiet V (V.get_namespace (id_group parsed) (id_name parsed)))
        λ ns.
          lift-IsQuiet V _ _
            λ existing. lift-IsQuiet V _ _ λ endpoint. lift-IsQuiet V _ _ (λ section s. refl))

  read_reference-IsQuiet :
      (reference : Json) (location : String) → IsQuiet V (read_reference V q reference location)
  unfolding read_reference
  read_reference-IsQuiet reference location =
      if_IsQuiet V (json_truthy reference) _ _
        (lift-IsQuiet V (text_of reference) _ λ rid.
          if_IsQuiet V (is_complete (parse_resource_id rid)) _ _
            (read_namespace-IsQuiet (parse_resource_id rid) location) (λ s. refl))
        (λ s. refl)

  show_adr-IsQuiet : IsQuiet V (show_adr V q)
  unfolding show_adr
  show_adr-IsQuiet =
      bind-requests V.cloud (ask V (V.get_instance q.resource_group_name q.name)) _
        (ask-IsQuiet V (V.get_instance q.resource_group_name q.name))
        λ doc. lift-IsQuiet V _ _ λ id. lift-IsQuiet V _ _ λ rid. lift-IsQuiet V _ _ λ location.
          lift-IsQuiet V _ _ λ reference.
            bind-requests V.cloud (read_reference V q reference location) _
              (read_reference-IsQuiet reference location)
              λ part. update_IsQuiet V _ _ _ _ (λ s. refl)

  read_eg-IsQuiet : (rid client : String) (c : EgContext) → IsQuiet V (read_eg V q rid client c)
  unfolding read_eg read_binding
  read_eg-IsQuiet rid client c = guarded_IsQuiet _ _ (
      bind-requests V.cloud (ask V (V.get_target (namespace_of_context client c))) _
        (ask-IsQuiet V (V.get_target (namespace_of_context client c)))
        λ ns. lift-IsQuiet V _ _ λ host.
          bind-requests V.cloud (read V q _ _ _) _ (read-IsQuiet _ _ _) λ ts.
            bind-requests V.cloud (read V q _ _ _) _ (read-IsQuiet _ _ _) λ publisher.
              bind-requests V.cloud (read V q _ _ _) _ (read-IsQuiet _ _ _) λ subscriber s. refl)

  read_context-IsQuiet :
      (rid client : String) (c : Option EgContext) → IsQuiet V (read_context V q rid client c)
  unfolding read_context
  read_context-IsQuiet rid client none = λ s. refl
  read_context-IsQuiet rid client (some c) = read_eg-IsQuiet rid client c

  show_eg-IsQuiet : (rid : String) (endpoint : Json) → IsQuiet V (show_eg V q rid endpoint)
  unfolding show_eg
  show_eg-IsQuiet rid endpoint = lift-IsQuiet V _ _ λ found.
      bind-requests V.cloud (read_context V q rid _ _) _ (read_context-IsQuiet rid _ _)
        λ part. update_IsQuiet V _ _ _ _ (λ s. refl)

  find_response-IsQuiet :
      (rid : String) (graph : Option String) → IsQuiet V (find_response V q rid graph)
  unfolding find_response
  find_response-IsQuiet rid none =
      discover-IsQuiet V q.name q.resource_group_name (orphan_target V q rid)
  find_response-IsQuiet rid (some profile) =
      bind-requests V.cloud (exists V (orphan_target V q rid profile)) _
        (exists-IsQuiet V (orphan_target V q rid profile))
        λ found.
          if_IsQuiet V found _ _ (λ s. refl)
            (discover-IsQuiet V q.name q.resource_group_name (orphan_target V q rid))

  show_instance-IsQuiet : (rid : String) → IsQuiet V (show_instance V q rid)
  unfolding show_instance
  show_instance-IsQuiet rid = bind-requests V.cloud (read V q _ _ _) _ (read-IsQuiet _ _ _) λ ep.
      bind-requests V.cloud (discover_dataflow_profile V q.name q.resource_group_name _) _
        (discover-IsQuiet V q.name q.resource_group_name (graph_address V q rid))
        λ graph.
          bind-requests V.cloud (find_response V q rid (stated graph)) _
            (find_response-IsQuiet rid (stated graph))
            λ response. update_IsQuiet V _ _ _ _ (λ s. refl)

  -- Whatever the clients answer, `show` starts no change: it only reads.
  pub show-requests :
      (no_progress : Bool) (s : Run V.cloud) → (show V q no_progress s).1.requests ≡ s.requests
  unfolding show
  show-requests no_progress s =
      bind-requests V.cloud (step_scope V.cloud _ _ (show_adr V q)) _
        (step_scope-requests V.cloud _ _ _ (show_adr V q) show_adr-IsQuiet)
        (λ found.
          bind-requests V.cloud (step_scope V.cloud _ _ (show_eg V q found.0 found.1.mgmt_endpoint))
            _
            (step_scope-requests V.cloud _ _ _ (show_eg V q found.0 found.1.mgmt_endpoint)
              (show_eg-IsQuiet found.0 found.1.mgmt_endpoint))
            λ eg.
              bind-requests V.cloud (step_scope V.cloud _ _ (show_instance V q found.0)) _
                (step_scope-requests V.cloud _ _ _ (show_instance V q found.0)
                  (show_instance-IsQuiet found.0))
                (λ aio t. refl))
        _
