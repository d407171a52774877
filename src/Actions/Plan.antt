-- ===== src/Actions/Plan.antt =====
-- What the teardown of the management actions sends, against a plan made of the findings.
use mathlib.Core.List.{append-nil, append_assoc}
use azure_iot_ops_cli_extens.Base.{
  String, ◌≡◌, refl, Bool, true, false, ◌||◌, Option, none, some, List, [], ◌∷◌, ◌++◌,
  if◌then◌else◌, arith,
}
use azure_iot_ops_cli_extens.Base.Exec.{Exec, ◌>>=◌, ◌>>◌, is_returned}
use azure_iot_ops_cli_extens.Base.Outcomes.{planned}
use azure_iot_ops_cli_extens.Base.Json.{is_key}
use azure_iot_ops_cli_extens.Base.Sends.{
  Sends, Sends-quiet, Sends-bind, Sends-planned, Sends-cast, Sends-always, Sends-then_quiet,
  Sends-try_always,
}
use azure_iot_ops_cli_extens.Workflow
use azure_iot_ops_cli_extens.Workflow.{complete}
use azure_iot_ops_cli_extens.Cloud.{Run, begin_delete, wait_for_terminal_state}
use azure_iot_ops_cli_extens.Cloud.Quiet.{
  log, update_step-requests, wait-requests, Sends-begin_delete, step_scope-Sends,
}
use azure_iot_ops_cli_extens.Actions.{
  Address, Change, remove, replace_namespace, Clients, EgContext, graceful_delete,
}
use azure_iot_ops_cli_extens.Actions.Namespace.{build_adr_put_payload}
use azure_iot_ops_cli_extens.Actions.Teardown.{
  Findings, stated, response_target, graph_target, endpoint_target, binding_target, topic_target,
  teardown_categories, removal, skip, teardown_dataflows, teardown_aio_resources, remove_endpoint,
  teardown_adr_endpoint, delete_if, teardown_bindings, teardown_eg_resources, teardown,
  execute_disable_teardown,
}

abbrev pub change_if : Bool → Address → List Change
change_if b t = if b then remove t ∷ [] else []

abbrev pub dataflow_plan : Findings → Option String → Option String → List Change
dataflow_plan f (some p) _ = remove (response_target f p) ∷ remove (graph_target f p) ∷ []
dataflow_plan f none (some p) = remove (response_target f p) ∷ []
dataflow_plan f none none = []

abbrev pub aio_plan : Findings → List Change
aio_plan f =
    dataflow_plan f (stated f.dataflow_profile_name) (stated f.resp_profile_name)
    ++ change_if f.ep_exists (endpoint_target f)

-- The change of the namespace, where the entry is there and the payload can be built.
abbrev pub put_plan : Findings → List Change
put_plan f =
    planned (build_adr_put_payload f.adr_namespace f.custom_location_id)
      (λ payload. replace_namespace f.adr_resource_group f.adr_namespace_name payload ∷ [])

abbrev pub adr_plan : Findings → List Change
adr_plan f =
    planned (is_key f.custom_location_id f.existing_endpoints)
      (λ found. if found then put_plan f else [])

abbrev pub eg_plan : Findings → Option EgContext → List Change
eg_plan f none = []
eg_plan f (some c) =
    change_if f.eg.pub_exists (binding_target f c f.pub_name)
    ++ (change_if f.eg.sub_exists (binding_target f c f.sub_name)
        ++ change_if f.eg.ts_exists (topic_target f c))

-- The response dataflow, its graph and the endpoint of the instance, then the entry of the
-- namespace, then the permission bindings and the topic space of Event Grid.
abbrev pub teardown_plan : Findings → List Change
teardown_plan f = aio_plan f ++ (adr_plan f ++ eg_plan f f.eg_ctx)

either_plan :
    (p q : Bool) (a b : Change)
    → (if p || q then (if p then a ∷ [] else []) ++ ((if q then b ∷ [] else []) ++ []) else [])
      ≡ (if p then a ∷ [] else []) ++ (if q then b ∷ [] else [])
either_plan true true a b = refl
either_plan true false a b = refl
either_plan false true a b = refl
either_plan false false a b = refl

module _ (V : Clients) where
  abbrev changes : Run V.cloud → List Change
  changes = log V.cloud

  abbrev Plans : {A : Type 0} → List Change → Exec (Run V.cloud) A → Type 0
  Plans = Sends changes is_returned

  graceful_delete-Sends :
      (t : Address) → Sends changes (λ _. true) (remove t ∷ []) (graceful_delete V t)
  unfolding graceful_delete
  graceful_delete-Sends t =
      Sends-try_always changes (begin_delete V.cloud (remove t) >>= wait_for_terminal_state V.cloud)
        _
        (Sends-then_quiet changes (begin_delete V.cloud (remove t))
          (wait_for_terminal_state V.cloud) (Sends-begin_delete V.cloud (remove t))
          (wait-requests V.cloud))
        (λ e s. ground arith)

  removal-Sends : (c st : String) (t : Address) → Plans (remove t ∷ []) (removal V c st t)
  unfolding removal
  removal-Sends c st t = step_scope-Sends V.cloud _ c st _ (
      Sends-always changes is_returned (
        Sends-then_quiet changes (graceful_delete V t) _ (graceful_delete-Sends t)
          (λ _. update_step-requests V.cloud c st complete "removed")))

  skip-Sends : (c st : String) → Plans [] (skip V c st)
  unfolding skip
  skip-Sends c st = Sends-quiet changes is_returned _ (update_step-requests V.cloud c st _ _)

  -- One statement behind another.
  then_Sends :
      {p q : List Change} {m k : Exec (Run V.cloud) (Unit {0})}
      → Plans p m
      → Plans q k
      → Plans (p ++ q) (m >> k)
  then_Sends h k = Sends-bind changes _ _ h (λ _. k)

  if_Sends :
      (b : Bool) {p : List Change} {m k : Exec (Run V.cloud) (Unit {0})}
      → Plans p m
      → Plans [] k
      → Plans (if b then p else []) (if b then m else k)
  if_Sends true h k = h
  if_Sends false h k = k

  dataflows-Sends :
      (f : Findings) (c : String) (p q : Option String)
      → Plans (dataflow_plan f p q) (teardown_dataflows V f c p q)
  unfolding teardown_dataflows
  dataflows-Sends f c (some p) q = then_Sends (removal-Sends c _ _) (removal-Sends c _ _)
  dataflows-Sends f c none (some p) = then_Sends (removal-Sends c _ _) (skip-Sends c _)
  dataflows-Sends f c none none = then_Sends (skip-Sends c _) (skip-Sends c _)

  aio-Sends : (f : Findings) (c : String) → Plans (aio_plan f) (teardown_aio_resources V f c)
  unfolding teardown_aio_resources
  aio-Sends f c =
      then_Sends (dataflows-Sends f c (stated f.dataflow_profile_name) (stated f.resp_profile_name))
        (if_Sends f.ep_exists (removal-Sends c _ _) (skip-Sends c _))

  remove_endpoint-Sends : (f : Findings) → Plans (put_plan f) (remove_endpoint V f)
  unfolding remove_endpoint
  remove_endpoint-Sends f =
      Sends-planned changes (build_adr_put_payload f.adr_namespace f.custom_location_id) _ _
        (λ payload. Sends-always changes is_returned (
          Sends-then_quiet changes (begin_delete V.cloud _) (wait_for_terminal_state V.cloud)
            (Sends-begin_delete V.cloud _) (wait-requests V.cloud)))

  adr-Sends : (f : Findings) (c : String) → Plans (adr_plan f) (teardown_adr_endpoint V f c)
  unfolding teardown_adr_endpoint
  adr-Sends f c =
      Sends-planned changes (is_key f.custom_location_id f.existing_endpoints) _ _ (λ found.
        if_Sends found
          (step_scope-Sends V.cloud _ c "Management endpoint" _ (
            Sends-cast changes (append-nil (put_plan f)) (
              then_Sends (remove_endpoint-Sends f)
                (Sends-quiet changes is_returned _ (update_step-requests V.cloud c _ complete _)))))
          (skip-Sends c _))

  delete_if-Sends : (b : Bool) (t : Address) → Plans (change_if b t) (delete_if V b t)
  unfolding delete_if
  delete_if-Sends b t =
      if_Sends b (Sends-always changes is_returned (graceful_delete-Sends t))
        (Sends-quiet changes is_returned _ (λ s. refl))

  bindings-Sends :
      (f : Findings) (c : String) (eg : EgContext)
      → Plans
          (change_if f.eg.pub_exists (binding_target f eg f.pub_name)
            ++ change_if f.eg.sub_exists (binding_target f eg f.sub_name))
          (teardown_bindings V f c eg)
  unfolding teardown_bindings
  bindings-Sends f c eg =
      Sends-cast changes
        (either_plan f.eg.pub_exists f.eg.sub_exists (remove (binding_target f eg f.pub_name))
          (remove (binding_target f eg f.sub_name)))
        (if_Sends (f.eg.pub_exists || f.eg.sub_exists)
          (step_scope-Sends V.cloud _ c "Permission bindings" _ (
            then_Sends (delete_if-Sends f.eg.pub_exists _) (
              then_Sends (delete_if-Sends f.eg.sub_exists _)
                (Sends-quiet changes is_returned _ (update_step-requests V.cloud c _ complete _)))))
          (skip-Sends c _))

  eg-Sends :
      (f : Findings) (c : String) (eg : Option EgContext)
      → Plans (eg_plan f eg) (teardown_eg_resources V f c eg)
  unfolding teardown_eg_resources
  eg-Sends f c none = then_Sends (skip-Sends c _) (skip-Sends c _)
  eg-Sends f c (some eg) =
      Sends-cast changes
        (append_assoc (change_if f.eg.pub_exists (binding_target f eg f.pub_name)) _ _)
        (then_Sends (bindings-Sends f c eg)
          (if_Sends f.eg.ts_exists (removal-Sends c _ _) (skip-Sends c _)))

  teardown-Sends : (f : Findings) → Plans (teardown_plan f) (teardown V f)
  unfolding teardown
  teardown-Sends f = then_Sends (aio-Sends f _) (then_Sends (adr-Sends f _) (eg-Sends f _ f.eg_ctx))

  -- x
  pub execute_disable_teardown-changes :
      (no_progress : Bool) (f : Findings) (s : Run V.cloud)
      → (sent : List Change) × (unsent : List Change) × ((execute_disable_teardown V no_progress f
            s).1.requests
          ≡ s.requests ++ sent)
        × (teardown_plan f ≡ sent ++ unsent)
        × (is_returned (execute_disable_teardown V no_progress f s).0 ≡ true → unsent ≡ [])
  unfolding execute_disable_teardown
  execute_disable_teardown-changes no_progress f s =
      let k = teardown-Sends f in
      let t : Run V.cloud = record {
        world = s.world;
        display =
            Workflow.init "Management Actions Disablement" (teardown_categories f) no_progress;
        requests = s.requests;
      } in
      (k.sent t, k.unsent t, k.requests t, k.split t, k.complete t)
