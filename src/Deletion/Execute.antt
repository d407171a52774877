-- ===== src/Deletion/Execute.antt =====
-- `_execute` and the steps that it runs.
use azure_iot_ops_cli_extens.Base.{
  String, Bool, true, false, Option, none, some, List, [], ◌∷◌, map, if◌then◌else◌, ◌==◌, nat_eq,
  length, not,
}
use azure_iot_ops_cli_extens.Base.Exec.{
  Exc, http_error, not_found, Exec, ◌>>=◌, ◌>>◌, pure, raise, try_except,
}
use azure_iot_ops_cli_extens.ResourceMap.{Resource}
use azure_iot_ops_cli_extens.Workflow
use azure_iot_ops_cli_extens.Workflow.{StepState, active, complete, failed, Display}
use azure_iot_ops_cli_extens.Cloud.{
  Request, by_id, extension, Cloud, Run, begin_delete, wait_for_terminal_state,
  wait_for_terminal_states,
}
use azure_iot_ops_cli_extens.Deletion.Manager.{
  Manager, step_instance, step_aio_ext, step_cl_resources, step_sync_rules, step_custom_location,
  step_dep_extensions, wanted_deps, batch_by_segment_depth, count_label, categories,
}
unfoldable pub use azure_iot_ops_cli_extens.Cloud.Scope.{update_step, fail_step, step_scope, short}

-- `except HttpResponseError as e: if e.status_code == 404`
abbrev pub is_not_found : Exc → Bool
is_not_found (http_error (some status) _) = status == 404
is_not_found (not_found _) = true
is_not_found _ = false

abbrev pub is_http : Exc → Bool
is_http (http_error _ _) = true
is_http (not_found _) = true
is_http _ = false

module _ (C : Cloud Request) where
  -- A 404 counts as done; any other error goes on.
  unfoldable pub unless_not_found : Exc → Exec (Run C) (Unit {0})
  unless_not_found e = if is_not_found e then pure tt else raise e

  unfoldable pub delete_and_wait : Request → Exec (Run C) (Unit {0})
  delete_and_wait q = do poller ← begin_delete C q; wait_for_terminal_state C poller

  -- The body of `_execute_step_single` and of `_execute_extension_single`.
  unfoldable pub delete_single : String → String → Request → Exec (Run C) (Unit {0})
  unfolding delete_and_wait unless_not_found
  delete_single category name q = step_scope C category name (
      try_except (delete_and_wait q) unless_not_found
      >> update_step C category name complete "removed")

  unfoldable pub set_all : String → StepState → String → List Resource → Exec (Run C) (Unit {0})
  set_all category state detail [] = pure tt
  set_all category state detail (r ∷ rs) =
      update_step C category r.display_name state detail >> set_all category state detail rs

  -- The handler around the start of one deletion of a parallel batch.
  unfoldable pub begin_failed : String → Resource → Exc → Exec (Run C) (Option C.Poller)
  begin_failed category r e =
      if is_not_found e
      then (update_step C category r.display_name complete "removed" >> pure none)
      else if is_http e
      then (update_step C category r.display_name failed (short e) >> raise e)
      else raise e

  unfoldable pub begin_one :
      String → (Resource → Request) → Resource → Exec (Run C) (Option C.Poller)
  unfolding begin_failed
  begin_one category request r =
      try_except (do poller ← begin_delete C (request r); pure (some poller))
        (begin_failed category r)

  -- The loop that starts the deletions: what it started, with the pollers.
  unfoldable pub begin_all :
      String → (Resource → Request) → List Resource → Exec (Run C) (List (Resource × C.Poller))
  unfolding begin_one
  begin_all category request [] = pure []
  begin_all category request (r ∷ rs) = do
    started ← begin_one category request r
    rest ← begin_all category request rs
    pure (elim started [ none ↦ rest | some poller ↦ (r, poller) ∷ rest ])

  abbrev pub pollers_of : List (Resource × C.Poller) → List C.Poller
  pollers_of = map (λ (r, poller). poller)

  abbrev pub resources_of : List (Resource × C.Poller) → List Resource
  resources_of = map (λ (r, poller). r)

  unfoldable pub wait_if_any : List C.Poller → Exec (Run C) (Unit {0})
  wait_if_any [] = pure tt
  wait_if_any (p ∷ ps) = do _ ← wait_for_terminal_states C (p ∷ ps); pure tt

  -- The body of `_execute_step_parallel` and of `_execute_extension_parallel`.
  unfoldable pub delete_parallel :
      String → (Resource → Request) → List Resource → Exec (Run C) (Unit {0})
  unfolding begin_all wait_if_any set_all
  delete_parallel category request rs = do
    set_all category active "" rs
    started ← begin_all category request rs
    wait_if_any (pollers_of started)
    set_all category complete "removed" (resources_of started)

  abbrev pub to_request : Resource → Request
  to_request r = by_id r.resource_id r.api_version

  -- `_begin_delete_extension`
  abbrev pub extension_request : Manager → Resource → Request
  extension_request m r = extension m.resource_group_name m.cluster_name r.display_name

  unfoldable pub execute_step_single : String → Resource → Exec (Run C) (Unit {0})
  unfolding delete_single
  execute_step_single category r = delete_single category r.display_name (to_request r)

  unfoldable pub execute_extension_single : Manager → String → Resource → Exec (Run C) (Unit {0})
  unfolding delete_single
  execute_extension_single m category r =
      delete_single category r.display_name (extension_request m r)

  unfoldable pub execute_step_parallel : String → List Resource → Exec (Run C) (Unit {0})
  unfolding delete_parallel
  execute_step_parallel category rs = delete_parallel category to_request rs

  unfoldable pub execute_extension_parallel :
      Manager → String → List Resource → Exec (Run C) (Unit {0})
  unfolding delete_parallel
  execute_extension_parallel m category rs = delete_parallel category (extension_request m) rs

  -- `_execute_step_batched`
  unfoldable pub execute_batches : String → List (List Resource) → Exec (Run C) (Unit {0})
  unfolding execute_step_parallel
  execute_batches category [] = pure tt
  execute_batches category (batch ∷ batches) =
      execute_step_parallel category batch >> execute_batches category batches

  unfoldable pub execute_step_batched : String → List Resource → Exec (Run C) (Unit {0})
  unfolding execute_batches
  execute_step_batched category rs = execute_batches category (batch_by_segment_depth rs)

  -- The start of one deletion in `_execute_cl_resources`.
  unfoldable pub begin_quietly : Resource → Exec (Run C) (Option C.Poller)
  begin_quietly r =
      try_except (do poller ← begin_delete C (to_request r); pure (some poller))
        (λ e. if is_not_found e then pure none else raise e)

  unfoldable pub begin_batch : List Resource → Exec (Run C) (List C.Poller)
  unfolding begin_quietly
  begin_batch [] = pure []
  begin_batch (r ∷ rs) = do
    started ← begin_quietly r
    rest ← begin_batch rs
    pure (elim started [ none ↦ rest | some poller ↦ poller ∷ rest ])

  unfoldable pub delete_batches : List (List Resource) → Exec (Run C) (Unit {0})
  unfolding begin_batch wait_if_any
  delete_batches [] = pure tt
  delete_batches (batch ∷ batches) =
      (do pollers ← begin_batch batch; wait_if_any pollers) >> delete_batches batches

  -- `_execute_cl_resources`
  unfoldable pub execute_cl_resources : List Resource → Exec (Run C) (Unit {0})
  unfolding delete_batches step_scope
  execute_cl_resources rs =
      let label = count_label (length rs) in
      step_scope C step_cl_resources label (
        delete_batches (batch_by_segment_depth rs)
        >> update_step C step_cl_resources label complete "removed")

  unfoldable pub if_some :
      Option Resource → (Resource → Exec (Run C) (Unit {0})) → Exec (Run C) (Unit {0})
  if_some none f = pure tt
  if_some (some r) f = f r

  unfoldable pub if_any :
      List Resource → (List Resource → Exec (Run C) (Unit {0})) → Exec (Run C) (Unit {0})
  if_any [] f = pure tt
  if_any (r ∷ rs) f = f (r ∷ rs)

  -- The custom location: an HTTP error marks the step and does not stop the run.
  unfoldable pub execute_custom_location : Resource → Exec (Run C) (Unit {0})
  unfolding execute_step_single
  execute_custom_location r = try_except (execute_step_single step_custom_location r) (λ e.
      if is_http e
      then update_step C step_custom_location r.display_name failed "failed"
      else raise e)

  -- The steps in order.
  unfoldable pub execute_steps : Manager → Exec (Run C) (Unit {0})
  unfolding if_some if_any execute_cl_resources execute_custom_location execute_extension_single
      execute_extension_parallel execute_step_parallel
  execute_steps m = do
    if_some m.instance_resource (execute_step_single step_instance)
    if_any m.cl_resources execute_cl_resources
    if_any m.sync_rules (execute_step_parallel step_sync_rules)
    if_some m.cl_resource execute_custom_location
    if_some m.aio_extension (execute_extension_single m step_aio_ext)
    if_any (wanted_deps m) (execute_extension_parallel m step_dep_extensions)

  -- `_execute`: on a display of its own. The outer handler only logs, and raises again.
  unfoldable pub execute : Manager → Exec (Run C) (Unit {0})
  unfolding execute_steps
  execute m s = execute_steps m (record {
    world = s.world;
    display = Workflow.init "Deleting IoT Operations" (categories m) (not m.render_progress);
    requests = s.requests;
  })
