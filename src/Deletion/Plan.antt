-- ===== src/Deletion/Plan.antt =====
-- The requests of `_execute`, and their order.
use azure_iot_ops_cli_extens.Base.{
  String, ◌≡◌, refl, sym, true, not, Option, none, some, List, [], ◌∷◌, ◌++◌, map, arith,
}
use azure_iot_ops_cli_extens.Base.Exec.{Outcome, returned, raised, Exec, pure}
use azure_iot_ops_cli_extens.Workflow
use azure_iot_ops_cli_extens.Workflow.{StepState, active, complete, failed, Display, set_step}
use azure_iot_ops_cli_extens.Base.Exec.{is_returned}
use azure_iot_ops_cli_extens.ResourceMap.{Resource, sorted_resources}
use azure_iot_ops_cli_extens.Cloud.{Request, Cloud, Run}
use azure_iot_ops_cli_extens.Deletion.Manager.{
  Manager, categories, step_instance, step_sync_rules, step_aio_ext, step_dep_extensions,
  wanted_deps, option_list,
}
use azure_iot_ops_cli_extens.Deletion.Requests.{settled}
use azure_iot_ops_cli_extens.Cloud.Quiet.{log}
use azure_iot_ops_cli_extens.Base.Sends.{Sends, Sends-quiet, Sends-bind, Sends-cast, Sends-weaken}
use azure_iot_ops_cli_extens.Deletion.Order.{
  delete_single-Sends, delete_parallel-Sends, execute_cl_resources-Sends,
  execute_custom_location-Sends,
}
use azure_iot_ops_cli_extens.Deletion.Execute.{
  to_request, extension_request, execute_step_single, execute_extension_single,
  execute_step_parallel, execute_extension_parallel, execute_cl_resources, if_some, if_any,
  execute_custom_location, execute_steps, execute,
}

returned→settled : (o : Outcome (Unit {0})) → is_returned o ≡ true → settled o ≡ true
returned→settled (returned a) h = refl
returned→settled (raised e) h = absurd (ground arith)

module _ (C : Cloud Request) where
  if_some-Sends :
      (o : Option Resource) (request : Resource → Request) (f : Resource → Exec (Run C) (Unit {0}))
      → ((r : Resource) → Sends (log C) is_returned (request r ∷ []) (f r))
      → Sends (log C) is_returned (map request (option_list o)) (if_some C o f)
  unfolding if_some
  if_some-Sends none request f k = Sends-quiet (log C) is_returned (pure tt) (λ s. refl)
  if_some-Sends (some r) request f k = k r

  if_any-Sends :
      (rs : List Resource) (p : List Resource → List Request)
      (f : List Resource → Exec (Run C) (Unit {0}))
      → p [] ≡ []
      → ((rs : List Resource) → Sends (log C) is_returned (p rs) (f rs))
      → Sends (log C) is_returned (p rs) (if_any C rs f)
  unfolding if_any
  if_any-Sends [] p f e k =
      Sends-cast (log C) (sym e) (Sends-quiet (log C) is_returned (pure tt) (λ s. refl))
  if_any-Sends (r ∷ rs) p f e k = k (r ∷ rs)

  -- The deletions of a manager's state in their order: the instance, the resources of the custom
  -- location deepest first, the sync rules, the custom location, the operations extension and, where
  -- asked for, the other extensions.
  unfoldable pub plan : Manager → List Request
  plan m =
      map (to_request C) (option_list m.instance_resource)
      ++ (map (to_request C) (sorted_resources m.cl_resources)
          ++ (map (to_request C) m.sync_rules
              ++ (map (to_request C) (option_list m.cl_resource)
                  ++ (map (extension_request C m) (option_list m.aio_extension)
                      ++ map (extension_request C m) (wanted_deps m)))))

  execute_steps-Sends : (m : Manager) → Sends (log C) is_returned (plan m) (execute_steps C m)
  unfolding execute_steps plan execute_step_single execute_extension_single execute_step_parallel
      execute_extension_parallel
  execute_steps-Sends m =
      let single = λ (step : String) (r : Resource).
        Sends-weaken (log C) returned→settled
          (delete_single-Sends C step r.display_name (to_request C r)) in
      Sends-bind (log C) (if_some C m.instance_resource (execute_step_single C step_instance)) _
        (if_some-Sends m.instance_resource (to_request C) _ (single step_instance))
        λ _.
          Sends-bind (log C) (if_any C m.cl_resources (execute_cl_resources C)) _
            (if_any-Sends m.cl_resources (λ rs. map (to_request C) (sorted_resources rs)) _
              (unfold sorted_resources in refl) (execute_cl_resources-Sends C))
            λ _.
              Sends-bind (log C) (if_any C m.sync_rules (execute_step_parallel C step_sync_rules)) _
                (if_any-Sends m.sync_rules (map (to_request C)) _ refl
                  (delete_parallel-Sends C step_sync_rules (to_request C)))
                λ _.
                  Sends-bind (log C) (if_some C m.cl_resource (execute_custom_location C)) _
                    (if_some-Sends m.cl_resource (to_request C) _ (execute_custom_location-Sends C))
                    λ _.
                      Sends-bind (log C)
                        (if_some C m.aio_extension (execute_extension_single C m step_aio_ext)) _
                        (if_some-Sends m.aio_extension (extension_request C m) _ λ r.
                          Sends-weaken (log C) returned→settled (
                            delete_single-Sends C step_aio_ext r.display_name
                              (extension_request C m r)))
                        λ _.
                          if_any-Sends (wanted_deps m) (map (extension_request C m)) _ refl
                            (delete_parallel-Sends C step_dep_extensions (extension_request C m))

  -- Whatever the service answers, `_execute` sends a prefix of the plan: the instance, the custom
  -- location's resources deepest first, the sync rules, the custom location, the operations
  -- extension and, where asked for, the other extensions. A run that returns has sent all of it.
  pub execute-requests :
      (m : Manager) (s : Run C)
      → (sent : List Request) × (unsent : List Request) × ((execute C m s).1.requests
          ≡ s.requests ++ sent)
        × (plan m ≡ sent ++ unsent)
        × (is_returned (execute C m s).0 ≡ true → unsent ≡ [])
  unfolding execute
  execute-requests m s =
      let k = execute_steps-Sends m in
      let t : Run C = record {
        world = s.world;
        display = Workflow.init "Deleting IoT Operations" (categories m) (not m.render_progress);
        requests = s.requests;
      } in
      (k.sent t, k.unsent t, k.requests t, k.split t, k.complete t)
