-- ===== src/Deletion/Order.antt =====
-- The requests of each step of `_execute`.
use mathlib.Core.List.{append-nil, map-append}
use azure_iot_ops_cli_extens.Base.{
  String, ◌≡◌, refl, ap, ◌∙◌, true, false, some, List, [], ◌∷◌, ◌++◌, map, arith, flatten, length,
}
use azure_iot_ops_cli_extens.Base.Exec.{Exc, raised, Exec, ◌>>=◌, ◌>>◌, pure, try_except}
use azure_iot_ops_cli_extens.Workflow
use azure_iot_ops_cli_extens.Workflow.{StepState, active, complete, failed, Display, set_step}
use azure_iot_ops_cli_extens.Base.Exec.{is_returned}
use azure_iot_ops_cli_extens.ResourceMap.{Resource, sorted_resources}
use azure_iot_ops_cli_extens.Cloud.{Request, Cloud, Run, begin_delete, wait_for_terminal_state}
use azure_iot_ops_cli_extens.Deletion.Manager.{
  batch_by_segment_depth, count_label, step_cl_resources, step_custom_location,
}
use azure_iot_ops_cli_extens.Deletion.Requests.{settled}
use azure_iot_ops_cli_extens.Cloud.Quiet.{log, Sends-begin_delete}
use azure_iot_ops_cli_extens.Base.Sends.{
  Sends-after, Sends, Sends-quiet, Sends-bind, Sends-try_except, Sends-cast, Sends-always,
  Sends-try_always, Sends-then_quiet,
}
use azure_iot_ops_cli_extens.Deletion.Quiet.{
  wait_if_any-requests, set_all-requests, unless_not_found-requests,
}
use azure_iot_ops_cli_extens.Cloud.Quiet.{
  update_step-requests, wait-requests, bind-requests, fail_step-requests, fail_step-raises,
}
use azure_iot_ops_cli_extens.Deletion.Batches.{batch_by_segment_depth-flatten}
use azure_iot_ops_cli_extens.Deletion.Execute.{
  update_step, fail_step, step_scope, unless_not_found, delete_and_wait, delete_single, set_all,
  begin_failed, begin_one, begin_all, pollers_of, resources_of, wait_if_any, delete_parallel,
  to_request, execute_step_single, begin_quietly, begin_batch, delete_batches, execute_cl_resources,
  execute_custom_location,
}

module _ (C : Cloud Request) where
  delete_and_wait-Sends : (q : Request) → Sends (log C) (λ _. true) (q ∷ []) (delete_and_wait C q)
  unfolding delete_and_wait
  delete_and_wait-Sends q =
      Sends-then_quiet (log C) (begin_delete C q) (wait_for_terminal_state C)
        (Sends-begin_delete C q) (wait-requests C)

  update_step-settled :
      (c st : String) (state : StepState) (detail : String) (s : Run C) (e : Exc)
      → (update_step C c st state detail s).0 ≡ raised e
      → settled {A = Unit {0}} (raised e) ≡ false
  unfolding update_step Workflow.update_step
  update_step-settled c st state detail s e h = ground arith

  step_scope-Sends :
      (c st : String) {p : List Request} (body : Exec (Run C) (Unit {0}))
      → Sends (log C) (λ _. true) p body
      → Sends (log C) settled p (step_scope C c st body)
  unfolding step_scope
  step_scope-Sends c st body k =
      Sends-after (log C) settled (update_step C c st active "")
        (λ _. try_except body (fail_step C c st)) (update_step-requests C c st active "")
        (update_step-settled c st active "")
        (λ _.
          Sends-always (log C) settled
            (Sends-try_always (log C) body (fail_step C c st) k (fail_step-requests C _ c st)))

  pub delete_single-Sends :
      (c name : String) (q : Request) → Sends (log C) settled (q ∷ []) (delete_single C c name q)
  unfolding delete_single
  delete_single-Sends c name q = step_scope-Sends c name _ (
      Sends-then_quiet (log C) (try_except (delete_and_wait C q) (unless_not_found C))
        (λ _. update_step C c name complete "removed")
        (Sends-try_always (log C) (delete_and_wait C q) (unless_not_found C)
          (delete_and_wait-Sends q) (unless_not_found-requests C))
        (λ _. update_step-requests C c name complete "removed"))

  begin_failed-requests :
      (c : String) (r : Resource) (e : Exc) (s : Run C)
      → (begin_failed C c r e s).1.requests ≡ s.requests
  unfolding begin_failed ◌>>=◌ update_step
  begin_failed-requests c r e s = ground arith

  begin_one-Sends :
      (c : String) (request : Resource → Request) (r : Resource)
      → Sends (log C) (λ _. true) (request r ∷ []) (begin_one C c request r)
  unfolding begin_one
  begin_one-Sends c request r =
      Sends-try_always (log C) (begin_delete C (request r) >>= λ p. pure (some p))
        (begin_failed C c r)
        (Sends-then_quiet (log C) (begin_delete C (request r)) (λ p. pure (some p))
          (Sends-begin_delete C (request r)) (λ p s. refl))
        (begin_failed-requests c r)

  begin_all-Sends :
      (c : String) (request : Resource → Request) (rs : List Resource)
      → Sends (log C) is_returned (map request rs) (begin_all C c request rs)
  unfolding begin_all
  begin_all-Sends c request [] = Sends-quiet (log C) is_returned (pure []) (λ s. refl)
  begin_all-Sends c request (r ∷ rs) =
      Sends-cast (log C) (ap (λ l. request r ∷ l) (append-nil (map request rs))) (
        Sends-bind (log C) (begin_one C c request r) _
          (Sends-always (log C) is_returned (begin_one-Sends c request r))
          (λ started.
            Sends-bind (log C) (begin_all C c request rs) _ (begin_all-Sends c request rs)
              (λ rest. Sends-quiet (log C) is_returned _ (λ s. refl))))

  pub delete_parallel-Sends :
      (c : String) (request : Resource → Request) (rs : List Resource)
      → Sends (log C) is_returned (map request rs) (delete_parallel C c request rs)
  unfolding delete_parallel
  delete_parallel-Sends c request rs = Sends-cast (log C) (append-nil (map request rs)) (
      Sends-bind (log C) (set_all C c active "" rs) _
        (Sends-quiet (log C) is_returned _ (set_all-requests C c active "" rs))
        (λ _.
          Sends-bind (log C) (begin_all C c request rs) _ (begin_all-Sends c request rs) (λ started.
            Sends-quiet (log C) is_returned _ (
              bind-requests C (wait_if_any C (pollers_of C started)) _
                (wait_if_any-requests C (pollers_of C started))
                (λ _. set_all-requests C c complete "removed" (resources_of C started))))))

  begin_quietly-Sends :
      (r : Resource) → Sends (log C) (λ _. true) (to_request C r ∷ []) (begin_quietly C r)
  unfolding begin_quietly
  begin_quietly-Sends r =
      Sends-try_always (log C) (begin_delete C (to_request C r) >>= λ p. pure (some p)) _
        (Sends-then_quiet (log C) (begin_delete C (to_request C r)) (λ p. pure (some p))
          (Sends-begin_delete C (to_request C r)) (λ p s. refl))
        (λ e s. ground arith)

  begin_batch-Sends :
      (rs : List Resource) → Sends (log C) is_returned (map (to_request C) rs) (begin_batch C rs)
  unfolding begin_batch
  begin_batch-Sends [] = Sends-quiet (log C) is_returned (pure []) (λ s. refl)
  begin_batch-Sends (r ∷ rs) =
      Sends-cast (log C) (ap (λ l. to_request C r ∷ l) (append-nil (map (to_request C) rs))) (
        Sends-bind (log C) (begin_quietly C r) _
          (Sends-always (log C) is_returned (begin_quietly-Sends r))
          (λ started.
            Sends-bind (log C) (begin_batch C rs) _ (begin_batch-Sends rs)
              (λ rest. Sends-quiet (log C) is_returned _ (λ s. refl))))

  delete_batches-Sends :
      (bs : List (List Resource))
      → Sends (log C) is_returned (map (to_request C) (flatten bs)) (delete_batches C bs)
  unfolding delete_batches
  delete_batches-Sends [] = Sends-quiet (log C) is_returned (pure tt) (λ s. refl)
  delete_batches-Sends (b ∷ bs) =
      Sends-cast (log C) {q = map (to_request C) (b ++ flatten bs)} (rw (append-nil, map-append)) (
        Sends-bind (log C) (begin_batch C b >>= wait_if_any C) (λ _. delete_batches C bs)
          (Sends-bind (log C) (begin_batch C b) (wait_if_any C) (begin_batch-Sends b)
            (λ ps. Sends-quiet (log C) is_returned _ (wait_if_any-requests C ps)))
          (λ _. delete_batches-Sends bs))

  pub execute_cl_resources-Sends :
      (rs : List Resource)
      → Sends
          (log C)
          is_returned
          (map (to_request C) (sorted_resources rs))
          (execute_cl_resources C rs)
  unfolding execute_cl_resources step_scope
  execute_cl_resources-Sends rs =
      let label = count_label (length rs) in
      let body =
        delete_batches C (batch_by_segment_depth rs)
        >> update_step C step_cl_resources label complete "removed" in
      Sends-after (log C) is_returned (update_step C step_cl_resources label active "")
        (λ _. try_except body (fail_step C step_cl_resources label))
        (update_step-requests C step_cl_resources label active "") (λ s e h. refl)
        (λ _.
          Sends-try_except (log C) is_returned body (fail_step C step_cl_resources label)
            (Sends-cast (log C)
              (append-nil _ ∙ ap (map (to_request C)) (batch_by_segment_depth-flatten rs))
              (Sends-bind (log C) (delete_batches C (batch_by_segment_depth rs)) _
                (delete_batches-Sends (batch_by_segment_depth rs))
                (λ _.
                  Sends-quiet (log C) is_returned _
                    (update_step-requests C step_cl_resources label complete "removed"))))
            (fail_step-requests C _ step_cl_resources label)
            (λ e s h. absurd (fail_step-raises C _ step_cl_resources label e s h)) (λ a. refl))

  pub execute_custom_location-Sends :
      (r : Resource) → Sends (log C) is_returned (to_request C r ∷ []) (execute_custom_location C r)
  unfolding execute_custom_location execute_step_single
  execute_custom_location-Sends r =
      Sends-try_except (log C) settled (execute_step_single C step_custom_location r) _
        (delete_single-Sends step_custom_location r.display_name (to_request C r))
        (λ e s.
          ground
            (arith, update_step-requests C step_custom_location r.display_name failed "failed" s))
        (λ e s h. ground arith) (λ a. refl)
