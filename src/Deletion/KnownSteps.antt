-- ===== src/Deletion/KnownSteps.antt =====
-- The steps of `_execute`, by the rows of the step table that they update.
use azure_iot_ops_cli_extens.Base.{
  String, ◌≡◌, refl, true, false, Option, none, some, List, [], ◌∷◌, All, Bool-cases, inl, inr,
  length, nonempty, string_eq,
}
use azure_iot_ops_cli_extens.Base.Exec.{Exc, Exec}
use azure_iot_ops_cli_extens.ResourceMap.{Resource}
use azure_iot_ops_cli_extens.Workflow.{StepState, active, complete, failed}
use azure_iot_ops_cli_extens.Cloud.{Request, Cloud, Run, begin_delete}
use azure_iot_ops_cli_extens.Deletion.Manager.{
  Manager, step_instance, step_sync_rules, step_aio_ext, step_dep_extensions, wanted_deps,
  batch_by_segment_depth, count_label, option_list, step_cl_resources, step_custom_location,
}
use azure_iot_ops_cli_extens.Deletion.Safety.{
  is_value_error, IsHonest, IsSafe, IsSafe-pure, IsSafe-raise, IsSafe-bind, IsSafe-try_except,
  IsSafe-update_step, IsSafe-begin_delete, IsSafe-wait, IsSafe-wait_if_any,
}
use azure_iot_ops_cli_extens.Deletion.Execute.{
  is_not_found, is_http, fail_step, step_scope, unless_not_found, delete_and_wait, short,
  delete_single, set_all, begin_failed, begin_one, begin_all, pollers_of, resources_of,
  delete_parallel, to_request, extension_request, execute_step_single, execute_extension_single,
  execute_step_parallel, execute_extension_parallel, begin_quietly, begin_batch, delete_batches,
  execute_cl_resources, if_some, if_any, execute_custom_location, execute_steps,
}

module _ (C : Cloud Request) (honest : IsHonest C) (T : String → String → Type 0) where
  -- Statements that only count as safe.
  abbrev Safe : Exec (Run C) (Unit {0}) → Type 0
  Safe = IsSafe C honest T (λ _. Unit)

  unless_not_found-Safe : (e : Exc) → is_value_error e ≡ false → Safe (unless_not_found C e)
  unfolding unless_not_found
  unless_not_found-Safe e h = elim (Bool-cases (is_not_found e)) [
    | inl n ↦ rw n (IsSafe-pure C honest T (λ _. Unit) tt tt)
    | inr n ↦ rw n (IsSafe-raise C honest T (λ _. Unit) e h)
  ]

  step_scope-Safe :
      (c st : String) (body : Exec (Run C) (Unit {0}))
      → T c st
      → Safe body
      → Safe (step_scope C c st body)
  unfolding step_scope fail_step
  step_scope-Safe c st body t k =
      IsSafe-bind C honest T (λ _. Unit) (λ _. Unit) _ _
        (IsSafe-update_step C honest T c st active "" t)
        λ _ _.
          IsSafe-try_except C honest T (λ _. Unit) body _ k
            λ e h.
              IsSafe-bind C honest T (λ _. Unit) (λ _. Unit) _ _
                (IsSafe-update_step C honest T c st failed (short e) t)
                (λ _ _. IsSafe-raise C honest T (λ _. Unit) e h)

  delete_single-Safe : (c st : String) (q : Request) → T c st → Safe (delete_single C c st q)
  unfolding delete_single delete_and_wait
  delete_single-Safe c st q t = step_scope-Safe c st _ t (
      IsSafe-bind C honest T (λ _. Unit) (λ _. Unit) _ _
        (IsSafe-try_except C honest T (λ _. Unit) _ _
          (IsSafe-bind C honest T (λ _. Unit) (λ _. Unit) (begin_delete C q) _
            (IsSafe-begin_delete C honest T q) (λ p _. IsSafe-wait C honest T p))
          unless_not_found-Safe)
        (λ _ _. IsSafe-update_step C honest T c st complete "removed" t))

  -- The resources whose steps are known.
  abbrev Shown : String → List Resource → Type 0
  Shown c = All (λ (r : Resource). T c r.display_name)

  set_all-Safe :
      (c : String) (state : StepState) (detail : String) (rs : List Resource)
      → Shown c rs
      → Safe (set_all C c state detail rs)
  unfolding set_all
  set_all-Safe c state detail [] h = IsSafe-pure C honest T (λ _. Unit) tt tt
  set_all-Safe c state detail (r ∷ rs) h =
      IsSafe-bind C honest T (λ _. Unit) (λ _. Unit) _ _
        (IsSafe-update_step C honest T c r.display_name state detail h.0)
        (λ _ _. set_all-Safe c state detail rs h.1)

  begin_failed-IsSafe :
      (c : String) (r : Resource)
      → T c r.display_name
      → (e : Exc) → is_value_error e ≡ false
      → IsSafe C honest T (λ _. Unit) (begin_failed C c r e)
  unfolding begin_failed
  begin_failed-IsSafe c r t e h = elim (Bool-cases (is_not_found e)) [
    | inl n ↦ rw n (
        IsSafe-bind C honest T (λ _. Unit) (λ _. Unit) _ _
          (IsSafe-update_step C honest T c r.display_name complete "removed" t)
          (λ _ _. IsSafe-pure C honest T (λ _. Unit) none tt))
    | inr n ↦ rw n (elim (Bool-cases (is_http e)) [
      | inl b ↦ rw b (
          IsSafe-bind C honest T (λ _. Unit) (λ _. Unit) _ _
            (IsSafe-update_step C honest T c r.display_name failed (short e) t)
            (λ _ _. IsSafe-raise C honest T (λ _. Unit) e h))
      | inr b ↦ rw b (IsSafe-raise C honest T (λ _. Unit) e h)
    ])
  ]

  begin_all-IsSafe :
      (c : String) (request : Resource → Request) (rs : List Resource)
      → Shown c rs
      → IsSafe C honest T (λ started. Shown c (resources_of C started)) (begin_all C c request rs)
  unfolding begin_all begin_one
  begin_all-IsSafe c request [] h =
      IsSafe-pure C honest T (λ started. Shown c (resources_of C started)) [] tt
  begin_all-IsSafe c request (r ∷ rs) h =
      let Q : List (Resource × C.Poller) → Type 0 = λ started. Shown c (resources_of C started) in
      IsSafe-bind C honest T (λ _. Unit) Q _ _
        (IsSafe-try_except C honest T (λ _. Unit) _ _
          (IsSafe-bind C honest T (λ _. Unit) (λ _. Unit) (begin_delete C (request r)) _
            (IsSafe-begin_delete C honest T (request r))
            (λ p _. IsSafe-pure C honest T (λ _. Unit) (some p) tt))
          (begin_failed-IsSafe c r h.0))
        λ started _.
          IsSafe-bind C honest T Q Q _ _ (begin_all-IsSafe c request rs h.1)
            λ rest k. IsSafe-pure C honest T Q _ (extended started rest k)
    where
      extended :
          (started : Option C.Poller) (rest : List (Resource × C.Poller))
          → Shown c (resources_of C rest)
          → Shown c (resources_of C (elim started [ none ↦ rest | some p ↦ (r, p) ∷ rest ]))
      extended none rest k = k
      extended (some p) rest k = (h.0, k)

  delete_parallel-Safe :
      (c : String) (request : Resource → Request) (rs : List Resource)
      → Shown c rs
      → Safe (delete_parallel C c request rs)
  unfolding delete_parallel
  delete_parallel-Safe c request rs h =
      IsSafe-bind C honest T (λ _. Unit) (λ _. Unit) _ _ (set_all-Safe c active "" rs h)
        λ _ _.
          IsSafe-bind C honest T (λ started. Shown c (resources_of C started)) (λ _. Unit) _ _
            (begin_all-IsSafe c request rs h)
            λ started k.
              IsSafe-bind C honest T (λ _. Unit) (λ _. Unit) _ _
                (IsSafe-wait_if_any C honest T (pollers_of C started))
                (λ _ _. set_all-Safe c complete "removed" (resources_of C started) k)

  begin_batch-IsSafe : (rs : List Resource) → IsSafe C honest T (λ _. Unit) (begin_batch C rs)
  unfolding begin_batch begin_quietly
  begin_batch-IsSafe [] = IsSafe-pure C honest T (λ _. Unit) [] tt
  begin_batch-IsSafe (r ∷ rs) =
      IsSafe-bind C honest T (λ _. Unit) (λ _. Unit) _ _
        (IsSafe-try_except C honest T (λ _. Unit) _ _
          (IsSafe-bind C honest T (λ _. Unit) (λ _. Unit) (begin_delete C (to_request C r)) _
            (IsSafe-begin_delete C honest T (to_request C r))
            (λ p _. IsSafe-pure C honest T (λ _. Unit) (some p) tt))
          (λ e h. elim (Bool-cases (is_not_found e)) [
            | inl n ↦ rw n (IsSafe-pure C honest T (λ _. Unit) none tt)
            | inr n ↦ rw n (IsSafe-raise C honest T (λ _. Unit) e h)
          ]))
        λ started _.
          IsSafe-bind C honest T (λ _. Unit) (λ _. Unit) _ _ (begin_batch-IsSafe rs)
            λ rest _. IsSafe-pure C honest T (λ _. Unit) _ tt

  delete_batches-Safe : (bs : List (List Resource)) → Safe (delete_batches C bs)
  unfolding delete_batches
  delete_batches-Safe [] = IsSafe-pure C honest T (λ _. Unit) tt tt
  delete_batches-Safe (b ∷ bs) =
      IsSafe-bind C honest T (λ _. Unit) (λ _. Unit) _ _
        (IsSafe-bind C honest T (λ _. Unit) (λ _. Unit) _ _ (begin_batch-IsSafe b)
          (λ ps _. IsSafe-wait_if_any C honest T ps))
        (λ _ _. delete_batches-Safe bs)

  execute_cl_resources-Safe :
      (rs : List Resource)
      → T step_cl_resources (count_label (length rs))
      → Safe (execute_cl_resources C rs)
  unfolding execute_cl_resources
  execute_cl_resources-Safe rs t = step_scope-Safe step_cl_resources _ _ t (
      IsSafe-bind C honest T (λ _. Unit) (λ _. Unit) _ _
        (delete_batches-Safe (batch_by_segment_depth rs))
        (λ _ _. IsSafe-update_step C honest T step_cl_resources _ complete "removed" t))

  execute_custom_location-Safe :
      (r : Resource) → T step_custom_location r.display_name → Safe (execute_custom_location C r)
  unfolding execute_custom_location execute_step_single
  execute_custom_location-Safe r t =
      IsSafe-try_except C honest T (λ _. Unit) _ _
        (delete_single-Safe step_custom_location r.display_name (to_request C r) t)
        λ e h. elim (Bool-cases (is_http e)) [
          | inl b ↦
              rw b (
                IsSafe-update_step C honest T step_custom_location r.display_name failed "failed" t)
          | inr b ↦ rw b (IsSafe-raise C honest T (λ _. Unit) e h)
        ]

  if_some-Safe :
      (c : String) (o : Option Resource) (f : Resource → Exec (Run C) (Unit {0}))
      → Shown c (option_list o)
      → ((r : Resource) → T c r.display_name → Safe (f r))
      → Safe (if_some C o f)
  unfolding if_some
  if_some-Safe c none f h k = IsSafe-pure C honest T (λ _. Unit) tt tt
  if_some-Safe c (some r) f h k = k r h.0

  if_any-Safe :
      (rs : List Resource) (f : List Resource → Exec (Run C) (Unit {0}))
      → (nonempty rs ≡ true → Safe (f rs))
      → Safe (if_any C rs f)
  unfolding if_any
  if_any-Safe [] f k = IsSafe-pure C honest T (λ _. Unit) tt tt
  if_any-Safe (r ∷ rs) f k = k refl

  -- The steps of a manager's state are known.
  pub record AllShown (m : Manager) : Type 0 where
    pub instance_shown : Shown step_instance (option_list m.instance_resource)
    pub cl_resources_shown :
        nonempty m.cl_resources ≡ true → T step_cl_resources (count_label (length m.cl_resources))
    pub sync_rules_shown : Shown step_sync_rules m.sync_rules
    pub custom_location_shown : Shown step_custom_location (option_list m.cl_resource)
    pub extension_shown : Shown step_aio_ext (option_list m.aio_extension)
    pub dep_extensions_shown : Shown step_dep_extensions (wanted_deps m)

  pub execute_steps-Safe : (m : Manager) → AllShown m → Safe (execute_steps C m)
  unfolding execute_steps execute_step_single execute_extension_single execute_step_parallel
      execute_extension_parallel
  execute_steps-Safe m h =
      let U : Unit {0} → Type 0 = λ _. Unit in
      IsSafe-bind C honest T U U _ _
        (if_some-Safe step_instance m.instance_resource _ h.instance_shown
          λ r. delete_single-Safe step_instance r.display_name (to_request C r))
        λ _ _.
          IsSafe-bind C honest T U U _ _
            (if_any-Safe m.cl_resources _
              λ n. execute_cl_resources-Safe m.cl_resources (h.cl_resources_shown n))
            λ _ _.
              IsSafe-bind C honest T U U _ _
                (if_any-Safe m.sync_rules _ λ _.
                  delete_parallel-Safe step_sync_rules (to_request C) m.sync_rules
                    h.sync_rules_shown)
                λ _ _.
                  IsSafe-bind C honest T U U _ _
                    (if_some-Safe step_custom_location m.cl_resource _ h.custom_location_shown
                      execute_custom_location-Safe)
                    λ _ _.
                      IsSafe-bind C honest T U U _ _
                        (if_some-Safe step_aio_ext m.aio_extension _ h.extension_shown λ r.
                          delete_single-Safe step_aio_ext r.display_name (extension_request C m r))
                        λ _ _. if_any-Safe (wanted_deps m) _ λ _.
                          delete_parallel-Safe step_dep_extensions (extension_request C m)
                            (wanted_deps m) h.dep_extensions_shown
