-- ===== src/Actions/Refine.antt =====
-- `disable` as a whole: what it changes, by what its first phase returned.
use azure_iot_ops_cli_extens.Base.{
  String, ◌≡◌, refl, sym, ◌∙◌, Bool, true, false, ◌||◌, Option, none, some, List, [], ◌++◌,
  if◌then◌else◌, is_some, not, arith,
}
use mathlib.Core.List.{append-nil}
use azure_iot_ops_cli_extens.Base.Exec.{
  Outcome, returned, raised, ◌>>=◌, pure, and_then, is_returned,
}
use azure_iot_ops_cli_extens.Base.Json.{Json, json_truthy}
use azure_iot_ops_cli_extens.Cloud.{Run}
use azure_iot_ops_cli_extens.Cloud.Scope.{step_scope}
use azure_iot_ops_cli_extens.Cloud.Quiet.{bind-requests, try-requests, step_scope-requests}
use azure_iot_ops_cli_extens.Deletion.Work.{should_continue_prompt}
use azure_iot_ops_cli_extens.Actions.{Change, Clients, ask, exists}
use azure_iot_ops_cli_extens.Actions.Discovery.{probe_eg_resources, discover_dataflow_profile}
use azure_iot_ops_cli_extens.Actions.Teardown.{Findings, stated}
use azure_iot_ops_cli_extens.Actions.Plan.{teardown_plan, execute_disable_teardown-changes}
use azure_iot_ops_cli_extens.Actions.Disable.{
  Located, Command, find_namespace, skip_analysis, locate, locate_by, locate_instance,
  orphan_target, find_orphan, find_profiles, find_eg, probe, analyze, teardown_if_confirmed,
  disable,
}
use azure_iot_ops_cli_extens.Actions.Quiet.{
  IsQuiet, ask-IsQuiet, lift-IsQuiet, exists-IsQuiet, if_IsQuiet, probe_eg-IsQuiet,
  discover-IsQuiet, update_IsQuiet,
}

module _ (V : Clients) where
  find_orphan-IsQuiet :
      (q : Command) (rid : String) (graph : Option String) → IsQuiet V (find_orphan V q rid graph)
  unfolding find_orphan
  find_orphan-IsQuiet q rid graph =
      if_IsQuiet V (is_some (stated graph)) (pure none) _ (λ s. refl)
        (discover-IsQuiet V q.name q.resource_group_name (orphan_target V q rid))

  find_profiles-IsQuiet : (q : Command) (rid : String) → IsQuiet V (find_profiles V q rid)
  unfolding find_profiles
  find_profiles-IsQuiet q rid =
      bind-requests V.cloud (discover_dataflow_profile V q.name q.resource_group_name _) _
        (discover-IsQuiet V q.name q.resource_group_name _)
        λ graph.
          bind-requests V.cloud (find_orphan V q rid graph) _ (find_orphan-IsQuiet q rid graph)
            λ response.
              bind-requests V.cloud (exists V _) _ (exists-IsQuiet V _)
                λ found. update_IsQuiet V _ _ _ _ (λ s. refl)

  find_eg-IsQuiet : (q : Command) (l : Located) → IsQuiet V (find_eg V q l)
  unfolding find_eg
  find_eg-IsQuiet q l =
      bind-requests V.cloud (probe_eg_resources V l.client l.eg_ctx _ _ _) _
        (probe_eg-IsQuiet V l.client l.eg_ctx _ _ _) λ eg. update_IsQuiet V _ _ _ _ (λ s. refl)

  find_namespace-IsQuiet :
      (q : Command) (group name : String) → IsQuiet V (find_namespace V q group name)
  unfolding find_namespace
  find_namespace-IsQuiet q group name =
      try-requests V.cloud (ask V (V.get_namespace group name) >>= _) _
        (bind-requests V.cloud (ask V (V.get_namespace group name)) _
          (ask-IsQuiet V (V.get_namespace group name)) (λ ns s. refl))
        (λ e s. ground arith)

  skip_analysis-IsQuiet : (q : Command) (detail : String) → IsQuiet V (skip_analysis V q detail)
  unfolding skip_analysis
  skip_analysis-IsQuiet q detail = update_IsQuiet V _ _ _ _ (λ s. refl)

  locate-IsQuiet :
      (q : Command) (doc : Json) (rid group name : String) (ns : Option Json)
      → IsQuiet V (locate V q doc rid group name ns)
  unfolding locate
  locate-IsQuiet q doc rid group name none = skip_analysis-IsQuiet q "not found"
  locate-IsQuiet q doc rid group name (some ns) = lift-IsQuiet V _ _ λ location.
      lift-IsQuiet V _ _ λ existing.
        lift-IsQuiet V _ _
          λ endpoint. lift-IsQuiet V _ _ λ found. update_IsQuiet V _ _ _ _ (λ s. refl)

  locate_by-IsQuiet :
      (q : Command) (doc : Json) (rid : String) (reference : Json)
      → IsQuiet V (locate_by V q doc rid reference)
  unfolding locate_by
  locate_by-IsQuiet q doc rid reference =
      if_IsQuiet V (not (json_truthy reference)) _ _ (skip_analysis-IsQuiet q "no ref") (
        lift-IsQuiet V _ _ λ text.
          bind-requests V.cloud (find_namespace V q _ _) _ (find_namespace-IsQuiet q _ _)
            (locate-IsQuiet q doc rid _ _))

  locate_instance-IsQuiet : (q : Command) → IsQuiet V (locate_instance V q)
  unfolding locate_instance
  locate_instance-IsQuiet q =
      bind-requests V.cloud (ask V (V.get_instance q.resource_group_name q.name)) _
        (ask-IsQuiet V (V.get_instance q.resource_group_name q.name))
        λ doc.
          lift-IsQuiet V _ _
            λ id. lift-IsQuiet V _ _ λ rid. lift-IsQuiet V _ _ (locate_by-IsQuiet q doc rid)

  probe-IsQuiet : (q : Command) (l : Option Located) → IsQuiet V (probe V q l)
  unfolding probe
  probe-IsQuiet q none = λ s. refl
  probe-IsQuiet q (some l) =
      bind-requests V.cloud (step_scope V.cloud _ _ (find_profiles V q l.instance_resource_id)) _
        (step_scope-requests V.cloud _ _ _ (find_profiles V q l.instance_resource_id)
          (find_profiles-IsQuiet q l.instance_resource_id))
        λ p.
          bind-requests V.cloud (step_scope V.cloud _ _ (find_eg V q l)) _
            (step_scope-requests V.cloud _ _ _ (find_eg V q l) (find_eg-IsQuiet q l)) (λ eg s. refl)

  analyze-IsQuiet : (q : Command) (no_progress : Bool) → IsQuiet V (analyze V q no_progress)
  unfolding analyze
  analyze-IsQuiet q no_progress s =
      bind-requests V.cloud (step_scope V.cloud "Analyzing" _ (locate_instance V q)) (probe V q)
        (step_scope-requests V.cloud _ "Analyzing" _ (locate_instance V q)
          (locate_instance-IsQuiet q))
        (probe-IsQuiet q) _

  -- The changes that a command may make, by what its first phase returned and the confirmation.
  abbrev pub permitted : Bool → Bool → Outcome (Option Findings) → List Change
  permitted confirm_yes answer (raised e) = []
  permitted confirm_yes answer (returned none) = []
  permitted confirm_yes answer (returned (some f)) =
      if confirm_yes || answer then teardown_plan f else []

  confirmed-changes :
      (q : Command) (confirm_yes answer no_progress : Bool) (o : Outcome (Option Findings))
      (s t : Run V.cloud)
      → t.requests ≡ s.requests
      → let run = and_then o t (teardown_if_confirmed V q confirm_yes answer no_progress) in
        (sent : List Change) × (unsent : List Change) × (run.1.requests ≡ s.requests ++ sent)
        × (permitted confirm_yes answer o ≡ sent ++ unsent)
        × (is_returned run.0 ≡ true → unsent ≡ [])
  unfolding teardown_if_confirmed should_continue_prompt
  confirmed-changes q confirm_yes answer no_progress (raised x) s t e =
      ([], [], e ∙ sym (append-nil s.requests), refl, λ _. refl)
  confirmed-changes q confirm_yes answer no_progress (returned none) s t e =
      ([], [], e ∙ sym (append-nil s.requests), refl, λ _. refl)
  confirmed-changes q true answer no_progress (returned (some f)) s t e =
      rw (sym e) (execute_disable_teardown-changes V no_progress f t)
  confirmed-changes q false true no_progress (returned (some f)) s t e =
      rw (sym e) (execute_disable_teardown-changes V no_progress f t)
  confirmed-changes q false false no_progress (returned (some f)) s t e =
      ([], [], e ∙ sym (append-nil s.requests), refl, λ _. refl)

  -- Whatever the clients answer, `disable` changes nothing but a prefix of what its first phase
  -- and the confirmation permit: nothing if that phase raised, returned early or was not
  -- confirmed, else the plan of the teardown, which is the response dataflow, its graph and the
  -- endpoint of the instance, then the entry of the namespace, then the permission bindings and
  -- the topic space. A run that returns has changed all of it.
  pub disable-changes :
      (q : Command) (confirm_yes answer no_progress : Bool) (s : Run V.cloud)
      → (sent : List Change) × (unsent : List Change) × ((disable V q confirm_yes answer no_progress
            s).1.requests
          ≡ s.requests ++ sent)
        × (permitted confirm_yes answer (analyze V q no_progress s).0 ≡ sent ++ unsent)
        × (is_returned (disable V q confirm_yes answer no_progress s).0 ≡ true → unsent ≡ [])
  unfolding disable ◌>>=◌
  disable-changes q confirm_yes answer no_progress s =
      confirmed-changes q confirm_yes answer no_progress (analyze V q no_progress s).0 s
        (analyze V q no_progress s).1 (analyze-IsQuiet q no_progress s)
