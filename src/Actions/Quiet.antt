-- ===== src/Actions/Quiet.antt =====
-- Statements of the commands that change nothing in the cloud.
use azure_iot_ops_cli_extens.Base.{
  String, ◌≡◌, refl, Bool, true, false, Option, none, some, List, [], ◌∷◌, if◌then◌else◌, arith,
}
use azure_iot_ops_cli_extens.Base.Exec.{Outcome, Exec, ◌>>=◌, ◌>>◌}
use azure_iot_ops_cli_extens.Base.Outcomes.{lift}
use azure_iot_ops_cli_extens.Base.Json.{Json, get, str, text_of}
use azure_iot_ops_cli_extens.Cloud.{Run}
use azure_iot_ops_cli_extens.Workflow.{StepState}
use azure_iot_ops_cli_extens.Cloud.Scope.{update_step}
use azure_iot_ops_cli_extens.Cloud.Quiet.{update_step-requests, bind-requests, try-requests}
use azure_iot_ops_cli_extens.Actions.{Address, Clients, EgContext, ask, exists}
use azure_iot_ops_cli_extens.Actions.Discovery.{
  is_passed_over, probe_eg_resources, search_profiles, discover_dataflow_profile,
}

module _ (V : Clients) where
  abbrev pub IsQuiet : {A : Type 0} → Exec (Run V.cloud) A → Type 0
  IsQuiet m = (s : Run V.cloud) → (m s).1.requests ≡ s.requests

  pub ask-IsQuiet : {A : Type 0} (f : V.cloud.World → Outcome A × V.cloud.World) → IsQuiet (ask V f)
  unfolding ask
  ask-IsQuiet f s = refl

  -- Behind an expression.
  pub lift-IsQuiet :
      {A B : Type 0} (o : Outcome A) (f : A → Exec (Run V.cloud) B)
      → ((a : A) → IsQuiet (f a))
      → IsQuiet (lift o >>= f)
  lift-IsQuiet o f k = bind-requests V.cloud (lift o) f (λ s. refl) k

  pub exists-IsQuiet : (t : Address) → IsQuiet (exists V t)
  unfolding exists
  exists-IsQuiet t =
      try-requests V.cloud (ask V (V.get_target t) >>= _) _
        (bind-requests V.cloud (ask V (V.get_target t)) _ (ask-IsQuiet (V.get_target t))
          (λ _ s. refl))
        (λ e s. ground arith)

  pub if_IsQuiet :
      {A : Type 0} (b : Bool) (m k : Exec (Run V.cloud) A)
      → IsQuiet m
      → IsQuiet k
      → IsQuiet (if b then m else k)
  if_IsQuiet true m n h k = h
  if_IsQuiet false m n h k = k

  pub probe_eg-IsQuiet :
      (client : String) (c : Option EgContext) (ts p s : String)
      → IsQuiet (probe_eg_resources V client c ts p s)
  unfolding probe_eg_resources
  probe_eg-IsQuiet client none ts p s = λ t. refl
  probe_eg-IsQuiet client (some c) ts p s =
      bind-requests V.cloud (exists V _) _ (exists-IsQuiet _) λ _.
        bind-requests V.cloud (exists V _) _ (exists-IsQuiet _)
          λ _. bind-requests V.cloud (exists V _) _ (exists-IsQuiet _) λ _ t. refl

  pub search-IsQuiet : (g : String → Address) (ps : List Json) → IsQuiet (search_profiles V g ps)
  unfolding search_profiles
  search-IsQuiet g [] = λ s. refl
  search-IsQuiet g (p ∷ ps) = lift-IsQuiet (get "name" (str "") p) _ λ named.
      lift-IsQuiet (text_of named) _ λ name.
        if_IsQuiet (is_passed_over name) _ _ (search-IsQuiet g ps) (
          bind-requests V.cloud (exists V (g name)) _ (exists-IsQuiet (g name))
            (λ found. if_IsQuiet found _ _ (λ s. refl) (search-IsQuiet g ps)))

  pub discover-IsQuiet :
      (name group : String) (g : String → Address)
      → IsQuiet (discover_dataflow_profile V name group g)
  unfolding discover_dataflow_profile
  discover-IsQuiet name group g =
      bind-requests V.cloud (exists V (g _)) _ (exists-IsQuiet (g _)) λ found.
        if_IsQuiet found _ _ (λ s. refl)
          (bind-requests V.cloud (ask V (V.list_profiles group name)) _
            (ask-IsQuiet (V.list_profiles group name)) (search-IsQuiet g))

  pub update_IsQuiet :
      {A : Type 0} (step : String) (state : StepState) (detail : String) (k : Exec (Run V.cloud) A)
      → IsQuiet k
      → IsQuiet (update_step V.cloud "Analyzing" step state detail >> k)
  update_IsQuiet step state detail k h =
      bind-requests V.cloud (update_step V.cloud "Analyzing" step state detail) _
        (update_step-requests V.cloud "Analyzing" step state detail) (λ _. h)
