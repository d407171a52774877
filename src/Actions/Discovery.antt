-- ===== src/Actions/Discovery.antt =====
-- The probes of the resources: `_probe_eg_resources` and `_discover_dataflow_profile`.
use azure_iot_ops_cli_extens.Base.{
  String, Bool, false, ◌||◌, not, Option, none, some, List, [], ◌∷◌, if◌then◌else◌, ◌==◌, string_eq,
  truthy,
}
use azure_iot_ops_cli_extens.Base.Exec.{Exec, ◌>>=◌, pure}
use azure_iot_ops_cli_extens.Base.Outcomes.{lift}
use azure_iot_ops_cli_extens.Base.Json.{Json, str, get, text_of}
use azure_iot_ops_cli_extens.Cloud.{Run}
use azure_iot_ops_cli_extens.Actions.{
  Address, topic_space, permission_binding, Clients, EgContext, default_dataflow_profile, ask,
  exists,
}

-- `(ts_exists, pub_exists, sub_exists)`
pub record EgFound : Type 0 where
  pub ts_exists : Bool
  pub pub_exists : Bool
  pub sub_exists : Bool

abbrev pub nothing_found : EgFound
nothing_found = record { ts_exists = false; pub_exists = false; sub_exists = false }

abbrev pub is_passed_over : String → Bool
is_passed_over profile_name =
    not (truthy profile_name) || (profile_name == default_dataflow_profile)

module _ (V : Clients) where
  -- `client` is the subscription of the Event Grid client.
  unfoldable pub probe_eg_resources :
      String → Option EgContext → String → String → String → Exec (Run V.cloud) EgFound
  unfolding exists
  probe_eg_resources client none ts_name pub_name sub_name = pure nothing_found
  probe_eg_resources client (some c) ts_name pub_name sub_name = do
    ts ← exists V (topic_space client c.resource_group_name c.namespace_name ts_name)
    publisher ← exists V (permission_binding client c.resource_group_name c.namespace_name pub_name)
    subscriber ←
        exists V (permission_binding client c.resource_group_name c.namespace_name sub_name)
    pure (record { ts_exists = ts; pub_exists = publisher; sub_exists = subscriber })

  -- The loop over the listed profiles; `get_resource` makes the target of a profile's name.
  unfoldable pub search_profiles :
      (String → Address) → List Json → Exec (Run V.cloud) (Option String)
  unfolding exists
  search_profiles get_resource [] = pure none
  search_profiles get_resource (profile ∷ profiles) =
      let rest = search_profiles get_resource profiles in
      do
        named ← lift (get "name" (str "") profile)
        profile_name ← lift (text_of named)
        if is_passed_over profile_name then rest else (do
          found ← exists V (get_resource profile_name)
          if found then pure (some profile_name) else rest)

  unfoldable pub discover_dataflow_profile :
      String → String → (String → Address) → Exec (Run V.cloud) (Option String)
  unfolding search_profiles
  discover_dataflow_profile instance_name resource_group_name get_resource = do
    found ← exists V (get_resource default_dataflow_profile)
    if found then pure (some default_dataflow_profile) else (do
      profiles ← ask V (V.list_profiles resource_group_name instance_name)
      search_profiles get_resource profiles)
