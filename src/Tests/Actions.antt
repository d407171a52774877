-- ===== src/Tests/Actions.antt =====
-- Management actions at concrete clients.
use azure_iot_ops_cli_extens.Base.{
  ℕ, suc, String, ◌≡◌, refl, Bool, true, false, none, some, List, [], ◌∷◌, ◌++◌, if◌then◌else◌,
  ◌==◌, string_eq, nat_eq, find, keep, truthy, length, lower, lower_char, split, arith,
}
use azure_iot_ops_cli_extens.Base.Dict.{lookup}
use azure_iot_ops_cli_extens.Base.Exec.{Exc, not_found, Outcome, returned, raised, is_returned}
use azure_iot_ops_cli_extens.Base.Outcomes.{◌>>=◌}
use azure_iot_ops_cli_extens.Base.Json.{
  Json, null, str, obj, dict, Fields, end, field, entries, json_truthy, get, is_key,
}
use azure_iot_ops_cli_extens.Cloud.{Run}
use azure_iot_ops_cli_extens.ResourceId.{
  parse_resource_id, match_id, match_group, match_providers, find_children,
}
use azure_iot_ops_cli_extens.Actions.{
  Address, dataflow, dataflow_graph, dataflow_endpoint, permission_binding, topic_space,
  event_grid_namespace, Change, Clients, EgContext, default_dataflow_profile, is_missing,
}
use azure_iot_ops_cli_extens.Actions.Namespace.{
  endpoints_of, messaging_of, build_adr_put_payload, kept, without, build_adr_put_payload-endpoints,
}
use azure_iot_ops_cli_extens.Actions.Context.{
  discover_eg_context, context_from, client_for, IsResolved, discover_eg_context-IsResolved,
}
use azure_iot_ops_cli_extens.Actions.Discovery.{discover_dataflow_profile, nothing_found}
use azure_iot_ops_cli_extens.Actions.Teardown.{Findings}
use azure_iot_ops_cli_extens.Actions.Plan.{teardown_plan}
use azure_iot_ops_cli_extens.Actions.Disable.{Command, analyze, disable}
use azure_iot_ops_cli_extens.Actions.Summary.{total, disable_sections, disable_sections-total}
use azure_iot_ops_cli_extens.Actions.Show.{show}
use azure_iot_ops_cli_extens.Actions.Shown.{show-requests}
use azure_iot_ops_cli_extens.Actions.Refine.{permitted, disable-changes}
use azure_iot_ops_cli_extens.Actions.Profiles.{
  HaveNames, IsStationary, holds, discover_dataflow_profile-find,
}

abbrev location_key : String
location_key =
    "/subscriptions/s/resourceGroups/g/providers/Microsoft.ExtendedLocation/customLocations/cl"

abbrev eg_id : String
eg_id = "/subscriptions/S2/resourceGroups/eg/providers/Microsoft.EventGrid/namespaces/ns"

abbrev endpoint_doc : Json
endpoint_doc = dict (("resourceId", str eg_id) ∷ ("address", str "host") ∷ [])

abbrev endpoint_docs : Fields
endpoint_docs = field location_key endpoint_doc (field "other" (dict []) end)

abbrev namespace_doc : Json
namespace_doc = dict (
    ("location", str "westus")
    ∷ ("tags", dict (("a", str "b") ∷ []))
    ∷ ("properties", dict (("management", dict (("endpoints", obj endpoint_docs) ∷ [])) ∷ []))
    ∷ [])

abbrev instance_doc : Json
instance_doc = dict (
    ("id", str "/instance")
    ∷ ("extendedLocation", dict (("name", str location_key) ∷ []))
    ∷ (
      "properties",
      dict (
          (
            "adrNamespaceRef",
            dict (
                (
                  "resourceId",
                  str
                      "/subscriptions/s/resourceGroups/g/providers/Microsoft.DeviceRegistry/namespaces/n",
                )
                ∷ []),
          )
          ∷ []),
    )
    ∷ [])

-- The graph and its response are in the profile `edge`; all else is there.
unfoldable answer : Address → Outcome Json
answer (dataflow_graph _ _ p _) = if p == "edge" then returned null else raised (not_found "")
answer (dataflow _ _ p _) = if p == "edge" then returned null else raised (not_found "")
answer _ = returned null

abbrev profile_docs : List Json
profile_docs = dict (("name", str "default") ∷ []) ∷ dict [] ∷ dict (("name", str "edge") ∷ []) ∷ []

abbrev clients : Clients
clients = record {
  cloud = record {
    World = ℕ;
    Poller = ℕ;
    begin_delete = λ q w. (returned w, suc w);
    done = λ p w. (true, w);
    result = λ p w. (returned tt, w);
    sleep = λ w. w;
  };
  hash = λ s. "0123456789abcdef";
  get_instance = λ group name w. (returned instance_doc, w);
  get_namespace = λ group name w. (returned namespace_doc, w);
  get_target = λ t w. (answer t, w);
  list_profiles = λ group name w. (returned profile_docs, w);
}

abbrev idle : Run clients.cloud
idle = record {
  world = 0;
  display = record { title = ""; no_progress = true; steps = [] };
  requests = [];
}

abbrev command : Command
command = record {
  name = "aio";
  resource_group_name = "g";
  default_subscription_id = "s";
  client = "s";
}

disable-changes_example :
    (sent : List Change) × (unsent : List Change) × ((disable clients command true false false
        idle).1.requests
      ≡ idle.requests ++ sent)
    × (permitted clients true false (analyze clients command false idle).0 ≡ sent ++ unsent)
    × (is_returned (disable clients command true false false idle).0 ≡ true → unsent ≡ [])
disable-changes_example = disable-changes clients command true false false idle

show-requests_example : (show clients command false idle).1.requests ≡ idle.requests
show-requests_example = show-requests clients command false idle

abbrev get_graph : String → Address
get_graph p = dataflow_graph "g" "aio" p "graph"

edge_only-missing :
    (b : Bool) (e : Exc)
    → ◌≡◌ {A = Outcome Json} (if b then returned null else raised (not_found "")) (raised e)
    → is_missing e ≡ true
edge_only-missing true e h = absurd (ground (arith, h))
edge_only-missing false e h = ground (arith, h)

answer-missing : (t : Address) (e : Exc) → answer t ≡ raised e → is_missing e ≡ true
unfolding answer
answer-missing (dataflow_graph _ _ p _) e h = edge_only-missing (p == "edge") e h
answer-missing (dataflow _ _ p _) e h = edge_only-missing (p == "edge") e h
answer-missing (dataflow_endpoint _ _ _) e h = absurd (ground (arith, h))
answer-missing (permission_binding _ _ _ _) e h = absurd (ground (arith, h))
answer-missing (topic_space _ _ _ _) e h = absurd (ground (arith, h))
answer-missing (event_grid_namespace _ _ _) e h = absurd (ground (arith, h))

clients-IsStationary : IsStationary clients answer
clients-IsStationary = record { gets = λ t w. refl; missing = answer-missing }

profile_docs-HaveNames : HaveNames profile_docs ("default" ∷ "" ∷ "edge" ∷ [])
unfolding get lookup string_eq
profile_docs-HaveNames = (refl, (refl, (refl, tt)))

discover_dataflow_profile-find_example :
    discover_dataflow_profile clients "aio" "g" get_graph idle ≡ (
      returned (
          find
            (holds clients answer clients-IsStationary get_graph)
            (default_dataflow_profile ∷ keep truthy ("default" ∷ "" ∷ "edge" ∷ []))),
      idle,
    )
discover_dataflow_profile-find_example =
    discover_dataflow_profile-find clients answer clients-IsStationary "aio" "g" get_graph
      profile_docs ("default" ∷ "" ∷ "edge" ∷ []) idle refl profile_docs-HaveNames

abbrev kept_doc : Json
kept_doc = dict (
    ("location", str "westus")
    ∷ (
      "properties",
      dict (("management", dict (("endpoints", obj (field "other" (dict []) end)) ∷ [])) ∷ []),
    )
    ∷ ("tags", dict (("a", str "b") ∷ []))
    ∷ [])

namespace_doc-endpoints : endpoints_of namespace_doc ≡ returned (obj endpoint_docs)
unfolding endpoints_of get lookup string_eq
namespace_doc-endpoints = refl

namespace_doc-payload : build_adr_put_payload namespace_doc location_key ≡ returned kept_doc
unfolding build_adr_put_payload endpoints_of messaging_of without get lookup string_eq json_truthy
namespace_doc-payload = refl

build_adr_put_payload-endpoints_example :
    (left : Fields) × (endpoints_of kept_doc ≡ returned (obj left))
    × ((k : String)
        → lookup k (entries left)
          ≡ (if k == location_key then none else lookup k (entries endpoint_docs)))
    × (get "identity" null kept_doc
        ≡ (get "identity" null namespace_doc >>= λ v. returned (kept v)))
    × (get "tags" null kept_doc ≡ (get "tags" null namespace_doc >>= λ v. returned (kept v)))
    × (messaging_of kept_doc ≡ (messaging_of namespace_doc >>= λ v. returned (kept v)))
build_adr_put_payload-endpoints_example =
    build_adr_put_payload-endpoints namespace_doc location_key endpoint_docs kept_doc
      namespace_doc-endpoints namespace_doc-payload

abbrev eg_context : EgContext
eg_context = record {
  resource_id = eg_id;
  subscription_id = "S2";
  resource_group_name = "eg";
  namespace_name = "ns";
  mqtt_hostname = str "host";
}

endpoint_doc-context : discover_eg_context "s" "s" endpoint_doc ≡ returned (some eg_context, "S2")
unfolding discover_eg_context context_from client_for get lookup string_eq json_truthy
    parse_resource_id match_id match_group match_providers split nat_eq lower lower_char
    find_children
endpoint_doc-context = refl

discover_eg_context-IsResolved_example :
    (get "resourceId" (str "") endpoint_doc ≡ returned (str eg_context.resource_id))
    × IsResolved eg_context "S2"
discover_eg_context-IsResolved_example =
    discover_eg_context-IsResolved "s" endpoint_doc eg_context "S2" endpoint_doc-context

abbrev findings : Findings
findings = record {
  name = "aio";
  resource_group_name = "g";
  dataflow_profile_name = some "edge";
  resp_profile_name = none;
  resp_name = "r";
  graph_name = "q";
  ep_name = "e";
  ep_exists = true;
  adr_namespace = namespace_doc;
  adr_resource_group = "g";
  adr_namespace_name = "n";
  custom_location_id = location_key;
  existing_endpoints = obj endpoint_docs;
  eg_ctx = none;
  client = "s";
  pub_name = "p";
  sub_name = "s";
  ts_name = "t";
  eg = nothing_found;
}

findings-is_key : is_key location_key (obj endpoint_docs) ≡ returned true
unfolding is_key lookup string_eq
findings-is_key = refl

disable_sections-total_example :
    total (disable_sections findings true) ≡ length (teardown_plan findings)
disable_sections-total_example =
    disable_sections-total findings true (λ _. refl) findings-is_key (rw namespace_doc-payload refl)
