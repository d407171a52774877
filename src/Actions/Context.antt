-- ===== src/Actions/Context.antt =====
-- `_discover_eg_context`: the Event Grid namespace of a management endpoint, and the subscription
-- of the client that later calls go through.
use mathlib.Core.Path.{subst}
use azure_iot_ops_cli_extens.Base.{
  String, Bool, false, ◌&&◌, not, Option, none, some, if◌then◌else◌, ◌==◌, string_eq, lower, truthy,
  ◌≡◌, refl, sym, ap, ◌∙◌, true, Bool-cases, inl, inr, eq→≡, arith,
}
use azure_iot_ops_cli_extens.Base.Exec.{Outcome, returned}
use azure_iot_ops_cli_extens.Base.Outcomes.{◌>>=◌, bind-returned, returned-injective}
use azure_iot_ops_cli_extens.Base.Json.{Json, str, json_truthy, get, text_of, text_of-str}
use azure_iot_ops_cli_extens.ResourceId.{Parsed, parse_resource_id}
use azure_iot_ops_cli_extens.Actions.{EgContext, id_name, id_group, id_subscription}

-- What is discovered, and the subscription of the Event Grid client from then on.
abbrev pub Discovered : Type 0
Discovered = Option EgContext × String

abbrev pub is_complete : Parsed → Bool
is_complete parsed =
    truthy (id_name parsed) && (truthy (id_group parsed) && truthy (id_subscription parsed))

abbrev pub context_of : String → Parsed → Json → EgContext
context_of eg_resource_id parsed mqtt_hostname = record {
  resource_id = eg_resource_id;
  subscription_id = id_subscription parsed;
  resource_group_name = id_group parsed;
  namespace_name = id_name parsed;
  mqtt_hostname = mqtt_hostname;
}

-- The client of another subscription replaces the one in use.
unfoldable pub client_for : String → String → String → String
unfolding lower
client_for default client subscription =
    if not (lower subscription == lower default) then subscription else client

-- Behind the parsing of the resource id.
unfoldable pub context_from : String → String → String → Parsed → Json → Discovered
unfolding client_for
context_from default client eg_resource_id parsed mqtt_hostname =
    if is_complete parsed
    then (
      some (context_of eg_resource_id parsed mqtt_hostname),
      client_for default client (id_subscription parsed),
    )
    else (none, client)

-- `default` is the subscription of the command, `client` that of the client in use.
unfoldable pub discover_eg_context : String → String → Json → Outcome Discovered
unfolding context_from get json_truthy
discover_eg_context default client mgmt_endpoint =
    if not (json_truthy mgmt_endpoint) then returned (none, client) else (do
      found ← get "resourceId" (str "") mgmt_endpoint
      if not (json_truthy found) then returned (none, client) else (do
        eg_resource_id ← text_of found
        mqtt_hostname ← get "address" (str "") mgmt_endpoint
        returned (
            context_from default client eg_resource_id (parse_resource_id eg_resource_id)
              mqtt_hostname)))

-- What is known of a discovered context: the client goes to its subscription, letter case aside.
pub record IsResolved (c : EgContext) (client : String) : Type 0 where
  pub group : c.resource_group_name ≡ id_group (parse_resource_id c.resource_id)
  pub namespace : c.namespace_name ≡ id_name (parse_resource_id c.resource_id)
  pub subscription : c.subscription_id ≡ id_subscription (parse_resource_id c.resource_id)
  pub complete : is_complete (parse_resource_id c.resource_id) ≡ true
  pub reached : lower client ≡ lower c.subscription_id

client_for-reached :
    (default subscription : String)
    → lower (client_for default default subscription) ≡ lower subscription
unfolding client_for
client_for-reached default subscription = elim (Bool-cases (lower subscription == lower default)) [
  | inl h ↦ rw h (sym (eq→≡ (lower subscription) (lower default) h))
  | inr h ↦ rw h refl
]

-- What a conditional that found something tells of its test and its branch.
found_of :
    (b : Bool) (x c : EgContext) (y z client : String)
    → ◌≡◌ {A = Discovered} (if b then (some x, y) else (none, z)) (some c, client)
    → (b ≡ true) × (x ≡ c) × (y ≡ client)
found_of true x c y z client h = ground (arith, h)
found_of false x c y z client h = ground (arith, h)

context_from-IsResolved :
    (default rid : String) (host : Json) (c : EgContext) (client : String)
    → context_from default default rid (parse_resource_id rid) host ≡ (some c, client)
    → (rid ≡ c.resource_id) × IsResolved c client
unfolding context_from
context_from-IsResolved default rid host c client h =
    let parsed = parse_resource_id rid in
    let (complete, same, reached) =
      found_of (is_complete parsed) (context_of rid parsed host) c
        (client_for default default (id_subscription parsed)) default client h in
    subst (λ x. (rid ≡ x.resource_id) × IsResolved x client) same
      (
        refl,
        record {
          group = refl;
          namespace = refl;
          subscription = refl;
          complete = complete;
          reached = ap lower (sym reached) ∙ client_for-reached default (id_subscription parsed);
        },
      )

-- Behind the text of the resource id.
text-IsResolved :
    (default : String) (m found : Json) (c : EgContext) (client : String)
    → (text_of found >>= λ rid. get "address" (str "") m >>= λ host.
        returned (context_from default default rid (parse_resource_id rid) host))
      ≡ returned (some c, client)
    → (found ≡ str c.resource_id) × IsResolved c client
text-IsResolved default m found c client h =
    let (rid, a, h) = bind-returned (text_of found) _ (some c, client) h in
    let (host, _, h) = bind-returned (get "address" (str "") m) _ (some c, client) h in
    let (same, resolved) =
      context_from-IsResolved default rid host c client (returned-injective _ _ h) in
    (text_of-str found rid a ∙ ap str same, resolved)

found_branch :
    (b : Bool) (o : Outcome Discovered) (default : String) (c : EgContext) (client : String)
    → (if not b then returned (none, default) else o) ≡ returned (some c, client)
    → o ≡ returned (some c, client)
found_branch true o default c client h = h
found_branch false o default c client h = absurd (ground (arith, h))

-- Where the client in use is that of the command's subscription, a context that
-- `_discover_eg_context` gives comes from the resource id of the endpoint, with a name, a group
-- and a subscription that are not empty, and the client is then one of that subscription, letter
-- case aside.
pub discover_eg_context-IsResolved :
    (default : String) (m : Json) (c : EgContext) (client : String)
    → discover_eg_context default default m ≡ returned (some c, client)
    → (get "resourceId" (str "") m ≡ returned (str c.resource_id)) × IsResolved c client
unfolding discover_eg_context
discover_eg_context-IsResolved default m c client h =
    let (found, a, k) =
      bind-returned (get "resourceId" (str "") m) _ (some c, client)
        (found_branch (json_truthy m) _ default c client h) in
    let (same, resolved) =
      text-IsResolved default m found c client
        (found_branch (json_truthy found) _ default c client k) in
    (a ∙ ap returned same, resolved)
