-- ===== src/Actions/Namespace.antt =====
-- `_build_adr_put_payload`: the namespace that is put back without one endpoint.
use azure_iot_ops_cli_extens.Base.{
  String, ◌≡◌, refl, sym, ◌∙◌, none, [], ◌∷◌, ◌++◌, Bool-cases, inl, inr, if◌then◌else◌, ◌==◌,
  string_eq, arith,
}
use azure_iot_ops_cli_extens.Base.Dict.{Dict, lookup}
use azure_iot_ops_cli_extens.Base.Exec.{Outcome, returned, raised}
use azure_iot_ops_cli_extens.Base.Outcomes.{◌>>=◌, returned-injective}
use azure_iot_ops_cli_extens.Base.Json.{
  Json, null, str, obj, dict, json_truthy, get, items_of, text_of, Fields, entries, of_entries,
  entries-of_entries,
}

-- `ns.get("properties", {}).get("management", {}).get("endpoints", {})`
unfoldable pub endpoints_of : Json → Outcome Json
unfolding get
endpoints_of ns = do
  properties ← get "properties" (dict []) ns
  management ← get "management" (dict []) properties
  get "endpoints" (dict []) management

-- `ns.get("properties", {}).get("messaging")`
unfoldable pub messaging_of : Json → Outcome Json
unfolding get
messaging_of ns = do properties ← get "properties" (dict []) ns; get "messaging" null properties

-- `instance.get("properties", {}).get("adrNamespaceRef", {}).get("resourceId")`
unfoldable pub adr_reference : Json → Outcome Json
unfolding get
adr_reference instance_doc = do
  properties ← get "properties" (dict []) instance_doc
  reference ← get "adrNamespaceRef" (dict []) properties
  get "resourceId" null reference

-- `instance.get("extendedLocation", {}).get("name", "")`
unfoldable pub custom_location_of : Json → Outcome String
unfolding get
custom_location_of instance_doc = do
  location ← get "extendedLocation" (dict []) instance_doc
  name ← get "name" (str "") location
  text_of name

-- `if v: payload[k] = v`, on a payload that lacks the key.
abbrev pub entry_where : String → Json → Dict String Json
entry_where k v = if json_truthy v then (k, v) ∷ [] else []

-- `{k: v for k, v in d.items() if k != key}`
unfoldable pub without : String → Dict String Json → Dict String Json
without key [] = []
without key ((k, v) ∷ d) = let rest = without key d in if k == key then rest else (k, v) ∷ rest

abbrev payload_of : Dict String Json → Json → Json → Json → Json → Json
payload_of endpoints location identity tags messaging = dict (
    ("location", location)
    ∷ (
      "properties",
      dict (
          ("management", dict (("endpoints", dict endpoints) ∷ []))
          ∷ entry_where "messaging" messaging),
    )
    ∷ (entry_where "identity" identity ++ entry_where "tags" tags))

unfoldable pub build_adr_put_payload : Json → String → Outcome Json
unfolding endpoints_of messaging_of without
build_adr_put_payload ns endpoint_key_to_remove = do
  existing ← endpoints_of ns
  endpoints ← items_of existing
  location ← get "location" (str "") ns
  identity ← get "identity" null ns
  tags ← get "tags" null ns
  messaging ← messaging_of ns
  returned (payload_of (without endpoint_key_to_remove endpoints) location identity tags messaging)

lookup-without :
    (k key : String) (d : Dict String Json)
    → lookup k (without key d) ≡ (if k == key then none else lookup k d)
unfolding without lookup
lookup-without k key [] = ground arith
lookup-without k key ((j, v) ∷ d) = ground (arith, lookup-without k key d)

-- What `.get(k)` gives of a value that is kept where it is not empty.
abbrev pub kept : Json → Json
kept v = if json_truthy v then v else null

endpoints_of-payload :
    (d : Dict String Json) (l i t m : Json)
    → endpoints_of (payload_of d l i t m) ≡ returned (dict d)
unfolding endpoints_of get lookup string_eq
endpoints_of-payload d l i t m = refl

messaging_of-payload :
    (d : Dict String Json) (l i t m : Json)
    → messaging_of (payload_of d l i t m) ≡ returned (kept m)
unfolding messaging_of get lookup string_eq
messaging_of-payload d l i t m = elim (Bool-cases (json_truthy m)) [
  | inl h ↦ rw h refl
  | inr h ↦ rw h refl
]

identity-payload :
    (d : Dict String Json) (l i t m : Json)
    → get "identity" null (payload_of d l i t m) ≡ returned (kept i)
unfolding get lookup string_eq
identity-payload d l i t m = elim (Bool-cases (json_truthy i)) [
  | inl g ↦ rw g refl
  | inr g ↦ elim (Bool-cases (json_truthy t)) [ inl h ↦ rw (g, h) refl | inr h ↦ rw (g, h) refl ]
]

tags-payload :
    (d : Dict String Json) (l i t m : Json)
    → get "tags" null (payload_of d l i t m) ≡ returned (kept t)
unfolding get lookup string_eq
tags-payload d l i t m = elim (Bool-cases (json_truthy i)) [
  | inl g ↦ elim (Bool-cases (json_truthy t)) [ inl h ↦ rw (g, h) refl | inr h ↦ rw (g, h) refl ]
  | inr g ↦ elim (Bool-cases (json_truthy t)) [ inl h ↦ rw (g, h) refl | inr h ↦ rw (g, h) refl ]
]

-- What the reads of a payload gave.
assembled :
    (lo io to mo : Outcome Json) (d : Dict String Json) (p : Json)
    → (lo >>= λ l. io >>= λ i. to >>= λ t. mo >>= λ m. returned (payload_of d l i t m)) ≡ returned p
    → (l i t m : Json) × (io ≡ returned i)
      × (to ≡ returned t)
      × (mo ≡ returned m)
      × (p ≡ payload_of d l i t m)
assembled (returned l) (returned i) (returned t) (returned m) d p h =
    (l, i, t, m, refl, refl, refl, sym (returned-injective _ _ h))
assembled (returned l) (returned i) (returned t) (raised e) d p h = absurd (ground (arith, h))
assembled (returned l) (returned i) (raised e) mo d p h = absurd (ground (arith, h))
assembled (returned l) (raised e) to mo d p h = absurd (ground (arith, h))
assembled (raised e) io to mo d p h = absurd (ground (arith, h))

build_adr_put_payload-reads :
    (ns : Json) (key : String) (d : Fields)
    → endpoints_of ns ≡ returned (obj d)
    → build_adr_put_payload ns key ≡ (
        get "location" (str "") ns >>= λ l. get "identity" null ns >>= λ i.
        get "tags" null ns >>= λ t.
        messaging_of ns >>= λ m. returned (payload_of (without key (entries d)) l i t m))
unfolding build_adr_put_payload
build_adr_put_payload-reads ns key d e = rw e refl

-- Where the endpoints of a namespace are a dict, a payload that `_build_adr_put_payload` returns
-- has an endpoint exactly if it is another than the one to remove, with the value it had, and has
-- the identity, the tags and the messaging of the namespace where they are not empty.
pub build_adr_put_payload-endpoints :
    (ns : Json) (key : String) (d : Fields) (p : Json)
    → endpoints_of ns ≡ returned (obj d)
    → build_adr_put_payload ns key ≡ returned p
    → (left : Fields) × (endpoints_of p ≡ returned (obj left))
      × ((k : String) → lookup k (entries left) ≡ (if k == key then none else lookup k (entries d)))
      × (get "identity" null p ≡ (get "identity" null ns >>= λ v. returned (kept v)))
      × (get "tags" null p ≡ (get "tags" null ns >>= λ v. returned (kept v)))
      × (messaging_of p ≡ (messaging_of ns >>= λ v. returned (kept v)))
build_adr_put_payload-endpoints ns key d p e h =
    let (l, i, t, m, f, g, j, q) =
      assembled (get "location" (str "") ns) (get "identity" null ns) (get "tags" null ns)
        (messaging_of ns) (without key (entries d)) p
        (sym (build_adr_put_payload-reads ns key d e) ∙ h) in
    let endpoints = without key (entries d) in
    (
      of_entries endpoints,
      rw q (endpoints_of-payload endpoints l i t m),
      λ k. rw (entries-of_entries endpoints) (lookup-without k key (entries d)),
      rw (q, f) (identity-payload endpoints l i t m),
      rw (q, g) (tags-payload endpoints l i t m),
      rw (q, j) (messaging_of-payload endpoints l i t m),
    )
