-- ===== src/ResourceId.antt =====
-- azext_edge/edge/util/id_tools.py: ARM resource ids and their parts. The two regular expressions
-- match segment by segment, so the model works on the pieces between slashes. Ids hold no newline.
pub mod Split
pub mod Segments
pub mod RoundTrip
use azure_iot_ops_cli_extens.Base.{
  String, ◌<>◌, Bool, true, false, ◌&&◌, Option, none, some, List, [], ◌∷◌, ◌++◌, ℕ, if◌then◌else◌,
  get_or, length, ◌==◌, string_eq, lower, truthy, split, join,
}

abbrev pub slash : ℕ
slash = b'/'

-- One match of `_CHILDREN_RE`: the values of `child_namespace_{n}`, `child_type_{n}` and
-- `child_name_{n}`, where n is the place in the list, from 1.
pub record Child : Type 0 where
  pub namespace : Option String
  pub type : String
  pub name : String

-- The groups of `_ARMID_RE`.
pub record Parts : Type 0 where
  pub subscription : String
  pub resource_group : Option String
  pub namespace : Option String
  pub type : Option String
  pub name : Option String
  pub children : List Child

-- `parse_resource_id` returns no key, `name` alone, or the groups that matched.
pub data Parsed : Type 0 where
  empty : Parsed
  unmatched : String → Parsed
  matched : Parts → Parsed

-- `_CHILDREN_RE.finditer`, on the pieces of the children group.
unfoldable pub find_children : List String → List Child
find_children [] = []
find_children (t ∷ []) = []
find_children (t ∷ n ∷ []) = record { namespace = none; type = t; name = n } ∷ []
find_children (t ∷ n ∷ u ∷ []) = record { namespace = none; type = t; name = n } ∷ []
find_children (p ∷ ns ∷ t ∷ n ∷ rest) =
    let nested = record { namespace = some ns; type = t; name = n } ∷ find_children rest in
    let plain = record { namespace = none; type = p; name = ns } ∷ find_children (t ∷ n ∷ rest) in
    if lower p == "providers" then nested else plain

-- The last group of `_ARMID_RE`, which is optional.
unfoldable pub match_providers : String → Option String → List String → Parts
unfolding find_children
match_providers sub rg (p ∷ ns ∷ t ∷ n ∷ rest) =
    if lower p == "providers"
    then record {
      subscription = sub;
      resource_group = rg;
      namespace = some ns;
      type = some t;
      name = some n;
      children = find_children rest;
    }
    else record {
      subscription = sub;
      resource_group = rg;
      namespace = none;
      type = none;
      name = none;
      children = [];
    }
match_providers sub rg _ = record {
  subscription = sub;
  resource_group = rg;
  namespace = none;
  type = none;
  name = none;
  children = [];
}

-- The resource group, which is optional too.
unfoldable pub match_group : String → List String → Parts
unfolding match_providers
match_group sub (g ∷ v ∷ rest) =
    if lower g == "resourcegroups"
    then match_providers sub (some v) rest
    else match_providers sub none (g ∷ v ∷ rest)
match_group sub rest = match_providers sub none rest

-- `_ARMID_RE.match` on the pieces of the id.
unfoldable pub match_id : String → List String → Parsed
unfolding match_group
match_id rid (e ∷ s ∷ sub ∷ rest) =
    if e == "" && lower s == "subscriptions" then matched (match_group sub rest) else unmatched rid
match_id rid _ = unmatched rid

unfoldable pub parse_resource_id : String → Parsed
unfolding match_id split
parse_resource_id rid = if truthy rid then match_id rid (split slash rid) else empty

-- The keyword arguments of `resource_id` that are not None.
pub record ChildArgs : Type 0 where
  pub namespace : Option String
  pub type : Option String
  pub name : Option String

pub record IdArgs : Type 0 where
  pub subscription : Option String
  pub resource_group : Option String
  pub namespace : Option String
  pub type : Option String
  pub name : Option String
  pub children : List ChildArgs

-- An `append` whose format may raise a KeyError that is passed over.
abbrev pub labelled : String → Option String → List String
labelled label none = []
labelled label (some v) = (label <> v) ∷ []

-- The `while True` loop: it ends at the first child that lacks its type or its name.
unfoldable pub child_parts : List ChildArgs → List String
child_parts [] = []
child_parts (c ∷ cs) =
    let rest = child_parts cs in
    labelled "providers/" c.namespace ++ elim c.type [
      | none ↦ []
      | some t ↦ elim c.name [ none ↦ [] | some n ↦ (t <> ("/" <> n)) ∷ rest ]
    ]

-- From the namespace on; a KeyError ends the building.
unfoldable pub root_parts : IdArgs → List String
unfolding child_parts
root_parts a = elim a.namespace [
  | none ↦ []
  | some ns ↦ ("providers/" <> ns) ∷ elim a.type [
    | none ↦ []
    | some t ↦ elim a.name [ none ↦ [] | some n ↦ (t <> ("/" <> n)) ∷ child_parts a.children ]
  ]
]

-- `none` is the KeyError for a missing subscription.
unfoldable pub resource_id : IdArgs → Option String
unfolding root_parts join
resource_id a = elim a.subscription [
  | none ↦ none
  | some sub ↦ some (
      join "/" (
        ("/subscriptions/" <> sub) ∷ (labelled "resourceGroups/" a.resource_group ++ root_parts a)))
]

abbrev to_child_args : Child → ChildArgs
to_child_args c = record { namespace = c.namespace; type = some c.type; name = some c.name }

abbrev pub map_child_args : List Child → List ChildArgs
map_child_args [] = []
map_child_args (c ∷ cs) = to_child_args c ∷ map_child_args cs

-- `**parse_resource_id(rid)` as arguments.
abbrev pub to_args : Parsed → IdArgs
to_args empty = record {
  subscription = none;
  resource_group = none;
  namespace = none;
  type = none;
  name = none;
  children = [];
}
to_args (unmatched rid) = record {
  subscription = none;
  resource_group = none;
  namespace = none;
  type = none;
  name = some rid;
  children = [];
}
to_args (matched p) = record {
  subscription = some p.subscription;
  resource_group = p.resource_group;
  namespace = p.namespace;
  type = p.type;
  name = p.name;
  children = map_child_args p.children;
}

-- Without an `exception_type`.
unfoldable pub is_valid_resource_id : String → Bool
is_valid_resource_id rid = truthy rid && elim (resource_id (to_args (parse_resource_id rid))) [
  | none ↦ false
  | some built ↦ lower built == lower rid
]

-- The keys that `_populate_alternate_kwargs` and `_get_parents_from_parts` add.
abbrev last_child : List Child → Option Child
last_child [] = none
last_child (c ∷ []) = some c
last_child (c ∷ d ∷ cs) = last_child (d ∷ cs)

-- `a or b`, where None and the empty text count as false.
abbrev pub or_text : Option String → Option String → Option String
or_text none b = b
or_text (some s) b = if truthy s then some s else b

unfoldable pub resource_type : Parts → Option String
resource_type p =
    or_text (elim (last_child p.children) [ none ↦ none | some c ↦ some c.type ]) p.type

unfoldable pub resource_name : Parts → Option String
resource_name p =
    or_text (elim (last_child p.children) [ none ↦ none | some c ↦ some c.name ]) p.name

abbrev provider_part : Option String → String
provider_part none = ""
provider_part (some ns) = "providers/" <> (ns <> "/")

-- `child_parent_{n}` for every child, from the parent text built so far.
unfoldable pub child_parents : String → List Child → List String
child_parents built [] = []
child_parents built (c ∷ cs) =
    let parent = built <> provider_part c.namespace in
    parent ∷ child_parents (parent <> (c.type <> ("/" <> (c.name <> "/")))) cs

abbrev last_text : String → List String → String
last_text d [] = d
last_text d (x ∷ xs) = last_text x xs

-- `resource_parent`, None where the id has no name or an empty one.
unfoldable pub resource_parent : Parts → Option String
unfolding child_parents
resource_parent p = elim p.name [
  | none ↦ none
  | some n ↦
      if truthy n
      then some
          (last_text "" (child_parents (get_or p.type "None" <> ("/" <> (n <> "/"))) p.children))
      else none
]

-- `parsed.get("last_child_num")`
abbrev pub last_child_num : Parts → Option ℕ
last_child_num p = elim p.children [ [] ↦ none | c ∷ cs ↦ some (length (c ∷ cs)) ]
