-- ===== src/ResourceMap.antt =====
-- azext_edge/edge/providers/orchestration/resource_map.py: what the cluster holds, by custom
-- location. The queries of `ConnectedCluster` are a parameter, the answers of one refresh.
pub mod Order
use azure_iot_ops_cli_extens.Base.{
  ℕ, String, ◌<>◌, Bool, true, false, Option, none, some, List, [], ◌∷◌, ◌++◌, map, ltb,
  if◌then◌else◌, get_or, nonempty, find, length, ◌==◌, string_eq, nat_eq, lower, split, str_lt,
  ◌&&◌, ◌||◌,
}
use azure_iot_ops_cli_extens.Base.Dict.{Dict, lookup, insert, values}
use azure_iot_ops_cli_extens.Base.Sorted.{sorted_desc}
use azure_iot_ops_cli_extens.ResourceId.{slash}

-- `IoTOperationsResource`
pub record Resource : Type 0 where
  pub resource_id : String
  pub display_name : String
  pub api_version : String

-- The property `segments`. The cache holds a value that never changes.
unfoldable pub segments : Resource → ℕ
segments r = length (split slash r.resource_id)

-- `a < b` on the sort keys `(r.segments, r.display_name.lower())`.
unfoldable pub key_lt : Resource → Resource → Bool
key_lt a b =
    ltb (segments a) (segments b)
    || (segments a == segments b && str_lt (lower a.display_name) (lower b.display_name))

-- `sorted(resources, key=..., reverse=True)`
unfoldable pub sorted_resources : List Resource → List Resource
unfolding sorted_desc key_lt segments
sorted_resources = sorted_desc key_lt

pub record CustomLocationsContainer : Type 0 where
  pub resource : Resource
  pub resource_sync_rules : List Resource
  pub related_resources : List Resource

pub record ClusterContainer : Type 0 where
  pub extensions : List Resource
  pub custom_locations : Dict String CustomLocationsContainer

-- A row of a query, with the keys `id`, `name` and `apiVersion`.
pub record Row : Type 0 where
  pub id : String
  pub name : String
  pub api_version : String

-- What `ConnectedCluster` answers. None and the empty list are one to the code.
pub record ConnectedCluster : Type 0 where
  pub cluster_name : String
  pub aio_custom_locations : List Row
  pub resource_sync_rules : String → List Row
  pub aio_resources : String → List Row
  pub aio_extensions : List Row
  -- The id of the extension of the type EXTENSION_TYPE_OPS, if there is one with an entry.
  pub ops_extension : Option (Option String)

abbrev pub to_resource : Row → Resource
to_resource r = record { resource_id = r.id; display_name = r.name; api_version = r.api_version }

custom_locations_of : ClusterContainer → List Resource
custom_locations_of c = map (λ (k, cl). cl.resource) c.custom_locations

unfoldable pub custom_locations : ClusterContainer → List Resource
unfolding custom_locations_of
custom_locations c = if nonempty c.custom_locations then custom_locations_of c else []

unfoldable pub get_resource_sync_rules : ClusterContainer → String → List Resource
unfolding lookup
get_resource_sync_rules c id = elim (lookup id c.custom_locations) [
  | none ↦ []
  | some cl ↦ cl.resource_sync_rules
]

unfoldable pub get_resources : ClusterContainer → String → List Resource
unfolding lookup
get_resources c id = elim (lookup id c.custom_locations) [
  | none ↦ []
  | some cl ↦ sorted_resources cl.related_resources
]

module _ (cluster : ConnectedCluster) where
  -- The loop over the custom locations.
  unfoldable pub add_custom_locations :
      List Row → Dict String CustomLocationsContainer → Dict String CustomLocationsContainer
  add_custom_locations [] d = d
  add_custom_locations (cl ∷ cls) d = add_custom_locations cls (
      insert cl.id
        (record {
          resource = to_resource cl;
          resource_sync_rules = map to_resource (cluster.resource_sync_rules cl.id);
          related_resources = map to_resource (cluster.aio_resources cl.id);
        })
        d)

  -- The container that replaces the old one.
  unfoldable pub refresh_resource_state : ClusterContainer
  unfolding add_custom_locations insert
  refresh_resource_state = record {
    extensions = map to_resource cluster.aio_extensions;
    custom_locations = add_custom_locations cluster.aio_custom_locations [];
  }

-- A rich `Tree`, by its labels.
mutual
  pub data Tree : Type 0 where
    node : String → Trees → Tree

  pub data Trees : Type 0 where
    end : Trees
    add : Tree → Trees → Trees

abbrev pub leaves : List Resource → Trees
leaves [] = end
leaves (r ∷ rs) = add (node r.display_name end) (leaves rs)

-- The children of a custom location's node.
location_trees : ClusterContainer → String → Resource → Trees
location_trees c color cl =
    let rules = get_resource_sync_rules c cl.resource_id in
    let below =
      add (node ("[" <> (color <> "]resources")) (leaves (get_resources c cl.resource_id))) end in
    if nonempty rules
    then add (node ("[" <> (color <> "]resourceSyncRules")) (leaves rules)) below
    else below

all_locations : ClusterContainer → String → List Resource → Trees
all_locations c color [] = end
all_locations c color (cl ∷ cls) =
    add (node cl.display_name (location_trees c color cl)) (all_locations c color cls)

-- The extensions to show: all of them, or only the one of the operations type.
extension_trees : ConnectedCluster → ClusterContainer → Bool → Trees
extension_trees cluster c true = leaves c.extensions
extension_trees cluster c false = elim cluster.ops_extension [
  | none ↦ end
  | some id ↦ elim (find (λ ext. lower ext.resource_id == lower (get_or id "")) c.extensions) [
    | none ↦ end
    | some ext ↦ add (node ext.display_name end) end
  ]
]

unfoldable pub build_tree : ConnectedCluster → ClusterContainer → Bool → String → Tree
unfolding custom_locations extension_trees all_locations location_trees get_resource_sync_rules
    get_resources
build_tree cluster c include_dependencies color =
    let exts =
      node ("[" <> (color <> "]extensions")) (extension_trees cluster c include_dependencies) in
    let cls = custom_locations c in
    node ("[green]" <> cluster.cluster_name) (
      add exts (
        if nonempty cls
        then add (node ("[" <> (color <> "]customLocations")) (all_locations c color cls)) end
        else end))
