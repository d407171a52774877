-- ===== src/Deletion/Manager.antt =====
-- The state of `DeletionManager`, and what it computes from it alone.
use azure_iot_ops_cli_extens.Base.{
  ℕ, String, ◌<>◌, Bool, true, false, ◌&&◌, ◌||◌, Option, none, some, List, [], ◌∷◌, ◌++◌, map, ltb,
  if◌then◌else◌, get_or, is_some, nonempty, length, ◌==◌, string_eq, nat_eq, lower, truthy, str_nat,
}
use azure_iot_ops_cli_extens.Base.Dict.{Dict, lookup}
use azure_iot_ops_cli_extens.ResourceId.{
  Parsed, matched, parse_resource_id, resource_type, last_child_num,
}
use azure_iot_ops_cli_extens.ResourceMap.{Resource, segments, sorted_resources}
use azure_iot_ops_cli_extens.Workflow.{Item, pair, Line, render_summary}

-- The keys of an instance's payload that the deletion reads.
pub record Instance : Type 0 where
  pub id : String
  pub name : Option String
  pub extended_location : Option String
  pub default_spc_id : Option String
  pub version : Option String

-- A connected cluster's payload: its id and `connectivityStatus`, a key that may be missing and a
-- value that may be None.
pub record ClusterInfo : Type 0 where
  pub id : String
  pub connectivity_status : Option (Option String)

pub record Manager : Type 0 where
  pub instance_name : Option String
  pub requested_cluster : Option String
  pub resource_group_name : String
  pub include_dependencies : Bool
  pub render_progress : Bool
  pub instance : Option Instance
  pub instance_resource : Option Resource
  pub cl_id : Option String
  pub cl_name : Option String
  pub cluster_resource : Option ClusterInfo
  pub cluster_name : Option String
  pub aio_extension : Option Resource
  pub dep_extensions : List Resource
  pub cl_resources : List Resource
  pub sync_rules : List Resource
  pub cl_resource : Option Resource
  pub aio_typed_ext_ids : List String

-- `__init__`
unfoldable pub new_manager : Option String → Option String → String → Bool → Bool → Manager
new_manager instance_name cluster_name resource_group_name include_dependencies no_progress =
    record {
      instance_name = instance_name;
      requested_cluster = cluster_name;
      resource_group_name = resource_group_name;
      include_dependencies = include_dependencies;
      render_progress = if no_progress then false else true;
      instance = none;
      instance_resource = none;
      cl_id = none;
      cl_name = none;
      cluster_resource = none;
      cluster_name = none;
      aio_extension = none;
      dep_extensions = [];
      cl_resources = [];
      sync_rules = [];
      cl_resource = none;
      aio_typed_ext_ids = [];
    }

-- The step labels.
abbrev pub step_instance : String
step_instance = "Instance"

abbrev pub step_aio_ext : String
step_aio_ext = "Ops Extension"

abbrev pub step_cl_resources : String
step_cl_resources = "CL Resources"

abbrev pub step_sync_rules : String
step_sync_rules = "Resource Sync Rules"

abbrev pub step_custom_location : String
step_custom_location = "Custom Location"

abbrev pub step_dep_extensions : String
step_dep_extensions = "Dependency Extensions"

-- `self.include_dependencies and self._dep_extensions`
abbrev pub wanted_deps : Manager → List Resource
wanted_deps m = if m.include_dependencies then m.dep_extensions else []

-- `_has_work`
unfoldable pub has_work : Manager → Bool
has_work m =
    is_some m.instance_resource
    || is_some m.aio_extension
    || nonempty m.cl_resources
    || nonempty m.sync_rules
    || is_some m.cl_resource
    || nonempty (wanted_deps m)

-- `_batch_by_segment_depth`: the loop, over the batches made so far and the current one.
unfoldable pub batch_loop :
    List Resource → ℕ → List Resource → List (List Resource) → List (List Resource)
batch_loop [] last current batches = if nonempty current then batches ++ current ∷ [] else batches
batch_loop (r ∷ rs) last current batches =
    let flush = ltb (segments r) last && nonempty current in
    batch_loop rs (segments r) (if flush then r ∷ [] else current ++ r ∷ [])
      (if flush then batches ++ current ∷ [] else batches)

-- `sys.maxsize` of a 64-bit build
abbrev pub maxsize : ℕ
maxsize = 9223372036854775807

unfoldable pub batch_by_segment_depth : List Resource → List (List Resource)
unfolding batch_loop sorted_resources
batch_by_segment_depth rs = batch_loop (sorted_resources rs) maxsize [] []

-- The label of the one step for all resources of the custom location.
unfoldable pub count_label : ℕ → String
unfolding str_nat
count_label n = let one : ℕ = 1 in str_nat n <> (" resource" <> (if n == one then "" else "s"))

abbrev friendly_type_labels : Dict String String
friendly_type_labels =
    ("assets", "asset")
    ∷ ("assetendpointprofiles", "asset endpoint profile")
    ∷ ("devices", "device")
    ∷ ("azurekeyvaultsecretproviderclasses", "secret provider class")
    ∷ []

-- `parsed.get(key, "")` for the keys that only a match has.
abbrev type_of : Parsed → String
type_of (matched p) = get_or (resource_type p) ""
type_of _ = ""

abbrev namespace_of : Parsed → String
namespace_of (matched p) = get_or p.namespace ""
namespace_of _ = ""

abbrev has_child : Parsed → Bool
has_child (matched p) = is_some (last_child_num p)
has_child _ = false

-- `_cl_resource_label`
unfoldable pub cl_resource_label : String → String
unfolding parse_resource_id lookup lower
cl_resource_label id =
    let parsed = parse_resource_id id in
    let kind = lower (type_of parsed) in
    let label =
      get_or (lookup kind friendly_type_labels) (if truthy kind then kind else "resource") in
    if has_child parsed && lower (namespace_of parsed) == "microsoft.deviceregistry"
    then "ns " <> label
    else label

abbrev found_items : List Resource → List Item
found_items [] = []
found_items (r ∷ rs) = pair r.display_name "found" ∷ found_items rs

abbrev labelled_items : List Resource → List Item
labelled_items [] = []
labelled_items (r ∷ rs) = pair r.display_name (cl_resource_label r.resource_id) ∷ labelled_items rs

-- A section or a category that is present only where there is something in it.
abbrev pub entry_if {ℓ} : {V : Type ℓ} → Bool → String → V → Dict String V
entry_if true k v = (k, v) ∷ []
entry_if false k v = []

abbrev pub names : List Resource → List String
names = map (λ (r : Resource). r.display_name)

abbrev pub option_list {ℓ} : {A : Type ℓ} → Option A → List A
option_list none = []
option_list (some a) = a ∷ []

-- `_display_summary`
unfoldable pub summary_sections : Manager → Dict String (List Item)
summary_sections m =
    let one = λ (o : Option Resource). found_items (option_list o) in
    entry_if (is_some m.instance_resource) step_instance (one m.instance_resource)
    ++ (entry_if (nonempty m.cl_resources) step_cl_resources (labelled_items m.cl_resources)
        ++ (entry_if (nonempty m.sync_rules) step_sync_rules (found_items m.sync_rules)
            ++ (entry_if (is_some m.cl_resource) step_custom_location (one m.cl_resource)
                ++ (entry_if (is_some m.aio_extension) step_aio_ext (one m.aio_extension)
                    ++ entry_if (nonempty (wanted_deps m)) step_dep_extensions
                        (found_items (wanted_deps m))))))

unfoldable pub display_summary : Manager → List Line
unfolding summary_sections render_summary
display_summary m =
    render_summary "IoT Operations Deletion" (summary_sections m)
      "Preserved (not deleted): DR namespace, schema registry"

-- The categories of `_execute`.
unfoldable pub categories : Manager → Dict String (List String)
unfolding count_label
categories m =
    let one = λ (o : Option Resource). names (option_list o) in
    entry_if (is_some m.instance_resource) step_instance (one m.instance_resource)
    ++ (entry_if (nonempty m.cl_resources) step_cl_resources
          (count_label (length m.cl_resources) ∷ [])
        ++ (entry_if (nonempty m.sync_rules) step_sync_rules (names m.sync_rules)
            ++ (entry_if (is_some m.cl_resource) step_custom_location (one m.cl_resource)
                ++ (entry_if (is_some m.aio_extension) step_aio_ext (one m.aio_extension)
                    ++ entry_if (nonempty (wanted_deps m)) step_dep_extensions
                        (names (wanted_deps m))))))
