-- ===== src/Tests/Deletions.antt =====
-- A deletion at concrete states, services and clouds.
use azure_iot_ops_cli_extens.Base.{
  ℕ, suc, ◌≡◌, ◌⊎◌, refl, String, true, false, none, some, List, [], ◌∷◌, ◌++◌, map, keep, flatten,
  nonempty, split, string_eq, nat_eq,
}
use azure_iot_ops_cli_extens.Base.Dict.{lookup}
use azure_iot_ops_cli_extens.Base.Exec.{
  http_error, returned, raised, is_returned, ◌>>=◌, try_except,
}
use azure_iot_ops_cli_extens.ResourceMap.{Resource, sorted_resources}
use azure_iot_ops_cli_extens.Workflow
use azure_iot_ops_cli_extens.Workflow.{
  StepState, pending, active, complete, failed, Entry, Steps, Display, init, complete_category,
  finish_entry, category_style, format_dot_leader, fresh_entry, is_failed, is_done,
}
use azure_iot_ops_cli_extens.Cloud.{Request, Cloud, Run, begin_delete}
use azure_iot_ops_cli_extens.Deletion.Manager.{
  Manager, new_manager, has_work, categories, batch_by_segment_depth,
}
use azure_iot_ops_cli_extens.Deletion.Execute.{execute}
use azure_iot_ops_cli_extens.Deletion.Plan.{plan, execute-requests}
use azure_iot_ops_cli_extens.Deletion.Safety.{is_value_error, IsHonest}
use azure_iot_ops_cli_extens.Deletion.Listed.{execute-no_value_error}
use azure_iot_ops_cli_extens.Deletion.Batches.{
  IsLayered, batch_by_segment_depth-IsLayered, batch_by_segment_depth-flatten,
}
use azure_iot_ops_cli_extens.Deletion.Discovery.{
  Services, Extension, to_extension, discover_extensions,
}
use azure_iot_ops_cli_extens.Deletion.Discovery.{SweepRow, run_arg_sweep}
use azure_iot_ops_cli_extens.Deletion.Sweep.{row_resource, is_new, run_arg_sweep-resources}
use azure_iot_ops_cli_extens.Deletion.Extensions.{
  is_dependency, gated_storage, discover_extensions-deps,
}
use azure_iot_ops_cli_extens.Deletion.Work.{discover, do_work}
use azure_iot_ops_cli_extens.Deletion.Guards.{IsApproved, do_work-cases, has_work-plan}

-- A cloud that does at once what it is asked, and one that answers every request with an error.
abbrev prompt_cloud : Cloud Request
prompt_cloud = record {
  World = ℕ;
  Poller = ℕ;
  begin_delete = λ q w. (returned w, suc w);
  done = λ p w. (true, w);
  result = λ p w. (returned tt, w);
  sleep = λ w. w;
}

prompt_cloud-IsHonest : IsHonest prompt_cloud
prompt_cloud-IsHonest = record { begins = λ q w. tt; results = λ p w. tt }

abbrev idle_run : Run prompt_cloud
idle_run = record {
  world = 0;
  display = record { title = ""; no_progress = true; steps = [] };
  requests = [];
}

abbrev lost_cloud : Cloud Request
lost_cloud = record {
  World = ℕ;
  Poller = ℕ;
  begin_delete = λ q w. (raised (http_error (some 500) "lost"), w);
  done = λ p w. (true, w);
  result = λ p w. (returned tt, w);
  sleep = λ w. w;
}

lost_cloud-IsHonest : IsHonest lost_cloud
lost_cloud-IsHonest = record { begins = λ q w. refl; results = λ p w. tt }

abbrev lost_run : Run lost_cloud
lost_run = record {
  world = 0;
  display = record { title = ""; no_progress = true; steps = [] };
  requests = [];
}

abbrev location_id : String
location_id =
    "/subscriptions/s/resourceGroups/g/providers/Microsoft.ExtendedLocation/customLocations/cl"

abbrev pub device : Resource
device = record { resource_id = "/s/ns/devices/d"; display_name = "d"; api_version = "v1" }

abbrev pub endpoint : Resource
endpoint = record {
  resource_id = "/s/ns/devices/d/endpoints/e";
  display_name = "e";
  api_version = "v1";
}

abbrev location : Resource
location = record { resource_id = location_id; display_name = "cl"; api_version = "v2" }

abbrev found_manager : Manager
found_manager = record (new_manager (some "ops") none "g" true false) {
  cl_resources = device ∷ endpoint ∷ [];
  cl_resource = some location;
  cluster_name = some "k";
}

execute-requests_example :
    (sent : List Request) × (unsent : List Request) × ((execute prompt_cloud found_manager
        idle_run).1.requests
      ≡ [] ++ sent)
    × (plan prompt_cloud found_manager ≡ sent ++ unsent)
    × (is_returned (execute prompt_cloud found_manager idle_run).0 ≡ true → unsent ≡ [])
execute-requests_example = execute-requests prompt_cloud found_manager idle_run

-- The first request fails, and its error goes through.
lost_fails : (execute lost_cloud found_manager lost_run).0 ≡ raised (http_error (some 500) "lost")
unfolding execute string_eq nat_eq new_manager batch_by_segment_depth ◌>>=◌ Workflow.update_step
    init lookup categories try_except split begin_delete
lost_fails = refl

execute-no_value_error_example : is_value_error (http_error (some 500) "lost") ≡ false
execute-no_value_error_example =
    execute-no_value_error lost_cloud found_manager lost_run lost_cloud-IsHonest
      (http_error (some 500) "lost") lost_fails

-- The services of a cluster with three extensions.
abbrev cert_extension : Extension
cert_extension = record {
  id = some "/x/cert";
  name = some "cert";
  extension_type = some "Microsoft.CertManagement";
  version = some "1.0.0";
}

abbrev storage_extension : Extension
storage_extension = record {
  id = some "/x/acs";
  name = some "acs";
  extension_type = some "microsoft.arc.containerstorage";
  version = some "2.0.0";
}

abbrev small_services : Services
small_services = record {
  show_instance = λ n g. returned (record {
    id = "/s/instances/ops";
    name = some "ops";
    extended_location = some location_id;
    default_spc_id = none;
    version = some "1.0.0";
  });
  list_instances = λ g. returned [];
  host_of_custom_location = λ id. returned none;
  show_cluster = λ n g. raised (http_error (some 404) "no cluster");
  list_extensions = λ g c. returned (cert_extension ∷ storage_extension ∷ []);
  list_custom_locations = λ g. returned [];
  list_sync_rules = λ g n. returned [];
  query_resources = λ id. returned [];
  Version = String;
  parse_version = some;
  le_version = λ a b. true;
}

discover_extensions-deps_example :
    (discover_extensions small_services found_manager).1.dep_extensions
    ≡ ([] ++ map to_extension (keep is_dependency (cert_extension ∷ storage_extension ∷ [])))
      ++ gated_storage small_services found_manager (cert_extension ∷ storage_extension ∷ [])
unfolding string_eq new_manager
discover_extensions-deps_example =
    discover_extensions-deps small_services found_manager (cert_extension ∷ storage_extension ∷ [])
      refl refl

-- The custom location stands on a cluster that is connected.
abbrev cluster_id : String
cluster_id = "/subscriptions/s/resourceGroups/g/providers/Microsoft.Kubernetes/connectedClusters/k"

abbrev connected_services : Services
connected_services = record small_services {
  host_of_custom_location = λ id. returned (some cluster_id);
  show_cluster =
      λ n g. returned (record { id = cluster_id; connectivity_status = some (some "Connected") });
}

do_work-cases_example :
    IsApproved connected_services true false false found_manager
      × (do_work prompt_cloud connected_services true false false found_manager idle_run
          ≡ execute prompt_cloud (discover connected_services found_manager).1 idle_run)
    ⊎ (¬ IsApproved connected_services true false false found_manager)
      × ((do_work prompt_cloud connected_services true false false found_manager idle_run).1
          ≡ idle_run)
do_work-cases_example =
    do_work-cases prompt_cloud connected_services true false false found_manager idle_run

has_work-plan_example : has_work found_manager ≡ nonempty (plan prompt_cloud found_manager)
has_work-plan_example = has_work-plan prompt_cloud found_manager

batch_by_segment_depth-IsLayered_example :
    IsLayered (batch_by_segment_depth (device ∷ endpoint ∷ []))
batch_by_segment_depth-IsLayered_example = batch_by_segment_depth-IsLayered (device ∷ endpoint ∷ [])

batch_by_segment_depth-flatten_example :
    flatten (batch_by_segment_depth (device ∷ endpoint ∷ []))
    ≡ sorted_resources (device ∷ endpoint ∷ [])
batch_by_segment_depth-flatten_example = batch_by_segment_depth-flatten (device ∷ endpoint ∷ [])

-- A sweep that finds a resource that is known already, in other letters, and a new one.
abbrev sweep_rows : List SweepRow
sweep_rows =
    record { id = some "/S/ns/devices/d"; api_version = some "v1" }
    ∷ record { id = some "/s/assets/a"; api_version = some "v1" }
    ∷ []

abbrev sweep_services : Services
sweep_services = record small_services { query_resources = λ id. returned sweep_rows }

abbrev located_manager : Manager
located_manager = record found_manager { cl_id = some location_id }

run_arg_sweep-resources_example :
    (run_arg_sweep sweep_services located_manager).1.cl_resources
    ≡ located_manager.cl_resources
      ++ map row_resource (keep (is_new located_manager.cl_resources) sweep_rows)
run_arg_sweep-resources_example =
    run_arg_sweep-resources sweep_services located_manager sweep_rows refl refl
