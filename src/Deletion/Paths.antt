-- ===== src/Deletion/Paths.antt =====
-- The two ways of `DeletionManager` to find what to delete: from an instance, or from a cluster.
use azure_iot_ops_cli_extens.Base.{
  String, ◌<>◌, Bool, ◌&&◌, Option, none, some, List, [], ◌∷◌, if◌then◌else◌, get_or, nonempty,
  contains, any, find, keep, ◌==◌, string_eq, lower, truthy,
}
use azure_iot_ops_cli_extens.Base.Exec.{
  Exc, http_error, not_found, resource_not_found, Outcome, returned, raised, Exec, ◌>>◌, pure,
  try_except,
}
use azure_iot_ops_cli_extens.ResourceId.{parse_resource_id}
use azure_iot_ops_cli_extens.ResourceMap.{Resource}
use azure_iot_ops_cli_extens.Deletion.Manager.{Manager, Instance}
use azure_iot_ops_cli_extens.Deletion.Discovery.{
  Services, CustomLocation, custom_locations_api_version, default_iotops_mgmt_api_version,
  aio_default_namespace, text_or_empty, name_of, group_of, modify, ask, collect_spc_from_instance,
  discover_extensions, discover_sync_rules, run_arg_sweep, warn_http,
}

abbrev instance_resource_of : Instance → String → Resource
instance_resource_of inst fallback = record {
  resource_id = inst.id;
  display_name = get_or inst.name fallback;
  api_version = default_iotops_mgmt_api_version;
}

-- The custom location by its id.
abbrev with_location : String → Manager → Manager
with_location id m =
    let name = name_of (parse_resource_id id) in
    record m {
      cl_id = some id;
      cl_name = some name;
      cl_resource = some (record {
        resource_id = id;
        display_name = name;
        api_version = custom_locations_api_version;
      });
    }

-- An instance that is not found, for either error of the client, is told with a hint.
abbrev hint : String → String → Exc
hint name rg = resource_not_found (
    "Instance '"
    <> (name
        <> ("' not found in resource group '"
            <> (rg
                <> ("'. If resources remain from a previous deletion, "
                    <> "use --cluster to discover and clean them up.")))))

abbrev not_found_hint : String → String → Exc → Exc
not_found_hint name rg (http_error _ _) = hint name rg
not_found_hint name rg (not_found _) = hint name rg
not_found_hint name rg (resource_not_found _) = hint name rg
not_found_hint name rg e = e

abbrev hinted : String → String → Outcome Instance → Outcome Instance
hinted name rg (returned inst) = returned inst
hinted name rg (raised e) = raised (not_found_hint name rg e)

-- Tier 1 of `_identify_aio_cl`.
abbrev pub has_typed_extension : List String → CustomLocation → Bool
has_typed_extension typed cl = any (λ eid. contains typed (lower eid)) cl.cluster_extension_ids

-- Tier 2.
abbrev pub has_default_namespace : CustomLocation → Bool
has_default_namespace cl =
    let ns = text_or_empty cl.namespace in truthy ns && lower ns == aio_default_namespace

-- `_identify_aio_cl`, on the type-verified ids and the name of the cluster.
unfoldable pub identify_aio_cl :
    List String → String → List CustomLocation → Outcome (Option CustomLocation)
identify_aio_cl typed cluster [] = returned none
identify_aio_cl typed cluster (cl ∷ cls) =
    let by_extension =
      if nonempty typed then find (has_typed_extension typed) (cl ∷ cls) else none in
    elim by_extension [
      | some found ↦ returned (some found)
      | none ↦ elim (find has_default_namespace (cl ∷ cls)) [
        | some found ↦ returned (some found)
        | none ↦ raised (
            resource_not_found (
              "Could not identify an IoT Operations custom location on cluster '"
              <> (cluster <> "'. If resources remain, delete them manually.")))
      ]
    ]

module _ (S : Services) where
  -- The cluster behind the custom location. The name is kept also where the cluster is not shown.
  unfoldable pub resolve_cluster : String → Exec Manager (Unit {0})
  resolve_cluster id =
      try_except
        (ask (S.host_of_custom_location id) λ host.
          let cluster_id = text_or_empty host in
          let parsed = parse_resource_id cluster_id in
          if truthy cluster_id
          then (do
            modify (λ m. record m { cluster_name = some (name_of parsed) })
            λ m.
                ask (S.show_cluster (group_of parsed m.resource_group_name) (name_of parsed))
                  (λ cluster. modify (λ m'. record m' { cluster_resource = some cluster })) m)
          else pure tt)
        warn_http

  -- `_discover_instance_path`
  unfoldable pub discover_instance_path : String → Exec Manager (Unit {0})
  unfolding resolve_cluster collect_spc_from_instance discover_extensions discover_sync_rules
      run_arg_sweep
  discover_instance_path name m =
      ask (hinted name m.resource_group_name (S.show_instance name m.resource_group_name))
        (λ inst.
          let id = text_or_empty inst.extended_location in
          do
            modify (λ m'. record m' {
              instance = some inst;
              instance_resource = some (instance_resource_of inst name);
              cl_id = some id;
            })
            if truthy id then modify (with_location id) else pure tt
            if truthy id then resolve_cluster id else pure tt
            collect_spc_from_instance
            discover_extensions S
            discover_sync_rules S
            run_arg_sweep S)
        m

  -- The instance on the custom location that was found.
  abbrev lies_on : String → Instance → Bool
  lies_on id inst =
      let location = text_or_empty inst.extended_location in
      truthy location && lower location == lower id

  unfoldable pub find_instance : Exec Manager (Unit {0})
  find_instance m =
      let id = text_or_empty m.cl_id in
      if truthy id
      then ask (S.list_instances m.resource_group_name)
          (λ insts. elim (find (lies_on id) insts) [
            | none ↦ pure tt
            | some inst ↦ modify (λ m'. record m' {
              instance = some inst;
              instance_resource = some (instance_resource_of inst "");
            })
          ])
          m
      else (returned tt, m)

  -- `_discover_cluster_path`
  unfoldable pub discover_cluster_path : String → Exec Manager (Unit {0})
  unfolding identify_aio_cl find_instance collect_spc_from_instance discover_extensions
      discover_sync_rules run_arg_sweep
  discover_cluster_path name m =
      ask (S.show_cluster m.resource_group_name name)
        (λ cluster. do
          modify (λ m'. record m' { cluster_resource = some cluster; cluster_name = some name })
          discover_extensions S
          λ m'.
              ask (S.list_custom_locations m'.resource_group_name)
                (λ all m''.
                  let hosted =
                    keep
                      (λ (cl : CustomLocation).
                        lower (text_or_empty cl.host_resource_id) == lower cluster.id)
                      all in
                  ask (identify_aio_cl m''.aio_typed_ext_ids name hosted)
                    (λ matched. elim matched [
                      | none ↦ pure tt
                      | some cl ↦ modify (with_location cl.id)
                    ])
                    m'')
                m'
          find_instance
          collect_spc_from_instance
          discover_sync_rules S
          run_arg_sweep S)
        m
