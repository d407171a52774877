-- ===== src/Deletion/Work.antt =====
-- `do_work`: discovery, the guards, the prompt and the run.
use azure_iot_ops_cli_extens.Base.{
  String, ◌<>◌, Bool, true, false, ◌&&◌, ◌||◌, not, Option, none, some, if◌then◌else◌, get_or, ◌==◌,
  string_eq, lower, truthy,
}
use azure_iot_ops_cli_extens.Base.Exec.{
  Exc, argument_usage, attribute_error, Outcome, returned, raised, Exec,
}
use azure_iot_ops_cli_extens.Cloud.{Request, Cloud, Run}
use azure_iot_ops_cli_extens.Deletion.Manager.{Manager, ClusterInfo, has_work, new_manager}
use azure_iot_ops_cli_extens.Deletion.Discovery.{Services, text_or_empty}
use azure_iot_ops_cli_extens.Deletion.Paths.{discover_instance_path, discover_cluster_path}
use azure_iot_ops_cli_extens.Deletion.Execute.{execute}

-- `should_continue_prompt` of util/common.py, with the answer to the question that it may ask.
unfoldable pub should_continue_prompt : Bool → Bool → Bool
should_continue_prompt confirm_yes answer = if not confirm_yes && not answer then false else true

-- The status that the connectivity gate reads; none is None.
abbrev pub connectivity : ClusterInfo → Option String
connectivity c = get_or c.connectivity_status (some "Unknown")

abbrev not_connected : String → Exc
not_connected status = argument_usage (
    "The cluster is not connected to Azure (status: "
    <> (status <> "). Use --force to continue anyway, which may lead to errors."))

-- The test of the status; None has no `lower`.
unfoldable pub check_status : Option String → Outcome (Unit {0})
check_status none = raised (attribute_error "'NoneType' object has no attribute 'lower'")
check_status (some status) =
    if not (lower status == "connected") then raised (not_connected status) else returned tt

-- The gate: a cluster that was resolved is tested, unless --force is given.
unfoldable pub connectivity_gate : Bool → Option ClusterInfo → Outcome (Unit {0})
unfolding check_status
connectivity_gate force none = returned tt
connectivity_gate force (some c) = if force then returned tt else check_status (connectivity c)

-- The discovery by the name that was given; the instance's goes first.
unfoldable pub discover : Services → Manager → Outcome (Unit {0}) × Manager
discover S m =
    let instance = text_or_empty m.instance_name in
    let cluster = text_or_empty m.requested_cluster in
    if truthy instance
    then discover_instance_path S instance m
    else discover_cluster_path S cluster m

module _ (C : Cloud Request) (S : Services) where
  -- Behind the discovery.
  unfoldable pub approve_and_execute : Bool → Bool → Bool → Manager → Exec (Run C) (Unit {0})
  unfolding connectivity_gate should_continue_prompt
  approve_and_execute confirm_yes force answer m s =
      elim (connectivity_gate force m.cluster_resource) [
        | raised e ↦ (raised e, s)
        | returned _ ↦
            let run = execute C m s in
            if has_work m
            then if should_continue_prompt confirm_yes answer then run else (returned tt, s)
            else (returned tt, s)
      ]

  -- `answer` is what the user would reply to the prompt.
  unfoldable pub do_work : Bool → Bool → Bool → Manager → Exec (Run C) (Unit {0})
  unfolding approve_and_execute discover
  do_work confirm_yes force answer m s =
      if truthy (text_or_empty m.requested_cluster) || truthy (text_or_empty m.instance_name)
      then elim (discover S m).0 [
        | raised e ↦ (raised e, s)
        | returned _ ↦ approve_and_execute confirm_yes force answer (discover S m).1 s
      ]
      else (raised (argument_usage "Please provide either an instance name or cluster name."), s)

  -- `delete_ops_resources`
  unfoldable pub delete_ops_resources :
      String
      → Option String
      → Option String
      → Bool
      → Bool
      → Bool
      → Bool
      → Bool
      → Exec (Run C) (Unit {0})
  unfolding do_work new_manager
  delete_ops_resources resource_group_name instance_name cluster_name confirm_yes no_progress force
        include_dependencies answer =
      do_work confirm_yes force answer (
        new_manager instance_name cluster_name resource_group_name include_dependencies no_progress)
