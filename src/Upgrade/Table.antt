-- ===== src/Upgrade/Table.antt =====
-- `render_upgrade_table`: the rows that tell what an upgrade changes.
use azure_iot_ops_cli_extens.Base.{
  String, ◌<>◌, Bool, ◌&&◌, not, Option, none, some, List, [], ◌∷◌, ◌++◌, if◌then◌else◌, get_or,
  truthy, join, split, last_or, is_some, string_eq,
}
use azure_iot_ops_cli_extens.Base.Dict.{lookup, has}
use azure_iot_ops_cli_extens.Base.Exec.{Outcome, returned, raised}
use azure_iot_ops_cli_extens.Base.Outcomes.{◌>>=◌}
use azure_iot_ops_cli_extens.Upgrade.{Semver, Urls, given, extension_type_cm}
use azure_iot_ops_cli_extens.Upgrade.Extension.{ExtensionUpgradeState, moniker, can_upgrade}
use azure_iot_ops_cli_extens.Upgrade.SecretSync.{SecretSync}
use azure_iot_ops_cli_extens.Upgrade.Cluster.{
  ClusterInput, ClusterUpgradeState, check_adr_namespace_update, check_spc_reference_update,
  is_target_version_at_least, is_target_version_above_migration_threshold,
}
use azure_iot_ops_cli_extens.Upgrade.Rows.{Cells, bullet, lines_or_none, format_extension_row}

-- A resource, and what its row says.
pub record TableRow : Type 0 where
  pub resource : String
  pub cells : Cells

-- `text.split("/")[-1]`
abbrev pub last_part : String → String
last_part s = last_or s (split 47 s)

abbrev pub default_registry_host : String
default_registry_host = "mcr.microsoft.com"

abbrev pub opcua_connector_endpoint_type : String
opcua_connector_endpoint_type = "Microsoft.OpcUa"

abbrev pub opcua_connector_version : String
opcua_connector_version = "1.4.10"

-- The id of the class that is to be linked; a missing id is "".
abbrev pub default_spc_id : Option SecretSync → Option String
default_spc_id none = none
default_spc_id (some m) = elim m.spc_default [ none ↦ none | some spc ↦ some (get_or spc.id "") ]

module _ (c : ClusterInput) (needs_adr needs_spc : Bool) where
  abbrev pub instance_actions : List String
  instance_actions =
      (if needs_adr && given c.adr_namespace_resource_id
        then bullet (
            "Link ADR namespace: [bold]"
            <> (last_part (get_or c.adr_namespace_resource_id "") <> "[/bold]"))
          ∷ []
        else [])
      ++ (if needs_spc
          then elim (default_spc_id c.secretsync_migration) [
            | none ↦ []
            | some id ↦ bullet ("Link default SPC: [bold]" <> (last_part id <> "[/bold]")) ∷ []
          ]
          else [])

  abbrev pub instance_current : List String
  instance_current =
      (if given c.instance_record.adr_namespace_ref
        then "ADR: " <> last_part (get_or c.instance_record.adr_namespace_ref "")
        else "[dim]No ADR namespace[/dim]")
      ∷ (if given c.instance_record.default_spc_ref
          then "SPC: " <> last_part (get_or c.instance_record.default_spc_ref "")
          else "[dim]No SPC ref[/dim]")
      ∷ []

  -- A reference is there if it has a resource id.
  abbrev pub instance_desired : List String
  instance_desired =
      (if needs_adr && given c.adr_namespace_resource_id
        then ("[cyan]Linked " <> (last_part (get_or c.adr_namespace_resource_id "") <> "[/cyan]"))
          ∷ []
        else if is_some c.instance_record.adr_namespace_ref
        then "[dim]Keep ADR ref[/dim]" ∷ []
        else [])
      ++ (if needs_spc
          then "[cyan]Linked default SPC[/cyan]" ∷ []
          else if is_some c.instance_record.default_spc_ref
          then "[dim]Keep SPC ref[/dim]" ∷ []
          else [])

  abbrev pub instance_row : TableRow
  instance_row = record {
    resource = "instance";
    cells = record {
      current = join "\n" instance_current;
      desired = lines_or_none instance_desired;
      action = lines_or_none instance_actions;
    };
  }

-- The `try` of the instance's row: an exception leaves it out.
unfoldable pub instance_rows : ClusterUpgradeState → List TableRow
unfolding check_adr_namespace_update
instance_rows s =
    rows (check_adr_namespace_update s.input.adr_namespace_resource_id s.input.instance_record)
  where
    rows : Outcome Bool → List TableRow
    rows (returned needs_adr) =
        instance_row s.input needs_adr
          (check_spc_reference_update s.input.secretsync_migration s.input.instance_record)
        ∷ []
    rows (raised _) = []

abbrev pub registry_row : TableRow
registry_row = record {
  resource = "default registry";
  cells = record {
    current = "[dim]Not configured[/dim]";
    desired = "[green]Created 'default'[/green]";
    action =
        "[green]•[/green] Create registry endpoint\n[green]•[/green] Host: [bold]"
        <> (default_registry_host <> "[/bold]\n[green]•[/green] Auth: [bold]Anonymous[/bold]");
  };
}

abbrev pub template_lines : String
template_lines =
    "[green]•[/green] Endpoint: [bold]"
    <> (opcua_connector_endpoint_type
        <> ("[/bold]\n[green]•[/green] Version: [bold]" <> (opcua_connector_version <> "[/bold]")))

abbrev pub template_row : Option String → TableRow
template_row repair_name = record {
  resource = "opc-ua connector template";
  cells =
      if given repair_name
      then record {
        current = "[bold]" <> (get_or repair_name "" <> "[/bold]\n[red]Failed[/red]");
        desired = "[yellow]Replaced[/yellow]";
        action =
            "[yellow]•[/yellow] Replace failed template [bold]"
            <> (get_or repair_name ""
                <> ("[/bold]\n[yellow]•[/yellow] Existing template settings are reset to defaults\n"
                    <> template_lines));
      }
      else record {
        current = "[dim]Not configured[/dim]";
        desired = "[green]Created[/green]";
        action = "[green]•[/green] Create default OPC UA connector template\n" <> template_lines;
      };
}

abbrev pub secretsync_row : TableRow
secretsync_row = record {
  resource = "opc-ua-connector SPC";
  cells = record {
    current = "Created";
    desired = "[red]Removed[/red]";
    action =
        "[cyan]•[/cyan] Migrate secret refs to default SPC\n[red]•[/red] Delete opc-ua-connector SPC";
  };
}

abbrev pub skipped_row : TableRow
skipped_row = record {
  resource = "certManager";
  cells = record {
    current = "[dim]Not Installed[/dim]";
    desired = "[yellow]Skipped[/yellow]";
    action = "[yellow]Installation disabled by --no-cm-install[/yellow]";
  };
}

abbrev pub row_if : Bool → TableRow → List TableRow
row_if needed row = if needed then row ∷ [] else []

module _ (SV : Semver) where
  -- The row on an installation that the flag keeps back.
  unfoldable pub skipped_rows : ClusterInput → Outcome (List TableRow)
  unfolding is_target_version_at_least lookup
  skipped_rows c =
      if c.no_cm_install
      then (do
        above ← is_target_version_above_migration_threshold SV c
        returned (row_if (above && not (has extension_type_cm c.extensions_map)) skipped_row))
      else returned []

  module _ (U : Urls) where
    -- The loop over the queue; a row without an action is left out.
    unfoldable pub extension_rows : List ExtensionUpgradeState → Outcome (List TableRow)
    unfolding can_upgrade format_extension_row moniker
    extension_rows [] = returned []
    extension_rows (e ∷ es) = do
      can ← can_upgrade SV U e
      rest ← extension_rows es
      returned (
          row_if (can && truthy (format_extension_row SV U e).action)
            (record { resource = moniker e; cells = format_extension_row SV U e })
          ++ rest)

    -- The rows of the table, which is shown if nothing raises.
    unfoldable pub render_upgrade_table : ClusterUpgradeState → Outcome (List TableRow)
    unfolding skipped_rows extension_rows instance_rows
    render_upgrade_table s = do
      skipped ← skipped_rows s.input
      extensions ← extension_rows s.extension_upgrades
      returned (
          skipped
          ++ (extensions
              ++ ((if s.instance_upgrade then instance_rows s else [])
                  ++ (row_if s.registry_endpoint_needed registry_row
                      ++ (row_if s.connector_template_needed
                            (template_row s.connector_template_repair_name)
                          ++ row_if s.secretsync_migration_needed secretsync_row)))))
