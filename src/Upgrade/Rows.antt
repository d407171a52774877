-- ===== src/Upgrade/Rows.antt =====
-- `format_version_with_train` and `format_extension_row`: how a change of an extension is shown.
use text.Mathlib.Text.{starts_with}
use azure_iot_ops_cli_extens.Base.{
  String, ◌<>◌, Bool, ◌&&◌, not, Option, none, some, List, [], ◌∷◌, ◌++◌, if◌then◌else◌, nonempty,
  ◌==◌, string_eq, get_or, lower, truthy, keep, map, join, split, last_or, truncate, str_len,
  is_inside, ltb,
}
use azure_iot_ops_cli_extens.Base.Exec.{Outcome, returned, raised}
use azure_iot_ops_cli_extens.Upgrade.{
  Semver, Urls, ExtensionOperation, create, update, delete, given, text_or,
  provisioning_state_success,
}
use azure_iot_ops_cli_extens.Upgrade.Config.{Settings}
use azure_iot_ops_cli_extens.Upgrade.Extension.{
  ExtensionUpgradeState, moniker, current_version, current_train, desired_version, desired_train,
  provisioning_state,
}
use azure_iot_ops_cli_extens.Upgrade.Validate.{Patch, get_patch}

-- The current state, the desired state and the action.
pub record Cells : Type 0 where
  pub current : String
  pub desired : String
  pub action : String

abbrev pub no_changes : String
no_changes = "[dim]No changes[/dim]"

unfoldable pub format_version_with_train : Option String → Option String → String
format_version_with_train version train =
    if not (given version)
    then "[dim]Not Available[/dim]"
    else if not (given train)
    then get_or version ""
    else get_or version "" <> (" \\[" <> (get_or train "" <> "]"))

unfoldable pub status_indicator : ExtensionUpgradeState → String
unfolding lower
status_indicator e =
    if truthy (provisioning_state e)
      && not (lower (provisioning_state e) == lower provisioning_state_success)
    then " [yellow](" <> (provisioning_state e <> ")[/yellow]")
    else ""

-- `f"{value}"`
abbrev pub shown : Option String → String
shown value = get_or value "None"

abbrev pub bullet : String → String
bullet text = "[cyan]•[/cyan] " <> text

-- A line on a setting of the broker.
unfoldable pub broker_line : String × Option String → String
unfolding is_inside
broker_line (key, value) =
    if is_inside "hostName" key
    then "  [dim]◦[/dim] Hostname: [bold]" <> (shown value <> "[/bold]")
    else if is_inside "port" key
    then "  [dim]◦[/dim] Port: [bold]" <> (shown value <> "[/bold]")
    else if is_inside "serviceAccountTokenAudience" key
    then "  [dim]◦[/dim] Token audience: [bold]" <> (shown value <> "[/bold]")
    else "  [dim]◦[/dim] "
      <> (last_or key (split 46 key)
          <> (": "
              <> (if given value
                  then "[bold]" <> (get_or value "" <> "[/bold]")
                  else "[dim]removed[/dim]")))

-- A line on any other setting; a long value is cut.
unfoldable pub other_line : String × Option String → String
unfolding str_len truncate
other_line (key, none) = "[red]•[/red] Remove config: [strike]" <> (key <> "[/strike]")
other_line (key, some value) = bullet ("Set " <> (key <> (": [bold]" <> (cut <> "[/bold]"))))
  where
    cut : String
    cut = if ltb 50 (str_len value) then truncate 47 value <> "..." else value

abbrev pub is_broker_setting : String × Option String → Bool
is_broker_setting (key, _) = truthy key && starts_with key "dataFlows.values.tinyKube.mqttBroker"

abbrev pub is_other_setting : String × Option String → Bool
is_other_setting (key, _) =
    truthy key && not (starts_with key "dataFlows.values.tinyKube.mqttBroker")

unfoldable pub config_lines : Settings → List String
unfolding broker_line other_line
config_lines settings =
    (if nonempty (keep is_broker_setting settings)
      then bullet "WASM Graph config:" ∷ map broker_line (keep is_broker_setting settings)
      else [])
    ++ map other_line (keep is_other_setting settings)

abbrev pub optional_line : String → Option (Option String) → List String
optional_line text none = []
optional_line text (some value) = bullet (text <> (" to [bold]" <> (shown value <> "[/bold]"))) ∷ []

unfoldable pub action_lines : Patch → List String
unfolding config_lines
action_lines p =
    optional_line "Update version" p.version
    ++ (optional_line "Change release train" p.release_train
        ++ elim p.configuration [ none ↦ [] | some settings ↦ config_lines settings ])

-- `"\n".join(lines) if lines else ...`
abbrev pub lines_or_none : List String → String
lines_or_none lines = if nonempty lines then join "\n" lines else no_changes

-- What any exception leaves.
abbrev pub unknown_cells : Cells
unknown_cells = record {
  current = "[dim]Unknown[/dim]";
  desired = "[dim]Unknown[/dim]";
  action = "[yellow]Check configuration[/yellow]";
}

abbrev pub current_cell : ExtensionUpgradeState → String
current_cell e =
    format_version_with_train (current_version e) (current_train e) <> status_indicator e

-- The row of an update, by the patch.
abbrev pub update_cells : ExtensionUpgradeState → Outcome (Option Patch) → Cells
update_cells e (raised _) = unknown_cells
update_cells e (returned patch) = record {
  current = current_cell e;
  desired =
      "[cyan]" <> (format_version_with_train (desired_version e) (desired_train e) <> "[/cyan]");
  action = elim patch [ none ↦ no_changes | some p ↦ lines_or_none (action_lines p) ];
}

-- The row of each operation.
unfoldable pub row_of : Semver → Urls → ExtensionUpgradeState → ExtensionOperation → Cells
unfolding format_version_with_train status_indicator action_lines moniker get_patch
row_of SV U e delete = record {
  current = current_cell e;
  desired = "[red]Removed[/red]";
  action = "[red]Delete " <> (moniker e <> "[/red]");
}
row_of SV U e create = record {
  current = "[dim]Not Installed[/dim]";
  desired =
      "[green]"
      <> (format_version_with_train (some (text_or (desired_version e) "[dim]default[/dim]"))
            (some (text_or (desired_train e) "stable"))
          <> "[/green]");
  action = "[green]Install " <> (moniker e <> "[/green]");
}
row_of SV U e update = update_cells e (get_patch SV U e)

unfoldable pub format_extension_row : Semver → Urls → ExtensionUpgradeState → Cells
unfolding row_of
format_extension_row SV U e = row_of SV U e e.operation_type
