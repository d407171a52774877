-- ===== src/Upgrade/Shown.antt =====
-- The table of an upgrade, against what there is to do.
use Prim.Native.String.append
use azure_iot_ops_cli_extens.Base.{
  String, ◌<>◌, ◌≡◌, refl, sym, ap, Bool, true, false, ◌&&◌, ◌||◌, Option, none, some, List, [],
  ◌∷◌, ◌++◌, if◌then◌else◌, nonempty, truthy, join, map, keep, arith, string_eq,
}
use azure_iot_ops_cli_extens.Base.Exec.{Outcome, returned, raised}
use azure_iot_ops_cli_extens.Base.Outcomes.{◌>>=◌, bind-returned, returned-injective}
use azure_iot_ops_cli_extens.Upgrade.{Semver, Urls, ExtensionOperation, create, update, delete}
use azure_iot_ops_cli_extens.Upgrade.Config.{Settings}
use azure_iot_ops_cli_extens.Upgrade.Extension.{ExtensionUpgradeState, can_upgrade}
use azure_iot_ops_cli_extens.Upgrade.Validate.{Patch, get_patch}
use azure_iot_ops_cli_extens.Upgrade.Cluster.{
  ClusterInput, ClusterUpgradeState, any_can_upgrade, has_upgrades, check_adr_namespace_update,
}
use azure_iot_ops_cli_extens.Upgrade.Rows.{
  lines_or_none, optional_line, config_lines, other_line, action_lines, update_cells, row_of,
  format_extension_row, is_broker_setting, is_other_setting,
}
use azure_iot_ops_cli_extens.Upgrade.Table.{
  TableRow, row_if, instance_rows, skipped_rows, extension_rows, render_upgrade_table,
}

truthy-append : (s t : String) → truthy s ≡ true → truthy (s <> t) ≡ true
truthy-append String.[] t h = ground (arith, h)
truthy-append (String.◌∷◌ c s) t h = rw (append.cons c s t) refl

-- Lines that do not begin with an empty one.
abbrev starts_full : List String → Bool
starts_full [] = true
starts_full (x ∷ _) = truthy x

join-truthy :
    (sep x : String) (xs : List String) → truthy x ≡ true → truthy (join sep (x ∷ xs)) ≡ true
unfolding join
join-truthy sep x [] h = h
join-truthy sep x (y ∷ ys) h = truthy-append x (sep <> join sep (y ∷ ys)) h

lines_or_none-truthy : (xs : List String) → starts_full xs ≡ true → truthy (lines_or_none xs) ≡ true
lines_or_none-truthy [] h = refl
lines_or_none-truthy (x ∷ xs) h = join-truthy "\n" x xs h

optional_line-starts_full :
    (text : String) (o : Option (Option String)) (xs : List String)
    → starts_full xs ≡ true
    → starts_full (optional_line text o ++ xs) ≡ true
optional_line-starts_full text none xs h = h
optional_line-starts_full text (some v) xs h = truthy-append _ _ refl

other_lines-starts_full : (s : Settings) → starts_full (map other_line s) ≡ true
unfolding other_line
other_lines-starts_full [] = refl
other_lines-starts_full ((k, none) ∷ s) = truthy-append _ _ refl
other_lines-starts_full ((k, some v) ∷ s) = truthy-append _ _ refl

if_starts_full :
    (b : Bool) (x : String) (xs ys : List String)
    → truthy x ≡ true
    → starts_full ys ≡ true
    → starts_full ((if b then x ∷ xs else []) ++ ys) ≡ true
if_starts_full true x xs ys h k = h
if_starts_full false x xs ys h k = k

config_lines-starts_full : (s : Settings) → starts_full (config_lines s) ≡ true
unfolding config_lines
config_lines-starts_full s =
    if_starts_full (nonempty (keep is_broker_setting s)) _ _ _ refl
      (other_lines-starts_full (keep is_other_setting s))

configured-starts_full :
    (o : Option Settings)
    → starts_full (elim o [ none ↦ [] | some settings ↦ config_lines settings ]) ≡ true
configured-starts_full none = refl
configured-starts_full (some s) = config_lines-starts_full s

action_lines-starts_full : (p : Patch) → starts_full (action_lines p) ≡ true
unfolding action_lines
action_lines-starts_full p =
    optional_line-starts_full _ p.version _
      (optional_line-starts_full _ p.release_train _ (configured-starts_full p.configuration))

update_cells-truthy :
    (e : ExtensionUpgradeState) (o : Outcome (Option Patch))
    → truthy (update_cells e o).action ≡ true
update_cells-truthy e (raised x) = refl
update_cells-truthy e (returned none) = refl
update_cells-truthy e (returned (some p)) =
    lines_or_none-truthy (action_lines p) (action_lines-starts_full p)

-- One round of `any`, against one round of the table.
any_step :
    (o : Outcome Bool) (b t : Bool) (row : TableRow) (rest rows : List TableRow)
    (others : Outcome Bool)
    → o ≡ returned b
    → t ≡ true
    → others ≡ returned (nonempty rest)
    → row_if (b && t) row ++ rest ≡ rows
    → (o >>= λ can. if can then returned true else others) ≡ returned (nonempty rows)
any_step o true t row rest rows others p q r e = rw (p, sym e, q) refl
any_step o false t row rest rows others p q r e = rw (p, sym e) r

nonempty-append : (xs ys : List TableRow) → nonempty (xs ++ ys) ≡ nonempty xs || nonempty ys
nonempty-append [] ys = refl
nonempty-append (x ∷ xs) ys = refl

nonempty-row_if : (b : Bool) (row : TableRow) → nonempty (row_if b row) ≡ b
nonempty-row_if true row = refl
nonempty-row_if false row = refl

nonempty-if :
    (b : Bool) (xs : List TableRow) → nonempty xs ≡ true → nonempty (if b then xs else []) ≡ b
nonempty-if true xs h = h
nonempty-if false xs h = refl

or_assoc : (a b c d e : Bool) → (a || b || c || d || e) ≡ (a || (b || (c || (d || e))))
or_assoc a b c d e = ground arith

-- What else there is to do, against the rows behind those of the queue.
has_step :
    (o : Outcome Bool) (i r t x : Bool) (skipped extensions inst : List TableRow)
    (row1 row2 row3 : TableRow) (rows : List TableRow)
    → skipped ≡ []
    → o ≡ returned (nonempty extensions)
    → nonempty inst ≡ true
    → skipped
        ++ (extensions
            ++ ((if i then inst else []) ++ (row_if r row1 ++ (row_if t row2 ++ row_if x row3))))
      ≡ rows
    → (o >>= λ can. returned (can || i || r || t || x)) ≡ returned (nonempty rows)
has_step o i r t x skipped extensions inst row1 row2 row3 rows p q n e =
    rw
      (
        q,
        sym e,
        p,
        nonempty-append extensions,
        nonempty-append (if i then inst else []),
        nonempty-append (row_if r row1),
        nonempty-append (row_if t row2),
        nonempty-row_if r row1,
        nonempty-row_if t row2,
        nonempty-row_if x row3,
        nonempty-if i inst n,
      )
      (ap returned (or_assoc (nonempty extensions) i r t x))

module _ (SV : Semver) (U : Urls) where
  no_skipped :
      (c : ClusterInput) (rows : List TableRow)
      → c.no_cm_install ≡ false
      → skipped_rows SV c ≡ returned rows
      → rows ≡ []
  unfolding skipped_rows
  no_skipped c rows flag h = ground (arith, flag, h)

  format_extension_row-truthy :
      (e : ExtensionUpgradeState) → truthy (format_extension_row SV U e).action ≡ true
  unfolding format_extension_row
  format_extension_row-truthy e = by_operation e.operation_type
    where
      by_operation : (op : ExtensionOperation) → truthy (row_of SV U e op).action ≡ true
      by_operation create = truthy-append _ _ refl
      by_operation delete = truthy-append _ _ refl
      by_operation update = update_cells-truthy e (get_patch SV U e)

  extension_rows-nonempty :
      (es : List ExtensionUpgradeState) (rows : List TableRow)
      → extension_rows SV U es ≡ returned rows
      → any_can_upgrade SV U es ≡ returned (nonempty rows)
  unfolding extension_rows any_can_upgrade
  extension_rows-nonempty [] rows h = ap (λ r. returned (nonempty r)) (returned-injective [] rows h)
  extension_rows-nonempty (e ∷ es) rows h =
      let (can, c, h1) = bind-returned (can_upgrade SV U e) _ rows h in
      let (rest, r, h2) = bind-returned (extension_rows SV U es) _ rows h1 in
      any_step (can_upgrade SV U e) can _ _ rest rows _ c (format_extension_row-truthy e)
        (extension_rows-nonempty es rest r) (returned-injective _ rows h2)

  inst_shown :
      (s : ClusterUpgradeState) (needs_adr : Bool)
      → check_adr_namespace_update s.input.adr_namespace_resource_id s.input.instance_record
        ≡ returned needs_adr
      → nonempty (instance_rows s) ≡ true
  unfolding instance_rows
  inst_shown s needs_adr h = rw h refl

  -- Where --no-cm-install is not given and the check of the namespace returns, `has_upgrades`
  -- returns whether a table that is rendered has a row.
  pub render_upgrade_table-nonempty :
      (s : ClusterUpgradeState) (needs_adr : Bool) (rows : List TableRow)
      → s.input.no_cm_install ≡ false
      → check_adr_namespace_update s.input.adr_namespace_resource_id s.input.instance_record
        ≡ returned needs_adr
      → render_upgrade_table SV U s ≡ returned rows
      → has_upgrades SV U s ≡ returned (nonempty rows)
  unfolding render_upgrade_table has_upgrades skipped_rows instance_rows
  render_upgrade_table-nonempty s needs_adr rows flag adr h =
      let (skipped, k, h1) = bind-returned (skipped_rows SV s.input) _ rows h in
      let (extensions, x, h2) =
        bind-returned (extension_rows SV U s.extension_upgrades) _ rows h1 in
      has_step _ _ _ _ _ skipped extensions _ _ _ _ rows (no_skipped s.input skipped flag k)
        (extension_rows-nonempty s.extension_upgrades extensions x) (inst_shown s needs_adr adr)
        (returned-injective _ rows h2)
