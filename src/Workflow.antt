-- ===== src/Workflow.antt =====
-- azext_edge/edge/util/workflow_display.py: the step table of a running command, and its rendering
-- as lines of text with a style. The console, the live refresh and the lock are not modelled: each
-- operation holds the lock for its whole effect, so it is one step on the table.
pub mod Steps
pub mod Layout
use azure_iot_ops_cli_extens.Base.{
  ℕ, zero, suc, ◌-◌, String, ◌<>◌, Bool, true, false, ◌||◌, Option, none, some, List, [], ◌∷◌, ◌++◌,
  map, if◌then◌else◌, any, all, truthy, str_len, nonempty, string_eq,
}
use Prim.Native.Nat.{max}
use azure_iot_ops_cli_extens.Base.Dict.{Dict, lookup, insert, map_values, values}
use azure_iot_ops_cli_extens.Base.Exec.{Exc, value_error, Outcome, returned, raised, Exec}

pub data StepState : Type 0 where
  pending active complete skipped failed : StepState

-- `state.value`
abbrev pub state_value : StepState → String
state_value pending = "pending"
state_value active = "active"
state_value complete = "complete"
state_value skipped = "skipped"
state_value failed = "failed"

pub record Entry : Type 0 where
  pub state : StepState
  pub detail : String

abbrev pub Steps : Type 0
Steps = Dict String Entry

pub record Display : Type 0 where
  pub title : String
  pub no_progress : Bool
  pub steps : Dict String Steps

abbrev pub fresh_entry : Entry
fresh_entry = record { state = pending; detail = "" }

unfoldable pub init_steps : List String → Steps → Steps
init_steps [] d = d
init_steps (step ∷ rest) d = init_steps rest (insert step fresh_entry d)

unfoldable pub init_categories : Dict String (List String) → Dict String Steps → Dict String Steps
unfolding init_steps insert
init_categories [] d = d
init_categories ((cat, steps) ∷ rest) d = init_categories rest (insert cat (init_steps steps []) d)

-- `__init__`
unfoldable pub init : String → Dict String (List String) → Bool → Display
unfolding init_categories
init title categories no_progress = record {
  title = title;
  no_progress = no_progress;
  steps = init_categories categories [];
}

-- `_set_step`
unfoldable pub set_step : String → String → StepState → String → Exec Display (Unit {0})
set_step category step state detail d = elim (lookup category d.steps) [
  | none ↦ (raised (value_error ("Unknown category: '" <> (category <> "'"))), d)
  | some entries ↦ elim (lookup step entries) [
    | none ↦ (
      raised (value_error ("Unknown step '" <> (step <> ("' in category '" <> (category <> "'"))))),
      d,
    )
    | some _ ↦ (
      returned tt,
      record d {
        steps =
            insert category (insert step (record { state = state; detail = detail }) entries)
              d.steps;
      },
    )
  ]
]

unfoldable pub update_step : String → String → StepState → String → Exec Display (Unit {0})
unfolding set_step
update_step category step state detail d =
    if d.no_progress then (returned tt, d) else set_step category step state detail d

-- One step of the loop of `complete_category`.
abbrev pub finish_entry : Entry → Entry
finish_entry e = elim e.state [
  | pending ↦ record { state = complete; detail = if truthy e.detail then e.detail else "done" }
  | _ ↦ e
]

unfoldable pub complete_category : String → Exec Display (Unit {0})
complete_category category d =
    if d.no_progress then (returned tt, d) else elim (lookup category d.steps) [
      | none ↦ (raised (value_error ("Unknown category: '" <> (category <> "'"))), d)
      | some entries ↦ (
        returned tt,
        record d { steps = insert category (map_values finish_entry entries) d.steps },
      )
    ]

abbrev pub is_pending : StepState → Bool
is_pending pending = true
is_pending _ = false

abbrev pub is_active : StepState → Bool
is_active active = true
is_active _ = false

abbrev pub is_failed : StepState → Bool
is_failed failed = true
is_failed _ = false

-- `s in (StepState.COMPLETE, StepState.SKIPPED)`
abbrev pub is_done : StepState → Bool
is_done complete = true
is_done skipped = true
is_done _ = false

unfoldable pub category_style : Steps → String
category_style entries =
    let states = map (λ (e : Entry). e.state) (values entries) in
    if any is_failed states
    then "red"
    else if any is_active states
    then "cyan"
    else if all is_done states
    then ""
    else if all is_pending states
    then "dim"
    else "cyan"

abbrev pub display_width : ℕ
display_width = 56

-- `s * n`
unfoldable pub repeat_text : String → ℕ → String
repeat_text s zero = ""
repeat_text s (suc n) = s <> repeat_text s n

-- Where the source goes below zero it takes the maximum with 2 next.
unfoldable pub format_dot_leader : String → String → ℕ → String → String → String
unfolding repeat_text str_len
format_dot_leader name detail width indent dot_char =
    let content_width = width - str_len indent in
    let dots_needed = max (content_width - str_len name - str_len detail - 2) 2 in
    indent <> (name <> (" " <> (repeat_text dot_char dots_needed <> (" " <> detail))))

-- A rich `Text`.
pub record Line : Type 0 where
  pub text : String
  pub style : String

abbrev pub plain : String → Line
plain t = record { text = t; style = "" }

-- The arguments that both callers leave at their defaults.
abbrev dotted : String → String → String
unfolding format_dot_leader
dotted name detail = format_dot_leader name detail display_width "    " "."

-- `style_map.get(state, "")`
abbrev terminal_style : StepState → String
terminal_style skipped = "dark_khaki"
terminal_style failed = "red"
terminal_style _ = ""

unfoldable pub render_step : String → Entry → Line
unfolding dotted
render_step name e = elim e.state [
  | pending ↦ record { text = "    " <> name; style = "dim" }
  | active ↦ record { text = "    " <> (name <> " ..."); style = "cyan" }
  | other ↦ record {
    text = dotted name (if truthy e.detail then e.detail else state_value other);
    style = terminal_style other;
  }
]

render_steps : Steps → List Line
unfolding render_step
render_steps [] = []
render_steps ((name, e) ∷ rest) = render_step name e ∷ render_steps rest

render_categories : Dict String Steps → List Line
unfolding category_style render_steps
render_categories [] = []
render_categories ((cat, entries) ∷ rest) =
    record { text = "  " <> cat; style = category_style entries }
    ∷ (render_steps entries ++ plain "" ∷ render_categories rest)

-- `_render`, without the animated footer of a live console.
unfoldable pub render : Display → List Line
unfolding render_categories
render d = record { text = " " <> d.title; style = "bold" } ∷ plain "" ∷ render_categories d.steps

-- An item of a summary section: a name with its detail, or a plain label.
pub data Item : Type 0 where
  pair : String → String → Item
  label : String → Item

abbrev item_line : Item → Line
item_line (pair name detail) = plain (dotted name detail)
item_line (label l) = plain ("    " <> l)

section_lines : Dict String (List Item) → List Line
section_lines [] = []
section_lines ((category, items) ∷ rest) =
    let more = section_lines rest in
    if nonempty items
    then plain ("  " <> category) ∷ (map item_line items ++ plain "" ∷ more)
    else more

-- The rows that `render_summary` prints.
unfoldable pub render_summary : String → Dict String (List Item) → String → List Line
unfolding section_lines dotted
render_summary title sections footer =
    let has_items = any (λ (c, items). nonempty items) sections in
    let shown = section_lines sections in
    let nothing : List Line =
      record { text = "  No resources found."; style = "dim" } ∷ plain "" ∷ [] in
    let note : List Line = record { text = "  " <> footer; style = "dim" } ∷ plain "" ∷ [] in
    record { text = " " <> title; style = "bold" }
    ∷ plain ""
    ∷ (shown ++ ((if has_items then [] else nothing) ++ (if truthy footer then note else [])))
