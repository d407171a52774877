-- ===== src/Workflow/Steps.antt =====
-- What the operations on the step table change, and what they leave alone.
use azure_iot_ops_cli_extens.Base.{
  ◌≡◌, refl, String, Bool, false, ◌&&◌, ◌||◌, not, Option, none, some, List, [], ◌∷◌, arith,
  if◌then◌else◌, contains, is_some, ◌==◌, string_eq, inl, inr, Option-cases,
}
use azure_iot_ops_cli_extens.Base.Dict.{Dict, lookup, lookup-nil, insert, lookup-insert, map_values}
use azure_iot_ops_cli_extens.Base.Exec.{is_returned}
use azure_iot_ops_cli_extens.Workflow.{
  StepState, Entry, Steps, Display, set_step, update_step, complete_category, finish_entry, init,
  init_categories, init_steps, fresh_entry,
}

-- The entry of a step, if the table has one.
unfoldable pub entry_of : String → String → Display → Option Entry
entry_of category step d = elim (lookup category d.steps) [
  | none ↦ none
  | some entries ↦ lookup step entries
]

abbrev pub known : String → String → Display → Bool
known category step d = is_some (entry_of category step d)

module _ (category step : String) (state : StepState) (detail : String) (d : Display) where
  -- `update_step` raises exactly for an unknown step of a display that shows progress.
  pub update_step-returned :
      is_returned (update_step category step state detail d).0
      ≡ (d.no_progress || known category step d)
  unfolding update_step entry_of
  update_step-returned = ground arith

  set_step-entry_of :
      (c s : String)
      → entry_of c s (set_step category step state detail d).1 ≡ (
          if known category step d && (c == category && s == step)
          then some (record { state = state; detail = detail })
          else entry_of c s d)
  unfolding set_step entry_of
  set_step-entry_of c s = elim (Option-cases (lookup category d.steps)) [
    | inl e ↦ ground arith
    | inr (es, e) ↦ ground (
      arith,
      lookup-insert c category (insert step (record { state = state; detail = detail }) es) d.steps,
      lookup-insert s step (record { state = state; detail = detail }) es,
    )
  ]

  -- Where progress is shown, `update_step` writes the entry of a known step and no other; else the
  -- table stays.
  pub update_step-entry_of :
      (c s : String)
      → entry_of c s (update_step category step state detail d).1 ≡ (
          if not d.no_progress && (known category step d && (c == category && s == step))
          then some (record { state = state; detail = detail })
          else entry_of c s d)
  unfolding update_step
  update_step-entry_of c s = ground (arith, set_step-entry_of c s)

  pub update_step-no_progress :
      (update_step category step state detail d).1.no_progress ≡ d.no_progress
  unfolding update_step
  update_step-no_progress = ground arith

  -- The set of steps never changes.
  pub update_step-known :
      (c s : String) → known c s (update_step category step state detail d).1 ≡ known c s d
  update_step-known c s = rw (update_step-entry_of c s) (ground arith)

lookup-map_values :
    (step : String) (entries : Steps)
    → lookup step (map_values finish_entry entries)
      ≡ elim (lookup step entries) [ none ↦ none | some e ↦ some (finish_entry e) ]
unfolding lookup
lookup-map_values step [] = refl
lookup-map_values step (_ ∷ es) = ground (arith, lookup-map_values step es)

-- Where progress is shown, `complete_category` finishes the entries of its category and leaves
-- every other entry.
complete_category-entry_of :
    (category : String) (d : Display)
    → d.no_progress ≡ false
    → (c s : String)
    → entry_of c s (complete_category category d).1 ≡ (
        if c == category
        then elim (entry_of c s d) [ none ↦ none | some e ↦ some (finish_entry e) ]
        else entry_of c s d)
unfolding complete_category entry_of
complete_category-entry_of category d shown c s = elim (Option-cases (lookup category d.steps)) [
  | inl e ↦ ground arith
  | inr (es, e) ↦
      ground (
        arith,
        lookup-insert c category (map_values finish_entry es) d.steps,
        lookup-map_values s es,
      )
]

pub complete_category-returned :
    (category : String) (d : Display)
    → is_returned (complete_category category d).0
      ≡ (d.no_progress || is_some (lookup category d.steps))
unfolding complete_category
complete_category-returned category d = ground arith

-- The keys of a dict are distinct.
abbrev pub NodupKeys {ℓ} : {V : Type ℓ} → Dict String V → Type 0
NodupKeys [] = Unit
NodupKeys ((k, _) ∷ d) = (is_some (lookup k d) ≡ false) × NodupKeys d

lookup-init_steps :
    (s : String) (steps : List String) (d : Steps)
    → lookup s (init_steps steps d) ≡ (if contains steps s then some fresh_entry else lookup s d)
unfolding init_steps
lookup-init_steps s [] d = refl
lookup-init_steps s (step ∷ rest) d = ground (
  arith,
  lookup-init_steps s rest (insert step fresh_entry d),
  lookup-insert s step fresh_entry d,
)

lookup-init_categories :
    (c : String) (cats : Dict String (List String)) (d : Dict String Steps)
    → NodupKeys cats
    → lookup c (init_categories cats d)
      ≡ elim (lookup c cats) [ none ↦ lookup c d | some steps ↦ some (init_steps steps []) ]
unfolding init_categories lookup
lookup-init_categories c [] d h = refl
lookup-init_categories c ((k, steps) ∷ rest) d h = ground (
  arith,
  lookup-init_categories c rest (insert k (init_steps steps []) d) h.1,
  lookup-insert c k (init_steps steps []) d,
)

-- Where no category is listed twice, a new display knows exactly the steps that its categories
-- list, each of them pending.
pub init-entry_of :
    (title : String) (cats : Dict String (List String)) (quiet : Bool)
    → NodupKeys cats
    → (c s : String)
    → entry_of c s (init title cats quiet) ≡ elim (lookup c cats) [
      | none ↦ none
      | some steps ↦ if contains steps s then some fresh_entry else none
    ]
unfolding init entry_of
init-entry_of title cats quiet h c s = elim (Option-cases (lookup c cats)) [
  | inl e ↦ ground (arith, lookup-init_categories c cats [] h, lookup-nil {V = Steps} c)
  | inr (steps, e) ↦ ground (
    arith,
    lookup-init_categories c cats [] h,
    lookup-init_steps s steps [],
    lookup-nil {V = Entry} s,
  )
]
