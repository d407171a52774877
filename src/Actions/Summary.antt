-- ===== src/Actions/Summary.antt =====
-- `_log_disable_summary`: what it prints, and its count against the plan of the teardown.
use azure_iot_ops_cli_extens.Base.{
  ℕ, ◌+◌, String, ◌<>◌, ◌≡◌, refl, Bool, true, false, Option, none, some, List, [], ◌∷◌, ◌++◌, map,
  if◌then◌else◌, length, length-append, str_nat, arith,
}
use azure_iot_ops_cli_extens.Base.Dict.{Dict}
use azure_iot_ops_cli_extens.Base.Exec.{Outcome, returned, raised, is_returned}
use azure_iot_ops_cli_extens.Base.Outcomes.{planned}
use azure_iot_ops_cli_extens.Base.Json.{Json, is_key}
use azure_iot_ops_cli_extens.Workflow.{Item, label, Line, render_summary}
use azure_iot_ops_cli_extens.Actions.{EgContext, remove, replace_namespace}
use azure_iot_ops_cli_extens.Actions.Namespace.{build_adr_put_payload}
use azure_iot_ops_cli_extens.Actions.Discovery.{EgFound, nothing_found}
use azure_iot_ops_cli_extens.Actions.Teardown.{
  Findings, stated, aio_label, adr_label, eg_label, endpoint_target,
}
use azure_iot_ops_cli_extens.Actions.Plan.{
  dataflow_plan, change_if, aio_plan, adr_plan, eg_plan, teardown_plan,
}

-- `if test: pairs.append(...)`; the purposes of the pairs only go to the log.
abbrev pub row_where : Bool → String → List String
row_where b text = if b then text ∷ [] else []

abbrev pub dataflow_rows : Option String → Option String → List String
dataflow_rows (some _) _ = "Response dataflow" ∷ "Dataflow graph" ∷ []
dataflow_rows none (some _) = "Response dataflow (orphaned)" ∷ []
dataflow_rows none none = []

abbrev pub aio_rows : Findings → List String
aio_rows f =
    dataflow_rows (stated f.dataflow_profile_name) (stated f.resp_profile_name)
    ++ row_where f.ep_exists "EG dataflow endpoint"

abbrev pub adr_rows : Bool → List String
adr_rows has_adr_entry = row_where has_adr_entry "Management endpoint"

abbrev pub eg_rows : EgFound → List String
eg_rows eg =
    row_where eg.pub_exists "Permission binding (publisher)"
    ++ (row_where eg.sub_exists "Permission binding (subscriber)"
        ++ row_where eg.ts_exists "Topic space")

unfoldable pub disable_sections : Findings → Bool → Dict String (List Item)
disable_sections f has_adr_entry =
    (aio_label f.name, map label (aio_rows f))
    ∷ (adr_label f.adr_namespace_name, map label (adr_rows has_adr_entry))
    ∷ (eg_label f.eg_ctx, map label (eg_rows f.eg))
    ∷ []

-- `sum(len(items) for items in sections.values())`
unfoldable pub total : Dict String (List Item) → ℕ
total [] = 0
total ((_, items) ∷ rest) = length items + total rest

unfoldable pub log_disable_summary : Findings → Bool → List Line
unfolding disable_sections total render_summary
log_disable_summary f has_adr_entry =
    let sections = disable_sections f has_adr_entry in
    render_summary ("Resources to remove (" <> (str_nat (total sections) <> ")")) sections
      "Note: Role assignments are NOT removed."

length-map : {A B : Type 0} (g : A → B) (xs : List A) → length (map g xs) ≡ length xs
length-map g [] = refl
length-map g (x ∷ xs) = omega (arith, length-map g xs)

length-if :
    {A B : Type 0} (b : Bool) (x : A) (y : B)
    → length (if b then x ∷ [] else []) ≡ length (if b then y ∷ [] else [])
length-if true x y = refl
length-if false x y = refl

append_lengths :
    {A B : Type 0} (xs ys : List A) (us vs : List B)
    → length xs ≡ length us
    → length ys ≡ length vs
    → length (xs ++ ys) ≡ length (us ++ vs)
append_lengths xs ys us vs h k = omega (arith, h, k, length-append xs ys, length-append us vs)

dataflow_rows-plan :
    (f : Findings) (p q : Option String) → length (dataflow_rows p q) ≡ length (dataflow_plan f p q)
dataflow_rows-plan f (some p) q = refl
dataflow_rows-plan f none (some q) = refl
dataflow_rows-plan f none none = refl

eg_rows-plan :
    (f : Findings) (c : Option EgContext)
    → (c ≡ none → f.eg ≡ nothing_found)
    → length (eg_rows f.eg) ≡ length (eg_plan f c)
eg_rows-plan f none h = rw (h refl) refl
eg_rows-plan f (some c) h =
    append_lengths (row_where f.eg.pub_exists _) _ (change_if f.eg.pub_exists _) _
      (length-if f.eg.pub_exists _ _)
      (append_lengths (row_where f.eg.sub_exists _) _ (change_if f.eg.sub_exists _) _
        (length-if f.eg.sub_exists _ _) (length-if f.eg.ts_exists _ _))

adr_rows-plan :
    (f : Findings) (b : Bool)
    → is_key f.custom_location_id f.existing_endpoints ≡ returned b
    → is_returned (build_adr_put_payload f.adr_namespace f.custom_location_id) ≡ true
    → length (adr_rows b) ≡ length (adr_plan f)
adr_rows-plan f b h k = rw h (go b (build_adr_put_payload f.adr_namespace f.custom_location_id) k)
  where
    go :
        (b : Bool) (o : Outcome Json)
        → is_returned o ≡ true
        → length (adr_rows b)
          ≡ length (
              if b
              then planned o (λ payload.
                replace_namespace f.adr_resource_group f.adr_namespace_name payload ∷ [])
              else [])
    go true (returned payload) k = refl
    go false (returned payload) k = refl
    go b (raised e) k = absurd (ground (arith, k))

-- Where nothing of Event Grid was found without its context, and the payload for the namespace can
-- be built, the count in the title of the summary is the number of changes in the plan of the
-- teardown.
pub disable_sections-total :
    (f : Findings) (b : Bool)
    → (f.eg_ctx ≡ none → f.eg ≡ nothing_found)
    → is_key f.custom_location_id f.existing_endpoints ≡ returned b
    → is_returned (build_adr_put_payload f.adr_namespace f.custom_location_id) ≡ true
    → total (disable_sections f b) ≡ length (teardown_plan f)
unfolding total disable_sections
disable_sections-total f b none_found h k = omega (
  arith,
  length-map label (aio_rows f),
  length-map label (adr_rows b),
  length-map label (eg_rows f.eg),
  append_lengths (dataflow_rows (stated f.dataflow_profile_name) (stated f.resp_profile_name)) _
      (dataflow_plan f (stated f.dataflow_profile_name) (stated f.resp_profile_name)) _
      (dataflow_rows-plan f (stated f.dataflow_profile_name) (stated f.resp_profile_name))
      (length-if f.ep_exists "EG dataflow endpoint" (remove (endpoint_target f))),
  adr_rows-plan f b h k,
  eg_rows-plan f f.eg_ctx none_found,
  length-append (aio_plan f) (adr_plan f ++ eg_plan f f.eg_ctx),
  length-append (adr_plan f) (eg_plan f f.eg_ctx),
)
