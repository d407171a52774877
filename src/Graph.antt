-- ===== src/Graph.antt =====
-- azext_edge/edge/util/resource_graph.py: `query_resources`, which reads page after page, and what
-- azext_edge/edge/providers/orchestration/connected_cluster.py makes of the answers. The request is
-- a call of a packaged client, a parameter.
pub mod Paging
use azure_iot_ops_cli_extens.Base.{
  ℕ, zero, suc, String, Bool, true, false, Option, none, some, List, [], ◌∷◌, ◌++◌, if◌then◌else◌,
  nonempty, get_or, lower, truthy, ◌==◌, string_eq, map,
}
use azure_iot_ops_cli_extens.Base.Dict.{Dict, lookup, insert, has}
use azure_iot_ops_cli_extens.Base.Exec.{key_error, Outcome, returned, raised}
use azure_iot_ops_cli_extens.Upgrade.{InstalledExtension}

-- The options of a request: none, the size of a page, or the token of the next one.
pub data Options : Type 0 where
  plain : Options
  top : ℕ → Options
  skip_token : String → Options

-- The `data` of an answer, [] if it is missing, and its `$skipToken`.
pub record Page (A : Type 0) : Type 0 where
  pub data_rows : List A
  pub next_token : Option String

-- The options of the first request: a page size of 0 is none.
abbrev pub first_options : Option ℕ → Options
first_options none = plain
first_options (some zero) = plain
first_options (some (suc n)) = top (suc n)

module _ {A : Type 0} (send : Options → Outcome (Page A)) where
  -- What an answer leads to: the rows, or the next request with the rows so far.
  abbrev pub next_step :
      List A
      → Outcome (Page A)
      → (List A → Options → Option (Outcome (List A)))
      → Option (Outcome (List A))
  next_step rows (raised e) continue = some (raised e)
  next_step rows (returned page) continue = elim page.next_token [
    | none ↦ some (returned (rows ++ page.data_rows))
    | some token ↦ continue (rows ++ page.data_rows) (skip_token token)
  ]

  -- The loop on fuel; `none` is a loop that is still running.
  unfoldable pub query_loop : ℕ → List A → Options → Option (Outcome (List A))
  query_loop zero rows options = none
  query_loop (suc fuel) rows options = next_step rows (send options) (query_loop fuel)

  unfoldable pub query_resources : ℕ → Option ℕ → Option (Outcome (List A))
  unfolding query_loop
  query_resources fuel page_size = query_loop fuel [] (first_options page_size)

-- `_process_query_result`, and its first row.
abbrev pub process_query_result {ℓ} : {A : Type ℓ} → List A → Option (List A)
process_query_result [] = none
process_query_result (r ∷ rs) = some (r ∷ rs)

abbrev pub first_query_result {ℓ} : {A : Type ℓ} → List A → Option A
first_query_result [] = none
first_query_result (r ∷ rs) = some r

-- `get_extensions_by_type`: the wanted types, and the last extension of each.
unfoldable pub fill_wanted :
    List String → Dict String (Option InstalledExtension) → Dict String (Option InstalledExtension)
unfolding lower insert
fill_wanted [] found = found
fill_wanted (name ∷ names) found = fill_wanted names (insert (lower name) none found)

unfoldable pub take_extensions :
    List InstalledExtension
    → Dict String (Option InstalledExtension)
    → Dict String (Option InstalledExtension)
unfolding lower insert lookup
take_extensions [] found = found
take_extensions (x ∷ xs) found = take_extensions xs (
    if has (lower x.extension_type) found
    then insert (lower x.extension_type) (some x) found
    else found)

unfoldable pub get_extensions_by_type :
    List InstalledExtension → List String → Dict String (Option InstalledExtension)
unfolding fill_wanted take_extensions
get_extensions_by_type extensions names = take_extensions extensions (fill_wanted names [])

-- `properties.connectivityStatus`
unfoldable pub connected : Option String → Bool
unfolding lower
connected status = lower (get_or status "Unknown") == "connected"

module _ {A : Type 0} (type_of : A → String) where
  -- The loop of `get_cl_resources_by_type`: a resource without a type has no list to go to.
  unfoldable pub group_by_type : List A → Dict String (List A) → Outcome (Dict String (List A))
  unfolding lower insert lookup
  group_by_type [] groups = returned groups
  group_by_type (r ∷ rs) groups = elim (lookup (lower (type_of r)) groups) [
    | some members ↦ group_by_type rs (insert (lower (type_of r)) (members ++ r ∷ []) groups)
    | none ↦
        if truthy (lower (type_of r))
        then group_by_type rs (insert (lower (type_of r)) (r ∷ []) groups)
        else raised (key_error "")
  ]
