-- ===== src/Deletion/Sweep.antt =====
-- `_run_arg_sweep`: the rows that it takes over.
use azure_iot_ops_cli_extens.Base.{
  ◌≡◌, refl, String, true, not, List, [], ◌∷◌, ◌++◌, map, keep, contains, lower, truthy, string_eq,
  Bool-cases, inl, inr, get_or, any, ◌==◌, Bool,
}
use azure_iot_ops_cli_extens.Base.Exec.{returned, try_except}
use azure_iot_ops_cli_extens.ResourceMap.{Resource}
use azure_iot_ops_cli_extens.Deletion.Manager.{Manager}
use azure_iot_ops_cli_extens.Deletion.Discovery.{
  Services, SweepRow, swept, lower_ids, run_arg_sweep, text_or_empty, display_name_of,
}

-- The resource that a row stands for: its id, the name in it, and the API version of the row, each
-- empty where the row has none.
abbrev pub row_resource : SweepRow → Resource
row_resource row = record {
  resource_id = get_or row.id "";
  display_name = display_name_of (get_or row.id "");
  api_version = get_or row.api_version "";
}

-- A row of which no resource has the id, letter case aside.
abbrev pub is_new : List Resource → SweepRow → Bool
is_new rs row = not (any (λ (r : Resource). lower (get_or row.id "") == lower r.resource_id) rs)

contains-any :
    (id : String) (rs : List Resource)
    → contains (lower_ids rs) id ≡ any (λ (r : Resource). id == lower r.resource_id) rs
contains-any id [] = refl
contains-any id (r ∷ rs) = rw (contains-any id rs) refl

swept-resources :
    (rs : List Resource) (rows : List SweepRow)
    → swept (lower_ids rs) rows ≡ map row_resource (keep (is_new rs) rows)
unfolding swept
swept-resources rs [] = refl
swept-resources rs (row ∷ rows) =
    let id = lower (get_or row.id "") in
    elim (Bool-cases (any (λ (r : Resource). id == lower r.resource_id) rs)) [
      | inl old ↦ rw (contains-any id rs, old, swept-resources rs rows) refl
      | inr fresh ↦ rw (contains-any id rs, fresh, swept-resources rs rows) refl
    ]

-- Where the custom location is known and its query answers, the sweep keeps the resources that
-- were collected before and puts behind them, in the order of the answer, a resource for each row
-- whose id is not among theirs, letter case aside: with the id, the name in it and the API version
-- of the row.
pub run_arg_sweep-resources :
    (S : Services) (m : Manager) (rows : List SweepRow)
    → truthy (text_or_empty m.cl_id) ≡ true
    → S.query_resources (text_or_empty m.cl_id) ≡ returned rows
    → (run_arg_sweep S m).1.cl_resources
      ≡ m.cl_resources ++ map row_resource (keep (is_new m.cl_resources) rows)
unfolding run_arg_sweep try_except
run_arg_sweep-resources S m rows h k = rw (h, k, swept-resources m.cl_resources rows) refl
