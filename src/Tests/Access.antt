-- ===== src/Tests/Access.antt =====
-- Queries of two pages, extensions and permissions at concrete values.
use azure_iot_ops_cli_extens.Base.{
  ℕ, ◌≡◌, refl, ◌&&◌, not, none, some, List, [], ◌∷◌, any, flatten, arith, string_eq, lower,
}
use azure_iot_ops_cli_extens.Base.Dict.{lookup}
use azure_iot_ops_cli_extens.Base.Exec.{Outcome, returned}
use azure_iot_ops_cli_extens.Upgrade.{InstalledExtension, extension_type_ops}
use azure_iot_ops_cli_extens.Graph.{
  Options, skip_token, Page, first_options, query_resources, get_extensions_by_type,
}
use azure_iot_ops_cli_extens.Graph.Paging.{
  Listing, last_page, more_pages, query_resources-Listing, get_extensions_by_type-IsFiled,
}
use azure_iot_ops_cli_extens.Permissions.{Permission, can_apply_role_assignment}
use azure_iot_ops_cli_extens.Permissions.Verdict.{grants, denies, can_apply_role_assignment-grants}

abbrev two_pages : Options → Outcome (Page ℕ)
two_pages (skip_token _) = returned (record { data_rows = 3 ∷ []; next_token = none })
two_pages _ = returned (record { data_rows = 1 ∷ 2 ∷ []; next_token = some "t" })

abbrev pages_of_two : List (List ℕ)
pages_of_two = (1 ∷ 2 ∷ []) ∷ (3 ∷ []) ∷ []

two_listed : Listing two_pages (first_options none) pages_of_two
two_listed = more_pages refl (last_page refl)

query_resources-Listing_example :
    query_resources two_pages 5 none ≡ some (returned (flatten pages_of_two))
query_resources-Listing_example =
    query_resources-Listing two_pages 5 none pages_of_two two_listed (ground arith)

abbrev ops_extension : InstalledExtension
ops_extension = record {
  name = "aio";
  extension_type = "Microsoft.IoTOperations";
  version = none;
  release_train = none;
  provisioning_state = none;
  configuration = [];
}

ops_filed :
    lookup extension_type_ops
      (get_extensions_by_type (ops_extension ∷ []) (extension_type_ops ∷ []))
    ≡ some (some ops_extension)
unfolding get_extensions_by_type lookup string_eq lower
ops_filed = refl

get_extensions_by_type-IsFiled_example : lower ops_extension.extension_type ≡ extension_type_ops
get_extensions_by_type-IsFiled_example =
    get_extensions_by_type-IsFiled (ops_extension ∷ []) (extension_type_ops ∷ []) extension_type_ops
      ops_extension ops_filed

abbrev writer : List Permission
writer =
    record { actions = "*" ∷ []; not_actions = [] }
    ∷ record { actions = []; not_actions = "*/write" ∷ [] }
    ∷ []

can_apply_role_assignment-grants_example :
    can_apply_role_assignment writer ≡ any grants writer && not (any denies writer)
can_apply_role_assignment-grants_example = can_apply_role_assignment-grants writer
