-- ===== src/Graph/Paging.antt =====
-- What a query reads of a service whose pages lead from one to the next, and the types of the
-- extensions that are found.
use mathlib.Core.List.{append-nil, append_assoc}
use azure_iot_ops_cli_extens.Base.{
  ℕ, zero, suc, ◌≤◌, ◌≡◌, ◌∙◌, sym, ap, String, Option, none, some, List, [], ◌∷◌, ◌++◌, flatten,
  length, lower, arith, string_eq,
}
use azure_iot_ops_cli_extens.Base.Dict.{Dict, lookup, lookup-insert}
use azure_iot_ops_cli_extens.Base.Exec.{Outcome, returned}
use azure_iot_ops_cli_extens.Upgrade.{InstalledExtension}
use azure_iot_ops_cli_extens.Graph.{
  Options, skip_token, Page, next_step, query_loop, query_resources, first_options, fill_wanted,
  take_extensions, get_extensions_by_type,
}

module _ {A : Type 0} (send : Options → Outcome (Page A)) where
  -- Pages that the service gives one after the other, from one request on.
  pub data Listing : Options → List (List A) → Type 0 where
    last_page :
        {o : Options} {rows : List A}
        → send o ≡ returned (record { data_rows = rows; next_token = none })
        → Listing o (rows ∷ [])
    more_pages :
        {o : Options} {rows : List A} {token : String} {pages : List (List A)}
        → send o ≡ returned (record { data_rows = rows; next_token = some token })
        → Listing (skip_token token) pages
        → Listing o (rows ∷ pages)

  query_loop-Listing :
      (fuel : ℕ) (o : Options) (pages : List (List A)) (rows : List A)
      → Listing o pages
      → length pages ≤ fuel
      → query_loop send fuel rows o ≡ some (returned (rows ++ flatten pages))
  unfolding query_loop
  query_loop-Listing zero o pages rows (last_page h) enough = ground (arith, enough)
  query_loop-Listing zero o pages rows (more_pages h l) enough = ground (arith, enough)
  query_loop-Listing (suc fuel) o pages rows (last_page {rows = r} h) enough =
      ap (λ a. next_step send rows a (query_loop send fuel)) h
      ∙ ap (λ l. some (returned (rows ++ l))) (sym (append-nil r))
  query_loop-Listing (suc fuel) o pages rows (more_pages {rows = r} {token} {pages = rest} h l)
        enough =
      ap (λ a. next_step send rows a (query_loop send fuel)) h
      ∙ query_loop-Listing fuel (skip_token token) rest (rows ++ r) l (ground (arith, enough))
      ∙ ap (λ l. some (returned l)) (append_assoc rows r (flatten rest))

  -- Where the service gives a listing of pages, each with the token of the next and the last
  -- without one, the query ends after one request a page and returns the rows of all pages in
  -- order.
  pub query_resources-Listing :
      (fuel : ℕ) (page_size : Option ℕ) (pages : List (List A))
      → Listing (first_options page_size) pages
      → length pages ≤ fuel
      → query_resources send fuel page_size ≡ some (returned (flatten pages))
  unfolding query_resources
  query_resources-Listing fuel page_size pages l enough =
      query_loop-Listing fuel (first_options page_size) pages [] l enough

-- Every extension of a dict stands under its own type.
abbrev IsFiled : Dict String (Option InstalledExtension) → Type 0
IsFiled found =
    (t : String) (x : InstalledExtension)
    → lookup t found ≡ some (some x)
    → lower x.extension_type ≡ t

fill_wanted-IsFiled :
    (names : List String) (found : Dict String (Option InstalledExtension))
    → IsFiled found
    → IsFiled (fill_wanted names found)
unfolding fill_wanted
fill_wanted-IsFiled [] found k = k
fill_wanted-IsFiled (name ∷ names) found k =
    fill_wanted-IsFiled names _
      (λ t x h. ground (arith, h, k t x, lookup-insert t (lower name) none found))

take_extensions-IsFiled :
    (xs : List InstalledExtension) (found : Dict String (Option InstalledExtension))
    → IsFiled found
    → IsFiled (take_extensions xs found)
unfolding take_extensions
take_extensions-IsFiled [] found k = k
take_extensions-IsFiled (y ∷ ys) found k =
    take_extensions-IsFiled ys _
      (λ t x h. ground (arith, h, k t x, lookup-insert t (lower y.extension_type) (some y) found))

-- An extension that `get_extensions_by_type` finds under a type is of that type, in small letters.
pub get_extensions_by_type-IsFiled :
    (extensions : List InstalledExtension) (names : List String) (t : String)
    (x : InstalledExtension)
    → lookup t (get_extensions_by_type extensions names) ≡ some (some x)
    → lower x.extension_type ≡ t
unfolding get_extensions_by_type lookup
get_extensions_by_type-IsFiled extensions names =
    take_extensions-IsFiled extensions _ (fill_wanted-IsFiled names [] (λ t x h. ground (arith, h)))
