-- ===== src/Common.antt =====
-- azext_edge/edge/util/common.py: helpers on arguments, lists and texts. A dict of texts is a `Dict`.
pub mod Chunks
pub mod Arguments
use azure_iot_ops_cli_extens.Base.{
  ℕ, ◌*◌, suc, String, ◌<>◌, Bool, true, false, ◌||◌, not, Option, none, some, List, [], ◌∷◌, ◌++◌,
  map, if◌then◌else◌, ltb, length, nonempty, truthy, lower, join, ◌==◌, string_eq, Eq, split,
  is_some, get_or,
}
use azure_iot_ops_cli_extens.Base.Dict.{Dict, lookup, insert}
use azure_iot_ops_cli_extens.Base.Exec.{value_error, Outcome, returned, raised}

-- `s.partition("=")`: the key, and the value where there is a separator.
unfoldable pub partition : List String → String × Option String
partition [] = ("", none)
partition (key ∷ []) = (key, none)
partition (key ∷ piece ∷ pieces) = (key, some (join "=" (piece ∷ pieces)))

abbrev pub partition_equals : String → String × Option String
partition_equals item = partition (split 61 item)

-- `parse_kvp_nargs`: the loop, over what is there so far.
unfoldable pub kvp_loop : List String → Dict String (Option String) → Dict String (Option String)
unfolding partition
kvp_loop [] result = result
kvp_loop (item ∷ items) result =
    kvp_loop items (insert (partition_equals item).0 (partition_equals item).1 result)

unfoldable pub parse_kvp_nargs : Option (List String) → Dict String (Option String)
unfolding kvp_loop
parse_kvp_nargs none = []
parse_kvp_nargs (some items) = kvp_loop items []

-- `assemble_nargs_to_dict`: what has no separator is passed over.
unfoldable pub assemble_loop : List String → Dict String String → Dict String String
unfolding partition
assemble_loop [] result = result
assemble_loop (item ∷ items) result = elim (partition_equals item).1 [
  | none ↦ assemble_loop items result
  | some value ↦ assemble_loop items (insert (partition_equals item).0 value result)
]

unfoldable pub assemble_nargs_to_dict : List String → Dict String String
unfolding assemble_loop
assemble_nargs_to_dict items = assemble_loop items []

-- `d.get(disc_key) == disc`
abbrev pub same : {K : Type 0} ⦃e : Eq K⦄ → Option K → Option K → Bool
same none none = true
same (some a) (some b) = a == b
same none (some _) = false
same (some _) none = false

-- `upsert_by_discriminator`, where `disc` is `d.get(disc_key)` of a config.
unfoldable pub upsert_by_discriminator :
    {A K : Type 0} ⦃e : Eq K⦄ → (A → Option K) → A → List A → List A
upsert_by_discriminator disc config [] = config ∷ []
upsert_by_discriminator disc config (d ∷ ds) =
    let rest = upsert_by_discriminator disc config ds in
    if same (disc d) (disc config) then config ∷ ds else d ∷ rest

-- `chunk_list`: `size` is the number of bytes of a list's JSON, which the standard library writes.
module _ {A : Type 0} (size : List A → ℕ) where
  unfoldable pub chunk_loop : List A → ℕ → ℕ → List A → List (List A) → List (List A)
  chunk_loop [] chunk_len limit current result =
      if nonempty current then result ++ current ∷ [] else result
  chunk_loop (item ∷ items) chunk_len limit current result =
      let full =
        ltb chunk_len (length (current ++ item ∷ []))
        || ltb (limit * 1024) (size (current ++ item ∷ [])) in
      chunk_loop items chunk_len limit (if full then item ∷ [] else current ++ item ∷ [])
        (if full then result ++ current ∷ [] else result)

  unfoldable pub chunk_list : List A → ℕ → ℕ → String → List (List A)
  unfolding chunk_loop lower
  chunk_list items chunk_len data_size size_unit =
      chunk_loop items chunk_len (if lower size_unit == "mb" then data_size * 1024 else data_size)
        [] []

-- `str_to_bool`
unfoldable pub str_to_bool : String → Outcome Bool
unfolding lower
str_to_bool s =
    if not (truthy s)
    then raised (value_error "Boolean string requires a value. Use 'true' or 'false'.")
    else if lower s == "true"
    then returned true
    else if lower s == "false"
    then returned false
    else raised (value_error ("Invalid boolean string: " <> (s <> ". Use 'true' or 'false'.")))

abbrev quoted : String → String
quoted s = "`" <> (s <> "`")

abbrev pub init_list : {A : Type 0} → List A → List A
init_list [] = []
init_list (x ∷ []) = []
init_list (x ∷ y ∷ xs) = x ∷ init_list (y ∷ xs)

abbrev last_text : List String → String
last_text [] = ""
last_text (x ∷ []) = x
last_text (x ∷ y ∷ xs) = last_text (y ∷ xs)

-- `format_value_list`
unfoldable pub format_value_list : List String → String
unfolding join
format_value_list [] = ""
format_value_list (a ∷ []) = quoted a
format_value_list (a ∷ b ∷ []) = quoted a <> (" and " <> quoted b)
format_value_list (a ∷ b ∷ c ∷ cs) =
    join ", " (map quoted (init_list (a ∷ b ∷ c ∷ cs)))
    <> (", and " <> quoted (last_text (a ∷ b ∷ c ∷ cs)))
