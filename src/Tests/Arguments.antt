-- ===== src/Tests/Arguments.antt =====
-- The helpers on arguments and lists at concrete values.
use azure_iot_ops_cli_extens.Base.{
  refl, string_eq, ℕ, ◌*◌, ◌≡◌, String, true, Option, some, List, [], ◌∷◌, if◌then◌else◌, All,
  length, flatten, lower, ◌==◌, string_eq, nat_eq,
}
use azure_iot_ops_cli_extens.Base.Dict.{lookup}
use azure_iot_ops_cli_extens.Base.Exec.{returned}
use azure_iot_ops_cli_extens.Common.{chunk_list, parse_kvp_nargs, str_to_bool}
use azure_iot_ops_cli_extens.Common.Chunks.{IsWithin, chunk_list-flatten, chunk_list-IsWithin}
use azure_iot_ops_cli_extens.Common.Arguments.{last_value, parse_kvp_nargs-lookup}

-- Lists of numbers, each of which counts a kilobyte.
abbrev weigh : List ℕ → ℕ
weigh xs = 1024 * length xs

chunk_list-flatten_example :
    flatten (chunk_list weigh (1 ∷ 2 ∷ 3 ∷ []) 2 1024 "kb") ≡ 1 ∷ 2 ∷ 3 ∷ []
chunk_list-flatten_example = chunk_list-flatten weigh (1 ∷ 2 ∷ 3 ∷ []) 2 1024 "kb"

chunk_list-IsWithin_example :
    All
      (IsWithin weigh 2 (if lower "kb" == "mb" then 1024 * 1024 else 1024))
      (chunk_list weigh (1 ∷ 2 ∷ 3 ∷ []) 2 1024 "kb")
chunk_list-IsWithin_example = chunk_list-IsWithin weigh (1 ∷ 2 ∷ 3 ∷ []) 2 1024 "kb"

parse_kvp_nargs-lookup_example :
    lookup "a" (parse_kvp_nargs (some ("a=1" ∷ "b" ∷ "a=2" ∷ [])))
    ≡ last_value "a" ("a=1" ∷ "b" ∷ "a=2" ∷ [])
parse_kvp_nargs-lookup_example = parse_kvp_nargs-lookup "a" ("a=1" ∷ "b" ∷ "a=2" ∷ [])

abbrev disc_of : String × ℕ → Option String
disc_of c = some c.0

reads_true : str_to_bool "True" ≡ returned true
unfolding str_to_bool lower string_eq
reads_true = refl
