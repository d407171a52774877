-- ===== src/Base/JsonEqual.antt =====
-- Python's `==` on documents, and `in` on lists of them. Floats are compared by their texts, which
-- leaves out -0.0, NaN and whole floats from 10^16 on.
use Prim.Native.Nat.{ℕ, suc}
use Prim.Native.String.{String, ◌++◌}
use mathlib.Core.Path.{◌≡◌, refl}
use mathlib.Core.Bool.{Bool, true, false, ◌&&◌}
use mathlib.Core.Option.{none, some}
use mathlib.Core.List.{List, [], ◌∷◌, map}
use azure_iot_ops_cli_extens.Base.Tests.{if◌then◌else◌}
use azure_iot_ops_cli_extens.Base.Equality.{contains, ◌==◌, nat_eq, string_eq}
use azure_iot_ops_cli_extens.Base.Lists.{length, any}
use azure_iot_ops_cli_extens.Base.Strings.{str_nat}
use azure_iot_ops_cli_extens.Base.Dict.{lookup}
use azure_iot_ops_cli_extens.Base.Json.{
  Json, null, bool, pos, negsuc, float, str, arr, obj, Items, nil, cons, Fields, end, field,
  entries, is_null,
}

-- The text of a whole number as a float, below 10^16, from where Python writes an exponent.
abbrev whole : ℕ → String
whole n = str_nat n ++ ".0"

-- A bool is the number 0 or 1.
abbrev number : Bool → ℕ
number b = if b then 1 else 0

abbrev is_pos : ℕ → Json → Bool
is_pos n (bool b) = n == number b
is_pos n (pos m) = n == m
is_pos n (float t) = t == whole n
is_pos n _ = false

abbrev is_negsuc : ℕ → Json → Bool
is_negsuc n (negsuc m) = n == m
is_negsuc n (float t) = t == "-" ++ whole (suc n)
is_negsuc n _ = false

abbrev is_float : String → Json → Bool
is_float t (bool b) = t == whole (number b)
is_float t (pos n) = t == whole n
is_float t (negsuc n) = t == "-" ++ whole (suc n)
is_float t (float s) = t == s
is_float t _ = false

abbrev is_str : String → Json → Bool
is_str s (str t) = s == t
is_str s _ = false

-- Dicts are equal if they have the same number of keys and the same value for each, in any order.
unfoldable mutual
  pub json_eq : Json → Json → Bool
  json_eq null w = is_null w
  json_eq (bool b) w = is_pos (number b) w
  json_eq (pos n) w = is_pos n w
  json_eq (negsuc n) w = is_negsuc n w
  json_eq (float t) w = is_float t w
  json_eq (str s) w = is_str s w
  json_eq (arr vs) w = elim w [ arr ws ↦ items_eq vs ws | _ ↦ false ]
  json_eq (obj fs) w = elim w [
    | obj gs ↦ (length (entries fs) == length (entries gs)) && fields_in fs gs
    | _ ↦ false
  ]

  pub items_eq : Items → Items → Bool
  items_eq nil nil = true
  items_eq nil (cons _ _) = false
  items_eq (cons v vs) nil = false
  items_eq (cons v vs) (cons w ws) = json_eq v w && items_eq vs ws

  pub fields_in : Fields → Fields → Bool
  fields_in end gs = true
  fields_in (field k v fs) gs =
      elim (lookup k (entries gs)) [ none ↦ false | some w ↦ json_eq v w ] && fields_in fs gs

-- `v in vs`
unfoldable pub is_in : Json → List Json → Bool
unfolding json_eq
is_in v vs = any (λ w. json_eq v w) vs

pub str-is_in : (s : String) (ts : List String) → is_in (str s) (map str ts) ≡ contains ts s
unfolding is_in json_eq
str-is_in s [] = refl
str-is_in s (t ∷ ts) = rw (str-is_in s ts) refl

pub other-is_in :
    (v : Json)
    → ((s : String) → json_eq v (str s) ≡ false)
    → (ts : List String) → is_in v (map str ts) ≡ false
unfolding is_in
other-is_in v differs [] = refl
other-is_in v differs (t ∷ ts) = rw (differs t) (other-is_in v differs ts)
