-- ===== src/Base/Json.antt =====
-- JSON documents as Python values, and the methods of dicts that the program calls on them.
use Prim.Native.Nat.{ℕ, zero, suc}
use Prim.Native.String.{String}
use mathlib.Core.Path.{◌≡◌, refl}
use mathlib.Core.Bool.{Bool, true, false, not}
use mathlib.Core.Option.{none, some}
use mathlib.Core.List.{List, [], ◌∷◌}
use native.Mathlib.Omega.{arith}
use azure_iot_ops_cli_extens.Base.Tests.{is_some, get_or}
use azure_iot_ops_cli_extens.Base.Equality.{◌==◌, string_eq}
use azure_iot_ops_cli_extens.Base.Lists.{length}
use azure_iot_ops_cli_extens.Base.Strings.{truthy, str_len}
use azure_iot_ops_cli_extens.Base.Dict.{Dict, lookup}
use azure_iot_ops_cli_extens.Base.Exec.{
  Exc, attribute_error, key_error, type_error, Outcome, returned, raised,
}

-- `pos n` is n, `negsuc n` is -(n + 1); a float is its text.
mutual
  pub data Json : Type 0 where
    null : Json
    bool : Bool → Json
    pos negsuc : ℕ → Json
    float str : String → Json
    arr : Items → Json
    obj : Fields → Json

  pub data Items : Type 0 where
    nil : Items
    cons : Json → Items → Items

  pub data Fields : Type 0 where
    end : Fields
    field : String → Json → Fields → Fields

abbrev pub elements : Items → List Json
elements nil = []
elements (cons v vs) = v ∷ elements vs

abbrev pub entries : Fields → Dict String Json
entries end = []
entries (field k v fs) = (k, v) ∷ entries fs

abbrev pub keys : Fields → Items
keys end = nil
keys (field k v fs) = cons (str k) (keys fs)

abbrev pub of_entries : Dict String Json → Fields
of_entries [] = end
of_entries ((k, v) ∷ d) = field k v (of_entries d)

abbrev pub of_elements : List Json → Items
of_elements [] = nil
of_elements (v ∷ vs) = cons v (of_elements vs)

-- `list(d.keys())`
abbrev pub keys_of : Json → Json
keys_of (obj fs) = arr (keys fs)
keys_of v = arr nil

-- A dict literal.
abbrev pub dict : Dict String Json → Json
dict d = obj (of_entries d)

-- `bool(v)`
unfoldable pub json_truthy : Json → Bool
json_truthy null = false
json_truthy (bool b) = b
json_truthy (pos zero) = false
json_truthy (pos (suc n)) = true
json_truthy (negsuc n) = true
json_truthy (float t) = not (t == "0.0")
json_truthy (str s) = truthy s
json_truthy (arr nil) = false
json_truthy (arr (cons _ _)) = true
json_truthy (obj end) = false
json_truthy (obj (field _ _ _)) = true

abbrev pub no_get : Exc
no_get = attribute_error "object has no attribute 'get'"

-- `d.get(k, default)`, on what may be no dict.
unfoldable pub get : String → Json → Json → Outcome Json
get k default (obj fs) = returned (get_or (lookup k (entries fs)) default)
get k default _ = raised no_get

-- `d[k]`
unfoldable pub index : String → Json → Outcome Json
index k (obj fs) = elim (lookup k (entries fs)) [
  | none ↦ raised (key_error k)
  | some v ↦ returned v
]
index k _ = raised (type_error "indices must be integers")

-- `k in d`
unfoldable pub is_key : String → Json → Outcome Bool
is_key k (obj fs) = returned (is_some (lookup k (entries fs)))
is_key k _ = raised (type_error "argument is not a dict")

-- `d.items()`
abbrev pub items_of : Json → Outcome (Dict String Json)
items_of (obj fs) = returned (entries fs)
items_of _ = raised (attribute_error "object has no attribute 'items'")

-- `for x in v`, on the lists that the documents hold there.
abbrev pub list_of : Json → Outcome (List Json)
list_of (arr vs) = returned (elements vs)
list_of _ = raised (type_error "object is not iterable")

-- `len(v)`
unfoldable pub json_len : Json → Outcome ℕ
json_len (str s) = returned (str_len s)
json_len (arr vs) = returned (length (elements vs))
json_len (obj fs) = returned (length (entries fs))
json_len _ = raised (type_error "object has no len()")

-- `v is None`
abbrev pub is_null : Json → Bool
is_null null = true
is_null _ = false

-- Where the code goes on with a text.
abbrev pub text_of : Json → Outcome String
text_of (str s) = returned s
text_of _ = raised (type_error "expected a text")

pub text_of-str : (v : Json) (t : String) → text_of v ≡ returned t → v ≡ str t
text_of-str null t h = ground (arith, h)
text_of-str (bool b) t h = ground (arith, h)
text_of-str (pos n) t h = ground (arith, h)
text_of-str (negsuc n) t h = ground (arith, h)
text_of-str (float s) t h = ground (arith, h)
text_of-str (str s) t h = ground (arith, h)
text_of-str (arr vs) t h = ground (arith, h)
text_of-str (obj fs) t h = ground (arith, h)

pub entries-of_entries : (d : Dict String Json) → entries (of_entries d) ≡ d
entries-of_entries [] = refl
entries-of_entries ((k, v) ∷ d) = ground (arith, entries-of_entries d)

pub elements-of_elements : (vs : List Json) → elements (of_elements vs) ≡ vs
elements-of_elements [] = refl
elements-of_elements (v ∷ vs) = ground (arith, elements-of_elements vs)

pub get-dict :
    (k : String) (v : Json) (d : Dict String Json)
    → get k v (dict d) ≡ returned (get_or (lookup k d) v)
unfolding get
get-dict k v d = rw (entries-of_entries d) refl
