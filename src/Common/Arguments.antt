-- ===== src/Common/Arguments.antt =====
-- What the argument parsers return, and what `upsert_by_discriminator` changes.
use azure_iot_ops_cli_extens.Base.{
  suc, ◌≡◌, refl, ap, ◌∙◌, String, Bool, true, false, Option, none, some, List, [], ◌∷◌, arith,
  if◌then◌else◌, find, Option-cases, inl, inr, ◌↔◌, text-ne, ◌==◌, string_eq, Eq, eq_self, truthy,
  lower, any, length,
}
use azure_iot_ops_cli_extens.Base.Dict.{Dict, lookup, insert, lookup-insert, lookup-nil}
use azure_iot_ops_cli_extens.Base.Exec.{returned}
use azure_iot_ops_cli_extens.Common.{
  partition_equals, kvp_loop, parse_kvp_nargs, assemble_loop, assemble_nargs_to_dict, same,
  upsert_by_discriminator, str_to_bool,
}

-- The value of the last item with a key.
abbrev pub last_value : String → List String → Option (Option String)
last_value k [] = none
last_value k (item ∷ items) = elim (last_value k items) [
  | some v ↦ some v
  | none ↦ if k == (partition_equals item).0 then some (partition_equals item).1 else none
]

kvp_loop-lookup :
    (k : String) (items : List String) (d : Dict String (Option String))
    → lookup k (kvp_loop items d)
      ≡ elim (last_value k items) [ some v ↦ some v | none ↦ lookup k d ]
unfolding kvp_loop
kvp_loop-lookup k [] d = refl
kvp_loop-lookup k (item ∷ items) d = ground (
  arith,
  kvp_loop-lookup k items (insert (partition_equals item).0 (partition_equals item).1 d),
  lookup-insert k (partition_equals item).0 (partition_equals item).1 d,
)

-- A key has the value of the last item that names it, and no other key is there.
pub parse_kvp_nargs-lookup :
    (k : String) (items : List String)
    → lookup k (parse_kvp_nargs (some items)) ≡ last_value k items
unfolding parse_kvp_nargs
parse_kvp_nargs-lookup k items =
    ground (arith, kvp_loop-lookup k items [], lookup-nil {V = Option String} k)

-- The value of the last item with a key and a separator.
abbrev pub last_assigned : String → List String → Option String
last_assigned k [] = none
last_assigned k (item ∷ items) = elim (last_assigned k items) [
  | some v ↦ some v
  | none ↦ if k == (partition_equals item).0 then (partition_equals item).1 else none
]

assemble_loop-lookup :
    (k : String) (items : List String) (d : Dict String String)
    → lookup k (assemble_loop items d)
      ≡ elim (last_assigned k items) [ some v ↦ some v | none ↦ lookup k d ]
unfolding assemble_loop
assemble_loop-lookup k [] d = refl
assemble_loop-lookup k (item ∷ items) d = elim (Option-cases (partition_equals item).1) [
  | inl e ↦ ground (arith, assemble_loop-lookup k items d)
  | inr (value, e) ↦ ground (
    arith,
    assemble_loop-lookup k items (insert (partition_equals item).0 value d),
    lookup-insert k (partition_equals item).0 value d,
  )
]

-- Items without a separator change nothing, and a key has the value of the last of the others.
assemble_nargs_to_dict-lookup :
    (k : String) (items : List String)
    → lookup k (assemble_nargs_to_dict items) ≡ last_assigned k items
unfolding assemble_nargs_to_dict
assemble_nargs_to_dict-lookup k items =
    ground (arith, assemble_loop-lookup k items [], lookup-nil {V = String} k)

module _ {A K : Type 0} ⦃e : Eq K⦄ (disc : A → Option K) (config : A) where
  same_self : (o : Option K) → same o o ≡ true
  same_self none = refl
  same_self (some a) = eq_self a

  same-same : (a b c : Option K) → same a b ≡ true → same a c ≡ same b c
  same-same a b c h = ground arith

  -- Behind `upsert_by_discriminator` the config is the first with its discriminator, and the first
  -- with any other is as before.
  upsert_by_discriminator-find :
      (key : Option K) (ds : List A)
      → find (λ d. same (disc d) key) (upsert_by_discriminator disc config ds)
        ≡ (if same (disc config) key then some config else find (λ d. same (disc d) key) ds)
  unfolding upsert_by_discriminator
  upsert_by_discriminator-find key [] = refl
  upsert_by_discriminator-find key (d ∷ ds) =
      ground (arith, upsert_by_discriminator-find key ds, same-same (disc d) (disc config) key)

  -- A config is added only where none has its discriminator.
  pub upsert_by_discriminator-len :
      (ds : List A)
      → length (upsert_by_discriminator disc config ds)
        ≡ (if any (λ d. same (disc d) (disc config)) ds then length ds else suc (length ds))
  unfolding upsert_by_discriminator
  upsert_by_discriminator-len [] = refl
  upsert_by_discriminator-len (d ∷ ds) = ground (arith, upsert_by_discriminator-len ds)

lower-truthy : (s : String) → truthy s ≡ truthy (lower s)
unfolding lower
lower-truthy String.[] = refl
lower-truthy (String.◌∷◌ c s) = refl

-- `str_to_bool` reads a text as a Boolean exactly if it is true or false in any case.
str_to_bool_iff :
    (s : String) (b : Bool)
    → (str_to_bool s ≡ returned b) ↔ (lower s ≡ (if b then "true" else "false"))
unfolding str_to_bool
str_to_bool_iff s true =
    let full : (lower s ≡ "true") → truthy s ≡ true = λ p. lower-truthy s ∙ ap truthy p in
    ground (arith, full, text-ne "true" "false" refl)
str_to_bool_iff s false =
    let full : (lower s ≡ "false") → truthy s ≡ true = λ p. lower-truthy s ∙ ap truthy p in
    ground (arith, full, text-ne "true" "false" refl)
