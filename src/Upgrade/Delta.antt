-- ===== src/Upgrade/Delta.antt =====
-- The configuration after a patch, against the one that each mode of the synchronisation asks for.
use azure_iot_ops_cli_extens.Base.{
  String, ◌≡◌, refl, ◌∙◌, ◌⊎◌, inl, inr, true, false, Option, none, some, [], ◌∷◌, if◌then◌else◌,
  ◌==◌, string_eq, get_or, arith, text-ne,
}
use azure_iot_ops_cli_extens.Base.Dict.{Dict, lookup, insert, has, lookup-insert}
use azure_iot_ops_cli_extens.Upgrade.Config.{
  Settings, mode_add, mode_full, mode_none, changed_key, changed_keys, added_keys,
  calculate_config_delta,
}

-- What a key has after a patch: a value of the patch replaces it, and None takes it away.
abbrev pub patched : Dict String String → Settings → String → Option String
patched current delta k = elim (lookup k delta) [ none ↦ lookup k current | some v ↦ v ]

-- What a mode asks for.
abbrev pub wanted : String → Dict String String → Dict String String → String → Option String
wanted mode current target k =
    if mode == mode_full
    then lookup k target
    else if mode == mode_add
    then elim (lookup k current) [ none ↦ lookup k target | some v ↦ some v ]
    else lookup k current

changed_key-keep :
    (j v : String) (target : Dict String String) (delta : Settings) (k : String)
    → lookup k delta ≡ some (lookup k target)
    → lookup k (changed_key j v target delta) ≡ some (lookup k target)
changed_key-keep j v target delta k h = ground (
  arith,
  h,
  lookup-insert k j none delta,
  lookup-insert k j (some (get_or (lookup j target) "")) delta,
)

changed_keys-keep :
    (current target : Dict String String) (delta : Settings) (k : String)
    → lookup k delta ≡ some (lookup k target)
    → lookup k (changed_keys current target delta) ≡ some (lookup k target)
unfolding changed_keys
changed_keys-keep [] target delta k h = h
changed_keys-keep ((j, v) ∷ current) target delta k h =
    changed_keys-keep current target _ k (changed_key-keep j v target delta k h)

-- A key whose change is to come: it is changed, or it is another key or has the right value.
changed_key-cases :
    (j v : String) (target : Dict String String) (delta : Settings) (k : String)
    → lookup k delta ≡ none
    → (lookup k (changed_key j v target delta) ≡ some (lookup k target))
      ⊎ ((lookup k (changed_key j v target delta) ≡ none)
          × (((k == j) ≡ false) ⊎ (lookup k target ≡ some v)))
changed_key-cases j v target delta k h = ground (
  arith,
  h,
  lookup-insert k j none delta,
  lookup-insert k j (some (get_or (lookup j target) "")) delta,
)

-- A key that has no change yet.
changed_keys-cases :
    (current target : Dict String String) (delta : Settings) (k : String)
    → lookup k delta ≡ none
    → (lookup k (changed_keys current target delta) ≡ some (lookup k target))
      ⊎ ((lookup k (changed_keys current target delta) ≡ none)
          × ((lookup k current ≡ none) ⊎ (lookup k current ≡ lookup k target)))
unfolding changed_keys lookup
changed_keys-cases [] target delta k h = inr (h, inl refl)
changed_keys-cases ((j, v) ∷ current) target delta k h =
    elim (changed_key-cases j v target delta k h) [
      | inl changed ↦ inl (changed_keys-keep current target _ k changed)
      | inr (same, why) ↦ elim (changed_keys-cases current target _ k same) [
        | inl changed ↦ inl changed
        | inr (still, rest) ↦ inr (still, ground (arith, why, rest))
      ]
    ]

added_keys-keep :
    (keys target current : Dict String String) (delta : Settings) (k : String)
    → lookup k delta ≡ some (lookup k target)
    → lookup k (added_keys keys target current delta) ≡ some (lookup k target)
unfolding added_keys
added_keys-keep [] target current delta k h = h
added_keys-keep ((j, v) ∷ keys) target current delta k h =
    added_keys-keep keys target current _ k
      (ground (arith, h, lookup-insert k j (lookup j target) delta))

added_keys-there :
    (keys target current : Dict String String) (delta : Settings) (k : String)
    → has k current ≡ true
    → lookup k (added_keys keys target current delta) ≡ lookup k delta
unfolding added_keys
added_keys-there [] target current delta k h = refl
added_keys-there ((j, v) ∷ keys) target current delta k h =
    added_keys-there keys target current _ k h
    ∙ ground (arith, h, lookup-insert k j (lookup j target) delta)

added_keys-new :
    (keys target current : Dict String String) (delta : Settings) (k : String)
    → has k current ≡ false
    → lookup k (added_keys keys target current delta)
      ≡ (if has k keys then some (lookup k target) else lookup k delta)
unfolding added_keys lookup
added_keys-new [] target current delta k h = refl
added_keys-new ((j, v) ∷ keys) target current delta k h = ground (
  arith,
  h,
  lookup-insert k j (lookup j target) delta,
  added_keys-new keys target current
      (if has j current then delta else insert j (lookup j target) delta) k h,
)

module _ (current target : Dict String String) (k : String) where
  full-wanted :
      patched current (added_keys target target current (changed_keys current target [])) k
      ≡ lookup k target
  unfolding lookup
  full-wanted = elim (changed_keys-cases current target [] k refl) [
    | inl changed ↦ ground (arith, changed, added_keys-keep target target current _ k changed)
    | inr (same, rest) ↦ ground (
      arith,
      same,
      rest,
      added_keys-there target target current (changed_keys current target []) k,
      added_keys-new target target current (changed_keys current target []) k,
    )
  ]

  add-wanted :
      patched current (added_keys target target current []) k
      ≡ elim (lookup k current) [ none ↦ lookup k target | some v ↦ some v ]
  unfolding lookup
  add-wanted = ground (
    arith,
    added_keys-there target target current [] k,
    added_keys-new target target current [] k,
  )

-- After a patch with the delta each key has what the mode asks for: all of the target and nothing
-- else, the target only where the key is new, or what it had; no mode is the full one.
pub calculate_config_delta-Refines :
    (current target : Dict String String) (mode : Option String) (k : String)
    → patched current (calculate_config_delta current target mode) k
      ≡ wanted (get_or mode mode_full) current target k
unfolding calculate_config_delta lookup
calculate_config_delta-Refines current target mode k = ground (
  arith,
  full-wanted current target k,
  add-wanted current target k,
  text-ne mode_none mode_full refl,
  text-ne mode_none mode_add refl,
)
