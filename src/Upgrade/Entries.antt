-- ===== src/Upgrade/Entries.antt =====
-- The entries of a queue of extension changes: one round of the loop over the types, and the types
-- that a queue has.
use azure_iot_ops_cli_extens.Base.{
  String, ◌≡◌, refl, ap, Bool, true, false, ◌&&◌, not, Option, none, some, List, [], ◌∷◌, ◌++◌,
  if◌then◌else◌, string_eq, contains, get_or, is_some, map, arith, all, ◌||◌,
}
use azure_iot_ops_cli_extens.Upgrade.{
  create, update, delete, extension_type_platform, extension_type_ops, extension_type_cm,
  extension_type_acs, extension_type_ssc,
}
use azure_iot_ops_cli_extens.Upgrade.Extension.{ExtensionUpgradeState}

-- An entry that its operation can be applied to: a creation has no extension, the others have one.
abbrev pub is_ready : ExtensionUpgradeState → Bool
is_ready e = elim e.operation_type [
  | create ↦ not (is_some e.extension)
  | update ↦ is_some e.extension
  | delete ↦ is_some e.extension
]

abbrev pub only : Bool → String → List String
only b t = if b then t ∷ [] else []

-- The type that an entry changes.
abbrev pub entry_type : ExtensionUpgradeState → String
entry_type e = get_or e.extension_type ""

abbrev pub distinct : List String → Bool
distinct [] = true
distinct (x ∷ xs) = not (contains xs x) && distinct xs

-- One round of the loop over the types: what it puts before the rest.
module _ {X : Type 0} (f : X → ExtensionUpgradeState) (e : ExtensionUpgradeState)
    (rest : List ExtensionUpgradeState) where
  abbrev pub round : Bool → Bool → Bool → Option X → List ExtensionUpgradeState
  round b1 b2 b3 o =
      if b1
      then rest
      else if b2
      then rest
      else if b3
      then e ∷ rest
      else elim o [ none ↦ rest | some x ↦ f x ∷ rest ]

  pub round-ready :
      (b1 b2 b3 : Bool) (o : Option X)
      → all is_ready rest ≡ true
      → is_ready e ≡ true
      → ((x : X) → is_ready (f x) ≡ true)
      → all is_ready (round b1 b2 b3 o) ≡ true
  round-ready true b2 b3 o h k l = h
  round-ready false true b3 o h k l = h
  round-ready false false true o h k l = rw (h, k) refl
  round-ready false false false none h k l = h
  round-ready false false false (some x) h k l = rw (h, l x) refl

  pub round-types :
      (b1 b2 b3 : Bool) (o : Option X) (t : String)
      → (b3 ≡ true → entry_type e ≡ t)
      → ((x : X) → o ≡ some x → entry_type (f x) ≡ t)
      → map entry_type (round b1 b2 b3 o)
        ≡ (if b1 then [] else if b2 then [] else only (b3 || is_some o) t) ++ map entry_type rest
  round-types true b2 b3 o t k l = refl
  round-types false true b3 o t k l = refl
  round-types false false true o t k l = ap (λ u. u ∷ map entry_type rest) (k refl)
  round-types false false false none t k l = refl
  round-types false false false (some x) t k l = ap (λ u. u ∷ map entry_type rest) (l x refl)

-- A test that holds for both truth values.
abbrev both : (Bool → Bool) → Bool
both P = P true && P false

both-each : (P : Bool → Bool) → both P ≡ true → (b : Bool) → P b ≡ true
both-each P h true = ground (arith, h)
both-each P h false = ground (arith, h)

pub only-unless : (b d : Bool) (t : String) → (if d then [] else only b t) ≡ only (b && not d) t
only-unless true true t = refl
only-unless true false t = refl
only-unless false true t = refl
only-unless false false t = refl

-- The types of a queue, by what the cluster has and by the decisions.
unfoldable pub queue_types : (plat cm ssc acs deleting creating : Bool) → List String
unfolding string_eq
queue_types plat cm ssc acs deleting creating =
    only (plat && deleting) extension_type_platform
    ++ (only creating extension_type_cm
        ++ (only (cm && not creating) extension_type_cm
            ++ (only (plat && not deleting) extension_type_platform
                ++ (only ssc extension_type_ssc
                    ++ (only acs extension_type_acs ++ (extension_type_ops ∷ []))))))

pub queue_types-distinct :
    (plat cm ssc acs deleting creating : Bool)
    → distinct (queue_types plat cm ssc acs deleting creating) ≡ true
unfolding queue_types string_eq
queue_types-distinct plat cm ssc acs deleting =
    both-each (λ k. distinct (queue_types plat cm ssc acs deleting k))
      (both-each (λ d. both (λ k. distinct (queue_types plat cm ssc acs d k)))
        (both-each (λ a. both (λ d. both (λ k. distinct (queue_types plat cm ssc a d k))))
          (both-each
            (λ s. both (λ a. both (λ d. both (λ k. distinct (queue_types plat cm s a d k)))))
            (both-each
              (λ m.
                both
                  (λ s. both (λ a. both (λ d. both (λ k. distinct (queue_types plat m s a d k))))))
              (both-each
                (λ p. both (λ m.
                  both
                    (λ s. both (λ a. both (λ d. both (λ k. distinct (queue_types p m s a d k)))))))
                refl plat)
              cm)
            ssc)
          acs)
        deleting)

-- The rounds of the loop with the comparisons of the types done.
pub settled_slots :
    (plat cm ssc acs deleting creating : Bool)
    → (if creating then [] else only cm extension_type_cm)
        ++ ((if deleting then [] else only plat extension_type_platform)
            ++ (only ssc extension_type_ssc
                ++ (only acs extension_type_acs ++ (extension_type_ops ∷ []))))
      ≡ only (cm && not creating) extension_type_cm
        ++ (only (plat && not deleting) extension_type_platform
            ++ (only ssc extension_type_ssc
                ++ (only acs extension_type_acs ++ (extension_type_ops ∷ []))))
settled_slots plat cm ssc acs deleting creating =
    rw
      (only-unless cm creating extension_type_cm, only-unless plat deleting extension_type_platform)
      refl
