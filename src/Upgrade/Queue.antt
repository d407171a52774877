-- ===== src/Upgrade/Queue.antt =====
-- The queue of extension changes: what its entries are, and that no type has two.
use azure_iot_ops_cli_extens.Base.{
  String, ◌≡◌, refl, sym, ap, ◌∙◌, Bool, true, false, ◌&&◌, not, Option, none, some, List, [], ◌∷◌,
  ◌++◌, if◌then◌else◌, ◌==◌, string_eq, is_some, lower, map, arith, all, ◌||◌, eq→≡,
}
use azure_iot_ops_cli_extens.Base.Dict.{Dict, lookup, has}
use azure_iot_ops_cli_extens.Base.Exec.{Exc, Outcome, returned, raised}
use azure_iot_ops_cli_extens.Base.Outcomes.{bind-returned, returned-injective}
use azure_iot_ops_cli_extens.Upgrade.{
  Semver, Urls, extension_type_platform, extension_type_ops, extension_type_cm, extension_type_acs,
  extension_type_ssc, extension_type_to_moniker_map, InstalledExtension, moniker_ops,
}
use azure_iot_ops_cli_extens.Upgrade.Extension.{ExtensionUpgradeState, new_extension_state}
use azure_iot_ops_cli_extens.Upgrade.Validate.{validate_upgrade}
use azure_iot_ops_cli_extens.Upgrade.Cluster.{
  ClusterInput, installed_state, created_certmanager, regular_updates, upgrade_queue, deletion_of,
  should_delete_platform, should_create_certmanager, refresh_with, refresh_upgrade_state,
}
use azure_iot_ops_cli_extens.Upgrade.Entries.{
  is_ready, only, entry_type, distinct, round-ready, round-types, queue_types, queue_types-distinct,
  settled_slots,
}

module _ (c : ClusterInput) where
  -- The types by which the extensions are found are theirs.
  abbrev pub IsKeyed : Type 0
  IsKeyed =
      (t : String) (x : InstalledExtension)
      → lookup t c.extensions_map ≡ some x
      → lower x.extension_type ≡ t

  module _ (ops : InstalledExtension) (deleting creating : Bool) where
    abbrev updates_of : Dict String String → List ExtensionUpgradeState
    updates_of = regular_updates c (installed_state c moniker_ops ops) deleting creating

    -- The type that one round of the loop adds.
    unfoldable slot : String → List String
    unfolding lookup
    slot t =
        if t == extension_type_platform && deleting
        then []
        else if t == extension_type_cm && creating
        then []
        else only (t == extension_type_ops || has t c.extensions_map) t

    unfoldable slots : Dict String String → List String
    unfolding slot
    slots [] = []
    slots ((t, _) ∷ types) = slot t ++ slots types

    updates_ready : (types : Dict String String) → all is_ready (updates_of types) ≡ true
    unfolding regular_updates new_extension_state
    updates_ready [] = refl
    updates_ready ((t, m) ∷ types) =
        round-ready (installed_state c m) (installed_state c moniker_ops ops) (updates_of types)
          (t == extension_type_platform && deleting) (t == extension_type_cm && creating)
          (t == extension_type_ops) (lookup t c.extensions_map) (updates_ready types) refl
          (λ x. refl)

    deletion_ready :
        (o : Option InstalledExtension) (d : Bool) (rest : List ExtensionUpgradeState)
        → all is_ready rest ≡ true
        → all is_ready (deletion_of o d ++ rest) ≡ true
    unfolding deletion_of new_extension_state
    deletion_ready none d rest h = h
    deletion_ready (some x) true rest h = rw h refl
    deletion_ready (some x) false rest h = h

    creation_ready :
        (k : Bool) (rest : List ExtensionUpgradeState)
        → all is_ready rest ≡ true
        → all is_ready ((if k then created_certmanager c ∷ [] else []) ++ rest) ≡ true
    unfolding new_extension_state
    creation_ready true rest h = h
    creation_ready false rest h = h

    queue_ready :
        all is_ready (upgrade_queue c (installed_state c moniker_ops ops) deleting creating) ≡ true
    unfolding upgrade_queue
    queue_ready =
        deletion_ready (lookup extension_type_platform c.extensions_map) deleting _
          (creation_ready creating _ (updates_ready extension_type_to_moniker_map))

    module _ (keyed : IsKeyed) (found : lookup extension_type_ops c.extensions_map ≡ some ops) where
      updates_types : (types : Dict String String) → map entry_type (updates_of types) ≡ slots types
      unfolding regular_updates new_extension_state slots slot
      updates_types [] = refl
      updates_types ((t, m) ∷ types) =
          round-types (installed_state c m) (installed_state c moniker_ops ops) (updates_of types) _
            _ (t == extension_type_ops) (lookup t c.extensions_map) t
            (λ h. keyed extension_type_ops ops found ∙ sym (eq→≡ t extension_type_ops h))
            (λ x h. keyed t x h)
          ∙ ap (λ r. slot t ++ r) (updates_types types)

      deletion_types :
          (o : Option InstalledExtension) (d : Bool) (rest : List ExtensionUpgradeState)
          → ((x : InstalledExtension)
              → o ≡ some x
              → lower x.extension_type ≡ extension_type_platform)
          → map entry_type (deletion_of o d ++ rest)
            ≡ only (is_some o && d) extension_type_platform ++ map entry_type rest
      unfolding deletion_of new_extension_state
      deletion_types none d rest h = refl
      deletion_types (some x) true rest h = ap (λ t. t ∷ map entry_type rest) (h x refl)
      deletion_types (some x) false rest h = refl

      creation_types :
          (k : Bool) (rest : List ExtensionUpgradeState)
          → map entry_type ((if k then created_certmanager c ∷ [] else []) ++ rest)
            ≡ only k extension_type_cm ++ map entry_type rest
      unfolding new_extension_state
      creation_types true rest = refl
      creation_types false rest = refl

      slots_known :
          slots extension_type_to_moniker_map
          ≡ only (has extension_type_cm c.extensions_map && not creating) extension_type_cm
            ++ (only
                  (has extension_type_platform c.extensions_map && not deleting)
                  extension_type_platform
                ++ (only (has extension_type_ssc c.extensions_map) extension_type_ssc
                    ++ (only (has extension_type_acs c.extensions_map) extension_type_acs
                        ++ (extension_type_ops ∷ []))))
      unfolding slots slot string_eq
      slots_known =
          settled_slots (has extension_type_platform c.extensions_map)
            (has extension_type_cm c.extensions_map) (has extension_type_ssc c.extensions_map)
            (has extension_type_acs c.extensions_map) deleting creating

      queue_known :
          map entry_type (upgrade_queue c (installed_state c moniker_ops ops) deleting creating)
          ≡ queue_types
              (has extension_type_platform c.extensions_map)
              (has extension_type_cm c.extensions_map)
              (has extension_type_ssc c.extensions_map)
              (has extension_type_acs c.extensions_map)
              deleting
              creating
      unfolding upgrade_queue queue_types
      queue_known =
          deletion_types (lookup extension_type_platform c.extensions_map) deleting _
            (keyed extension_type_platform)
          ∙ ap
              (λ r.
                only (has extension_type_platform c.extensions_map && deleting)
                  extension_type_platform
                ++ r)
              (creation_types creating _
                ∙ ap (λ r. only creating extension_type_cm ++ r)
                    (updates_types extension_type_to_moniker_map ∙ slots_known))

of_found :
    {X : Type 0} {B : Type 0} (o : Option X) (e : Exc) (f : X → Outcome B) (b : B)
    → elim o [ none ↦ raised e | some x ↦ f x ] ≡ returned b
    → (x : X) × (o ≡ some x) × (f x ≡ returned b)
of_found none e f b h = ground (arith, h)
of_found (some x) e f b h = (x, refl, h)

-- What a queue was built from.
module _ (SV : Semver) (U : Urls) (c : ClusterInput) where
  abbrev Built : List ExtensionUpgradeState → Type 0
  Built q =
      (ops : InstalledExtension) × (deleting : Bool) × (creating : Bool) × (lookup
          extension_type_ops c.extensions_map
        ≡ some ops)
      × (should_delete_platform SV c ≡ returned deleting)
      × (should_create_certmanager SV c deleting ≡ returned creating)
      × (q ≡ upgrade_queue c (installed_state c moniker_ops ops) deleting creating)

  refresh-Built :
      (q : List ExtensionUpgradeState) → refresh_upgrade_state SV U c ≡ returned q → Built q
  unfolding refresh_upgrade_state refresh_with
  refresh-Built q h =
      let (ops, found, h1) = of_found (lookup extension_type_ops c.extensions_map) _ _ q h in
      let (u, valid, h2) =
        bind-returned (validate_upgrade SV U (installed_state c moniker_ops ops)) _ q h1 in
      let (d, deleting, h3) = bind-returned (should_delete_platform SV c) _ q h2 in
      let (k, creating, h4) = bind-returned (should_create_certmanager SV c d) _ q h3 in
      (ops, d, k, found, deleting, creating, sym (returned-injective _ q h4))

  -- Every entry of the queue can be applied: a creation has no extension, and an update or a
  -- deletion has one.
  pub refresh_upgrade_state-Ready :
      (q : List ExtensionUpgradeState)
      → refresh_upgrade_state SV U c ≡ returned q
      → all is_ready q ≡ true
  refresh_upgrade_state-Ready q h =
      let (ops, d, k, found, _, _, e) = refresh-Built q h in rw e (queue_ready c ops d k)

  -- Where extensions are found by their own types, the queue has no two entries of one type.
  pub refresh_upgrade_state-Distinct :
      (q : List ExtensionUpgradeState)
      → IsKeyed c
      → refresh_upgrade_state SV U c ≡ returned q
      → distinct (map entry_type q) ≡ true
  refresh_upgrade_state-Distinct q keyed h =
      let (ops, d, k, found, _, _, e) = refresh-Built q h in
      rw (e, queue_known c ops d k keyed found) (queue_types-distinct _ _ _ _ d k)
