-- ===== src/Upgrade/Payload.antt =====
-- What the payloads of an upgrade carry: the patches, and the merged secrets.
use azure_iot_ops_cli_extens.Base.{
  String, ◌≡◌, refl, sym, ◌∙◌, Bool, true, false, ◌||◌, not, Option, none, some, List, [], ◌∷◌,
  ◌++◌, if◌then◌else◌, arith, is_some, contains, string_eq, ◌==◌, eq→≡,
}
use azure_iot_ops_cli_extens.Base.Exec.{Outcome, returned, raised}
use azure_iot_ops_cli_extens.Base.Outcomes.{◌>>=◌, ◌>>◌}
use azure_iot_ops_cli_extens.Upgrade.{Semver, Urls, is_update, InstalledExtension}
use azure_iot_ops_cli_extens.Upgrade.Config.{Settings}
use azure_iot_ops_cli_extens.Upgrade.Extension.{
  ExtensionUpgradeState, can_upgrade, has_delta_in_version, has_delta_in_train, has_delta_in_config,
  has_non_success_state, desired_version, desired_train,
}
use azure_iot_ops_cli_extens.Upgrade.Validate.{
  Patch, build_patch, get_patch, patch_settings, validate_version_upgrade,
}
use azure_iot_ops_cli_extens.Upgrade.SecretSync.{merge_entries}

-- Three outcomes that all return, and one of the values is true.
abbrev AllReturned : Outcome Bool → Outcome Bool → Outcome Bool → Bool → Type 0
AllReturned o1 o2 o3 n =
    (v : Bool) × (t : Bool) × (k : Bool) × (o1 ≡ returned v)
    × (o2 ≡ returned t)
    × (o3 ≡ returned k)
    × ((v || t || k || n) ≡ true)

chain-true :
    (o1 o2 o3 : Outcome Bool) (n : Bool)
    → (o1 >>= λ v. o2 >>= λ t. o3 >>= λ k. returned (v || t || k || n)) ≡ returned true
    → AllReturned o1 o2 o3 n
chain-true (returned v) (returned t) (returned k) n h =
    (v, t, k, refl, refl, refl, ground (arith, h))
chain-true (returned v) (returned t) (raised x) n h = ground (arith, h)
chain-true (returned v) (raised x) o3 n h = ground (arith, h)
chain-true (raised x) o2 o3 n h = ground (arith, h)

-- The payload behind the differences.
abbrev carried : Patch → Bool
carried p = is_some p.version || is_some p.release_train || is_some p.configuration

build-carried :
    (v t k n : Bool) (dv dt : Option String) (check : Outcome (Unit {0}))
    (settings : Outcome Settings) (p : Patch)
    → (v || t || k || n) ≡ true
    → (check
        >> ((if k then (settings >>= λ s. returned (some s)) else returned none) >>= λ config.
            returned (
              some (record {
                version = if v || n then some dv else none;
                release_train = if t then some dt else none;
                configuration = config;
              }))))
      ≡ returned (some p)
    → carried p ≡ true
build-carried v t k n dv dt (raised x) settings p c h = ground (arith, h)
build-carried v t true n dv dt (returned u) (raised x) p c h = ground (arith, h)
build-carried v t true n dv dt (returned u) (returned s) p c h = ground (arith, h, c)
build-carried v t false n dv dt (returned u) settings p c h = ground (arith, h, c)

found-chain :
    (x : Option InstalledExtension) (u : Bool) (o : Outcome Bool)
    → u ≡ true
    → elim x [ none ↦ returned (not u) | some _ ↦ if u then o else returned true ] ≡ returned true
    → o ≡ returned true
found-chain none true o p h = ground (arith, h)
found-chain (some _) true o p h = h
found-chain x false o p h = ground (arith, p)

gate :
    (u : Bool) (o : Outcome Bool) (b : Outcome (Option Patch)) (p : Patch)
    → (if u then (o >>= λ can. if can then b else returned none) else returned none)
      ≡ returned (some p)
    → (u ≡ true) × (o ≡ returned true) × (b ≡ returned (some p))
gate true (returned true) b p h = (refl, refl, h)
gate true (returned false) b p h = ground (arith, h)
gate true (raised x) b p h = ground (arith, h)
gate false o b p h = ground (arith, h)

module _ (SV : Semver) (U : Urls) where
  can_upgrade-true :
      (e : ExtensionUpgradeState)
      → is_update e.operation_type ≡ true
      → can_upgrade SV U e ≡ returned true
      → AllReturned
          (has_delta_in_version SV U e)
          (has_delta_in_train SV U e)
          (has_delta_in_config SV U e)
          (has_non_success_state e)
  unfolding can_upgrade
  can_upgrade-true e u h =
      chain-true _ _ _ _ (found-chain e.extension (is_update e.operation_type) _ u h)

  build_patch-carried :
      (e : ExtensionUpgradeState) (p : Patch)
      → AllReturned
          (has_delta_in_version SV U e)
          (has_delta_in_train SV U e)
          (has_delta_in_config SV U e)
          (has_non_success_state e)
      → build_patch SV U e ≡ returned (some p)
      → carried p ≡ true
  unfolding build_patch
  build_patch-carried e p (v, t, k, pv, pt, pk, c) h =
      build-carried v t k (has_non_success_state e) (desired_version e) (desired_train e)
        (if v || has_non_success_state e then validate_version_upgrade SV e else returned tt)
        (patch_settings SV U e) p c (sym (rw (pv, pt, pk) refl) ∙ h)

  -- A payload that `get_patch` returns names a version, a release train or settings.
  get_patch-carries :
      (e : ExtensionUpgradeState) (p : Patch)
      → get_patch SV U e ≡ returned (some p)
      → (is_some p.version || is_some p.release_train || is_some p.configuration) ≡ true
  unfolding get_patch
  get_patch-carries e p h =
      let (u, can, build) =
        gate (is_update e.operation_type) (can_upgrade SV U e) (build_patch SV U e) p h in
      build_patch-carried e p (can_upgrade-true e u can) build

contains-append :
    (xs ys : List String) (x : String) → contains (xs ++ ys) x ≡ contains xs x || contains ys x
contains-append [] ys x = refl
contains-append (y ∷ xs) ys x = ground (arith, contains-append xs ys x)

contains-eq : (xs : List String) (x y : String) → (x == y) ≡ true → contains xs x ≡ contains xs y
contains-eq xs x y h = rw (eq→≡ x y h) refl

-- Where the merged entries start with all that the set has, they contain in the end what they
-- contained and what the other document contains, and no more.
merge_entries-contains :
    (known entries merged : List String) (x : String)
    → (contains known x ≡ true → contains merged x ≡ true)
    → contains (merge_entries known entries merged) x ≡ contains merged x || contains entries x
unfolding merge_entries
merge_entries-contains known [] merged x h = ground arith
merge_entries-contains known (e ∷ es) merged x h =
    merge_entries-contains known es _ x (ground (arith, h, contains-append merged (e ∷ []) x))
    ∙ ground (arith, h, contains-append merged (e ∷ []) x, contains-eq known x e)
