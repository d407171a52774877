-- ===== src/Upgrade/Compat.antt =====
-- Which upgrades `_validate_version_upgrade` lets pass.
use azure_iot_ops_cli_extens.Base.{
  ℕ, ◌+◌, ◌≡◌, refl, Bool, true, false, ◌&&◌, ◌||◌, not, arith, ◌==◌, string_eq, nat_eq, leb, ltb,
  lower, if◌then◌else◌, get_or, Option, none, some, String,
}
use azure_iot_ops_cli_extens.Base.Exec.{Outcome, returned, is_returned}
use azure_iot_ops_cli_extens.Base.Outcomes.{raise_if-then, raise_if-returned}
use azure_iot_ops_cli_extens.Upgrade.{
  Semver, is_update, given, moniker_ops, min_instance_version_v2,
  min_instance_version_v1_for_v2_upgrade, lt_version, ge_version, same_version,
}
use azure_iot_ops_cli_extens.Upgrade.Extension.{
  ExtensionUpgradeState, moniker, current_version, current_train, desired_version, desired_train,
}
use azure_iot_ops_cli_extens.Upgrade.Validate.{
  known_text, is_preview, validate_ops, validate_parsed, validate_version_upgrade,
}

-- The tests of the code, against the conditions.
tests-conditions :
    (same early p q s t : Bool) (a b : ℕ)
    → not (not same) && (not (ltb a b) && (not early && not ((not p || not q) && (not s || not t))))
      ≡ same && leb b a && not early && (p && q || (s && t))
tests-conditions same early p q s t a b = ground arith

if-returned :
    (c : Bool) (m : Outcome (Unit {0}))
    → is_returned (if c then m else returned tt) ≡ not c || is_returned m
if-returned true m = refl
if-returned false m = refl

-- A train called stable, letter case aside.
abbrev pub is_stable : Option String → Bool
is_stable none = false
is_stable (some train) = lower train == "stable"

is_preview-is_stable : (train : Option String) → is_preview train ≡ not (is_stable train)
unfolding lower string_eq
is_preview-is_stable none = refl
is_preview-is_stable (some train) = refl

module _ (SV : Semver) where
  -- No downgrade; and for the operations the same major version, at most two minor versions ahead, no
  -- step over the version that comes before version 2, and no change at all where a train is not
  -- stable.
  unfoldable pub ops_allowed :
      ExtensionUpgradeState → SV.Version → SV.Version → SV.Version → SV.Version → Bool
  unfolding lt_version ge_version same_version lower
  ops_allowed e current desired first second =
      SV.major desired == SV.major current
      && leb (SV.minor desired) (SV.minor current + 2)
      && not (lt_version SV current first && ge_version SV desired second)
      && (is_stable (current_train e) && is_stable (desired_train e)
          || (same_version SV current desired
              && (lower (get_or (current_train e) "") == lower (get_or (desired_train e) ""))))

  unfoldable pub allowed :
      ExtensionUpgradeState → SV.Version → SV.Version → SV.Version → SV.Version → Bool
  unfolding ops_allowed moniker
  allowed e current desired first second =
      not (lt_version SV desired current)
      && (not (moniker e == moniker_ops) || ops_allowed e current desired first second)

  module _ (e : ExtensionUpgradeState) (current desired first second : SV.Version)
      (r : SV.parse min_instance_version_v1_for_v2_upgrade ≡ returned first)
      (s : SV.parse min_instance_version_v2 ≡ returned second) where
    validate_ops-allowed :
        is_returned (validate_ops SV e current desired) ≡ ops_allowed e current desired first second
    unfolding validate_ops ops_allowed
    validate_ops-allowed =
        rw
          (
            raise_if-then,
            raise_if-then,
            r,
            s,
            raise_if-then,
            raise_if-returned,
            is_preview-is_stable (current_train e),
            is_preview-is_stable (desired_train e),
          )
          (tests-conditions (SV.major desired == SV.major current) _ _ _ _ _ (SV.minor current + 2)
            (SV.minor desired))

  -- Where versions and trains are known and can be read, an update without --force passes exactly
  -- if it is no downgrade and, for the operations, stays in its major version, is at most two
  -- minor versions ahead, does not step over the version that has to come before version 2, and,
  -- where its train is not stable before or after, changes neither version nor train, letter case
  -- aside.
  pub validate_version_upgrade-allowed :
      (e : ExtensionUpgradeState) (current desired first second : SV.Version)
      → is_update e.operation_type ≡ true
      → e.force ≡ false
      → given (current_version e) ≡ true
      → given (desired_version e) ≡ true
      → given (current_train e) ≡ true
      → given (desired_train e) ≡ true
      → SV.parse (known_text (current_version e)) ≡ returned current
      → SV.parse (known_text (desired_version e)) ≡ returned desired
      → SV.parse min_instance_version_v1_for_v2_upgrade ≡ returned first
      → SV.parse min_instance_version_v2 ≡ returned second
      → is_returned (validate_version_upgrade SV e) ≡ allowed e current desired first second
  unfolding validate_version_upgrade validate_parsed validate_ops allowed
  validate_version_upgrade-allowed e current desired first second u f cv dv ct dt p q r s =
      rw
        (
          u,
          f,
          cv,
          dv,
          ct,
          dt,
          p,
          q,
          raise_if-then,
          if-returned,
          validate_ops-allowed e current desired first second r s,
        )
        refl
