-- ===== src/Upgrade/Order.antt =====
-- The order of what an upgrade sends: the groups of the queue, and the whole plan.
use mathlib.Core.List.{append-nil, append_assoc}
use azure_iot_ops_cli_extens.Base.{
  ◌≡◌, refl, sym, ◌∙◌, Bool, true, List, [], ◌∷◌, ◌++◌, if◌then◌else◌, arith, inl, inr,
}
use azure_iot_ops_cli_extens.Base.Exec.{returned, is_returned, Outcome-cases}
use azure_iot_ops_cli_extens.Base.Sends.{Sends, Sends-bind, Sends-cast, Sends-lift}
use azure_iot_ops_cli_extens.Upgrade.{Semver, Urls, create, update, delete}
use azure_iot_ops_cli_extens.Upgrade.Extension.{ExtensionUpgradeState, can_upgrade}
use azure_iot_ops_cli_extens.Upgrade.SecretSync.{Yaml}
use azure_iot_ops_cli_extens.Upgrade.Cluster.{ClusterUpgradeState}
use azure_iot_ops_cli_extens.Upgrade.Apply.{
  Event, Service, Session, Groups, no_groups, add_to_group, group_loop,
}
use azure_iot_ops_cli_extens.Upgrade.Drive.{UpgradeManager, apply_groups, apply_upgrades}
use azure_iot_ops_cli_extens.Upgrade.Plan.{
  chosen, event_log, operations_plan, groups_plan, upgrade_plan,
}
use azure_iot_ops_cli_extens.Upgrade.Sending.{apply_group-Sends, apply_rest-Sends}

module _ (SV : Semver) (U : Urls) where
  group_loop-more :
      (e : ExtensionUpgradeState) (es : List ExtensionUpgradeState) (g : Groups) (b : Bool)
      → can_upgrade SV U e ≡ returned b
      → group_loop SV U (e ∷ es) g
        ≡ group_loop SV U es (if b then add_to_group e.operation_type e g else g)
  unfolding group_loop
  group_loop-more e es g b p = rw p refl

  -- Each group with its part of a queue behind it.
  abbrev Extended : List ExtensionUpgradeState → Groups → Groups → Type 0
  Extended es g g' =
      (g'.deletes ≡ g.deletes ++ chosen SV U delete es)
      × (g'.creates ≡ g.creates ++ chosen SV U create es)
      × (g'.updates ≡ g.updates ++ chosen SV U update es)

  group_step :
      (e : ExtensionUpgradeState) (es : List ExtensionUpgradeState) (g g' : Groups) (b : Bool)
      → can_upgrade SV U e ≡ returned b
      → Extended es (if b then add_to_group e.operation_type e g else g) g'
      → Extended (e ∷ es) g g'
  unfolding chosen
  group_step e es g g' b p (d, c, u) = ground (
    arith,
    p,
    d,
    c,
    u,
    append_assoc g.deletes (e ∷ []) (chosen SV U delete es),
    append_assoc g.creates (e ∷ []) (chosen SV U create es),
    append_assoc g.updates (e ∷ []) (chosen SV U update es),
  )

  -- The groups are those of before, each with its part of the queue behind it.
  group_loop-chosen :
      (es : List ExtensionUpgradeState) (g g' : Groups)
      → group_loop SV U es g ≡ returned g'
      → Extended es g g'
  unfolding group_loop chosen
  group_loop-chosen [] g g' h =
      ground (arith, h, append-nil g.deletes, append-nil g.creates, append-nil g.updates)
  group_loop-chosen (e ∷ es) g g' h = elim (Outcome-cases (can_upgrade SV U e)) [
    | inl (x, p) ↦ ground (arith, p, h)
    | inr (b, p) ↦
        group_step e es g g' b p (group_loop-chosen es _ g' (sym (group_loop-more e es g b p) ∙ h))
  ]

  module _ (V : Service) where
    apply_groups-Sends :
        (Y : Yaml) (m : UpgradeManager) (es : List ExtensionUpgradeState) (g : Groups)
        → group_loop SV U es no_groups ≡ returned g
        → Sends event_log is_returned (groups_plan SV U m.targets es) (apply_groups V SV U Y m g)
    unfolding apply_groups operations_plan
    apply_groups-Sends Y m es g h =
        let (d, c, u) = group_loop-chosen es no_groups g h in
        Sends-cast event_log (rw (d, c, u) refl) (
          Sends-bind event_log _ _ (apply_group-Sends V SV U m.targets delete g.deletes [])
            (λ deleted.
              Sends-bind event_log _ _ (apply_group-Sends V SV U m.targets create g.creates deleted)
                (λ created. apply_group-Sends V SV U m.targets update g.updates created)))

    apply_upgrades-Sends :
        (Y : Yaml) (m : UpgradeManager) (c : ClusterUpgradeState)
        → Sends event_log is_returned (upgrade_plan SV U Y m c) (apply_upgrades V SV U Y m c)
    unfolding apply_upgrades upgrade_plan
    apply_upgrades-Sends Y m c =
        Sends-lift event_log (group_loop SV U c.extension_upgrades no_groups) _ (λ g h.
          Sends-bind event_log _ _ (apply_groups-Sends Y m c.extension_upgrades g h)
            (λ payload. apply_rest-Sends V SV U Y m c payload))

    -- Whatever the service answers, `apply_upgrades` sends a prefix of the plan: the deletions,
    -- creations and updates that the queue asks for, then the instance, the registry, the template
    -- and the secrets, each where it is needed. A run that returns has sent all of it.
    pub apply_upgrades-events :
        (Y : Yaml) (m : UpgradeManager) (c : ClusterUpgradeState) (s : Session V)
        → (before : List Event) × (after : List Event) × ((apply_upgrades V SV U Y m c s).1.events
            ≡ s.events ++ before)
          × (upgrade_plan SV U Y m c ≡ before ++ after)
          × (is_returned (apply_upgrades V SV U Y m c s).0 ≡ true → after ≡ [])
    apply_upgrades-events Y m c s =
        let k = apply_upgrades-Sends Y m c in
        (k.sent s, k.unsent s, k.requests s, k.split s, k.complete s)
