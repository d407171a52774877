-- ===== src/Permissions/Verdict.antt =====
-- When the permissions of a principal let it assign roles.
use azure_iot_ops_cli_extens.Base.{
  ◌≡◌, refl, Bool, true, false, ◌&&◌, not, Option, none, some, List, [], ◌∷◌, any, get_or, arith,
}
use azure_iot_ops_cli_extens.Permissions.{
  Permission, has_valid, calculate_action, allowed_loop, can_apply_role_assignment,
}

-- A permission that grants the write, and takes it not back; and one that takes it back.
abbrev pub grants : Permission → Bool
grants p = has_valid p.actions && not (has_valid p.not_actions)

abbrev pub denies : Permission → Bool
denies p = has_valid p.not_actions

-- What the loop leaves, from what it has seen.
abbrev verdict : Option Bool → Bool → Bool → Bool
verdict none granted denied = granted && not denied
verdict (some true) granted denied = not denied
verdict (some false) granted denied = false

allowed_loop-verdict :
    (ps : List Permission) (seen : Option Bool)
    → get_or (allowed_loop ps seen) false ≡ verdict seen (any grants ps) (any denies ps)
unfolding allowed_loop calculate_action
allowed_loop-verdict [] none = refl
allowed_loop-verdict [] (some true) = refl
allowed_loop-verdict [] (some false) = refl
allowed_loop-verdict (p ∷ ps) none = ground (
  arith,
  allowed_loop-verdict ps none,
  allowed_loop-verdict ps (some true),
  allowed_loop-verdict ps (some false),
)
allowed_loop-verdict (p ∷ ps) (some true) =
    ground (arith, allowed_loop-verdict ps (some true), allowed_loop-verdict ps (some false))
allowed_loop-verdict (p ∷ ps) (some false) = ground (arith, allowed_loop-verdict ps (some false))

-- A principal can assign roles exactly if one of its permissions grants the write without taking
-- it back, and none takes it back.
pub can_apply_role_assignment-grants :
    (ps : List Permission) → can_apply_role_assignment ps ≡ any grants ps && not (any denies ps)
unfolding can_apply_role_assignment
can_apply_role_assignment-grants ps = allowed_loop-verdict ps none
