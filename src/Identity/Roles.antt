-- ===== src/Identity/Roles.antt =====
-- The roles of backend/identity/models.go. `other` holds any other text that a role may be.
pub mod Laws
use motivra.Prelude.{
  ℕ, suc, ◌≡◌, ◌↔◌, Bool, true, false, List, [], ◌∷◌, Option, none, some, arith, leb, ltb,
  if◌then◌else◌, Eq,
}
use motivra.Prelude.Text.{Text, text_eq, text_eq_iff}

pub data Role : Type 0 where
  customer technician dispatcher garage fleet_admin support finance admin super_admin : Role
  other : Text → Role

-- The map `rolePriority`: `none` is a missing key.
abbrev pub role_priority : Role → Option ℕ
role_priority Role.super_admin = some 8
role_priority Role.admin = some 7
role_priority Role.finance = some 6
role_priority Role.support = some 5
role_priority Role.fleet_admin = some 4
role_priority Role.garage = some 3
role_priority Role.dispatcher = some 2
role_priority Role.technician = some 1
role_priority Role.customer = some 0
role_priority (Role.other _) = none

unfoldable pub role_eq : Role → Role → Bool
role_eq Role.customer Role.customer = true
role_eq Role.technician Role.technician = true
role_eq Role.dispatcher Role.dispatcher = true
role_eq Role.garage Role.garage = true
role_eq Role.fleet_admin Role.fleet_admin = true
role_eq Role.support Role.support = true
role_eq Role.finance Role.finance = true
role_eq Role.admin Role.admin = true
role_eq Role.super_admin Role.super_admin = true
role_eq (Role.other s) (Role.other t) = text_eq s t
role_eq _ _ = false

pub role_eq_iff : (a b : Role) → (role_eq a b ≡ true) ↔ (a ≡ b)
unfolding role_eq
role_eq_iff (Role.other s) (Role.other t) = ground (arith, text_eq_iff s t)
role_eq_iff a b = ground arith

abbrev pub is_known_role : Role → Bool
is_known_role (Role.other _) = false
is_known_role _ = true

-- `best` is the Go variable plus one, since that starts at -1.
abbrev pub better : Option ℕ → ℕ → Bool
better none best = false
better (some p) best = leb best p

abbrev pub priority_or : Option ℕ → ℕ → ℕ
priority_or none best = best
priority_or (some p) best = suc p

unfoldable pub highest_from : ℕ → Option Role → List Role → Option Role
highest_from best result [] = result
highest_from best result (r ∷ rs) =
    highest_from
      (if better (role_priority r) best then priority_or (role_priority r) best else best)
      (if better (role_priority r) best then some r else result) rs

-- HighestRole: `none` is the empty string.
unfoldable pub highest_role : List Role → Option Role
unfolding highest_from
highest_role = highest_from 0 none
