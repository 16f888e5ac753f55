-- ===== src/Payments/Scope/Tests.antt =====
-- The scopes of two callers.
use motivra.Prelude.{◌≡◌, ◌≢◌, ◌⊎◌, refl, true, false, [], ◌∷◌, Option, none, some}
use motivra.Prelude.Text.{Text, bytes, text_eq}
use motivra.Prelude.Exec.{ok}
use motivra.Payments.Types.{Uuid}
use motivra.Payments.Scope.{
  Scope, Claims, zero_scope, scope_predicate, is_operator_role, scope_from_claims,
}
use motivra.Payments.Scope.Laws.{zero_scope_closed, scope_from_claims_isolates}

-- Identifiers of one digit.
abbrev digit : Text → Option Uuid
digit [] = none
digit (c ∷ cs) = some c

abbrev garage : Claims
garage = record { user_id = bytes "u"; tenant_id = bytes "t"; role = bytes "GARAGE" }

abbrev garage_scope : Scope
garage_scope = record { tenant_id = some 116; principal_id = none; explicit_unrestricted = false }

garage_scoped : scope_from_claims digit garage ≡ ok garage_scope
unfolding scope_from_claims text_eq bytes
garage_scoped = refl

garage_is_no_operator : is_operator_role garage.role ≡ false
unfolding is_operator_role text_eq bytes
garage_is_no_operator = refl

abbrev tenant : Option Uuid
tenant = some 116

abbrev nobody : Option Uuid
nobody = none

garage_sees : scope_predicate garage_scope (some 116) 5 none ≡ true
unfolding scope_predicate
garage_sees = refl

scope_from_claims_isolates_example :
    ((garage.tenant_id ≢ []) × (tenant ≢ none) × (tenant ≡ digit garage.tenant_id))
    ⊎ ((garage.tenant_id ≡ [])
        × ((digit garage.user_id ≡ some 5) ⊎ ((nobody ≢ none) × (nobody ≡ digit garage.user_id))))
scope_from_claims_isolates_example =
    scope_from_claims_isolates digit garage garage_scope tenant 5 nobody garage_scoped
      garage_is_no_operator garage_sees

zero_scope_closed_example : scope_predicate zero_scope (some 116) 5 (some 6) ≡ false
zero_scope_closed_example = zero_scope_closed (some 116) 5 (some 6)
