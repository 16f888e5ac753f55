-- ===== src/Payments/Scope/Laws.antt =====
-- Isolation: a scope that is not an operator's shows the rows of its own boundary only.
use motivra.Prelude.{◌≡◌, refl, ◌≢◌, ◌⊎◌, true, false, Option, none, some, [], arith, Option-cases}
use motivra.Prelude.Text.{Text}
use motivra.Prelude.Exec.{ok}
use motivra.Payments.Types.{Uuid}
use motivra.Payments.Scope.{
  Scope, Claims, zero_scope, scope_predicate, is_operator_role, scope_from_claims,
}

-- The zero scope shows no row.
pub zero_scope_closed :
    (t : Option Uuid) (c : Uuid) (p : Option Uuid) → scope_predicate zero_scope t c p ≡ false
unfolding scope_predicate
zero_scope_closed t c p = refl

module _ (parse_uuid : Text → Option Uuid) where
  -- A caller who is no operator and has a tenant claim sees a row only if the row belongs to that
  -- tenant; one with no tenant claim sees it only as its creator or its payer.
  pub scope_from_claims_isolates :
      (claims : Claims) (scope : Scope) (tenant : Option Uuid) (creator : Uuid)
      (customer : Option Uuid)
      → scope_from_claims parse_uuid claims ≡ ok scope
      → is_operator_role claims.role ≡ false
      → scope_predicate scope tenant creator customer ≡ true
      → ((claims.tenant_id ≢ []) × (tenant ≢ none) × (tenant ≡ parse_uuid claims.tenant_id))
        ⊎ ((claims.tenant_id ≡ [])
            × ((parse_uuid claims.user_id ≡ some creator)
                ⊎ ((customer ≢ none) × (customer ≡ parse_uuid claims.user_id))))
  unfolding scope_from_claims scope_predicate
  scope_from_claims_isolates claims scope tenant creator customer s o p = ground (
    arith,
    Option-cases (parse_uuid claims.tenant_id),
    Option-cases (parse_uuid claims.user_id),
    Option-cases tenant,
    Option-cases customer,
  )
