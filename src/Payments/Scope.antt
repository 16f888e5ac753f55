-- ===== src/Payments/Scope.antt =====
-- backend/payments/scope.go: who may see which rows.
mod Laws
mod Tests
use motivra.Prelude.{
  length, nat_eq, ℕ, Bool, true, false, ◌&&◌, ◌||◌, not, List, [], ◌∷◌, Option, none, some, ◌==◌,
  if◌then◌else◌,
}
use motivra.Prelude.Text.{Text, bytes, text_eq}
use motivra.Prelude.Exec.{Result, ok, err}
use motivra.Payments.Types.{Uuid}

pub record Scope : Type 0 where
  pub tenant_id : Option Uuid
  pub principal_id : Option Uuid
  pub explicit_unrestricted : Bool

abbrev pub zero_scope : Scope
zero_scope = record { tenant_id = none; principal_id = none; explicit_unrestricted = false }

abbrev pub unrestricted_scope : Scope
unrestricted_scope = record { tenant_id = none; principal_id = none; explicit_unrestricted = true }

abbrev is_nil : Option Uuid → Bool
is_nil none = true
is_nil (some _) = false

unfoldable pub unrestricted : Scope → Bool
unrestricted s = s.explicit_unrestricted && is_nil s.tenant_id && is_nil s.principal_id

-- `column = $1`, which is not true where the column is NULL
abbrev pub holds_id : Option Uuid → Uuid → Bool
holds_id none v = false
holds_id (some c) v = c == v

-- The condition that `scopePredicate` renders, on the three boundary columns of a row.
unfoldable pub scope_predicate : Scope → Option Uuid → Uuid → Option Uuid → Bool
unfolding unrestricted
scope_predicate scope tenant creator customer =
    if unrestricted scope then true else elim scope.tenant_id [
      | some t ↦ holds_id tenant t
      | none ↦ elim scope.principal_id [
        | some p ↦ creator == p || holds_id customer p
        | none ↦ false
      ]
    ]

-- The values that `scopePredicate` returns for the placeholders of its condition. A personal principal is
-- given twice, for one placeholder.
abbrev personal_arguments : Option Uuid → List Uuid
personal_arguments none = []
personal_arguments (some p) = p ∷ p ∷ []

abbrev tenant_arguments : Option Uuid → Option Uuid → List Uuid
tenant_arguments (some t) principal = t ∷ []
tenant_arguments none principal = personal_arguments principal

unfoldable pub scope_arguments : Scope → List Uuid
unfolding unrestricted
scope_arguments scope =
    if unrestricted scope then [] else tenant_arguments scope.tenant_id scope.principal_id

-- The placeholders of the condition.
abbrev personal_placeholders : Option Uuid → ℕ
personal_placeholders none = 0
personal_placeholders (some p) = 1

abbrev tenant_placeholders : Option Uuid → Option Uuid → ℕ
tenant_placeholders (some t) principal = 1
tenant_placeholders none principal = personal_placeholders principal

unfoldable pub scope_placeholders : Scope → ℕ
unfolding unrestricted
scope_placeholders scope =
    if unrestricted scope then 0 else tenant_placeholders scope.tenant_id scope.principal_id

-- The driver refuses a statement with more values than placeholders.
unfoldable pub arguments_fit : Scope → Bool
unfolding scope_arguments scope_placeholders
arguments_fit scope = length (scope_arguments scope) == scope_placeholders scope

-- The claims of an access token that the scope is derived from.
pub record Claims : Type 0 where
  pub user_id : Text
  pub tenant_id : Text
  pub role : Text

abbrev pub operator_roles : List Text
operator_roles = bytes "ADMIN" ∷ bytes "SUPER_ADMIN" ∷ []

abbrev pub payment_roles : List Text
payment_roles = bytes "GARAGE" ∷ bytes "DISPATCHER" ∷ bytes "ADMIN" ∷ bytes "SUPER_ADMIN" ∷ []

-- The loop over a list of roles.
pub has_role : List Text → Text → Bool
has_role [] role = false
has_role (r ∷ rs) role = if text_eq r role then true else has_role rs role

unfoldable pub is_operator_role : Text → Bool
unfolding has_role
is_operator_role = has_role operator_roles

unfoldable pub is_payment_role : Text → Bool
unfolding has_role
is_payment_role = has_role payment_roles

pub data Unauthorized : Type 0 where
  unauthorized : Unauthorized

-- The parser of identifiers (`uuid.Parse`) is a package's.
module _ (parse_uuid : Text → Option Uuid) where
  unfoldable pub scope_from_claims : Claims → Result Unauthorized Scope
  unfolding is_operator_role
  scope_from_claims claims =
      if is_operator_role claims.role then ok unrestricted_scope else elim claims.tenant_id [
        | [] ↦ elim (parse_uuid claims.user_id) [
          | none ↦ err unauthorized
          | some p ↦
              ok (record { tenant_id = none; principal_id = some p; explicit_unrestricted = false })
        ]
        | c ∷ cs ↦ elim (parse_uuid claims.tenant_id) [
          | none ↦ err unauthorized
          | some t ↦
              ok (record { tenant_id = some t; principal_id = none; explicit_unrestricted = false })
        ]
      ]
