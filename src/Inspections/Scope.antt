-- ===== src/Inspections/Scope.antt =====
-- backend/inspections/scope.go: who may see which sessions.
use motivra.Prelude.{
  ℕ, List, [], ◌∷◌, length, nat_eq, Bool, true, false, ◌&&◌, ◌||◌, Option, none, some, ◌==◌,
  if◌then◌else◌,
}
use motivra.Inspections.World.{Uuid, is_none, InspectionSession}

pub record InspectionScope : Type 0 where
  pub tenant_id : Option Uuid
  pub principal_id : Option Uuid
  pub explicit_unrestricted : Bool

unfoldable pub is_unrestricted : InspectionScope → Bool
is_unrestricted s = s.explicit_unrestricted && (is_none s.tenant_id && is_none s.principal_id)

-- `column = $1`, which is not true where the column is NULL
abbrev pub column_is : Option Uuid → Uuid → Bool
column_is none v = false
column_is (some c) v = c == v

-- The condition that `scopePredicate` renders, on the columns of a session.
unfoldable pub session_visible : InspectionScope → InspectionSession → Bool
unfolding is_unrestricted
session_visible scope s = if is_unrestricted scope then true else elim scope.tenant_id [
  | some t ↦ column_is s.tenant_id t
  | none ↦ elim scope.principal_id [
    | some p ↦ s.inspector_id == p || column_is s.customer_id p
    | none ↦ false
  ]
]

-- The values that `scopePredicate` returns for the placeholders of its condition. A personal principal is
-- given twice, for one placeholder.
abbrev personal_arguments : Option Uuid → List Uuid
personal_arguments none = []
personal_arguments (some p) = p ∷ p ∷ []

abbrev tenant_arguments : Option Uuid → Option Uuid → List Uuid
tenant_arguments (some t) principal = t ∷ []
tenant_arguments none principal = personal_arguments principal

unfoldable pub scope_arguments : InspectionScope → List Uuid
unfolding is_unrestricted
scope_arguments scope =
    if is_unrestricted scope then [] else tenant_arguments scope.tenant_id scope.principal_id

-- The placeholders of the condition.
abbrev personal_placeholders : Option Uuid → ℕ
personal_placeholders none = 0
personal_placeholders (some p) = 1

abbrev tenant_placeholders : Option Uuid → Option Uuid → ℕ
tenant_placeholders (some t) principal = 1
tenant_placeholders none principal = personal_placeholders principal

unfoldable pub scope_placeholders : InspectionScope → ℕ
unfolding is_unrestricted
scope_placeholders scope =
    if is_unrestricted scope then 0 else tenant_placeholders scope.tenant_id scope.principal_id

-- The driver refuses a statement with more values than placeholders.
unfoldable pub arguments_fit : InspectionScope → Bool
unfolding scope_arguments scope_placeholders
arguments_fit scope = length (scope_arguments scope) == scope_placeholders scope
