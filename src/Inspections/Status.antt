-- ===== src/Inspections/Status.antt =====
-- backend/inspections/statemachine.go. `other` holds any other text that a status may be; the text of
-- an error is left out.
mod Laws
mod Tests
use motivra.Prelude.{
  ◌≡◌, ◌↔◌, Bool, true, false, List, [], ◌∷◌, Option, none, some, arith, if◌then◌else◌,
}
use motivra.Prelude.Text.{Text, text_eq, text_eq_iff}
use motivra.Prelude.Exec.{Result, ok, err}

pub data SessionStatus : Type 0 where
  created in_progress submitted report_available : SessionStatus
  other : Text → SessionStatus

unfoldable pub session_status_eq : SessionStatus → SessionStatus → Bool
session_status_eq SessionStatus.created SessionStatus.created = true
session_status_eq SessionStatus.in_progress SessionStatus.in_progress = true
session_status_eq SessionStatus.submitted SessionStatus.submitted = true
session_status_eq SessionStatus.report_available SessionStatus.report_available = true
session_status_eq (SessionStatus.other s) (SessionStatus.other t) = text_eq s t
session_status_eq _ _ = false

pub session_status_eq_iff : (a b : SessionStatus) → (session_status_eq a b ≡ true) ↔ (a ≡ b)
unfolding session_status_eq
session_status_eq_iff (SessionStatus.other s) (SessionStatus.other t) =
    ground (arith, text_eq_iff s t)
session_status_eq_iff a b = ground arith

-- ErrConflict
pub data SessionConflict : Type 0 where
  illegal_move : SessionConflict

abbrev pub session_transitions : SessionStatus → Option (List SessionStatus)
session_transitions SessionStatus.created = some (SessionStatus.in_progress ∷ [])
session_transitions SessionStatus.in_progress = some (SessionStatus.submitted ∷ [])
session_transitions SessionStatus.submitted = some (SessionStatus.report_available ∷ [])
session_transitions _ = none

-- The loop over the statuses of a list.
unfoldable pub contains_status : List SessionStatus → SessionStatus → Bool
contains_status [] to = false
contains_status (t ∷ ts) to = if session_status_eq t to then true else contains_status ts to

unfoldable pub can_transition_session :
    SessionStatus → SessionStatus → Result SessionConflict (Unit {0})
unfolding contains_status session_status_eq
can_transition_session from to = elim (session_transitions from) [
  | none ↦ err illegal_move
  | some targets ↦ if contains_status targets to then ok tt else err illegal_move
]

unfoldable pub is_terminal_session : SessionStatus → Bool
unfolding session_status_eq
is_terminal_session s = session_status_eq s SessionStatus.report_available

abbrev pub all_session_statuses : List SessionStatus
all_session_statuses =
    SessionStatus.created ∷ SessionStatus.in_progress ∷ SessionStatus.submitted
    ∷ SessionStatus.report_available ∷ []

unfoldable pub is_known_session : SessionStatus → Bool
unfolding contains_status session_status_eq
is_known_session = contains_status all_session_statuses
