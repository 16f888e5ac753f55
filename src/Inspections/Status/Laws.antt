-- ===== src/Inspections/Status/Laws.antt =====
-- The lifecycle of an inspection session.
use motivra.Prelude.{ℕ, suc, ◌≡◌, ◌↔◌, ◌⊎◌, true, false, List, [], ◌∷◌, arith, if◌then◌else◌}
use motivra.Prelude.Exec.{ok, err}
use motivra.Inspections.Status.{
  SessionStatus, illegal_move, session_status_eq, can_transition_session, is_terminal_session,
  is_known_session, all_session_statuses,
}

-- The place of a status in a list, counted from 0; the length of the list where it is missing.
unfoldable pub place : List SessionStatus → SessionStatus → ℕ
unfolding session_status_eq
place [] s = 0
place (t ∷ ts) s = if session_status_eq t s then 0 else suc (place ts s)

-- `CanTransition` accepts exactly the moves from a status to the one that follows it in the order of
-- the lifecycle, and none to or from an unknown status.
pub can_transition_session_iff :
    (s t : SessionStatus)
    → (can_transition_session s t ≡ ok tt) ↔ (
        (is_known_session t ≡ true)
        × (place all_session_statuses t ≡ suc (place all_session_statuses s)))
unfolding can_transition_session is_known_session place
can_transition_session_iff s t = ground arith

stuck :
    (s : SessionStatus)
    → ((t : SessionStatus) → can_transition_session s t ≡ err illegal_move)
    → (is_terminal_session s ≡ true) ⊎ (is_known_session s ≡ false)
unfolding can_transition_session is_terminal_session is_known_session
stuck SessionStatus.created h = ground (arith, h SessionStatus.in_progress)
stuck SessionStatus.in_progress h = ground (arith, h SessionStatus.submitted)
stuck SessionStatus.submitted h = ground (arith, h SessionStatus.report_available)
stuck s h = ground arith

closed :
    (s t : SessionStatus)
    → (is_terminal_session s ≡ true) ⊎ (is_known_session s ≡ false)
    → can_transition_session s t ≡ err illegal_move
unfolding can_transition_session is_terminal_session is_known_session
closed s t h = ground (arith, h)

-- No move leaves a status of a session exactly when it is REPORT_AVAILABLE or unknown.
pub session-dead_end_iff :
    (s : SessionStatus)
    → ((t : SessionStatus) → can_transition_session s t ≡ err illegal_move)
      ↔ ((is_terminal_session s ≡ true) ⊎ (is_known_session s ≡ false))
session-dead_end_iff s = (stuck s, λ h t. closed s t h)
