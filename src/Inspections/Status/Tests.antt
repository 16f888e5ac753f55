-- ===== src/Inspections/Status/Tests.antt =====
-- Runs of the lifecycle of an inspection session.
use motivra.Prelude.{suc, ◌≡◌, ◌↔◌, refl, true}
use motivra.Prelude.Exec.{ok, err}
use motivra.Inspections.Status.{
  SessionStatus, illegal_move, can_transition_session, is_known_session, all_session_statuses,
}
use motivra.Inspections.Status.Laws.{place, can_transition_session_iff}

no_way_back :
    can_transition_session SessionStatus.submitted SessionStatus.in_progress ≡ err illegal_move
unfolding can_transition_session
no_way_back = refl

can_transition_session_iff_example :
    (can_transition_session SessionStatus.in_progress SessionStatus.submitted ≡ ok tt) ↔ (
      (is_known_session SessionStatus.submitted ≡ true)
      × (place all_session_statuses SessionStatus.submitted
          ≡ suc (place all_session_statuses SessionStatus.in_progress)))
can_transition_session_iff_example =
    can_transition_session_iff SessionStatus.in_progress SessionStatus.submitted
