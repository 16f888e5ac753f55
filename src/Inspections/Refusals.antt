-- ===== src/Inspections/Refusals.antt =====
-- Refusals of the inspections service that write nothing.
use motivra.Prelude.{◌≡◌, ◌≢◌, refl, ◌∙◌, Bool, true, false, [], some, arith, ◌==◌, ==_iff, ◌||◌}
use motivra.Prelude.Text.{Text}
use motivra.Prelude.Exec.{err, ◌>>=◌, require}
use motivra.Prelude.Exec.Runs.{bind-runs, bind-fails, require-runs, require-fails}
use motivra.Inspections.Status.{SessionStatus, session_status_eq, session_status_eq_iff}
use motivra.Inspections.World.{
  Uuid, InspectionSession, Finding, Evidence, not_inspector, session_sealed, InspectionWorld,
  Action,
}
use motivra.Inspections.Scope.{arguments_fit, InspectionScope, is_unrestricted}
use motivra.Inspections.Store.{find_session, scoped_session, get_session}
use motivra.Inspections.Service.{
  InspectionsService, guard_actor, start, record_finding, attach_evidence,
}
use motivra.Inspections.Service.Reports.{submit, issue_report}
use motivra.Inspections.Runs.{get_session-runs}

module _ (w : InspectionWorld) (healthy : w.faults ≡ []) (id : Uuid) (sess : InspectionSession)
    (scope : InspectionScope) (fit : arguments_fit scope ≡ true)
    (found : scoped_session scope (find_session id w.sessions) ≡ some sess) where
  -- In a state where the database answers, the start, a finding, a piece of evidence, the submission and
  -- the report of a session that the caller sees are refused, and nothing is written, where the caller is
  -- not its inspector and not of an unrestricted scope. The scope gives its statements as many values as
  -- placeholders (it is not a personal one).
  pub outsider-not_inspector :
      (s : InspectionsService) (actor : Uuid) (f : Finding) (e : Evidence) (notes : Text)
      → is_unrestricted scope ≡ false
      → actor ≢ sess.inspector_id
      → (start s id actor scope w ≡ (err not_inspector, w))
        × (record_finding s id f actor scope w ≡ (err not_inspector, w))
        × (attach_evidence id e actor scope w ≡ (err not_inspector, w))
        × (submit s id actor scope w ≡ (err not_inspector, w))
        × (issue_report s id actor notes scope w ≡ (err not_inspector, w))
  unfolding start record_finding attach_evidence submit issue_report guard_actor
  outsider-not_inspector s actor f e notes restricted other =
      (refused _, refused _, refused _, refused _, refused _)
    where
      guarded : guard_actor sess actor scope w ≡ (err not_inspector, w)
      guarded =
          require-fails _ _ w (ground (arith, restricted, other, ==_iff actor sess.inspector_id))

      refused :
          {A : Type 0} (rest : InspectionSession → Unit {0} → Action A)
          → (get_session id scope >>= λ x. guard_actor x actor scope >>= rest x) w
            ≡ (err not_inspector, w)
      refused rest =
          bind-runs _ _ w sess w (get_session-runs w healthy id scope sess fit found)
          ∙ bind-fails _ _ w _ w guarded

  -- In a state where the database answers, a finding and a piece of evidence of a session that is not in
  -- progress are refused as sealed, and nothing is written, where the caller sees the session and may write
  -- to it. The scope gives its statements as many values as placeholders (it is not a personal one).
  pub sealed-session_sealed :
      (s : InspectionsService) (actor : Uuid) (f : Finding) (e : Evidence)
      → (is_unrestricted scope || actor == sess.inspector_id) ≡ true
      → sess.status ≢ SessionStatus.in_progress
      → (record_finding s id f actor scope w ≡ (err session_sealed, w))
        × (attach_evidence id e actor scope w ≡ (err session_sealed, w))
  unfolding record_finding attach_evidence guard_actor
  sealed-session_sealed s actor f e allowed sealed = (refused _, refused _)
    where
      closed : (b : Bool) → session_status_eq sess.status SessionStatus.in_progress ≡ b → b ≡ false
      closed true h =
          absurd (sealed ((session_status_eq_iff sess.status SessionStatus.in_progress).0 h))
      closed false h = refl

      refused :
          {A : Type 0} (rest : InspectionSession → Unit {0} → Action A)
          → (get_session id scope >>= λ x. guard_actor x actor scope >>= λ _.
                require (session_status_eq x.status SessionStatus.in_progress) session_sealed
                >>= rest x)
              w
            ≡ (err session_sealed, w)
      refused rest =
          bind-runs _ _ w sess w (get_session-runs w healthy id scope sess fit found)
          ∙ bind-runs _ _ w tt w (require-runs _ _ w allowed)
          ∙ bind-fails _ _ w _ w (require-fails _ _ w (closed _ refl))
