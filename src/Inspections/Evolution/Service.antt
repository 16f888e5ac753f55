-- ===== src/Inspections/Evolution/Service.antt =====
-- Every call of the inspections service lets the tables evolve.
use motivra.Prelude.{ℕ, ◌≡◌, refl, Bool, false, Option, none, some, arith, nat_eq}
use motivra.Prelude.Int.{ℤ}
use motivra.Prelude.Text.{Text}
use motivra.Prelude.Exec.{Result, ok, err, ◌>>=◌, check}
use motivra.Prelude.Exec.Steps.{
  Any, Steps, Steps-pure, Steps-raise, Steps-gets, Steps-bind, Steps-find_or_raise, Steps-or_raise,
  Steps-or_raise_then, Steps-require_only, Steps-modify, Steps-if,
}
use motivra.Inspections.Status.{SessionStatus, SessionConflict, can_transition_session}
use motivra.Inspections.World.{
  Uuid, InspectionSession, Finding, Evidence, InspectionPayload, InspectionError, publish_failed,
  InspectionWorld, Action,
}
use motivra.Inspections.Scope.{InspectionScope}
use motivra.Inspections.Store.{get_session, SessionFilter, list_sessions}
use motivra.Inspections.Store.Records.{list_findings, list_evidence}
use motivra.Inspections.Store.Reports.{get_report}
use motivra.Inspections.Service.{
  InspectionsService, publish, guard_actor, moved, legal_move, start, record_finding, check_finding,
  attach_evidence, sessions_page, session_findings, session_evidence,
}
use motivra.Inspections.Service.Reports.{
  check_readiness, submit, issue_of, issue_report, session_report, verify_session_report,
}
use motivra.Inspections.Evolution.{is_sealed, DistinctIds, Evolving, evolving}
use motivra.Inspections.Evolution.Writes.{
  Calm, quiet-Evolving, round_trip-Calm, create_session-Calm, update_session_status-Calm,
}
use motivra.Inspections.Evolution.Records.{
  insert_finding-Calm, insert_evidence-Calm, insert_report-Calm,
}

pub ruleset calls = (
  Steps-pure, Steps-raise, Steps-gets, Steps-bind, Steps-find_or_raise, Steps-or_raise,
  Steps-require_only, round_trip-Calm, evolving,
)

module _ (name : Text → ℕ → Uuid) where
  check-Calm : (c : InspectionWorld → Bool) (e : InspectionError) → Calm name (check c e)
  unfolding check
  check-Calm c e = record { at = λ w t. (Steps-require_only (evolving name) Any (c w) e).at w t }

  get_session-Calm : (id : Uuid) (scope : InspectionScope) → Calm name (get_session id scope)
  unfolding get_session
  get_session-Calm id scope = search calls depth 40

  list_sessions-Calm :
      (scope : InspectionScope) (f : SessionFilter) (limit offset : ℤ)
      → Calm name (list_sessions scope f limit offset)
  unfolding list_sessions
  list_sessions-Calm scope f limit offset = search calls depth 40

  pub list_findings-Calm :
      (id : Uuid) (scope : InspectionScope) → Calm name (list_findings id scope)
  unfolding list_findings
  list_findings-Calm id scope = search calls depth 40

  pub list_evidence-Calm :
      (id : Uuid) (scope : InspectionScope) → Calm name (list_evidence id scope)
  unfolding list_evidence
  list_evidence-Calm id scope = search calls depth 40

  get_report-Calm :
      (id : Uuid) (version : Option ℕ) (scope : InspectionScope)
      → Calm name (get_report id version scope)
  unfolding get_report
  get_report-Calm id version scope = search calls depth 40

  pub publish-Calm :
      (s : InspectionsService) (id actor : Uuid) (tenant : Option Uuid) (p : InspectionPayload)
      → Calm name (publish s id actor tenant p)
  unfolding publish
  publish-Calm s id actor tenant p =
      Steps-if s.has_publisher _ _
        (λ _. Steps-bind (evolving name) Any _ _ (round_trip-Calm name publish_failed) λ _.
          Steps-modify (evolving name) Any _ (λ w _. quiet-Evolving name w _ refl refl refl refl))
        (λ _. Steps-pure (evolving name) Any tt)

  guard_actor-Calm :
      (s : InspectionSession) (actor : Uuid) (scope : InspectionScope)
      → Calm name (guard_actor s actor scope)
  unfolding guard_actor
  guard_actor-Calm s actor scope = search calls depth 40

  -- After a move that is legal.
  moved-Calm :
      {A : Type 0} (r : Result SessionConflict (Unit {0})) (f : Unit {0} → Action A)
      → (r ≡ ok tt → Calm name (f tt))
      → Calm name (moved r >>= f)
  unfolding ◌>>=◌
  moved-Calm (ok u) f h = h refl
  moved-Calm (err e) f h = record { at = λ w _. (evolving name).same w }

  legal_move-Calm :
      {A : Type 0} (from to : SessionStatus) (f : Unit {0} → Action A)
      → (can_transition_session from to ≡ ok tt → Calm name (f tt))
      → Calm name (legal_move from to >>= f)
  unfolding legal_move
  legal_move-Calm from to f h = moved-Calm (can_transition_session from to) f h

  start_unsealed :
      (from : SessionStatus)
      → can_transition_session from SessionStatus.in_progress ≡ ok tt
      → is_sealed from ≡ false
  unfolding can_transition_session
  start_unsealed from h = ground (arith, h)

  submit_unsealed :
      (from : SessionStatus)
      → can_transition_session from SessionStatus.submitted ≡ ok tt
      → is_sealed from ≡ false
  unfolding can_transition_session
  submit_unsealed from h = ground (arith, h)

  pub start-Calm :
      (s : InspectionsService) (id actor : Uuid) (scope : InspectionScope)
      → Calm name (start s id actor scope)
  unfolding start
  start-Calm s id actor scope =
      Steps-bind (evolving name) Any _ _ (get_session-Calm id scope) λ sess.
        Steps-bind (evolving name) Any _ _ (guard_actor-Calm sess actor scope) λ _.
          legal_move-Calm sess.status SessionStatus.in_progress _ (λ legal.
            Steps-bind (evolving name) Any _ _
              (update_session_status-Calm name id sess.status SessionStatus.in_progress (some actor)
                _ (start_unsealed sess.status legal))
              λ _. search (calls, get_session-Calm, publish-Calm) depth 40)

  pub record_finding-Calm :
      (s : InspectionsService) (id : Uuid) (f : Finding) (actor : Uuid) (scope : InspectionScope)
      → Calm name (record_finding s id f actor scope)
  unfolding record_finding
  record_finding-Calm s id f actor scope =
      search (calls, get_session-Calm, guard_actor-Calm, insert_finding-Calm) depth 40

  check_finding-Calm :
      (f : Option Uuid) (id : Uuid) (scope : InspectionScope) → Calm name (check_finding f id scope)
  unfolding check_finding
  check_finding-Calm none id scope = Steps-pure (evolving name) Any tt
  check_finding-Calm (some f) id scope = search (calls, list_findings-Calm) depth 40

  pub attach_evidence-Calm :
      (id : Uuid) (e : Evidence) (actor : Uuid) (scope : InspectionScope)
      → Calm name (attach_evidence id e actor scope)
  unfolding attach_evidence
  attach_evidence-Calm id e actor scope =
      search
        (
          calls, get_session-Calm, guard_actor-Calm, check-Calm, check_finding-Calm,
          insert_evidence-Calm,
        )
        depth 40

  pub check_readiness-Calm :
      (s : InspectionsService) (sess : InspectionSession) (scope : InspectionScope)
      → Calm name (check_readiness s sess scope)
  unfolding check_readiness
  check_readiness-Calm s sess scope =
      search (calls, list_findings-Calm, list_evidence-Calm) depth 40

  pub submit-Calm :
      (s : InspectionsService) (id actor : Uuid) (scope : InspectionScope)
      → Calm name (submit s id actor scope)
  unfolding submit
  submit-Calm s id actor scope =
      Steps-bind (evolving name) Any _ _ (get_session-Calm id scope) λ sess.
        Steps-bind (evolving name) Any _ _ (guard_actor-Calm sess actor scope) λ _.
          legal_move-Calm sess.status SessionStatus.submitted _ (λ legal.
            Steps-bind (evolving name) Any _ _ (check_readiness-Calm s sess scope) λ _.
              Steps-bind (evolving name) Any _ _
                (update_session_status-Calm name id sess.status SessionStatus.submitted (some actor)
                  _ (submit_unsealed sess.status legal))
                λ _.
                  search
                    (calls, get_session-Calm, list_findings-Calm, list_evidence-Calm, publish-Calm)
                    depth 40)

  issue_of-Calm :
      (s : InspectionsService) (id actor : Uuid) (notes : Text) (scope : InspectionScope)
      (sess : InspectionSession)
      → Calm name (issue_of s id actor notes scope sess)
  unfolding issue_of
  issue_of-Calm s id actor notes scope sess =
      search (calls, list_findings-Calm, list_evidence-Calm, insert_report-Calm, publish-Calm) depth
        40

  pub issue_report-Calm :
      (s : InspectionsService) (id actor : Uuid) (notes : Text) (scope : InspectionScope)
      → Calm name (issue_report s id actor notes scope)
  unfolding issue_report
  issue_report-Calm s id actor notes scope =
      Steps-bind (evolving name) Any _ _ (get_session-Calm id scope) λ sess.
        Steps-bind (evolving name) Any _ _ (guard_actor-Calm sess actor scope) λ _.
          legal_move-Calm sess.status SessionStatus.report_available _
            (λ legal. issue_of-Calm s id actor notes scope sess)

  pub sessions_page-Calm :
      (scope : InspectionScope) (f : SessionFilter) (limit offset : ℤ)
      → Calm name (sessions_page scope f limit offset)
  unfolding sessions_page
  sessions_page-Calm scope f limit offset = search (calls, list_sessions-Calm) depth 40

  pub session_findings-Calm :
      (id : Uuid) (scope : InspectionScope) → Calm name (session_findings id scope)
  unfolding session_findings
  session_findings-Calm id scope = search (calls, get_session-Calm, list_findings-Calm) depth 40

  pub session_evidence-Calm :
      (id : Uuid) (scope : InspectionScope) → Calm name (session_evidence id scope)
  unfolding session_evidence
  session_evidence-Calm id scope = search (calls, get_session-Calm, list_evidence-Calm) depth 40

  pub session_report-Calm :
      (id : Uuid) (version : Option ℕ) (scope : InspectionScope)
      → Calm name (session_report id version scope)
  unfolding session_report
  session_report-Calm id version scope = search (calls, get_session-Calm, get_report-Calm) depth 40

  pub verify_session_report-Calm :
      (s : InspectionsService) (id : Uuid) (version : Option ℕ) (scope : InspectionScope)
      → Calm name (verify_session_report s id version scope)
  unfolding verify_session_report
  verify_session_report-Calm s id version scope =
      search (calls, get_session-Calm, get_report-Calm, list_findings-Calm, list_evidence-Calm)
        depth 40
