-- ===== src/Inspections/Evolution/History.antt =====
-- The inspection tables over any history of calls.
use motivra.Prelude.{ℕ, Bool, List, [], ◌∷◌, Option, refl}
use motivra.Prelude.Int.{ℤ}
use motivra.Prelude.Text.{Text}
use motivra.Inspections.World.{Uuid, InspectionSession, Finding, Evidence, InspectionWorld}
use motivra.Inspections.Scope.{InspectionScope}
use motivra.Inspections.Templates.{template_registry}
use motivra.Inspections.Store.{SessionFilter}
use motivra.Inspections.Service
use motivra.Inspections.Service.{InspectionsService}
use motivra.Inspections.Service.Reports
use motivra.Inspections.Evolution.{DistinctIds, Evolving, evolving}
use motivra.Inspections.Evolution.Writes.{quiet-Evolving}
use motivra.Inspections.Evolution.Service.{
  start-Calm, record_finding-Calm, attach_evidence-Calm, submit-Calm, issue_report-Calm,
  sessions_page-Calm, session_findings-Calm, session_evidence-Calm, session_report-Calm,
  verify_session_report-Calm,
}
use motivra.Inspections.Evolution.Opening.{open_session-Calm}

-- A call of the service, or what happens outside: the clock moves to any time, and which of the coming
-- database calls fail is set anew.
pub data InspectionCall : Type 0 where
  outside : ℕ → List Bool → InspectionCall
  open_session : InspectionSession → InspectionCall
  start submit : Uuid → Uuid → InspectionScope → InspectionCall
  record_finding : Uuid → Finding → Uuid → InspectionScope → InspectionCall
  attach_evidence : Uuid → Evidence → Uuid → InspectionScope → InspectionCall
  issue_report : Uuid → Uuid → Text → InspectionScope → InspectionCall
  list_sessions : InspectionScope → SessionFilter → ℤ → ℤ → InspectionCall
  list_findings list_evidence : Uuid → InspectionScope → InspectionCall
  get_report verify : Uuid → Option ℕ → InspectionScope → InspectionCall

-- The world after a call, whether it returned or failed.
unfoldable pub inspection_call :
    InspectionsService → InspectionCall → InspectionWorld → InspectionWorld
inspection_call s (outside now fs) w = record w { clock = now; faults = fs }
inspection_call s (open_session given) w = (Service.open_session s given w).1
inspection_call s (start id actor scope) w = (Service.start s id actor scope w).1
inspection_call s (submit id actor scope) w = (Reports.submit s id actor scope w).1
inspection_call s (record_finding id f actor scope) w =
    (Service.record_finding s id f actor scope w).1
inspection_call s (attach_evidence id e actor scope) w =
    (Service.attach_evidence id e actor scope w).1
inspection_call s (issue_report id actor notes scope) w =
    (Reports.issue_report s id actor notes scope w).1
inspection_call s (list_sessions scope f limit offset) w =
    (Service.sessions_page scope f limit offset w).1
inspection_call s (list_findings id scope) w = (Service.session_findings id scope w).1
inspection_call s (list_evidence id scope) w = (Service.session_evidence id scope w).1
inspection_call s (get_report id version scope) w = (Reports.session_report id version scope w).1
inspection_call s (verify id version scope) w =
    (Reports.verify_session_report s id version scope w).1

unfoldable pub inspection_history :
    InspectionsService → List InspectionCall → InspectionWorld → InspectionWorld
inspection_history s [] w = w
inspection_history s (c ∷ cs) w = inspection_history s cs (inspection_call s c w)

module _ (s : InspectionsService) (distinct : DistinctIds (template_registry s.template_id)) where
  call-Evolving :
      (c : InspectionCall) (w : InspectionWorld) → Evolving s.template_id w (inspection_call s c w)
  unfolding inspection_call
  call-Evolving (outside now fs) w = quiet-Evolving s.template_id w _ refl refl refl refl
  call-Evolving (open_session given) w = (open_session-Calm s distinct given).at w tt
  call-Evolving (start id actor scope) w = (start-Calm s.template_id s id actor scope).at w tt
  call-Evolving (submit id actor scope) w = (submit-Calm s.template_id s id actor scope).at w tt
  call-Evolving (record_finding id f actor scope) w =
      (record_finding-Calm s.template_id s id f actor scope).at w tt
  call-Evolving (attach_evidence id e actor scope) w =
      (attach_evidence-Calm s.template_id id e actor scope).at w tt
  call-Evolving (issue_report id actor notes scope) w =
      (issue_report-Calm s.template_id s id actor notes scope).at w tt
  call-Evolving (list_sessions scope f limit offset) w =
      (sessions_page-Calm s.template_id scope f limit offset).at w tt
  call-Evolving (list_findings id scope) w = (session_findings-Calm s.template_id id scope).at w tt
  call-Evolving (list_evidence id scope) w = (session_evidence-Calm s.template_id id scope).at w tt
  call-Evolving (get_report id version scope) w =
      (session_report-Calm s.template_id id version scope).at w tt
  call-Evolving (verify id version scope) w =
      (verify_session_report-Calm s.template_id s id version scope).at w tt

  -- Every history of calls lets the tables evolve.
  pub history-Evolving :
      (cs : List InspectionCall) (w : InspectionWorld)
      → Evolving s.template_id w (inspection_history s cs w)
  unfolding inspection_history
  history-Evolving [] w = (evolving s.template_id).same w
  history-Evolving (c ∷ cs) w =
      (evolving s.template_id).chain _ _ _ (call-Evolving c w)
        (history-Evolving cs (inspection_call s c w))
