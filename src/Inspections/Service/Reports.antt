-- ===== src/Inspections/Service/Reports.antt =====
-- Submit, IssueReport, GetReport and Verify in backend/inspections/service.go.
use motivra.Prelude.{ℕ, List, Option, some, leb, length}
use motivra.Prelude.Text.{Text, bytes}
use motivra.Prelude.Exec.{◌>>=◌, ◌>>◌, gets, or_raise, pure, require}
use motivra.Inspections.Status.{SessionStatus}
use motivra.Inspections.World.{
  Uuid, InspectionSession, Finding, Evidence, Report, ReportVerification, InspectionPayload,
  invalid_input, template_not_found, report_incomplete, Action,
}
use motivra.Inspections.Scope.{InspectionScope}
use motivra.Inspections.Templates.{template_by_id}
use motivra.Inspections.Store.{get_session, update_session_status}
use motivra.Inspections.Store.Records.{list_findings, list_evidence}
use motivra.Inspections.Store.Reports.{insert_report, get_report}
use motivra.Inspections.Report.{
  Formats, select_latest_findings, marshal_findings, marshal_evidence, build_report_input,
  hash_report_input, verify_report,
}
use motivra.Inspections.Report.Checks.{is_ready}
use motivra.Inspections.Service.{
  InspectionsService, max_notes_length, publish, guard_actor, legal_move,
}

unfoldable pub check_readiness :
    InspectionsService → InspectionSession → InspectionScope → Action (Unit {0})
unfolding template_by_id list_findings list_evidence is_ready
check_readiness s sess scope = do
  template ← or_raise (template_by_id s.template_id sess.template_id) template_not_found
  findings ← list_findings sess.id scope
  evidence ← list_evidence sess.id scope
  require (is_ready template findings evidence) report_incomplete

unfoldable pub submit :
    InspectionsService → Uuid → Uuid → InspectionScope → Action InspectionSession
unfolding get_session guard_actor legal_move check_readiness update_session_status list_findings
    list_evidence publish select_latest_findings bytes
submit s id actor scope = do
  sess ← get_session id scope
  guard_actor sess actor scope
  legal_move sess.status SessionStatus.submitted
  check_readiness s sess scope
  update_session_status id sess.status SessionStatus.submitted (some actor)
      (bytes "inspection submitted")
  updated ← get_session id scope
  findings ← list_findings id scope
  evidence ← list_evidence id scope
  publish s id actor updated.tenant_id (
      InspectionPayload.session_submitted id updated.inspector_id
        (length (select_latest_findings findings)) (length evidence) updated.vehicle_id
        updated.job_id)
  pure updated

-- ReportVersionInitial
abbrev pub report_version_initial : ℕ
report_version_initial = 1

unfoldable pub assemble_report :
    Formats → InspectionSession → List Finding → List Evidence → Uuid → Text → Report
unfolding select_latest_findings marshal_findings marshal_evidence build_report_input
    hash_report_input
assemble_report p sess findings evidence actor notes =
    let selected = select_latest_findings findings in
    record {
      id = 0;
      session_id = sess.id;
      version = report_version_initial;
      vehicle_id = sess.vehicle_id;
      job_id = sess.job_id;
      inspector_id = sess.inspector_id;
      template_id = sess.template_id;
      template_name = sess.template_name;
      template_version = sess.template_version;
      findings_snapshot = marshal_findings p selected;
      evidence_snapshot = marshal_evidence p evidence;
      findings_count = length selected;
      evidence_count = length evidence;
      content_hash =
          hash_report_input p (build_report_input p sess selected evidence report_version_initial);
      issued_by = some actor;
      notes = notes;
      created_at = 0;
    }

-- IssueReport after the session was found to be submitted.
unfoldable pub issue_of :
    InspectionsService → Uuid → Uuid → Text → InspectionScope → InspectionSession → Action Report
unfolding template_by_id list_findings list_evidence is_ready assemble_report insert_report publish
issue_of s id actor notes scope sess = do
  template ← or_raise (template_by_id s.template_id sess.template_id) template_not_found
  findings ← list_findings id scope
  evidence ← list_evidence id scope
  require (is_ready template findings evidence) report_incomplete
  require (leb (length notes) max_notes_length) invalid_input
  report ← insert_report s.jsonb (assemble_report s.formats sess findings evidence actor notes)
  publish s report.id actor sess.tenant_id (
      InspectionPayload.report_issued sess.id report.id report.version report.content_hash
        report.inspector_id report.findings_count report.evidence_count report.template_version)
  pure report

unfoldable pub issue_report :
    InspectionsService → Uuid → Uuid → Text → InspectionScope → Action Report
unfolding get_session guard_actor legal_move issue_of
issue_report s id actor notes scope = do
  sess ← get_session id scope
  guard_actor sess actor scope
  legal_move sess.status SessionStatus.report_available
  issue_of s id actor notes scope sess

unfoldable pub session_report : Uuid → Option ℕ → InspectionScope → Action Report
unfolding get_session get_report
session_report id version scope = do get_session id scope; get_report id version scope

unfoldable pub verify_session_report :
    InspectionsService → Uuid → Option ℕ → InspectionScope → Action ReportVerification
unfolding get_session get_report template_by_id list_findings list_evidence verify_report
verify_session_report s id version scope = do
  sess ← get_session id scope
  report ← get_report id version scope
  template ← or_raise (template_by_id s.template_id sess.template_id) template_not_found
  findings ← list_findings id scope
  evidence ← list_evidence id scope
  now ← gets (λ w. w.clock)
  pure (verify_report s.formats template sess findings evidence report now)
