-- ===== src/Inspections/Service.antt =====
-- backend/inspections/service.go: sessions, findings and evidence. Metrics are left out; a name that
-- derives the identifier of a template, and what the report needs, are parameters of the service.
pub mod Reports
use motivra.Prelude.{
  ℕ, ◌+◌, Bool, true, false, not, ◌&&◌, ◌||◌, List, [], ◌∷◌, Option, none, some, leb, ltb, ◌==◌,
  length, if◌then◌else◌,
}
use motivra.Prelude.Int.{ℤ, pos, negsuc}
use motivra.Prelude.Text.{Text, bytes}
use motivra.Prelude.Order.{any_row}
use motivra.Prelude.Exec.{
  Result, ok, err, ◌>>=◌, ◌>>◌, gets, or_raise, pure, raise, require, check, modify,
}
use motivra.Inspections.Status.{
  SessionStatus, SessionConflict, can_transition_session, is_known_session, session_status_eq,
}
use motivra.Inspections.World.{
  Uuid, nil_uuid, is_vehicle_class, FindingResult, Severity, is_evidence_kind, Template,
  InspectionSession, Finding, Evidence, InspectionPayload, InspectionError, conflict,
  session_sealed, not_inspector, invalid_input, template_not_found, no_active_template,
  publish_failed, InspectionWorld, Action, round_trip, is_some,
}
use motivra.Inspections.Scope.{InspectionScope, is_unrestricted}
use motivra.Inspections.Templates.{template_by_id, active_template_for_class, template_item}
use motivra.Inspections.Store.{
  create_session, get_session, SessionFilter, list_sessions, update_session_status,
}
use motivra.Inspections.Store.Records.{
  known_result, known_severity, insert_finding, list_findings, is_sha256_hex, insert_evidence,
  list_evidence,
}
use motivra.Inspections.Report.{Formats}

pub record InspectionsService : Type 0 where
  pub has_publisher : Bool
  pub template_id : Text → ℕ → Uuid
  pub formats : Formats
  pub jsonb : Text → Text

-- resultSeverityMatrix
abbrev pub is_result_severity_legal : FindingResult → Severity → Bool
is_result_severity_legal FindingResult.pass Severity.green = true
is_result_severity_legal FindingResult.pass Severity.amber = true
is_result_severity_legal FindingResult.fail Severity.amber = true
is_result_severity_legal FindingResult.fail Severity.red = true
is_result_severity_legal FindingResult.attention Severity.amber = true
is_result_severity_legal FindingResult.attention Severity.red = true
is_result_severity_legal FindingResult.not_applicable Severity.green = true
is_result_severity_legal _ _ = false

abbrev pub max_notes_length : ℕ
max_notes_length = 2000

-- 5 minutes
abbrev pub max_captured_at_skew : ℕ
max_captured_at_skew = 300000000000

abbrev pub actor_or_none : Uuid → Option Uuid
actor_or_none id = if id == nil_uuid then none else some id

unfoldable pub publish :
    InspectionsService → Uuid → Uuid → Option Uuid → InspectionPayload → Action (Unit {0})
publish s aggregate_id actor tenant_id payload =
    if s.has_publisher
    then (do
      round_trip publish_failed
      modify (λ w. record w {
        outbox =
            record {
              aggregate_id = aggregate_id;
              tenant_id = tenant_id;
              actor_id = actor_or_none actor;
              payload = payload;
            }
            ∷ w.outbox;
      }))
    else pure tt

unfoldable pub guard_actor : InspectionSession → Uuid → InspectionScope → Action (Unit {0})
unfolding is_unrestricted
guard_actor s actor scope = require (is_unrestricted scope || actor == s.inspector_id) not_inspector

abbrev pub moved : Result SessionConflict (Unit {0}) → Action (Unit {0})
moved (ok u) = pure tt
moved (err e) = raise conflict

unfoldable pub legal_move : SessionStatus → SessionStatus → Action (Unit {0})
unfolding can_transition_session
legal_move from to = moved (can_transition_session from to)

abbrev pub valid_optional_id : Option Uuid → Bool
valid_optional_id none = true
valid_optional_id (some id) = not (id == nil_uuid)

-- The empty text is a status that the caller left out.
abbrev pub is_new_status : SessionStatus → Bool
is_new_status SessionStatus.created = true
is_new_status (SessionStatus.other []) = true
is_new_status _ = false

abbrev pub with_template : Template → InspectionSession → InspectionSession
with_template t s = record s {
  template_id = t.id;
  template_name = t.name;
  template_version = t.version;
  status = SessionStatus.created;
}

unfoldable pub open_session : InspectionsService → InspectionSession → Action InspectionSession
unfolding active_template_for_class create_session publish
open_session s given = do
  require (not (given.inspector_id == nil_uuid)) invalid_input
  require (is_vehicle_class given.vehicle_class) invalid_input
  template ←
      or_raise (active_template_for_class s.template_id given.vehicle_class) no_active_template
  require
      (valid_optional_id given.vehicle_id
        && (valid_optional_id given.job_id && valid_optional_id given.customer_id))
      invalid_input
  require (is_new_status given.status) invalid_input
  created ← create_session (with_template template given)
  publish s created.id created.inspector_id created.tenant_id
      (InspectionPayload.session_created created)
  pure created

unfoldable pub start : InspectionsService → Uuid → Uuid → InspectionScope → Action InspectionSession
unfolding get_session guard_actor legal_move update_session_status publish bytes
start s id actor scope = do
  sess ← get_session id scope
  guard_actor sess actor scope
  legal_move sess.status SessionStatus.in_progress
  update_session_status id sess.status SessionStatus.in_progress (some actor)
      (bytes "inspection started")
  updated ← get_session id scope
  publish s id actor updated.tenant_id
      (InspectionPayload.session_started id updated.inspector_id updated.vehicle_id)
  pure updated

unfoldable pub is_valid_finding : Template → Finding → Bool
unfolding template_item
is_valid_finding t f =
    is_some (template_item t f.item_key)
    && (known_result f.result
        && (known_severity f.severity
            && (is_result_severity_legal f.result f.severity
                && leb (length f.notes) max_notes_length)))

abbrev pub recorded : Finding → Uuid → Uuid → Finding
recorded f session_id actor = record f {
  session_id = session_id;
  recorded_by = if actor == nil_uuid then f.recorded_by else some actor;
}

unfoldable pub record_finding :
    InspectionsService → Uuid → Finding → Uuid → InspectionScope → Action Finding
unfolding get_session guard_actor template_by_id is_valid_finding insert_finding session_status_eq
record_finding s id f actor scope = do
  sess ← get_session id scope
  guard_actor sess actor scope
  require (session_status_eq sess.status SessionStatus.in_progress) session_sealed
  template ← or_raise (template_by_id s.template_id sess.template_id) template_not_found
  require (is_valid_finding template f) invalid_input
  insert_finding (recorded f sess.id actor)

unfoldable pub is_valid_evidence : Evidence → ℕ → Bool
unfolding is_sha256_hex
is_valid_evidence e now =
    is_sha256_hex e.content_hash
    && (is_evidence_kind e.kind
        && (not (e.captured_at == 0)
            && (leb e.captured_at (now + max_captured_at_skew)
                && leb (length e.notes) max_notes_length)))

abbrev pub attached : Evidence → Uuid → Uuid → Evidence
attached e session_id actor = record e {
  session_id = session_id;
  captured_by = if actor == nil_uuid then e.captured_by else some actor;
}

-- The finding of the evidence is one of the session's.
unfoldable pub check_finding : Option Uuid → Uuid → InspectionScope → Action (Unit {0})
unfolding list_findings
check_finding none id scope = pure tt
check_finding (some f) id scope = do
  findings ← list_findings id scope
  require (any_row (λ (x : Finding). x.id == f) findings) invalid_input

unfoldable pub attach_evidence : Uuid → Evidence → Uuid → InspectionScope → Action Evidence
unfolding get_session guard_actor is_valid_evidence check_finding insert_evidence session_status_eq
attach_evidence id e actor scope = do
  sess ← get_session id scope
  guard_actor sess actor scope
  require (session_status_eq sess.status SessionStatus.in_progress) session_sealed
  check (λ w. is_valid_evidence e w.clock) invalid_input
  check_finding e.finding_id sess.id scope
  insert_evidence (attached e sess.id actor)

abbrev pub service_limit : ℤ → ℤ
service_limit (negsuc n) = pos 50
service_limit (pos n) = if n == 0 then pos 50 else if ltb 200 n then pos 200 else pos n

abbrev pub service_offset : ℤ → ℤ
service_offset (negsuc n) = pos 0
service_offset (pos n) = pos n

abbrev pub is_known_filter : Option SessionStatus → Bool
is_known_filter none = true
is_known_filter (some s) = is_known_session s

-- Sessions
unfoldable pub sessions_page :
    InspectionScope → SessionFilter → ℤ → ℤ → Action (List InspectionSession)
unfolding list_sessions is_known_session
sessions_page scope f limit offset = do
  require (is_known_filter f.status) invalid_input
  list_sessions scope f (service_limit limit) (service_offset offset)

-- Findings
unfoldable pub session_findings : Uuid → InspectionScope → Action (List Finding)
unfolding get_session list_findings
session_findings id scope = do get_session id scope; list_findings id scope

-- Evidence
unfoldable pub session_evidence : Uuid → InspectionScope → Action (List Evidence)
unfolding get_session list_evidence
session_evidence id scope = do get_session id scope; list_evidence id scope
