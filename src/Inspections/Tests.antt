-- ===== src/Inspections/Tests.antt =====
-- Runs of the inspections service, and the theorems at them.
use motivra.Prelude.{
  ◌⊎◌, inl, inr, sym, ap, ◌∙◌, ℕ, zero, suc, ◌+◌, ◌≡◌, ◌≢◌, ◌↔◌, refl, true, false, ◌&&◌, ◌||◌,
  ◌==◌, List, [], ◌∷◌, none, some, arith, length, nat_eq,
}
use motivra.Prelude.Text.{Text, bytes, text_eq, text-Eq}
use motivra.Prelude.Table.{find, update}
use motivra.Prelude.Order.{where_rows, any_row, order_by}
use motivra.Prelude.Exec.{ok, err, ◌>>=◌}
use motivra.Prelude.Exec.Runs.{Returns}
use motivra.Inspections.Status.{SessionStatus}
use motivra.Inspections.World.{
  Uuid, VehicleClass, FindingResult, Severity, EvidenceKind, Template, InspectionSession, Finding,
  Evidence, Report, ReportVerification, not_inspector, session_sealed, InspectionWorld, round_trip,
  own_id,
}
use motivra.Inspections.Scope.{arguments_fit, InspectionScope, is_unrestricted}
use motivra.Inspections.Templates.{template_registry, template_by_id}
use motivra.Inspections.Store.{find_session, scoped_session}
use motivra.Inspections.Report.{Formats, template_matches}
use motivra.Inspections.Report.Checks.{is_ready}
use motivra.Inspections.Service.{InspectionsService, start, record_finding, attach_evidence}
use motivra.Inspections.Service.Reports.{submit, issue_report, verify_session_report}
use motivra.Inspections.Evolution.{DistinctIds, Templated}
use motivra.Inspections.Evolution.History.{InspectionCall, inspection_call, inspection_history}
use motivra.Inspections.Sealed.{Frozen, history-Frozen}
use motivra.Inspections.Verified.{issue_report-verified}
use motivra.Inspections.Readiness.{Reportable, is_ready_iff}
use motivra.Prelude.Among.{Among}
use motivra.Inspections.Refusals.{outsider-not_inspector, sealed-session_sealed}

abbrev repeat : ℕ → ℕ → Text
repeat b zero = []
repeat b (suc n) = b ∷ repeat b n

-- Different names of the registry give different sums.
abbrev sum : Text → ℕ
sum [] = 0
sum (c ∷ s) = c + sum s

abbrev formats : Formats
formats = record {
  uuid_string = λ id. id ∷ [];
  time_string = λ t. t ∷ [];
  sha256_hex = λ s. repeat b'a' 64;
  findings_json = λ fs. repeat b'f' (length fs);
  evidence_json = λ es. repeat b'e' (length es);
}

abbrev service : InspectionsService
service = record {
  has_publisher = true;
  template_id = λ name version. sum name;
  formats = formats;
  jsonb = λ s. s;
}

abbrev operator : InspectionScope
operator = record { tenant_id = none; principal_id = none; explicit_unrestricted = true }

abbrev garage : InspectionScope
garage = record { tenant_id = some 4; principal_id = none; explicit_unrestricted = false }

garage_fits : arguments_fit garage ≡ true
unfolding arguments_fit
garage_fits = refl

operator_fits : arguments_fit operator ≡ true
unfolding arguments_fit
operator_fits = refl

distinct : DistinctIds (template_registry service.template_id)
unfolding template_registry bytes find
distinct = (refl, (refl, (refl, (refl, (refl, (refl, tt))))))

abbrev template_name : Text
template_name = bytes "Motivra Standard Motorcycle Inspection"

-- A submitted session.
abbrev session : InspectionSession
session = record {
  id = 5;
  tenant_id = some 4;
  vehicle_id = some 6;
  job_id = none;
  customer_id = some 8;
  vehicle_class = VehicleClass.motorcycle;
  template_id = sum template_name;
  template_name = template_name;
  template_version = 1;
  inspector_id = 7;
  status = SessionStatus.submitted;
  started_at = some 10;
  submitted_at = some 11;
  reported_at = none;
  created_at = 9;
  updated_at = 11;
}

abbrev finding_of : Uuid → Text → Severity → Finding
finding_of id key severity = record {
  id = id;
  session_id = 5;
  item_key = key;
  result = FindingResult.attention;
  severity = severity;
  notes = [];
  recorded_by = some 7;
  created_at = 10;
}

abbrev findings : List Finding
findings =
    finding_of 20 (bytes "brakes_front") Severity.red
    ∷ finding_of 21 (bytes "brakes_rear") Severity.amber
    ∷ finding_of 22 (bytes "tyres") Severity.amber
    ∷ finding_of 23 (bytes "chain_sprockets") Severity.amber
    ∷ finding_of 24 (bytes "lights_electrical") Severity.amber
    ∷ finding_of 25 (bytes "frame_suspension") Severity.amber
    ∷ finding_of 26 (bytes "odometer_consistency") Severity.amber
    ∷ []

abbrev photo : Evidence
photo = record {
  id = 30;
  session_id = 5;
  finding_id = some 20;
  kind = EvidenceKind.photo;
  content_hash = repeat b'0' 64;
  captured_at = 10;
  captured_by = some 7;
  uploaded = true;
  notes = [];
  created_at = 10;
}

abbrev first_world : InspectionWorld
first_world = record {
  sessions = session ∷ [];
  findings = findings;
  evidence = photo ∷ [];
  reports = [];
  transitions = [];
  outbox = [];
  faults = [];
  next_id = 100;
  clock = 20;
}

only_session :
    (id : Uuid) (s : InspectionSession)
    → find_session id first_world.sessions ≡ some s
    → session ≡ s
unfolding find
only_session id s h = ground (arith, h)

own_template :
    (t : Template) × (template_by_id service.template_id session.template_id ≡ some t)
    × (template_matches t session ≡ true)
unfolding find template_by_id template_registry template_matches bytes text_eq
own_template = (_, refl, refl)

first-Templated : Templated service.template_id first_world.sessions
first-Templated id s h = rw (← only_session id s h) own_template

abbrev issued_world : InspectionWorld
issued_world = (issue_report service 5 7 [] operator first_world).1

abbrev report : Report
report = record {
  id = 100;
  session_id = 5;
  version = 1;
  vehicle_id = some 6;
  job_id = none;
  inspector_id = 7;
  template_id = sum template_name;
  template_name = template_name;
  template_version = 1;
  findings_snapshot = repeat b'f' 7;
  evidence_snapshot = repeat b'e' 1;
  findings_count = 7;
  evidence_count = 1;
  content_hash = repeat b'a' 64;
  issued_by = some 7;
  notes = [];
  created_at = 20;
}

issue_run : Returns (issue_report service 5 7 [] operator) first_world report issued_world
unfolding issue_report ◌>>=◌ find update text_eq bytes where_rows any_row order_by round_trip own_id
issue_run = refl

abbrev later_calls : List InspectionCall
later_calls =
    InspectionCall.record_finding 5 (finding_of 40 (bytes "tyres") Severity.red) 7 operator
    ∷ InspectionCall.issue_report 5 7 [] operator
    ∷ InspectionCall.outside 30 []
    ∷ []

history_healthy : (w : InspectionWorld) → (inspection_history service later_calls w).faults ≡ []
unfolding inspection_history inspection_call
history_healthy w = refl

still_shown :
    scoped_session garage
      (find_session 5 (inspection_history service later_calls issued_world).sessions)
    ≡ some (record session {
      status = SessionStatus.report_available;
      reported_at = some 20;
      updated_at = 20;
    })
unfolding inspection_history inspection_call issue_report record_finding ◌>>=◌ find update text_eq
    bytes where_rows any_row order_by round_trip scoped_session own_id
still_shown = refl

issue_report-verified_example :
    (v : ReportVerification) × (verify_session_report service 5
        (some 1)
        garage
        (inspection_history service later_calls issued_world)
      ≡ (ok v, inspection_history service later_calls issued_world))
    × (v.hash_match ≡ true)
    × (v.template_match ≡ true)
    × (v.verified ≡ (
        text_eq report.findings_snapshot (service.jsonb report.findings_snapshot)
        && text_eq report.evidence_snapshot (service.jsonb report.evidence_snapshot)))
issue_report-verified_example =
    issue_report-verified service 5 7 [] operator first_world report issued_world later_calls garage
      (record session {
        status = SessionStatus.report_available;
        reported_at = some 20;
        updated_at = 20;
      })
      distinct first-Templated issue_run (history_healthy issued_world) garage_fits still_shown

first-Frozen : Frozen 5 session findings (photo ∷ []) first_world
unfolding find where_rows
first-Frozen = record {
  row = session;
  found = refl;
  sealed = refl;
  same = refl;
  findings = refl;
  evidence = refl;
}

history-Frozen_example :
    Frozen 5 session findings (photo ∷ []) (inspection_history service later_calls first_world)
history-Frozen_example =
    history-Frozen service later_calls first_world 5 session findings (photo ∷ []) distinct
      first-Frozen

session_shown : scoped_session operator (find_session 5 first_world.sessions) ≡ some session
unfolding find scoped_session is_unrestricted
session_shown = refl

garage_shown : scoped_session garage (find_session 5 first_world.sessions) ≡ some session
unfolding find scoped_session is_unrestricted
garage_shown = refl

garage_restricted : is_unrestricted garage ≡ false
unfolding is_unrestricted
garage_restricted = refl

operator_allowed : (is_unrestricted operator || 9 == session.inspector_id) ≡ true
unfolding is_unrestricted
operator_allowed = refl

outsider-not_inspector_example :
    (start service 5 8 garage first_world ≡ (err not_inspector, first_world))
    × (record_finding service 5 (finding_of 40 [] Severity.red) 8 garage first_world
        ≡ (err not_inspector, first_world))
    × (attach_evidence 5 photo 8 garage first_world ≡ (err not_inspector, first_world))
    × (submit service 5 8 garage first_world ≡ (err not_inspector, first_world))
    × (issue_report service 5 8 [] garage first_world ≡ (err not_inspector, first_world))
outsider-not_inspector_example =
    outsider-not_inspector first_world refl 5 session garage garage_fits garage_shown service 8
      (finding_of 40 [] Severity.red) photo [] garage_restricted (λ e. omega (arith, e))

sealed-session_sealed_example :
    (record_finding service 5 (finding_of 40 [] Severity.red) 9 operator first_world
      ≡ (err session_sealed, first_world))
    × (attach_evidence 5 photo 9 operator first_world ≡ (err session_sealed, first_world))
sealed-session_sealed_example =
    sealed-session_sealed first_world refl 5 session operator operator_fits session_shown service 9
      (finding_of 40 [] Severity.red) photo operator_allowed (λ e. ground (arith, e))

abbrev template : Template
template = record {
  id = 1;
  vehicle_class = VehicleClass.bus;
  name = [];
  version = 1;
  items = record { key = bytes "tyres"; label = []; required = true } ∷ [];
  active = true;
}

-- A red finding of the tyres that replaces an older one, which had another identifier.
abbrev two_findings : List Finding
two_findings =
    finding_of 19 (bytes "tyres") Severity.green ∷ finding_of 20 (bytes "tyres") Severity.red ∷ []

two_rows :
    (g : Finding)
    → Among g two_findings
    → (g ≡ finding_of 19 (bytes "tyres") Severity.green)
      ⊎ (g ≡ finding_of 20 (bytes "tyres") Severity.red)
two_rows g (inl a) = inl a
two_rows g (inr (inl b)) = inr b
two_rows g (inr (inr c)) = absurd c

two_unique : (g h : Finding) → Among g two_findings → Among h two_findings → g.id ≡ h.id → g ≡ h
two_unique g h a b e = elim (two_rows g a) [
  | inl p ↦ elim (two_rows h b) [
    | inl q ↦ p ∙ sym q
    | inr q ↦
        absurd (different (sym (ap (λ (f : Finding). f.id) p) ∙ e ∙ ap (λ (f : Finding). f.id) q))
  ]
  | inr p ↦ elim (two_rows h b) [
    | inl q ↦
        absurd
          (different (sym (ap (λ (f : Finding). f.id) q) ∙ sym e ∙ ap (λ (f : Finding). f.id) p))
    | inr q ↦ p ∙ sym q
  ]
]
  where
    different : ◌≢◌ {A = ℕ} 19 20
    different e = omega (arith, e)

is_ready_iff_example :
    (is_ready template two_findings (photo ∷ []) ≡ true)
    ↔ Reportable template two_findings (photo ∷ [])
is_ready_iff_example = is_ready_iff template two_findings (photo ∷ []) two_unique

two_ready : is_ready template two_findings (photo ∷ []) ≡ true
unfolding is_ready bytes text_eq order_by where_rows any_row find
two_ready = refl

-- The red finding has no evidence of its own.
not_ready : is_ready template (finding_of 22 (bytes "tyres") Severity.red ∷ []) (photo ∷ []) ≡ false
unfolding is_ready bytes text_eq order_by where_rows any_row find
not_ready = refl
