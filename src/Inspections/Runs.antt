-- ===== src/Inspections/Runs.antt =====
-- The reads of the inspections service in a state where the database answers.
use motivra.Prelude.{ℕ, ◌≡◌, ap, ◌∙◌, true, List, [], none, some, if◌then◌else◌}
use motivra.Prelude.Order.{order_by}
use motivra.Prelude.Exec.{ok, gets}
use motivra.Prelude.Exec.Runs.{Returns, bind-runs, find_or_raise-runs, require-runs}
use motivra.Inspections.World.{
  Uuid, InspectionSession, Finding, Evidence, Report, InspectionError, InspectionWorld, round_trip,
  failing,
}
use motivra.Inspections.Scope.{arguments_fit, InspectionScope}
use motivra.Inspections.Store.{find_session, scoped_session, get_session}
use motivra.Inspections.Store.Records.{
  rows_visible, older_finding, older_evidence, findings_of, evidence_of, list_findings,
  list_evidence,
}
use motivra.Inspections.Store.Reports.{report_of, get_report}

-- In a state where the database answers.
module _ (w : InspectionWorld) (healthy : w.faults ≡ []) where
  pub trip-runs : (e : InspectionError) → Returns (round_trip e) w tt w
  unfolding round_trip
  trip-runs e = ap (λ fs. failing fs e w) healthy

  pub get_session-runs :
      (id : Uuid) (scope : InspectionScope) (s : InspectionSession)
      → arguments_fit scope ≡ true
      → scoped_session scope (find_session id w.sessions) ≡ some s
      → Returns (get_session id scope) w s w
  unfolding get_session
  get_session-runs id scope s fit found =
      bind-runs _ _ w tt w (trip-runs _)
      ∙ bind-runs _ _ w tt w (require-runs _ _ w fit)
      ∙ find_or_raise-runs _ _ w s found

  pub get_report-runs :
      (id version : ℕ) (scope : InspectionScope) (r : Report)
      → arguments_fit scope ≡ true
      → rows_visible scope id w.sessions ≡ true
      → report_of id version w.reports ≡ some r
      → Returns (get_report id (some version) scope) w r w
  unfolding get_report
  get_report-runs id version scope r fit shown found =
      bind-runs _ _ w tt w (trip-runs _)
      ∙ bind-runs _ _ w tt w (require-runs _ _ w fit)
      ∙ find_or_raise-runs _ _ w r
          (ap (λ b. if b then report_of id version w.reports else none) shown ∙ found)

  pub list_findings-runs :
      (id : Uuid) (scope : InspectionScope) (fs : List Finding)
      → arguments_fit scope ≡ true
      → rows_visible scope id w.sessions ≡ true
      → findings_of id w.findings ≡ fs
      → Returns (list_findings id scope) w (order_by older_finding fs) w
  unfolding list_findings gets
  list_findings-runs id scope fs fit shown rows =
      bind-runs _ _ w tt w (trip-runs _)
      ∙ bind-runs _ _ w tt w (require-runs _ _ w fit)
      ∙ ap (λ xs. (ok xs, w))
          (ap (λ b. if b then order_by older_finding (findings_of id w.findings) else []) shown
            ∙ ap (order_by older_finding) rows)

  pub list_evidence-runs :
      (id : Uuid) (scope : InspectionScope) (es : List Evidence)
      → arguments_fit scope ≡ true
      → rows_visible scope id w.sessions ≡ true
      → evidence_of id w.evidence ≡ es
      → Returns (list_evidence id scope) w (order_by older_evidence es) w
  unfolding list_evidence gets
  list_evidence-runs id scope es fit shown rows =
      bind-runs _ _ w tt w (trip-runs _)
      ∙ bind-runs _ _ w tt w (require-runs _ _ w fit)
      ∙ ap (λ xs. (ok xs, w))
          (ap (λ b. if b then order_by older_evidence (evidence_of id w.evidence) else []) shown
            ∙ ap (order_by older_evidence) rows)
