-- ===== src/Inspections/Verified.antt =====
-- The verification of a report that was issued.
use motivra.Prelude.{ℕ, ◌≡◌, refl, sym, ap, ◌∙◌, Bool, true, ◌&&◌, List, [], some, arith}
use motivra.Prelude.Text.{Text, text_eq, text_eq_refl}
use motivra.Prelude.Order.{order_by}
use motivra.Prelude.Exec.{ok, pure, gets, or_raise}
use motivra.Prelude.Exec.Runs.{Returns, bind-runs}
use motivra.Inspections.World.{
  Uuid, Template, InspectionSession, Finding, Evidence, Report, ReportVerification, InspectionWorld,
  template_not_found,
}
use motivra.Inspections.Scope.{arguments_fit, InspectionScope, session_visible}
use motivra.Inspections.Templates.{template_registry, template_by_id}
use motivra.Inspections.Store.{find_session, scoped_session}
use motivra.Inspections.Store.Records.{older_finding, older_evidence}
use motivra.Inspections.Store.Reports.{stored_report, report_of}
use motivra.Inspections.Report.{
  Formats, select_latest_findings, build_report_input, hash_report_input, template_matches,
  verify_report,
}
use motivra.Inspections.Service.{InspectionsService}
use motivra.Inspections.Service.Reports.{assemble_report, issue_report, verify_session_report}
use motivra.Inspections.Evolution.{DistinctIds, Templated, Evolving}
use motivra.Inspections.Evolution.History.{InspectionCall, inspection_history, history-Evolving}
use motivra.Inspections.Evolution.Service.{issue_report-Calm}
use motivra.Inspections.Sealed.{Frozen, evolve-Frozen}
use motivra.Inspections.Issued.{issue_report-Issued}
use motivra.Inspections.Sealed.Reads.{scoped-some, rows-visible}
use motivra.Inspections.Inserted.{Inserted}
use motivra.Prelude.Exec.Runs.{Steps-Returns}
use motivra.Inspections.Runs.{
  get_session-runs, get_report-runs, list_findings-runs, list_evidence-runs,
}

-- The canonical text reads the columns that do not change.
Frozen-input :
    (p : Formats) (id : Uuid) (sess : InspectionSession) (fs : List Finding) (es : List Evidence)
    (w : InspectionWorld) (h : Frozen id sess fs es w) (xs : List Finding) (ys : List Evidence)
    (version : ℕ)
    → build_report_input p h.row xs ys version ≡ build_report_input p sess xs ys version
unfolding build_report_input
Frozen-input p id sess fs es w h xs ys version =
    ap (λ s. build_report_input p s xs ys version) h.same

both_match : (a f e b : Bool) → a ≡ true → b ≡ true → (a && (f && (e && b))) ≡ (f && e)
both_match a f e b h k = ground (arith, h, k)

-- What the verification finds: the digest and the template are right, and the snapshots are compared
-- with what the database gives back.
record Checked (jsonb : Text → Text) (r : Report) (v : ReportVerification) : Type 0 where
  hash : v.hash_match ≡ true
  template : v.template_match ≡ true
  verified : v.verified ≡ (
      text_eq r.findings_snapshot (jsonb r.findings_snapshot)
      && text_eq r.evidence_snapshot (jsonb r.evidence_snapshot))

verify_report-Checked :
    (p : Formats) (jsonb : Text → Text) (id : Uuid) (sess : InspectionSession) (fs : List Finding)
    (es : List Evidence) (w : InspectionWorld) (h : Frozen id sess fs es w) (t : Template)
    (xs : List Finding) (ys : List Evidence) (actor : Uuid) (notes : Text) (rid then_at now : ℕ)
    → template_matches t h.row ≡ true
    → Checked jsonb (assemble_report p sess xs ys actor notes) (
        verify_report p t h.row xs ys
          (stored_report jsonb (assemble_report p sess xs ys actor notes) rid then_at)
          now)
unfolding verify_report assemble_report
verify_report-Checked p jsonb id sess fs es w h t xs ys actor notes rid then_at now matches =
    record { hash = same_hash; template = matches; verified = both_match _ _ _ _ same_hash matches }
  where
    same_hash :
        text_eq
          (hash_report_input p (build_report_input p h.row (select_latest_findings xs) ys 1))
          (hash_report_input p (build_report_input p sess (select_latest_findings xs) ys 1))
        ≡ true
    same_hash =
        ap
          (λ input.
            text_eq (hash_report_input p input)
              (hash_report_input p (build_report_input p sess (select_latest_findings xs) ys 1)))
          (Frozen-input p id sess fs es w h (select_latest_findings xs) ys 1)
        ∙ text_eq_refl _

-- A run of Verify on a report that stands in the table.
verify-runs :
    (s : InspectionsService) (id : Uuid) (sess : InspectionSession) (fs : List Finding)
    (es : List Evidence) (w : InspectionWorld) (reader : InspectionScope) (x : InspectionSession)
    (t : Template) (r : Report)
    → w.faults ≡ []
    → arguments_fit reader ≡ true
    → Frozen id sess fs es w
    → scoped_session reader (find_session id w.sessions) ≡ some x
    → session_visible reader sess ≡ true
    → template_by_id s.template_id x.template_id ≡ some t
    → report_of id 1 w.reports ≡ some r
    → Returns
        (verify_session_report s id (some 1) reader)
        w
        (verify_report s.formats t x
          (order_by older_finding fs)
          (order_by older_evidence es)
          r
          w.clock)
        w
unfolding verify_session_report or_raise gets pure
verify-runs s id sess fs es w reader x t r healthy fit frozen shown visible known row =
    let rows = rows-visible reader id sess fs es w visible frozen in
    bind-runs _ _ w x w (get_session-runs w healthy id reader x fit shown)
    ∙ bind-runs _ _ w r w (get_report-runs w healthy id 1 reader r fit rows row)
    ∙ bind-runs _ _ w t w (ap (λ o. or_raise o template_not_found w) known)
    ∙ bind-runs _ _ w (order_by older_finding fs) w
        (list_findings-runs w healthy id reader fs fit rows frozen.findings)
    ∙ bind-runs _ _ w (order_by older_evidence es) w
        (list_evidence-runs w healthy id reader es fit rows frozen.evidence)
    ∙ bind-runs _ _ w w.clock w refl

issued_columns :
    (jsonb : Text → Text) (a r : Report) (t : InspectionWorld)
    → Inserted jsonb a r t
    → (r.findings_snapshot ≡ a.findings_snapshot) × (r.evidence_snapshot ≡ a.evidence_snapshot)
issued_columns jsonb a r t i = (
  ap (λ (x : Report). x.findings_snapshot) i.answer,
  ap (λ (x : Report). x.evidence_snapshot) i.answer,
)

row-visible :
    (scope : InspectionScope) (id : Uuid) (sess : InspectionSession) (fs : List Finding)
    (es : List Evidence) (w : InspectionWorld) (h : Frozen id sess fs es w)
    → session_visible scope h.row ≡ true
    → session_visible scope sess ≡ true
unfolding session_visible
row-visible scope id sess fs es w h shown = sym (ap (session_visible scope) h.same) ∙ shown

same_columns :
    (jsonb : Text → Text) (a b c d : Text)
    → a ≡ b
    → c ≡ d
    → (text_eq a (jsonb a) && text_eq c (jsonb c)) ≡ (text_eq b (jsonb b) && text_eq d (jsonb d))
same_columns jsonb a b c d e f = rw (e, f) refl

evolve-Inserted :
    (name : Text → ℕ → Uuid) (jsonb : Text → Text) (a r : Report) (v w : InspectionWorld)
    → Evolving name v w
    → Inserted jsonb a r v
    → Inserted jsonb a r w
evolve-Inserted name jsonb a r v w e i = record {
  id = i.id;
  now = i.now;
  answer = i.answer;
  row = e.reports _ _ _ i.row;
}

-- The report of a frozen session, in a state where it stands in the table.
stored-verified :
    (s : InspectionsService) (id : Uuid) (sess : InspectionSession) (fs : List Finding)
    (es : List Evidence) (actor : Uuid) (notes : Text) (r : Report) (w : InspectionWorld)
    (reader : InspectionScope) (t : Template) (h : Frozen id sess fs es w)
    → w.faults ≡ []
    → arguments_fit reader ≡ true
    → sess.id ≡ id
    → session_visible reader sess ≡ true
    → scoped_session reader (find_session id w.sessions) ≡ some h.row
    → template_by_id s.template_id h.row.template_id ≡ some t
    → template_matches t h.row ≡ true
    → Inserted s.jsonb
        (assemble_report s.formats sess
          (order_by older_finding fs)
          (order_by older_evidence es)
          actor
          notes)
        r
        w
    → (v : ReportVerification) × (verify_session_report s id (some 1) reader w ≡ (ok v, w))
      × (v.hash_match ≡ true)
      × (v.template_match ≡ true)
      × (v.verified ≡ (
          text_eq r.findings_snapshot (s.jsonb r.findings_snapshot)
          && text_eq r.evidence_snapshot (s.jsonb r.evidence_snapshot)))
unfolding assemble_report
stored-verified s id sess fs es actor notes r w reader t h healthy fit own visible shown known
      matches i =
    let p = s.formats in
    let fs' = order_by older_finding fs in
    let es' = order_by older_evidence es in
    let c =
      verify_report-Checked p s.jsonb id sess fs es w h t fs' es' actor notes i.id i.now w.clock
        matches in
    let columns = issued_columns s.jsonb (assemble_report p sess fs' es' actor notes) r w i in
    (
      verify_report p t h.row fs' es'
          (stored_report s.jsonb (assemble_report p sess fs' es' actor notes) i.id i.now) w.clock,
      verify-runs s id sess fs es w reader h.row t _ healthy fit h shown visible known
          (ap (λ j. report_of j 1 w.reports) (sym own) ∙ i.row),
      c.hash,
      c.template,
      c.verified ∙ same_columns s.jsonb _ _ _ _ (sym columns.0) (sym columns.1),
    )

-- A report that IssueReport returned is verified as follows, after any history of calls, in a state where
-- the database answers, by any reader who sees the session and whose scope gives its statements as many
-- values as placeholders (it is unrestricted, of a tenant or zero): the digest that is computed anew from
-- the tables is the one of the report, the template is the one of the session, and the report is verified
-- exactly when the database gives both snapshots back as the texts that they were. The templates have
-- different identifiers, and before the report was issued every session carried the name and the version
-- of its template.
pub issue_report-verified :
    (s : InspectionsService) (id actor : Uuid) (notes : Text) (scope : InspectionScope)
    (w : InspectionWorld) (r : Report) (t : InspectionWorld) (cs : List InspectionCall)
    (reader : InspectionScope) (x : InspectionSession)
    → DistinctIds (template_registry s.template_id)
    → Templated s.template_id w.sessions
    → Returns (issue_report s id actor notes scope) w r t
    → (inspection_history s cs t).faults ≡ []
    → arguments_fit reader ≡ true
    → scoped_session reader (find_session id (inspection_history s cs t).sessions) ≡ some x
    → (v : ReportVerification) × (verify_session_report s id
          (some 1)
          reader
          (inspection_history s cs t)
        ≡ (ok v, inspection_history s cs t))
      × (v.hash_match ≡ true)
      × (v.template_match ≡ true)
      × (v.verified ≡ (
          text_eq r.findings_snapshot (s.jsonb r.findings_snapshot)
          && text_eq r.evidence_snapshot (s.jsonb r.evidence_snapshot)))
issue_report-verified s id actor notes scope w r t cs reader x distinct templated run healthy fit
      shown =
    let i = issue_report-Issued s id actor notes scope w r t run in
    let end = inspection_history s cs t in
    let later : Evolving s.template_id t end = history-Evolving s distinct cs t in
    let frozen : Frozen id i.sess i.fs i.es end =
      evolve-Frozen s.template_id id i.sess i.fs i.es t end later i.frozen in
    let (found, visible) = scoped-some reader (find_session id end.sessions) x shown in
    let row : frozen.row ≡ x = ground (arith, frozen.found, found) in
    let issuing : Evolving s.template_id w t =
      Steps-Returns _ w r t (issue_report-Calm s.template_id s id actor notes scope) run in
    let (template, known, matches) =
      later.templated (issuing.templated templated) id frozen.row frozen.found in
    stored-verified s id i.sess i.fs i.es i.actor i.notes r end reader template frozen healthy fit
      i.own
      (row-visible reader id i.sess i.fs i.es end frozen
        (ap (session_visible reader) row ∙ visible))
      (shown ∙ ap some (sym row)) known matches
      (evolve-Inserted s.template_id s.jsonb _ r t end later i.inserted)
