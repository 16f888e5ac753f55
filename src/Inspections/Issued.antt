-- ===== src/Inspections/Issued.antt =====
-- What an issued report leaves in the tables.
use motivra.Prelude.{◌≡◌, refl, ap, ◌∙◌, true, List, nat_eq}
use motivra.Prelude.Text.{Text}
use motivra.Prelude.Order.{order_by}
use motivra.Prelude.Exec.{◌>>=◌, pure}
use motivra.Prelude.Exec.Runs.{
  Returns, bind-Returns, pure-Returns, or_raise-Returns, require-Returns, Steps-Returns,
}
use motivra.Prelude.Table.{find_key}
use motivra.Inspections.World.{
  Uuid, InspectionSession, Finding, Evidence, Report, InspectionPayload, InspectionWorld,
}
use motivra.Inspections.Scope.{InspectionScope, session_visible}
use motivra.Inspections.Store.{session_id}
use motivra.Inspections.Store.Records.{older_finding, older_evidence, findings_of, evidence_of}
use motivra.Inspections.Report.{Formats}
use motivra.Inspections.Service.{InspectionsService, publish}
use motivra.Inspections.Service.Reports.{assemble_report, issue_of, issue_report}
use motivra.Inspections.Evolution.{is_sealed, Evolving}
use motivra.Inspections.Evolution.Records.{insert_report-Calm}
use motivra.Inspections.Evolution.Service.{publish-Calm}
use motivra.Inspections.Sealed.{Frozen, evolve-Frozen}
use motivra.Inspections.Inserted.{Inserted, insert_report-Returns}
use motivra.Inspections.Sealed.Reads.{
  get_session-Returns, legal_move-Returns, guard_actor-Returns, available_from_submitted,
  list_findings-Frozen, list_evidence-Frozen,
}

-- A report was issued of the frozen session, and stands in the table.
pub record Issued (s : InspectionsService) (id : Uuid) (r : Report) (t : InspectionWorld)
    : Type 0 where
  pub sess : InspectionSession
  pub fs : List Finding
  pub es : List Evidence
  pub actor : Uuid
  pub notes : Text
  pub own : sess.id ≡ id
  pub frozen : Frozen id sess fs es t
  pub inserted :
      Inserted s.jsonb
        (assemble_report s.formats sess
          (order_by older_finding fs)
          (order_by older_evidence es)
          actor
          notes)
        r
        t

-- The rows that were read, under another name.
reread :
    (jsonb : Text → Text) (p : Formats) (sess : InspectionSession) (xs xs' : List Finding)
    (ys ys' : List Evidence) (actor : Uuid) (notes : Text) (r : Report) (t : InspectionWorld)
    → xs ≡ xs'
    → ys ≡ ys'
    → Inserted jsonb (assemble_report p sess xs ys actor notes) r t
    → Inserted jsonb (assemble_report p sess xs' ys' actor notes) r t
reread jsonb p sess xs xs' ys ys' actor notes r t e f h = rw (← e, ← f) h

-- The event changes no row.
published :
    (s : InspectionsService) (id : Uuid) (sess : InspectionSession) (fs : List Finding)
    (es : List Evidence) (actor : Uuid) (notes : Text) (x : Report) (w : InspectionWorld)
    (r : Report) (t : InspectionWorld)
    → sess.id ≡ id
    → Frozen id sess fs es w
    → Inserted s.jsonb
        (assemble_report s.formats sess
          (order_by older_finding fs)
          (order_by older_evidence es)
          actor
          notes)
        x
        w
    → Returns
        (publish s x.id actor sess.tenant_id (
            InspectionPayload.report_issued sess.id x.id x.version x.content_hash x.inspector_id
              x.findings_count x.evidence_count x.template_version)
          >>= λ _. pure x)
        w
        r
        t
    → Issued s id r t
published s id sess fs es actor notes x w r t own frozen row run =
    let a = bind-Returns _ _ w r t run in
    let end = pure-Returns _ a.between r t a.second in
    let later : Evolving s.template_id w t =
      rw (end.1)
        (Steps-Returns _ w a.value a.between (publish-Calm s.template_id s _ actor _ _) a.first) in
    record {
      sess = sess;
      fs = fs;
      es = es;
      actor = actor;
      notes = notes;
      own = own;
      frozen = evolve-Frozen s.template_id id sess fs es w t later frozen;
      inserted = record {
        id = row.id;
        now = row.now;
        answer = end.0 ∙ row.answer;
        row = later.reports _ _ _ row.row;
      };
    }

issue_of-Issued :
    (s : InspectionsService) (id actor : Uuid) (notes : Text) (scope : InspectionScope)
    (sess : InspectionSession) (fs : List Finding) (es : List Evidence) (w : InspectionWorld)
    (r : Report) (t : InspectionWorld)
    → session_visible scope sess ≡ true
    → sess.id ≡ id
    → Frozen id sess fs es w
    → Returns (issue_of s id actor notes scope sess) w r t
    → Issued s id r t
unfolding issue_of
issue_of-Issued s id actor notes scope sess fs es w r t shown own frozen run =
    let name = s.template_id in
    let a = bind-Returns _ _ w r t run in
    let b = bind-Returns _ _ a.between r t a.second in
    let c = bind-Returns _ _ b.between r t b.second in
    let d = bind-Returns _ _ c.between r t c.second in
    let e = bind-Returns _ _ d.between r t d.second in
    let f = bind-Returns _ _ e.between r t e.second in
    let at_a : Frozen id sess fs es a.between =
      rw ((or_raise-Returns _ _ w a.value a.between a.first).1) frozen in
    let (read, at_b) =
      list_findings-Frozen name scope id sess fs es a.between b.value b.between shown at_a
        b.first in
    let (seen, at_c) =
      list_evidence-Frozen name scope id sess fs es b.between c.value c.between shown at_b
        c.first in
    let at_e : Frozen id sess fs es e.between =
      rw
        (
          (require-Returns _ _ d.between e.value e.between e.first).1,
          (require-Returns _ _ c.between d.value d.between d.first).1,
        )
        at_c in
    let at_f : Frozen id sess fs es f.between =
      evolve-Frozen name id sess fs es e.between f.between
        (Steps-Returns _ e.between f.value f.between
          (insert_report-Calm name s.jsonb
            (assemble_report s.formats sess b.value c.value actor notes))
          f.first)
        at_e in
    let row : Inserted s.jsonb
        (assemble_report s.formats sess (order_by older_finding fs) (order_by older_evidence es)
          actor notes)
        f.value f.between =
      reread s.jsonb s.formats sess b.value _ c.value _ actor notes f.value f.between read seen
        (insert_report-Returns s.jsonb _ e.between f.value f.between f.first) in
    published s id sess fs es actor notes f.value f.between r t own at_f row f.second

pub issue_report-Issued :
    (s : InspectionsService) (id actor : Uuid) (notes : Text) (scope : InspectionScope)
    (w : InspectionWorld) (r : Report) (t : InspectionWorld)
    → Returns (issue_report s id actor notes scope) w r t
    → Issued s id r t
unfolding issue_report
issue_report-Issued s id actor notes scope w r t run =
    let a = bind-Returns _ _ w r t run in
    let b = bind-Returns _ _ a.between r t a.second in
    let c = bind-Returns _ _ b.between r t b.second in
    let sess = a.value in
    let (found, shown) = get_session-Returns id scope w sess a.between a.first in
    let legal = legal_move-Returns _ _ b.between c.value c.between c.first in
    let at_a : Frozen id sess (findings_of id a.between.findings)
        (evidence_of id a.between.evidence) a.between =
      record {
        row = sess;
        found = found;
        sealed = ap is_sealed (available_from_submitted sess.status legal.0);
        same = refl;
        findings = refl;
        evidence = refl;
      } in
    let at_c : Frozen id sess (findings_of id a.between.findings)
        (evidence_of id a.between.evidence) c.between =
      rw (legal.1, guard_actor-Returns sess actor scope a.between b.value b.between b.first) at_a in
    issue_of-Issued s id actor notes scope sess _ _ c.between r t shown
      (find_key session_id id a.between.sessions sess found) at_c c.second
