-- ===== src/Inspections/Sealed/Reads.antt =====
-- What the reads of a session give that was submitted.
use motivra.Prelude.{ℕ, ◌≡◌, refl, ap, ◌∙◌, true, List, Option, none, some, arith, nat_eq}
use motivra.Prelude.Text.{Text}
use motivra.Prelude.Order.{order_by}
use motivra.Prelude.Exec.{Result, ok, err, raise}
use motivra.Prelude.Exec.Runs.{
  Returns, bind-Returns, pure-Returns, find_or_raise-Returns, gets-Returns, require-Returns,
  Steps-Returns,
}
use motivra.Inspections.Status.{SessionStatus, SessionConflict, can_transition_session}
use motivra.Inspections.World.{Uuid, InspectionSession, Finding, Evidence, InspectionWorld}
use motivra.Inspections.Scope.{InspectionScope, session_visible}
use motivra.Inspections.Store.{find_session, scoped_session, get_session}
use motivra.Inspections.Store.Records.{
  rows_visible, older_finding, older_evidence, findings_of, evidence_of, list_findings,
  list_evidence,
}
use motivra.Inspections.Service.{guard_actor, moved, legal_move}
use motivra.Inspections.Evolution.Service.{list_findings-Calm, list_evidence-Calm}
use motivra.Inspections.Sealed.{Frozen, evolve-Frozen}

pub scoped-some :
    (scope : InspectionScope) (found : Option InspectionSession) (s : InspectionSession)
    → scoped_session scope found ≡ some s
    → (found ≡ some s) × (session_visible scope s ≡ true)
unfolding scoped_session
scoped-some scope none s h = ground (arith, h)
scoped-some scope (some x) s h = ground (arith, h)

-- A session shows by columns that do not change.
pub Frozen-visible :
    (scope : InspectionScope) (id : Uuid) (sess : InspectionSession) (fs : List Finding)
    (es : List Evidence) (w : InspectionWorld)
    → session_visible scope sess ≡ true
    → (h : Frozen id sess fs es w) → session_visible scope h.row ≡ true
unfolding session_visible
Frozen-visible scope id sess fs es w shown h = ap (session_visible scope) h.same ∙ shown

pub rows-visible :
    (scope : InspectionScope) (id : Uuid) (sess : InspectionSession) (fs : List Finding)
    (es : List Evidence) (w : InspectionWorld)
    → session_visible scope sess ≡ true
    → Frozen id sess fs es w
    → rows_visible scope id w.sessions ≡ true
unfolding rows_visible scoped_session
rows-visible scope id sess fs es w shown h =
    ground (arith, h.found, Frozen-visible scope id sess fs es w shown h)

pub get_session-Returns :
    (id : Uuid) (scope : InspectionScope) (w : InspectionWorld) (s : InspectionSession)
    (t : InspectionWorld)
    → Returns (get_session id scope) w s t
    → (find_session id t.sessions ≡ some s) × (session_visible scope s ≡ true)
unfolding get_session
get_session-Returns id scope w s t r =
    let a = bind-Returns _ _ w s t r in
    let b = bind-Returns _ _ a.between s t a.second in
    let f = find_or_raise-Returns _ _ b.between s t b.second in
    scoped-some scope (find_session id t.sessions) s
      (ap (λ v. scoped_session scope (find_session id v.sessions)) f.1 ∙ f.0)

pub legal_move-Returns :
    (from to : SessionStatus) (w : InspectionWorld) (u : Unit {0}) (t : InspectionWorld)
    → Returns (legal_move from to) w u t
    → (can_transition_session from to ≡ ok tt) × (t ≡ w)
unfolding legal_move raise
legal_move-Returns from to w u t r = go (can_transition_session from to) refl r
  where
    go :
        (m : Result SessionConflict (Unit {0}))
        → can_transition_session from to ≡ m
        → Returns (moved m) w u t
        → (can_transition_session from to ≡ ok tt) × (t ≡ w)
    go (ok v) q h = (q, (pure-Returns _ w u t h).1)
    go (err e) q h = ground (arith, h)

pub guard_actor-Returns :
    (s : InspectionSession) (actor : Uuid) (scope : InspectionScope) (w : InspectionWorld)
    (u : Unit {0}) (t : InspectionWorld)
    → Returns (guard_actor s actor scope) w u t
    → t ≡ w
unfolding guard_actor
guard_actor-Returns s actor scope w u t r = (require-Returns _ _ w u t r).1

-- A report is issued of a submitted session.
pub available_from_submitted :
    (from : SessionStatus)
    → can_transition_session from SessionStatus.report_available ≡ ok tt
    → from ≡ SessionStatus.submitted
unfolding can_transition_session
available_from_submitted from h = ground (arith, h)

-- What a read of the rows of a frozen session gives.
pub list_findings-Frozen :
    (name : Text → ℕ → Uuid) (scope : InspectionScope) (id : Uuid) (sess : InspectionSession)
    (fs : List Finding) (es : List Evidence) (w : InspectionWorld) (xs : List Finding)
    (t : InspectionWorld)
    → session_visible scope sess ≡ true
    → Frozen id sess fs es w
    → Returns (list_findings id scope) w xs t
    → (xs ≡ order_by older_finding fs) × Frozen id sess fs es t
unfolding list_findings
list_findings-Frozen name scope id sess fs es w xs t shown h r =
    let after : Frozen id sess fs es t =
      evolve-Frozen name id sess fs es w t
        (Steps-Returns _ w xs t (list_findings-Calm name id scope) r) h in
    let fitted = bind-Returns _ _ w xs t r in
    let a = bind-Returns _ _ fitted.between xs t fitted.second in
    let g = gets-Returns _ a.between xs t a.second in
    let shows : rows_visible scope id a.between.sessions ≡ true =
      rw (← g.1) (rows-visible scope id sess fs es t shown after) in
    let rows : findings_of id a.between.findings ≡ fs = rw (← g.1) after.findings in
    (ground (arith, g.0, shows, rows), after)

pub list_evidence-Frozen :
    (name : Text → ℕ → Uuid) (scope : InspectionScope) (id : Uuid) (sess : InspectionSession)
    (fs : List Finding) (es : List Evidence) (w : InspectionWorld) (xs : List Evidence)
    (t : InspectionWorld)
    → session_visible scope sess ≡ true
    → Frozen id sess fs es w
    → Returns (list_evidence id scope) w xs t
    → (xs ≡ order_by older_evidence es) × Frozen id sess fs es t
unfolding list_evidence
list_evidence-Frozen name scope id sess fs es w xs t shown h r =
    let after : Frozen id sess fs es t =
      evolve-Frozen name id sess fs es w t
        (Steps-Returns _ w xs t (list_evidence-Calm name id scope) r) h in
    let fitted = bind-Returns _ _ w xs t r in
    let a = bind-Returns _ _ fitted.between xs t fitted.second in
    let g = gets-Returns _ a.between xs t a.second in
    let shows : rows_visible scope id a.between.sessions ≡ true =
      rw (← g.1) (rows-visible scope id sess fs es t shown after) in
    let rows : evidence_of id a.between.evidence ≡ es = rw (← g.1) after.evidence in
    (ground (arith, g.0, shows, rows), after)
