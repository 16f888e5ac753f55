-- ===== src/Inspections/Evolution.antt =====
-- How the inspection tables may change: no session is lost, a session that was submitted keeps its
-- findings, its evidence and its time of submission, and a report stays as it is.
pub mod Writes
pub mod Service
pub mod History
pub mod Records
pub mod Opening
use mathlib.Core.Option
use motivra.Prelude.{
  ℕ, ◌≡◌, refl, ap, ◌∙◌, Bool, true, false, List, [], ◌∷◌, Option, none, some, arith, ◌==◌,
  if◌then◌else◌, nat_eq,
}
use motivra.Prelude.Text.{Text}
use motivra.Prelude.Exec.Steps.{Preorder}
use motivra.Prelude.Table.{find, Evolves, Evolves-refl, Evolves-trans}
use motivra.Inspections.Status.{SessionStatus}
use motivra.Inspections.World.{Uuid, Template, InspectionSession, Report, InspectionWorld}
use motivra.Inspections.Templates.{template_key, template_by_id}
use motivra.Inspections.Store.{session_id, find_session}
use motivra.Inspections.Store.Records.{findings_of, evidence_of}
use motivra.Inspections.Store.Reports.{report_of}
use motivra.Inspections.Report.{template_matches}

-- The session was submitted.
abbrev pub is_sealed : SessionStatus → Bool
is_sealed SessionStatus.submitted = true
is_sealed SessionStatus.report_available = true
is_sealed _ = false

pub record SessionStep (a b : InspectionSession) : Type 0 where
  pub kept : b ≡ record a {
    status = b.status;
    started_at = b.started_at;
    submitted_at = b.submitted_at;
    reported_at = b.reported_at;
    updated_at = b.updated_at;
  }
  pub sealed :
      is_sealed a.status ≡ true → (is_sealed b.status ≡ true) × (b.submitted_at ≡ a.submitted_at)

-- No two templates have one identifier.
abbrev pub DistinctIds : List Template → Type 0
DistinctIds [] = Unit
DistinctIds (t ∷ ts) = (find template_key t.id ts ≡ none) × DistinctIds ts

-- Every session carries the name and the version of the template that its identifier names.
abbrev pub Templated : (Text → ℕ → Uuid) → List InspectionSession → Type 0
Templated template_id ss =
    (id : Uuid) (s : InspectionSession)
    → find_session id ss ≡ some s
    → (t : Template) × (template_by_id template_id s.template_id ≡ some t)
      × (template_matches t s ≡ true)

pub record Evolving (template_id : Text → ℕ → Uuid) (v w : InspectionWorld) : Type 0 where
  pub sessions : Evolves session_id SessionStep v.sessions w.sessions
  pub findings :
      (id : Uuid) (s : InspectionSession)
      → find_session id v.sessions ≡ some s
      → is_sealed s.status ≡ true
      → findings_of id w.findings ≡ findings_of id v.findings
  pub evidence :
      (id : Uuid) (s : InspectionSession)
      → find_session id v.sessions ≡ some s
      → is_sealed s.status ≡ true
      → evidence_of id w.evidence ≡ evidence_of id v.evidence
  pub reports :
      (id : Uuid) (version : ℕ) (r : Report)
      → report_of id version v.reports ≡ some r
      → report_of id version w.reports ≡ some r
  pub templated : Templated template_id v.sessions → Templated template_id w.sessions

pub SessionStep-refl : (a : InspectionSession) → SessionStep a a
SessionStep-refl a = record { kept = refl; sealed = λ h. (h, refl) }

pub SessionStep-trans :
    (a b c : InspectionSession) → SessionStep a b → SessionStep b c → SessionStep a c
SessionStep-trans a b c f g = record {
  kept = ground (arith, f.kept, g.kept);
  sealed = λ h. ((g.sealed (f.sealed h).0).0, (g.sealed (f.sealed h).0).1 ∙ (f.sealed h).1);
}

pub evolving : (template_id : Text → ℕ → Uuid) → Preorder (Evolving template_id)
evolving template_id = record {
  same = λ w. record {
    sessions = Evolves-refl session_id SessionStep SessionStep-refl w.sessions;
    findings = λ id s h k. refl;
    evidence = λ id s h k. refl;
    reports = λ id version r h. h;
    templated = λ h. h;
  };
  chain = λ u v w f g. record {
    sessions = Evolves-trans session_id SessionStep SessionStep-trans _ _ _ f.sessions g.sessions;
    findings = λ id s h k.
        let (b, found, step) = f.sessions.row id s h in
        g.findings id b found (step.sealed k).0 ∙ f.findings id s h k;
    evidence = λ id s h k.
        let (b, found, step) = f.sessions.row id s h in
        g.evidence id b found (step.sealed k).0 ∙ f.evidence id s h k;
    reports = λ id version r h. g.reports id version r (f.reports id version r h);
    templated = λ h. g.templated (f.templated h);
  };
}
