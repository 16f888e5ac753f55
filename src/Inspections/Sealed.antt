-- ===== src/Inspections/Sealed.antt =====
-- A submitted session is frozen: its row but for the status, its findings and its evidence.
pub mod Reads
use motivra.Prelude.{ℕ, ◌≡◌, ◌∙◌, true, List, some, arith}
use motivra.Inspections.World.{Uuid, InspectionSession, Finding, Evidence, InspectionWorld}
use motivra.Inspections.Templates.{template_registry}
use motivra.Inspections.Store.{find_session}
use motivra.Inspections.Store.Records.{findings_of, evidence_of}
use motivra.Inspections.Service.{InspectionsService}
use motivra.Inspections.Evolution.{is_sealed, DistinctIds, Evolving}
use motivra.Inspections.Evolution.History.{InspectionCall, inspection_history, history-Evolving}
use motivra.Prelude.Text.{Text}

-- The session `id` is submitted; but for its status it has the columns of `sess`, and it has the
-- findings `fs` and the evidence `es`.
pub record Frozen (id : Uuid) (sess : InspectionSession) (fs : List Finding) (es : List Evidence)
    (w : InspectionWorld) : Type 0 where
  pub row : InspectionSession
  pub found : find_session id w.sessions ≡ some row
  pub sealed : is_sealed row.status ≡ true
  pub same : row ≡ record sess {
    status = row.status;
    started_at = row.started_at;
    reported_at = row.reported_at;
    updated_at = row.updated_at;
  }
  pub findings : findings_of id w.findings ≡ fs
  pub evidence : evidence_of id w.evidence ≡ es

pub evolve-Frozen :
    (name : Text → ℕ → Uuid) (id : Uuid) (sess : InspectionSession) (fs : List Finding)
    (es : List Evidence) (v w : InspectionWorld)
    → Evolving name v w
    → Frozen id sess fs es v
    → Frozen id sess fs es w
evolve-Frozen name id sess fs es v w e h =
    let (b, found, step) = e.sessions.row id h.row h.found in
    let (sealed, submitted) = step.sealed h.sealed in
    record {
      row = b;
      found = found;
      sealed = sealed;
      same = ground (arith, step.kept, submitted, h.same);
      findings = e.findings id h.row h.found h.sealed ∙ h.findings;
      evidence = e.evidence id h.row h.found h.sealed ∙ h.evidence;
    }

-- A session that was submitted stays as it is over any history of calls, but for its status, which stays
-- SUBMITTED or REPORT_AVAILABLE, and the times of its start, its report and its last change: no finding
-- and no evidence of it is added, changed or lost. The templates have different identifiers.
pub history-Frozen :
    (s : InspectionsService) (cs : List InspectionCall) (w : InspectionWorld) (id : Uuid)
    (sess : InspectionSession) (fs : List Finding) (es : List Evidence)
    → DistinctIds (template_registry s.template_id)
    → Frozen id sess fs es w
    → Frozen id sess fs es (inspection_history s cs w)
history-Frozen s cs w id sess fs es distinct h =
    evolve-Frozen s.template_id id sess fs es w (inspection_history s cs w)
      (history-Evolving s distinct cs w) h
