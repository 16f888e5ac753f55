-- ===== src/Inspections/Evolution/Records.antt =====
-- The insertions of findings, evidence and reports let the tables evolve.
use motivra.Prelude.{
  ℕ, suc, ◌≤◌, ◌≡◌, refl, sym, ap, ◌∙◌, true, false, ◌&&◌, List, [], ◌∷◌, some, arith, ◌==◌, ==_iff,
  nat_eq, Bool-cases, inl, inr,
}
use motivra.Prelude.Text.{Text}
use motivra.Prelude.Order.{where_rows}
use motivra.Prelude.Exec.Steps.{
  Any, Steps, Steps-pure, Steps-bind, Steps-require, Steps-check, Steps-find, Steps-read,
  Steps-write,
}
use motivra.Prelude.Table.{Evolves-refl, Evolves-update}
use motivra.Inspections.Status.{SessionStatus, session_status_eq_iff}
use motivra.Inspections.World.{
  Uuid, InspectionSession, Finding, Evidence, Report, database, InspectionWorld,
}
use motivra.Inspections.Store.{session_id, find_session, stamp_session}
use motivra.Inspections.Store.Records.{open_or_missing, insert_finding, insert_evidence}
use motivra.Inspections.Store.Reports.{
  last_version, stored_report, add_report, insert_next, insert_report, report_of,
}
use motivra.Inspections.Evolution.{is_sealed, SessionStep, SessionStep-refl, Evolving, evolving}
use motivra.Inspections.Evolution.Writes.{
  Calm, round_trip-Calm, own_id-Calm, stamp_id, stamped-Templated,
}

module _ (name : Text → ℕ → Uuid) where
  -- Of a sealed session no row is inserted.
  not_open :
      (id : Uuid) (s : InspectionSession) (other : Uuid) (w : InspectionWorld)
      → find_session id w.sessions ≡ some s
      → is_sealed s.status ≡ true
      → open_or_missing (find_session other w.sessions) ≡ true
      → (other == id) ≡ false
  not_open id s other w found sealed passed = elim (Bool-cases (other == id)) [
    | inl hit ↦
        let at_id : find_session other w.sessions ≡ some s = rw ((==_iff other id).0 hit) found in
        let moving : s.status ≡ SessionStatus.in_progress =
          (session_status_eq_iff s.status SessionStatus.in_progress).0
            (ap open_or_missing (sym at_id) ∙ passed) in
        ground (arith, moving, sealed)
    | inr miss ↦ miss
  ]

  -- A new row of a session that is open.
  add_finding-Evolving :
      (f : Finding) (w : InspectionWorld)
      → open_or_missing (find_session f.session_id w.sessions) ≡ true
      → Evolving name w (record w { findings = f ∷ w.findings })
  unfolding where_rows
  add_finding-Evolving f w passed = record {
    sessions = Evolves-refl session_id SessionStep SessionStep-refl w.sessions;
    findings = λ j x found sealed. rw (not_open j x f.session_id w found sealed passed) refl;
    evidence = λ j x h k. refl;
    reports = λ j version r h. h;
    templated = λ h. h;
  }

  add_evidence-Evolving :
      (e : Evidence) (w : InspectionWorld)
      → open_or_missing (find_session e.session_id w.sessions) ≡ true
      → Evolving name w (record w { evidence = e ∷ w.evidence })
  unfolding where_rows
  add_evidence-Evolving e w passed = record {
    sessions = Evolves-refl session_id SessionStep SessionStep-refl w.sessions;
    findings = λ j x h k. refl;
    evidence = λ j x found sealed. rw (not_open j x e.session_id w found sealed passed) refl;
    reports = λ j version r h. h;
    templated = λ h. h;
  }

  pub insert_finding-Calm : (f : Finding) → Calm name (insert_finding f)
  unfolding insert_finding
  insert_finding-Calm f = Steps-bind (evolving name) Any _ _ (own_id-Calm name f.id) λ id.
      Steps-bind (evolving name) Any _ _ (round_trip-Calm name database) λ _.
        Steps-check (evolving name) Any _ _ _ (
          Steps-require (evolving name) _ _ _ _ (λ _. Steps-check (evolving name) _ _ _ _ (
            Steps-check (evolving name) _ _ _ _ (
              Steps-read (evolving name) _ _ _ λ now.
                Steps-write (evolving name) _ _ _
                  (λ w h. add_finding-Evolving (record f { id = id; created_at = now }) w h.0.0.0.1)
                  (Steps-pure (evolving name) Any _)))))

  pub insert_evidence-Calm : (e : Evidence) → Calm name (insert_evidence e)
  unfolding insert_evidence
  insert_evidence-Calm e = Steps-bind (evolving name) Any _ _ (own_id-Calm name e.id) λ id.
      Steps-bind (evolving name) Any _ _ (round_trip-Calm name database) λ _.
        Steps-check (evolving name) Any _ _ _ (
          Steps-require (evolving name) _ _ _ _ (λ _. Steps-check (evolving name) _ _ _ _ (
            Steps-check (evolving name) _ _ _ _ (
              Steps-check (evolving name) _ _ _ _ (
                Steps-read (evolving name) _ _ _ λ now.
                  Steps-write (evolving name) _ _ _
                    (λ w h.
                      add_evidence-Evolving (record e { id = id; created_at = now }) w h.0.0.0.0.1)
                    (Steps-pure (evolving name) Any _))))))

  -- A sealed session that is submitted becomes available.
  report-SessionStep :
      (now : ℕ) (s : InspectionSession)
      → s.status ≡ SessionStatus.submitted
      → SessionStep s (stamp_session SessionStatus.report_available now s)
  report-SessionStep now s h = record { kept = refl; sealed = λ k. (refl, refl) }

  report_of-le :
      (id version : ℕ) (rs : List Report) (r : Report)
      → report_of id version rs ≡ some r
      → version ≤ last_version id rs
  unfolding report_of last_version
  report_of-le id version [] r h = ground (arith, h)
  report_of-le id version (x ∷ rs) r h =
      ground
        (arith, h, report_of-le id version rs r, ==_iff x.session_id id, ==_iff x.version version)

  -- A report with the next version hides no other.
  report_of-cons :
      (new : Report) (rs : List Report) (id version : ℕ) (r : Report)
      → (suc (last_version new.session_id rs) == new.version) ≡ true
      → report_of id version rs ≡ some r
      → report_of id version (new ∷ rs) ≡ some r
  unfolding report_of
  report_of-cons new rs id version r next h =
      elim (Bool-cases (new.session_id == id && new.version == version)) [
        | inl hit ↦ absurd (
            ground (
              arith,
              hit,
              next,
              report_of-le id version rs r h,
              ==_iff new.session_id id,
              ==_iff new.version version,
              ==_iff (suc (last_version new.session_id rs)) new.version,
            ))
        | inr miss ↦ rw miss h
      ]

  -- The session is submitted.
  insert_next-Steps :
      (jsonb : Text → Text) (r : Report) (id : Uuid) (s : InspectionSession)
      → s.status ≡ SessionStatus.submitted
      → Steps
          (λ w. find_session r.session_id w.sessions ≡ some s)
          (Evolving name)
          (insert_next jsonb r id)
  unfolding insert_next add_report
  insert_next-Steps jsonb r id s submitted = Steps-check (evolving name) _ _ _ _ (
      Steps-check (evolving name) _ _ _ _ (
        Steps-require (evolving name) _ _ _ _ (λ _. Steps-check (evolving name) _ _ _ _ (
          Steps-read (evolving name) _ _ _ λ now.
            Steps-write (evolving name) _ _ _
              (λ w h. record {
                sessions =
                    Evolves-update session_id SessionStep SessionStep-refl
                      (stamp_session SessionStatus.report_available now)
                      (stamp_id name SessionStatus.report_available now) r.session_id w.sessions s
                      h.0.0.0.0 (report-SessionStep now s submitted);
                findings = λ j x h k. refl;
                evidence = λ j x h k. refl;
                reports = λ j version x found.
                    report_of-cons (stored_report jsonb r id now) w.reports j version x h.0.0.0.1
                      found;
                templated =
                    stamped-Templated name r.session_id SessionStatus.report_available now
                      w.sessions;
              })
              (Steps-pure (evolving name) Any _)))))

  pub insert_report-Calm : (jsonb : Text → Text) (r : Report) → Calm name (insert_report jsonb r)
  unfolding insert_report
  insert_report-Calm jsonb r = Steps-require (evolving name) Any _ _ _ (λ _.
      Steps-bind (evolving name) Any _ _ (own_id-Calm name r.id) λ id.
        Steps-bind (evolving name) Any _ _ (round_trip-Calm name database) λ _.
          Steps-find (evolving name) Any _ _ _ λ s.
            Steps-require (evolving name) _ _ _ _ (λ submitted. record {
              at = λ w h.
                  (insert_next-Steps jsonb r id s
                      ((session_status_eq_iff s.status SessionStatus.submitted).0 submitted)).at
                    w h.1;
            }))
