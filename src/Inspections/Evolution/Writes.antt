-- ===== src/Inspections/Evolution/Writes.antt =====
-- The writes of the inspections store let the tables evolve.
use motivra.Prelude.{
  ℕ, ◌≡◌, refl, ap, ◌∙◌, Bool, true, false, List, [], ◌∷◌, Option, none, some, arith, ◌==◌, nat_eq,
  Bool-cases, inl, inr,
}
use motivra.Prelude.Text.{Text}
use motivra.Prelude.Exec.Steps.{
  Any, Steps, Steps-pure, Steps-bind, Steps-require, Steps-check, Steps-find, Steps-read,
  Steps-modify, Steps-write,
}
use motivra.Prelude.Table.{
  find-cons, find-update, update, map-eq-some, Evolves-refl, Evolves-cons, Evolves-update,
}
use motivra.Inspections.Status.{SessionStatus, session_status_eq_iff}
use motivra.Inspections.World.{
  Uuid, Template, InspectionSession, database, failing, round_trip, own_id, is_none,
  InspectionError, InspectionWorld, Action, nil_uuid,
}
use motivra.Inspections.Templates.{template_by_id}
use motivra.Inspections.Store.{
  session_id, find_session, new_session, create_session, stamp_session, update_session_status,
}
use motivra.Inspections.Store.Records.{findings_of, evidence_of}
use motivra.Inspections.Store.Reports.{report_of}
use motivra.Inspections.Report.{template_matches}
use motivra.Inspections.Evolution.{
  is_sealed, SessionStep, SessionStep-refl, Templated, Evolving, evolving,
}

pub none_of : {A : Type 0} (o : Option A) → is_none o ≡ true → o ≡ none
none_of none h = refl
none_of (some a) h = ground (arith, h)

module _ (name : Text → ℕ → Uuid) where
  abbrev pub Calm : {A : Type 0} → Action A → Type 0
  Calm m = Steps Any (Evolving name) m

  -- A change of what the relation does not look at.
  pub quiet-Evolving :
      (v w : InspectionWorld)
      → w.sessions ≡ v.sessions
      → w.findings ≡ v.findings
      → w.evidence ≡ v.evidence
      → w.reports ≡ v.reports
      → Evolving name v w
  quiet-Evolving v w s f e r = record {
    sessions = rw s (Evolves-refl session_id SessionStep SessionStep-refl v.sessions);
    findings = λ id x h k. ap (findings_of id) f;
    evidence = λ id x h k. ap (evidence_of id) e;
    reports = λ id version x h. ap (report_of id version) r ∙ h;
    templated = λ h. rw s h;
  }

  pub round_trip-Calm : (e : InspectionError) → Calm (round_trip e)
  unfolding round_trip
  round_trip-Calm e = record { at = λ w _. go w w.faults }
    where
      go : (w : InspectionWorld) (fs : List Bool) → Evolving name w (failing fs e w).1
      go w [] = (evolving name).same w
      go w (true ∷ fs) = quiet-Evolving w _ refl refl refl refl
      go w (false ∷ fs) = quiet-Evolving w _ refl refl refl refl

  pub own_id-Calm : (id : Uuid) → Calm (own_id id)
  unfolding own_id
  own_id-Calm id = record {
    at = λ w _. elim (Bool-cases (id == nil_uuid)) [
      | inl h ↦ rw h (quiet-Evolving w _ refl refl refl refl)
      | inr h ↦ rw h ((evolving name).same w)
    ];
  }

  -- The session has its template, so the new row has it.
  new-Templated :
      (t : Template) (s : InspectionSession) (id : Uuid) (w : InspectionWorld)
      → template_by_id name s.template_id ≡ some t
      → template_matches t s ≡ true
      → Templated name w.sessions
      → Templated name (new_session s id w.clock ∷ w.sessions)
  unfolding template_matches
  new-Templated t s id w known same h j x found = elim (Bool-cases (id == j)) [
    | inl hit ↦
        let new : new_session s id w.clock ≡ x =
          ground (arith, find-cons session_id j (new_session s id w.clock) w.sessions) in
        rw (← new) (t, known, same)
    | inr miss ↦
        h j x (ground (arith, find-cons session_id j (new_session s id w.clock) w.sessions))
  ]

  pub create_session-Calm :
      (t : Template) (s : InspectionSession)
      → template_by_id name s.template_id ≡ some t
      → template_matches t s ≡ true
      → Calm (create_session s)
  unfolding create_session
  create_session-Calm t s known same = Steps-bind (evolving name) Any _ _ (own_id-Calm s.id) λ id.
      Steps-bind (evolving name) Any _ _ (round_trip-Calm database) λ _.
        Steps-require (evolving name) Any _ _ _ (λ _. Steps-check (evolving name) Any _ _ _ (
          Steps-read (evolving name) _ _ _ λ now.
            Steps-write (evolving name) _ _ _
              (λ w h. rw (← h.1) (record {
                sessions =
                    Evolves-cons session_id SessionStep SessionStep-refl _ w.sessions
                      (none_of _ h.0.1);
                findings = λ id x h k. refl;
                evidence = λ id x h k. refl;
                reports = λ id version r h. h;
                templated = new-Templated t s id w known same;
              }))
              (Steps-pure (evolving name) Any _)))

  -- A stamp changes the status and the times.
  pub stamp_id :
      (to : SessionStatus) (now : ℕ) (s : InspectionSession) → (stamp_session to now s).id ≡ s.id
  stamp_id SessionStatus.in_progress now s = refl
  stamp_id SessionStatus.submitted now s = refl
  stamp_id SessionStatus.report_available now s = refl
  stamp_id SessionStatus.created now s = refl
  stamp_id (SessionStatus.other t) now s = refl

  stamp_template :
      (to : SessionStatus) (now : ℕ) (s : InspectionSession) (t : Template)
      → ((stamp_session to now s).template_id ≡ s.template_id)
        × (template_matches t (stamp_session to now s) ≡ template_matches t s)
  unfolding template_matches
  stamp_template SessionStatus.in_progress now s t = (refl, refl)
  stamp_template SessionStatus.submitted now s t = (refl, refl)
  stamp_template SessionStatus.report_available now s t = (refl, refl)
  stamp_template SessionStatus.created now s t = (refl, refl)
  stamp_template (SessionStatus.other x) now s t = (refl, refl)

  open-SessionStep :
      (to : SessionStatus) (now : ℕ) (s : InspectionSession)
      → is_sealed s.status ≡ false
      → SessionStep s (stamp_session to now s)
  open-SessionStep to now s h = record { kept = kept to; sealed = λ k. ground (arith, h, k) }
    where
      kept :
          (to : SessionStatus)
          → stamp_session to now s ≡ record s {
            status = (stamp_session to now s).status;
            started_at = (stamp_session to now s).started_at;
            submitted_at = (stamp_session to now s).submitted_at;
            reported_at = (stamp_session to now s).reported_at;
            updated_at = (stamp_session to now s).updated_at;
          }
      kept SessionStatus.in_progress = refl
      kept SessionStatus.submitted = refl
      kept SessionStatus.report_available = refl
      kept SessionStatus.created = refl
      kept (SessionStatus.other x) = refl

  pub stamped-Templated :
      (id : Uuid) (to : SessionStatus) (now : ℕ) (ss : List InspectionSession)
      → Templated name ss
      → Templated name (update session_id id (stamp_session to now) ss)
  stamped-Templated id to now ss h j x found = elim (Bool-cases (id == j)) [
    | inl hit ↦
        let (a, old, new) = map-eq-some (stamp_session to now) (find_session j ss) x (
          ground (
            arith,
            found,
            hit,
            find-update session_id (stamp_session to now) (stamp_id to now) j id ss,
          )) in
        let (t, known, matches) = h j a old in
        (
          t,
          rw (← new, (stamp_template to now a t).0) known,
          rw (← new, (stamp_template to now a t).1) matches,
        )
    | inr miss ↦ h j x (
        ground (
          arith,
          found,
          miss,
          find-update session_id (stamp_session to now) (stamp_id to now) j id ss,
        ))
  ]

  -- A session that was not submitted may be moved.
  pub update_session_status-Calm :
      (id : Uuid) (from to : SessionStatus) (actor : Option Uuid) (reason : Text)
      → is_sealed from ≡ false
      → Calm (update_session_status id from to actor reason)
  unfolding update_session_status
  update_session_status-Calm id from to actor reason unsealed =
      Steps-bind (evolving name) Any _ _ (round_trip-Calm database) λ _.
        Steps-find (evolving name) Any _ _ _ λ s. Steps-require (evolving name) _ _ _ _ (λ expected.
          Steps-require (evolving name) _ _ _ _ (λ _. Steps-modify (evolving name) _ _ (λ w h.
            record {
              sessions =
                  Evolves-update session_id SessionStep SessionStep-refl (stamp_session to w.clock)
                    (stamp_id to w.clock) id w.sessions s h.1
                    (open-SessionStep to w.clock s
                      (ap is_sealed ((session_status_eq_iff s.status from).0 expected) ∙ unsealed));
              findings = λ j x h k. refl;
              evidence = λ j x h k. refl;
              reports = λ j version r h. h;
              templated = stamped-Templated id to w.clock w.sessions;
            })))
