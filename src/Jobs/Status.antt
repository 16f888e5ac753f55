-- ===== src/Jobs/Status.antt =====
-- backend/jobs/statemachine.go. `other` holds any other text that a status may be.
pub mod Laws
use motivra.Prelude.{
  ℕ, ◌≡◌, ◌↔◌, refl, Bool, true, false, ◌||◌, List, [], ◌∷◌, Option, none, some, arith,
  if◌then◌else◌, Eq,
}
use motivra.Prelude.Text.{Text, text_eq, text_eq_iff}
use motivra.Prelude.Exec.{Result, ok, err}

pub data JobStatus : Type 0 where
  created triaging dispatching assigned accepted en_route : JobStatus
  arrived inspection diagnosis estimate awaiting_approval approved : JobStatus
  repairing verification completed cancelled failed escalated : JobStatus
  other : Text → JobStatus

unfoldable pub job_status_eq : JobStatus → JobStatus → Bool
job_status_eq JobStatus.created JobStatus.created = true
job_status_eq JobStatus.triaging JobStatus.triaging = true
job_status_eq JobStatus.dispatching JobStatus.dispatching = true
job_status_eq JobStatus.assigned JobStatus.assigned = true
job_status_eq JobStatus.accepted JobStatus.accepted = true
job_status_eq JobStatus.en_route JobStatus.en_route = true
job_status_eq JobStatus.arrived JobStatus.arrived = true
job_status_eq JobStatus.inspection JobStatus.inspection = true
job_status_eq JobStatus.diagnosis JobStatus.diagnosis = true
job_status_eq JobStatus.estimate JobStatus.estimate = true
job_status_eq JobStatus.awaiting_approval JobStatus.awaiting_approval = true
job_status_eq JobStatus.approved JobStatus.approved = true
job_status_eq JobStatus.repairing JobStatus.repairing = true
job_status_eq JobStatus.verification JobStatus.verification = true
job_status_eq JobStatus.completed JobStatus.completed = true
job_status_eq JobStatus.cancelled JobStatus.cancelled = true
job_status_eq JobStatus.failed JobStatus.failed = true
job_status_eq JobStatus.escalated JobStatus.escalated = true
job_status_eq (JobStatus.other s) (JobStatus.other t) = text_eq s t
job_status_eq _ _ = false

pub job_status_eq_iff : (a b : JobStatus) → (job_status_eq a b ≡ true) ↔ (a ≡ b)
unfolding job_status_eq
job_status_eq_iff (JobStatus.other s) (JobStatus.other t) = ground (arith, text_eq_iff s t)
job_status_eq_iff a b = ground arith

-- ErrConflict
pub data JobConflict : Type 0 where
  illegal : JobConflict

abbrev pub job_transitions : JobStatus → Option (List JobStatus)
job_transitions JobStatus.created = some (JobStatus.triaging ∷ JobStatus.cancelled ∷ [])
job_transitions JobStatus.triaging = some (JobStatus.dispatching ∷ JobStatus.cancelled ∷ [])
job_transitions JobStatus.dispatching =
    some (JobStatus.assigned ∷ JobStatus.escalated ∷ JobStatus.cancelled ∷ [])
job_transitions JobStatus.assigned =
    some (JobStatus.accepted ∷ JobStatus.dispatching ∷ JobStatus.cancelled ∷ [])
job_transitions JobStatus.accepted =
    some (JobStatus.en_route ∷ JobStatus.dispatching ∷ JobStatus.cancelled ∷ [])
job_transitions JobStatus.en_route = some (JobStatus.arrived ∷ JobStatus.cancelled ∷ [])
job_transitions JobStatus.arrived = some (JobStatus.inspection ∷ JobStatus.failed ∷ [])
job_transitions JobStatus.inspection = some (JobStatus.diagnosis ∷ [])
job_transitions JobStatus.diagnosis = some (JobStatus.estimate ∷ [])
job_transitions JobStatus.estimate = some (JobStatus.awaiting_approval ∷ [])
job_transitions JobStatus.awaiting_approval =
    some (JobStatus.approved ∷ JobStatus.escalated ∷ JobStatus.cancelled ∷ [])
job_transitions JobStatus.approved = some (JobStatus.repairing ∷ [])
job_transitions JobStatus.repairing = some (JobStatus.verification ∷ JobStatus.failed ∷ [])
job_transitions JobStatus.verification = some (JobStatus.completed ∷ JobStatus.repairing ∷ [])
job_transitions _ = none

-- The loop over the targets.
pub contains_target : List JobStatus → JobStatus → Bool
contains_target [] to = false
contains_target (t ∷ ts) to = if job_status_eq t to then true else contains_target ts to

unfoldable pub can_transition_job : JobStatus → JobStatus → Result JobConflict (Unit {0})
unfolding contains_target job_status_eq
can_transition_job from to = elim (job_transitions from) [
  | none ↦ err illegal
  | some targets ↦ if contains_target targets to then ok tt else err illegal
]

unfoldable pub is_terminal_job : JobStatus → Bool
unfolding job_status_eq
is_terminal_job s =
    job_status_eq s JobStatus.completed
    || job_status_eq s JobStatus.cancelled
    || job_status_eq s JobStatus.failed

abbrev pub all_job_statuses : List JobStatus
all_job_statuses =
    JobStatus.created ∷ JobStatus.triaging ∷ JobStatus.dispatching ∷ JobStatus.assigned
    ∷ JobStatus.accepted ∷ JobStatus.en_route ∷ JobStatus.arrived ∷ JobStatus.inspection
    ∷ JobStatus.diagnosis ∷ JobStatus.estimate ∷ JobStatus.awaiting_approval ∷ JobStatus.approved
    ∷ JobStatus.repairing ∷ JobStatus.verification ∷ JobStatus.completed ∷ JobStatus.cancelled
    ∷ JobStatus.failed ∷ JobStatus.escalated ∷ []

unfoldable pub is_known_job : JobStatus → Bool
unfolding contains_target job_status_eq
is_known_job = contains_target all_job_statuses
