-- ===== src/Jobs/Status/Laws.antt =====
-- The lifecycle of a job.
use motivra.Prelude.{ℕ, suc, ◌≡◌, ◌↔◌, ◌⊎◌, inl, inr, refl, true, false, arith}
use motivra.Prelude.Exec.{ok, err}
use motivra.Jobs.Status.{JobStatus, illegal, can_transition_job, is_terminal_job, is_known_job}

stuck :
    (s : JobStatus)
    → ((t : JobStatus) → can_transition_job s t ≡ err illegal)
    → (is_terminal_job s ≡ true) ⊎ ((s ≡ JobStatus.escalated) ⊎ (is_known_job s ≡ false))
unfolding can_transition_job is_terminal_job is_known_job
stuck JobStatus.created h = ground (arith, h JobStatus.triaging)
stuck JobStatus.triaging h = ground (arith, h JobStatus.dispatching)
stuck JobStatus.dispatching h = ground (arith, h JobStatus.assigned)
stuck JobStatus.assigned h = ground (arith, h JobStatus.accepted)
stuck JobStatus.accepted h = ground (arith, h JobStatus.en_route)
stuck JobStatus.en_route h = ground (arith, h JobStatus.arrived)
stuck JobStatus.arrived h = ground (arith, h JobStatus.inspection)
stuck JobStatus.inspection h = ground (arith, h JobStatus.diagnosis)
stuck JobStatus.diagnosis h = ground (arith, h JobStatus.estimate)
stuck JobStatus.estimate h = ground (arith, h JobStatus.awaiting_approval)
stuck JobStatus.awaiting_approval h = ground (arith, h JobStatus.approved)
stuck JobStatus.approved h = ground (arith, h JobStatus.repairing)
stuck JobStatus.repairing h = ground (arith, h JobStatus.verification)
stuck JobStatus.verification h = ground (arith, h JobStatus.completed)
stuck s h = ground arith

closed :
    (s t : JobStatus)
    → (is_terminal_job s ≡ true) ⊎ ((s ≡ JobStatus.escalated) ⊎ (is_known_job s ≡ false))
    → can_transition_job s t ≡ err illegal
unfolding can_transition_job is_terminal_job is_known_job
closed s t h = ground (arith, h)

-- No move leaves a status exactly when it is terminal, ESCALATED, or no status of the lifecycle.
pub dead_end_iff :
    (s : JobStatus)
    → ((t : JobStatus) → can_transition_job s t ≡ err illegal)
      ↔ ((is_terminal_job s ≡ true) ⊎ ((s ≡ JobStatus.escalated) ⊎ (is_known_job s ≡ false)))
dead_end_iff s = (stuck s, λ h t. closed s t h)

-- At most so many moves that `CanTransition` accepts lead to a terminal status.
pub data EndsWithin : ℕ → JobStatus → Type 0 where
  stop : {n : ℕ} {s : JobStatus} → is_terminal_job s ≡ true → EndsWithin n s
  move :
      {n : ℕ} {s : JobStatus} (t : JobStatus)
      → can_transition_job s t ≡ ok tt
      → EndsWithin n t
      → EndsWithin (suc n) s

-- From every status of the lifecycle but ESCALATED a job can still end: at most four accepted moves
-- lead to COMPLETED, CANCELLED or FAILED.
pub job-EndsWithin :
    (s : JobStatus) → is_known_job s ≡ true → (s ≡ JobStatus.escalated) ⊎ EndsWithin 4 s
unfolding can_transition_job is_terminal_job is_known_job
job-EndsWithin JobStatus.escalated h = inl refl
job-EndsWithin JobStatus.created h = inr (move JobStatus.cancelled refl (stop refl))
job-EndsWithin JobStatus.triaging h = inr (move JobStatus.cancelled refl (stop refl))
job-EndsWithin JobStatus.dispatching h = inr (move JobStatus.cancelled refl (stop refl))
job-EndsWithin JobStatus.assigned h = inr (move JobStatus.cancelled refl (stop refl))
job-EndsWithin JobStatus.accepted h = inr (move JobStatus.cancelled refl (stop refl))
job-EndsWithin JobStatus.en_route h = inr (move JobStatus.cancelled refl (stop refl))
job-EndsWithin JobStatus.arrived h = inr (move JobStatus.failed refl (stop refl))
job-EndsWithin JobStatus.inspection h = inr (
    move JobStatus.diagnosis refl (
      move JobStatus.estimate refl
        (move JobStatus.awaiting_approval refl (move JobStatus.cancelled refl (stop refl)))))
job-EndsWithin JobStatus.diagnosis h = inr (
    move JobStatus.estimate refl
      (move JobStatus.awaiting_approval refl (move JobStatus.cancelled refl (stop refl))))
job-EndsWithin JobStatus.estimate h =
    inr (move JobStatus.awaiting_approval refl (move JobStatus.cancelled refl (stop refl)))
job-EndsWithin JobStatus.awaiting_approval h = inr (move JobStatus.cancelled refl (stop refl))
job-EndsWithin JobStatus.approved h =
    inr (move JobStatus.repairing refl (move JobStatus.failed refl (stop refl)))
job-EndsWithin JobStatus.repairing h = inr (move JobStatus.failed refl (stop refl))
job-EndsWithin JobStatus.verification h = inr (move JobStatus.completed refl (stop refl))
job-EndsWithin JobStatus.completed h = inr (stop refl)
job-EndsWithin JobStatus.cancelled h = inr (stop refl)
job-EndsWithin JobStatus.failed h = inr (stop refl)
job-EndsWithin (JobStatus.other t) h = ground (arith, h)
