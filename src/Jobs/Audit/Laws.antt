-- ===== src/Jobs/Audit/Laws.antt =====
-- The jobs tables over any history of calls, and the calls that are refused.
use motivra.Prelude.{
  refl, true, false, inl, Option-cases, ◌≡◌, ◌≢◌, ap, ◌∙◌, not, List, [], ◌∷◌, Option, none, some,
  arith, ==_iff,
}
use motivra.Prelude.Text.{Text}
use motivra.Prelude.Exec.{ok, err}
use motivra.Prelude.Exec.Runs.{
  Returns, bind-runs, bind-fails, require-runs, require-fails, find_or_raise-runs,
  find_or_raise-fails,
}
use motivra.Jobs.Status.{JobStatus, can_transition_job, is_terminal_job}
use motivra.Jobs.Status.Laws.{dead_end_iff}
use motivra.Jobs.World.{
  Uuid, Job, ReadScope, JobsError, conflict, job_not_found, JobsWorld, failing, round_trip,
}
use motivra.Jobs.Store.{find_job, scoped_job, get_job, arguments_fit, job_visible}
use motivra.Jobs.Service.{
  JobsService, create_job_from_request, is_ok, legal_move, transition_job, assign_job, accept_job,
  other_technician, assign_by_status,
}
use motivra.Jobs.Audit.{JobsSound}
use motivra.Jobs.Audit.Service.{
  create_job_from_request-Keeps, transition_job-Keeps, assign_job-Keeps, accept_job-Keeps,
}

pub data JobsCall : Type 0 where
  convert : Uuid → ReadScope → JobsCall
  move : Uuid → JobStatus → Option Uuid → Text → ReadScope → JobsCall
  assign : Uuid → Uuid → Option Uuid → ReadScope → JobsCall
  accept : Uuid → Uuid → ReadScope → JobsCall

-- The world after a call, whether it returned or failed.
unfoldable pub jobs_call : JobsService → JobsCall → JobsWorld → JobsWorld
jobs_call s (convert id scope) w = (create_job_from_request s id scope w).1
jobs_call s (move id to actor reason scope) w = (transition_job s id to actor reason scope w).1
jobs_call s (assign id technician by scope) w = (assign_job s id technician by scope w).1
jobs_call s (accept id technician scope) w = (accept_job s id technician scope w).1

unfoldable pub jobs_history : JobsService → List JobsCall → JobsWorld → JobsWorld
jobs_history s [] w = w
jobs_history s (c ∷ cs) w = jobs_history s cs (jobs_call s c w)

call-JobsSound :
    (s : JobsService) (c : JobsCall) (w : JobsWorld) → JobsSound w → JobsSound (jobs_call s c w)
unfolding jobs_call
call-JobsSound s (convert id scope) w = (create_job_from_request-Keeps s id scope).at w tt
call-JobsSound s (move id to actor reason scope) w =
    (transition_job-Keeps s id to actor reason scope).at w tt
call-JobsSound s (assign id technician by scope) w =
    (assign_job-Keeps s id technician by scope).at w tt
call-JobsSound s (accept id technician scope) w = (accept_job-Keeps s id technician scope).at w tt

-- Every history of conversions, moves, assignments and acceptances, whatever fails in it, keeps the
-- jobs tables sound: each entry of the audit trail is a move that `CanTransition` accepts and starts
-- where the one before left its job, each job has the status that its newest entry gives it, no job
-- has two open assignments, no request has two jobs, and one that can still be claimed has none.
pub jobs_history-JobsSound :
    (s : JobsService) (cs : List JobsCall) (w : JobsWorld)
    → JobsSound w
    → JobsSound (jobs_history s cs w)
unfolding jobs_history
jobs_history-JobsSound s [] w h = h
jobs_history-JobsSound s (c ∷ cs) w h =
    jobs_history-JobsSound s cs (jobs_call s c w) (call-JobsSound s c w h)

tenant-fits : (scope : ReadScope) (t : Uuid) → scope.tenant_id ≡ some t → arguments_fit scope ≡ true
unfolding arguments_fit
tenant-fits scope t h = ground (arith, h)

-- A caller of a tenant sees no job of another.
foreign-hidden :
    (scope : ReadScope) (t : Uuid)
    → scope.operator ≡ false
    → scope.tenant_id ≡ some t
    → (found : Option Job) → ((j : Job) → found ≡ some j → j.tenant_id ≢ some t)
    → scoped_job scope found ≡ none
unfolding scoped_job job_visible
foreign-hidden scope t restricted h none foreign = refl
foreign-hidden scope t restricted h (some j) foreign =
    ground (arith, restricted, h, foreign j refl, Option-cases j.tenant_id)

-- No move of a job in a terminal status passes the test.
refused :
    (from to : JobStatus) (w : JobsWorld)
    → is_terminal_job from ≡ true
    → legal_move from to w ≡ (err conflict, w)
unfolding legal_move
refused from to w ended = require-fails _ _ w (ap is_ok ((dead_end_iff from).1 (inl ended) to))

assign-refused :
    (s : JobsService) (j : Job) (from : JobStatus) (id technician : Uuid) (actor : Option Uuid)
    (scope : ReadScope) (w : JobsWorld)
    → is_terminal_job from ≡ true
    → assign_by_status s j from id technician actor scope w ≡ (err conflict, w)
unfolding is_terminal_job
assign-refused s j JobStatus.created id technician actor scope w h =
    refused JobStatus.created JobStatus.assigned w h
assign-refused s j JobStatus.triaging id technician actor scope w h =
    refused JobStatus.triaging JobStatus.assigned w h
assign-refused s j JobStatus.dispatching id technician actor scope w h = ground (arith, h)
assign-refused s j JobStatus.assigned id technician actor scope w h = ground (arith, h)
assign-refused s j JobStatus.accepted id technician actor scope w h =
    refused JobStatus.accepted JobStatus.assigned w h
assign-refused s j JobStatus.en_route id technician actor scope w h =
    refused JobStatus.en_route JobStatus.assigned w h
assign-refused s j JobStatus.arrived id technician actor scope w h =
    refused JobStatus.arrived JobStatus.assigned w h
assign-refused s j JobStatus.inspection id technician actor scope w h =
    refused JobStatus.inspection JobStatus.assigned w h
assign-refused s j JobStatus.diagnosis id technician actor scope w h =
    refused JobStatus.diagnosis JobStatus.assigned w h
assign-refused s j JobStatus.estimate id technician actor scope w h =
    refused JobStatus.estimate JobStatus.assigned w h
assign-refused s j JobStatus.awaiting_approval id technician actor scope w h =
    refused JobStatus.awaiting_approval JobStatus.assigned w h
assign-refused s j JobStatus.approved id technician actor scope w h =
    refused JobStatus.approved JobStatus.assigned w h
assign-refused s j JobStatus.repairing id technician actor scope w h =
    refused JobStatus.repairing JobStatus.assigned w h
assign-refused s j JobStatus.verification id technician actor scope w h =
    refused JobStatus.verification JobStatus.assigned w h
assign-refused s j JobStatus.completed id technician actor scope w h =
    refused JobStatus.completed JobStatus.assigned w h
assign-refused s j JobStatus.cancelled id technician actor scope w h =
    refused JobStatus.cancelled JobStatus.assigned w h
assign-refused s j JobStatus.failed id technician actor scope w h =
    refused JobStatus.failed JobStatus.assigned w h
assign-refused s j JobStatus.escalated id technician actor scope w h =
    refused JobStatus.escalated JobStatus.assigned w h
assign-refused s j (JobStatus.other t) id technician actor scope w h =
    refused (JobStatus.other t) JobStatus.assigned w h

module _ (s : JobsService) (id : Uuid) (scope : ReadScope) (w : JobsWorld)
    (healthy : w.faults ≡ []) where
  trip-runs : (e : JobsError) → Returns (round_trip e) w tt w
  unfolding round_trip
  trip-runs e = ap (λ fs. failing fs e w) healthy

  hidden-runs :
      arguments_fit scope ≡ true
      → scoped_job scope (find_job id w.jobs) ≡ none
      → get_job id scope w ≡ (err job_not_found, w)
  unfolding get_job
  hidden-runs fit h =
      bind-runs _ _ w tt w (trip-runs _)
      ∙ bind-runs _ _ w tt w (require-runs _ _ w fit)
      ∙ find_or_raise-fails _ _ w h

  seen-runs :
      (j : Job)
      → arguments_fit scope ≡ true
      → scoped_job scope (find_job id w.jobs) ≡ some j
      → get_job id scope w ≡ (ok j, w)
  unfolding get_job
  seen-runs j fit h =
      bind-runs _ _ w tt w (trip-runs _)
      ∙ bind-runs _ _ w tt w (require-runs _ _ w fit)
      ∙ find_or_raise-runs _ _ w j h

  -- In a state where the database answers, a job that is not there, or that belongs to another tenant than
  -- the caller or to none, is answered as a missing one by a move, an assignment and an acceptance alike,
  -- and nothing is written. The caller is no operator and of a tenant.
  pub hidden-job_not_found :
      (to : JobStatus) (actor : Option Uuid) (reason : Text) (technician t : Uuid)
      → scope.operator ≡ false
      → scope.tenant_id ≡ some t
      → ((j : Job) → find_job id w.jobs ≡ some j → j.tenant_id ≢ some t)
      → (transition_job s id to actor reason scope w ≡ (err job_not_found, w))
        × (assign_job s id technician actor scope w ≡ (err job_not_found, w))
        × (accept_job s id technician scope w ≡ (err job_not_found, w))
  unfolding transition_job assign_job accept_job
  hidden-job_not_found to actor reason technician t restricted of_tenant foreign =
      let missing =
        hidden-runs (tenant-fits scope t of_tenant)
          (foreign-hidden scope t restricted of_tenant (find_job id w.jobs) foreign) in
      (
        bind-fails _ _ w job_not_found w missing,
        bind-fails _ _ w job_not_found w missing,
        bind-fails _ _ w job_not_found w missing,
      )

  -- In a state where the database answers, a job in a terminal status is not moved to any status, not
  -- assigned and not accepted: each is a conflict, and nothing is written. The caller sees the job, and the
  -- scope gives its statements as many values as placeholders (it is not a personal one).
  pub terminal-conflict :
      (j : Job) (to : JobStatus) (actor : Option Uuid) (reason : Text) (technician : Uuid)
      → arguments_fit scope ≡ true
      → scoped_job scope (find_job id w.jobs) ≡ some j
      → is_terminal_job j.status ≡ true
      → (transition_job s id to actor reason scope w ≡ (err conflict, w))
        × (assign_job s id technician actor scope w ≡ (err conflict, w))
        × (accept_job s id technician scope w ≡ (err conflict, w))
  unfolding transition_job assign_job accept_job legal_move
  terminal-conflict j to actor reason technician fit seen ended = (
    bind-runs _ _ w j w (seen-runs j fit seen)
        ∙ bind-fails _ _ w conflict w (refused j.status to w ended),
    bind-runs _ _ w j w (seen-runs j fit seen)
        ∙ assign-refused s j j.status id technician actor scope w ended,
    bind-runs _ _ w j w (seen-runs j fit seen)
        ∙ bind-fails _ _ w conflict w (refused j.status JobStatus.accepted w ended),
  )

  -- In a state where the database answers, a job that is assigned to one technician cannot be accepted by
  -- another: the answer is a conflict, and nothing is written. The caller sees the job, and the scope gives
  -- its statements as many values as placeholders (it is not a personal one).
  pub other_technician-conflict :
      (j : Job) (t technician : Uuid)
      → arguments_fit scope ≡ true
      → scoped_job scope (find_job id w.jobs) ≡ some j
      → j.status ≡ JobStatus.assigned
      → j.technician_id ≡ some t
      → t ≢ technician
      → accept_job s id technician scope w ≡ (err conflict, w)
  unfolding accept_job legal_move can_transition_job
  other_technician-conflict j t technician fit seen assigned to_t differs =
      bind-runs _ _ w j w (seen-runs j fit seen)
      ∙ bind-runs _ _ w tt w
          (require-runs _ _ w (ap (λ s. is_ok (can_transition_job s JobStatus.accepted)) assigned))
      ∙ bind-fails _ _ w conflict w (
          require-fails _ _ w (
            ap (λ o. not (other_technician o technician)) to_t
            ∙ ground (arith, differs, ==_iff t technician)))
