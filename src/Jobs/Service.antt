-- ===== src/Jobs/Service.antt =====
-- backend/jobs/service.go: the conversion of a request, the moves of a job and its assignments.
-- CreateRequest, which checks floating-point coordinates, and the list reads are not modelled; a value
-- that a call returns beside an error is dropped.
use motivra.Prelude.{Bool, true, false, not, ◌∷◌, Option, none, some, ◌==◌, if◌then◌else◌}
use motivra.Prelude.Text.{Text, bytes}
use motivra.Prelude.Exec.{Result, ok, err, ◌>>=◌, ◌>>◌, pure, require, modify}
use motivra.Jobs.Status.{JobStatus, JobConflict, can_transition_job}
use motivra.Jobs.World.{
  Uuid, nil_uuid, ServiceRequest, Job, ReadScope, already_converted, conflict, publish_failed,
  JobsPayload, Action, round_trip,
}
use motivra.Jobs.Store.{
  get_request, get_job, create_job, update_job_status, assign_technician, accept_assignment,
  is_received,
}

-- `Service`, by whether it has a publisher.
pub record JobsService : Type 0 where
  pub has_publisher : Bool

abbrev pub actor_of : Option Uuid → Option Uuid
actor_of none = none
actor_of (some id) = if id == nil_uuid then none else some id

unfoldable pub publish_job_event :
    JobsService → Uuid → Option Uuid → Option Uuid → JobsPayload → Action (Unit {0})
publish_job_event s aggregate_id actor_id tenant_id payload =
    if s.has_publisher
    then (do
      round_trip publish_failed
      modify (λ w. record w {
        outbox =
            record {
              aggregate_id = aggregate_id;
              actor = actor_of actor_id;
              tenant_id = tenant_id;
              payload = payload;
            }
            ∷ w.outbox;
      }))
    else pure tt

abbrev new_job : ServiceRequest → Job
new_job r = record {
  id = nil_uuid;
  service_request_id = some r.id;
  tenant_id = r.tenant_id;
  customer_id = r.customer_id;
  vehicle_id = r.vehicle_id;
  status = JobStatus.created;
  problem_summary = r.description;
  technician_id = none;
  created_at = 0;
  updated_at = 0;
}

unfoldable pub create_job_from_request : JobsService → Uuid → ReadScope → Action Job
create_job_from_request s request_id scope = do
  request ← get_request request_id scope
  require (is_received request.status) already_converted
  job ← create_job (new_job request)
  publish_job_event s job.id (some scope.viewer_id) job.tenant_id (
      JobsPayload.job_created job.id job.service_request_id job.customer_id job.vehicle_id
        job.problem_summary)
  pure job

abbrev pub is_ok : Result JobConflict (Unit {0}) → Bool
is_ok (ok _) = true
is_ok (err _) = false

-- `if err := CanTransition(from, to); err != nil { return err }`
unfoldable pub legal_move : JobStatus → JobStatus → Action (Unit {0})
legal_move from to = require (is_ok (can_transition_job from to)) conflict

unfoldable pub transition_job :
    JobsService → Uuid → JobStatus → Option Uuid → Text → ReadScope → Action (Unit {0})
unfolding legal_move
transition_job s id to actor_id reason scope = do
  job ← get_job id scope
  legal_move job.status to
  update_job_status id to actor_id reason
  publish_job_event s id actor_id job.tenant_id
      (JobsPayload.job_status_changed id job.status to reason actor_id)

abbrev is_technician : Option Uuid → Uuid → Bool
is_technician none id = false
is_technician (some t) id = t == id

-- The assignment of a job in DISPATCHING.
unfoldable pub dispatch_job : JobsService → Job → Uuid → Uuid → Option Uuid → Action (Unit {0})
dispatch_job s job id technician_id assigned_by = do
  assign_technician id technician_id assigned_by
  publish_job_event s id assigned_by job.tenant_id
      (JobsPayload.job_assigned id technician_id assigned_by)

-- The assignment of a job in ASSIGNED: back to DISPATCHING first.
unfoldable pub reassign_job :
    JobsService → Job → Uuid → Uuid → Option Uuid → ReadScope → Action (Unit {0})
unfolding transition_job dispatch_job
reassign_job s job id technician_id assigned_by scope = do
  require (not (is_technician job.technician_id technician_id)) conflict
  transition_job s id JobStatus.dispatching assigned_by (bytes "reassignment") scope
  dispatch_job s job id technician_id assigned_by

-- The `switch` on the status.
abbrev pub assign_by_status :
    JobsService → Job → JobStatus → Uuid → Uuid → Option Uuid → ReadScope → Action (Unit {0})
assign_by_status s job JobStatus.dispatching id technician_id assigned_by scope =
    dispatch_job s job id technician_id assigned_by
assign_by_status s job JobStatus.assigned id technician_id assigned_by scope =
    reassign_job s job id technician_id assigned_by scope
assign_by_status s job status id technician_id assigned_by scope =
    legal_move status JobStatus.assigned

unfoldable pub assign_job : JobsService → Uuid → Uuid → Option Uuid → ReadScope → Action (Unit {0})
unfolding reassign_job dispatch_job legal_move
assign_job s id technician_id assigned_by scope = do
  job ← get_job id scope
  assign_by_status s job job.status id technician_id assigned_by scope

abbrev pub other_technician : Option Uuid → Uuid → Bool
other_technician none id = false
other_technician (some t) id = not (t == id)

unfoldable pub accept_job : JobsService → Uuid → Uuid → ReadScope → Action (Unit {0})
unfolding legal_move
accept_job s id technician_id scope = do
  job ← get_job id scope
  legal_move job.status JobStatus.accepted
  require (not (other_technician job.technician_id technician_id)) conflict
  accept_assignment id technician_id
  publish_job_event s id (some technician_id) job.tenant_id (
      JobsPayload.job_status_changed id job.status JobStatus.accepted
        (bytes "technician accepted assignment") (some technician_id))
