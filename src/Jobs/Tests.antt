-- ===== src/Jobs/Tests.antt =====
-- Runs of the jobs service, and the theorems at them.
use motivra.Prelude.{
  ◌≢◌, ◌≡◌, ◌⊎◌, refl, true, false, List, [], ◌∷◌, Option, none, some, arith, nat_eq,
}
use motivra.Prelude.Text.{bytes}
use motivra.Prelude.Table.{find, update}
use motivra.Prelude.Exec.{err, ◌>>=◌}
use motivra.Jobs.Status.{
  is_terminal_job, JobStatus, can_transition_job, is_known_job, job_status_eq,
}
use motivra.Jobs.Status.Laws.{EndsWithin, job-EndsWithin}
use motivra.Jobs.World.{
  RequestStatus, ServiceRequest, Job, ReadScope, conflict, job_not_found, JobsWorld, round_trip,
  fresh_id,
}
use motivra.Jobs.Store.{
  find_job, scoped_job, job_visible, request_visible, arguments_fit, get_job, get_request,
  create_job, update_job_status, assign_technician, accept_assignment, retire_open, take_open,
  any_open,
}
use motivra.Jobs.Service.{
  JobsService, create_job_from_request, publish_job_event, transition_job, assign_job, accept_job,
  legal_move,
}
use motivra.Jobs.Audit.{JobsSound, start, trail_status, count_open, count_made}
use motivra.Jobs.Audit.Laws.{
  JobsCall, convert, move, assign, accept, jobs_call, jobs_history, jobs_history-JobsSound,
  hidden-job_not_found, terminal-conflict, other_technician-conflict,
}

abbrev service : JobsService
service = record { has_publisher = true }

abbrev operator : ReadScope
operator = record { viewer_id = 1; tenant_id = none; operator = true }

abbrev request : ServiceRequest
request = record {
  id = 20;
  tenant_id = some 7;
  customer_id = 8;
  vehicle_id = none;
  description = bytes "no start";
  address_text = [];
  status = RequestStatus.received;
}

abbrev first_world : JobsWorld
first_world = record {
  requests = request ∷ [];
  jobs = [];
  assignments = [];
  transitions = [];
  outbox = [];
  faults = [];
  next_id = 100;
  clock = 5;
}

abbrev calls : List JobsCall
calls =
    convert 20 operator
    ∷ move 100 JobStatus.triaging none [] operator
    ∷ move 100 JobStatus.dispatching none [] operator
    ∷ assign 100 30 (some 1) operator
    ∷ assign 100 31 (some 1) operator
    ∷ accept 100 31 operator
    ∷ convert 20 operator
    ∷ []

abbrev status_of : Option Job → JobStatus
status_of none = JobStatus.created
status_of (some j) = j.status

-- The job is accepted by the second technician.
calls_run :
    status_of (find_job 100 (jobs_history service calls first_world).jobs) ≡ JobStatus.accepted
unfolding jobs_history jobs_call create_job_from_request ◌>>=◌ get_request get_job round_trip
    request_visible job_visible find create_job fresh_id is_known_job job_status_eq update
    publish_job_event transition_job legal_move can_transition_job update_job_status assign_job
    assign_technician retire_open accept_job accept_assignment any_open take_open
calls_run = refl

first_world-JobsSound : JobsSound first_world
unfolding trail_status find count_open count_made
first_world-JobsSound = record {
  legal = start;
  current = λ id. refl;
  single = λ id. omega arith;
  converted = record { once = λ id. omega arith; unclaimed = λ id c. refl };
}

jobs_history-JobsSound_example : JobsSound (jobs_history service calls first_world)
jobs_history-JobsSound_example =
    jobs_history-JobsSound service calls first_world first_world-JobsSound

abbrev job : Job
job = record {
  id = 100;
  service_request_id = some 20;
  tenant_id = some 7;
  customer_id = 8;
  vehicle_id = none;
  status = JobStatus.assigned;
  problem_summary = [];
  technician_id = some 30;
  created_at = 5;
  updated_at = 5;
}

abbrev assigned_world : JobsWorld
assigned_world = record first_world { requests = []; jobs = job ∷ [] }

abbrev foreigner : ReadScope
foreigner = record { viewer_id = 9; tenant_id = some 99; operator = false }

foreign : (j : Job) → find_job 100 assigned_world.jobs ≡ some j → j.tenant_id ≢ some 99
unfolding find
foreign j h e = ground (arith, h, e)

operator_fits : arguments_fit operator ≡ true
unfolding arguments_fit
operator_fits = refl

job_seen : scoped_job operator (find_job 100 assigned_world.jobs) ≡ some job
unfolding scoped_job job_visible find
job_seen = refl

hidden-job_not_found_example :
    (transition_job service 100 JobStatus.cancelled none [] foreigner assigned_world
      ≡ (err job_not_found, assigned_world))
    × (assign_job service 100 31 none foreigner assigned_world
        ≡ (err job_not_found, assigned_world))
    × (accept_job service 100 31 foreigner assigned_world ≡ (err job_not_found, assigned_world))
hidden-job_not_found_example =
    hidden-job_not_found service 100 foreigner assigned_world refl JobStatus.cancelled none [] 31 99
      refl refl foreign

abbrev failed_job : Job
failed_job = record job { status = JobStatus.failed }

abbrev failed_world : JobsWorld
failed_world = record first_world { requests = []; jobs = failed_job ∷ [] }

failed_seen : scoped_job operator (find_job 100 failed_world.jobs) ≡ some failed_job
unfolding scoped_job job_visible find
failed_seen = refl

failed_ended : is_terminal_job JobStatus.failed ≡ true
unfolding is_terminal_job
failed_ended = refl

terminal-conflict_example :
    (transition_job service 100 JobStatus.dispatching none [] operator failed_world
      ≡ (err conflict, failed_world))
    × (assign_job service 100 31 none operator failed_world ≡ (err conflict, failed_world))
    × (accept_job service 100 31 operator failed_world ≡ (err conflict, failed_world))
terminal-conflict_example =
    terminal-conflict service 100 operator failed_world refl failed_job JobStatus.dispatching none
      [] 31 operator_fits failed_seen failed_ended

other_technician-conflict_example :
    accept_job service 100 31 operator assigned_world ≡ (err conflict, assigned_world)
other_technician-conflict_example =
    other_technician-conflict service 100 operator assigned_world refl job 30 31 operator_fits
      job_seen refl refl (λ e. omega (arith, e))

en_route_known : is_known_job JobStatus.en_route ≡ true
unfolding is_known_job
en_route_known = refl

job-EndsWithin_example :
    (JobStatus.en_route ≡ JobStatus.escalated) ⊎ EndsWithin 4 JobStatus.en_route
job-EndsWithin_example = job-EndsWithin JobStatus.en_route en_route_known
