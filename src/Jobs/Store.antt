-- ===== src/Jobs/Store.antt =====
-- backend/jobs/store.go (`PostgresStore`). Each call is one database transaction: it fails with
-- nothing written, or writes all.
use motivra.Prelude.{
  length, ℕ, suc, Bool, true, false, ◌&&◌, ◌||◌, List, [], ◌∷◌, Option, none, some, ◌==◌,
  if◌then◌else◌, nat_eq,
}
use motivra.Prelude.Text.{Text, bytes}
use motivra.Prelude.Exec.{◌>>=◌, ◌>>◌, gets, find_or_raise, pure, require, check, modify}
use motivra.Prelude.Table.{find, update}
use motivra.Jobs.Status.{JobStatus, is_known_job, job_status_eq}
use motivra.Jobs.World.{
  Uuid, nil_uuid, RequestStatus, AssignmentStatus, ServiceRequest, Job, JobAssignment,
  JobTransition, ReadScope, request_not_found, job_not_found, already_converted, database, Action,
  round_trip, fresh_id,
}

abbrev holds : Option Uuid → Uuid → Bool
holds none v = false
holds (some c) v = c == v

-- The condition of `requestScopePredicate` on the columns of a request.
unfoldable pub request_visible : ReadScope → ServiceRequest → Bool
request_visible scope r = if scope.operator then true else elim scope.tenant_id [
  | some t ↦ holds r.tenant_id t
  | none ↦ if scope.viewer_id == nil_uuid then false else r.customer_id == scope.viewer_id
]

-- The condition of `jobScopePredicate` on the columns of a job.
unfoldable pub job_visible : ReadScope → Job → Bool
job_visible scope j = if scope.operator then true else elim scope.tenant_id [
  | some t ↦ holds j.tenant_id t
  | none ↦
      if scope.viewer_id == nil_uuid
      then false
      else j.customer_id == scope.viewer_id || holds j.technician_id scope.viewer_id
]

-- The values that `jobScopePredicate` returns for the placeholders of its condition. A personal viewer is
-- given twice, for one placeholder.
abbrev viewer_arguments : Option Uuid → Uuid → List Uuid
viewer_arguments (some t) viewer = t ∷ []
viewer_arguments none viewer = if viewer == nil_uuid then [] else viewer ∷ viewer ∷ []

unfoldable pub job_arguments : ReadScope → List Uuid
job_arguments scope =
    if scope.operator then [] else viewer_arguments scope.tenant_id scope.viewer_id

abbrev viewer_placeholders : Option Uuid → Uuid → ℕ
viewer_placeholders (some t) viewer = 1
viewer_placeholders none viewer = if viewer == nil_uuid then 0 else 1

unfoldable pub job_placeholders : ReadScope → ℕ
job_placeholders scope =
    if scope.operator then 0 else viewer_placeholders scope.tenant_id scope.viewer_id

-- The driver refuses a statement with more values than placeholders.
unfoldable pub arguments_fit : ReadScope → Bool
unfolding job_arguments job_placeholders
arguments_fit scope = length (job_arguments scope) == job_placeholders scope

abbrev pub request_id : ServiceRequest → Uuid
request_id r = r.id

abbrev pub job_id : Job → Uuid
job_id j = j.id

abbrev pub find_job : Uuid → List Job → Option Job
find_job = find job_id

abbrev pub find_request : Uuid → List ServiceRequest → Option ServiceRequest
find_request = find request_id

unfoldable pub scoped_request : ReadScope → Option ServiceRequest → Option ServiceRequest
scoped_request scope none = none
scoped_request scope (some r) = if request_visible scope r then some r else none

unfoldable pub scoped_job : ReadScope → Option Job → Option Job
scoped_job scope none = none
scoped_job scope (some j) = if job_visible scope j then some j else none

unfoldable pub get_request : Uuid → ReadScope → Action ServiceRequest
unfolding scoped_request
get_request id scope = do
  round_trip database
  find_or_raise (λ w. scoped_request scope (find_request id w.requests)) request_not_found

unfoldable pub get_job : Uuid → ReadScope → Action Job
unfolding scoped_job arguments_fit
get_job id scope = do
  round_trip database
  require (arguments_fit scope) database
  find_or_raise (λ w. scoped_job scope (find_job id w.jobs)) job_not_found

abbrev pub is_received : RequestStatus → Bool
is_received RequestStatus.received = true
is_received _ = false

abbrev claimable : Option ServiceRequest → Bool
claimable none = false
claimable (some r) = is_received r.status

-- `WHERE id = $1 AND status = 'received'` matches a row, where the job has a request.
abbrev pub may_claim : Option Uuid → List ServiceRequest → Bool
may_claim none rs = true
may_claim (some id) rs = claimable (find_request id rs)

abbrev pub claim_request : Option Uuid → List ServiceRequest → List ServiceRequest
claim_request none rs = rs
claim_request (some id) rs =
    update request_id id (λ r. record r { status = RequestStatus.converted }) rs

abbrev pub default_status : JobStatus → JobStatus
default_status s = if job_status_eq s (JobStatus.other []) then JobStatus.created else s

abbrev pub missing : Option Job → Bool
missing none = true
missing (some _) = false

unfoldable pub create_job : Job → Action Job
create_job job = do
  id ← (if job.id == nil_uuid then fresh_id else pure job.id)
  round_trip database
  now ← gets (λ w. w.clock)
  let j = record job {
    id = id;
    status = default_status job.status;
    created_at = now;
    updated_at = now;
  }
  check (λ w. may_claim j.service_request_id w.requests) already_converted
  require (is_known_job j.status) database
  check (λ w. missing (find_job id w.jobs)) database
  modify (λ w. record w {
    requests = claim_request j.service_request_id w.requests;
    jobs = j ∷ w.jobs;
  })
  pure j

abbrev pub log : Job → JobStatus → Option Uuid → Text → ℕ → JobTransition
log j to actor reason now = record {
  job_id = j.id;
  tenant_id = j.tenant_id;
  from_status = j.status;
  to_status = to;
  actor_id = actor;
  reason = reason;
  created_at = now;
}

-- No test of the status that the job has: the service has made it.
unfoldable pub update_job_status : Uuid → JobStatus → Option Uuid → Text → Action (Unit {0})
update_job_status id new_status actor_id reason = do
  round_trip database
  current ← find_or_raise (λ w. find_job id w.jobs) job_not_found
  require (is_known_job new_status) database
  modify (λ w. record w {
    jobs = update job_id id (λ j. record j { status = new_status; updated_at = w.clock }) w.jobs;
    transitions = log current new_status actor_id reason w.clock ∷ w.transitions;
  })

abbrev pub is_open : AssignmentStatus → Bool
is_open AssignmentStatus.assigned = true
is_open _ = false

unfoldable pub retire_open : Uuid → List JobAssignment → List JobAssignment
retire_open id [] = []
retire_open id (a ∷ as') =
    (if a.job_id == id && is_open a.status
      then record a { status = AssignmentStatus.reassigned }
      else a)
    ∷ retire_open id as'

unfoldable pub assign_technician : Uuid → Uuid → Option Uuid → Action (Unit {0})
unfolding retire_open
assign_technician id technician_id assigned_by = do
  round_trip database
  current ← find_or_raise (λ w. find_job id w.jobs) job_not_found
  modify (λ w. record w {
    assignments =
        record {
          id = w.next_id;
          job_id = id;
          tenant_id = current.tenant_id;
          technician_id = technician_id;
          assigned_by = assigned_by;
          accepted_at = none;
          status = AssignmentStatus.assigned;
          created_at = w.clock;
        }
        ∷ retire_open id w.assignments;
    jobs =
        update job_id id
          (λ j. record j {
            status = JobStatus.assigned;
            technician_id = some technician_id;
            updated_at = w.clock;
          })
          w.jobs;
    transitions =
        log current JobStatus.assigned assigned_by (bytes "technician assigned") w.clock
        ∷ w.transitions;
    next_id = suc w.next_id;
  })

-- The rows that the acceptance matches.
abbrev pub takes : Uuid → Uuid → JobAssignment → Bool
takes id technician_id a = a.job_id == id && (a.technician_id == technician_id && is_open a.status)

unfoldable pub any_open : Uuid → Uuid → List JobAssignment → Bool
any_open id technician_id [] = false
any_open id technician_id (a ∷ as') =
    let rest = any_open id technician_id as' in takes id technician_id a || rest

unfoldable pub take_open : Uuid → Uuid → ℕ → List JobAssignment → List JobAssignment
take_open id technician_id now [] = []
take_open id technician_id now (a ∷ as') =
    (if takes id technician_id a
      then record a { status = AssignmentStatus.accepted; accepted_at = some now }
      else a)
    ∷ take_open id technician_id now as'

unfoldable pub accept_assignment : Uuid → Uuid → Action (Unit {0})
unfolding any_open take_open
accept_assignment id technician_id = do
  round_trip database
  current ← find_or_raise (λ w. find_job id w.jobs) job_not_found
  check (λ w. any_open id technician_id w.assignments) database
  modify (λ w. record w {
    assignments = take_open id technician_id w.clock w.assignments;
    jobs =
        update job_id id (λ j. record j { status = JobStatus.accepted; updated_at = w.clock })
          w.jobs;
    transitions =
        log current JobStatus.accepted (some technician_id) (bytes "technician accepted assignment")
          w.clock
        ∷ w.transitions;
  })
