-- ===== src/Jobs/World.antt =====
-- backend/jobs/models.go and scope.go, the errors of the domain, and what a jobs call reads and
-- writes. An identifier is a number (0 is `uuid.Nil`), an instant a number of nanoseconds. The
-- coordinates of a request, which are floating point, and the serial numbers of the audit rows are not
-- modelled. `faults` says which of the coming database calls and publications fail.
use motivra.Prelude.{ℕ, suc, Bool, true, false, List, [], ◌∷◌, Option}
use motivra.Prelude.Text.{Text}
use motivra.Prelude.Exec.{Result, ok, err, Exec}
use motivra.Jobs.Status.{JobStatus}

abbrev pub Uuid : Type 0
Uuid = ℕ

abbrev pub nil_uuid : Uuid
nil_uuid = 0

pub data RequestStatus : Type 0 where
  received converted cancelled : RequestStatus

pub data AssignmentStatus : Type 0 where
  assigned accepted declined reassigned : AssignmentStatus

pub record ServiceRequest : Type 0 where
  pub id : Uuid
  pub tenant_id : Option Uuid
  pub customer_id : Uuid
  pub vehicle_id : Option Uuid
  pub description : Text
  pub address_text : Text
  pub status : RequestStatus

pub record Job : Type 0 where
  pub id : Uuid
  pub service_request_id : Option Uuid
  pub tenant_id : Option Uuid
  pub customer_id : Uuid
  pub vehicle_id : Option Uuid
  pub status : JobStatus
  pub problem_summary : Text
  pub technician_id : Option Uuid
  pub created_at : ℕ
  pub updated_at : ℕ

pub record JobAssignment : Type 0 where
  pub id : Uuid
  pub job_id : Uuid
  pub tenant_id : Option Uuid
  pub technician_id : Uuid
  pub assigned_by : Option Uuid
  pub accepted_at : Option ℕ
  pub status : AssignmentStatus
  pub created_at : ℕ

pub record JobTransition : Type 0 where
  pub job_id : Uuid
  pub tenant_id : Option Uuid
  pub from_status : JobStatus
  pub to_status : JobStatus
  pub actor_id : Option Uuid
  pub reason : Text
  pub created_at : ℕ

pub record ReadScope : Type 0 where
  pub viewer_id : Uuid
  pub tenant_id : Option Uuid
  pub operator : Bool

pub data JobsError : Type 0 where
  request_not_found job_not_found already_converted conflict : JobsError
  -- any other failure of a database call, and a failure to publish
  database publish_failed : JobsError

-- The events of the domain with the fields of their payloads.
pub data JobsPayload : Type 0 where
  job_created : Uuid → Option Uuid → Uuid → Option Uuid → Text → JobsPayload
  job_status_changed : Uuid → JobStatus → JobStatus → Text → Option Uuid → JobsPayload
  job_assigned : Uuid → Uuid → Option Uuid → JobsPayload

pub record JobsEvent : Type 0 where
  pub aggregate_id : Uuid
  pub actor : Option Uuid
  pub tenant_id : Option Uuid
  pub payload : JobsPayload

pub record JobsWorld : Type 0 where
  pub requests : List ServiceRequest
  pub jobs : List Job
  pub assignments : List JobAssignment
  pub transitions : List JobTransition
  pub outbox : List JobsEvent
  pub faults : List Bool
  pub next_id : Uuid
  pub clock : ℕ

abbrev pub Action : Type 0 → Type 0
Action A = Exec JobsWorld JobsError A

abbrev pub failing : List Bool → JobsError → JobsWorld → Result JobsError (Unit {0}) × JobsWorld
failing [] e w = (ok tt, w)
failing (true ∷ fs) e w = (err e, record w { faults = fs })
failing (false ∷ fs) e w = (ok tt, record w { faults = fs })

-- One round trip that may fail.
unfoldable pub round_trip : JobsError → Action (Unit {0})
round_trip e w = failing w.faults e w

-- `uuid.New()`: identifiers that no row has yet.
unfoldable pub fresh_id : Action Uuid
fresh_id w = (ok w.next_id, record w { next_id = suc w.next_id })
