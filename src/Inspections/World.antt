-- ===== src/Inspections/World.antt =====
-- backend/inspections/models.go, the errors of the domain, and what an inspection call reads and writes.
-- An identifier is a number (0 is the zero UUID, and the order of the numbers is that of the printed
-- identifiers), an instant a number of nanoseconds (0 is the zero time), and the clock stands still
-- during a call. `faults` says which of the coming database calls and publications fail.
use motivra.Prelude.{
  ℕ, suc, Bool, true, false, List, [], ◌∷◌, Option, none, some, ◌==◌, if◌then◌else◌,
}
use motivra.Prelude.Text.{Text}
use motivra.Prelude.Exec.{Result, ok, err, Exec}
use motivra.Inspections.Status.{SessionStatus}

abbrev pub Uuid : Type 0
Uuid = ℕ

abbrev pub nil_uuid : Uuid
nil_uuid = 0

-- `other` holds any other text.
pub data VehicleClass : Type 0 where
  motorcycle sedan suv pickup truck bus : VehicleClass
  other : Text → VehicleClass

abbrev pub is_vehicle_class : VehicleClass → Bool
is_vehicle_class (VehicleClass.other _) = false
is_vehicle_class _ = true

pub data FindingResult : Type 0 where
  pass fail attention not_applicable : FindingResult
  other : Text → FindingResult

pub data Severity : Type 0 where
  green amber red : Severity
  other : Text → Severity

pub data EvidenceKind : Type 0 where
  photo reading document : EvidenceKind
  other : Text → EvidenceKind

abbrev pub is_evidence_kind : EvidenceKind → Bool
is_evidence_kind (EvidenceKind.other _) = false
is_evidence_kind _ = true

pub record TemplateItem : Type 0 where
  pub key : Text
  pub label : Text
  pub required : Bool

pub record Template : Type 0 where
  pub id : Uuid
  pub vehicle_class : VehicleClass
  pub name : Text
  pub version : ℕ
  pub items : List TemplateItem
  pub active : Bool

pub record InspectionSession : Type 0 where
  pub id : Uuid
  pub tenant_id : Option Uuid
  pub vehicle_id : Option Uuid
  pub job_id : Option Uuid
  pub customer_id : Option Uuid
  pub vehicle_class : VehicleClass
  pub template_id : Uuid
  pub template_name : Text
  pub template_version : ℕ
  pub inspector_id : Uuid
  pub status : SessionStatus
  pub started_at : Option ℕ
  pub submitted_at : Option ℕ
  pub reported_at : Option ℕ
  pub created_at : ℕ
  pub updated_at : ℕ

pub record Finding : Type 0 where
  pub id : Uuid
  pub session_id : Uuid
  pub item_key : Text
  pub result : FindingResult
  pub severity : Severity
  pub notes : Text
  pub recorded_by : Option Uuid
  pub created_at : ℕ

pub record Evidence : Type 0 where
  pub id : Uuid
  pub session_id : Uuid
  pub finding_id : Option Uuid
  pub kind : EvidenceKind
  pub content_hash : Text
  pub captured_at : ℕ
  pub captured_by : Option Uuid
  pub uploaded : Bool
  pub notes : Text
  pub created_at : ℕ

pub record Report : Type 0 where
  pub id : Uuid
  pub session_id : Uuid
  pub version : ℕ
  pub vehicle_id : Option Uuid
  pub job_id : Option Uuid
  pub inspector_id : Uuid
  pub template_id : Uuid
  pub template_name : Text
  pub template_version : ℕ
  pub findings_snapshot : Text
  pub evidence_snapshot : Text
  pub findings_count : ℕ
  pub evidence_count : ℕ
  pub content_hash : Text
  pub issued_by : Option Uuid
  pub notes : Text
  pub created_at : ℕ

pub record ReportVerification : Type 0 where
  pub report_id : Uuid
  pub session_id : Uuid
  pub version : ℕ
  pub verified : Bool
  pub hash_match : Bool
  pub findings_match : Bool
  pub evidence_match : Bool
  pub template_match : Bool
  pub findings_checked : ℕ
  pub evidence_checked : ℕ
  pub stored_hash : Text
  pub recomputed_hash : Text
  pub checked_at : ℕ

-- The serial number of a row is left out.
pub record SessionTransition : Type 0 where
  pub session_id : Uuid
  pub from_status : SessionStatus
  pub to_status : SessionStatus
  pub actor_id : Option Uuid
  pub reason : Text
  pub created_at : ℕ

-- The payloads of the events.
pub data InspectionPayload : Type 0 where
  session_created : InspectionSession → InspectionPayload
  session_started : Uuid → Uuid → Option Uuid → InspectionPayload
  session_submitted : Uuid → Uuid → ℕ → ℕ → Option Uuid → Option Uuid → InspectionPayload
  report_issued : Uuid → Uuid → ℕ → Text → Uuid → ℕ → ℕ → ℕ → InspectionPayload

pub record InspectionEvent : Type 0 where
  pub aggregate_id : Uuid
  pub tenant_id : Option Uuid
  pub actor_id : Option Uuid
  pub payload : InspectionPayload

-- The errors, without their texts; `database` is any failure of a database call that has no name.
pub data InspectionError : Type 0 where
  session_not_found report_not_found conflict session_sealed not_inspector : InspectionError
  invalid_input template_not_found no_active_template report_incomplete : InspectionError
  database publish_failed : InspectionError

pub record InspectionWorld : Type 0 where
  pub sessions : List InspectionSession
  pub findings : List Finding
  pub evidence : List Evidence
  pub reports : List Report
  pub transitions : List SessionTransition
  pub outbox : List InspectionEvent
  pub faults : List Bool
  pub next_id : Uuid
  pub clock : ℕ

abbrev pub Action : Type 0 → Type 0
Action A = Exec InspectionWorld InspectionError A

abbrev pub failing :
    List Bool
    → InspectionError
    → InspectionWorld
    → Result InspectionError (Unit {0}) × InspectionWorld
failing [] e w = (ok tt, w)
failing (true ∷ fs) e w = (err e, record w { faults = fs })
failing (false ∷ fs) e w = (ok tt, record w { faults = fs })

-- One round trip that may fail.
unfoldable pub round_trip : InspectionError → Action (Unit {0})
round_trip e w = failing w.faults e w

-- `if x.ID == uuid.Nil { x.ID = uuid.New() }`
abbrev pub given_or_next : Uuid → InspectionWorld → Result InspectionError Uuid × InspectionWorld
given_or_next id w =
    if id == nil_uuid then (ok w.next_id, record w { next_id = suc w.next_id }) else (ok id, w)

unfoldable pub own_id : Uuid → Action Uuid
own_id id w = given_or_next id w

abbrev pub is_none : {A : Type 0} → Option A → Bool
is_none none = true
is_none (some _) = false

abbrev pub is_some : {A : Type 0} → Option A → Bool
is_some none = false
is_some (some _) = true
