-- ===== src/Identity/World.antt =====
-- backend/identity/models.go, audit.go, events.go and config.go, the errors of the domain, and what an
-- identity call reads and writes. An identifier is a number (0 is the zero UUID), an instant and a
-- duration are numbers of nanoseconds, and the clock stands still during a call. `faults` says which of
-- the coming database calls and publications fail, and `draws` what the random generator will give.
use motivra.Prelude.{
  ℕ, suc, Bool, true, false, List, [], ◌∷◌, Option, none, some, ◌==◌, if◌then◌else◌,
}
use motivra.Prelude.Text.{Text}
use motivra.Prelude.Exec.{Result, ok, err, Exec}
use motivra.Identity.Roles.{Role}

abbrev pub Uuid : Type 0
Uuid = ℕ

abbrev pub nil_uuid : Uuid
nil_uuid = 0

pub data UserStatus : Type 0 where
  active suspended deleted : UserStatus

pub record User : Type 0 where
  pub id : Uuid
  pub email : Text
  pub phone : Text
  pub full_name : Text
  pub password_hash : Text
  pub status : UserStatus
  pub roles : List Role
  pub email_verified_at : Option ℕ
  pub phone_verified_at : Option ℕ
  pub created_at : ℕ
  pub updated_at : ℕ

abbrev pub is_set : {A : Type 0} → Option A → Bool
is_set none = false
is_set (some _) = true

abbrev pub is_blank : Text → Bool
is_blank [] = true
is_blank (_ ∷ _) = false

unfoldable pub verification_satisfied : User → Bool
verification_satisfied u =
    if is_set u.email_verified_at
    then (if is_blank u.phone then true else is_set u.phone_verified_at)
    else false

pub record Session : Type 0 where
  pub id : Uuid
  pub user_id : Uuid
  pub refresh_token_hash : Text
  pub device_name : Text
  pub ip_address : Text
  pub created_at : ℕ
  pub expires_at : ℕ
  pub absolute_expires_at : ℕ
  pub revoked_at : Option ℕ

pub record RoleGrant : Type 0 where
  pub user_id : Uuid
  pub role : Role
  pub tenant_id : Option Uuid

pub data VerificationChannel : Type 0 where
  email phone : VerificationChannel
  other : Text → VerificationChannel

unfoldable pub is_valid_channel : VerificationChannel → Bool
is_valid_channel VerificationChannel.email = true
is_valid_channel VerificationChannel.phone = true
is_valid_channel _ = false

pub record VerificationToken : Type 0 where
  pub id : Uuid
  pub user_id : Uuid
  pub channel : VerificationChannel
  pub token_hash : Text
  pub expires_at : ℕ
  pub consumed_at : Option ℕ
  pub created_at : ℕ

-- The constants of audit.go.
pub data AuditAction : Type 0 where
  user_registered user_login session_refreshed session_revoked role_granted : AuditAction
  session_revoked_all password_changed breach_check_unavailable : AuditAction
  verification_issued verification_verified verification_resent users_listed : AuditAction

pub data AuditObject : Type 0 where
  user session : Uuid → AuditObject
  collection : AuditObject

-- The values of the metadata of an entry.
pub data Metadata : Type 0 where
  no_metadata : Metadata
  registration : Text → Text → Text → Metadata
  device : Text → Text → Metadata
  note : Metadata
  sessions_revoked : ℕ → Metadata
  via_refresh_token : Metadata
  via_sessions_api : Uuid → Text → Metadata
  granted : Role → Metadata
  issued : VerificationChannel → ℕ → Metadata
  verified : VerificationChannel → Metadata
  page : ℕ → ℕ → ℕ → Metadata

pub record AuditEntry : Type 0 where
  pub actor_id : Option Uuid
  pub action : AuditAction
  pub object : AuditObject
  pub tenant_id : Option Uuid
  pub metadata : Metadata

-- A row of audit_log with its server-side time; its serial number is left out.
pub record AuditRecord : Type 0 where
  pub entry : AuditEntry
  pub created_at : ℕ

pub data IdentityPayload : Type 0 where
  user_created : Uuid → UserStatus → List Role → IdentityPayload
  role_granted : Uuid → Role → Option Uuid → IdentityPayload

pub record IdentityEvent : Type 0 where
  pub aggregate_id : Uuid
  pub tenant_id : Option Uuid
  pub actor_id : Option Uuid
  pub payload : IdentityPayload

pub data Field : Type 0 where
  email full_name password role refresh_token token channel : Field

-- The errors, without their texts and what they are wrapped in: `missing` is ErrUserNotFound,
-- `database` any other failure of a database call, `entropy` one of the random generator.
pub data IdentityError : Type 0 where
  missing token_consumed database publish_failed entropy signing_failed bad_hash : IdentityError
  email_taken phone_taken user_exists role_assigned session_exists token_exists : IdentityError
  invalid_login invalid_refresh_token invalid_verification_token wrong_password : IdentityError
  inactive verification_required user_not_found session_not_found : IdentityError
  breach_check_unavailable resend_cooldown resend_limit : IdentityError
  validation : List Field → IdentityError

pub record IdentityWorld : Type 0 where
  pub users : List User
  pub grants : List RoleGrant
  pub sessions : List Session
  pub tokens : List VerificationToken
  pub audit_log : List AuditRecord
  pub outbox : List IdentityEvent
  pub faults : List Bool
  pub draws : List Text
  pub next_id : Uuid
  pub clock : ℕ

abbrev pub Action : Type 0 → Type 0
Action A = Exec IdentityWorld IdentityError A

abbrev pub failing :
    List Bool → IdentityError → IdentityWorld → Result IdentityError (Unit {0}) × IdentityWorld
failing [] e w = (ok tt, w)
failing (true ∷ fs) e w = (err e, record w { faults = fs })
failing (false ∷ fs) e w = (ok tt, record w { faults = fs })

-- One round trip that may fail.
unfoldable pub round_trip : IdentityError → Action (Unit {0})
round_trip e w = failing w.faults e w

-- `uuid.New()`
unfoldable pub fresh_id : Action Uuid
fresh_id w = (ok w.next_id, record w { next_id = suc w.next_id })

abbrev pub drawn : List Text → IdentityWorld → Result IdentityError Text × IdentityWorld
drawn [] w = (err IdentityError.entropy, w)
drawn (d ∷ ds) w = (ok d, record w { draws = ds })

-- `rand.Read`: no draw left stands for a read that fails.
unfoldable pub random_bytes : Action Text
random_bytes w = drawn w.draws w

-- `if isNotFound(err) { return …, e }`, where other errors pass.
abbrev pub when_missing : IdentityError → IdentityError → IdentityError
when_missing e IdentityError.missing = e
when_missing e x = x

-- A nil, system actor for the zero UUID.
abbrev pub actor_of : Uuid → Option Uuid
actor_of id = if id == nil_uuid then none else some id

abbrev pub found_or_none : {A : Type 0} → Result IdentityError A → Result IdentityError (Option A)
found_or_none (ok a) = ok (some a)
found_or_none (err IdentityError.missing) = ok none
found_or_none (err e) = err e

-- A missing row is no error here.
unfoldable pub unless_missing : {A : Type 0} → Action A → Action (Option A)
unless_missing m w = let (r, w') = m w in (found_or_none r, w')
