-- ===== src/Identity/Service.antt =====
-- backend/identity/service.go, events.go and the writing half of audit.go: the service, its audit
-- entries, events and breach check. The texts of the entries' notes are left out.
pub mod Verification
pub mod Accounts
pub mod Sessions
use motivra.Prelude.{
  ℕ, Bool, true, false, ◌||◌, ◌∷◌, [], Option, none, some, ltb, ◌==◌, length, if◌then◌else◌,
}
use motivra.Prelude.Text.{Text}
use motivra.Prelude.Exec.{ok, err, ◌>>=◌, ◌>>◌, gets, pure, raise, modify}
use motivra.Identity.World.{
  Uuid, AuditAction, AuditObject, Metadata, Field, breach_check_unavailable, validation,
  publish_failed, IdentityPayload, IdentityWorld, Action, round_trip, actor_of,
}
use motivra.Identity.Store.Users.{insert_audit}
use motivra.Identity.Password.{KeyDerivation, min_password_length, max_password_length}
use motivra.Identity.Issuer.{Issuer}

pub data Breach : Type 0 where
  breached clean unavailable : Breach

-- `Service` and its options. The breach check may answer by the state of the world outside, so that it
-- can change its answer from call to call; the redaction of free text is a parameter.
pub record IdentityService : Type 0 where
  pub issuer : Issuer
  pub id_key : KeyDerivation
  pub has_publisher : Bool
  pub breacher : Option (Text → IdentityWorld → Breach)
  pub breach_fail_closed : Bool
  pub token_ttl : ℕ
  pub resend_cooldown : ℕ
  pub resend_limit : ℕ
  pub dev_echo : Bool
  pub redact : Text → Text

-- RecordAudit refuses an entry without an action, an object type or an object id: no entry is so.
unfoldable pub audit : Uuid → AuditAction → AuditObject → Metadata → Action (Unit {0})
unfolding insert_audit
audit actor action object metadata = insert_audit (record {
  actor_id = actor_of actor;
  action = action;
  object = object;
  tenant_id = none;
  metadata = metadata;
})

unfoldable pub publish :
    IdentityService → Uuid → Option Uuid → Option Uuid → IdentityPayload → Action (Unit {0})
publish s aggregate_id tenant_id actor_id payload =
    if s.has_publisher
    then (do
      round_trip publish_failed
      modify (λ w. record w {
        outbox =
            record {
              aggregate_id = aggregate_id;
              tenant_id = tenant_id;
              actor_id = actor_id;
              payload = payload;
            }
            ∷ w.outbox;
      }))
    else pure tt

abbrev pub after_breach : Bool → Breach → Action Bool
after_breach closed Breach.clean = pure false
after_breach closed Breach.breached = raise (validation (Field.password ∷ []))
after_breach closed Breach.unavailable =
    if closed then raise breach_check_unavailable else pure true

abbrev pub ask_breacher : Option (Text → IdentityWorld → Breach) → Bool → Text → Action Bool
ask_breacher none closed password = pure false
ask_breacher (some b) closed password = do
  answer ← gets (λ w. b password w)
  after_breach closed answer

-- Whether the check fell open, which is audited once the user is known.
unfoldable pub check_password_breach : IdentityService → Text → Action Bool
check_password_breach s password =
    if ltb (length password) min_password_length || ltb max_password_length (length password)
    then pure false
    else ask_breacher s.breacher s.breach_fail_closed password

unfoldable pub audit_breach_note : Uuid → Action (Unit {0})
unfolding audit
audit_breach_note id =
    audit id AuditAction.breach_check_unavailable (AuditObject.user id) Metadata.note

-- The note of a check that fell open.
abbrev pub note_breach : Bool → Uuid → Action (Unit {0})
note_breach noted id = if noted then audit_breach_note id else pure tt
