-- ===== src/Payments/Service.antt =====
-- backend/payments/service.go: what the service is made of, and the helpers that its calls share.
-- Metrics are not modelled; a value that a call returns beside an error is dropped, as the HTTP
-- handlers drop it.
pub mod Initiate
pub mod Webhook
pub mod Refund
use motivra.Prelude.{
  ℕ, Bool, true, false, List, [], ◌∷◌, Option, none, some, ◌==◌, if◌then◌else◌, take,
}
use motivra.Prelude.Text.{Text, bytes, text_eq}
use motivra.Prelude.Exec.{ok, ◌>>=◌, ◌>>◌, or_raise, pure, raise, require, modify}
use motivra.Payments.Types.{
  Uuid, nil_uuid, Provider, ProviderError, Error, invalid_input, publish_failed,
  provider_unavailable, provider_rejected,
}
use motivra.Payments.World.{World, Action, Event, Payload, attempt}

-- `Service`. `redact` is `platform.RedactFreeText` and `sha256_hex` the hash of the standard library.
pub record Service : Type 0 where
  pub providers : List (Text × Provider)
  pub default_provider : Text
  pub has_publisher : Bool
  pub redact : Text → Text
  pub sha256_hex : Text → Text

abbrev pub or_default : Text → Text → Text
or_default [] default = default
or_default (c ∷ cs) default = c ∷ cs

unfoldable pub lookup_provider : Text → List (Text × Provider) → Option Provider
lookup_provider name [] = none
lookup_provider name ((k, p) ∷ ps) = if text_eq k name then some p else lookup_provider name ps

-- `Service.Provider`
unfoldable pub provider_named : Service → Text → Action Provider
provider_named s name =
    or_raise
      (lookup_provider (or_default (or_default name s.default_provider) (bytes "sandbox"))
        s.providers)
      invalid_input

-- `validateOptionalID`
abbrev pub valid_optional_id : Option Uuid → Bool
valid_optional_id none = true
valid_optional_id (some id) = if id == nil_uuid then false else true

abbrev pub max_webhook_failure_reason : ℕ
max_webhook_failure_reason = 500

-- `failureReasonFrom`
unfoldable pub failure_reason_from : ProviderError → Text
failure_reason_from e = take max_webhook_failure_reason e.message

-- The sentinel of a provider's error, as the caller gets it.
abbrev pub provider_error : ProviderError → Error
provider_error e = if e.unavailable then provider_unavailable else provider_rejected

abbrev actor_of : Option Uuid → Option Uuid
actor_of none = none
actor_of (some id) = if id == nil_uuid then none else some id

-- `publish`
unfoldable pub publish : Service → Uuid → Option Uuid → Option Uuid → Payload → Action (Unit {0})
publish s aggregate_id actor_id tenant_id payload =
    if s.has_publisher
    then (do
      attempt publish_failed
      modify (λ w. record w {
        outbox =
            record {
              aggregate_id = aggregate_id;
              actor = actor_of actor_id;
              tenant_id = tenant_id;
              payload = payload;
            }
            ∷ w.outbox;
      }))
    else pure tt

-- `_ = s.publish(…)`
unfoldable pub publish_ignoring :
    Service → Uuid → Option Uuid → Option Uuid → Payload → Action (Unit {0})
publish_ignoring s aggregate_id actor_id tenant_id payload w =
    (ok tt, (publish s aggregate_id actor_id tenant_id payload w).1)
