-- ===== src/Payments/Types.antt =====
-- backend/payments/models.go, the requests and answers of provider.go, and the errors of the domain.
-- An identifier (`uuid.UUID`) is a number, `uuid.Nil` is 0 and a pointer to one is an option; an
-- instant (`time.Time`) is a number of nanoseconds and its zero value is 0.
use motivra.Prelude.{ℕ, Bool, Option}
use motivra.Prelude.Int.{ℤ}
use motivra.Prelude.Text.{Text}
use motivra.Prelude.Exec.{Result}
use motivra.Payments.Money.{Money}
use motivra.Payments.Status.{IntentStatus, TransactionStatus, RefundStatus}

abbrev pub Uuid : Type 0
Uuid = ℕ

abbrev pub nil_uuid : Uuid
nil_uuid = 0

abbrev pub Instant : Type 0
Instant = ℕ

pub record PaymentIntent : Type 0 where
  pub id : Uuid
  pub tenant_id : Option Uuid
  pub customer_id : Option Uuid
  pub created_by : Uuid
  pub amount_minor : ℤ
  pub currency : Text
  pub status : IntentStatus
  pub provider : Text
  pub provider_ref : Text
  pub job_id : Option Uuid
  pub vehicle_id : Option Uuid
  pub description : Text
  pub failure_reason : Text
  pub succeeded_at : Option Instant
  pub failed_at : Option Instant
  pub canceled_at : Option Instant
  pub created_at : Instant
  pub updated_at : Instant

pub record Transaction : Type 0 where
  pub id : Uuid
  pub intent_id : Uuid
  pub provider : Text
  pub provider_ref : Text
  pub provider_receipt : Text
  pub status : TransactionStatus
  pub amount_minor : ℤ
  pub currency : Text
  pub failure_reason : Text
  pub occurred_at : Option Instant
  pub created_at : Instant
  pub updated_at : Instant

pub record Refund : Type 0 where
  pub id : Uuid
  pub intent_id : Uuid
  pub amount_minor : ℤ
  pub currency : Text
  pub status : RefundStatus
  pub provider : Text
  pub provider_ref : Text
  pub reason : Text
  pub failure_reason : Text
  pub requested_by : Option Uuid
  pub created_at : Instant
  pub updated_at : Instant

pub record IntentTransition : Type 0 where
  pub intent_id : Uuid
  pub from_status : IntentStatus
  pub to_status : IntentStatus
  pub actor_id : Option Uuid
  pub reason : Text
  pub created_at : Instant

-- The normalized webhook event names.
pub data WebhookEvent : Type 0 where
  transaction_succeeded transaction_failed : WebhookEvent
  other : Text → WebhookEvent

pub record WebhookPayload : Type 0 where
  pub event : WebhookEvent
  pub provider : Text
  pub intent_id : Uuid
  pub transaction_id : Uuid
  pub provider_ref : Text
  pub provider_receipt : Text
  pub amount_minor : ℤ
  pub currency : Text
  pub failure_reason : Text
  pub occurred_at : Instant

-- The sentinel that an error of the domain wraps.
pub data Error : Type 0 where
  invalid_input intent_not_found transaction_not_found refund_not_found : Error
  conflict not_refundable already_refunded webhook_unauthorized webhook_rejected : Error
  provider_unavailable provider_rejected : Error
  -- any other failure of a database call, and a failure to publish
  database publish_failed : Error

-- An error of a provider: whether it wraps `ErrProviderUnavailable`, and its message.
pub record ProviderError : Type 0 where
  pub unavailable : Bool
  pub message : Text

-- An error of `WebhookEvent`: whether it wraps `ErrWebhookUnauthorized`.
pub record WebhookError : Type 0 where
  pub unauthorized : Bool

pub record InitiateRequest : Type 0 where
  pub intent_id : Uuid
  pub transaction_id : Uuid
  pub amount : Money
  pub description : Text
  pub payer_phone : Text

pub record InitiateResult : Type 0 where
  pub status : TransactionStatus
  pub provider_ref : Text

pub record QueryResult : Type 0 where
  pub status : TransactionStatus
  pub provider_ref : Text
  pub provider_transaction_ref : Text
  pub amount_minor : ℤ
  pub currency : Text
  pub failure_reason : Text
  pub occurred_at : Instant

pub record RefundRequest : Type 0 where
  pub refund_id : Uuid
  pub intent_id : Uuid
  pub provider_ref : Text
  pub amount : Money
  pub reason : Text

pub record RefundResult : Type 0 where
  pub status : RefundStatus
  pub provider_ref : Text
  pub failure_reason : Text

-- The interface `Provider`. The answers come from outside the program, so they are any functions;
-- `webhook_event` takes the signature header, the body and the time.
pub record Provider : Type 0 where
  pub name : Text
  pub initiate : InitiateRequest → Result ProviderError InitiateResult
  pub query : Text → Result ProviderError QueryResult
  pub refund : RefundRequest → Result ProviderError RefundResult
  pub webhook_event : Text → Text → Instant → Result WebhookError WebhookPayload
