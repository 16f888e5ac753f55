-- ===== src/Payments/Service/Initiate.antt =====
-- `InitiatePayment`.
use motivra.Prelude.{ℕ, not, [], Option, none, some, ◌==◌, leb, if◌then◌else◌, length}
use motivra.Prelude.Int.{ℤ}
use motivra.Prelude.Text.{Text, bytes}
use motivra.Prelude.Exec.{Result, ok, err, ◌>>=◌, ◌>>◌, or_raise, pure, raise, require}
use motivra.Payments.Money.{Money, new_money}
use motivra.Payments.Status.{IntentStatus, TransactionStatus}
use motivra.Payments.Types.{
  Uuid, nil_uuid, PaymentIntent, Transaction, Provider, ProviderError, InitiateResult,
  invalid_input,
}
use motivra.Payments.World.{Action, Payload, SettledBy, new_uuid}
use motivra.Payments.Store.Writes.{create_intent, update_intent_status, insert_transaction}
use motivra.Payments.Service.{
  Service, provider_named, valid_optional_id, failure_reason_from, provider_error, publish,
  publish_ignoring,
}

abbrev pub max_description_length : ℕ
max_description_length = 200

pub record InitiateInput : Type 0 where
  pub tenant_id : Option Uuid
  pub created_by : Uuid
  pub customer_id : Option Uuid
  pub amount_minor : ℤ
  pub currency : Text
  pub provider : Text
  pub job_id : Option Uuid
  pub vehicle_id : Option Uuid
  pub description : Text
  pub payer_phone : Text

pub record InitiatedPayment : Type 0 where
  pub intent : PaymentIntent
  pub transaction : Transaction

abbrev new_intent : Service → InitiateInput → Money → Provider → PaymentIntent
new_intent s input amount provider = record {
  id = nil_uuid;
  tenant_id = input.tenant_id;
  customer_id = input.customer_id;
  created_by = input.created_by;
  amount_minor = amount.amount_minor;
  currency = amount.currency;
  status = IntentStatus.created;
  provider = provider.name;
  provider_ref = [];
  job_id = input.job_id;
  vehicle_id = input.vehicle_id;
  description = s.redact input.description;
  failure_reason = [];
  succeeded_at = none;
  failed_at = none;
  canceled_at = none;
  created_at = 0;
  updated_at = 0;
}

-- The row of one settlement attempt.
abbrev new_transaction :
    PaymentIntent → Uuid → Provider → Money → TransactionStatus → Text → Text → Transaction
new_transaction intent tx_id provider amount status provider_ref failure_reason = record {
  id = tx_id;
  intent_id = intent.id;
  provider = provider.name;
  provider_ref = provider_ref;
  provider_receipt = [];
  status = status;
  amount_minor = amount.amount_minor;
  currency = amount.currency;
  failure_reason = failure_reason;
  occurred_at = none;
  created_at = 0;
  updated_at = 0;
}

abbrev created_payload : PaymentIntent → Payload
created_payload i =
    Payload.intent_created i.id i.amount_minor i.currency i.provider i.customer_id i.job_id
      i.vehicle_id

abbrev rejected_payload : Transaction → Payload
rejected_payload t =
    Payload.transaction_failed t.intent_id t.id t.provider [] [] t.amount_minor t.currency
      SettledBy.initiation t.failure_reason

abbrev pub rejected_reason : Text
rejected_reason = bytes "provider rejected the initiation"

abbrev pub accepted_reason : Text
accepted_reason = bytes "provider accepted the initiation"

-- The provider refused: the failed attempt is recorded, and the error returned.
unfoldable pub record_rejection :
    Service
    → InitiateInput
    → PaymentIntent
    → Uuid
    → Provider
    → Money
    → ProviderError
    → Action InitiatedPayment
record_rejection s input intent tx_id provider amount e = do
  failed ← insert_transaction (
      new_transaction intent tx_id provider amount TransactionStatus.failed []
        (failure_reason_from e))
  update_intent_status intent.id IntentStatus.created IntentStatus.failed (some input.created_by)
      rejected_reason
  publish_ignoring s intent.id (some input.created_by) input.tenant_id (created_payload intent)
  publish_ignoring s failed.id (some input.created_by) input.tenant_id (rejected_payload failed)
  raise (provider_error e)

-- The provider accepted: the attempt is recorded as pending.
unfoldable pub record_acceptance :
    Service
    → InitiateInput
    → PaymentIntent
    → Uuid
    → Provider
    → Money
    → InitiateResult
    → Action InitiatedPayment
record_acceptance s input intent tx_id provider amount r = do
  tx ← insert_transaction (new_transaction intent tx_id provider amount r.status r.provider_ref [])
  update_intent_status intent.id IntentStatus.created IntentStatus.processing
      (some input.created_by) accepted_reason
  publish s intent.id (some input.created_by) input.tenant_id (created_payload intent)
  pure (record {
    intent = record intent { status = IntentStatus.processing; provider_ref = r.provider_ref };
    transaction = tx;
  })

unfoldable pub record_answer :
    Service
    → InitiateInput
    → PaymentIntent
    → Uuid
    → Provider
    → Money
    → Result ProviderError InitiateResult
    → Action InitiatedPayment
unfolding record_rejection record_acceptance
record_answer s input intent tx_id provider amount (ok r) =
    record_acceptance s input intent tx_id provider amount r
record_answer s input intent tx_id provider amount (err e) =
    if e.unavailable
    then raise (provider_error e)
    else record_rejection s input intent tx_id provider amount e

-- The call of the provider, on the intent that was stored.
unfoldable pub call_provider :
    Service → InitiateInput → Money → Provider → PaymentIntent → Action InitiatedPayment
unfolding record_answer
call_provider s input amount provider intent = do
  tx_id ← new_uuid
  record_answer s input intent tx_id provider amount (
      provider.initiate (record {
        intent_id = intent.id;
        transaction_id = tx_id;
        amount = amount;
        description = intent.description;
        payer_phone = input.payer_phone;
      }))

unfoldable pub initiate_payment : Service → InitiateInput → Action InitiatedPayment
unfolding call_provider
initiate_payment s input = do
  amount ← or_raise (new_money input.amount_minor input.currency) invalid_input
  require (not (input.created_by == nil_uuid)) invalid_input
  require (valid_optional_id input.customer_id) invalid_input
  require (valid_optional_id input.job_id) invalid_input
  require (valid_optional_id input.vehicle_id) invalid_input
  provider ← provider_named s input.provider
  require (leb (length input.description) max_description_length) invalid_input
  intent ← create_intent (new_intent s input amount provider)
  call_provider s input amount provider intent
