-- ===== src/Payments/Service/Webhook.antt =====
-- `HandleWebhook`.
use motivra.Prelude.{not, ◌||◌, none, ◌==◌, if◌then◌else◌}
use motivra.Prelude.Text.{Text, bytes, text_eq}
use motivra.Prelude.Exec.{Result, ok, err, ◌>>=◌, ◌>>◌, pure, raise, require}
use motivra.Payments.Money.{Money, equal_same_currency}
use motivra.Payments.Status.{IntentStatus, TransactionStatus}
use motivra.Payments.Types.{
  Uuid, nil_uuid, Instant, Transaction, Provider, WebhookEvent, WebhookPayload, WebhookError, Error,
  conflict, webhook_unauthorized, webhook_rejected,
}
use motivra.Payments.World.{World, Action, ClaimKey, Payload, SettledBy}
use motivra.Payments.Store.Rows.{is_empty}
use motivra.Payments.Store.Reads.{get_transaction_by_provider_ref}
use motivra.Payments.Store.Settlement.{ApplyOutcomeParams, apply_transaction_outcome}
use motivra.Payments.Store.Keys.{ClaimResult, claim_idempotency_key, complete_idempotency_key}
use motivra.Payments.Service.{Service, provider_named, publish}

pub data WebhookStatus : Type 0 where
  applied duplicate : WebhookStatus

pub record WebhookResult : Type 0 where
  pub status : WebhookStatus
  pub intent_id : Uuid
  pub transaction_id : Uuid

-- Step 1: the error of an adapter that refused the delivery.
abbrev pub verified : Result WebhookError WebhookPayload → Action WebhookPayload
verified (ok payload) = pure payload
verified (err e) = raise (if e.unauthorized then webhook_unauthorized else webhook_rejected)

-- Step 2: any failure to find the transaction is a rejection.
abbrev pub rejecting : {A : Type 0} → Result Error A × World → Result Error A × World
rejecting (ok a, w) = (ok a, w)
rejecting (err e, w) = (err webhook_rejected, w)

unfoldable pub correlate : Provider → WebhookPayload → Action Transaction
correlate provider payload w =
    rejecting (get_transaction_by_provider_ref provider.name payload.provider_ref w)

abbrev pub attested : WebhookPayload → Money
attested p = record { amount_minor = p.amount_minor; currency = p.currency }

abbrev pub attempted : Transaction → Money
attempted t = record { amount_minor = t.amount_minor; currency = t.currency }

-- Step 3: the payload against the ledger.
unfoldable pub validate_payload : Provider → WebhookPayload → Transaction → Action (Unit {0})
validate_payload provider payload tx = do
  require (text_eq tx.provider provider.name) webhook_rejected
  require (equal_same_currency (attested payload) (attempted tx)) webhook_rejected
  require (tx.intent_id == payload.intent_id || payload.intent_id == nil_uuid) webhook_rejected

abbrev pub claim_key : Provider → WebhookPayload → Transaction → ClaimKey
claim_key provider payload tx = record {
  provider = provider.name;
  event = payload.event;
  transaction = tx.id;
}

abbrev pub transaction_outcome : WebhookEvent → TransactionStatus
transaction_outcome WebhookEvent.transaction_failed = TransactionStatus.failed
transaction_outcome _ = TransactionStatus.succeeded

abbrev pub intent_outcome : WebhookEvent → IntentStatus
intent_outcome WebhookEvent.transaction_failed = IntentStatus.failed
intent_outcome _ = IntentStatus.succeeded

abbrev pub outcome_of : WebhookPayload → Transaction → ApplyOutcomeParams
outcome_of payload tx = record {
  transaction_id = tx.id;
  new_tx_status = transaction_outcome payload.event;
  new_intent_status = intent_outcome payload.event;
  provider_receipt = payload.provider_receipt;
  failure_reason = payload.failure_reason;
  occurred_at = payload.occurred_at;
  reason = bytes "webhook";
}

abbrev settled_payload : WebhookPayload → Transaction → Payload
settled_payload payload tx = elim payload.event [
  | WebhookEvent.transaction_failed ↦
      Payload.transaction_failed tx.intent_id tx.id tx.provider tx.provider_ref
        payload.provider_receipt tx.amount_minor tx.currency SettledBy.webhook
        payload.failure_reason
  | _ ↦
      Payload.transaction_succeeded tx.intent_id tx.id tx.provider tx.provider_ref
        payload.provider_receipt tx.amount_minor tx.currency SettledBy.webhook
        payload.failure_reason
]

abbrev pub result_of : WebhookStatus → Transaction → WebhookResult
result_of status tx = record { status = status; intent_id = tx.intent_id; transaction_id = tx.id }

abbrev pub applied_result : Text
applied_result = bytes "applied"

-- Step 5: this delivery won the claim.
unfoldable pub apply_delivery :
    Service → ClaimKey → WebhookPayload → Transaction → Action WebhookResult
apply_delivery s key payload tx = do
  apply_transaction_outcome (outcome_of payload tx)
  complete_idempotency_key key applied_result
  publish s tx.id none none (settled_payload payload tx)
  pure (result_of applied tx)

-- Step 4, on a key that an earlier delivery has claimed.
unfoldable pub replay : ClaimResult → Text → Transaction → Action WebhookResult
replay claim hash tx = do
  require (text_eq claim.existing_payload_hash hash) webhook_rejected
  require (not (is_empty claim.existing_result)) conflict
  pure (result_of duplicate tx)

unfoldable pub process_claim :
    Service → ClaimKey → WebhookPayload → Transaction → Text → ClaimResult → Action WebhookResult
unfolding apply_delivery replay
process_claim s key payload tx hash claim =
    if claim.claimed then apply_delivery s key payload tx else replay claim hash tx

unfoldable pub process_payload :
    Service → Provider → WebhookPayload → Transaction → Text → Action WebhookResult
unfolding process_claim validate_payload
process_payload s provider payload tx hash = do
  validate_payload provider payload tx
  claim ← claim_idempotency_key (claim_key provider payload tx) hash
  process_claim s (claim_key provider payload tx) payload tx hash claim

unfoldable pub handle_webhook : Service → Text → Text → Text → Instant → Action WebhookResult
unfolding correlate process_payload
handle_webhook s provider_name header body now = do
  provider ← provider_named s provider_name
  payload ← verified (provider.webhook_event header body now)
  tx ← correlate provider payload
  process_payload s provider payload tx (s.sha256_hex body)
