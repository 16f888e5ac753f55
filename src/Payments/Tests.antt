-- ===== src/Payments/Tests.antt =====
-- Runs of the payments service with one provider, and the theorems at them.
mod Deliveries
mod Histories
use motivra.Prelude.{
  Extends, ℕ, ◌≡◌, ◌≢◌, refl, sym, ap, ◌∙◌, inl, inr, Bool, true, false, List, [], ◌∷◌, Option,
  none, some, arith, ◌==◌, nat_eq, if◌then◌else◌,
}
use motivra.Prelude.Int.{ℤ, pos}
use motivra.Prelude.Text.{Text, bytes, text_eq}
use motivra.Prelude.Table.{find, update}
use motivra.Prelude.Exec.{Result, ok, err, ◌>>=◌, ◌>>◌}
use motivra.Payments.Money.{Money, new_money, is_valid, currency_kes, equal_same_currency}
use motivra.Payments.Status.{
  IntentStatus, TransactionStatus, RefundStatus, intent_eq, transaction_eq, refund_eq,
  is_known_intent, is_known_transaction, is_intent_terminal,
}
use motivra.Payments.Types.{
  Uuid, PaymentIntent, Transaction, Refund, Provider, ProviderError, WebhookEvent, WebhookPayload,
  InitiateRequest, InitiateResult, Error,
}
use motivra.Payments.Scope.{unrestricted_scope, scope_predicate}
use motivra.Payments.World.{
  World, IdempotencyKey, claim_key-Eq, attempt, new_uuid, key_eq, event_eq,
}
use motivra.Payments.Store.Rows.{
  check_amount, intent_trigger, transaction_trigger, free_ref, free_receipt, holds_ref,
  holds_receipt,
}
use motivra.Payments.Store.Reads.{
  find_intent, find_transaction, find_refund, find_by_ref, get_transaction_by_provider_ref,
}
use motivra.Payments.Store.Writes.{
  create_intent, insert_transaction, update_intent_status, stamp_status,
}
use motivra.Payments.Store.Settlement.{settle_row, settle_intent_row, apply_transaction_outcome}
use motivra.Payments.Store.Keys.{find_key, claim_idempotency_key, complete_idempotency_key}
use motivra.Payments.Service.{Service, lookup_provider, provider_named, publish}
use motivra.Payments.Service.Initiate.{InitiateInput, InitiatedPayment, initiate_payment}
use motivra.Payments.Service.Webhook.{
  WebhookResult, applied, duplicate, applied_result, result_of, claim_key, handle_webhook,
}
use motivra.Payments.Calls.{Accepts}
use motivra.Payments.Ledger.{IntentKeeps}
use motivra.Payments.Ledger.Laws.{
  history-intent, history-settled_transaction, history-settled_refund, history-completed_key,
  history-audit,
}
use motivra.Payments.Redelivery.Applied.{applied_result_text}
use motivra.Payments.Audit.{Audited, start, trail_status, history-Audited}
use motivra.Payments.Settled.{Coupled}
use motivra.Payments.Settled.Laws.{history-Coupled}
use motivra.Payments.Calls.History.{
  Call, initiate, deliver, refund, reconcile, wait_until, call, history,
}

abbrev amount : Money
amount = record { amount_minor = pos 150000; currency = currency_kes }

abbrev reference : Text
reference = bytes "sbx-1"

abbrev payload : WebhookPayload
payload = record {
  event = WebhookEvent.transaction_succeeded;
  provider = bytes "sandbox";
  intent_id = 1;
  transaction_id = 2;
  provider_ref = reference;
  provider_receipt = bytes "R1";
  amount_minor = pos 150000;
  currency = currency_kes;
  failure_reason = [];
  occurred_at = 90;
}

abbrev acceptance : InitiateResult
acceptance = record { status = TransactionStatus.pending; provider_ref = reference }

abbrev provider_with : WebhookPayload → Provider
provider_with attested = record {
  name = bytes "sandbox";
  initiate = λ q. ok acceptance;
  query = λ ref. err (record { unavailable = true; message = [] });
  refund = λ q. err (record { unavailable = true; message = [] });
  webhook_event = λ header body now. ok attested;
}

abbrev sandbox : Provider
sandbox = provider_with payload

abbrev service_with : Provider → Service
service_with p = record {
  providers = (bytes "sandbox", p) ∷ [];
  default_provider = [];
  has_publisher = true;
  redact = λ t. t;
  sha256_hex = λ t. t;
}

abbrev service : Service
service = service_with sandbox

abbrev input : InitiateInput
input = record {
  tenant_id = some 7;
  created_by = 8;
  customer_id = none;
  amount_minor = pos 150000;
  currency = currency_kes;
  provider = [];
  job_id = none;
  vehicle_id = none;
  description = bytes "brake pads";
  payer_phone = [];
}

abbrev empty_world : World
empty_world = record {
  intents = [];
  transactions = [];
  refunds = [];
  keys = [];
  transitions = [];
  outbox = [];
  faults = [];
  next_id = 1;
  clock = 100;
}

abbrev intent : PaymentIntent
intent = record {
  id = 1;
  tenant_id = some 7;
  customer_id = none;
  created_by = 8;
  amount_minor = pos 150000;
  currency = currency_kes;
  status = IntentStatus.processing;
  provider = bytes "sandbox";
  provider_ref = [];
  job_id = none;
  vehicle_id = none;
  description = [];
  failure_reason = [];
  succeeded_at = none;
  failed_at = none;
  canceled_at = none;
  created_at = 100;
  updated_at = 100;
}

abbrev attempted_transaction : Transaction
attempted_transaction = record {
  id = 2;
  intent_id = 1;
  provider = bytes "sandbox";
  provider_ref = reference;
  provider_receipt = [];
  status = TransactionStatus.pending;
  amount_minor = pos 150000;
  currency = currency_kes;
  failure_reason = [];
  occurred_at = none;
  created_at = 100;
  updated_at = 100;
}

-- The ledger with one payment that the provider has accepted.
abbrev waiting_world : World
waiting_world = record empty_world {
  intents = intent ∷ [];
  transactions = attempted_transaction ∷ [];
  next_id = 3;
}

-- An initiation that is accepted leaves the intent in PROCESSING and the attempt PENDING.
initiation_run :
    let (r, w) = initiate_payment service input empty_world in
    (find_intent 1 w.intents ≡ some intent)
    × (find_transaction 2 w.transactions ≡ some attempted_transaction)
unfolding initiate_payment ◌>>=◌ new_money is_valid text_eq bytes lookup_provider provider_named
    create_intent attempt new_uuid find check_amount is_known_intent insert_transaction
    is_known_transaction free_ref holds_ref update_intent_status intent_trigger stamp_status update
    publish intent_eq
initiation_run = (refl, refl)

abbrev body : Text
body = bytes "{}"

abbrev delivery : WebhookResult
delivery = result_of applied attempted_transaction

-- The first delivery settles the payment.
delivery_run : (handle_webhook service [] [] body 200 waiting_world).0 ≡ ok delivery
unfolding handle_webhook ◌>>=◌ text_eq bytes lookup_provider provider_named attempt find
    get_transaction_by_provider_ref find_by_ref equal_same_currency claim_idempotency_key
    complete_idempotency_key key_eq event_eq apply_transaction_outcome transaction_trigger
    transaction_eq intent_eq is_known_intent free_receipt holds_receipt update settle_row
    settle_intent_row stamp_status publish
delivery_run = refl

abbrev settled_world : World
settled_world = (handle_webhook service [] [] body 200 waiting_world).1

settled_healthy : settled_world.faults ≡ []
unfolding handle_webhook ◌>>=◌ text_eq bytes lookup_provider provider_named attempt find
    get_transaction_by_provider_ref find_by_ref equal_same_currency claim_idempotency_key
    complete_idempotency_key key_eq event_eq apply_transaction_outcome transaction_trigger
    transaction_eq intent_eq is_known_intent free_receipt holds_receipt update settle_row
    settle_intent_row stamp_status publish
settled_healthy = refl

delivery_returns :
    handle_webhook service [] [] body 200 waiting_world ≡ (ok delivery, settled_world)
delivery_returns = ap (λ r. (r, settled_world)) delivery_run

sandbox-Accepts : Accepts (λ t. t ≡ TransactionStatus.pending) service
unfolding lookup_provider
sandbox-Accepts name p q r found accepted = go (text_eq (bytes "sandbox") name) found
  where
    answer : Option Provider → Result ProviderError InitiateResult
    answer none = ok acceptance
    answer (some p) = p.initiate q

    status_of : Result ProviderError InitiateResult → TransactionStatus
    status_of (ok r) = r.status
    status_of (err e) = TransactionStatus.pending

    go :
        (b : Bool)
        → (if b then some sandbox else none) ≡ some p
        → r.status ≡ TransactionStatus.pending
    go false h = ground (arith, h)
    go true h = ap status_of (sym accepted ∙ sym (ap answer h))

abbrev later : List Call
later =
    deliver (bytes "sandbox") [] body 210
    ∷ refund 1 (bytes "wrong part") 8 unrestricted_scope
    ∷ reconcile 0 0
    ∷ initiate input
    ∷ []

-- The ledger with a payment that was settled, and refunded.

abbrev paid_intent : PaymentIntent
paid_intent = record intent { status = IntentStatus.succeeded; succeeded_at = some 100 }

abbrev settled_transaction : Transaction
settled_transaction = record attempted_transaction {
  status = TransactionStatus.succeeded;
  provider_receipt = bytes "R1";
  occurred_at = some 90;
}

abbrev completed_refund : Refund
completed_refund = record {
  id = 3;
  intent_id = 1;
  amount_minor = pos 150000;
  currency = currency_kes;
  status = RefundStatus.completed;
  provider = bytes "sandbox";
  provider_ref = bytes "rf-1";
  reason = bytes "wrong part";
  failure_reason = [];
  requested_by = some 8;
  created_at = 150;
  updated_at = 150;
}

abbrev key_row : Text → Text → IdempotencyKey
key_row hash result = record {
  key = claim_key sandbox payload attempted_transaction;
  payload_hash = hash;
  result = result;
}

abbrev paid_world : World
paid_world = record waiting_world {
  intents = paid_intent ∷ [];
  transactions = settled_transaction ∷ [];
  refunds = completed_refund ∷ [];
  keys = key_row body applied_result ∷ [];
  next_id = 4;
}
