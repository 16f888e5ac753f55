-- ===== src/Payments/Service/Refund.antt =====
-- `RefundPayment`.
use motivra.Prelude.{ℕ, [], none, some, ◌==◌, leb, if◌then◌else◌, length}
use motivra.Prelude.Text.{Text}
use motivra.Prelude.Exec.{Result, ok, err, ◌>>=◌, ◌>>◌, pure, raise, require}
use motivra.Payments.Status.{IntentStatus, RefundStatus, intent_eq, refund_eq}
use motivra.Payments.Types.{
  Uuid, nil_uuid, PaymentIntent, Refund, Provider, ProviderError, RefundResult, Error,
  invalid_input, refund_not_found, not_refundable, already_refunded,
}
use motivra.Payments.Scope.{Scope}
use motivra.Payments.World.{Action, Payload}
use motivra.Payments.Store.Reads.{get_intent, latest_refund_for_intent}
use motivra.Payments.Store.Refunds.{insert_refund, update_refund_status}
use motivra.Payments.Service.{
  Service, provider_named, failure_reason_from, provider_error, publish, publish_ignoring,
}

abbrev pub max_refund_reason_length : ℕ
max_refund_reason_length = 500

-- The `switch` on the latest refund.
abbrev pub may_refund : Result Error Refund → Result Error (Unit {0})
may_refund (ok existing) =
    if refund_eq existing.status RefundStatus.failed then ok tt else err already_refunded
may_refund (err refund_not_found) = ok tt
may_refund (err e) = err e

unfoldable pub check_latest : Uuid → Scope → Action (Unit {0})
check_latest intent_id scope w =
    let (r, w') = latest_refund_for_intent intent_id scope w in (may_refund r, w')

abbrev new_refund : PaymentIntent → Text → Uuid → Refund
new_refund i reason actor_id = record {
  id = nil_uuid;
  intent_id = i.id;
  amount_minor = i.amount_minor;
  currency = i.currency;
  status = RefundStatus.requested;
  provider = i.provider;
  provider_ref = [];
  reason = reason;
  failure_reason = [];
  requested_by = if actor_id == nil_uuid then none else some actor_id;
  created_at = 0;
  updated_at = 0;
}

abbrev failed_payload : PaymentIntent → Refund → Text → Payload
failed_payload i r why = Payload.refund_failed i.id r.id r.amount_minor r.currency why

abbrev completed_payload : PaymentIntent → Refund → Text → Payload
completed_payload i r ref =
    Payload.refund_completed i.id r.id r.amount_minor r.currency i.provider ref

-- What the provider answered, on the refund that was stored.
unfoldable pub record_refund :
    Service → PaymentIntent → Refund → Uuid → Result ProviderError RefundResult → Action Refund
record_refund s intent refund actor_id (ok result) = do
  update_refund_status refund.id RefundStatus.requested result.status result.provider_ref
      result.failure_reason
  publish s refund.id (some actor_id) intent.tenant_id
      (completed_payload intent refund result.provider_ref)
  pure (record refund { status = result.status; provider_ref = result.provider_ref })
record_refund s intent refund actor_id (err e) =
    if e.unavailable then raise (provider_error e) else (do
      update_refund_status refund.id RefundStatus.requested RefundStatus.failed []
          (failure_reason_from e)
      publish_ignoring s refund.id (some actor_id) intent.tenant_id
          (failed_payload intent refund (failure_reason_from e))
      raise (provider_error e))

unfoldable pub request_refund : Service → PaymentIntent → Text → Uuid → Provider → Action Refund
unfolding record_refund
request_refund s intent reason actor_id provider = do
  refund ← insert_refund (new_refund intent reason actor_id)
  record_refund s intent refund actor_id (
      provider.refund (record {
        refund_id = refund.id;
        intent_id = intent.id;
        provider_ref = intent.provider_ref;
        amount = record { amount_minor = intent.amount_minor; currency = intent.currency };
        reason = reason;
      }))

unfoldable pub refund_payment : Service → Uuid → Text → Uuid → Scope → Action Refund
unfolding check_latest request_refund
refund_payment s intent_id reason actor_id scope = do
  intent ← get_intent intent_id scope
  require (intent_eq intent.status IntentStatus.succeeded) not_refundable
  require (leb (length reason) max_refund_reason_length) invalid_input
  check_latest intent_id scope
  provider ← provider_named s intent.provider
  request_refund s intent reason actor_id provider
