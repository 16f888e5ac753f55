-- ===== src/Payments/Calls/Webhook.antt =====
-- `HandleWebhook` under the store's laws.
use motivra.Prelude.{arith}
use motivra.Prelude.Text.{Text}
use motivra.Prelude.Exec.{Result, ok, err}
use motivra.Prelude.Exec.Steps.{
  Any, Steps-pure, Steps-raise, Steps-find_or_raise, Steps-require_only, Steps-if,
}
use motivra.Payments.Status.{TransactionStatus}
use motivra.Payments.Types.{
  Instant, WebhookEvent, Transaction, Provider, WebhookError, WebhookPayload, Error, database,
}
use motivra.Payments.World.{World, ClaimKey}
use motivra.Payments.Store.Reads.{get_transaction_by_provider_ref}
use motivra.Payments.Store.Keys.{ClaimResult}
use motivra.Payments.Service.{Service}
use motivra.Payments.Service.Webhook.{
  transaction_outcome, intent_outcome, verified, rejecting, correlate, validate_payload,
  apply_delivery, replay, process_claim, process_payload, handle_webhook,
}
use motivra.Payments.Calls.{
  StoreLaws, Settles, failing_both, otherwise, Keeps, attempt-Keeps, then-Keeps, require-Keeps,
  provider_named-Keeps, publish-Keeps,
}

pub outcome-Settles : (e : WebhookEvent) → Settles (transaction_outcome e) (intent_outcome e)
outcome-Settles WebhookEvent.transaction_succeeded = otherwise (λ e. ground (arith, e))
outcome-Settles WebhookEvent.transaction_failed = failing_both
outcome-Settles (WebhookEvent.other _) = otherwise (λ e. ground (arith, e))

module _ {R : World → World → Type 0} {Accepted : TransactionStatus → Type 0}
    (k : StoreLaws R Accepted) where
  -- HandleWebhook

  verified-Keeps : (r : Result WebhookError WebhookPayload) → Keeps k (verified r)
  verified-Keeps (ok payload) = Steps-pure k.order Any payload
  verified-Keeps (err e) = Steps-raise k.order Any _

  get_transaction_by_provider_ref-Keeps :
      (provider ref : Text) → Keeps k (get_transaction_by_provider_ref provider ref)
  unfolding get_transaction_by_provider_ref
  get_transaction_by_provider_ref-Keeps provider ref =
      then-Keeps k _ _ (attempt-Keeps k database) λ _. Steps-find_or_raise k.order Any _ _

  correlate-Keeps : (p : Provider) (payload : WebhookPayload) → Keeps k (correlate p payload)
  unfolding correlate
  correlate-Keeps p payload = record {
    at = λ w h.
        go w (get_transaction_by_provider_ref p.name payload.provider_ref w)
          ((get_transaction_by_provider_ref-Keeps p.name payload.provider_ref).at w h);
  }
    where
      go : (w : World) (r : Result Error Transaction × World) → R w r.1 → R w (rejecting r).1
      go w (ok t, v) h = h
      go w (err e, v) h = h

  validate_payload-Keeps :
      (p : Provider) (payload : WebhookPayload) (t : Transaction)
      → Keeps k (validate_payload p payload t)
  unfolding validate_payload
  validate_payload-Keeps p payload t =
      require-Keeps k _ _ _ (require-Keeps k _ _ _ (Steps-require_only k.order Any _ _))

  module _ (s : Service) where
    apply_delivery-Keeps :
        (key : ClaimKey) (payload : WebhookPayload) (t : Transaction)
        → Keeps k (apply_delivery s key payload t)
    unfolding apply_delivery
    apply_delivery-Keeps key payload t =
        then-Keeps k _ _ (k.settle _ (outcome-Settles payload.event)) λ _.
          then-Keeps k _ _ (k.complete _ _)
            λ _. then-Keeps k _ _ (publish-Keeps k _ _ _ _ _) λ _. Steps-pure k.order Any _

    replay-Keeps :
        (claim : ClaimResult) (hash : Text) (t : Transaction) → Keeps k (replay claim hash t)
    unfolding replay
    replay-Keeps claim hash t =
        require-Keeps k _ _ _ (require-Keeps k _ _ _ (Steps-pure k.order Any _))

    process_claim-Keeps :
        (key : ClaimKey) (payload : WebhookPayload) (t : Transaction) (hash : Text)
        (claim : ClaimResult)
        → Keeps k (process_claim s key payload t hash claim)
    unfolding process_claim
    process_claim-Keeps key payload t hash claim =
        Steps-if claim.claimed _ _ (λ _. apply_delivery-Keeps key payload t)
          (λ _. replay-Keeps claim hash t)

    process_payload-Keeps :
        (p : Provider) (payload : WebhookPayload) (t : Transaction) (hash : Text)
        → Keeps k (process_payload s p payload t hash)
    unfolding process_payload
    process_payload-Keeps p payload t hash =
        then-Keeps k _ _ (validate_payload-Keeps p payload t)
          λ _. then-Keeps k _ _ (k.claim _ hash) (process_claim-Keeps _ payload t hash)

    pub handle_webhook-Keeps :
        (name header body : Text) (now : Instant) → Keeps k (handle_webhook s name header body now)
    unfolding handle_webhook
    handle_webhook-Keeps name header body now =
        then-Keeps k _ _ (provider_named-Keeps k s name) λ p.
          then-Keeps k _ _ (verified-Keeps _) λ payload.
            then-Keeps k _ _ (correlate-Keeps p payload) λ t. process_payload-Keeps p payload t _
