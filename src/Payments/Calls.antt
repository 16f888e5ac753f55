-- ===== src/Payments/Calls.antt =====
-- What one call of the payments service or of the reconciler does to the world, from what each call
-- of the store does: the service is a client of the store's laws, and writes nothing itself.
pub mod Writes
pub mod Store
pub mod Initiate
pub mod Webhook
pub mod Refunds
pub mod Reconcile
pub mod History
use motivra.Prelude.{
  ℕ, ◌≡◌, ◌≢◌, suc, refl, Bool, true, false, List, [], ◌∷◌, Option, none, some, ◌==◌, if◌then◌else◌,
  length,
}
use motivra.Prelude.Text.{Text}
use motivra.Prelude.Exec.{Result, ok, err, ◌>>=◌, ◌>>◌, or_raise, pure, raise, require}
use motivra.Prelude.Exec.Steps.{
  Preorder, Steps, Any, Steps-pure, Steps-raise, Steps-gets, Steps-or_raise, Steps-or_raise_then,
  Steps-find_or_raise, Steps-require_only, Steps-bind, Steps-if, Steps-require, Steps-modify,
}
use motivra.Payments.Money.{Money}
use motivra.Payments.Status.{IntentStatus, TransactionStatus, RefundStatus, transaction_eq}
use motivra.Payments.Types.{
  Uuid, Instant, PaymentIntent, Transaction, Refund, Provider, ProviderError, WebhookError,
  WebhookPayload, InitiateRequest, InitiateResult, QueryResult, RefundResult, Error, database,
  publish_failed,
}
use motivra.Payments.Scope.{Scope}
use motivra.Payments.World.{World, Action, Event, Payload, ClaimKey, new_uuid, attempt, failing}
use motivra.Payments.Store.Reads.{
  StaleIntent, get_intent, get_transaction_by_provider_ref, latest_refund_for_intent,
  list_stale_intents,
}
use motivra.Payments.Store.Writes.{create_intent, update_intent_status, insert_transaction}
use motivra.Payments.Store.Settlement.{ApplyOutcomeParams, apply_transaction_outcome}
use motivra.Payments.Store.Refunds.{insert_refund, update_refund_status}
use motivra.Payments.Store.Keys.{ClaimResult, claim_idempotency_key, complete_idempotency_key}
use motivra.Payments.Service.{Service, lookup_provider, provider_named, publish, publish_ignoring}
use motivra.Payments.Service.Initiate.{
  InitiateInput, record_rejection, record_acceptance, record_answer, call_provider,
  initiate_payment,
}
use motivra.Payments.Service.Webhook.{
  verified, rejecting, correlate, validate_payload, apply_delivery, replay, process_claim,
  process_payload, handle_webhook,
}
use motivra.Payments.Service.Refund.{check_latest, record_refund, request_refund, refund_payment}
use motivra.Payments.Reconcile.{
  Reconciler, ReconcileResult, count_error, count_pending, query_outcome, reconcile_batch,
  settle_counted, reconcile_answer, reconcile_one, reconcile_all, reconcile_run,
}

-- The two statuses that an accepted or a refused initiation gives the intent.
pub data Started : IntentStatus → Type 0 where
  accepted : Started IntentStatus.processing
  rejected : Started IntentStatus.failed

-- The settlements that the webhook and the reconciler ask for: the intent follows the transaction.
pub data Settles : TransactionStatus → IntentStatus → Type 0 where
  failing_both : Settles TransactionStatus.failed IntentStatus.failed
  otherwise :
      {t : TransactionStatus} → t ≢ TransactionStatus.failed → Settles t IntentStatus.succeeded

-- The laws of the store for a relation between worlds: each call, as the service makes it, relates
-- the world before to the world after. `Accepted` is what a provider's acceptance may say.
pub record StoreLaws (R : World → World → Type 0) (Accepted : TransactionStatus → Type 0)
    : Type 0 where
  pub order : Preorder R
  pub time : (n : Instant) (w : World) → R w (record w { clock = n })
  pub environment :
      (fs : List Bool) (n : ℕ) (w : World) → R w (record w { faults = fs; next_id = n })
  pub sent : (e : Event) (w : World) → R w (record w { outbox = e ∷ w.outbox })
  pub create : (i : PaymentIntent) → i.status ≡ IntentStatus.created → Steps Any R (create_intent i)
  pub start :
      (id : Uuid) (to : IntentStatus) (actor : Option Uuid) (reason : Text)
      → Started to
      → Steps Any R (update_intent_status id IntentStatus.created to actor reason)
  pub insert_failed :
      (t : Transaction) → t.status ≡ TransactionStatus.failed → Steps Any R (insert_transaction t)
  pub insert_accepted : (t : Transaction) → Accepted t.status → Steps Any R (insert_transaction t)
  pub settle :
      (p : ApplyOutcomeParams)
      → Settles p.new_tx_status p.new_intent_status
      → Steps Any R (apply_transaction_outcome p)
  pub insert_refund : (r : Refund) → Steps Any R (insert_refund r)
  pub settle_refund :
      (id : Uuid) (to : RefundStatus) (ref reason : Text)
      → Steps Any R (update_refund_status id RefundStatus.requested to ref reason)
  pub claim : (key : ClaimKey) (hash : Text) → Steps Any R (claim_idempotency_key key hash)
  pub complete :
      (key : ClaimKey) (result : Text) → Steps Any R (complete_idempotency_key key result)

-- What every provider of the service answers when it accepts.
abbrev pub Accepts : (TransactionStatus → Type 0) → Service → Type 0
Accepts Accepted s =
    (name : Text) (p : Provider) (q : InitiateRequest) (r : InitiateResult)
    → lookup_provider name s.providers ≡ some p
    → p.initiate q ≡ ok r
    → Accepted r.status

module _ {R : World → World → Type 0} {Accepted : TransactionStatus → Type 0}
    (k : StoreLaws R Accepted) where
  abbrev pub Keeps : {A : Type 0} → Action A → Type 0
  Keeps m = Steps Any R m

  pub attempt-Keeps : (e : Error) → Keeps (attempt e)
  unfolding attempt
  attempt-Keeps e = record { at = λ w _. go w w.faults }
    where
      go : (w : World) (fs : List Bool) → R w (failing fs e w).1
      go w [] = k.order.same w
      go w (true ∷ fs) = k.environment fs w.next_id w
      go w (false ∷ fs) = k.environment fs w.next_id w

  pub new_uuid-Keeps : Keeps new_uuid
  unfolding new_uuid
  new_uuid-Keeps = record { at = λ w _. k.environment w.faults (suc w.next_id) w }

  -- The rules with the order given.
  pub then-Keeps :
      {A B : Type 0} (m : Action A) (f : A → Action B)
      → Keeps m
      → ((a : A) → Keeps (f a))
      → Keeps (m >>= f)
  then-Keeps m f h g = Steps-bind k.order Any m f h g

  pub require-Keeps :
      {B : Type 0} (b : Bool) (e : Error) (f : Unit {0} → Action B)
      → Keeps (f tt)
      → Keeps (require b e >>= f)
  require-Keeps b e f h = Steps-require k.order Any b e f (λ _. h)

  pub provider_named-Keeps : (s : Service) (name : Text) → Keeps (provider_named s name)
  unfolding provider_named
  provider_named-Keeps s name = Steps-or_raise k.order Any _ _

  pub publish-Keeps :
      (s : Service) (id : Uuid) (actor tenant : Option Uuid) (p : Payload)
      → Keeps (publish s id actor tenant p)
  unfolding publish
  publish-Keeps s id actor tenant p =
      Steps-if s.has_publisher _ _
        (λ _.
          then-Keeps _ _ (attempt-Keeps publish_failed)
            λ _. Steps-modify k.order Any _ (λ w _. k.sent _ w))
        (λ _. Steps-pure k.order Any tt)

  pub publish_ignoring-Keeps :
      (s : Service) (id : Uuid) (actor tenant : Option Uuid) (p : Payload)
      → Keeps (publish_ignoring s id actor tenant p)
  unfolding publish_ignoring
  publish_ignoring-Keeps s id actor tenant p = record {
    at = λ w h. (publish-Keeps s id actor tenant p).at w h;
  }
