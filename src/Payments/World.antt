-- ===== src/Payments/World.antt =====
-- What a payments call reads and writes: the five tables of the payments migrations, the events
-- that went out, and the environment. `faults` says which of the coming database calls and
-- publications fail (a call for which nothing is said succeeds), so that a theorem for every world
-- covers every pattern of failures. A database call fails with nothing written: all of its
-- statements stand in one transaction.
use motivra.Prelude.{
  suc, ◌≡◌, ◌↔◌, Bool, true, false, ◌&&◌, List, [], ◌∷◌, Option, arith, ◌==◌, ==_iff, Eq,
}
use motivra.Prelude.Int.{ℤ}
use motivra.Prelude.Text.{Text, text_eq, text_eq_iff}
use motivra.Prelude.Exec.{Result, ok, err, Exec}
use motivra.Payments.Types.{
  Uuid, Instant, PaymentIntent, Transaction, Refund, IntentTransition, WebhookEvent, Error,
}

-- "webhook:<provider>:<event>:<transaction>", by its parts.
pub record ClaimKey : Type 0 where
  pub provider : Text
  pub event : WebhookEvent
  pub transaction : Uuid

unfoldable pub event_eq : WebhookEvent → WebhookEvent → Bool
event_eq WebhookEvent.transaction_succeeded WebhookEvent.transaction_succeeded = true
event_eq WebhookEvent.transaction_failed WebhookEvent.transaction_failed = true
event_eq (WebhookEvent.other s) (WebhookEvent.other t) = text_eq s t
event_eq _ _ = false

pub event_eq_iff : (a b : WebhookEvent) → (event_eq a b ≡ true) ↔ (a ≡ b)
unfolding event_eq
event_eq_iff (WebhookEvent.other s) (WebhookEvent.other t) = ground (arith, text_eq_iff s t)
event_eq_iff a b = ground arith

unfoldable pub key_eq : ClaimKey → ClaimKey → Bool
key_eq k l =
    text_eq k.provider l.provider && event_eq k.event l.event && k.transaction == l.transaction

pub key_eq_iff : (k l : ClaimKey) → (key_eq k l ≡ true) ↔ (k ≡ l)
unfolding key_eq
key_eq_iff k l = ground (
  arith,
  text_eq_iff k.provider l.provider,
  event_eq_iff k.event l.event,
  ==_iff k.transaction l.transaction,
)

instance abbrev pub claim_key-Eq : Eq ClaimKey
claim_key-Eq = record { beq = key_eq; beq_iff = key_eq_iff }

-- A row of payment_idempotency_keys; the empty result says that the work is still in flight.
pub record IdempotencyKey : Type 0 where
  pub key : ClaimKey
  pub payload_hash : Text
  pub result : Text

-- Who settled a transaction.
pub data SettledBy : Type 0 where
  webhook reconciliation initiation : SettledBy

-- The events of the domain with the fields of their payloads.
pub data Payload : Type 0 where
  -- intent.created.v1: amount, currency, provider, customer, job, vehicle
  intent_created : Uuid → ℤ → Text → Text → Option Uuid → Option Uuid → Option Uuid → Payload
  -- transaction.succeeded.v1 and transaction.failed.v1: intent, transaction, provider, reference,
  -- receipt, amount, currency, who settled it, failure reason
  transaction_succeeded : Uuid → Uuid → Text → Text → Text → ℤ → Text → SettledBy → Text → Payload
  transaction_failed : Uuid → Uuid → Text → Text → Text → ℤ → Text → SettledBy → Text → Payload
  -- refund.completed.v1: intent, refund, amount, currency, provider, reference
  refund_completed : Uuid → Uuid → ℤ → Text → Text → Text → Payload
  -- refund.failed.v1: intent, refund, amount, currency, failure reason
  refund_failed : Uuid → Uuid → ℤ → Text → Text → Payload

pub record Event : Type 0 where
  pub aggregate_id : Uuid
  pub actor : Option Uuid
  pub tenant_id : Option Uuid
  pub payload : Payload

pub record World : Type 0 where
  pub intents : List PaymentIntent
  pub transactions : List Transaction
  pub refunds : List Refund
  pub keys : List IdempotencyKey
  pub transitions : List IntentTransition
  pub outbox : List Event
  pub faults : List Bool
  pub next_id : Uuid
  pub clock : Instant

abbrev pub Action : Type 0 → Type 0
Action A = Exec World Error A

abbrev pub failing : List Bool → Error → World → Result Error (Unit {0}) × World
failing [] e w = (ok tt, w)
failing (true ∷ fs) e w = (err e, record w { faults = fs })
failing (false ∷ fs) e w = (ok tt, record w { faults = fs })

-- One round trip that may fail.
unfoldable pub attempt : Error → Action (Unit {0})
attempt e w = failing w.faults e w

-- `uuid.New()`: identifiers that no row has yet.
unfoldable pub new_uuid : Action Uuid
new_uuid w = (ok w.next_id, record w { next_id = suc w.next_id })
