-- ===== src/Payments/Calls/Writes.antt =====
-- The writes that the store makes, one law for each, with what the store has checked before it.
use motivra.Prelude.{ℕ, ◌≡◌, ◌⊎◌, Bool, true, List, ◌∷◌, Option, none, some, nat_eq}
use motivra.Prelude.Text.{Text}
use motivra.Prelude.Exec.Steps.{Preorder}
use motivra.Prelude.Table.{update}
use motivra.Payments.Status.{IntentStatus, TransactionStatus, RefundStatus}
use motivra.Payments.Types.{Uuid, Instant, PaymentIntent, Transaction, Refund}
use motivra.Payments.World.{World, Event, ClaimKey, IdempotencyKey, claim_key-Eq}
use motivra.Payments.Store.Rows.{transaction_trigger, free_ref}
use motivra.Payments.Store.Reads.{intent_id, refund_id, find_intent, find_transaction, find_refund}
use motivra.Payments.Store.Writes.{stamp_status}
use motivra.Payments.Store.Settlement.{ApplyOutcomeParams, settle_transaction, settle_intent}
use motivra.Payments.Store.Refunds.{settle_refund_row}
use motivra.Payments.Store.Keys.{key_of, find_key, result_trigger}
use motivra.Payments.Calls.{Started, Settles}

-- What `ApplyTransactionOutcome` has read and checked when it settles `t` of the intent `i`.
pub record Settling (p : ApplyOutcomeParams) (t : Transaction) (i : PaymentIntent) (w : World)
    : Type 0 where
  pub found : find_transaction p.transaction_id w.transactions ≡ some t
  pub pending : t.status ≡ TransactionStatus.pending
  pub legal : transaction_trigger TransactionStatus.pending p.new_tx_status ≡ true
  pub of_intent : find_intent t.intent_id w.intents ≡ some i
  pub outcome : Settles p.new_tx_status p.new_intent_status

pub record WriteLaws (R : World → World → Type 0) (Accepted : TransactionStatus → Type 0)
    : Type 0 where
  pub order : Preorder R
  pub time : (n : Instant) (w : World) → R w (record w { clock = n })
  pub environment :
      (fs : List Bool) (n : ℕ) (w : World) → R w (record w { faults = fs; next_id = n })
  pub sent : (e : Event) (w : World) → R w (record w { outbox = e ∷ w.outbox })
  pub insert_intent :
      (i : PaymentIntent) (w : World)
      → i.status ≡ IntentStatus.created
      → find_intent i.id w.intents ≡ none
      → R w (record w { intents = i ∷ w.intents })
  pub start_intent :
      (id : Uuid) (to : IntentStatus) (actor : Option Uuid) (reason : Text) (i : PaymentIntent)
      (w : World)
      → Started to
      → find_intent id w.intents ≡ some i
      → i.status ≡ IntentStatus.created
      → R w (record w {
        intents = update intent_id id (stamp_status to w.clock) w.intents;
        transitions =
            record {
              intent_id = id;
              from_status = i.status;
              to_status = to;
              actor_id = actor;
              reason = reason;
              created_at = w.clock;
            }
            ∷ w.transitions;
      })
  pub insert_transaction :
      (t : Transaction) (w : World)
      → (t.status ≡ TransactionStatus.failed) ⊎ Accepted t.status
      → find_transaction t.id w.transactions ≡ none
      → free_ref t.provider t.provider_ref w.transactions ≡ true
      → R w (record w { transactions = t ∷ w.transactions })
  -- the intent has its new status already
  pub settle_alone :
      (p : ApplyOutcomeParams) (t : Transaction) (i : PaymentIntent) (w : World)
      → Settling p t i w
      → i.status ≡ p.new_intent_status
      → R w (settle_transaction p w)
  pub settle_both :
      (p : ApplyOutcomeParams) (t : Transaction) (i : PaymentIntent) (w : World)
      → Settling p t i w
      → i.status ≡ IntentStatus.processing
      → R w (settle_intent p i (settle_transaction p w))
  pub insert_refund :
      (r : Refund) (w : World)
      → find_refund r.id w.refunds ≡ none
      → R w (record w { refunds = r ∷ w.refunds })
  pub settle_refund :
      (id : Uuid) (to : RefundStatus) (ref reason : Text) (r : Refund) (w : World)
      → find_refund id w.refunds ≡ some r
      → r.status ≡ RefundStatus.requested
      → R w (record w {
        refunds = update refund_id id (settle_refund_row to ref reason w.clock) w.refunds;
      })
  pub insert_key :
      (k : IdempotencyKey) (w : World)
      → find_key k.key w.keys ≡ none
      → R w (record w { keys = k ∷ w.keys })
  pub complete_key :
      (key : ClaimKey) (result : Text) (w : World)
      → result_trigger (find_key key w.keys) result ≡ true
      → R w (record w { keys = update key_of key (λ k. record k { result = result }) w.keys })
