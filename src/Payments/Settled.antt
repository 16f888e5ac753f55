-- ===== src/Payments/Settled.antt =====
-- An intent is paid exactly when a transaction of it has succeeded.
pub mod Settlement
pub mod Laws
use motivra.Prelude.{
  ℕ, ◌≡◌, ◌≢◌, refl, sym, ap, ◌∙◌, ◌⊎◌, inl, inr, true, List, ◌∷◌, none, some, arith, ◌==◌, ==_iff,
  if◌then◌else◌, nat_eq, Bool-cases,
}
use mathlib.Core.Option
use motivra.Prelude.Table.{find-cons, update, find_key, find-update}
use motivra.Prelude.Exec.Steps.{Kept, Kept-Preorder}
use motivra.Payments.Status.{IntentStatus, TransactionStatus}
use motivra.Payments.Types.{Uuid, PaymentIntent, Transaction}
use motivra.Payments.World.{World}
use motivra.Payments.Store.Rows.{transaction_trigger}
use motivra.Payments.Store.Reads.{intent_id, transaction_id, find_intent, find_transaction}
use motivra.Payments.Store.Writes.{stamp_status}
use motivra.Payments.Store.Settlement.{
  ApplyOutcomeParams, settle_row, settle_intent_row, settle_transaction, settle_intent,
}
use motivra.Payments.Store.Stamps.{
  stamp_status_id, stamp_status_status, settle_intent_row_id, settle_intent_row_status,
}
use motivra.Payments.Service.{Service}
use motivra.Payments.Calls.{Accepts, Started, accepted, rejected, Settles, failing_both, otherwise}
use motivra.Payments.Calls.Writes.{WriteLaws, Settling}
use motivra.Payments.Calls.Store.{writes-StoreLaws}
use motivra.Payments.Calls.History.{Call, history, history-Keeps}

-- A transaction of the intent `id` that has succeeded.
pub record PaidBy (id : Uuid) (ts : List Transaction) : Type 0 where
  pub key : Uuid
  pub row : Transaction
  pub found : find_transaction key ts ≡ some row
  pub of : row.intent_id ≡ id
  pub done : row.status ≡ TransactionStatus.succeeded

pub record Coupled (w : World) : Type 0 where
  pub settled :
      (k : Uuid) (t : Transaction)
      → find_transaction k w.transactions ≡ some t
      → t.status ≡ TransactionStatus.succeeded
      → (i : PaymentIntent) × (find_intent t.intent_id w.intents ≡ some i)
        × (i.status ≡ IntentStatus.succeeded)
  pub paid :
      (id : Uuid) (i : PaymentIntent)
      → find_intent id w.intents ≡ some i
      → i.status ≡ IntentStatus.succeeded
      → PaidBy id w.transactions

pub insert_intent-Coupled :
    (i : PaymentIntent) (w : World)
    → i.status ≡ IntentStatus.created
    → find_intent i.id w.intents ≡ none
    → Kept Coupled w (record w { intents = i ∷ w.intents })
insert_intent-Coupled i w created new h = record {
  settled = λ k t found done.
      let (j, at, paid) = h.settled k t found done in
      (
        j,
        ground (arith, find-cons intent_id t.intent_id i w.intents, ==_iff i.id t.intent_id),
        paid,
      );
  paid = λ id j found paid. h.paid id j (ground (arith, find-cons intent_id id i w.intents)) paid;
}

start_unpaid : {to : IntentStatus} → Started to → to ≢ IntentStatus.succeeded
start_unpaid accepted e = ground (arith, e)
start_unpaid rejected e = ground (arith, e)

pub start_intent-Coupled :
    (id : Uuid) (to : IntentStatus) (i : PaymentIntent) (w : World)
    → Started to
    → find_intent id w.intents ≡ some i
    → i.status ≡ IntentStatus.created
    → Kept Coupled w
        (record w { intents = update intent_id id (stamp_status to w.clock) w.intents })
start_intent-Coupled id to i w started found created h = record {
  settled = λ k t at done.
      let (j, at', paid) = h.settled k t at done in
      (
        j,
        ground (
          arith,
          find-update intent_id (stamp_status to w.clock) (stamp_status_id to w.clock) t.intent_id
              id w.intents,
          ==_iff id t.intent_id,
        ),
        paid,
      );
  paid = λ k j at paid.
      h.paid k j
        (ground (
          arith,
          find-update intent_id (stamp_status to w.clock) (stamp_status_id to w.clock) k id
              w.intents,
          ==_iff id k,
          stamp_status_status to w.clock i,
          start_unpaid started,
        ))
        paid;
}

pub insert_transaction-Coupled :
    (t : Transaction) (w : World)
    → (t.status ≡ TransactionStatus.failed) ⊎ (t.status ≡ TransactionStatus.pending)
    → find_transaction t.id w.transactions ≡ none
    → Kept Coupled w (record w { transactions = t ∷ w.transactions })
insert_transaction-Coupled t w unsettled new h = record {
  settled = λ k u found done.
      h.settled k u (ground (arith, find-cons transaction_id k t w.transactions, unsettled)) done;
  paid = λ id i found paid.
      let b = h.paid id i found paid in
      record {
        key = b.key;
        row = b.row;
        found =
            ground
              (arith, find-cons transaction_id b.key t w.transactions, ==_iff t.id b.key, b.found);
        of = b.of;
        done = b.done;
      };
}
