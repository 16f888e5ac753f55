-- ===== src/Payments/Ledger/Laws.antt =====
-- The ledger only grows: no call of the service, in any history and with any failures, loses a row,
-- changes an amount or an owner, or moves a settled status.
use motivra.Prelude.{Extends, ◌≡◌, ◌≢◌, ap, ◌∙◌, List, [], some}
use motivra.Payments.Status.{TransactionStatus, RefundStatus}
use motivra.Payments.Types.{Uuid, PaymentIntent, Transaction, Refund}
use motivra.Payments.World.{World, ClaimKey, IdempotencyKey}
use motivra.Payments.Store.Reads.{find_intent, find_transaction, find_refund}
use motivra.Payments.Store.Keys.{find_key}
use motivra.Payments.Service.{Service}
use motivra.Payments.Calls.Store.{writes-StoreLaws}
use motivra.Payments.Calls.History.{Call, history, history-Keeps}
use motivra.Payments.Ledger.{Grows, IntentKeeps}
use motivra.Payments.Ledger.Writes.{Grows-WriteLaws}

abbrev AnyStatus : TransactionStatus → Type 0
AnyStatus t = Unit

module _ (s : Service) (cs : List Call) (w : World) where
  history-Grows : Grows w (history s cs w)
  history-Grows =
      history-Keeps (writes-StoreLaws {Accepted = AnyStatus} Grows-WriteLaws) s (λ _ _ _ _ _ _. tt)
        cs w

  -- After any history of calls, an intent is still there with its amount, currency, provider and
  -- owners, and with its status if that was SUCCEEDED, FAILED or CANCELED.
  pub history-intent :
      (id : Uuid) (i : PaymentIntent)
      → find_intent id w.intents ≡ some i
      → (j : PaymentIntent) × (find_intent id (history s cs w).intents ≡ some j) × IntentKeeps i j
  history-intent id i h = history-Grows.intents.row id i h

  -- After any history of calls, a transaction that has settled is there unchanged: it settles once.
  pub history-settled_transaction :
      (id : Uuid) (t : Transaction)
      → find_transaction id w.transactions ≡ some t
      → t.status ≢ TransactionStatus.pending
      → find_transaction id (history s cs w).transactions ≡ some t
  history-settled_transaction id t h settled =
      let (u, found, keeps) = history-Grows.transactions.row id t h in
      found ∙ ap some (keeps.final settled)

  -- After any history of calls, a refund that has settled is there unchanged.
  pub history-settled_refund :
      (id : Uuid) (r : Refund)
      → find_refund id w.refunds ≡ some r
      → r.status ≢ RefundStatus.requested
      → find_refund id (history s cs w).refunds ≡ some r
  history-settled_refund id r h settled =
      let (q, found, keeps) = history-Grows.refunds.row id r h in
      found ∙ ap some (keeps.final settled)

  -- After any history of calls, an idempotency key with a result is there unchanged.
  pub history-completed_key :
      (key : ClaimKey) (k : IdempotencyKey)
      → find_key key w.keys ≡ some k
      → k.result ≢ []
      → find_key key (history s cs w).keys ≡ some k
  history-completed_key key k h complete =
      let (l, found, keeps) = history-Grows.keys.row key k h in
      found ∙ ap some (keeps.final complete)

  -- A history of calls only adds to the audit trail and to the published events.
  pub history-audit :
      Extends w.transitions (history s cs w).transitions × Extends w.outbox (history s cs w).outbox
  history-audit = (history-Grows.audit, history-Grows.sent)
