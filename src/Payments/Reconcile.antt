-- ===== src/Payments/Reconcile.antt =====
-- backend/payments/reconcile.go: the batch that asks the providers about pending transactions.
-- Metrics are not modelled. The publisher's failures are only counted there, so they are ignored.
use motivra.Prelude.{
  ℕ, ◌+◌, ◌-◌, Bool, true, false, List, [], ◌∷◌, none, some, ◌==◌, if◌then◌else◌, length,
}
use motivra.Prelude.Text.{bytes}
use motivra.Prelude.Exec.{Result, ok, err}
use motivra.Payments.Status.{IntentStatus, TransactionStatus, transaction_eq}
use motivra.Payments.Types.{ProviderError, QueryResult, Error}
use motivra.Payments.World.{World, Action, Payload, SettledBy}
use motivra.Payments.Store.Reads.{StaleIntent, list_stale_intents}
use motivra.Payments.Store.Settlement.{ApplyOutcomeParams, apply_transaction_outcome}
use motivra.Payments.Service.{Service, lookup_provider, publish_ignoring}

-- The `Reconciler` with its service's providers and publisher.
pub record Reconciler : Type 0 where
  pub service : Service
  pub stale_after : ℕ
  pub batch_limit : ℕ

abbrev pub default_reconcile_batch : ℕ
default_reconcile_batch = 100

pub record ReconcileResult : Type 0 where
  pub scanned : ℕ
  pub repaired : ℕ
  pub still_pending : ℕ
  pub errors : ℕ

abbrev pub count_error : ReconcileResult → ReconcileResult
count_error r = record r { errors = r.errors + 1 }

abbrev pub count_pending : ReconcileResult → ReconcileResult
count_pending r = record r { still_pending = r.still_pending + 1 }

abbrev pub count_repaired : ReconcileResult → ReconcileResult
count_repaired r = record r { repaired = r.repaired + 1 }

abbrev pub query_outcome : StaleIntent → QueryResult → ApplyOutcomeParams
query_outcome si q = record {
  transaction_id = si.transaction.id;
  new_tx_status = q.status;
  new_intent_status =
      if transaction_eq q.status TransactionStatus.failed
      then IntentStatus.failed
      else IntentStatus.succeeded;
  provider_receipt = q.provider_transaction_ref;
  failure_reason = q.failure_reason;
  occurred_at = q.occurred_at;
  reason = bytes "reconciliation";
}

abbrev repaired_payload : StaleIntent → QueryResult → Payload
repaired_payload si q =
    let t = si.transaction in
    if transaction_eq q.status TransactionStatus.failed
    then Payload.transaction_failed si.intent.id t.id t.provider t.provider_ref
        q.provider_transaction_ref t.amount_minor t.currency SettledBy.reconciliation
        q.failure_reason
    else Payload.transaction_succeeded si.intent.id t.id t.provider t.provider_ref
        q.provider_transaction_ref t.amount_minor t.currency SettledBy.reconciliation
        q.failure_reason

-- What the settlement of one stale intent counts as; its event goes out if it was applied.
unfoldable pub settle_counted :
    Reconciler
    → StaleIntent
    → QueryResult
    → ReconcileResult
    → Result Error Bool × World
    → ReconcileResult × World
settle_counted rc si q r (err e, w) = (count_error r, w)
settle_counted rc si q r (ok false, w) = (r, w)
settle_counted rc si q r (ok true, w) = (
  count_repaired r,
  (publish_ignoring rc.service si.transaction.id none si.intent.tenant_id (repaired_payload si q)
      w).1,
)

unfoldable pub reconcile_answer :
    Reconciler
    → StaleIntent
    → Result ProviderError QueryResult
    → ReconcileResult
    → World
    → ReconcileResult × World
unfolding settle_counted
reconcile_answer rc si (err e) r w = (count_error r, w)
reconcile_answer rc si (ok q) r w =
    if transaction_eq q.status TransactionStatus.pending
    then (count_pending r, w)
    else settle_counted rc si q r (apply_transaction_outcome (query_outcome si q) w)

-- One round of the loop.
unfoldable pub reconcile_one :
    Reconciler → StaleIntent → ReconcileResult → World → ReconcileResult × World
unfolding reconcile_answer
reconcile_one rc si r w = elim (lookup_provider si.transaction.provider rc.service.providers) [
  | none ↦ (count_error r, w)
  | some p ↦ reconcile_answer rc si (p.query si.transaction.provider_ref) r w
]

unfoldable pub reconcile_all :
    Reconciler → List StaleIntent → ReconcileResult → World → ReconcileResult × World
reconcile_all rc [] r w = (r, w)
reconcile_all rc (si ∷ sis) r w =
    let (r', w') = reconcile_one rc si r w in reconcile_all rc sis r' w'

abbrev pub start_result : ℕ → ReconcileResult
start_result n = record { scanned = n; repaired = 0; still_pending = 0; errors = 0 }

abbrev pub reconcile_batch :
    Reconciler → Result Error (List StaleIntent) × World → Result Error ReconcileResult × World
reconcile_batch rc (err e, w) = (err e, w)
reconcile_batch rc (ok stale, w) =
    let (r, w') = reconcile_all rc stale (start_result (length stale)) w in (ok r, w')

-- `Run`; the clock of the world is what `nowFunc` reads.
unfoldable pub reconcile_run : Reconciler → Action ReconcileResult
unfolding reconcile_all
reconcile_run rc w =
    let limit = if rc.batch_limit == 0 then default_reconcile_batch else rc.batch_limit in
    reconcile_batch rc (list_stale_intents (w.clock - rc.stale_after) limit w)
