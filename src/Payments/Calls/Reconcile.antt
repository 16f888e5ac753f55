-- ===== src/Payments/Calls/Reconcile.antt =====
-- The reconciler under the store's laws.
use motivra.Prelude.{
  ℕ, arith, Bool-cases, inl, inr, Bool, true, false, List, [], ◌∷◌, none, some, if◌then◌else◌,
}
use motivra.Prelude.Exec.{Result, ok, err}
use motivra.Prelude.Exec.Steps.{Any, Steps-gets}
use motivra.Payments.Status.{TransactionStatus, transaction_eq, transaction_eq_iff}
use motivra.Payments.Types.{Instant, ProviderError, QueryResult, Error, database}
use motivra.Payments.World.{World}
use motivra.Payments.Store.Reads.{StaleIntent, list_stale_intents}
use motivra.Payments.Store.Settlement.{apply_transaction_outcome}
use motivra.Payments.Service.{lookup_provider}
use motivra.Payments.Reconcile.{
  Reconciler, ReconcileResult, count_error, count_pending, query_outcome, reconcile_batch,
  settle_counted, reconcile_answer, reconcile_one, reconcile_all, reconcile_run,
}
use motivra.Payments.Calls.{
  StoreLaws, Settles, failing_both, otherwise, Keeps, attempt-Keeps, then-Keeps,
  publish_ignoring-Keeps,
}

query_outcome-Settles :
    (si : StaleIntent) (q : QueryResult)
    → Settles (query_outcome si q).new_tx_status (query_outcome si q).new_intent_status
query_outcome-Settles si q = elim (Bool-cases (transaction_eq q.status TransactionStatus.failed)) [
  | inl h ↦ rw (h, (transaction_eq_iff q.status TransactionStatus.failed).0 h) failing_both
  | inr h ↦
      rw h (
        otherwise (λ e. ground (arith, (transaction_eq_iff q.status TransactionStatus.failed).1 e)))
]

module _ {R : World → World → Type 0} {Accepted : TransactionStatus → Type 0}
    (k : StoreLaws R Accepted) where
  -- The reconciler

  list_stale_intents-Keeps :
      (older_than : Instant) (limit : ℕ) → Keeps k (list_stale_intents older_than limit)
  unfolding list_stale_intents
  list_stale_intents-Keeps older_than limit =
      then-Keeps k _ _ (attempt-Keeps k database) λ _. Steps-gets k.order Any _

  module _ (rc : Reconciler) where
    settle_counted-Keeps :
        (si : StaleIntent) (q : QueryResult) (r : ReconcileResult) (u : World)
        (a : Result Error Bool × World)
        → R u a.1
        → R u (settle_counted rc si q r a).1
    unfolding settle_counted
    settle_counted-Keeps si q r u (err e, w) h = h
    settle_counted-Keeps si q r u (ok false, w) h = h
    settle_counted-Keeps si q r u (ok true, w) h =
        k.order.chain u w _ h ((publish_ignoring-Keeps k rc.service _ _ _ _).at w tt)

    reconcile_answer-Keeps :
        (si : StaleIntent) (a : Result ProviderError QueryResult) (r : ReconcileResult) (w : World)
        → R w (reconcile_answer rc si a r w).1
    unfolding reconcile_answer
    reconcile_answer-Keeps si (err e) r w = k.order.same w
    reconcile_answer-Keeps si (ok q) r w =
        elim (transaction_eq q.status TransactionStatus.pending)
          as (λ b.
            R w
              (if b
                then (count_pending r, w)
                else settle_counted rc si q r
                    (apply_transaction_outcome (query_outcome si q) w)).1) [
                      | true ↦ k.order.same w
                      | false ↦
                          settle_counted-Keeps si q r w _
                            ((k.settle _ (query_outcome-Settles si q)).at w tt)
                    ]

    reconcile_one-Keeps :
        (si : StaleIntent) (r : ReconcileResult) (w : World) → R w (reconcile_one rc si r w).1
    unfolding reconcile_one
    reconcile_one-Keeps si r w =
        elim (lookup_provider si.transaction.provider rc.service.providers)
          as (λ found.
            let after : ReconcileResult × World = elim found [
              | none ↦ (count_error r, w)
              | some p ↦ reconcile_answer rc si (p.query si.transaction.provider_ref) r w
            ] in
            R w after.1) [ none ↦ k.order.same w | some p ↦ reconcile_answer-Keeps si _ r w ]

    reconcile_all-Keeps :
        (sis : List StaleIntent) (r : ReconcileResult) (w : World)
        → R w (reconcile_all rc sis r w).1
    unfolding reconcile_all
    reconcile_all-Keeps [] r w = k.order.same w
    reconcile_all-Keeps (si ∷ sis) r w =
        k.order.chain w _ _ (reconcile_one-Keeps si r w) (reconcile_all-Keeps sis _ _)

    pub reconcile_run-Keeps : Keeps k (reconcile_run rc)
    unfolding reconcile_run
    reconcile_run-Keeps = record {
      at = λ w h. go w (list_stale_intents _ _ w) ((list_stale_intents-Keeps _ _).at w h);
    }
      where
        go :
            (w : World) (a : Result Error (List StaleIntent) × World)
            → R w a.1
            → R w (reconcile_batch rc a).1
        go w (err e, v) h = h
        go w (ok stale, v) h = k.order.chain w v _ h (reconcile_all-Keeps stale _ v)
