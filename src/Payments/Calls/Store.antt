-- ===== src/Payments/Calls/Store.antt =====
-- Each call of the store makes one write, after its checks, or none.
use motivra.Prelude.{
  suc, ◌≡◌, sym, ap, ◌∙◌, ◌⊎◌, inl, inr, Bool, true, false, List, [], ◌∷◌, Option, none, some,
  arith, ◌==◌, nat_eq,
}
use motivra.Prelude.Text.{Text}
use motivra.Prelude.Exec.{Result, ◌>>=◌, pure}
use motivra.Prelude.Exec.Steps.{
  Steps, Any, Steps-pure, Steps-bind, Steps-if, Steps-require, Steps-check, Steps-find, Steps-read,
  Steps-write, Steps-write_both, Steps-weaken, Steps-modify,
}
use motivra.Payments.Status.{
  IntentStatus, TransactionStatus, RefundStatus, intent_eq, transaction_eq, intent_eq_iff,
  transaction_eq_iff, refund_eq_iff,
}
use motivra.Payments.Types.{Uuid, nil_uuid, PaymentIntent, Transaction, Refund, Error, database}
use motivra.Payments.World.{
  World, ClaimKey, IdempotencyKey, claim_key-Eq, attempt, failing, new_uuid,
}
use motivra.Payments.Store.Rows.{transaction_trigger}
use motivra.Payments.Store.Reads.{find_intent, find_transaction}
use motivra.Payments.Store.Writes.{
  is_none, assign_id, create_intent, update_intent_status, insert_transaction,
}
use motivra.Payments.Store.Settlement.{
  ApplyOutcomeParams, settle_both, settle_pending, apply_transaction_outcome,
}
use motivra.Payments.Store.Refunds.{insert_refund, update_refund_status}
use motivra.Payments.Store.Keys.{
  find_key, claim_found, claim_idempotency_key, complete_idempotency_key,
}
use motivra.Payments.Calls.{StoreLaws, Started, Settles}
use motivra.Payments.Calls.Writes.{WriteLaws, Settling}

is_none_sound : {A : Type 0} (x : Option A) → is_none x ≡ true → x ≡ none
is_none_sound x h = ground arith

module _ {R : World → World → Type 0} {Accepted : TransactionStatus → Type 0}
    (k : WriteLaws R Accepted) where
  attempt-Keeps : (e : Error) → Steps Any R (attempt e)
  unfolding attempt
  attempt-Keeps e = record { at = λ w _. go w w.faults }
    where
      go : (w : World) (fs : List Bool) → R w (failing fs e w).1
      go w [] = k.order.same w
      go w (true ∷ fs) = k.environment fs w.next_id w
      go w (false ∷ fs) = k.environment fs w.next_id w

  assign_id-Keeps : (id : Uuid) → Steps Any R (assign_id id)
  unfolding new_uuid
  assign_id-Keeps id =
      Steps-if (id == nil_uuid) new_uuid (pure id)
        (λ _. record { at = λ w _. k.environment w.faults (suc w.next_id) w })
        (λ _. Steps-pure k.order Any id)

  -- A round trip, and what it does.
  trip :
      {A : Type 0} (m : Unit {0} → World → Result Error A × World)
      → Steps Any R (m tt)
      → Steps Any R (attempt database >>= m)
  trip m h = Steps-bind k.order Any (attempt database) m (attempt-Keeps database) (λ _. h)

  create_intent-Keeps :
      (i : PaymentIntent) → i.status ≡ IntentStatus.created → Steps Any R (create_intent i)
  unfolding create_intent
  create_intent-Keeps i h = Steps-bind k.order Any _ _ (assign_id-Keeps i.id) λ id. trip _ (
      Steps-read k.order Any _ _ λ now. Steps-check k.order _ _ _ _ (
        Steps-require k.order _ _ _ _ λ _.
          Steps-write k.order _ _ _ (λ w (p, free). k.insert_intent _ w h (is_none_sound _ free))
            (Steps-pure k.order Any _)))

  start-Keeps :
      (id : Uuid) (to : IntentStatus) (actor : Option Uuid) (reason : Text)
      → Started to
      → Steps Any R (update_intent_status id IntentStatus.created to actor reason)
  unfolding update_intent_status
  start-Keeps id to actor reason started = trip _ (
      Steps-find k.order Any _ _ _ λ i. Steps-require k.order _ _ _ _ λ created.
        Steps-require k.order _ _ _ _ λ _. Steps-modify k.order _ _ (λ w p.
          k.start_intent id to actor reason i w started p.1
            ((intent_eq_iff i.status IntentStatus.created).0 created)))

  insert_transaction-Keeps :
      (t : Transaction)
      → (t.status ≡ TransactionStatus.failed) ⊎ Accepted t.status
      → Steps Any R (insert_transaction t)
  unfolding insert_transaction
  insert_transaction-Keeps t h = Steps-bind k.order Any _ _ (assign_id-Keeps t.id) λ id. trip _ (
      Steps-read k.order Any _ _ λ now. Steps-require k.order _ _ _ _ λ _.
        Steps-check k.order _ _ _ _ (
          Steps-check k.order _ _ _ _ (
            Steps-check k.order _ _ _ _ (
              Steps-write k.order _ _ _
                (λ w (((p, new), free), _). k.insert_transaction _ w h (is_none_sound _ new) free)
                (Steps-pure k.order Any _)))))

  settle_both-Keeps :
      (p : ApplyOutcomeParams) (t : Transaction) (i : PaymentIntent)
      → Steps (Settling p t i) R (settle_both p i)
  unfolding settle_both
  settle_both-Keeps p t i =
      Steps-if (intent_eq i.status p.new_intent_status) _ _
        (λ same.
          Steps-write k.order _ _ _
            (λ w h. k.settle_alone p t i w h ((intent_eq_iff i.status p.new_intent_status).0 same))
            (Steps-pure k.order Any true))
        (λ _. Steps-require k.order _ _ _ _ λ processing. Steps-require k.order _ _ _ _ λ _.
          Steps-write_both k.order _ _ _ _
            (λ w h.
              k.settle_both p t i w h
                ((intent_eq_iff i.status IntentStatus.processing).0 processing))
            (Steps-pure k.order Any true))

  settle_pending-Keeps :
      (p : ApplyOutcomeParams) (t : Transaction)
      → Settles p.new_tx_status p.new_intent_status
      → Steps
          (λ w. Any w × (find_transaction p.transaction_id w.transactions ≡ some t))
          R
          (settle_pending p t)
  unfolding settle_pending
  settle_pending-Keeps p t outcome = Steps-require k.order _ _ _ _ λ pending.
      Steps-require k.order _ _ _ _ λ legal. Steps-check k.order _ _ _ _ (
        Steps-find k.order _ _ _ _ λ i. record {
          at = λ w ((h, _), intent).
              (settle_both-Keeps p t i).at w (facts w i h.1 pending legal intent);
        })
    where
      facts :
          (w : World) (i : PaymentIntent)
          → find_transaction p.transaction_id w.transactions ≡ some t
          → transaction_eq t.status TransactionStatus.pending ≡ true
          → transaction_trigger t.status p.new_tx_status ≡ true
          → find_intent t.intent_id w.intents ≡ some i
          → Settling p t i w
      facts w i h pending legal intent =
          let is_pending = (transaction_eq_iff t.status TransactionStatus.pending).0 pending in
          record {
            found = h;
            pending = is_pending;
            legal = sym (ap (λ s. transaction_trigger s p.new_tx_status) is_pending) ∙ legal;
            of_intent = intent;
            outcome = outcome;
          }

  settle-Keeps :
      (p : ApplyOutcomeParams)
      → Settles p.new_tx_status p.new_intent_status
      → Steps Any R (apply_transaction_outcome p)
  unfolding apply_transaction_outcome
  settle-Keeps p outcome = trip _ (
      Steps-find k.order Any _ _ _ λ t.
        Steps-if (transaction_eq t.status p.new_tx_status) _ _ (λ _. Steps-pure k.order _ false)
          (λ _. settle_pending-Keeps p t outcome))

  insert_refund-Keeps : (r : Refund) → Steps Any R (insert_refund r)
  unfolding insert_refund
  insert_refund-Keeps r = Steps-bind k.order Any _ _ (assign_id-Keeps r.id) λ id. trip _ (
      Steps-read k.order Any _ _ λ now. Steps-require k.order _ _ _ _ λ _.
        Steps-check k.order _ _ _ _ (
          Steps-check k.order _ _ _ _ (
            Steps-check k.order _ _ _ _ (
              Steps-write k.order _ _ _
                (λ w (((p, free), _), _). k.insert_refund _ w (is_none_sound _ free))
                (Steps-pure k.order Any _)))))

  settle_refund-Keeps :
      (id : Uuid) (to : RefundStatus) (ref reason : Text)
      → Steps Any R (update_refund_status id RefundStatus.requested to ref reason)
  unfolding update_refund_status
  settle_refund-Keeps id to ref reason = trip _ (
      Steps-find k.order Any _ _ _ λ r. Steps-require k.order _ _ _ _ λ requested.
        Steps-require k.order _ _ _ _ λ _. Steps-modify k.order _ _ (λ w p.
          k.settle_refund id to ref reason r w p.1
            ((refund_eq_iff r.status RefundStatus.requested).0 requested)))

  claim_found-Keeps :
      (key : ClaimKey) (hash : Text) (found : Option IdempotencyKey)
      → Steps (λ w. Any w × (find_key key w.keys ≡ found)) R (claim_found key hash found)
  claim_found-Keeps key hash none =
      Steps-write k.order _ _ _ (λ w h. k.insert_key _ w h.1) (Steps-pure k.order Any _)
  claim_found-Keeps key hash (some _) =
      Steps-bind k.order _ _ _ (Steps-weaken _ (attempt-Keeps database))
        (λ _. Steps-pure k.order Any _)

  claim-Keeps : (key : ClaimKey) (hash : Text) → Steps Any R (claim_idempotency_key key hash)
  unfolding claim_idempotency_key
  claim-Keeps key hash = trip _ (Steps-read k.order Any _ _ (claim_found-Keeps key hash))

  complete-Keeps :
      (key : ClaimKey) (result : Text) → Steps Any R (complete_idempotency_key key result)
  unfolding complete_idempotency_key
  complete-Keeps key result = trip _ (
      Steps-check k.order Any _ _ _
        (Steps-modify k.order _ _ (λ w h. k.complete_key key result w h.1)))

  -- The laws of the writes give those of the store.
  pub writes-StoreLaws : StoreLaws R Accepted
  writes-StoreLaws = record {
    order = k.order;
    time = k.time;
    environment = k.environment;
    sent = k.sent;
    create = create_intent-Keeps;
    start = start-Keeps;
    insert_failed = λ t h. insert_transaction-Keeps t (inl h);
    insert_accepted = λ t h. insert_transaction-Keeps t (inr h);
    settle = settle-Keeps;
    insert_refund = insert_refund-Keeps;
    settle_refund = settle_refund-Keeps;
    claim = claim-Keeps;
    complete = complete-Keeps;
  }
