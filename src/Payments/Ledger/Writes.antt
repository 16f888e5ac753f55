-- ===== src/Payments/Ledger/Writes.antt =====
-- Every write of the store grows the ledger.
use motivra.Prelude.{◌≡◌, refl, ap, ◌∙◌, true, [], ◌∷◌, Option, none, some, arith, nat_eq}
use motivra.Prelude.Text.{Text}
use motivra.Prelude.Table.{
  find_key, update, Evolves, Evolves-cons, Evolves-update, Evolves-update_missing,
}
use motivra.Payments.Status.{IntentStatus, TransactionStatus, RefundStatus}
use motivra.Payments.Types.{Uuid, Instant, PaymentIntent, Transaction, Refund}
use motivra.Payments.World.{World, Event, ClaimKey, IdempotencyKey, claim_key-Eq}
use motivra.Payments.Store.Reads.{
  intent_id, transaction_id, refund_id, find_intent, find_transaction, find_refund,
}
use motivra.Payments.Store.Settlement.{
  ApplyOutcomeParams, settle_row, settle_intent_row, settle_transaction, settle_intent,
}
use motivra.Payments.Store.Refunds.{settle_refund_row}
use motivra.Payments.Store.Keys.{key_of, result_trigger}
use motivra.Payments.Store.Keys
use motivra.Payments.Store.Stamps.{settle_intent_row_id}
use motivra.Payments.Calls.Writes.{WriteLaws, Settling}
use motivra.Payments.Ledger.{
  Grows, Grows-refl, Grows-trans, Grows-environment, Grows-time, Grows-Preorder, TransactionKeeps,
  TransactionKeeps-refl, RefundKeeps, RefundKeeps-refl, KeyKeeps, KeyKeeps-refl,
}
use motivra.Payments.Ledger.Intents.{
  insert_intent-Grows, update_intent-Grows, start_intent-Grows, settle_intent_row-IntentKeeps,
}

sent-Grows : (e : Event) (w : World) → Grows w (record w { outbox = e ∷ w.outbox })
sent-Grows e w =
    let g = Grows-refl w in
    record {
      intents = g.intents;
      transactions = g.transactions;
      refunds = g.refunds;
      keys = g.keys;
      audit = g.audit;
      sent = (e ∷ [], refl);
    }

insert_row-Grows :
    (t : Transaction) (w : World)
    → find_transaction t.id w.transactions ≡ none
    → Grows w (record w { transactions = t ∷ w.transactions })
insert_row-Grows t w new =
    let g = Grows-refl w in
    record {
      intents = g.intents;
      transactions =
          Evolves-cons transaction_id TransactionKeeps TransactionKeeps-refl t w.transactions new;
      refunds = g.refunds;
      keys = g.keys;
      audit = g.audit;
      sent = g.sent;
    }

settle_row-TransactionKeeps :
    (p : ApplyOutcomeParams) (now : Instant) (t : Transaction)
    → t.status ≡ TransactionStatus.pending
    → TransactionKeeps t (settle_row p now t)
unfolding settle_row
settle_row-TransactionKeeps p now t h = record {
  intent = refl;
  amount = refl;
  currency = refl;
  provider = refl;
  ref = refl;
  final = λ n. ground (arith, n h);
}

settle_transaction-Grows :
    (p : ApplyOutcomeParams) (t : Transaction) (w : World)
    → find_transaction p.transaction_id w.transactions ≡ some t
    → t.status ≡ TransactionStatus.pending
    → Grows w (record w {
      transactions = update transaction_id p.transaction_id (settle_row p w.clock) w.transactions;
    })
unfolding settle_row
settle_transaction-Grows p t w found pending =
    let g = Grows-refl w in
    record {
      intents = g.intents;
      transactions =
          Evolves-update transaction_id TransactionKeeps TransactionKeeps-refl
            (settle_row p w.clock) (λ t. refl) p.transaction_id w.transactions t found
            (settle_row-TransactionKeeps p w.clock t pending);
      refunds = g.refunds;
      keys = g.keys;
      audit = g.audit;
      sent = g.sent;
    }

insert_refund_row-Grows :
    (r : Refund) (w : World)
    → find_refund r.id w.refunds ≡ none
    → Grows w (record w { refunds = r ∷ w.refunds })
insert_refund_row-Grows r w new =
    let g = Grows-refl w in
    record {
      intents = g.intents;
      transactions = g.transactions;
      refunds = Evolves-cons refund_id RefundKeeps RefundKeeps-refl r w.refunds new;
      keys = g.keys;
      audit = g.audit;
      sent = g.sent;
    }

settle_refund_row-RefundKeeps :
    (to : RefundStatus) (ref reason : Text) (now : Instant) (r : Refund)
    → r.status ≡ RefundStatus.requested
    → RefundKeeps r (settle_refund_row to ref reason now r)
unfolding settle_refund_row
settle_refund_row-RefundKeeps to ref reason now r h = record {
  intent = refl;
  amount = refl;
  currency = refl;
  provider = refl;
  final = λ n. ground (arith, n h);
}

settle_refund-Grows :
    (id : Uuid) (to : RefundStatus) (ref reason : Text) (r : Refund) (w : World)
    → find_refund id w.refunds ≡ some r
    → r.status ≡ RefundStatus.requested
    → Grows w (record w {
      refunds = update refund_id id (settle_refund_row to ref reason w.clock) w.refunds;
    })
unfolding settle_refund_row
settle_refund-Grows id to ref reason r w found requested =
    let g = Grows-refl w in
    record {
      intents = g.intents;
      transactions = g.transactions;
      refunds =
          Evolves-update refund_id RefundKeeps RefundKeeps-refl
            (settle_refund_row to ref reason w.clock) (λ r. refl) id w.refunds r found
            (settle_refund_row-RefundKeeps to ref reason w.clock r requested);
      keys = g.keys;
      audit = g.audit;
      sent = g.sent;
    }

claim_key_row-Grows :
    (k : IdempotencyKey) (w : World)
    → Keys.find_key k.key w.keys ≡ none
    → Grows w (record w { keys = k ∷ w.keys })
claim_key_row-Grows k w new =
    let g = Grows-refl w in
    record {
      intents = g.intents;
      transactions = g.transactions;
      refunds = g.refunds;
      keys = Evolves-cons key_of KeyKeeps KeyKeeps-refl k w.keys new;
      audit = g.audit;
      sent = g.sent;
    }

complete_key-KeyKeeps :
    (result : Text) (k : IdempotencyKey)
    → result_trigger (some k) result ≡ true
    → KeyKeeps k (record k { result = result })
complete_key-KeyKeeps result k h = record { hash = refl; final = λ n. ground (arith, n) }

complete_key-Grows :
    (key : ClaimKey) (result : Text) (w : World)
    → result_trigger (Keys.find_key key w.keys) result ≡ true
    → Grows w (record w { keys = update key_of key (λ k. record k { result = result }) w.keys })
complete_key-Grows key result w h =
    let g = Grows-refl w in
    record {
      intents = g.intents;
      transactions = g.transactions;
      refunds = g.refunds;
      keys = kept (Keys.find_key key w.keys) refl h;
      audit = g.audit;
      sent = g.sent;
    }
  where
    kept :
        (found : Option IdempotencyKey)
        → Keys.find_key key w.keys ≡ found
        → result_trigger found result ≡ true
        → Evolves key_of KeyKeeps w.keys
            (update key_of key (λ k. record k { result = result }) w.keys)
    kept none e legal =
        Evolves-update_missing key_of KeyKeeps KeyKeeps-refl (λ k. record k { result = result })
          (λ k. refl) key w.keys e
    kept (some k) e legal =
        Evolves-update key_of KeyKeeps KeyKeeps-refl (λ k. record k { result = result }) (λ k. refl)
          key w.keys k e (complete_key-KeyKeeps result k legal)

settle_both-Grows :
    (p : ApplyOutcomeParams) (t : Transaction) (i : PaymentIntent) (w : World)
    → Settling p t i w
    → i.status ≡ IntentStatus.processing
    → Grows w (settle_intent p i (settle_transaction p w))
settle_both-Grows p t i w h processing =
    Grows-trans w (settle_transaction p w) _ (settle_transaction-Grows p t w h.found h.pending) (
      update_intent-Grows i.id (settle_intent_row p w.clock) _ i (settle_transaction p w)
        (settle_intent_row_id p w.clock)
        (ap (λ k. find_intent k w.intents) (find_key intent_id t.intent_id w.intents i h.of_intent)
          ∙ h.of_intent)
        (settle_intent_row-IntentKeeps p w.clock i processing))

pub Grows-WriteLaws : {Accepted : TransactionStatus → Type 0} → WriteLaws Grows Accepted
Grows-WriteLaws = record {
  order = Grows-Preorder;
  time = Grows-time;
  environment = λ fs n w. Grows-environment w fs n;
  sent = sent-Grows;
  insert_intent = λ i w _ new. insert_intent-Grows i w new;
  start_intent =
      λ id to actor reason i w _ found created. start_intent-Grows id to _ i w found created;
  insert_transaction = λ t w _ new _. insert_row-Grows t w new;
  settle_alone = λ p t i w h _. settle_transaction-Grows p t w h.found h.pending;
  settle_both = settle_both-Grows;
  insert_refund = insert_refund_row-Grows;
  settle_refund = settle_refund-Grows;
  insert_key = claim_key_row-Grows;
  complete_key = complete_key-Grows;
}
