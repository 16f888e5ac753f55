-- ===== src/Payments/Store/Settlement.antt =====
-- `ApplyTransactionOutcome`: the settlement of a transaction and its intent in one database
-- transaction. The tests stand before the writes here: whatever fails, nothing is written.
use motivra.Prelude.{Bool, true, false, [], ◌∷◌, none, some, ◌==◌, if◌then◌else◌, nat_eq}
use motivra.Prelude.Text.{Text}
use motivra.Prelude.Exec.{◌>>=◌, ◌>>◌, find_or_raise, pure, require, check, modify}
use motivra.Prelude.Table.{update}
use motivra.Payments.Status.{
  IntentStatus, TransactionStatus, intent_eq, transaction_eq, is_known_intent,
}
use motivra.Payments.Types.{
  Uuid, Instant, PaymentIntent, Transaction, IntentTransition, intent_not_found,
  transaction_not_found, conflict, database,
}
use motivra.Payments.World.{World, Action, attempt}
use motivra.Payments.Store.Rows.{transaction_trigger, free_receipt}
use motivra.Payments.Store.Reads.{intent_id, transaction_id, find_intent, find_transaction}
use motivra.Payments.Store.Writes.{stamp_status}

pub record ApplyOutcomeParams : Type 0 where
  pub transaction_id : Uuid
  pub new_tx_status : TransactionStatus
  pub new_intent_status : IntentStatus
  pub provider_receipt : Text
  pub failure_reason : Text
  pub occurred_at : Instant
  pub reason : Text

-- COALESCE(NULLIF($5, ''), provider_receipt)
abbrev pub coalesce : Text → Text → Text
coalesce [] old = old
coalesce (c ∷ cs) old = c ∷ cs

unfoldable pub settle_row : ApplyOutcomeParams → Instant → Transaction → Transaction
settle_row p now t = record t {
  status = p.new_tx_status;
  failure_reason = p.failure_reason;
  occurred_at = some (if p.occurred_at == 0 then now else p.occurred_at);
  provider_receipt = coalesce p.provider_receipt t.provider_receipt;
  updated_at = now;
}

-- The SET clause of the intent: the reason is written only when there is one.
unfoldable pub settle_intent_row : ApplyOutcomeParams → Instant → PaymentIntent → PaymentIntent
unfolding stamp_status
settle_intent_row p now i =
    let stamped = stamp_status p.new_intent_status now i in
    record stamped { failure_reason = coalesce p.failure_reason stamped.failure_reason }

abbrev settle_transition : ApplyOutcomeParams → Instant → PaymentIntent → IntentTransition
settle_transition p now i = record {
  intent_id = i.id;
  from_status = i.status;
  to_status = p.new_intent_status;
  actor_id = none;
  reason = p.reason;
  created_at = now;
}

abbrev pub settle_transaction : ApplyOutcomeParams → World → World
settle_transaction p w = record w {
  transactions = update transaction_id p.transaction_id (settle_row p w.clock) w.transactions;
}

abbrev pub settle_intent : ApplyOutcomeParams → PaymentIntent → World → World
settle_intent p i w = record w {
  intents = update intent_id i.id (settle_intent_row p w.clock) w.intents;
  transitions = settle_transition p w.clock i ∷ w.transitions;
}

-- The transaction is PENDING, and its intent is `i`.
unfoldable pub settle_both : ApplyOutcomeParams → PaymentIntent → Action Bool
unfolding settle_row settle_intent_row
settle_both p i =
    if intent_eq i.status p.new_intent_status
    then (do modify (settle_transaction p); pure true)
    else (do
      require (intent_eq i.status IntentStatus.processing) conflict
      require (is_known_intent p.new_intent_status) database
      modify (settle_transaction p)
      modify (settle_intent p i)
      pure true)

unfoldable pub settle_pending : ApplyOutcomeParams → Transaction → Action Bool
unfolding settle_both
settle_pending p t = do
  require (transaction_eq t.status TransactionStatus.pending) conflict
  require (transaction_trigger t.status p.new_tx_status) database
  check (λ w. free_receipt t.id t.provider p.provider_receipt w.transactions) database
  i ← find_or_raise (λ w. find_intent t.intent_id w.intents) intent_not_found
  settle_both p i

unfoldable pub apply_transaction_outcome : ApplyOutcomeParams → Action Bool
unfolding settle_pending
apply_transaction_outcome p = do
  attempt database
  t ← find_or_raise (λ w. find_transaction p.transaction_id w.transactions) transaction_not_found
  if transaction_eq t.status p.new_tx_status then pure false else settle_pending p t
