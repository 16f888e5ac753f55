-- ===== src/Payments/Status/Tests.antt =====
-- The status machines at concrete statuses.
use motivra.Prelude.{ℕ, ◌≤◌, ◌≡◌, ◌↔◌, refl, true}
use motivra.Prelude.Exec.{ok, err}
use motivra.Payments.Status.{
  IntentStatus, TransactionStatus, RefundStatus, conflict, can_transition_intent,
  can_transition_transaction, can_transition_refund, is_known_intent, is_known_transaction,
  is_known_refund, is_intent_terminal, is_transaction_terminal, is_refund_terminal,
}
use motivra.Payments.Status.Laws.{
  IntentMove, here, next, can_transition_intent_iff, terminal_iff, IntentPath-bounded,
}

can_transition_intent_iff_example :
    (can_transition_intent IntentStatus.created IntentStatus.failed ≡ ok tt)
    ↔ IntentMove IntentStatus.created IntentStatus.failed
can_transition_intent_iff_example =
    can_transition_intent_iff IntentStatus.created IntentStatus.failed

terminal_iff_example :
    ((is_intent_terminal IntentStatus.canceled ≡ true) ↔ (
      (is_known_intent IntentStatus.canceled ≡ true)
      × ((b : IntentStatus) → can_transition_intent IntentStatus.canceled b ≡ err conflict)))
    × ((is_transaction_terminal TransactionStatus.failed ≡ true) ↔ (
        (is_known_transaction TransactionStatus.failed ≡ true)
        × ((b : TransactionStatus)
            → can_transition_transaction TransactionStatus.failed b ≡ err conflict)))
    × ((is_refund_terminal RefundStatus.requested ≡ true) ↔ (
        (is_known_refund RefundStatus.requested ≡ true)
        × ((b : RefundStatus) → can_transition_refund RefundStatus.requested b ≡ err conflict)))
terminal_iff_example =
    terminal_iff IntentStatus.canceled TransactionStatus.failed RefundStatus.requested

accepts : can_transition_intent IntentStatus.created IntentStatus.processing ≡ ok tt
unfolding can_transition_intent
accepts = refl

succeeds : can_transition_intent IntentStatus.processing IntentStatus.succeeded ≡ ok tt
unfolding can_transition_intent
succeeds = refl

abbrev moves : ℕ
moves = 2

IntentPath-bounded_example :
    (moves ≤ 2) × (IntentStatus.created ≡ IntentStatus.succeeded → moves ≡ 0)
IntentPath-bounded_example = IntentPath-bounded (next (next here accepts) succeeds)
