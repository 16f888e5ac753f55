-- ===== src/Payments/Status/Laws.antt =====
-- The status machines against the lifecycles that they describe.
use motivra.Prelude.{ℕ, suc, ◌+◌, ◌≤◌, ◌<◌, ◌≡◌, refl, ap, ◌↔◌, true, arith}
use motivra.Prelude.Exec.{ok, err}
use motivra.Payments.Status.{
  IntentStatus, TransactionStatus, RefundStatus, conflict, can_transition_intent,
  can_transition_transaction, can_transition_refund, is_known_intent, is_known_transaction,
  is_known_refund, is_intent_terminal, is_transaction_terminal, is_refund_terminal,
}

-- The lifecycle of an intent: created, then processing or canceled, then succeeded or failed.
pub data IntentMove : IntentStatus → IntentStatus → Type 0 where
  accept : IntentMove IntentStatus.created IntentStatus.processing
  cancel : IntentMove IntentStatus.created IntentStatus.canceled
  succeed : IntentMove IntentStatus.processing IntentStatus.succeeded
  fail : IntentMove IntentStatus.processing IntentStatus.failed

ruleset intent_moves = (accept, cancel, succeed, fail)

IntentMove-ok : (a b : IntentStatus) → IntentMove a b → can_transition_intent a b ≡ ok tt
unfolding can_transition_intent
IntentMove-ok a b accept = refl
IntentMove-ok a b cancel = refl
IntentMove-ok a b succeed = refl
IntentMove-ok a b fail = refl

-- `CanTransitionIntentStatus` accepts exactly the four moves of the lifecycle.
pub can_transition_intent_iff :
    (a b : IntentStatus) → (can_transition_intent a b ≡ ok tt) ↔ IntentMove a b
unfolding can_transition_intent
can_transition_intent_iff a b = ((λ h. grind (arith, intent_moves)), IntentMove-ok a b)

-- An intent status is terminal exactly when it is one of the five and no move leaves it.
is_intent_terminal_iff :
    (s : IntentStatus)
    → (is_intent_terminal s ≡ true) ↔ (
        (is_known_intent s ≡ true)
        × ((t : IntentStatus) → can_transition_intent s t ≡ err conflict))
unfolding is_intent_terminal is_known_intent can_transition_intent
is_intent_terminal_iff s = (
  (λ h. (ground arith, λ t. ground arith)),
  λ h. ground (arith, h.1 IntentStatus.processing, h.1 IntentStatus.succeeded),
)

-- A transaction status is terminal exactly when it is one of the three and no move leaves it.
is_transaction_terminal_iff :
    (s : TransactionStatus)
    → (is_transaction_terminal s ≡ true) ↔ (
        (is_known_transaction s ≡ true)
        × ((t : TransactionStatus) → can_transition_transaction s t ≡ err conflict))
unfolding is_transaction_terminal is_known_transaction can_transition_transaction
is_transaction_terminal_iff s =
    ((λ h. (ground arith, λ t. ground arith)), λ h. ground (arith, h.1 TransactionStatus.succeeded))

-- A refund status is terminal exactly when it is one of the three and no move leaves it.
is_refund_terminal_iff :
    (s : RefundStatus)
    → (is_refund_terminal s ≡ true) ↔ (
        (is_known_refund s ≡ true)
        × ((t : RefundStatus) → can_transition_refund s t ≡ err conflict))
unfolding is_refund_terminal is_known_refund can_transition_refund
is_refund_terminal_iff s =
    ((λ h. (ground arith, λ t. ground arith)), λ h. ground (arith, h.1 RefundStatus.completed))

-- In each of the three machines a status is terminal exactly when it is a known one and no move leaves it.
pub terminal_iff :
    (i : IntentStatus) (t : TransactionStatus) (r : RefundStatus)
    → ((is_intent_terminal i ≡ true) ↔ (
        (is_known_intent i ≡ true)
        × ((b : IntentStatus) → can_transition_intent i b ≡ err conflict)))
      × ((is_transaction_terminal t ≡ true) ↔ (
          (is_known_transaction t ≡ true)
          × ((b : TransactionStatus) → can_transition_transaction t b ≡ err conflict)))
      × ((is_refund_terminal r ≡ true) ↔ (
          (is_known_refund r ≡ true)
          × ((b : RefundStatus) → can_transition_refund r b ≡ err conflict)))
terminal_iff i t r =
    (is_intent_terminal_iff i, is_transaction_terminal_iff t, is_refund_terminal_iff r)

-- A history of moves that `CanTransitionIntentStatus` accepts, by its length.
pub data IntentPath (a : IntentStatus) : ℕ → IntentStatus → Type 0 where
  here : IntentPath a 0 a
  next :
      {n : ℕ} {b c : IntentStatus}
      → IntentPath a n b
      → can_transition_intent b c ≡ ok tt
      → IntentPath a (suc n) c

abbrev rank : IntentStatus → ℕ
rank IntentStatus.created = 0
rank IntentStatus.processing = 1
rank _ = 2

rank-move : {a b : IntentStatus} → IntentMove a b → rank a < rank b
rank-move accept = omega arith
rank-move cancel = omega arith
rank-move succeed = omega arith
rank-move fail = omega arith

rank-path : {a b : IntentStatus} {n : ℕ} → IntentPath a n b → n + rank a ≤ rank b
rank-path here = omega arith
rank-path (next {b = b} {c = c} p m) =
    omega (arith, rank-path p, rank-move ((can_transition_intent_iff b c).0 m))

rank-le : (s : IntentStatus) → rank s ≤ 2
rank-le s = ground arith

-- A history of moves that `CanTransitionIntentStatus` accepts has at most two of them, and none comes
-- back to a status.
pub IntentPath-bounded : {a b : IntentStatus} {n : ℕ} → IntentPath a n b → (n ≤ 2) × (a ≡ b → n ≡ 0)
IntentPath-bounded {a} {b} {n} p =
    (omega (arith, rank-path p, rank-le b), λ e. omega (arith, rank-path p, ap rank e))
