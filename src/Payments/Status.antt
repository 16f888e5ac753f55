-- ===== src/Payments/Status.antt =====
-- backend/payments/statemachine.go: the three status machines and the walker that they share.
-- A status is a Go string, so each type has a constructor for a text that is none of the constants.
-- An error is the sentinel that it wraps; its message is dropped.
pub mod Laws
mod Tests
use motivra.Prelude.{
  ◌≡◌, refl, ◌↔◌, Bool, true, false, not, ◌&&◌, List, [], ◌∷◌, Option, none, some, arith,
  if◌then◌else◌, Eq,
}
use motivra.Prelude.Text.{Text, text_eq, text_eq_iff}
use motivra.Prelude.Exec.{Result, ok, err}

pub data IntentStatus : Type 0 where
  created processing succeeded failed canceled : IntentStatus
  other : Text → IntentStatus

pub data TransactionStatus : Type 0 where
  pending succeeded failed : TransactionStatus
  other : Text → TransactionStatus

pub data RefundStatus : Type 0 where
  requested completed failed : RefundStatus
  other : Text → RefundStatus

unfoldable pub intent_eq : IntentStatus → IntentStatus → Bool
intent_eq IntentStatus.created IntentStatus.created = true
intent_eq IntentStatus.processing IntentStatus.processing = true
intent_eq IntentStatus.succeeded IntentStatus.succeeded = true
intent_eq IntentStatus.failed IntentStatus.failed = true
intent_eq IntentStatus.canceled IntentStatus.canceled = true
intent_eq (IntentStatus.other s) (IntentStatus.other t) = text_eq s t
intent_eq _ _ = false

unfoldable pub transaction_eq : TransactionStatus → TransactionStatus → Bool
transaction_eq TransactionStatus.pending TransactionStatus.pending = true
transaction_eq TransactionStatus.succeeded TransactionStatus.succeeded = true
transaction_eq TransactionStatus.failed TransactionStatus.failed = true
transaction_eq (TransactionStatus.other s) (TransactionStatus.other t) = text_eq s t
transaction_eq _ _ = false

unfoldable pub refund_eq : RefundStatus → RefundStatus → Bool
refund_eq RefundStatus.requested RefundStatus.requested = true
refund_eq RefundStatus.completed RefundStatus.completed = true
refund_eq RefundStatus.failed RefundStatus.failed = true
refund_eq (RefundStatus.other s) (RefundStatus.other t) = text_eq s t
refund_eq _ _ = false

pub intent_eq_iff : (a b : IntentStatus) → (intent_eq a b ≡ true) ↔ (a ≡ b)
unfolding intent_eq
intent_eq_iff (IntentStatus.other s) (IntentStatus.other t) = ground (arith, text_eq_iff s t)
intent_eq_iff IntentStatus.created _ = ground arith
intent_eq_iff a b = ground arith

pub transaction_eq_iff : (a b : TransactionStatus) → (transaction_eq a b ≡ true) ↔ (a ≡ b)
unfolding transaction_eq
transaction_eq_iff (TransactionStatus.other s) (TransactionStatus.other t) =
    ground (arith, text_eq_iff s t)
transaction_eq_iff a b = ground arith

pub refund_eq_iff : (a b : RefundStatus) → (refund_eq a b ≡ true) ↔ (a ≡ b)
unfolding refund_eq
refund_eq_iff (RefundStatus.other s) (RefundStatus.other t) = ground (arith, text_eq_iff s t)
refund_eq_iff a b = ground arith

instance abbrev pub intent_status-Eq : Eq IntentStatus
intent_status-Eq = record { beq = intent_eq; beq_iff = intent_eq_iff }

instance abbrev pub transaction_status-Eq : Eq TransactionStatus
transaction_status-Eq = record { beq = transaction_eq; beq_iff = transaction_eq_iff }

instance abbrev pub refund_status-Eq : Eq RefundStatus
refund_status-Eq = record { beq = refund_eq; beq_iff = refund_eq_iff }

-- ErrConflict
pub data Conflict : Type 0 where
  conflict : Conflict

-- The walker over a transition map, generic in the status as in the source.
module _ {S : Type 0} ⦃e : Eq S⦄ where
  pub contains_status : List S → S → Bool
  contains_status [] s = false
  contains_status (x ∷ xs) s = if e.beq x s then true else contains_status xs s

  pub targets_of : List (S × List S) → S → Option (List S)
  targets_of [] s = none
  targets_of ((from, tos) ∷ m) s = if e.beq from s then some tos else targets_of m s

  pub can_transition : List (S × List S) → S → S → Result Conflict (Unit {0})
  unfolding contains_status targets_of
  can_transition transitions from to = elim (targets_of transitions from) [
    | none ↦ err conflict
    | some targets ↦ if contains_status targets to then ok tt else err conflict
  ]

  abbrev has_targets : List (S × List S) → S → Bool
  has_targets transitions s = elim (targets_of transitions s) [ none ↦ false | some _ ↦ true ]

  -- `_, known := transitions[s]; return !known && isKnown(s)`
  pub is_terminal : List (S × List S) → List S → S → Bool
  unfolding contains_status targets_of
  is_terminal transitions all s = not (has_targets transitions s) && contains_status all s

abbrev pub intent_transitions : List (IntentStatus × List IntentStatus)
intent_transitions =
    (IntentStatus.created, IntentStatus.processing ∷ IntentStatus.canceled ∷ [])
    ∷ (IntentStatus.processing, IntentStatus.succeeded ∷ IntentStatus.failed ∷ [])
    ∷ []

abbrev pub transaction_transitions : List (TransactionStatus × List TransactionStatus)
transaction_transitions =
    (TransactionStatus.pending, TransactionStatus.succeeded ∷ TransactionStatus.failed ∷ []) ∷ []

abbrev pub refund_transitions : List (RefundStatus × List RefundStatus)
refund_transitions =
    (RefundStatus.requested, RefundStatus.completed ∷ RefundStatus.failed ∷ []) ∷ []

abbrev pub all_intent_statuses : List IntentStatus
all_intent_statuses =
    IntentStatus.created ∷ IntentStatus.processing ∷ IntentStatus.succeeded ∷ IntentStatus.failed
    ∷ IntentStatus.canceled ∷ []

abbrev pub all_transaction_statuses : List TransactionStatus
all_transaction_statuses =
    TransactionStatus.pending ∷ TransactionStatus.succeeded ∷ TransactionStatus.failed ∷ []

abbrev pub all_refund_statuses : List RefundStatus
all_refund_statuses = RefundStatus.requested ∷ RefundStatus.completed ∷ RefundStatus.failed ∷ []

unfoldable pub can_transition_intent : IntentStatus → IntentStatus → Result Conflict (Unit {0})
unfolding can_transition intent_eq
can_transition_intent = can_transition intent_transitions

unfoldable pub can_transition_transaction :
    TransactionStatus → TransactionStatus → Result Conflict (Unit {0})
unfolding can_transition transaction_eq
can_transition_transaction = can_transition transaction_transitions

unfoldable pub can_transition_refund : RefundStatus → RefundStatus → Result Conflict (Unit {0})
unfolding can_transition refund_eq
can_transition_refund = can_transition refund_transitions

unfoldable pub is_known_intent : IntentStatus → Bool
unfolding contains_status intent_eq
is_known_intent = contains_status all_intent_statuses

unfoldable pub is_known_transaction : TransactionStatus → Bool
unfolding contains_status transaction_eq
is_known_transaction = contains_status all_transaction_statuses

unfoldable pub is_known_refund : RefundStatus → Bool
unfolding contains_status refund_eq
is_known_refund = contains_status all_refund_statuses

unfoldable pub is_intent_terminal : IntentStatus → Bool
unfolding is_terminal intent_eq
is_intent_terminal = is_terminal intent_transitions all_intent_statuses

unfoldable pub is_transaction_terminal : TransactionStatus → Bool
unfolding is_terminal transaction_eq
is_transaction_terminal = is_terminal transaction_transitions all_transaction_statuses

unfoldable pub is_refund_terminal : RefundStatus → Bool
unfolding is_terminal refund_eq
is_refund_terminal = is_terminal refund_transitions all_refund_statuses
