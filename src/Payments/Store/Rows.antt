-- ===== src/Payments/Store/Rows.antt =====
-- The integrity rules of the tables: backend/migrations/payments/*.up.sql.
use motivra.Prelude.{Bool, true, false, not, ◌&&◌, ◌||◌, List, [], ◌∷◌, ◌==◌}
use motivra.Prelude.Int.{ℤ, pos, ltb_ℤ}
use motivra.Prelude.Text.{Text, text_eq}
use motivra.Payments.Money.{currency_kes}
use motivra.Payments.Status.{IntentStatus, TransactionStatus, RefundStatus, intent_eq, refund_eq}
use motivra.Payments.Types.{Uuid, Transaction, Refund}

-- CHECK (amount_minor > 0) and CHECK (currency = 'KES')
unfoldable pub check_amount : ℤ → Text → Bool
check_amount amount currency = ltb_ℤ (pos 0) amount && text_eq currency currency_kes

-- `prevent_payment_intent_terminal_mutation` on a change of status
unfoldable pub intent_trigger : IntentStatus → IntentStatus → Bool
intent_trigger IntentStatus.succeeded new = intent_eq IntentStatus.succeeded new
intent_trigger IntentStatus.failed new = intent_eq IntentStatus.failed new
intent_trigger IntentStatus.canceled new = intent_eq IntentStatus.canceled new
intent_trigger _ new = true

-- `guard_payment_transaction_update` on a change of status
unfoldable pub transaction_trigger : TransactionStatus → TransactionStatus → Bool
transaction_trigger TransactionStatus.pending TransactionStatus.succeeded = true
transaction_trigger TransactionStatus.pending TransactionStatus.failed = true
transaction_trigger _ _ = false

-- `guard_payment_refund_update` on a change of status
unfoldable pub refund_trigger : RefundStatus → RefundStatus → Bool
refund_trigger RefundStatus.requested RefundStatus.completed = true
refund_trigger RefundStatus.requested RefundStatus.failed = true
refund_trigger _ _ = false

abbrev pub is_empty : Text → Bool
is_empty [] = true
is_empty (_ ∷ _) = false

-- Whether some row of another identifier has this provider and this reference.
unfoldable pub holds_ref : Text → Text → List Transaction → Bool
holds_ref provider ref [] = false
holds_ref provider ref (t ∷ ts) =
    let rest = holds_ref provider ref ts in
    (text_eq t.provider provider && text_eq t.provider_ref ref) || rest

-- payment_transactions_provider_ref_idx
unfoldable pub free_ref : Text → Text → List Transaction → Bool
free_ref provider ref ts = is_empty ref || not (holds_ref provider ref ts)

unfoldable pub holds_receipt : Uuid → Text → Text → List Transaction → Bool
holds_receipt id provider receipt [] = false
holds_receipt id provider receipt (t ∷ ts) =
    let rest = holds_receipt id provider receipt ts in
    (not (t.id == id) && text_eq t.provider provider && text_eq t.provider_receipt receipt) || rest

-- payment_transactions_provider_receipt_idx, for the row `id` that takes the receipt
unfoldable pub free_receipt : Uuid → Text → Text → List Transaction → Bool
free_receipt id provider receipt ts = is_empty receipt || not (holds_receipt id provider receipt ts)

-- payment_refunds_one_in_flight_idx
unfoldable pub in_flight : Uuid → List Refund → Bool
in_flight intent_id [] = false
in_flight intent_id (r ∷ rs) =
    let rest = in_flight intent_id rs in
    (r.intent_id == intent_id && refund_eq r.status RefundStatus.requested) || rest
