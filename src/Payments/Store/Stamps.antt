-- ===== src/Payments/Store/Stamps.antt =====
-- What the two SET clauses of the intents write and leave.
use motivra.Prelude.{◌≡◌, arith}
use motivra.Payments.Status.{IntentStatus}
use motivra.Payments.Types.{Instant, PaymentIntent}
use motivra.Payments.Store.Writes.{stamp_status}
use motivra.Payments.Store.Settlement.{ApplyOutcomeParams, settle_intent_row}

pub stamp_status_id :
    (to : IntentStatus) (now : Instant) (i : PaymentIntent) → (stamp_status to now i).id ≡ i.id
unfolding stamp_status
stamp_status_id to now i = ground arith

pub stamp_status_status :
    (to : IntentStatus) (now : Instant) (i : PaymentIntent) → (stamp_status to now i).status ≡ to
unfolding stamp_status
stamp_status_status to now i = ground arith

pub stamp_status_same :
    (to : IntentStatus) (now : Instant) (i : PaymentIntent)
    → let j = stamp_status to now i in
      (j.amount_minor ≡ i.amount_minor)
      × (j.currency ≡ i.currency)
      × (j.provider ≡ i.provider)
      × (j.tenant_id ≡ i.tenant_id)
      × (j.created_by ≡ i.created_by)
      × (j.customer_id ≡ i.customer_id)
unfolding stamp_status
stamp_status_same to now i = ground arith

pub settle_intent_row_id :
    (p : ApplyOutcomeParams) (now : Instant) (i : PaymentIntent)
    → (settle_intent_row p now i).id ≡ i.id
unfolding settle_intent_row
settle_intent_row_id p now i = stamp_status_id p.new_intent_status now i

pub settle_intent_row_status :
    (p : ApplyOutcomeParams) (now : Instant) (i : PaymentIntent)
    → (settle_intent_row p now i).status ≡ p.new_intent_status
unfolding settle_intent_row
settle_intent_row_status p now i = stamp_status_status p.new_intent_status now i
