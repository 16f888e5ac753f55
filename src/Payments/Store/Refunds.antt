-- ===== src/Payments/Store/Refunds.antt =====
-- The refund writes of `PostgresStore`.
use motivra.Prelude.{not, [], ◌∷◌, nat_eq}
use motivra.Prelude.Text.{Text}
use motivra.Prelude.Exec.{◌>>=◌, ◌>>◌, gets, find_or_raise, pure, require, check, modify}
use motivra.Prelude.Table.{update}
use motivra.Payments.Status.{RefundStatus, refund_eq}
use motivra.Payments.Types.{
  Uuid, Instant, Refund, intent_not_found, refund_not_found, conflict, database,
}
use motivra.Payments.World.{Action, attempt}
use motivra.Payments.Store.Rows.{check_amount, refund_trigger, in_flight}
use motivra.Payments.Store.Reads.{refund_id, find_intent, find_refund}
use motivra.Payments.Store.Writes.{is_none, is_some, assign_id}
use motivra.Payments.Store.Settlement.{coalesce}

unfoldable pub insert_refund : Refund → Action Refund
insert_refund refund = do
  id ← assign_id refund.id
  attempt database
  now ← gets (λ w. w.clock)
  let r = record refund {
    id = id;
    status = RefundStatus.requested;
    created_at = now;
    updated_at = now;
  }
  require (check_amount r.amount_minor r.currency) database
  check (λ w. is_none (find_refund id w.refunds)) database
  check (λ w. not (in_flight r.intent_id w.refunds)) database
  check (λ w. is_some (find_intent r.intent_id w.intents)) intent_not_found
  modify
      (λ w. record w { refunds = record r { provider_ref = []; failure_reason = [] } ∷ w.refunds })
  pure r

unfoldable pub settle_refund_row : RefundStatus → Text → Text → Instant → Refund → Refund
settle_refund_row new_status provider_ref failure_reason now r = record r {
  status = new_status;
  provider_ref = coalesce provider_ref r.provider_ref;
  failure_reason = coalesce failure_reason r.failure_reason;
  updated_at = now;
}

unfoldable pub update_refund_status :
    Uuid → RefundStatus → RefundStatus → Text → Text → Action (Unit {0})
unfolding settle_refund_row
update_refund_status id expected_from new_status provider_ref failure_reason = do
  attempt database
  current ← find_or_raise (λ w. find_refund id w.refunds) refund_not_found
  require (refund_eq current.status expected_from) conflict
  require (refund_trigger current.status new_status) database
  modify (λ w. record w {
    refunds =
        update refund_id id (settle_refund_row new_status provider_ref failure_reason w.clock)
          w.refunds;
  })
