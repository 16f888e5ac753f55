-- ===== src/Payments/Calls/History.antt =====
-- Histories: any calls of the service and rounds of the reconciler, in any order, with the clock
-- set to any instant between them.
use motivra.Prelude.{ℕ, List, [], ◌∷◌}
use motivra.Prelude.Text.{Text}
use motivra.Payments.Status.{TransactionStatus}
use motivra.Payments.Types.{Uuid, Instant}
use motivra.Payments.Scope.{Scope}
use motivra.Payments.World.{World}
use motivra.Payments.Service.{Service}
use motivra.Payments.Service.Initiate.{InitiateInput, initiate_payment}
use motivra.Payments.Service.Webhook.{handle_webhook}
use motivra.Payments.Service.Refund.{refund_payment}
use motivra.Payments.Reconcile.{reconcile_run}
use motivra.Payments.Calls.{StoreLaws, Accepts}
use motivra.Payments.Calls.Initiate.{initiate_payment-Keeps}
use motivra.Payments.Calls.Webhook.{handle_webhook-Keeps}
use motivra.Payments.Calls.Refunds.{refund_payment-Keeps}
use motivra.Payments.Calls.Reconcile.{reconcile_run-Keeps}

pub data Call : Type 0 where
  -- POST /v1/payments/intents
  initiate : InitiateInput → Call
  -- the provider's name, the signature, the body and the time of a delivery
  deliver : Text → Text → Text → Instant → Call
  -- an intent, a reason, an actor and what the caller may see
  refund : Uuid → Text → Uuid → Scope → Call
  -- how old a pending transaction must be, and the limit of a batch
  reconcile : ℕ → ℕ → Call
  wait_until : Instant → Call

-- The world after a call, whether it returned or failed.
unfoldable pub call : Service → Call → World → World
call s (initiate input) w = (initiate_payment s input w).1
call s (deliver name header body now) w = (handle_webhook s name header body now w).1
call s (refund id reason actor scope) w = (refund_payment s id reason actor scope w).1
call s (reconcile stale_after limit) w =
    (reconcile_run (record { service = s; stale_after = stale_after; batch_limit = limit }) w).1
call s (wait_until n) w = record w { clock = n }

unfoldable pub history : Service → List Call → World → World
history s [] w = w
history s (c ∷ cs) w = history s cs (call s c w)

module _ {R : World → World → Type 0} {Accepted : TransactionStatus → Type 0}
    (k : StoreLaws R Accepted) (s : Service) (accepts : Accepts Accepted s) where
  call-Keeps : (c : Call) (w : World) → R w (call s c w)
  unfolding call
  call-Keeps (initiate input) w = (initiate_payment-Keeps k s input accepts).at w tt
  call-Keeps (deliver name header body now) w =
      (handle_webhook-Keeps k s name header body now).at w tt
  call-Keeps (refund id reason actor scope) w =
      (refund_payment-Keeps k s id reason actor scope).at w tt
  call-Keeps (reconcile stale_after limit) w = (reconcile_run-Keeps k _).at w tt
  call-Keeps (wait_until n) w = k.time n w

  -- What every call of the store keeps, every history keeps.
  pub history-Keeps : (cs : List Call) (w : World) → R w (history s cs w)
  unfolding history
  history-Keeps [] w = k.order.same w
  history-Keeps (c ∷ cs) w =
      k.order.chain w (call s c w) _ (call-Keeps c w) (history-Keeps cs (call s c w))
