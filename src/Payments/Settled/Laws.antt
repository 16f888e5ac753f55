-- ===== src/Payments/Settled/Laws.antt =====
-- Transactions and intents stay together over any history of calls.
use motivra.Prelude.{◌≡◌, refl, List, nat_eq}
use motivra.Prelude.Table.{update}
use motivra.Prelude.Exec.Steps.{Kept, Kept-Preorder}
use motivra.Payments.Status.{TransactionStatus}
use motivra.Payments.World.{World}
use motivra.Payments.Store.Reads.{intent_id}
use motivra.Payments.Store.Writes.{stamp_status}
use motivra.Payments.Service.{Service}
use motivra.Payments.Calls.{Accepts}
use motivra.Payments.Calls.Writes.{WriteLaws}
use motivra.Payments.Calls.Store.{writes-StoreLaws}
use motivra.Payments.Calls.History.{Call, history, history-Keeps}
use motivra.Payments.Settled.{
  Coupled, insert_intent-Coupled, start_intent-Coupled, insert_transaction-Coupled,
}
use motivra.Payments.Settled.Settlement.{settle_alone-Coupled, settle_both-Coupled}

-- A write elsewhere.
same-Coupled :
    (v w : World) → v.intents ≡ w.intents → v.transactions ≡ w.transactions → Kept Coupled v w
same-Coupled v w p q h = record { settled = rw (p, q) at h.settled; paid = rw (p, q) at h.paid }

abbrev Pending : TransactionStatus → Type 0
Pending t = t ≡ TransactionStatus.pending

Coupled-WriteLaws : WriteLaws (Kept Coupled) Pending
Coupled-WriteLaws = record {
  order = Kept-Preorder Coupled;
  time = λ n w. same-Coupled w _ refl refl;
  environment = λ fs n w. same-Coupled w _ refl refl;
  sent = λ e w. same-Coupled w _ refl refl;
  insert_intent = insert_intent-Coupled;
  start_intent = λ id to actor reason i w started found created h.
      same-Coupled (record w { intents = update intent_id id (stamp_status to w.clock) w.intents })
        _ refl refl (start_intent-Coupled id to i w started found created h);
  insert_transaction = λ t w status new _. insert_transaction-Coupled t w status new;
  settle_alone = settle_alone-Coupled;
  settle_both = settle_both-Coupled;
  insert_refund = λ r w _. same-Coupled w _ refl refl;
  settle_refund = λ id to ref reason r w _ _. same-Coupled w _ refl refl;
  insert_key = λ k w _. same-Coupled w _ refl refl;
  complete_key = λ key result w _. same-Coupled w _ refl refl;
}

-- If every provider accepts an initiation as PENDING, then every history of calls keeps this: the
-- intent of a transaction that succeeded is SUCCEEDED, and a SUCCEEDED intent has a transaction that
-- succeeded.
pub history-Coupled :
    (s : Service) (cs : List Call) (w : World)
    → Accepts (λ t. t ≡ TransactionStatus.pending) s
    → Coupled w
    → Coupled (history s cs w)
history-Coupled s cs w accepts h =
    history-Keeps (writes-StoreLaws Coupled-WriteLaws) s accepts cs w h
