-- ===== src/Payments/Ledger.antt =====
-- What the ledger promises from one state to the next, whatever calls are made and whatever fails.
pub mod Intents
pub mod Writes
pub mod Laws
use motivra.Prelude.{
  ℕ, ◌≡◌, refl, sym, ap, ◌∙◌, ◌≢◌, Bool, true, List, [], ◌∷◌, ◌++◌, Option, none, some, arith,
  nat_eq, Eq, Extends, Extends-refl, Extends-trans,
}
use motivra.Prelude.Table.{Evolves, Evolves-refl, Evolves-trans, Evolves-cons, Evolves-update}
use motivra.Prelude.Exec.Steps.{Preorder}
use mathlib.Core.List.{append_assoc}
use motivra.Payments.Status.{IntentStatus, TransactionStatus, RefundStatus, is_intent_terminal}
use motivra.Payments.Types.{Instant, PaymentIntent, Transaction, Refund}
use motivra.Payments.World.{World, IdempotencyKey, claim_key-Eq}
use motivra.Payments.Store.Reads.{intent_id, transaction_id, refund_id}
use motivra.Payments.Store.Keys.{key_of}

-- The amount and the owners of an intent never change, and a settled status is final.
pub record IntentKeeps (a b : PaymentIntent) : Type 0 where
  pub amount : b.amount_minor ≡ a.amount_minor
  pub currency : b.currency ≡ a.currency
  pub provider : b.provider ≡ a.provider
  pub tenant : b.tenant_id ≡ a.tenant_id
  pub creator : b.created_by ≡ a.created_by
  pub customer : b.customer_id ≡ a.customer_id
  pub final : is_intent_terminal a.status ≡ true → b.status ≡ a.status

-- The ledger columns of a transaction never change, and a settled transaction not at all.
pub record TransactionKeeps (a b : Transaction) : Type 0 where
  pub intent : b.intent_id ≡ a.intent_id
  pub amount : b.amount_minor ≡ a.amount_minor
  pub currency : b.currency ≡ a.currency
  pub provider : b.provider ≡ a.provider
  pub ref : b.provider_ref ≡ a.provider_ref
  pub final : a.status ≢ TransactionStatus.pending → b ≡ a

pub record RefundKeeps (a b : Refund) : Type 0 where
  pub intent : b.intent_id ≡ a.intent_id
  pub amount : b.amount_minor ≡ a.amount_minor
  pub currency : b.currency ≡ a.currency
  pub provider : b.provider ≡ a.provider
  pub final : a.status ≢ RefundStatus.requested → b ≡ a

-- A recorded result is final.
pub record KeyKeeps (a b : IdempotencyKey) : Type 0 where
  pub hash : b.payload_hash ≡ a.payload_hash
  pub final : a.result ≢ [] → b ≡ a

-- No row is lost, each is changed at most as above, and the audit trail and the published events
-- are only added to.
pub record Grows (v w : World) : Type 0 where
  pub intents : Evolves intent_id IntentKeeps v.intents w.intents
  pub transactions : Evolves transaction_id TransactionKeeps v.transactions w.transactions
  pub refunds : Evolves refund_id RefundKeeps v.refunds w.refunds
  pub keys : Evolves key_of KeyKeeps v.keys w.keys
  pub audit : Extends v.transitions w.transitions
  pub sent : Extends v.outbox w.outbox

pub IntentKeeps-refl : (a : PaymentIntent) → IntentKeeps a a
IntentKeeps-refl a = ground arith

IntentKeeps-trans : (a b c : PaymentIntent) → IntentKeeps a b → IntentKeeps b c → IntentKeeps a c
IntentKeeps-trans a b c p q = ground arith

pub TransactionKeeps-refl : (a : Transaction) → TransactionKeeps a a
TransactionKeeps-refl a = ground arith

TransactionKeeps-trans :
    (a b c : Transaction) → TransactionKeeps a b → TransactionKeeps b c → TransactionKeeps a c
TransactionKeeps-trans a b c p q = ground arith

pub RefundKeeps-refl : (a : Refund) → RefundKeeps a a
RefundKeeps-refl a = ground arith

RefundKeeps-trans : (a b c : Refund) → RefundKeeps a b → RefundKeeps b c → RefundKeeps a c
RefundKeeps-trans a b c p q = ground arith

pub KeyKeeps-refl : (a : IdempotencyKey) → KeyKeeps a a
KeyKeeps-refl a = ground arith

KeyKeeps-trans : (a b c : IdempotencyKey) → KeyKeeps a b → KeyKeeps b c → KeyKeeps a c
KeyKeeps-trans a b c p q = ground arith

pub Grows-refl : (w : World) → Grows w w
Grows-refl w = record {
  intents = Evolves-refl intent_id IntentKeeps IntentKeeps-refl w.intents;
  transactions = Evolves-refl transaction_id TransactionKeeps TransactionKeeps-refl w.transactions;
  refunds = Evolves-refl refund_id RefundKeeps RefundKeeps-refl w.refunds;
  keys = Evolves-refl key_of KeyKeeps KeyKeeps-refl w.keys;
  audit = Extends-refl w.transitions;
  sent = Extends-refl w.outbox;
}

pub Grows-trans : (u v w : World) → Grows u v → Grows v w → Grows u w
Grows-trans u v w g h = record {
  intents =
      Evolves-trans intent_id IntentKeeps IntentKeeps-trans u.intents v.intents w.intents g.intents
        h.intents;
  transactions =
      Evolves-trans transaction_id TransactionKeeps TransactionKeeps-trans u.transactions
        v.transactions w.transactions g.transactions h.transactions;
  refunds =
      Evolves-trans refund_id RefundKeeps RefundKeeps-trans u.refunds v.refunds w.refunds g.refunds
        h.refunds;
  keys = Evolves-trans key_of KeyKeeps KeyKeeps-trans u.keys v.keys w.keys g.keys h.keys;
  audit = Extends-trans u.transitions v.transitions w.transitions g.audit h.audit;
  sent = Extends-trans u.outbox v.outbox w.outbox g.sent h.sent;
}

pub Grows-Preorder : Preorder Grows
Grows-Preorder = record { same = Grows-refl; chain = Grows-trans }

-- What stands outside the tables may change as it likes.
pub Grows-environment :
    (w : World) (fs : List Bool) (n : ℕ) → Grows w (record w { faults = fs; next_id = n })
Grows-environment w fs n =
    let g = Grows-refl w in
    record {
      intents = g.intents;
      transactions = g.transactions;
      refunds = g.refunds;
      keys = g.keys;
      audit = g.audit;
      sent = g.sent;
    }

pub Grows-time : (n : Instant) (w : World) → Grows w (record w { clock = n })
Grows-time n w =
    let g = Grows-refl w in
    record {
      intents = g.intents;
      transactions = g.transactions;
      refunds = g.refunds;
      keys = g.keys;
      audit = g.audit;
      sent = g.sent;
    }
