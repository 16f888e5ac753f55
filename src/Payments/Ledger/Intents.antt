-- ===== src/Payments/Ledger/Intents.antt =====
-- The writes of intents grow the ledger.
use motivra.Prelude.{◌≡◌, refl, ap, false, [], ◌∷◌, none, some, arith, nat_eq}
use motivra.Prelude.Table.{update, Evolves-cons, Evolves-update}
use motivra.Payments.Status.{IntentStatus, is_intent_terminal}
use motivra.Payments.Types.{Uuid, Instant, IntentTransition, PaymentIntent}
use motivra.Payments.World.{World, claim_key-Eq}
use motivra.Payments.Store.Reads.{intent_id, find_intent}
use motivra.Payments.Store.Writes.{stamp_status}
use motivra.Payments.Store.Settlement.{ApplyOutcomeParams, settle_intent_row}
use motivra.Payments.Store.Stamps.{stamp_status_id, stamp_status_same}
use motivra.Payments.Ledger.{Grows, Grows-refl, IntentKeeps, IntentKeeps-refl}

pub insert_intent-Grows :
    (i : PaymentIntent) (w : World)
    → find_intent i.id w.intents ≡ none
    → Grows w (record w { intents = i ∷ w.intents })
insert_intent-Grows i w new =
    let g = Grows-refl w in
    record {
      intents = Evolves-cons intent_id IntentKeeps IntentKeeps-refl i w.intents new;
      transactions = g.transactions;
      refunds = g.refunds;
      keys = g.keys;
      audit = g.audit;
      sent = g.sent;
    }

stamp_status-IntentKeeps :
    (to : IntentStatus) (now : Instant) (i : PaymentIntent)
    → is_intent_terminal i.status ≡ false
    → IntentKeeps i (stamp_status to now i)
stamp_status-IntentKeeps to now i h =
    let (a, c, p, t, u, k) = stamp_status_same to now i in
    record {
      amount = a;
      currency = c;
      provider = p;
      tenant = t;
      creator = u;
      customer = k;
      final = λ e. ground (arith, e, h);
    }

pub update_intent-Grows :
    (id : Uuid) (f : PaymentIntent → PaymentIntent) (t : IntentTransition) (i : PaymentIntent)
    (w : World)
    → ((j : PaymentIntent) → (f j).id ≡ j.id)
    → find_intent id w.intents ≡ some i
    → IntentKeeps i (f i)
    → Grows w
        (record w { intents = update intent_id id f w.intents; transitions = t ∷ w.transitions })
update_intent-Grows id f t i w same found keeps =
    let g = Grows-refl w in
    record {
      intents =
          Evolves-update intent_id IntentKeeps IntentKeeps-refl f same id w.intents i found keeps;
      transactions = g.transactions;
      refunds = g.refunds;
      keys = g.keys;
      audit = (t ∷ [], refl);
      sent = g.sent;
    }

-- An intent in PROCESSING keeps its amount and its owners when it settles.
pub settle_intent_row-IntentKeeps :
    (p : ApplyOutcomeParams) (now : Instant) (i : PaymentIntent)
    → i.status ≡ IntentStatus.processing
    → IntentKeeps i (settle_intent_row p now i)
unfolding settle_intent_row is_intent_terminal
settle_intent_row-IntentKeeps p now i h =
    let (a, c, v, t, u, k) = stamp_status_same p.new_intent_status now i in
    record {
      amount = a;
      currency = c;
      provider = v;
      tenant = t;
      creator = u;
      customer = k;
      final = λ e. ground (arith, ap is_intent_terminal h);
    }

pub start_intent-Grows :
    (id : Uuid) (to : IntentStatus) (t : IntentTransition) (i : PaymentIntent) (w : World)
    → find_intent id w.intents ≡ some i
    → i.status ≡ IntentStatus.created
    → Grows w (record w {
      intents = update intent_id id (stamp_status to w.clock) w.intents;
      transitions = t ∷ w.transitions;
    })
unfolding is_intent_terminal
start_intent-Grows id to t i w found created =
    update_intent-Grows id (stamp_status to w.clock) t i w (stamp_status_id to w.clock) found
      (stamp_status-IntentKeeps to w.clock i (ap is_intent_terminal created))
