-- ===== src/Payments/Audit.antt =====
-- The audit trail of the intents (payment_intent_transitions) against the status that they have.
use motivra.Prelude.{
  ◌≡◌, refl, sym, ap, ◌∙◌, List, [], ◌∷◌, Option, none, some, arith, ◌==◌, ==_iff, if◌then◌else◌,
  nat_eq,
}
use motivra.Prelude.Table.{find-cons, update, find_key, find-update}
use motivra.Prelude.Exec.Steps.{Kept, Kept-Preorder}
use motivra.Payments.Status.{IntentStatus, TransactionStatus}
use motivra.Payments.Status.Laws.{IntentMove, accept, succeed, fail}
use motivra.Payments.Types.{Uuid, PaymentIntent, IntentTransition}
use motivra.Payments.World.{World}
use motivra.Payments.Store.Reads.{intent_id, find_intent}
use motivra.Payments.Store.Writes.{stamp_status}
use motivra.Payments.Store.Settlement.{settle_intent_row, settle_transaction}
use motivra.Payments.Store.Stamps.{
  stamp_status_id, stamp_status_status, settle_intent_row_id, settle_intent_row_status,
}
use motivra.Payments.Service.{Service}
use motivra.Payments.Calls.{Started, accepted, rejected, Settles, failing_both, otherwise}
use motivra.Payments.Calls.Writes.{WriteLaws}
use motivra.Payments.Calls.Store.{writes-StoreLaws}
use motivra.Payments.Calls.History.{Call, history, history-Keeps}

-- Where the trail leaves an intent: at the newest entry's status, or at CREATED.
unfoldable pub trail_status : Uuid → List IntentTransition → IntentStatus
trail_status id [] = IntentStatus.created
trail_status id (t ∷ ts) = if t.intent_id == id then t.to_status else trail_status id ts

abbrev row_status : Option PaymentIntent → IntentStatus
row_status none = IntentStatus.created
row_status (some i) = i.status

-- The moves that the service makes: those of the lifecycle, and the one of a refused initiation.
pub data AuditStep : IntentStatus → IntentStatus → Type 0 where
  legal : {a b : IntentStatus} → IntentMove a b → AuditStep a b
  refused : AuditStep IntentStatus.created IntentStatus.failed

-- Each entry starts where the entries before it left its intent.
pub data Linked : List IntentTransition → Type 0 where
  start : Linked []
  entry :
      {t : IntentTransition} {ts : List IntentTransition}
      → t.from_status ≡ trail_status t.intent_id ts
      → AuditStep t.from_status t.to_status
      → Linked ts
      → Linked (t ∷ ts)

pub record Audited (w : World) : Type 0 where
  pub linked : Linked w.transitions
  pub current : (id : Uuid) → trail_status id w.transitions ≡ row_status (find_intent id w.intents)

-- A change of status with its entry.
move-Audited :
    (id : Uuid) (f : PaymentIntent → PaymentIntent) (t : IntentTransition) (i : PaymentIntent)
    (w : World)
    → ((j : PaymentIntent) → (f j).id ≡ j.id)
    → find_intent id w.intents ≡ some i
    → t.intent_id ≡ id
    → t.from_status ≡ i.status
    → (f i).status ≡ t.to_status
    → AuditStep t.from_status t.to_status
    → Kept Audited w
        (record w { intents = update intent_id id f w.intents; transitions = t ∷ w.transitions })
unfolding trail_status
move-Audited id f t i w keeps found of from to step h = record {
  linked =
      entry
        (from
          ∙ sym (ap row_status found)
          ∙ sym (h.current id)
          ∙ ap (λ k. trail_status k w.transitions) (sym of))
        step h.linked;
  current = λ j. ground (
    arith,
    find-update intent_id f keeps j id w.intents,
    ==_iff id j,
    h.current j,
    found,
    of,
    to,
  );
}

insert-Audited :
    (i : PaymentIntent) (w : World)
    → i.status ≡ IntentStatus.created
    → find_intent i.id w.intents ≡ none
    → Kept Audited w (record w { intents = i ∷ w.intents })
insert-Audited i w created new h = record {
  linked = h.linked;
  current = λ j.
      ground (arith, find-cons intent_id j i w.intents, ==_iff i.id j, h.current j, created, new);
}

start_step : {to : IntentStatus} → Started to → AuditStep IntentStatus.created to
start_step accepted = legal accept
start_step rejected = refused

settle_step :
    {t : TransactionStatus} {to : IntentStatus}
    → Settles t to
    → AuditStep IntentStatus.processing to
settle_step failing_both = legal fail
settle_step (otherwise _) = legal succeed

-- A write elsewhere.
same-Audited :
    (v w : World) → v.intents ≡ w.intents → v.transitions ≡ w.transitions → Kept Audited v w
same-Audited v w p q h = record {
  linked = rw q at h.linked;
  current = λ id. rw (p, q) at h.current id;
}

Audited-WriteLaws : {Accepted : TransactionStatus → Type 0} → WriteLaws (Kept Audited) Accepted
Audited-WriteLaws = record {
  order = Kept-Preorder Audited;
  time = λ n w. same-Audited w _ refl refl;
  environment = λ fs n w. same-Audited w _ refl refl;
  sent = λ e w. same-Audited w _ refl refl;
  insert_intent = insert-Audited;
  start_intent = λ id to actor reason i w started found created.
      move-Audited id (stamp_status to w.clock) _ i w (stamp_status_id to w.clock) found refl refl
        (stamp_status_status to w.clock i) (rw created (start_step started));
  insert_transaction = λ t w _ _ _. same-Audited w _ refl refl;
  settle_alone = λ p t i w _ _. same-Audited w _ refl refl;
  settle_both = λ p t i w s processing h.
      move-Audited i.id (settle_intent_row p w.clock) _ i (settle_transaction p w)
        (settle_intent_row_id p w.clock)
        (ap (λ k. find_intent k w.intents) (find_key intent_id t.intent_id w.intents i s.of_intent)
          ∙ s.of_intent)
        refl refl (settle_intent_row_status p w.clock i) (rw processing (settle_step s.outcome))
        (same-Audited w (settle_transaction p w) refl refl h);
  insert_refund = λ r w _. same-Audited w _ refl refl;
  settle_refund = λ id to ref reason r w _ _. same-Audited w _ refl refl;
  insert_key = λ k w _. same-Audited w _ refl refl;
  complete_key = λ key result w _. same-Audited w _ refl refl;
}

abbrev AnyStatus : TransactionStatus → Type 0
AnyStatus t = Unit

-- Every history of calls keeps the audit trail true: each intent has the status that its newest
-- entry gives it (CREATED without one), each entry starts where the one before left its intent, and
-- each is a move of the lifecycle or CREATED → FAILED.
pub history-Audited :
    (s : Service) (cs : List Call) (w : World) → Audited w → Audited (history s cs w)
history-Audited s cs w h =
    history-Keeps (writes-StoreLaws {Accepted = AnyStatus} Audited-WriteLaws) s (λ _ _ _ _ _ _. tt)
      cs w h
