-- ===== src/Payments/Store/Writes.antt =====
-- The writes of `PostgresStore`.
use motivra.Prelude.{
  Bool, true, false, ◌&&◌, [], ◌∷◌, Option, none, some, ◌==◌, if◌then◌else◌, nat_eq,
}
use motivra.Prelude.Text.{Text}
use motivra.Prelude.Exec.{◌>>=◌, ◌>>◌, gets, find_or_raise, pure, require, check, modify}
use motivra.Prelude.Table.{update}
use motivra.Payments.Status.{IntentStatus, intent_eq, is_known_intent, is_known_transaction}
use motivra.Payments.Types.{
  Uuid, nil_uuid, Instant, PaymentIntent, Transaction, intent_not_found, conflict, database,
}
use motivra.Payments.World.{Action, attempt, new_uuid}
use motivra.Payments.Store.Rows.{check_amount, intent_trigger, free_ref}
use motivra.Payments.Store.Reads.{intent_id, find_intent, find_transaction}

abbrev pub is_none : {A : Type 0} → Option A → Bool
is_none none = true
is_none (some _) = false

abbrev pub is_some : {A : Type 0} → Option A → Bool
is_some none = false
is_some (some _) = true

-- `if x.ID == uuid.Nil { x.ID = uuid.New() }`
abbrev pub assign_id : Uuid → Action Uuid
assign_id id = if id == nil_uuid then new_uuid else pure id

-- The INSERT names eight columns; the others take their defaults.
abbrev pub intent_row : PaymentIntent → PaymentIntent
intent_row i = record i {
  provider_ref = [];
  job_id = none;
  vehicle_id = none;
  description = [];
  failure_reason = [];
  succeeded_at = none;
  failed_at = none;
  canceled_at = none;
}

unfoldable pub create_intent : PaymentIntent → Action PaymentIntent
create_intent intent = do
  id ← assign_id intent.id
  attempt database
  now ← gets (λ w. w.clock)
  let i = record intent { id = id; created_at = now; updated_at = now }
  check (λ w. is_none (find_intent id w.intents)) database
  require (check_amount i.amount_minor i.currency && is_known_intent i.status) database
  modify (λ w. record w { intents = intent_row i ∷ w.intents })
  pure i

-- `intentStatusTimestamp` and the SET clause that it extends
unfoldable pub stamp_status : IntentStatus → Instant → PaymentIntent → PaymentIntent
stamp_status IntentStatus.succeeded now i = record i {
  status = IntentStatus.succeeded;
  succeeded_at = some now;
  updated_at = now;
}
stamp_status IntentStatus.failed now i = record i {
  status = IntentStatus.failed;
  failed_at = some now;
  updated_at = now;
}
stamp_status IntentStatus.canceled now i = record i {
  status = IntentStatus.canceled;
  canceled_at = some now;
  updated_at = now;
}
stamp_status to now i = record i { status = to; updated_at = now }

unfoldable pub update_intent_status :
    Uuid → IntentStatus → IntentStatus → Option Uuid → Text → Action (Unit {0})
update_intent_status id expected_from new_status actor_id reason = do
  attempt database
  current ← find_or_raise (λ w. find_intent id w.intents) intent_not_found
  require (intent_eq current.status expected_from) conflict
  require (intent_trigger current.status new_status && is_known_intent new_status) database
  modify (λ w. record w {
    intents = update intent_id id (stamp_status new_status w.clock) w.intents;
    transitions =
        record {
          intent_id = id;
          from_status = current.status;
          to_status = new_status;
          actor_id = actor_id;
          reason = reason;
          created_at = w.clock;
        }
        ∷ w.transitions;
  })

unfoldable pub insert_transaction : Transaction → Action Transaction
insert_transaction transaction = do
  id ← assign_id transaction.id
  attempt database
  now ← gets (λ w. w.clock)
  let t = record transaction { id = id; created_at = now; updated_at = now }
  require (check_amount t.amount_minor t.currency && is_known_transaction t.status) database
  check (λ w. is_none (find_transaction id w.transactions)) database
  check (λ w. free_ref t.provider t.provider_ref w.transactions) database
  check (λ w. is_some (find_intent t.intent_id w.intents)) intent_not_found
  modify (λ w. record w {
    transactions = record t { provider_receipt = []; occurred_at = none } ∷ w.transactions;
  })
  pure t
