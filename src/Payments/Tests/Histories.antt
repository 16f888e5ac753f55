-- ===== src/Payments/Tests/Histories.antt =====
-- The theorems on histories at a concrete history.
use motivra.Prelude.{◌≡◌, refl, ◌∷◌, some, arith, nat_eq}
use motivra.Prelude.Text.{bytes, text_eq}
use motivra.Prelude.Table.{find}
use motivra.Payments.Types.{PaymentIntent}
use motivra.Payments.World.{claim_key-Eq, key_eq, event_eq}
use motivra.Payments.Store.Reads.{find_intent, find_transaction}
use motivra.Payments.Store.Keys.{find_key}
use motivra.Payments.Service.Webhook.{applied_result, claim_key}
use motivra.Payments.Ledger.{IntentKeeps}
use motivra.Payments.Ledger.Laws.{
  history-intent, history-settled_transaction, history-completed_key,
}
use motivra.Payments.Redelivery.Applied.{applied_result_text}
use motivra.Payments.Audit.{Audited, start, trail_status, history-Audited}
use motivra.Payments.Settled.{Coupled}
use motivra.Payments.Settled.Laws.{history-Coupled}
use motivra.Payments.Calls.History.{initiate, history}
use motivra.Payments.Tests.{
  payload, sandbox, service, input, empty_world, attempted_transaction, body, later, paid_intent,
  settled_transaction, key_row, paid_world, sandbox-Accepts,
}

found_paid_intent : find_intent 1 paid_world.intents ≡ some paid_intent
unfolding find
found_paid_intent = refl

history-intent_example :
    (j : PaymentIntent) × (find_intent 1 (history service later paid_world).intents ≡ some j)
    × IntentKeeps paid_intent j
history-intent_example = history-intent service later paid_world 1 paid_intent found_paid_intent

found_settled_transaction : find_transaction 2 paid_world.transactions ≡ some settled_transaction
unfolding find
found_settled_transaction = refl

history-settled_transaction_example :
    find_transaction 2 (history service later paid_world).transactions ≡ some settled_transaction
history-settled_transaction_example =
    history-settled_transaction service later paid_world 2 settled_transaction
      found_settled_transaction (λ e. ground (arith, e))

found_key :
    find_key (claim_key sandbox payload attempted_transaction) paid_world.keys
    ≡ some (key_row body applied_result)
unfolding find key_eq event_eq text_eq bytes
found_key = refl

history-completed_key_example :
    find_key
      (claim_key sandbox payload attempted_transaction)
      (history service later paid_world).keys
    ≡ some (key_row body applied_result)
history-completed_key_example =
    history-completed_key service later paid_world (claim_key sandbox payload attempted_transaction)
      (key_row body applied_result) found_key applied_result_text

empty-Audited : Audited empty_world
unfolding trail_status find
empty-Audited = record { linked = start; current = λ id. refl }

history-Audited_example : Audited (history service (initiate input ∷ later) empty_world)
history-Audited_example = history-Audited service (initiate input ∷ later) empty_world empty-Audited

empty-Coupled : Coupled empty_world
unfolding find
empty-Coupled = record {
  settled = λ k t h done. ground (arith, h);
  paid = λ id i h done. ground (arith, h);
}

history-Coupled_example : Coupled (history service (initiate input ∷ later) empty_world)
history-Coupled_example =
    history-Coupled service (initiate input ∷ later) empty_world sandbox-Accepts empty-Coupled
