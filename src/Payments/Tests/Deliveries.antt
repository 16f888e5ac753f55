-- ===== src/Payments/Tests/Deliveries.antt =====
-- The theorems on deliveries and refunds at concrete states.
use motivra.Prelude.{◌≡◌, ◌≢◌, refl, sym, ap, ◌∙◌, true, false, [], ◌∷◌, none, some, arith, nat_eq}
use motivra.Prelude.Int.{pos}
use motivra.Prelude.Text.{Text, bytes, text_eq}
use motivra.Prelude.Table.{find}
use motivra.Prelude.Exec.{Result, ok, err, ◌>>=◌}
use motivra.Payments.Money.{equal_same_currency}
use motivra.Payments.Types.{
  PaymentIntent, Provider, WebhookPayload, Error, webhook_rejected, conflict, intent_not_found,
  already_refunded,
}
use motivra.Payments.Scope.{Scope, arguments_fit, unrestricted_scope, scope_predicate}
use motivra.Payments.World.{World, key_eq, event_eq}
use motivra.Payments.Store.Reads.{find_intent, find_by_ref, scoped_intent, visible, newest_refund}
use motivra.Payments.Store.Keys.{find_key}
use motivra.Payments.Service.{lookup_provider, provider_named}
use motivra.Payments.Service.Webhook.{duplicate, claim_key, handle_webhook}
use motivra.Payments.Service.Refund.{refund_payment}
use motivra.Payments.Calls.History.{wait_until, call, history}
use motivra.Payments.Redelivery.Laws.{redelivery-duplicate}
use motivra.Payments.Redelivery.Refusals.{
  Attested, matches, mismatch-rejected, tampered-rejected, unfinished-conflict,
}
use motivra.Payments.Refusals.{hidden-not_found, second-already_refunded}
use motivra.Payments.Tests.{
  payload, provider_with, sandbox, service_with, service, body, delivery, settled_world,
  settled_healthy, delivery_returns, waiting_world, attempted_transaction, intent, paid_intent,
  paid_world, completed_refund, key_row,
}

sandbox_named : (w : World) → provider_named service [] w ≡ (ok sandbox, w)
unfolding provider_named ◌>>=◌ lookup_provider text_eq bytes
sandbox_named w = refl

-- Every provider of the service is the sandbox, which attests the same at any time.
same_again :
    (p : Provider)
    → provider_named service [] waiting_world ≡ (ok p, waiting_world)
    → p.webhook_event [] body 300 ≡ p.webhook_event [] body 200
same_again p h =
    let e : sandbox ≡ p = ap provider_of (sym (sandbox_named waiting_world) ∙ h) in
    ap (λ p. p.webhook_event [] body 300) (sym e) ∙ ap (λ p. p.webhook_event [] body 200) e
  where
    provider_of : Result Error Provider × World → Provider
    provider_of (ok p, w) = p
    provider_of (err e, w) = sandbox

healthy_later : (history service (wait_until 400 ∷ []) settled_world).faults ≡ []
unfolding history call
healthy_later = settled_healthy

redelivery-duplicate_example :
    handle_webhook service [] [] body 300 (history service (wait_until 400 ∷ []) settled_world) ≡ (
      ok (record delivery { status = duplicate }),
      history service (wait_until 400 ∷ []) settled_world,
    )
redelivery-duplicate_example =
    redelivery-duplicate service [] [] body 200 waiting_world settled_world delivery
      (wait_until 400 ∷ []) [] 300 delivery_returns refl same_again healthy_later

-- One shilling less than the ledger's amount.
abbrev short_payload : WebhookPayload
short_payload = record payload { amount_minor = pos 149900 }

short_attested :
    Attested
      (service_with (provider_with short_payload))
      []
      []
      body
      200
      (provider_with short_payload)
      short_payload
      attempted_transaction
      waiting_world
unfolding provider_named ◌>>=◌ lookup_provider text_eq bytes find_by_ref
short_attested = record { named = refl; attests = refl; found = refl; healthy = refl }

short_differs : matches (provider_with short_payload) short_payload attempted_transaction ≡ false
unfolding text_eq bytes equal_same_currency
short_differs = refl

mismatch-rejected_example :
    handle_webhook (service_with (provider_with short_payload)) [] [] body 200 waiting_world
    ≡ (err webhook_rejected, waiting_world)
mismatch-rejected_example =
    mismatch-rejected (service_with (provider_with short_payload)) [] [] body 200
      (provider_with short_payload) short_payload attempted_transaction waiting_world short_attested
      short_differs

payload_matches : matches sandbox payload attempted_transaction ≡ true
unfolding text_eq bytes equal_same_currency
payload_matches = refl

-- The ledger with a key of an unfinished delivery.
abbrev claimed_world : Text → World
claimed_world hash = record waiting_world { keys = key_row hash [] ∷ [] }

attested :
    (hash : Text)
    → Attested service [] [] body 200 sandbox payload attempted_transaction (claimed_world hash)
unfolding provider_named ◌>>=◌ lookup_provider text_eq bytes find_by_ref
attested hash = record { named = refl; attests = refl; found = refl; healthy = refl }

claimed :
    (hash : Text)
    → find_key (claim_key sandbox payload attempted_transaction) (claimed_world hash).keys
      ≡ some (key_row hash [])
unfolding find key_eq event_eq text_eq bytes
claimed hash = refl

other_hash : bytes "other" ≢ body
unfolding bytes
other_hash e = ground (arith, e)

tampered-rejected_example :
    handle_webhook service [] [] body 200 (claimed_world (bytes "other"))
    ≡ (err webhook_rejected, claimed_world (bytes "other"))
tampered-rejected_example =
    tampered-rejected service [] [] body 200 sandbox payload attempted_transaction
      (claimed_world (bytes "other")) (key_row (bytes "other") []) (attested (bytes "other"))
      payload_matches (claimed (bytes "other")) other_hash

unfinished-conflict_example :
    handle_webhook service [] [] body 200 (claimed_world body) ≡ (err conflict, claimed_world body)
unfinished-conflict_example =
    unfinished-conflict service [] [] body 200 sandbox payload attempted_transaction
      (claimed_world body) (key_row body []) (attested body) payload_matches (claimed body) refl
      refl

-- Refunds.

abbrev other_tenant : Scope
other_tenant = record { tenant_id = some 99; principal_id = none; explicit_unrestricted = false }

foreign : (i : PaymentIntent) → find_intent 1 paid_world.intents ≡ some i → i.tenant_id ≢ some 99
unfolding find
foreign i h e = ground (arith, h, e)

hidden-not_found_example :
    refund_payment service 1 [] 8 other_tenant paid_world ≡ (err intent_not_found, paid_world)
hidden-not_found_example =
    hidden-not_found service 1 [] 8 other_tenant paid_world refl 99 refl foreign

seen_waiting : scoped_intent unrestricted_scope (find_intent 1 waiting_world.intents) ≡ some intent
unfolding scoped_intent visible scope_predicate find
seen_waiting = refl

seen_paid : scoped_intent unrestricted_scope (find_intent 1 paid_world.intents) ≡ some paid_intent
unfolding scoped_intent visible scope_predicate find
seen_paid = refl

unrestricted_fits : arguments_fit unrestricted_scope ≡ true
unfolding arguments_fit
unrestricted_fits = refl

newest : newest_refund 1 paid_world.refunds ≡ some completed_refund
unfolding newest_refund
newest = refl

second-already_refunded_example :
    refund_payment service 1 [] 8 unrestricted_scope paid_world ≡ (err already_refunded, paid_world)
second-already_refunded_example =
    second-already_refunded service 1 [] 8 unrestricted_scope paid_world refl paid_intent
      completed_refund unrestricted_fits seen_paid refl refl newest (λ e. ground (arith, e))
