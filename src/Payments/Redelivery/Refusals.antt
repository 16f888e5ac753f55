-- ===== src/Payments/Redelivery/Refusals.antt =====
-- The deliveries that `HandleWebhook` refuses, and what they change: nothing.
use motivra.Prelude.{◌≡◌, ◌≢◌, ap, ◌∙◌, Bool, true, false, not, ◌&&◌, ◌||◌, [], some, arith, ◌==◌}
use motivra.Prelude.Text.{Text, text_eq, text_eq_iff}
use motivra.Prelude.Exec.{ok, err, ◌>>=◌, pure}
use motivra.Prelude.Exec.Runs.{bind-runs, bind-fails, require-runs, require-fails}
use motivra.Payments.Money.{equal_same_currency}
use motivra.Payments.Types.{
  webhook_rejected, conflict, nil_uuid, Instant, Transaction, Provider, WebhookPayload,
}
use motivra.Payments.World.{World, IdempotencyKey}
use motivra.Payments.Store.Rows.{is_empty}
use motivra.Payments.Store.Reads.{find_by_ref}
use motivra.Payments.Store.Keys.{ClaimResult, find_key}
use motivra.Payments.Service.{Service, provider_named}
use motivra.Payments.Service.Webhook.{
  verified, attested, attempted, validate_payload, claim_key, replay, process_claim,
  process_payload, handle_webhook,
}
use motivra.Payments.Redelivery.Runs.{correlate-runs, claim-runs, validate-runs}
use motivra.Payments.Redelivery.Applied.{Matches}

-- A delivery that the adapter of a known provider attests and whose reference is in the ledger.
pub record Attested (s : Service) (name header body : Text) (now : Instant) (p : Provider)
    (payload : WebhookPayload) (x : Transaction) (w : World) : Type 0 where
  pub named : provider_named s name w ≡ (ok p, w)
  pub attests : p.webhook_event header body now ≡ ok payload
  pub found : find_by_ref p.name payload.provider_ref w.transactions ≡ some x
  pub healthy : w.faults ≡ []

-- The conditions of step 3.
abbrev pub matches : Provider → WebhookPayload → Transaction → Bool
matches p payload x =
    text_eq x.provider p.name
    && (equal_same_currency (attested payload) (attempted x)
        && (x.intent_id == payload.intent_id || payload.intent_id == nil_uuid))

handle-runs :
    (s : Service) (name header body : Text) (now : Instant) (p : Provider)
    (payload : WebhookPayload) (x : Transaction) (w : World)
    → Attested s name header body now p payload x w
    → handle_webhook s name header body now w ≡ process_payload s p payload x (s.sha256_hex body) w
unfolding handle_webhook pure
handle-runs s name header body now p payload x w a =
    bind-runs _ _ w p w a.named
    ∙ bind-runs _ _ w payload w (ap (λ a. verified a w) a.attests)
    ∙ bind-runs _ _ w x w (correlate-runs w a.healthy p payload x a.found)

validate-fails :
    (p : Provider) (payload : WebhookPayload) (x : Transaction) (w : World)
    → matches p payload x ≡ false
    → validate_payload p payload x w ≡ (err webhook_rejected, w)
unfolding validate_payload ◌>>=◌
validate-fails p payload x w h = ground (arith, h)

validate-passes :
    (p : Provider) (payload : WebhookPayload) (x : Transaction)
    → matches p payload x ≡ true
    → Matches p payload x
validate-passes p payload x h = record {
  provider = ground (arith, h);
  amount = ground (arith, h);
  intent = ground (arith, h);
}

-- A delivery whose provider, attested amount and currency, or intent do not match the transaction
-- is rejected, and nothing is written, not even the idempotency key.
pub mismatch-rejected :
    (s : Service) (name header body : Text) (now : Instant) (p : Provider)
    (payload : WebhookPayload) (x : Transaction) (w : World)
    → Attested s name header body now p payload x w
    → matches p payload x ≡ false
    → handle_webhook s name header body now w ≡ (err webhook_rejected, w)
unfolding process_payload
mismatch-rejected s name header body now p payload x w a h =
    handle-runs s name header body now p payload x w a
    ∙ bind-fails _ _ w webhook_rejected w (validate-fails p payload x w h)

module _ (s : Service) (name header body : Text) (now : Instant) (p : Provider)
    (payload : WebhookPayload) (x : Transaction) (w : World) (k : IdempotencyKey)
    (a : Attested s name header body now p payload x w) (m : matches p payload x ≡ true)
    (claimed : find_key (claim_key p payload x) w.keys ≡ some k) where
  abbrev claim : ClaimResult
  claim = record {
    claimed = false;
    existing_result = k.result;
    existing_payload_hash = k.payload_hash;
  }

  replayed : handle_webhook s name header body now w ≡ replay claim (s.sha256_hex body) x w
  unfolding process_payload process_claim
  replayed =
      handle-runs s name header body now p payload x w a
      ∙ bind-runs _ _ w tt w (validate-runs p payload x w (validate-passes p payload x m))
      ∙ bind-runs _ _ w claim w (claim-runs w a.healthy _ _ k claimed)

  -- A matching delivery under a key that was claimed with another body is rejected, and nothing is
  -- written.
  pub tampered-rejected :
      k.payload_hash ≢ s.sha256_hex body
      → handle_webhook s name header body now w ≡ (err webhook_rejected, w)
  unfolding replay
  tampered-rejected h =
      replayed
      ∙ bind-fails _ _ w webhook_rejected w
          (require-fails _ _ w (ground (arith, h, text_eq_iff k.payload_hash (s.sha256_hex body))))

  -- A matching delivery under a key that was claimed with this body and never completed is answered
  -- with a conflict, and nothing is written: the key stays as it is for the next delivery.
  pub unfinished-conflict :
      k.payload_hash ≡ s.sha256_hex body
      → k.result ≡ []
      → handle_webhook s name header body now w ≡ (err conflict, w)
  unfolding replay
  unfinished-conflict same unfinished =
      replayed
      ∙ bind-runs _ _ w tt w
          (require-runs _ _ w ((text_eq_iff k.payload_hash (s.sha256_hex body)).1 same))
      ∙ bind-fails _ _ w conflict w (require-fails _ _ w (ap (λ r. not (is_empty r)) unfinished))
