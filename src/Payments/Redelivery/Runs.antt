-- ===== src/Payments/Redelivery/Runs.antt =====
-- The steps of a delivery in a state where the database answers.
use motivra.Prelude.{◌≡◌, refl, ap, ◌∙◌, false, [], some}
use motivra.Prelude.Text.{Text}
use motivra.Prelude.Exec.{gets, pure}
use motivra.Prelude.Exec.Runs.{Returns, bind-runs, require-runs, find_or_raise-runs}
use motivra.Payments.Types.{Transaction, Provider, WebhookPayload, Error}
use motivra.Payments.World.{World, ClaimKey, IdempotencyKey, attempt, failing}
use motivra.Payments.Store.Reads.{find_by_ref, get_transaction_by_provider_ref}
use motivra.Payments.Store.Keys.{find_key, claim_idempotency_key}
use motivra.Payments.Service.Webhook.{rejecting, correlate, validate_payload}
use motivra.Payments.Redelivery.Applied.{Matches}

module _ (w : World) (healthy : w.faults ≡ []) where
  pub attempt-runs : (e : Error) → Returns (attempt e) w tt w
  unfolding attempt
  attempt-runs e = ap (λ fs. failing fs e w) healthy

  pub correlate-runs :
      (p : Provider) (payload : WebhookPayload) (x : Transaction)
      → find_by_ref p.name payload.provider_ref w.transactions ≡ some x
      → Returns (correlate p payload) w x w
  unfolding correlate get_transaction_by_provider_ref
  correlate-runs p payload x h =
      ap rejecting (bind-runs _ _ w tt w (attempt-runs _) ∙ find_or_raise-runs _ _ w x h)

  pub claim-runs :
      (key : ClaimKey) (hash : Text) (k : IdempotencyKey)
      → find_key key w.keys ≡ some k
      → Returns
          (claim_idempotency_key key hash)
          w
          (record {
            claimed = false;
            existing_result = k.result;
            existing_payload_hash = k.payload_hash;
          })
          w
  unfolding claim_idempotency_key gets pure
  claim-runs key hash k h =
      bind-runs _ _ w tt w (attempt-runs _)
      ∙ bind-runs (gets _) _ w (some k) w (rw h refl)
      ∙ bind-runs _ _ w tt w (attempt-runs _)

pub validate-runs :
    (p : Provider) (payload : WebhookPayload) (x : Transaction) (w : World)
    → Matches p payload x
    → Returns (validate_payload p payload x) w tt w
unfolding validate_payload
validate-runs p payload x w m =
    bind-runs _ _ w tt w (require-runs _ _ w m.provider)
    ∙ bind-runs _ _ w tt w (require-runs _ _ w m.amount)
    ∙ require-runs _ _ w m.intent
