-- ===== src/Payments/Redelivery/Laws.antt =====
-- A delivery that was applied is applied once, whatever happens before it comes again.
use motivra.Prelude.{◌≡◌, refl, sym, ap, ◌∙◌, true, false, not, ◌||◌, List, [], some, arith, ◌==◌}
use motivra.Prelude.Text.{Text, text_eq, text_eq_iff}
use motivra.Prelude.Exec.{ok, pure}
use motivra.Prelude.Exec.Runs.{Returns, bind-runs, require-runs}
use motivra.Payments.Status.{TransactionStatus}
use motivra.Payments.Types.{nil_uuid, Instant, Transaction, Provider, WebhookPayload}
use motivra.Payments.World.{World, ClaimKey}
use motivra.Payments.Store.Rows.{is_empty}
use motivra.Payments.Store.Keys.{ClaimResult, find_key}
use motivra.Payments.Service.{Service, provider_named}
use motivra.Payments.Service.Webhook.{
  applied, duplicate, WebhookResult, verified, claim_key, result_of, replay, process_claim,
  process_payload, handle_webhook,
}
use motivra.Payments.Calls.{StoreLaws}
use motivra.Payments.Calls.Store.{writes-StoreLaws}
use motivra.Payments.Calls.Webhook.{handle_webhook-Keeps}
use motivra.Payments.Calls.History.{Call, history, history-Keeps}
use motivra.Payments.Ledger.Laws.{history-completed_key}
use motivra.Payments.Redelivery.Correlation.{
  SameAttempt, Correlates, Correlates-trans, Correlates-WriteLaws,
}
use motivra.Payments.Redelivery.Runs.{correlate-runs, claim-runs, validate-runs}
use motivra.Payments.Redelivery.Applied.{
  Matches, Completed, returned, applied_result-is_empty, applied_result_text,
  handle_webhook-Returns,
}

replay-runs :
    (claim : ClaimResult) (hash : Text) (x : Transaction) (w : World)
    → text_eq claim.existing_payload_hash hash ≡ true
    → is_empty claim.existing_result ≡ false
    → Returns (replay claim hash x) w (result_of duplicate x) w
unfolding replay pure
replay-runs claim hash x w same done =
    bind-runs _ _ w tt w (require-runs _ _ w same)
    ∙ bind-runs _ _ w tt w (require-runs _ _ w (ap not done))

-- A matching delivery under a completed key.
duplicate-runs :
    (s : Service) (p : Provider) (payload : WebhookPayload) (x : Transaction) (hash : Text)
    (w : World)
    → w.faults ≡ []
    → Matches p payload x
    → Completed (claim_key p payload x) hash w
    → Returns (process_payload s p payload x hash) w (result_of duplicate x) w
unfolding process_payload process_claim
duplicate-runs s p payload x hash w healthy m c =
    let claim : ClaimResult = record {
      claimed = false;
      existing_result = c.row.result;
      existing_payload_hash = c.row.payload_hash;
    } in
    bind-runs _ _ w tt w (validate-runs p payload x w m)
    ∙ bind-runs _ _ w claim w (claim-runs w healthy _ hash c.row c.found)
    ∙ replay-runs claim hash x w ((text_eq_iff c.row.payload_hash hash).1 c.hash)
        (ap is_empty c.result ∙ applied_result-is_empty)

-- The checks look at columns that never change.
same-Matches :
    (p : Provider) (payload : WebhookPayload) (x y : Transaction)
    → SameAttempt x y
    → Matches p payload x
    → Matches p payload y
same-Matches p payload x y s m = record {
  provider = ap (λ n. text_eq n p.name) s.provider ∙ m.provider;
  amount = rw (s.amount, s.currency) m.amount;
  intent = ap (λ i. i == payload.intent_id || payload.intent_id == nil_uuid) s.intent ∙ m.intent;
}

abbrev AnyStatus : TransactionStatus → Type 0
AnyStatus t = Unit

correlates : StoreLaws Correlates AnyStatus
correlates = writes-StoreLaws Correlates-WriteLaws

-- Once a delivery was applied, the same payload again, in a state where the database answers and
-- after any history of calls in between, is answered as a duplicate for the same transaction and
-- changes nothing at all.
pub redelivery-duplicate :
    (s : Service) (name header body : Text) (now : Instant) (w w' : World) (r : WebhookResult)
    (cs : List Call) (header' : Text) (now' : Instant)
    → handle_webhook s name header body now w ≡ (ok r, w')
    → r.status ≡ applied
    → ((p : Provider)
        → provider_named s name w ≡ (ok p, w)
        → p.webhook_event header' body now' ≡ p.webhook_event header body now)
    → (history s cs w').faults ≡ []
    → handle_webhook s name header' body now' (history s cs w')
      ≡ (ok (record r { status = duplicate }), history s cs w')
unfolding handle_webhook pure
redelivery-duplicate s name header body now w w' r cs header' now' h status again healthy =
    let d = handle_webhook-Returns s name header body now w r w' h status in
    let v = history s cs w' in
    let moved : Correlates w v =
      Correlates-trans w w' v
        (returned _ w r w' (handle_webhook-Keeps correlates s name header body now) h)
        (history-Keeps correlates s (λ _ _ _ _ _ _. tt) cs w') in
    let (x, found, same) = moved.same d.provider.name d.payload.provider_ref d.row d.found in
    let completed : Completed (claim_key d.provider d.payload x) (s.sha256_hex body) v =
      kept_key d.completed v (rw same.id refl) (
        history-completed_key s cs w' _ d.completed.row d.completed.found
          (λ e. applied_result_text (sym d.completed.result ∙ e))) in
    bind-runs _ _ v d.provider v (d.named v)
    ∙ bind-runs _ _ v d.payload v
        (ap (λ a. verified a v) (again d.provider (d.named w) ∙ d.attests))
    ∙ bind-runs _ _ v x v (correlate-runs v healthy d.provider d.payload x found)
    ∙ duplicate-runs s d.provider d.payload x _ v healthy
        (same-Matches d.provider d.payload d.row x same d.matches) completed
    ∙ ap (λ r. (ok r, v)) (same_result d.row x r same d.result)
  where
    kept_key :
        {key key' : ClaimKey} {hash : Text} {w : World}
        → (c : Completed key hash w) → (v : World) → key' ≡ key
        → find_key key v.keys ≡ some c.row
        → Completed key' hash v
    kept_key c v e found = record {
      row = c.row;
      found = ap (λ key. find_key key v.keys) e ∙ found;
      hash = c.hash;
      result = c.result;
    }

    same_result :
        (x y : Transaction) (r : WebhookResult)
        → SameAttempt x y
        → r ≡ result_of applied x
        → result_of duplicate y ≡ record r { status = duplicate }
    same_result x y r s e = ground (arith, e, s.id, s.intent)
