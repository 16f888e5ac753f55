-- ===== src/Payments/Redelivery/Applied.antt =====
-- What a delivery that was applied has found, checked and recorded.
use motivra.Prelude.{
  ◌≡◌, ◌≢◌, refl, sym, ap, ◌∙◌, inl, inr, true, false, ◌||◌, [], some, arith, ◌==◌, Bool-cases,
}
use motivra.Prelude.Text.{Text, bytes, text_eq}
use motivra.Prelude.Exec.{Result, or_raise, ok, err, raise, pure}
use motivra.Prelude.Exec.Runs.{
  Returns, bind-Returns, pure-Returns, or_raise-Returns, find_or_raise-Returns, require-Returns,
}
use motivra.Prelude.Exec.Steps.{Steps, Any}
use motivra.Payments.Money.{equal_same_currency}
use motivra.Payments.Status.{TransactionStatus}
use motivra.Payments.Types.{
  nil_uuid, Instant, Transaction, Provider, WebhookError, WebhookPayload, Error, invalid_input,
}
use motivra.Payments.World.{World, ClaimKey, IdempotencyKey}
use motivra.Payments.Store.Rows.{is_empty}
use motivra.Payments.Store.Reads.{find_by_ref, get_transaction_by_provider_ref}
use motivra.Payments.Store.Keys.{ClaimResult, find_key}
use motivra.Payments.Service.{Service, provider_named}
use motivra.Payments.Service.Webhook.{
  applied, duplicate, WebhookResult, verified, rejecting, correlate, attested, attempted,
  validate_payload, claim_key, result_of, applied_result, apply_delivery, replay, process_claim,
  process_payload, handle_webhook,
}
use motivra.Payments.Calls.Store.{writes-StoreLaws}
use motivra.Payments.Calls.{StoreLaws, publish-Keeps}
use motivra.Payments.Calls.Webhook.{outcome-Settles}
use motivra.Payments.Ledger.{Grows}
use motivra.Payments.Ledger.Writes.{Grows-WriteLaws}
use motivra.Payments.Redelivery.Keys.{attempt-Returns, claim-Returns, complete-Returns}

abbrev AnyStatus : TransactionStatus → Type 0
AnyStatus t = Unit

grows : StoreLaws Grows AnyStatus
grows = writes-StoreLaws Grows-WriteLaws

pub applied_result-is_empty : is_empty applied_result ≡ false
unfolding bytes
applied_result-is_empty = refl

pub applied_result_text : applied_result ≢ []
applied_result_text e = ground (arith, applied_result-is_empty, ap is_empty e)

-- What a call that returned did to the world.
pub returned :
    {A : Type 0} {R : World → World → Type 0} (m : World → Result Error A × World) (w : World)
    (a : A) (t : World)
    → Steps Any R m
    → Returns m w a t
    → R w t
returned m w a t h e = rw (ap (λ x. x.1) e) at (h.at w tt)

-- The checks of a payload against the transaction that it is about.
pub record Matches (p : Provider) (payload : WebhookPayload) (t : Transaction) : Type 0 where
  pub provider : text_eq t.provider p.name ≡ true
  pub amount : equal_same_currency (attested payload) (attempted t) ≡ true
  pub intent : (t.intent_id == payload.intent_id || payload.intent_id == nil_uuid) ≡ true

-- The key is in the table with this hash and the result of an application.
pub record Completed (key : ClaimKey) (body_hash : Text) (w : World) : Type 0 where
  pub row : IdempotencyKey
  pub found : find_key key w.keys ≡ some row
  pub hash : row.payload_hash ≡ body_hash
  pub result : row.result ≡ applied_result

verified-Returns :
    (a : Result WebhookError WebhookPayload) (w : World) (payload : WebhookPayload) (t : World)
    → Returns (verified a) w payload t
    → (a ≡ ok payload) × (t ≡ w)
unfolding pure raise
verified-Returns (ok q) w payload t h = ground (arith, h)
verified-Returns (err e) w payload t h = ground (arith, h)

correlate-Returns :
    (p : Provider) (payload : WebhookPayload) (w : World) (x : Transaction) (t : World)
    → Returns (correlate p payload) w x t
    → (find_by_ref p.name payload.provider_ref w.transactions ≡ some x)
      × (t ≡ record w { faults = t.faults })
unfolding correlate get_transaction_by_provider_ref
correlate-Returns p payload w x t h =
    let b =
      bind-Returns _ _ w x t
        (through (get_transaction_by_provider_ref p.name payload.provider_ref w) h) in
    let (found, same) = find_or_raise-Returns _ _ b.between x t b.second in
    let before = attempt-Returns _ w b.value b.between b.first in
    (
      sym (ap (λ w. find_by_ref p.name payload.provider_ref w.transactions) before) ∙ found,
      ground (arith, same, before),
    )
  where
    through : (a : Result Error Transaction × World) → rejecting a ≡ (ok x, t) → a ≡ (ok x, t)
    through (ok y, v) h = ground (arith, h)
    through (err e, v) h = ground (arith, h)

validate-Returns :
    (p : Provider) (payload : WebhookPayload) (x : Transaction) (w : World) (u : Unit {0})
    (t : World)
    → Returns (validate_payload p payload x) w u t
    → Matches p payload x × (t ≡ w)
unfolding validate_payload
validate-Returns p payload x w u t h =
    let a = bind-Returns _ _ w u t h in
    let b = bind-Returns _ _ a.between u t a.second in
    let (h1, s1) = require-Returns _ _ w a.value a.between a.first in
    let (h2, s2) = require-Returns _ _ a.between b.value b.between b.first in
    let (h3, s3) = require-Returns _ _ b.between u t b.second in
    (record { provider = h1; amount = h2; intent = h3 }, s3 ∙ s2 ∙ s1)

module _ (s : Service) where
  apply_delivery-Returns :
      (key : ClaimKey) (payload : WebhookPayload) (x : Transaction) (hash : Text) (w : World)
      (r : WebhookResult) (t : World) (k : IdempotencyKey)
      → Returns (apply_delivery s key payload x) w r t
      → find_key key w.keys ≡ some k
      → k.payload_hash ≡ hash
      → (r ≡ result_of applied x) × Completed key hash t
  unfolding apply_delivery
  apply_delivery-Returns key payload x hash w r t k h found hashed =
      let a = bind-Returns _ _ w r t h in
      let b = bind-Returns _ _ a.between r t a.second in
      let c = bind-Returns _ _ b.between r t b.second in
      let (result, same) = pure-Returns _ c.between r t c.second in
      let (k1, found1, keeps1) =
        (returned _ w a.value a.between (grows.settle _ (outcome-Settles payload.event))
            a.first).keys.row
          key k found in
      let found2 =
        complete-Returns key applied_result a.between b.value b.between k1 b.first found1 in
      let (k3, found3, keeps3) =
        (returned _ b.between c.value c.between (publish-Keeps grows s _ _ _ _) c.first).keys.row
          key _ found2 in
      (
        result,
        record {
          row = k3;
          found = ap (λ w. find_key key w.keys) same ∙ found3;
          hash = keeps3.hash ∙ keeps1.hash ∙ hashed;
          result = ap (λ k. k.result) (keeps3.final applied_result_text);
        },
      )

  replay_duplicates :
      (claim : ClaimResult) (hash : Text) (x : Transaction) (w : World) (r : WebhookResult)
      (t : World)
      → Returns (replay claim hash x) w r t
      → r ≡ result_of duplicate x
  unfolding replay
  replay_duplicates claim hash x w r t h =
      let a = bind-Returns _ _ w r t h in
      let b = bind-Returns _ _ a.between r t a.second in (pure-Returns _ b.between r t b.second).0

  process_claim-Returns :
      (key : ClaimKey) (payload : WebhookPayload) (x : Transaction) (hash : Text)
      (claim : ClaimResult) (w : World) (r : WebhookResult) (t : World)
      → Returns (process_claim s key payload x hash claim) w r t
      → (claim.claimed ≡ true
          → (k : IdempotencyKey) × (find_key key w.keys ≡ some k) × (k.payload_hash ≡ hash))
      → r.status ≡ applied
      → (r ≡ result_of applied x) × Completed key hash t
  unfolding process_claim
  process_claim-Returns key payload x hash claim w r t h won status =
      elim (Bool-cases claim.claimed) [
        | inl hit ↦
            let (k, found, hashed) = won hit in
            apply_delivery-Returns key payload x hash w r t k (rw hit at h) found hashed
        | inr miss ↦
            let twice = replay_duplicates claim hash x w r t (rw miss at h) in
            ground (arith, status, ap (λ r. r.status) twice)
      ]

  process_payload-Returns :
      (p : Provider) (payload : WebhookPayload) (x : Transaction) (hash : Text) (w : World)
      (r : WebhookResult) (t : World)
      → Returns (process_payload s p payload x hash) w r t
      → r.status ≡ applied
      → Matches p payload x × (r ≡ result_of applied x) × Completed (claim_key p payload x) hash t
  unfolding process_payload
  process_payload-Returns p payload x hash w r t h status =
      let a = bind-Returns _ _ w r t h in
      let b = bind-Returns _ _ a.between r t a.second in
      let (matches, _) = validate-Returns p payload x w a.value a.between a.first in
      let (result, completed) =
        process_claim-Returns _ payload x hash b.value b.between r t b.second
          (λ won. claim-Returns _ hash a.between b.value b.between b.first won) status in
      (matches, result, completed)

-- A delivery that was applied.
pub record Applied (s : Service) (name header body : Text) (now : Instant) (w : World)
    (r : WebhookResult) (t : World) : Type 0 where
  pub provider : Provider
  pub payload : WebhookPayload
  pub row : Transaction
  pub named : (v : World) → provider_named s name v ≡ (ok provider, v)
  pub attests : provider.webhook_event header body now ≡ ok payload
  pub found : find_by_ref provider.name payload.provider_ref w.transactions ≡ some row
  pub matches : Matches provider payload row
  pub result : r ≡ result_of applied row
  pub completed : Completed (claim_key provider payload row) (s.sha256_hex body) t

pub handle_webhook-Returns :
    (s : Service) (name header body : Text) (now : Instant) (w : World) (r : WebhookResult)
    (t : World)
    → Returns (handle_webhook s name header body now) w r t
    → r.status ≡ applied
    → Applied s name header body now w r t
unfolding handle_webhook provider_named or_raise
handle_webhook-Returns s name header body now w r t h status =
    let a = bind-Returns _ _ w r t h in
    let b = bind-Returns _ _ a.between r t a.second in
    let c = bind-Returns _ _ b.between r t b.second in
    let (named, s1) = or_raise-Returns _ _ w a.value a.between a.first in
    let (attests, s2) = verified-Returns _ a.between b.value b.between b.first in
    let (found, _) = correlate-Returns a.value b.value b.between c.value c.between c.first in
    let (matches, result, completed) =
      process_payload-Returns s a.value b.value c.value _ c.between r t c.second status in
    record {
      provider = a.value;
      payload = b.value;
      row = c.value;
      named = λ v. ap (λ x. or_raise x invalid_input v) named;
      attests = attests;
      found =
          ap (λ w. find_by_ref a.value.name b.value.provider_ref w.transactions) (sym (s2 ∙ s1))
          ∙ found;
      matches = matches;
      result = result;
      completed = completed;
    }
