-- ===== src/Payments/Calls/Refunds.antt =====
-- `RefundPayment` under the store's laws.
use motivra.Prelude.Text.{Text}
use motivra.Prelude.Exec.{Result, ok, err}
use motivra.Prelude.Exec.Steps.{Any, Steps-pure, Steps-raise, Steps-find_or_raise, Steps-if}
use motivra.Payments.Status.{TransactionStatus}
use motivra.Payments.Types.{
  Uuid, PaymentIntent, Refund, Provider, ProviderError, RefundResult, database,
}
use motivra.Payments.Scope.{Scope}
use motivra.Payments.World.{World}
use motivra.Payments.Store.Reads.{get_intent, latest_refund_for_intent}
use motivra.Payments.Service.{Service}
use motivra.Payments.Service.Refund.{check_latest, record_refund, request_refund, refund_payment}
use motivra.Payments.Calls.{
  StoreLaws, Keeps, attempt-Keeps, then-Keeps, require-Keeps, provider_named-Keeps, publish-Keeps,
  publish_ignoring-Keeps,
}

module _ {R : World → World → Type 0} {Accepted : TransactionStatus → Type 0}
    (k : StoreLaws R Accepted) where
  -- RefundPayment

  get_intent-Keeps : (id : Uuid) (scope : Scope) → Keeps k (get_intent id scope)
  unfolding get_intent
  get_intent-Keeps id scope =
      then-Keeps k _ _ (attempt-Keeps k database)
        λ _. require-Keeps k _ _ _ (Steps-find_or_raise k.order Any _ _)

  latest_refund_for_intent-Keeps :
      (id : Uuid) (scope : Scope) → Keeps k (latest_refund_for_intent id scope)
  unfolding latest_refund_for_intent
  latest_refund_for_intent-Keeps id scope =
      then-Keeps k _ _ (attempt-Keeps k database)
        λ _. require-Keeps k _ _ _ (Steps-find_or_raise k.order Any _ _)

  check_latest-Keeps : (id : Uuid) (scope : Scope) → Keeps k (check_latest id scope)
  unfolding check_latest
  check_latest-Keeps id scope = record {
    at = λ w h. (latest_refund_for_intent-Keeps id scope).at w h;
  }

  module _ (s : Service) where
    record_refund-Keeps :
        (i : PaymentIntent) (r : Refund) (actor : Uuid) (answer : Result ProviderError RefundResult)
        → Keeps k (record_refund s i r actor answer)
    unfolding record_refund
    record_refund-Keeps i r actor (ok result) =
        then-Keeps k _ _ (k.settle_refund _ _ _ _)
          λ _. then-Keeps k _ _ (publish-Keeps k _ _ _ _ _) λ _. Steps-pure k.order Any _
    record_refund-Keeps i r actor (err e) =
        Steps-if e.unavailable _ _ (λ _. Steps-raise k.order Any _)
          (λ _. then-Keeps k _ _ (k.settle_refund _ _ _ _) λ _.
            then-Keeps k _ _ (publish_ignoring-Keeps k _ _ _ _ _) λ _. Steps-raise k.order Any _)

    request_refund-Keeps :
        (i : PaymentIntent) (reason : Text) (actor : Uuid) (p : Provider)
        → Keeps k (request_refund s i reason actor p)
    unfolding request_refund
    request_refund-Keeps i reason actor p =
        then-Keeps k _ _ (k.insert_refund _) λ r. record_refund-Keeps i r actor _

    pub refund_payment-Keeps :
        (id : Uuid) (reason : Text) (actor : Uuid) (scope : Scope)
        → Keeps k (refund_payment s id reason actor scope)
    unfolding refund_payment
    refund_payment-Keeps id reason actor scope = then-Keeps k _ _ (get_intent-Keeps id scope) λ i.
        require-Keeps k _ _ _ (
          require-Keeps k _ _ _ (
            then-Keeps k _ _ (check_latest-Keeps id scope) λ _.
              then-Keeps k _ _ (provider_named-Keeps k s i.provider)
                λ p. request_refund-Keeps i reason actor p))
