-- ===== src/Payments/Calls/Initiate.antt =====
-- `InitiatePayment` under the store's laws.
use motivra.Prelude.{◌≡◌, refl}
use motivra.Prelude.Exec.{Result, ok, err}
use motivra.Prelude.Exec.Steps.{
  Any, Steps-pure, Steps-raise, Steps-or_raise, Steps-or_raise_then, Steps-if,
}
use motivra.Payments.Money.{Money}
use motivra.Payments.Status.{TransactionStatus}
use motivra.Payments.Types.{
  Uuid, PaymentIntent, Provider, ProviderError, InitiateRequest, InitiateResult,
}
use motivra.Payments.World.{World}
use motivra.Payments.Service.{Service, provider_named}
use motivra.Payments.Service.Initiate.{
  InitiateInput, record_rejection, record_acceptance, record_answer, call_provider,
  initiate_payment,
}
use motivra.Payments.Calls.{
  StoreLaws, Accepts, accepted, rejected, Keeps, new_uuid-Keeps, then-Keeps, require-Keeps,
  publish-Keeps, publish_ignoring-Keeps,
}

module _ {R : World → World → Type 0} {Accepted : TransactionStatus → Type 0}
    (k : StoreLaws R Accepted) where
  -- InitiatePayment

  module _ (s : Service) (input : InitiateInput) where
    record_rejection-Keeps :
        (i : PaymentIntent) (tx : Uuid) (p : Provider) (amount : Money) (e : ProviderError)
        → Keeps k (record_rejection s input i tx p amount e)
    unfolding record_rejection
    record_rejection-Keeps i tx p amount e = then-Keeps k _ _ (k.insert_failed _ refl) λ failed.
        then-Keeps k _ _ (k.start _ _ _ _ rejected) λ _.
          then-Keeps k _ _ (publish_ignoring-Keeps k _ _ _ _ _) λ _.
            then-Keeps k _ _ (publish_ignoring-Keeps k _ _ _ _ _) λ _. Steps-raise k.order Any _

    record_acceptance-Keeps :
        (i : PaymentIntent) (tx : Uuid) (p : Provider) (amount : Money) (r : InitiateResult)
        → Accepted r.status
        → Keeps k (record_acceptance s input i tx p amount r)
    unfolding record_acceptance
    record_acceptance-Keeps i tx p amount r h = then-Keeps k _ _ (k.insert_accepted _ h) λ t.
        then-Keeps k _ _ (k.start _ _ _ _ accepted)
          λ _. then-Keeps k _ _ (publish-Keeps k _ _ _ _ _) λ _. Steps-pure k.order Any _

    record_answer-Keeps :
        (i : PaymentIntent) (tx : Uuid) (p : Provider) (amount : Money)
        (answer : Result ProviderError InitiateResult)
        → ((r : InitiateResult) → answer ≡ ok r → Accepted r.status)
        → Keeps k (record_answer s input i tx p amount answer)
    unfolding record_answer
    record_answer-Keeps i tx p amount (ok r) h = record_acceptance-Keeps i tx p amount r (h r refl)
    record_answer-Keeps i tx p amount (err e) h =
        Steps-if e.unavailable _ _ (λ _. Steps-raise k.order Any _)
          (λ _. record_rejection-Keeps i tx p amount e)

    call_provider-Keeps :
        (amount : Money) (p : Provider) (i : PaymentIntent)
        → ((q : InitiateRequest) (r : InitiateResult) → p.initiate q ≡ ok r → Accepted r.status)
        → Keeps k (call_provider s input amount p i)
    unfolding call_provider
    call_provider-Keeps amount p i h =
        then-Keeps k _ _ (new_uuid-Keeps k) λ tx. record_answer-Keeps i tx p amount _ (h _)

    pub initiate_payment-Keeps : Accepts Accepted s → Keeps k (initiate_payment s input)
    unfolding initiate_payment provider_named
    initiate_payment-Keeps h = then-Keeps k _ _ (Steps-or_raise k.order Any _ _) λ amount.
        require-Keeps k _ _ _ (
          require-Keeps k _ _ _ (
            require-Keeps k _ _ _ (
              require-Keeps k _ _ _ (
                Steps-or_raise_then k.order Any _ _ _ λ p found. require-Keeps k _ _ _ (
                  then-Keeps k _ _ (k.create _ refl)
                    λ i. call_provider-Keeps amount p i (λ q r. h _ p q r found))))))
