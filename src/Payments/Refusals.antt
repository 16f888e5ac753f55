-- ===== src/Payments/Refusals.antt =====
-- The refunds that `RefundPayment` refuses, and what they change: nothing.
use motivra.Prelude.{
  refl, Option, Option-cases, ◌≡◌, ◌≢◌, ap, ◌∙◌, true, List, [], ◌∷◌, none, some, arith, ==_iff,
  leb, length,
}
use motivra.Prelude.Text.{Text}
use motivra.Prelude.Exec.{ok, err}
use motivra.Prelude.Exec.Runs.{
  bind-runs, bind-fails, require-runs, require-fails, find_or_raise-runs, find_or_raise-fails,
}
use motivra.Payments.Status.{IntentStatus, RefundStatus, intent_eq_iff, refund_eq_iff}
use motivra.Payments.Types.{
  Uuid, PaymentIntent, Refund, intent_not_found, not_refundable, already_refunded,
}
use motivra.Payments.Scope.{arguments_fit, scope_predicate, Scope}
use motivra.Payments.World.{World}
use motivra.Payments.Store.Reads.{
  visible, find_intent, scoped_intent, get_intent, intent_visible, scoped_refund, newest_refund,
  latest_refund_for_intent,
}
use motivra.Payments.Service.{Service}
use motivra.Payments.Service.Refund.{
  may_refund, check_latest, max_refund_reason_length, refund_payment,
}
use motivra.Payments.Redelivery.Runs.{attempt-runs}

-- The refund that is found is one of the intent.
newest_refund_intent :
    (id : Uuid) (rs : List Refund) (r : Refund) → newest_refund id rs ≡ some r → r.intent_id ≡ id
unfolding newest_refund
newest_refund_intent id [] r h = ground (arith, h)
newest_refund_intent id (q ∷ rs) r h =
    ground (arith, h, newest_refund_intent id rs r, ==_iff q.intent_id id)

module _ (w : World) (healthy : w.faults ≡ []) (id : Uuid) (scope : Scope)
    (fit : arguments_fit scope ≡ true) where
  get_intent-runs :
      (i : PaymentIntent)
      → scoped_intent scope (find_intent id w.intents) ≡ some i
      → get_intent id scope w ≡ (ok i, w)
  unfolding get_intent
  get_intent-runs i h =
      bind-runs _ _ w tt w (attempt-runs w healthy _)
      ∙ bind-runs _ _ w tt w (require-runs _ _ w fit)
      ∙ find_or_raise-runs _ _ w i h

  get_intent-fails :
      scoped_intent scope (find_intent id w.intents) ≡ none
      → get_intent id scope w ≡ (err intent_not_found, w)
  unfolding get_intent
  get_intent-fails h =
      bind-runs _ _ w tt w (attempt-runs w healthy _)
      ∙ bind-runs _ _ w tt w (require-runs _ _ w fit)
      ∙ find_or_raise-fails _ _ w h

  latest-runs :
      (i : PaymentIntent) (r : Refund)
      → scoped_intent scope (find_intent id w.intents) ≡ some i
      → newest_refund id w.refunds ≡ some r
      → latest_refund_for_intent id scope w ≡ (ok r, w)
  unfolding latest_refund_for_intent scoped_refund intent_visible scoped_intent
  latest-runs i r h newest =
      bind-runs _ _ w tt w (attempt-runs w healthy _)
      ∙ bind-runs _ _ w tt w (require-runs _ _ w fit)
      ∙ find_or_raise-runs _ _ w r (
          ground (
            arith,
            h,
            newest,
            ap (λ k. find_intent k w.intents) (newest_refund_intent id w.refunds r newest),
          ))

tenant-fits : (scope : Scope) (t : Uuid) → scope.tenant_id ≡ some t → arguments_fit scope ≡ true
unfolding arguments_fit
tenant-fits scope t h = ground (arith, h)

-- A caller of a tenant sees no intent of another.
foreign-hidden :
    (scope : Scope) (t : Uuid)
    → scope.tenant_id ≡ some t
    → (found : Option PaymentIntent) → ((i : PaymentIntent) → found ≡ some i → i.tenant_id ≢ some t)
    → scoped_intent scope found ≡ none
unfolding scoped_intent visible scope_predicate
foreign-hidden scope t h none foreign = refl
foreign-hidden scope t h (some i) foreign =
    ground (arith, h, foreign i refl, Option-cases i.tenant_id)

module _ (s : Service) (id : Uuid) (reason : Text) (actor : Uuid) (scope : Scope) (w : World)
    (healthy : w.faults ≡ []) where
  -- In a state where the database answers, a refund by a caller of a tenant of an intent that is not there,
  -- or that belongs to another tenant or to none, is answered as a missing intent, and nothing is written.
  pub hidden-not_found :
      (t : Uuid)
      → scope.tenant_id ≡ some t
      → ((i : PaymentIntent) → find_intent id w.intents ≡ some i → i.tenant_id ≢ some t)
      → refund_payment s id reason actor scope w ≡ (err intent_not_found, w)
  unfolding refund_payment
  hidden-not_found t of_tenant foreign = bind-fails _ _ w intent_not_found w (
      get_intent-fails w healthy id scope (tenant-fits scope t of_tenant)
        (foreign-hidden scope t of_tenant (find_intent id w.intents) foreign))

  -- A refund of an intent that is not SUCCEEDED is refused, and nothing is written.
  pub unpaid-not_refundable :
      (i : PaymentIntent)
      → arguments_fit scope ≡ true
      → scoped_intent scope (find_intent id w.intents) ≡ some i
      → i.status ≢ IntentStatus.succeeded
      → refund_payment s id reason actor scope w ≡ (err not_refundable, w)
  unfolding refund_payment
  unpaid-not_refundable i fit h unpaid =
      bind-runs _ _ w i w (get_intent-runs w healthy id scope fit i h)
      ∙ bind-fails _ _ w not_refundable w (
          require-fails _ _ w
            (ground (arith, unpaid, intent_eq_iff i.status IntentStatus.succeeded)))

  -- In a state where the database answers, a second refund, unless the newest one of the intent FAILED, is
  -- refused, and nothing is written: no money is asked back from the provider. The caller sees the intent,
  -- and the scope gives its statements as many values as placeholders (it is not a personal one).
  pub second-already_refunded :
      (i : PaymentIntent) (r : Refund)
      → arguments_fit scope ≡ true
      → scoped_intent scope (find_intent id w.intents) ≡ some i
      → i.status ≡ IntentStatus.succeeded
      → leb (length reason) max_refund_reason_length ≡ true
      → newest_refund id w.refunds ≡ some r
      → r.status ≢ RefundStatus.failed
      → refund_payment s id reason actor scope w ≡ (err already_refunded, w)
  unfolding refund_payment check_latest
  second-already_refunded i r fit h paid short newest standing =
      bind-runs _ _ w i w (get_intent-runs w healthy id scope fit i h)
      ∙ bind-runs _ _ w tt w
          (require-runs _ _ w ((intent_eq_iff i.status IntentStatus.succeeded).1 paid))
      ∙ bind-runs _ _ w tt w (require-runs _ _ w short)
      ∙ bind-fails _ _ w already_refunded w refused
    where
      refused : check_latest id scope w ≡ (err already_refunded, w)
      refused =
          ap (λ x. (may_refund x.0, x.1)) (latest-runs w healthy id scope fit i r h newest)
          ∙ ground (arith, standing, refund_eq_iff r.status RefundStatus.failed)
