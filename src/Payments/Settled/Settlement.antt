-- ===== src/Payments/Settled/Settlement.antt =====
-- `ApplyTransactionOutcome` keeps transactions and intents together.
use motivra.Prelude.{
  ℕ, ◌≡◌, refl, sym, ap, ◌∙◌, ◌⊎◌, inl, inr, true, some, arith, ◌==◌, ==_iff, if◌then◌else◌, nat_eq,
  Bool-cases,
}
use mathlib.Core.Option
use motivra.Prelude.Table.{find_key, find-update}
use motivra.Prelude.Exec.Steps.{Kept}
use motivra.Payments.Status.{IntentStatus, TransactionStatus}
use motivra.Payments.Types.{Uuid, PaymentIntent, Transaction}
use motivra.Payments.World.{World}
use motivra.Payments.Store.Rows.{transaction_trigger}
use motivra.Payments.Store.Reads.{intent_id, transaction_id, find_intent, find_transaction}
use motivra.Payments.Store.Settlement.{
  ApplyOutcomeParams, settle_row, settle_intent_row, settle_transaction, settle_intent,
}
use motivra.Payments.Store.Stamps.{settle_intent_row_id, settle_intent_row_status}
use motivra.Payments.Calls.{Settles, failing_both, otherwise}
use motivra.Payments.Calls.Writes.{Settling}
use motivra.Payments.Settled.{PaidBy, Coupled}

settle_row_id :
    (p : ApplyOutcomeParams) (now : ℕ) (t : Transaction) → (settle_row p now t).id ≡ t.id
unfolding settle_row
settle_row_id p now t = refl

settle_row_intent :
    (p : ApplyOutcomeParams) (now : ℕ) (t : Transaction)
    → (settle_row p now t).intent_id ≡ t.intent_id
unfolding settle_row
settle_row_intent p now t = refl

settle_row_status :
    (p : ApplyOutcomeParams) (now : ℕ) (t : Transaction)
    → (settle_row p now t).status ≡ p.new_tx_status
unfolding settle_row
settle_row_status p now t = refl

Settles-paid :
    {t : TransactionStatus} {i : IntentStatus}
    → Settles t i
    → transaction_trigger TransactionStatus.pending t ≡ true
    → (t ≡ TransactionStatus.succeeded → i ≡ IntentStatus.succeeded)
      × (i ≡ IntentStatus.succeeded → t ≡ TransactionStatus.succeeded)
unfolding transaction_trigger
Settles-paid failing_both legal = ground arith
Settles-paid {t} (otherwise n) legal = ground (arith, n)

module _ (p : ApplyOutcomeParams) (t : Transaction) (i : PaymentIntent) (w : World)
    (s : Settling p t i w) where
  at_row :
      (k : Uuid)
      → find_transaction k (settle_transaction p w).transactions ≡ (
          if p.transaction_id == k
          then Option.map (settle_row p w.clock) (find_transaction k w.transactions)
          else find_transaction k w.transactions)
  at_row k =
      find-update transaction_id (settle_row p w.clock) (settle_row_id p w.clock) k p.transaction_id
        w.transactions

  at_intent :
      (k : Uuid)
      → find_intent k (settle_intent p i (settle_transaction p w)).intents ≡ (
          if i.id == k
          then Option.map (settle_intent_row p w.clock) (find_intent k w.intents)
          else find_intent k w.intents)
  at_intent k =
      find-update intent_id (settle_intent_row p w.clock) (settle_intent_row_id p w.clock) k i.id
        w.intents

  -- A payment that stands is not touched.
  kept_payment :
      (id : Uuid) → PaidBy id w.transactions → PaidBy id (settle_transaction p w).transactions
  kept_payment id b = record {
    key = b.key;
    row = b.row;
    found =
        ground
          (arith, at_row b.key, ==_iff p.transaction_id b.key, s.found, s.pending, b.found, b.done);
    of = b.of;
    done = b.done;
  }

  -- What a settled row is: one from before, or the row of this settlement.
  row_cases :
      (k : Uuid) (u : Transaction)
      → find_transaction k (settle_transaction p w).transactions ≡ some u
      → (find_transaction k w.transactions ≡ some u) ⊎ (u ≡ settle_row p w.clock t)
  row_cases k u h = elim (Bool-cases (p.transaction_id == k)) [
    | inl hit ↦ inr (ground (arith, at_row k, ==_iff p.transaction_id k, s.found))
    | inr miss ↦ inl (ground (arith, at_row k))
  ]

  pub settle_alone-Coupled :
      i.status ≡ p.new_intent_status → Kept Coupled w (settle_transaction p w)
  settle_alone-Coupled same h = record {
    settled = λ k u at done. elim (row_cases k u at) [
      | inl old ↦ h.settled k u old done
      | inr now ↦ (
        i,
        ap (λ u. find_intent u.intent_id w.intents) now
            ∙ ap (λ k. find_intent k w.intents) (settle_row_intent p w.clock t)
            ∙ s.of_intent,
        same
            ∙ (Settles-paid s.outcome s.legal).0
                (sym (settle_row_status p w.clock t) ∙ sym (ap (λ u. u.status) now) ∙ done),
      )
    ];
    paid = λ id j at paid. kept_payment id (h.paid id j at paid);
  }

  intent_cases :
      (k : Uuid) (j : PaymentIntent)
      → find_intent k (settle_intent p i (settle_transaction p w)).intents ≡ some j
      → (find_intent k w.intents ≡ some j)
        ⊎ ((k ≡ t.intent_id) × (j ≡ settle_intent_row p w.clock i))
  intent_cases k j h = elim (Bool-cases (i.id == k)) [
    | inl hit ↦ inr (
        ground (
          arith,
          at_intent k,
          ==_iff i.id k,
          s.of_intent,
          find_key intent_id t.intent_id w.intents i s.of_intent,
        ))
    | inr miss ↦ inl (ground (arith, at_intent k))
  ]

  pub settle_both-Coupled :
      i.status ≡ IntentStatus.processing
      → Kept Coupled w (settle_intent p i (settle_transaction p w))
  settle_both-Coupled processing h = record {
    settled = λ k u at done. elim (row_cases k u at) [
      | inl old ↦
          let (j, found, paid) = h.settled k u old done in
          (
            j,
            ground (
              arith,
              at_intent u.intent_id,
              ==_iff i.id u.intent_id,
              find_key intent_id t.intent_id w.intents i s.of_intent,
              s.of_intent,
              processing,
              found,
              paid,
            ),
            paid,
          )
      | inr now ↦ (
        settle_intent_row p w.clock i,
        ground (
          arith,
          at_intent u.intent_id,
          ==_iff i.id u.intent_id,
          find_key intent_id t.intent_id w.intents i s.of_intent,
          s.of_intent,
          now,
          settle_row_intent p w.clock t,
        ),
        settle_intent_row_status p w.clock i
            ∙ (Settles-paid s.outcome s.legal).0
                (sym (settle_row_status p w.clock t) ∙ sym (ap (λ u. u.status) now) ∙ done),
      )
    ];
    paid = λ k j at paid. elim (intent_cases k j at) [
      | inl old ↦ kept_payment k (h.paid k j old paid)
      | inr (here, now) ↦ record {
        key = p.transaction_id;
        row = settle_row p w.clock t;
        found =
            ground
              (arith, at_row p.transaction_id, ==_iff p.transaction_id p.transaction_id, s.found);
        of = settle_row_intent p w.clock t ∙ sym here;
        done =
            settle_row_status p w.clock t
            ∙ (Settles-paid s.outcome s.legal).1
                (sym (settle_intent_row_status p w.clock i) ∙ sym (ap (λ j. j.status) now) ∙ paid);
      }
    ];
  }
