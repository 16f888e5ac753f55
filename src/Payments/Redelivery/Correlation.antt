-- ===== src/Payments/Redelivery/Correlation.antt =====
-- The transaction that a provider's reference names stays the same.
use mathlib.Core.Option
use motivra.Prelude.{
  ℕ, ◌≡◌, refl, Bool, true, false, List, [], ◌∷◌, some, arith, ◌==◌, if◌then◌else◌, nat_eq,
}
use motivra.Prelude.Text.{Text, text_eq_iff}
use motivra.Prelude.Table.{update}
use motivra.Payments.Status.{TransactionStatus}
use motivra.Payments.Types.{Uuid, Transaction}
use motivra.Payments.World.{World}
use motivra.Payments.Store.Rows.{is_empty, holds_ref, free_ref}
use motivra.Payments.Store.Reads.{transaction_id, find_by_ref}
use motivra.Payments.Store.Settlement.{
  ApplyOutcomeParams, settle_row, settle_transaction, settle_intent,
}
use motivra.Payments.Calls.Writes.{WriteLaws}

-- The columns that a delivery is checked against.
pub record SameAttempt (a b : Transaction) : Type 0 where
  pub id : b.id ≡ a.id
  pub intent : b.intent_id ≡ a.intent_id
  pub provider : b.provider ≡ a.provider
  pub amount : b.amount_minor ≡ a.amount_minor
  pub currency : b.currency ≡ a.currency

SameAttempt-refl : (a : Transaction) → SameAttempt a a
SameAttempt-refl a = ground arith

SameAttempt-trans : (a b c : Transaction) → SameAttempt a b → SameAttempt b c → SameAttempt a c
SameAttempt-trans a b c p q = ground arith

pub record Correlates (v w : World) : Type 0 where
  pub same :
      (provider ref : Text) (a : Transaction)
      → find_by_ref provider ref v.transactions ≡ some a
      → (b : Transaction) × (find_by_ref provider ref w.transactions ≡ some b) × SameAttempt a b

find_by_ref-holds :
    (provider ref : Text) (ts : List Transaction) (a : Transaction)
    → find_by_ref provider ref ts ≡ some a
    → (holds_ref provider ref ts ≡ true) × (is_empty ref ≡ false)
unfolding find_by_ref holds_ref
find_by_ref-holds provider ref [] a h = ground (arith, h)
find_by_ref-holds provider ref (t ∷ ts) a h =
    ground (arith, h, find_by_ref-holds provider ref ts a, text_eq_iff t.provider_ref ref)

-- A new row with the same provider and reference would break the unique index.
find_by_ref-new :
    (provider ref : Text) (t a : Transaction) (ts : List Transaction)
    → free_ref t.provider t.provider_ref ts ≡ true
    → find_by_ref provider ref ts ≡ some a
    → find_by_ref provider ref (t ∷ ts) ≡ some a
unfolding find_by_ref free_ref
find_by_ref-new provider ref t a ts free h = ground (
  arith,
  free,
  h,
  find_by_ref-holds provider ref ts a h,
  text_eq_iff t.provider_ref ref,
  text_eq_iff t.provider provider,
)

find_by_ref-update :
    (f : Transaction → Transaction) (k : Uuid) (provider ref : Text) (ts : List Transaction)
    → ((t : Transaction) → (f t).provider ≡ t.provider)
    → ((t : Transaction) → (f t).provider_ref ≡ t.provider_ref)
    → find_by_ref provider ref (update transaction_id k f ts)
      ≡ Option.map (λ t. if t.id == k then f t else t) (find_by_ref provider ref ts)
unfolding find_by_ref update
find_by_ref-update f k provider ref [] p q = refl
find_by_ref-update f k provider ref (t ∷ ts) p q =
    ground (arith, p t, q t, find_by_ref-update f k provider ref ts p q)

Correlates-refl : (v : World) → Correlates v v
Correlates-refl v = record { same = λ p r a h. (a, h, SameAttempt-refl a) }

pub Correlates-trans : (u v w : World) → Correlates u v → Correlates v w → Correlates u w
Correlates-trans u v w f g = record {
  same = λ p r a h.
      let (b, hb, ab) = f.same p r a h in
      let (c, hc, bc) = g.same p r b hb in (c, hc, SameAttempt-trans a b c ab bc);
}

same-Correlates : (v w : World) → v.transactions ≡ w.transactions → Correlates v w
same-Correlates v w e = record { same = λ p r a h. (a, rw e at h, SameAttempt-refl a) }

insert-Correlates :
    (t : Transaction) (w : World)
    → free_ref t.provider t.provider_ref w.transactions ≡ true
    → Correlates w (record w { transactions = t ∷ w.transactions })
insert-Correlates t w free = record {
  same = λ p r a h. (a, find_by_ref-new p r t a w.transactions free h, SameAttempt-refl a);
}

settle_row-SameAttempt :
    (q : ApplyOutcomeParams) (now : ℕ) (a : Transaction) (b : Bool)
    → SameAttempt a (if b then settle_row q now a else a)
unfolding settle_row
settle_row-SameAttempt q now a true = record {
  id = refl;
  intent = refl;
  provider = refl;
  amount = refl;
  currency = refl;
}
settle_row-SameAttempt q now a false = SameAttempt-refl a

settle-Correlates : (q : ApplyOutcomeParams) (w : World) → Correlates w (settle_transaction q w)
unfolding settle_row
settle-Correlates q w = record {
  same = λ p r a h. (
    if a.id == q.transaction_id then settle_row q w.clock a else a,
    ground (
      arith,
      find_by_ref-update (settle_row q w.clock) q.transaction_id p r w.transactions (λ t. refl)
          (λ t. refl),
      h,
    ),
    settle_row-SameAttempt q w.clock a (a.id == q.transaction_id),
  );
}

pub Correlates-WriteLaws : {Accepted : TransactionStatus → Type 0} → WriteLaws Correlates Accepted
Correlates-WriteLaws = record {
  order = record { same = Correlates-refl; chain = Correlates-trans };
  time = λ n w. same-Correlates w _ refl;
  environment = λ fs n w. same-Correlates w _ refl;
  sent = λ e w. same-Correlates w _ refl;
  insert_intent = λ i w _ _. same-Correlates w _ refl;
  start_intent = λ id to actor reason i w _ _ _. same-Correlates w _ refl;
  insert_transaction = λ t w _ _ free. insert-Correlates t w free;
  settle_alone = λ p t i w _ _. settle-Correlates p w;
  settle_both = λ p t i w _ _.
      Correlates-trans w (settle_transaction p w) _ (settle-Correlates p w) (
        same-Correlates (settle_transaction p w) (settle_intent p i (settle_transaction p w)) refl);
  insert_refund = λ r w _. same-Correlates w _ refl;
  settle_refund = λ id to ref reason r w _ _. same-Correlates w _ refl;
  insert_key = λ k w _. same-Correlates w _ refl;
  complete_key = λ key result w _. same-Correlates w _ refl;
}
