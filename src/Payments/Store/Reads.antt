-- ===== src/Payments/Store/Reads.antt =====
-- The reads of `PostgresStore`, each under a scope or internal.
use motivra.Prelude.{
  ℕ, Bool, true, not, ◌&&◌, ◌||◌, List, [], ◌∷◌, Option, none, some, ◌==◌, ltb, leb, take,
  if◌then◌else◌, nat_eq,
}
use motivra.Prelude.Text.{Text, text_eq}
use motivra.Prelude.Exec.{require, ◌>>◌, gets, find_or_raise}
use motivra.Prelude.Table.{find}
use motivra.Payments.Status.{IntentStatus, TransactionStatus, intent_eq, transaction_eq}
use motivra.Payments.Types.{
  Uuid, Instant, PaymentIntent, Transaction, Refund, intent_not_found, transaction_not_found,
  refund_not_found, database,
}
use motivra.Payments.Scope.{arguments_fit, Scope, scope_predicate, unrestricted}
use motivra.Payments.World.{Action, attempt}
use motivra.Payments.Store.Rows.{is_empty}

abbrev pub intent_id : PaymentIntent → Uuid
intent_id i = i.id

abbrev pub transaction_id : Transaction → Uuid
transaction_id t = t.id

abbrev pub refund_id : Refund → Uuid
refund_id r = r.id

abbrev pub find_intent : Uuid → List PaymentIntent → Option PaymentIntent
find_intent = find intent_id

abbrev pub find_transaction : Uuid → List Transaction → Option Transaction
find_transaction = find transaction_id

abbrev pub find_refund : Uuid → List Refund → Option Refund
find_refund = find refund_id

unfoldable pub visible : Scope → PaymentIntent → Bool
visible scope i = scope_predicate scope i.tenant_id i.created_by i.customer_id

-- A row outside the scope reads as a missing one.
unfoldable pub scoped_intent : Scope → Option PaymentIntent → Option PaymentIntent
scoped_intent scope none = none
scoped_intent scope (some i) = if visible scope i then some i else none

unfoldable pub get_intent : Uuid → Scope → Action PaymentIntent
unfolding scoped_intent arguments_fit
get_intent id scope = do
  attempt database
  require (arguments_fit scope) database
  find_or_raise (λ w. scoped_intent scope (find_intent id w.intents)) intent_not_found

-- EXISTS (SELECT 1 FROM payment_intents i WHERE i.id = … AND <scope>), skipped when unrestricted
unfoldable pub intent_visible : Scope → Option PaymentIntent → Bool
intent_visible scope none = unrestricted scope
intent_visible scope (some i) = unrestricted scope || visible scope i

unfoldable pub scoped_transaction :
    Scope → List PaymentIntent → Option Transaction → Option Transaction
scoped_transaction scope intents none = none
scoped_transaction scope intents (some t) =
    if intent_visible scope (find_intent t.intent_id intents) then some t else none

unfoldable pub get_transaction : Uuid → Scope → Action Transaction
unfolding scoped_transaction arguments_fit
get_transaction id scope = do
  attempt database
  require (arguments_fit scope) database
  find_or_raise (λ w. scoped_transaction scope w.intents (find_transaction id w.transactions))
      transaction_not_found

-- WHERE provider = $1 AND provider_ref = $2, which no NULL satisfies
unfoldable pub find_by_ref : Text → Text → List Transaction → Option Transaction
find_by_ref provider ref [] = none
find_by_ref provider ref (t ∷ ts) =
    let rest = find_by_ref provider ref ts in
    if not (is_empty t.provider_ref) && (text_eq t.provider provider && text_eq t.provider_ref ref)
    then some t
    else rest

unfoldable pub get_transaction_by_provider_ref : Text → Text → Action Transaction
get_transaction_by_provider_ref provider ref = do
  attempt database
  find_or_raise (λ w. find_by_ref provider ref w.transactions) transaction_not_found

unfoldable pub scoped_refund : Scope → List PaymentIntent → Option Refund → Option Refund
scoped_refund scope intents none = none
scoped_refund scope intents (some r) =
    if intent_visible scope (find_intent r.intent_id intents) then some r else none

unfoldable pub get_refund : Uuid → Scope → Action Refund
unfolding scoped_refund arguments_fit
get_refund id scope = do
  attempt database
  require (arguments_fit scope) database
  find_or_raise (λ w. scoped_refund scope w.intents (find_refund id w.refunds)) refund_not_found

-- (created_at, id) of `a` above that of `b`
abbrev pub newer : Instant → Uuid → Instant → Uuid → Bool
newer at a at' b = ltb at' at || (at == at' && ltb b a)

abbrev pick_newer : Refund → Option Refund → Option Refund
pick_newer r none = some r
pick_newer r (some q) = if newer q.created_at q.id r.created_at r.id then some q else some r

-- WHERE intent_id = $1 ORDER BY created_at DESC, id DESC LIMIT 1
unfoldable pub newest_refund : Uuid → List Refund → Option Refund
newest_refund id [] = none
newest_refund id (r ∷ rs) =
    let rest = newest_refund id rs in if r.intent_id == id then pick_newer r rest else rest

unfoldable pub latest_refund_for_intent : Uuid → Scope → Action Refund
unfolding scoped_refund arguments_fit
latest_refund_for_intent id scope = do
  attempt database
  require (arguments_fit scope) database
  find_or_raise (λ w. scoped_refund scope w.intents (newest_refund id w.refunds)) refund_not_found

pub record StaleIntent : Type 0 where
  pub intent : PaymentIntent
  pub transaction : Transaction

-- DISTINCT ON (intent_id) … ORDER BY intent_id, created_at DESC, id DESC
unfoldable pub is_newest : Transaction → List Transaction → Bool
is_newest t [] = true
is_newest t (u ∷ us) =
    let rest = is_newest t us in
    not (u.intent_id == t.intent_id && newer u.created_at u.id t.created_at t.id) && rest

abbrev stale_test : Instant → List Transaction → PaymentIntent → Transaction → Bool
stale_test older_than all i t =
    intent_eq i.status IntentStatus.processing
    && (transaction_eq t.status TransactionStatus.pending
        && (ltb t.created_at older_than && is_newest t all))

abbrev stale_with :
    Instant
    → List Transaction
    → Transaction
    → Option PaymentIntent
    → List StaleIntent
    → List StaleIntent
stale_with older_than all t none rest = rest
stale_with older_than all t (some i) rest =
    if stale_test older_than all i t then record { intent = i; transaction = t } ∷ rest else rest

unfoldable pub stale_rows :
    Instant → List PaymentIntent → List Transaction → List Transaction → List StaleIntent
stale_rows older_than intents all [] = []
stale_rows older_than intents all (t ∷ ts) =
    stale_with older_than all t (find_intent t.intent_id intents)
      (stale_rows older_than intents all ts)

-- ORDER BY payment_transactions.created_at ASC
unfoldable pub insert_by_age : StaleIntent → List StaleIntent → List StaleIntent
insert_by_age s [] = s ∷ []
insert_by_age s (x ∷ xs) =
    let rest = insert_by_age s xs in
    if leb s.transaction.created_at x.transaction.created_at then s ∷ x ∷ xs else x ∷ rest

unfoldable pub sort_by_age : List StaleIntent → List StaleIntent
sort_by_age [] = []
sort_by_age (s ∷ ss) = insert_by_age s (sort_by_age ss)

abbrev pub default_list_limit : ℕ
default_list_limit = 50

unfoldable pub list_stale_intents : Instant → ℕ → Action (List StaleIntent)
unfolding stale_rows sort_by_age
list_stale_intents older_than limit = do
  attempt database
  gets (λ w.
      take (if limit == 0 then default_list_limit else limit)
        (sort_by_age (stale_rows older_than w.intents w.transactions w.transactions)))
