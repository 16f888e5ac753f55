-- ===== src/Payments/Store/Keys.antt =====
-- The idempotency keys of `PostgresStore`.
use motivra.Prelude.{Bool, true, false, List, [], ◌∷◌, Option, none, some, if◌then◌else◌}
use motivra.Prelude.Text.{Text}
use motivra.Prelude.Exec.{◌>>=◌, ◌>>◌, gets, pure, check, modify}
use motivra.Prelude.Table.{find, update}
use motivra.Payments.Types.{database}
use motivra.Payments.World.{Action, ClaimKey, IdempotencyKey, claim_key-Eq, attempt}
use motivra.Payments.Store.Rows.{is_empty}

pub record ClaimResult : Type 0 where
  pub claimed : Bool
  pub existing_result : Text
  pub existing_payload_hash : Text

abbrev pub key_of : IdempotencyKey → ClaimKey
key_of k = k.key

abbrev pub find_key : ClaimKey → List IdempotencyKey → Option IdempotencyKey
find_key key rows = find key_of key rows

abbrev pub claim_found : ClaimKey → Text → Option IdempotencyKey → Action ClaimResult
claim_found key payload_hash none = do
  modify (λ w. record w {
    keys = record { key = key; payload_hash = payload_hash; result = [] } ∷ w.keys;
  })
  pure (record { claimed = true; existing_result = []; existing_payload_hash = [] })
claim_found key payload_hash (some k) = do
  attempt database
  pure (record {
    claimed = false;
    existing_result = k.result;
    existing_payload_hash = k.payload_hash;
  })

-- INSERT … ON CONFLICT DO NOTHING, and the read of the row that was there; the scope column is
-- always 'webhook', and the hash of a SHA-256 always passes its check.
unfoldable pub claim_idempotency_key : ClaimKey → Text → Action ClaimResult
claim_idempotency_key key payload_hash = do
  attempt database
  found ← gets (λ w. find_key key w.keys)
  claim_found key payload_hash found

-- `guard_payment_idempotency_key_update`: the one write of a result
abbrev pub result_trigger : Option IdempotencyKey → Text → Bool
result_trigger none result = true
result_trigger (some k) result =
    if is_empty k.result then (if is_empty result then false else true) else false

unfoldable pub complete_idempotency_key : ClaimKey → Text → Action (Unit {0})
complete_idempotency_key key result = do
  attempt database
  check (λ w. result_trigger (find_key key w.keys) result) database
  modify (λ w. record w { keys = update key_of key (λ k. record k { result = result }) w.keys })
