-- ===== src/Payments/Redelivery/Keys.antt =====
-- What a claim and a completion that returned leave under the key.
use motivra.Prelude.{
  ◌≡◌, refl, ap, ◌∙◌, Bool, true, false, List, [], ◌∷◌, Option, none, some, arith,
}
use motivra.Prelude.Text.{Text}
use motivra.Prelude.Table.{find-cons, find-update}
use motivra.Prelude.Exec.{ok}
use motivra.Prelude.Exec.Runs.{Returns, bind-Returns, pure-Returns, check-Returns, modify-Returns}
use motivra.Payments.Types.{Error}
use motivra.Payments.World.{
  World, ClaimKey, IdempotencyKey, claim_key-Eq, key_eq_iff, failing, attempt,
}
use motivra.Payments.Store.Keys.{
  ClaimResult, key_of, find_key, claim_found, claim_idempotency_key, complete_idempotency_key,
}

-- A round trip that worked has only used up a fault.
pub attempt-Returns :
    (e : Error) (w : World) (u : Unit {0}) (t : World)
    → Returns (attempt e) w u t
    → t ≡ record w { faults = t.faults }
unfolding attempt
attempt-Returns e w u t h = go w.faults refl h
  where
    go :
        (fs : List Bool)
        → w.faults ≡ fs
        → failing fs e w ≡ (ok u, t)
        → t ≡ record w { faults = t.faults }
    go [] q h = ground (arith, q, h)
    go (true ∷ fs) q h = ground (arith, h)
    go (false ∷ fs) q h = ground (arith, h)

claim_found-Returns :
    (key : ClaimKey) (hash : Text) (found : Option IdempotencyKey) (w : World) (c : ClaimResult)
    (t : World)
    → Returns (claim_found key hash found) w c t
    → c.claimed ≡ true
    → (k : IdempotencyKey) × (find_key key t.keys ≡ some k) × (k.payload_hash ≡ hash)
claim_found-Returns key hash none w c t h claimed =
    let b = bind-Returns _ _ w c t h in
    let wrote = modify-Returns _ w b.value b.between b.first in
    let (_, same) = pure-Returns _ b.between c t b.second in
    (
      record { key = key; payload_hash = hash; result = [] },
      ap (λ t. find_key key t.keys) (same ∙ wrote)
          ∙ ground (
            arith,
            find-cons key_of key (record { key = key; payload_hash = hash; result = [] }) w.keys,
            key_eq_iff key key,
          ),
      refl,
    )
claim_found-Returns key hash (some k) w c t h claimed =
    let b = bind-Returns _ _ w c t h in
    let (unclaimed, _) = pure-Returns _ b.between c t b.second in
    ground (arith, claimed, ap (λ c. c.claimed) unclaimed)

-- A claim that was won leaves a key with the hash of the body.
pub claim-Returns :
    (key : ClaimKey) (hash : Text) (w : World) (c : ClaimResult) (t : World)
    → Returns (claim_idempotency_key key hash) w c t
    → c.claimed ≡ true
    → (k : IdempotencyKey) × (find_key key t.keys ≡ some k) × (k.payload_hash ≡ hash)
unfolding claim_idempotency_key
claim-Returns key hash w c t h claimed =
    let a = bind-Returns _ _ w c t h in
    let b = bind-Returns _ _ a.between c t a.second in
    claim_found-Returns key hash b.value b.between c t b.second claimed

-- A completion that worked has written the result.
pub complete-Returns :
    (key : ClaimKey) (result : Text) (w : World) (u : Unit {0}) (t : World) (k : IdempotencyKey)
    → Returns (complete_idempotency_key key result) w u t
    → find_key key w.keys ≡ some k
    → find_key key t.keys ≡ some (record k { result = result })
unfolding complete_idempotency_key
complete-Returns key result w u t k h found =
    let a = bind-Returns _ _ w u t h in
    let b = bind-Returns _ _ a.between u t a.second in
    let (_, same) = check-Returns _ _ a.between b.value b.between b.first in
    let wrote = modify-Returns _ b.between u t b.second in
    let before =
      ap (λ w. w.keys) same ∙ ap (λ w. w.keys) (attempt-Returns _ w a.value a.between a.first) in
    ap (λ w. find_key key w.keys) wrote
    ∙ ground (
      arith,
      find-update key_of (λ k. record k { result = result }) (λ k. refl) key key b.between.keys,
      key_eq_iff key key,
      ap (find_key key) before,
      found,
    )
