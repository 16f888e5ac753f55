-- ===== src/Identity/Rotation/Verification.antt =====
-- A verification token is good for one verification, whatever calls come in between.
use motivra.Prelude.{
  ℕ, ◌≡◌, refl, ap, ◌∙◌, Bool, true, false, not, List, [], some, ◌==◌, ==_iff, if◌then◌else◌,
  nat_eq,
}
use mathlib.Core.Option
use motivra.Prelude.Text.{Text, text-Eq}
use motivra.Prelude.Ascii.{trim_space}
use motivra.Prelude.Exec.{err}
use motivra.Prelude.Exec.Runs.{
  Returns, bind-Returns, bind-runs, bind-fails, require-runs, require-fails, require-Returns,
  recode-runs, recode-Returns, find_or_raise-runs, find_or_raise-Returns, check-Returns,
  gets-Returns, modify-Returns,
}
use motivra.Prelude.Table.{if_key, update, update-map, find-map}
use motivra.Identity.World.{
  Uuid, VerificationToken, VerificationChannel, is_set, is_blank, invalid_verification_token,
  IdentityWorld, database,
}
use motivra.Identity.Store.Tokens.{
  token_id, token_hash, find_token_hash, get_verification_token_by_hash, consume_at, verify_user,
  consume_verification_token,
}
use motivra.Identity.Store.Users.{user_id}
use motivra.Identity.Service.{IdentityService}
use motivra.Identity.Service.Verification.{verify}
use motivra.Identity.Evolution.{Evolving}
use motivra.Identity.Evolution.Store.{round_trip-Calm}
use motivra.Identity.Evolution.Service.{audit-Calm}
use motivra.Identity.Evolution.Rules.{bind-Calm, pure-Calm}
use motivra.Identity.Evolution.History.{IdentityCall, identity_history, history-Evolving}
use motivra.Identity.Rotation.{run-Evolving}
use motivra.Identity.Rotation.Laws.{trip-runs}

-- The token with the digest `hash` is consumed.
record Consumed (hash : Text) (w : IdentityWorld) : Type 0 where
  row : VerificationToken
  found : find_token_hash hash w.tokens ≡ some row
  consumed : is_set row.consumed_at ≡ true

evolve-Consumed :
    (hash : Text) (v w : IdentityWorld) → Evolving v w → Consumed hash v → Consumed hash w
evolve-Consumed hash v w e h =
    let (b, found, step) = e.token_hashes.row hash h.row h.found in
    record { row = b; found = found; consumed = step.final h.consumed }

get_token-runs :
    (hash : Text) (w : IdentityWorld) (t : VerificationToken)
    → w.faults ≡ []
    → find_token_hash hash w.tokens ≡ some t
    → Returns (get_verification_token_by_hash hash) w t w
unfolding get_verification_token_by_hash
get_token-runs hash w t healthy found =
    bind-runs _ _ w tt w (trip-runs w _ healthy) ∙ find_or_raise-runs _ _ w t found

Consumed-fails :
    (s : IdentityService) (raw : Text) (w : IdentityWorld)
    → w.faults ≡ []
    → not (is_blank (trim_space raw)) ≡ true
    → Consumed (s.issuer.token_hash (trim_space raw)) w
    → verify s raw w ≡ (err invalid_verification_token, w)
unfolding verify
Consumed-fails s raw w healthy some_token c =
    bind-runs _ _ w tt w (require-runs _ _ w some_token)
    ∙ bind-runs _ _ w c.row w (
        recode-runs _ _ w c.row w
          (get_token-runs (s.issuer.token_hash (trim_space raw)) w c.row healthy c.found))
    ∙ bind-fails _ _ w _ w (require-fails _ _ w (ap not c.consumed))

-- The token with the digest `hash` is `id`.
record Issued (hash : Text) (id : Uuid) (w : IdentityWorld) : Type 0 where
  row : VerificationToken
  found : find_token_hash hash w.tokens ≡ some row
  same : row.id ≡ id

evolve-Issued :
    (hash : Text) (id : Uuid) (v w : IdentityWorld)
    → Evolving v w
    → Issued hash id v
    → Issued hash id w
evolve-Issued hash id v w e h =
    let (b, found, step) = e.token_hashes.row hash h.row h.found in
    record { row = b; found = found; same = ap token_id step.kept ∙ h.same }

Consumed-row :
    (hash : Text) (id owner : Uuid) (channel : VerificationChannel) (at : ℕ) (w : IdentityWorld)
    → Issued hash id w
    → Consumed hash (record w {
      tokens = update token_id id (consume_at at) w.tokens;
      users = update user_id owner (verify_user channel at) w.users;
    })
Consumed-row hash id owner channel at w h = record {
  row = consume_at at h.row;
  found =
      ap (find_token_hash hash) (update-map token_id id (consume_at at) w.tokens)
      ∙ find-map token_hash g keeps hash w.tokens
      ∙ ap (Option.map g) h.found
      ∙ ap some (rw ((==_iff h.row.id id).1 h.same) refl);
  consumed = refl;
}
  where
    g : VerificationToken → VerificationToken
    g = if_key token_id id (consume_at at)

    keeps_if :
        (b : Bool) (t : VerificationToken)
        → token_hash (if b then consume_at at t else t) ≡ token_hash t
    keeps_if true t = refl
    keeps_if false t = refl

    keeps : (t : VerificationToken) → token_hash (g t) ≡ token_hash t
    keeps t = keeps_if (t.id == id) t

consume-Consumed :
    (hash : Text) (id owner : Uuid) (channel : VerificationChannel) (at : ℕ) (w : IdentityWorld)
    (u : Unit {0}) (t : IdentityWorld)
    → Issued hash id w
    → Returns (consume_verification_token id owner channel at) w u t
    → Consumed hash t
unfolding consume_verification_token
consume-Consumed hash id owner channel at w u t h r =
    let a = bind-Returns _ _ w u t r in
    let b = bind-Returns _ _ a.between u t a.second in
    let c = bind-Returns _ _ b.between u t b.second in
    let at_b : b.between ≡ a.between = (check-Returns _ _ a.between b.value b.between b.first).1 in
    let at_c : c.between ≡ b.between =
      (require-Returns _ _ b.between c.value c.between c.first).1 in
    let held : Issued hash id a.between =
      evolve-Issued hash id w a.between
        (run-Evolving _ w a.value a.between a.first (round_trip-Calm database)) h in
    rw (modify-Returns _ c.between u t c.second, at_c, at_b)
      (Consumed-row hash id owner channel at a.between held)

get_token-Returns :
    (hash : Text) (w : IdentityWorld) (x : VerificationToken) (t : IdentityWorld)
    → Returns (get_verification_token_by_hash hash) w x t
    → find_token_hash hash t.tokens ≡ some x
unfolding get_verification_token_by_hash
get_token-Returns hash w x t r =
    let a = bind-Returns _ _ w x t r in
    let f = find_or_raise-Returns _ _ a.between x t a.second in
    ap (λ v. find_token_hash hash v.tokens) f.1 ∙ f.0

verify-Consumed :
    (s : IdentityService) (raw : Text) (w : IdentityWorld) (channel : VerificationChannel)
    (t : IdentityWorld)
    → Returns (verify s raw) w channel t
    → (not (is_blank (trim_space raw)) ≡ true) × Consumed (s.issuer.token_hash (trim_space raw)) t
unfolding verify
verify-Consumed s raw w channel t run =
    let hash = s.issuer.token_hash (trim_space raw) in
    let a = bind-Returns _ _ w channel t run in
    let b = bind-Returns _ _ a.between channel t a.second in
    let c = bind-Returns _ _ b.between channel t b.second in
    let d = bind-Returns _ _ c.between channel t c.second in
    let e = bind-Returns _ _ d.between channel t d.second in
    let f = bind-Returns _ _ e.between channel t e.second in
    let issued : Issued hash b.value.id b.between = record {
      row = b.value;
      found =
          get_token-Returns hash a.between b.value b.between
            (recode-Returns _ _ a.between b.value b.between b.first);
      same = refl;
    } in
    let at_e : e.between ≡ b.between =
      (gets-Returns _ d.between e.value e.between e.first).1
      ∙ (check-Returns _ _ c.between d.value d.between d.first).1
      ∙ (require-Returns _ _ b.between c.value c.between c.first).1 in
    let done : Consumed hash f.between =
      consume-Consumed hash b.value.id b.value.user_id b.value.channel e.value e.between f.value
        f.between (rw at_e issued) (recode-Returns _ _ e.between f.value f.between f.first) in
    let later : Evolving f.between t =
      run-Evolving _ f.between channel t f.second
        (bind-Calm _ _ (audit-Calm _ _ _ _) (λ _. pure-Calm _)) in
    (
      (require-Returns _ _ w a.value a.between a.first).0,
      evolve-Consumed hash f.between t later done,
    )

-- A verification token that was accepted is accepted no second time: after any history of calls, in a
-- state where the database answers, it is refused as invalid and nothing is written.
pub verified-refused :
    (s : IdentityService) (raw : Text) (w : IdentityWorld) (channel : VerificationChannel)
    (t : IdentityWorld) (cs : List IdentityCall)
    → Returns (verify s raw) w channel t
    → (identity_history s cs t).faults ≡ []
    → verify s raw (identity_history s cs t)
      ≡ (err invalid_verification_token, identity_history s cs t)
verified-refused s raw w channel t cs run healthy =
    let (some_token, c) = verify-Consumed s raw w channel t run in
    Consumed-fails s raw (identity_history s cs t) healthy some_token (
      evolve-Consumed (s.issuer.token_hash (trim_space raw)) t (identity_history s cs t)
        (history-Evolving s cs t) c)
