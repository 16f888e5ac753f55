-- ===== src/Identity/Rotation/Laws.antt =====
-- A refresh token is good for one refresh, whatever calls come in between.
use motivra.Prelude.{◌≡◌, ap, ◌∙◌, true, not, List, [], some, nat_eq}
use motivra.Prelude.Text.{Text, text-Eq}
use motivra.Prelude.Exec.{err}
use motivra.Prelude.Exec.Runs.{
  Returns, bind-Returns, bind-runs, bind-fails, require-runs, require-fails, recode-runs,
  find_or_raise-runs,
}
use motivra.Identity.World.{
  Session, is_set, is_blank, invalid_refresh_token, IdentityError, IdentityWorld, failing,
  round_trip,
}
use motivra.Identity.Store.Sessions.{find_hash, get_session_by_refresh_hash}
use motivra.Identity.Issuer.{Issuer, AccessResponse, check_session, check_refresh, refresh}
use motivra.Identity.Service.{IdentityService}
use motivra.Identity.Service.Sessions.{refresh_tokens}
use motivra.Identity.Evolution.{Evolving}
use motivra.Identity.Evolution.Service.{audit-Calm}
use motivra.Identity.Evolution.Rules.{bind-Calm, pure-Calm}
use motivra.Identity.Evolution.History.{IdentityCall, identity_history, history-Evolving}
use motivra.Identity.Rotation.{run-Evolving, Spent, evolve-Spent}
use motivra.Identity.Rotation.Refresh.{refresh-Spent}

-- A database that answers.
pub trip-runs :
    (w : IdentityWorld) (e : IdentityError) → w.faults ≡ [] → Returns (round_trip e) w tt w
unfolding round_trip
trip-runs w e healthy = ap (λ fs. failing fs e w) healthy

get_session-runs :
    (hash : Text) (w : IdentityWorld) (s : Session)
    → w.faults ≡ []
    → find_hash hash w.sessions ≡ some s
    → Returns (get_session_by_refresh_hash hash) w s w
unfolding get_session_by_refresh_hash
get_session-runs hash w s healthy found =
    bind-runs _ _ w tt w (trip-runs w _ healthy) ∙ find_or_raise-runs _ _ w s found

revoked-fails :
    (i : Issuer) (s : Session) (w : IdentityWorld)
    → is_set s.revoked_at ≡ true
    → check_session i s w ≡ (err invalid_refresh_token, w)
unfolding check_session
revoked-fails i s w revoked = bind-fails _ _ w _ w (require-fails _ _ w (ap not revoked))

Spent-fails :
    (i : Issuer) (token : Text) (w : IdentityWorld)
    → w.faults ≡ []
    → not (is_blank token) ≡ true
    → Spent (i.token_hash token) w
    → check_refresh i token w ≡ (err invalid_refresh_token, w)
unfolding check_refresh
Spent-fails i token w healthy some_token spent =
    bind-runs _ _ w tt w (require-runs _ _ w some_token)
    ∙ bind-runs _ _ w spent.row w (
        recode-runs _ _ w spent.row w
          (get_session-runs (i.token_hash token) w spent.row healthy spent.found))
    ∙ revoked-fails i spent.row w spent.revoked

Spent-refresh_fails :
    (s : IdentityService) (token : Text) (w : IdentityWorld)
    → w.faults ≡ []
    → not (is_blank token) ≡ true
    → Spent (s.issuer.token_hash token) w
    → refresh_tokens s token w ≡ (err invalid_refresh_token, w)
unfolding refresh_tokens refresh
Spent-refresh_fails s token w healthy some_token spent =
    bind-fails _ _ w _ w
      (bind-fails _ _ w _ w (Spent-fails s.issuer token w healthy some_token spent))

refresh_tokens-Spent :
    (s : IdentityService) (token : Text) (w : IdentityWorld) (r : AccessResponse)
    (t : IdentityWorld)
    → Returns (refresh_tokens s token) w r t
    → (not (is_blank token) ≡ true) × Spent (s.issuer.token_hash token) t
unfolding refresh_tokens
refresh_tokens-Spent s token w r t run =
    let a = bind-Returns _ _ w r t run in
    let (some_token, spent) = refresh-Spent s.issuer token w a.value a.between a.first in
    let later : Evolving a.between t =
      run-Evolving _ a.between r t a.second
        (bind-Calm _ _ (audit-Calm _ _ _ _) (λ _. pure-Calm _)) in
    (some_token, evolve-Spent (s.issuer.token_hash token) a.between t later spent)

-- A refresh token that was used for a refresh is good for no other: after any history of calls, in a
-- state where the database answers, a refresh with it is refused as an invalid token and writes
-- nothing.
pub refreshed-refused :
    (s : IdentityService) (token : Text) (w : IdentityWorld) (r : AccessResponse)
    (t : IdentityWorld) (cs : List IdentityCall)
    → Returns (refresh_tokens s token) w r t
    → (identity_history s cs t).faults ≡ []
    → refresh_tokens s token (identity_history s cs t)
      ≡ (err invalid_refresh_token, identity_history s cs t)
refreshed-refused s token w r t cs run healthy =
    let (some_token, spent) = refresh_tokens-Spent s token w r t run in
    Spent-refresh_fails s token (identity_history s cs t) healthy some_token (
      evolve-Spent (s.issuer.token_hash token) t (identity_history s cs t) (history-Evolving s cs t)
        spent)
