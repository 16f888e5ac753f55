-- ===== src/Identity/Evolution/History.antt =====
-- The identity tables over any history of calls.
use motivra.Prelude.{ℕ, Bool, List, [], ◌∷◌, Option, refl}
use motivra.Prelude.Int.{ℤ}
use motivra.Prelude.Text.{Text}
use motivra.Identity.Roles.{Role}
use motivra.Identity.World.{Uuid, VerificationChannel, IdentityWorld}
use motivra.Identity.Service.{IdentityService}
use motivra.Identity.Service.Accounts
use motivra.Identity.Service.Sessions
use motivra.Identity.Service.Verification
use motivra.Identity.Evolution.{Evolving, evolving}
use motivra.Identity.Evolution.Store.{same-Evolving}
use motivra.Identity.Evolution.Operations.{
  verify-Calm, resend_verification-Calm, register-Calm, login-Calm, change_password-Calm,
  grant_role-Calm, refresh_tokens-Calm, logout-Calm, logout_by_refresh_token-Calm,
  revoke_own_session-Calm, revoke_all_sessions-Calm, profile-Calm, list_users_for_admin-Calm,
  list_sessions-Calm,
}

-- A call of the service, or what happens outside: the clock moves to any time, and what the coming
-- database calls and random draws will give is set anew.
pub data IdentityCall : Type 0 where
  outside : ℕ → List Bool → List Text → IdentityCall
  register : Text → Text → Text → Text → Text → Text → IdentityCall
  login : Text → Text → Text → Text → IdentityCall
  change_password : Uuid → Text → Text → IdentityCall
  profile : Uuid → IdentityCall
  list_users : Uuid → Option Uuid → ℤ → ℤ → IdentityCall
  grant_role : Uuid → Role → Option Uuid → Uuid → IdentityCall
  refresh : Text → IdentityCall
  logout : Uuid → Uuid → IdentityCall
  logout_by_token : Text → Uuid → IdentityCall
  list_sessions : Uuid → IdentityCall
  revoke_session : Uuid → Uuid → Uuid → IdentityCall
  revoke_all : Uuid → Uuid → IdentityCall
  verify : Text → IdentityCall
  resend : Text → VerificationChannel → IdentityCall

-- The world after a call, whether it returned or failed.
unfoldable pub identity_call : IdentityService → IdentityCall → IdentityWorld → IdentityWorld
identity_call s (outside now fs ds) w = record w { clock = now; faults = fs; draws = ds }
identity_call s (register email phone password name device ip) w =
    (Accounts.register s email phone password name device ip w).1
identity_call s (login email password device ip) w = (Accounts.login s email password device ip w).1
identity_call s (change_password id current next) w =
    (Accounts.change_password s id current next w).1
identity_call s (profile id) w = (Accounts.profile id w).1
identity_call s (list_users actor tenant limit offset) w =
    (Accounts.list_users_for_admin actor tenant limit offset w).1
identity_call s (grant_role id role tenant actor) w =
    (Accounts.grant_role s id role tenant actor w).1
identity_call s (refresh token) w = (Sessions.refresh_tokens s token w).1
identity_call s (logout id actor) w = (Sessions.logout s id actor w).1
identity_call s (logout_by_token token actor) w =
    (Sessions.logout_by_refresh_token s token actor w).1
identity_call s (list_sessions id) w = (Sessions.list_sessions id w).1
identity_call s (revoke_session user id actor) w = (Sessions.revoke_own_session s user id actor w).1
identity_call s (revoke_all user actor) w = (Sessions.revoke_all_sessions user actor w).1
identity_call s (verify token) w = (Verification.verify s token w).1
identity_call s (resend email channel) w = (Verification.resend_verification s email channel w).1

unfoldable pub identity_history :
    IdentityService → List IdentityCall → IdentityWorld → IdentityWorld
identity_history s [] w = w
identity_history s (c ∷ cs) w = identity_history s cs (identity_call s c w)

call-Evolving :
    (s : IdentityService) (c : IdentityCall) (w : IdentityWorld) → Evolving w (identity_call s c w)
unfolding identity_call
call-Evolving s (outside now fs ds) w = same-Evolving w _ refl refl refl ([], refl)
call-Evolving s (register email phone password name device ip) w =
    (register-Calm s email phone password name device ip).at w tt
call-Evolving s (login email password device ip) w = (login-Calm s email password device ip).at w tt
call-Evolving s (change_password id current next) w =
    (change_password-Calm s id current next).at w tt
call-Evolving s (profile id) w = (profile-Calm id).at w tt
call-Evolving s (list_users actor tenant limit offset) w =
    (list_users_for_admin-Calm actor tenant limit offset).at w tt
call-Evolving s (grant_role id role tenant actor) w =
    (grant_role-Calm s id role tenant actor).at w tt
call-Evolving s (refresh token) w = (refresh_tokens-Calm s token).at w tt
call-Evolving s (logout id actor) w = (logout-Calm s id actor).at w tt
call-Evolving s (logout_by_token token actor) w =
    (logout_by_refresh_token-Calm s token actor).at w tt
call-Evolving s (list_sessions id) w = (list_sessions-Calm id).at w tt
call-Evolving s (revoke_session user id actor) w = (revoke_own_session-Calm s user id actor).at w tt
call-Evolving s (revoke_all user actor) w = (revoke_all_sessions-Calm user actor).at w tt
call-Evolving s (verify token) w = (verify-Calm s token).at w tt
call-Evolving s (resend email channel) w = (resend_verification-Calm s email channel).at w tt

-- Every history of calls lets the tables evolve.
pub history-Evolving :
    (s : IdentityService) (cs : List IdentityCall) (w : IdentityWorld)
    → Evolving w (identity_history s cs w)
unfolding identity_history
history-Evolving s [] w = evolving.same w
history-Evolving s (c ∷ cs) w =
    evolving.chain _ _ _ (call-Evolving s c w) (history-Evolving s cs (identity_call s c w))
