-- ===== src/Identity/Evolution/Operations.antt =====
-- Every operation of the identity service lets the tables evolve.
use motivra.Prelude.{Bool, Option, none, some}
use motivra.Prelude.Int.{ℤ}
use motivra.Prelude.Text.{Text}
use motivra.Identity.Roles.{Role}
use motivra.Identity.World.{Uuid, User, VerificationChannel}
use motivra.Identity.Evolution.Store.{
  Calm, fresh_id-Calm, random_bytes-Calm, insert_audit-Calm, get_user-Calm, get_user_by_email-Calm,
  list_users-Calm, get_session_by_refresh_hash-Calm, get_session_by_id-Calm,
  list_user_sessions-Calm, get_verification_token_by_hash-Calm, verification_token_stats-Calm,
}
use motivra.Identity.Evolution.Writes.{
  revoke_session-Calm, revoke_user_sessions-Calm, create_verification_token-Calm,
  consume_verification_token-Calm,
}
use motivra.Identity.Evolution.Users.{create_user-Calm, assign_role-Calm, update_password-Calm}
use motivra.Identity.Evolution.Rules.{calls, pure-Calm, lift-Calm, if-Calm}
use motivra.Identity.Evolution.Service.{
  new_opaque_token-Calm, issue-Calm, refresh-Calm, audit-Calm, publish-Calm,
  check_password_breach-Calm, audit_breach_note-Calm,
}
use motivra.Identity.Password.{KeyDerivation, hash_password, password_result}
use motivra.Identity.Issuer.{revoke}
use motivra.Identity.Service.{IdentityService, note_breach}
use motivra.Identity.Service.Verification.{
  issue_verification_token, verify, resend_to, resend_found, resend_verification,
}
use motivra.Identity.Service.Accounts.{
  issue_channel, register_trimmed, register, login, set_password, change_password, profile,
  list_accounts, list_users_for_admin, grant_role,
}
use motivra.Identity.Service.Sessions.{
  refresh_tokens, logout, logout_by_refresh_token, list_sessions, revoke_own_session,
  revoke_all_sessions,
}

hash_password-Calm :
    (id_key : KeyDerivation) (password : Text) → Calm (hash_password id_key password)
unfolding hash_password
hash_password-Calm id_key password = search (calls, random_bytes-Calm) depth 30

password_result-Calm : (o : Option Bool) → Calm (password_result o)
password_result-Calm none = lift-Calm _
password_result-Calm (some b) = pure-Calm b

note_breach-Calm : (noted : Bool) (id : Uuid) → Calm (note_breach noted id)
note_breach-Calm noted id = if-Calm noted _ _ (audit_breach_note-Calm id) (pure-Calm tt)

module _ (s : IdentityService) where
  issue_verification_token-Calm :
      (id : Uuid) (channel : VerificationChannel) (resent : Bool)
      → Calm (issue_verification_token s id channel resent)
  unfolding issue_verification_token
  issue_verification_token-Calm id channel resent =
      search
        (calls, new_opaque_token-Calm, fresh_id-Calm, create_verification_token-Calm, audit-Calm)
        depth 40

  pub verify-Calm : (token : Text) → Calm (verify s token)
  unfolding verify
  verify-Calm token =
      search
        (calls, get_verification_token_by_hash-Calm, consume_verification_token-Calm, audit-Calm)
        depth 40

  resend_to-Calm : (u : User) (channel : VerificationChannel) → Calm (resend_to s u channel)
  unfolding resend_to
  resend_to-Calm u channel =
      search (calls, verification_token_stats-Calm, issue_verification_token-Calm) depth 40

  resend_found-Calm :
      (u : Option User) (channel : VerificationChannel) → Calm (resend_found s u channel)
  resend_found-Calm none channel = pure-Calm _
  resend_found-Calm (some u) channel = if-Calm _ _ _ (pure-Calm _) (resend_to-Calm u channel)

  pub resend_verification-Calm :
      (email : Text) (channel : VerificationChannel) → Calm (resend_verification s email channel)
  unfolding resend_verification
  resend_verification-Calm email channel =
      search (calls, get_user_by_email-Calm, resend_found-Calm) depth 40

  issue_channel-Calm :
      (id : Uuid) (channel : VerificationChannel) → Calm (issue_channel s id channel)
  unfolding issue_channel
  issue_channel-Calm id channel = search (calls, issue_verification_token-Calm) depth 40

  register_trimmed-Calm :
      (email phone password name device ip : Text)
      → Calm (register_trimmed s email phone password name device ip)
  unfolding register_trimmed
  register_trimmed-Calm email phone password name device ip =
      search
        (
          calls, check_password_breach-Calm, hash_password-Calm, fresh_id-Calm, create_user-Calm,
          note_breach-Calm, issue-Calm, audit-Calm, issue_channel-Calm, publish-Calm,
        )
        depth 60 fits 5000

  pub register-Calm :
      (email phone password name device ip : Text)
      → Calm (register s email phone password name device ip)
  unfolding register
  register-Calm email phone password name device ip = register_trimmed-Calm _ _ _ _ _ _

  pub login-Calm : (email password device ip : Text) → Calm (login s email password device ip)
  unfolding login
  login-Calm email password device ip =
      search (calls, get_user_by_email-Calm, password_result-Calm, issue-Calm, audit-Calm) depth 40

  set_password-Calm : (id : Uuid) (password : Text) → Calm (set_password s id password)
  unfolding set_password
  set_password-Calm id password =
      search
        (
          calls, check_password_breach-Calm, note_breach-Calm, hash_password-Calm,
          update_password-Calm, revoke_user_sessions-Calm, audit-Calm,
        )
        depth 40 fits 5000

  pub change_password-Calm :
      (id : Uuid) (current next : Text) → Calm (change_password s id current next)
  unfolding change_password
  change_password-Calm id current next =
      search (calls, get_user-Calm, password_result-Calm, set_password-Calm) depth 40

  pub grant_role-Calm :
      (id : Uuid) (role : Role) (tenant_id : Option Uuid) (actor : Uuid)
      → Calm (grant_role s id role tenant_id actor)
  unfolding grant_role
  grant_role-Calm id role tenant_id actor =
      search (calls, assign_role-Calm, audit-Calm, publish-Calm) depth 40

  pub refresh_tokens-Calm : (token : Text) → Calm (refresh_tokens s token)
  unfolding refresh_tokens
  refresh_tokens-Calm token = search (calls, refresh-Calm, audit-Calm) depth 40

  pub logout-Calm : (id actor : Uuid) → Calm (logout s id actor)
  unfolding logout revoke
  logout-Calm id actor = search (calls, revoke_session-Calm, audit-Calm) depth 40

  pub logout_by_refresh_token-Calm :
      (token : Text) (actor : Uuid) → Calm (logout_by_refresh_token s token actor)
  unfolding logout_by_refresh_token
  logout_by_refresh_token-Calm token actor =
      search (calls, get_session_by_refresh_hash-Calm, revoke_session-Calm, audit-Calm) depth 40

  pub revoke_own_session-Calm : (user id actor : Uuid) → Calm (revoke_own_session s user id actor)
  unfolding revoke_own_session
  revoke_own_session-Calm user id actor =
      search (calls, get_session_by_id-Calm, revoke_session-Calm, audit-Calm) depth 40

pub revoke_all_sessions-Calm : (user actor : Uuid) → Calm (revoke_all_sessions user actor)
unfolding revoke_all_sessions
revoke_all_sessions-Calm user actor = search (calls, revoke_user_sessions-Calm, audit-Calm) depth 40

pub profile-Calm : (id : Uuid) → Calm (profile id)
unfolding profile
profile-Calm id = search (calls, get_user-Calm) depth 40

list_accounts-Calm : (limit offset : ℤ) → Calm (list_accounts limit offset)
unfolding list_accounts
list_accounts-Calm limit offset = search (calls, list_users-Calm) depth 40

pub list_users_for_admin-Calm :
    (actor : Uuid) (tenant_id : Option Uuid) (limit offset : ℤ)
    → Calm (list_users_for_admin actor tenant_id limit offset)
unfolding list_users_for_admin
list_users_for_admin-Calm actor tenant_id limit offset =
    search (calls, list_accounts-Calm, insert_audit-Calm) depth 40

pub list_sessions-Calm : (id : Uuid) → Calm (list_sessions id)
unfolding list_sessions
list_sessions-Calm id = search (calls, list_user_sessions-Calm) depth 40
