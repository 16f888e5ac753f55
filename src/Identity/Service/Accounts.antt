-- ===== src/Identity/Service/Accounts.antt =====
-- The account operations of backend/identity/service.go and audit.go: registration, login, the change
-- of a password, profiles, listings and role grants. A limit or an offset of 0 stands for all that are
-- not positive.
use motivra.Prelude.{
  ℕ, Bool, true, false, not, List, [], ◌∷◌, ◌++◌, Option, none, some, ltb, ◌==◌, length, map,
  if◌then◌else◌,
}
use motivra.Prelude.Int.{ℤ, pos, negsuc}
use motivra.Prelude.Text.{Text}
use motivra.Prelude.Ascii.{to_lower, trim_space}
use motivra.Prelude.Exec.{◌>>=◌, ◌>>◌, pure, require, recode}
use motivra.Identity.Roles.{Role}
use motivra.Identity.World.{
  Uuid, User, UserStatus, VerificationChannel, AuditAction, AuditObject, Metadata, IdentityPayload,
  Field, invalid_login, inactive, wrong_password, user_not_found, validation, is_blank, Action,
  fresh_id, when_missing, actor_of,
}
use motivra.Identity.Store.Users.{
  create_user, get_user, get_user_by_email, list_users, update_password, assign_role, insert_audit,
}
use motivra.Identity.Store.Sessions.{revoke_user_sessions}
use motivra.Identity.Password.{hash_password, verify_password, password_result}
use motivra.Identity.Issuer.{AccessResponse, VerificationEcho, is_active, issue}
use motivra.Identity.Email.{is_email}
use motivra.Identity.Service.{IdentityService, audit, publish, check_password_breach, note_breach}
use motivra.Identity.Service.Verification.{issue_verification_token}

abbrev field_if : Bool → Field → List Field
field_if bad field = if bad then field ∷ [] else []

abbrev registration_faults : Text → Text → List Field
registration_faults email full_name =
    field_if (not (is_email email)) Field.email ++ field_if (is_blank full_name) Field.full_name

abbrev no_faults : List Field → Bool
no_faults [] = true
no_faults (_ ∷ _) = false

-- issueChannel: the echo of a token.
unfoldable pub issue_channel :
    IdentityService → Uuid → VerificationChannel → Action (List VerificationEcho)
unfolding issue_verification_token
issue_channel s id channel = do
  (raw, expires_at) ← issue_verification_token s id channel false
  pure (
      if s.dev_echo
      then record { channel = channel; token = raw; expires_at = expires_at } ∷ []
      else [])

abbrev new_account : Uuid → Text → Text → Text → Text → User
new_account id email phone full_name hash = record {
  id = id;
  email = email;
  phone = phone;
  full_name = full_name;
  password_hash = hash;
  status = UserStatus.active;
  roles = Role.customer ∷ [];
  email_verified_at = none;
  phone_verified_at = none;
  created_at = 0;
  updated_at = 0;
}

-- Register after the texts were trimmed.
unfoldable pub register_trimmed :
    IdentityService → Text → Text → Text → Text → Text → Text → Action AccessResponse
unfolding check_password_breach hash_password create_user issue audit publish issue_channel
register_trimmed s email phone password full_name device_name ip = do
  require (no_faults (registration_faults email full_name))
      (validation (registration_faults email full_name))
  noted ← check_password_breach s password
  hash ← hash_password s.id_key password
  id ← fresh_id
  user ← create_user (new_account id email phone full_name hash)
  note_breach noted user.id
  response ← issue s.issuer user device_name ip
  audit user.id AuditAction.user_registered (AuditObject.user user.id)
      (Metadata.registration user.email (s.redact device_name) ip)
  by_email ← issue_channel s user.id VerificationChannel.email
  by_phone ←
      (if is_blank user.phone then pure [] else issue_channel s user.id VerificationChannel.phone)
  publish s user.id none (some user.id)
      (IdentityPayload.user_created user.id user.status user.roles)
  pure (record response { verification = by_email ++ by_phone })

unfoldable pub register :
    IdentityService → Text → Text → Text → Text → Text → Text → Action AccessResponse
unfolding register_trimmed
register s email phone password full_name device_name ip =
    register_trimmed s (to_lower (trim_space email)) (trim_space phone) password
      (trim_space full_name) device_name ip

unfoldable pub login : IdentityService → Text → Text → Text → Text → Action AccessResponse
unfolding get_user_by_email verify_password issue audit
login s email password device_name ip = do
  user ← recode (when_missing invalid_login) (get_user_by_email email)
  matched ← password_result (verify_password s.id_key password user.password_hash)
  require matched invalid_login
  require (is_active user.status) inactive
  response ← issue s.issuer user device_name ip
  audit user.id AuditAction.user_login (AuditObject.user user.id)
      (Metadata.device (s.redact device_name) ip)
  pure response

-- ChangePassword after the current password was checked.
unfoldable pub set_password : IdentityService → Uuid → Text → Action (Unit {0})
unfolding check_password_breach hash_password update_password revoke_user_sessions audit
set_password s id new_password = do
  noted ← check_password_breach s new_password
  note_breach noted id
  hash ← hash_password s.id_key new_password
  update_password id hash
  revoked ← revoke_user_sessions id
  audit id AuditAction.password_changed (AuditObject.user id) (Metadata.sessions_revoked revoked)

unfoldable pub change_password : IdentityService → Uuid → Text → Text → Action (Unit {0})
unfolding get_user verify_password set_password
change_password s id current_password new_password = do
  user ← recode (when_missing user_not_found) (get_user id)
  matched ← password_result (verify_password s.id_key current_password user.password_hash)
  require matched wrong_password
  set_password s user.id new_password

abbrev pub without_hash : User → User
without_hash u = record u { password_hash = [] }

unfoldable pub profile : Uuid → Action User
unfolding get_user
profile id = do user ← recode (when_missing user_not_found) (get_user id); pure (without_hash user)

abbrev pub clamp_limit : ℤ → ℕ
clamp_limit (negsuc n) = 20
clamp_limit (pos limit) = if limit == 0 then 20 else if ltb 100 limit then 100 else limit

abbrev pub clamp_offset : ℤ → ℕ
clamp_offset (negsuc n) = 0
clamp_offset (pos offset) = offset

unfoldable pub list_accounts : ℤ → ℤ → Action (List User)
unfolding list_users
list_accounts limit offset = do
  users ← list_users (clamp_limit limit) (clamp_offset offset)
  pure (map without_hash users)

-- ListUsersForAdmin: the read is audited.
unfoldable pub list_users_for_admin : Uuid → Option Uuid → ℤ → ℤ → Action (List User)
unfolding list_accounts insert_audit
list_users_for_admin actor tenant_id limit offset = do
  users ← list_accounts limit offset
  insert_audit (record {
    actor_id = actor_of actor;
    action = AuditAction.users_listed;
    object = AuditObject.collection;
    tenant_id = tenant_id;
    metadata = Metadata.page (clamp_limit limit) (clamp_offset offset) (length users);
  })
  pure users

unfoldable pub grant_role : IdentityService → Uuid → Role → Option Uuid → Uuid → Action (Unit {0})
unfolding assign_role audit publish
grant_role s id role tenant_id actor = do
  assign_role id role tenant_id
  audit actor AuditAction.role_granted (AuditObject.user id) (Metadata.granted role)
  publish s id tenant_id (actor_of actor) (IdentityPayload.role_granted id role tenant_id)
