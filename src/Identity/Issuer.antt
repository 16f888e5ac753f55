-- ===== src/Identity/Issuer.antt =====
-- backend/identity/tokens.go: the issuer of sessions and access tokens. The digest of an opaque token
-- (HMAC-SHA256) and the signature of the claims (JWT, by either algorithm) are parameters, and so are
-- the durations; the grace is 0 where the gate is off.
use motivra.Prelude.{
  ℕ, ◌+◌, Bool, true, false, not, ◌&&◌, List, [], ◌∷◌, Option, none, some, leb, ltb, ◌==◌,
  if◌then◌else◌,
}
use motivra.Prelude.Text.{Text}
use motivra.Prelude.Base64.{url_alphabet, encode}
use motivra.Prelude.Exec.{◌>>=◌, ◌>>◌, gets, or_raise, pure, require, check, recode}
use motivra.Identity.Roles.{Role, role_priority, better, priority_or, highest_role}
use motivra.Identity.World.{
  Uuid, User, UserStatus, Session, RoleGrant, VerificationChannel, verification_satisfied,
  signing_failed, invalid_refresh_token, inactive, verification_required, is_set, is_blank,
  when_missing, Action, fresh_id, random_bytes,
}
use motivra.Identity.Store.Users.{get_user, get_role_grants, roles_from_grants}
use motivra.Identity.Store.Sessions.{
  create_session, get_session_by_refresh_hash, revoke_session, is_live,
}

-- platform.Claims with the list of roles; the issuer and the audience are constants of the signer.
pub record AccessClaims : Type 0 where
  pub user_id : Uuid
  pub tenant_id : Option Uuid
  pub role : Option Role
  pub roles : List Role
  pub session_id : Uuid
  pub issued_at : ℕ
  pub expires_at : ℕ

pub record Issuer : Type 0 where
  pub token_hash : Text → Text
  pub sign : AccessClaims → Option Text
  pub access_ttl : ℕ
  pub refresh_ttl : ℕ
  pub absolute_ttl : ℕ
  pub verification_grace : ℕ

pub record VerificationEcho : Type 0 where
  pub channel : VerificationChannel
  pub token : Text
  pub expires_at : ℕ

pub record AccessResponse : Type 0 where
  pub access_token : Text
  pub refresh_token : Text
  pub expires_at : ℕ
  pub verification : List VerificationEcho

unfoldable pub verification_refused : ℕ → User → ℕ → Bool
unfolding verification_satisfied
verification_refused now user grace =
    if grace == 0
    then false
    else if verification_satisfied user
    then false
    else leb (user.created_at + grace) now

abbrev pub is_active : UserStatus → Bool
is_active UserStatus.active = true
is_active _ = false

-- The loop over the grants: `best` is the Go variable plus one.
unfoldable pub tenant_from : ℕ → Option Uuid → List RoleGrant → Option Uuid
tenant_from best tenant [] = tenant
tenant_from best tenant (g ∷ gs) =
    let wins = is_set g.tenant_id && better (role_priority g.role) best in
    tenant_from (if wins then priority_or (role_priority g.role) best else best)
      (if wins then g.tenant_id else tenant) gs

-- The tenant and the roles of the claims. PostgresStore has GetRoleGrants, so the grants are read.
unfoldable pub claim_context : User → Action (Option Uuid × List Role)
unfolding tenant_from roles_from_grants
claim_context user = do
  grants ← get_role_grants user.id
  pure (tenant_from 0 none grants, roles_from_grants grants)

unfoldable pub new_opaque_token : Action Text
unfolding encode
new_opaque_token = do raw ← random_bytes; pure (encode url_alphabet raw)

abbrev pub absolute_or : Option ℕ → ℕ → ℕ
absolute_or none fresh = fresh
absolute_or (some t) fresh = t

abbrev pub session_of : Issuer → User → Text → Text → Option ℕ → Uuid → Text → ℕ → Session
session_of i user device_name ip absolute id token now = record {
  id = id;
  user_id = user.id;
  refresh_token_hash = i.token_hash token;
  device_name = device_name;
  ip_address = ip;
  created_at = 0;
  expires_at = now + i.refresh_ttl;
  absolute_expires_at = absolute_or absolute (now + i.absolute_ttl);
  revoked_at = none;
}

-- The signature, and the response.
unfoldable pub sign_access :
    Issuer → User → Option Uuid → List Role → Uuid → Text → Action AccessResponse
sign_access i user tenant_id roles id token = do
  now ← gets (λ w. w.clock)
  signed ←
      or_raise
        (i.sign (record {
          user_id = user.id;
          tenant_id = tenant_id;
          role = highest_role roles;
          roles = roles;
          session_id = id;
          issued_at = now;
          expires_at = now + i.access_ttl;
        }))
        signing_failed
  pure (record {
    access_token = signed;
    refresh_token = token;
    expires_at = now + i.access_ttl;
    verification = [];
  })

-- issue; `absolute` is none for the zero time.
unfoldable pub issue_session : Issuer → User → Text → Text → Option ℕ → Action AccessResponse
unfolding sign_access
issue_session i user device_name ip absolute = do
  check (λ w. not (verification_refused w.clock user i.verification_grace)) verification_required
  (tenant_id, roles) ← claim_context user
  id ← fresh_id
  token ← new_opaque_token
  now ← gets (λ w. w.clock)
  create_session (session_of i user device_name ip absolute id token now)
  sign_access i user tenant_id roles id token

unfoldable pub issue : Issuer → User → Text → Text → Action AccessResponse
unfolding issue_session
issue i user device_name ip = issue_session i user device_name ip none

-- The tests of Refresh on the session that it has found, and its user.
unfoldable pub check_session : Issuer → Session → Action (Session × User)
unfolding get_user
check_session i s = do
  require (is_live s) invalid_refresh_token
  check (λ w. ltb w.clock s.expires_at) invalid_refresh_token
  check (λ w. ltb w.clock s.absolute_expires_at) invalid_refresh_token
  user ← recode (when_missing invalid_refresh_token) (get_user s.user_id)
  require (is_active user.status) inactive
  check (λ w. not (verification_refused w.clock user i.verification_grace)) verification_required
  pure (s, user)

-- What Refresh does before it writes.
unfoldable pub check_refresh : Issuer → Text → Action (Session × User)
unfolding get_session_by_refresh_hash check_session
check_refresh i refresh_token = do
  require (not (is_blank refresh_token)) invalid_refresh_token
  s ←
      recode (when_missing invalid_refresh_token)
        (get_session_by_refresh_hash (i.token_hash refresh_token))
  check_session i s

-- The rotation: the presented session is revoked, and its successor made.
unfoldable pub rotate : Issuer → Session → User → Action AccessResponse
unfolding revoke_session issue_session
rotate i s user = do
  revoke_session s.id
  issue_session i user s.device_name s.ip_address (some s.absolute_expires_at)

unfoldable pub refresh : Issuer → Text → Action (AccessResponse × Session)
unfolding check_refresh rotate
refresh i refresh_token = do
  (s, user) ← check_refresh i refresh_token
  response ← rotate i s user
  pure (response, s)

unfoldable pub revoke : Issuer → Uuid → Action (Unit {0})
unfolding revoke_session
revoke i id = revoke_session id
