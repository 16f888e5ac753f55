-- ===== src/Identity/Service/Sessions.antt =====
-- The session operations of backend/identity/service.go and sessions.go: refresh, the logouts and the
-- session API.
use motivra.Prelude.{ℕ, not, List, [], ◌∷◌, ◌==◌, map}
use motivra.Prelude.Text.{Text}
use motivra.Prelude.Ascii.{trim_space}
use motivra.Prelude.Exec.{◌>>=◌, ◌>>◌, pure, require, recode}
use motivra.Identity.World.{
  Uuid, Session, AuditAction, AuditObject, Metadata, Field, invalid_login, session_not_found,
  validation, is_blank, Action, when_missing,
}
use motivra.Identity.Store.Sessions.{
  get_session_by_refresh_hash, get_session_by_id, list_user_sessions, revoke_session,
  revoke_user_sessions, is_live,
}
use motivra.Identity.Issuer.{AccessResponse, refresh, revoke}
use motivra.Identity.Service.{IdentityService, audit}

unfoldable pub refresh_tokens : IdentityService → Text → Action AccessResponse
unfolding refresh audit
refresh_tokens s refresh_token = do
  (response, previous) ← refresh s.issuer refresh_token
  audit previous.user_id AuditAction.session_refreshed (AuditObject.session previous.id)
      (Metadata.device (s.redact previous.device_name) previous.ip_address)
  pure response

unfoldable pub logout : IdentityService → Uuid → Uuid → Action (Unit {0})
unfolding revoke audit
logout s id actor = do
  recode (when_missing session_not_found) (revoke s.issuer id)
  audit actor AuditAction.session_revoked (AuditObject.session id) Metadata.no_metadata

unfoldable pub logout_by_refresh_token : IdentityService → Text → Uuid → Action (Unit {0})
unfolding get_session_by_refresh_hash revoke_session audit
logout_by_refresh_token s refresh_token actor = do
  require (not (is_blank (trim_space refresh_token))) (validation (Field.refresh_token ∷ []))
  sess ←
      recode (when_missing invalid_login)
        (get_session_by_refresh_hash (s.issuer.token_hash refresh_token))
  require (is_live sess) invalid_login
  revoke_session sess.id
  audit actor AuditAction.session_revoked (AuditObject.session sess.id) Metadata.via_refresh_token

abbrev pub without_digest : Session → Session
without_digest s = record s { refresh_token_hash = [] }

unfoldable pub list_sessions : Uuid → Action (List Session)
unfolding list_user_sessions
list_sessions id = do sessions ← list_user_sessions id; pure (map without_digest sessions)

-- RevokeSession of the session API, for the caller `user_id`.
unfoldable pub revoke_own_session : IdentityService → Uuid → Uuid → Uuid → Action (Unit {0})
unfolding get_session_by_id revoke_session audit
revoke_own_session s user_id id actor = do
  sess ← recode (when_missing session_not_found) (get_session_by_id id)
  require (sess.user_id == user_id) session_not_found
  recode (when_missing session_not_found) (revoke_session id)
  audit actor AuditAction.session_revoked (AuditObject.session id)
      (Metadata.via_sessions_api user_id (s.redact sess.device_name))

unfoldable pub revoke_all_sessions : Uuid → Uuid → Action ℕ
unfolding revoke_user_sessions audit
revoke_all_sessions user_id actor = do
  revoked ← revoke_user_sessions user_id
  audit actor AuditAction.session_revoked_all (AuditObject.user user_id)
      (Metadata.sessions_revoked revoked)
  pure revoked
