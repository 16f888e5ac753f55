-- ===== src/Identity/Evolution/Service.antt =====
-- The parts of a call of the identity service lets the tables evolve.
use motivra.Prelude.{ℕ, Bool, false, List, [], Option, none, some, refl}
use motivra.Prelude.Text.{Text}
use motivra.Identity.Roles.{Role}
use motivra.Identity.World.{
  Uuid, User, Session, AuditAction, AuditObject, Metadata, IdentityPayload, IdentityWorld,
}
use motivra.Prelude.Exec.Steps.{Any, Steps-modify}
use motivra.Identity.Evolution.{evolving}
use motivra.Identity.Evolution.Store.{
  Calm, same-Evolving, round_trip-Calm, fresh_id-Calm, random_bytes-Calm, insert_audit-Calm,
  get_role_grants-Calm, get_user-Calm, get_session_by_refresh_hash-Calm,
}
use motivra.Identity.Evolution.Writes.{create_session-Calm, revoke_session-Calm}
use motivra.Identity.Evolution.Rules.{calls, bind-Calm, if-Calm, pure-Calm}
use motivra.Identity.Service.{
  IdentityService, Breach, audit, publish, after_breach, ask_breacher, check_password_breach,
  audit_breach_note,
}
use motivra.Identity.Issuer.{
  Issuer, claim_context, new_opaque_token, sign_access, issue_session, issue, check_session,
  check_refresh, rotate, refresh,
}

claim_context-Calm : (u : User) → Calm (claim_context u)
unfolding claim_context
claim_context-Calm u = search (calls, get_role_grants-Calm)

pub new_opaque_token-Calm : Calm new_opaque_token
unfolding new_opaque_token
new_opaque_token-Calm = search (calls, random_bytes-Calm)

module _ (i : Issuer) where
  sign_access-Calm :
      (u : User) (t : Option Uuid) (rs : List Role) (id : Uuid) (token : Text)
      → Calm (sign_access i u t rs id token)
  unfolding sign_access
  sign_access-Calm u t rs id token = search (calls)

  pub issue_session-Calm :
      (u : User) (device ip : Text) (absolute : Option ℕ)
      → Calm (issue_session i u device ip absolute)
  unfolding issue_session
  issue_session-Calm u device ip absolute =
      search
        (
          calls, claim_context-Calm, fresh_id-Calm, new_opaque_token-Calm, create_session-Calm,
          sign_access-Calm,
        )
        depth 30

  pub check_session-Calm : (s : Session) → Calm (check_session i s)
  unfolding check_session
  check_session-Calm s = search (calls, get_user-Calm) depth 30

  check_refresh-Calm : (token : Text) → Calm (check_refresh i token)
  unfolding check_refresh
  check_refresh-Calm token =
      search (calls, get_session_by_refresh_hash-Calm, check_session-Calm) depth 30

  rotate-Calm : (s : Session) (u : User) → Calm (rotate i s u)
  unfolding rotate
  rotate-Calm s u = search (calls, revoke_session-Calm, issue_session-Calm) depth 30

  pub issue-Calm : (u : User) (device ip : Text) → Calm (issue i u device ip)
  unfolding issue
  issue-Calm u device ip = issue_session-Calm u device ip none

  pub refresh-Calm : (token : Text) → Calm (refresh i token)
  unfolding refresh
  refresh-Calm token = search (calls, check_refresh-Calm, rotate-Calm) depth 30

pub audit-Calm :
    (actor : Uuid) (action : AuditAction) (object : AuditObject) (m : Metadata)
    → Calm (audit actor action object m)
unfolding audit
audit-Calm actor action object m = insert_audit-Calm _

pub audit_breach_note-Calm : (id : Uuid) → Calm (audit_breach_note id)
unfolding audit_breach_note
audit_breach_note-Calm id = audit-Calm _ _ _ _

module _ (s : IdentityService) where
  pub publish-Calm :
      (id : Uuid) (tenant actor : Option Uuid) (p : IdentityPayload)
      → Calm (publish s id tenant actor p)
  unfolding publish
  publish-Calm id tenant actor p =
      if-Calm s.has_publisher _ _
        (bind-Calm _ _ (round_trip-Calm _)
          λ _. Steps-modify evolving Any _ (λ w _. same-Evolving w _ refl refl refl ([], refl)))
        (pure-Calm tt)

  after_breach-Calm : (closed : Bool) (b : Breach) → Calm (after_breach closed b)
  after_breach-Calm closed Breach.clean = search (calls)
  after_breach-Calm closed Breach.breached = search (calls)
  after_breach-Calm closed Breach.unavailable = search (calls)

  ask_breacher-Calm :
      (b : Option (Text → IdentityWorld → Breach)) (closed : Bool) (password : Text)
      → Calm (ask_breacher b closed password)
  ask_breacher-Calm none closed password = pure-Calm false
  ask_breacher-Calm (some b) closed password = search (calls, after_breach-Calm) depth 30

  pub check_password_breach-Calm : (password : Text) → Calm (check_password_breach s password)
  unfolding check_password_breach
  check_password_breach-Calm password =
      if-Calm _ _ _ (pure-Calm false) (ask_breacher-Calm s.breacher s.breach_fail_closed password)
