-- ===== src/Identity/Refusals.antt =====
-- Refusals that do not tell one cause from another.
use motivra.Prelude.{
  ◌≡◌, ◌≢◌, refl, ap, ◌∙◌, ◌⊎◌, inl, inr, false, [], Option, none, some, arith, ==_iff, nat_eq,
}
use motivra.Prelude.Text.{Text}
use motivra.Prelude.Ascii.{to_lower, trim_space}
use motivra.Prelude.Exec.{err, pure, gets}
use motivra.Prelude.Exec.Runs.{
  Returns, bind-runs, bind-fails, require-fails, recode-runs, recode-fails, find_or_raise-runs,
  find_or_raise-fails,
}
use motivra.Identity.World.{
  Uuid, User, Session, invalid_login, missing, session_not_found, IdentityWorld,
}
use motivra.Identity.Store.Users.{
  find_email, grants_of, roles_from_grants, get_role_grants, with_grants, get_user_by_email,
}
use motivra.Identity.Store.Sessions.{find_session, get_session_by_id}
use motivra.Identity.Password.{verify_password, password_result}
use motivra.Identity.Service.{IdentityService}
use motivra.Identity.Service.Accounts.{login}
use motivra.Identity.Service.Sessions.{revoke_own_session}
use motivra.Identity.Rotation.Laws.{trip-runs}

-- The user that a login finds.
abbrev pub account : Text → IdentityWorld → Option User
account email w = find_email (to_lower (trim_space email)) w.users

-- The email is unknown, or the password does not match.
abbrev pub BadLogin : IdentityService → Text → Text → IdentityWorld → Type 0
BadLogin s email password w =
    (account email w ≡ none)
    ⊎ ((u : User) × (account email w ≡ some u)
        × (verify_password s.id_key password u.password_hash ≡ some false))

module _ (w : IdentityWorld) (healthy : w.faults ≡ []) where
  grants-run : (id : Uuid) → Returns (get_role_grants id) w (grants_of id w.grants) w
  unfolding get_role_grants gets
  grants-run id = bind-runs _ _ w tt w (trip-runs w _ healthy)

  found-runs :
      (email : Text) (u : User)
      → account email w ≡ some u
      → Returns
          (get_user_by_email email)
          w
          (record u { roles = roles_from_grants (grants_of u.id w.grants) })
          w
  unfolding get_user_by_email with_grants pure
  found-runs email u found =
      bind-runs _ _ w tt w (trip-runs w _ healthy)
      ∙ bind-runs _ _ w u w (find_or_raise-runs _ _ w u found)
      ∙ bind-runs _ _ w _ w (grants-run u.id)

  unknown-fails :
      (email : Text) → account email w ≡ none → get_user_by_email email w ≡ (err missing, w)
  unfolding get_user_by_email
  unknown-fails email h =
      bind-runs _ _ w tt w (trip-runs w _ healthy)
      ∙ bind-fails _ _ w _ w (find_or_raise-fails _ _ w h)

  -- In a state where the database answers, a login with an unknown email and one with a wrong password
  -- are refused by the same error, and nothing is written; the status of the account makes no difference.
  pub BadLogin-refused :
      (s : IdentityService) (email password device_name ip : Text)
      → BadLogin s email password w
      → login s email password device_name ip w ≡ (err invalid_login, w)
  unfolding login pure
  BadLogin-refused s email password device_name ip (inl unknown) =
      bind-fails _ _ w _ w (recode-fails _ _ w _ w (unknown-fails email unknown))
  BadLogin-refused s email password device_name ip (inr (u, found, wrong)) =
      bind-runs _ _ w _ w (recode-runs _ _ w _ w (found-runs email u found))
      ∙ bind-runs (password_result (verify_password s.id_key password u.password_hash)) _ w false w
          (ap (λ o. password_result o w) wrong)
      ∙ bind-fails _ _ w _ w (require-fails _ _ w refl)

  session-runs :
      (id : Uuid) (x : Session)
      → find_session id w.sessions ≡ some x
      → Returns (get_session_by_id id) w x w
  unfolding get_session_by_id
  session-runs id x found =
      bind-runs _ _ w tt w (trip-runs w _ healthy) ∙ find_or_raise-runs _ _ w x found

  -- In a state where the database answers, the revocation of a session that is not there and of one that
  -- another user owns are refused by the same error, and nothing is written.
  pub foreign_session-not_found :
      (s : IdentityService) (user_id id actor : Uuid)
      → (find_session id w.sessions ≡ none)
        ⊎ ((x : Session) × (find_session id w.sessions ≡ some x) × (x.user_id ≢ user_id))
      → revoke_own_session s user_id id actor w ≡ (err session_not_found, w)
  unfolding revoke_own_session get_session_by_id
  foreign_session-not_found s user_id id actor (inl absent) = bind-fails _ _ w _ w (
      recode-fails _ _ w _ w
        (bind-runs _ _ w tt w (trip-runs w _ healthy) ∙ find_or_raise-fails _ _ w absent))
  foreign_session-not_found s user_id id actor (inr (x, found, other)) =
      bind-runs _ _ w x w (recode-runs _ _ w x w (session-runs id x found))
      ∙ bind-fails _ _ w _ w (require-fails _ _ w (ground (arith, other, ==_iff x.user_id user_id)))
