-- ===== src/Identity/Evolution/Users.antt =====
-- The writes of the accounts let the tables evolve.
use motivra.Prelude.{
  ℕ, ◌≡◌, refl, Bool, List, [], ◌∷◌, Option, none, arith, ◌==◌, if◌then◌else◌, nat_eq, Extends-refl,
}
use motivra.Prelude.Text.{Text, text_eq_iff, text-Eq}
use motivra.Prelude.Ascii.{to_lower, to_lower_idem, trim_space}
use motivra.Prelude.Exec.Steps.{
  Any, Steps-pure, Steps-bind, Steps-require, Steps-check, Steps-find_or_raise, Steps-gets,
  Steps-attempt_then, Steps-modify, Steps-write,
}
use motivra.Prelude.Table.{Evolves-refl, Evolves-cons, update-map, find-cons}
use motivra.Identity.Roles.{Role}
use motivra.Identity.World.{Uuid, User, RoleGrant, database, IdentityWorld}
use motivra.Identity.Store.Users.{
  user_id, user_email, find_user, find_email, new_user, create_user, assign_role, update_password,
}
use motivra.Identity.Store.Sessions.{session_id, session_hash}
use motivra.Identity.Store.Tokens.{token_id, token_hash}
use motivra.Identity.Evolution.{
  SessionStep, TokenStep, UserStep, SessionStep-refl, TokenStep-refl, UserStep-refl, UniqueEmails,
  Evolving, evolving,
}
use motivra.Identity.Evolution.Store.{Calm, same-Evolving, round_trip-Calm}
use motivra.Identity.Evolution.Writes.{not_set, with_rows, map_users, map-UniqueEmails, if-UserStep}

UniqueEmails-cons :
    (u : User) (us : List User)
    → find_email u.email us ≡ none
    → to_lower u.email ≡ u.email
    → UniqueEmails us
    → UniqueEmails (u ∷ us)
UniqueEmails-cons u us fresh small h = record {
  one = λ k v e. ground (
    arith,
    e,
    fresh,
    find-cons user_id k u us,
    find-cons user_email v.email u us,
    text_eq_iff u.email v.email,
    h.one k v,
  );
  lower = λ k v e. ground (arith, e, small, find-cons user_id k u us, h.lower k v);
}

added_user :
    (w : IdentityWorld) (u : User) (gs : List RoleGrant)
    → find_user u.id w.users ≡ none
    → find_email u.email w.users ≡ none
    → to_lower u.email ≡ u.email
    → Evolving w (record w { users = u ∷ w.users; grants = gs })
added_user w u gs new fresh small = record {
  sessions = Evolves-refl session_id SessionStep SessionStep-refl w.sessions;
  hashes = Evolves-refl session_hash SessionStep SessionStep-refl w.sessions;
  tokens = Evolves-refl token_id TokenStep TokenStep-refl w.tokens;
  token_hashes = Evolves-refl token_hash TokenStep TokenStep-refl w.tokens;
  users = Evolves-cons user_id UserStep UserStep-refl u w.users new;
  emails = UniqueEmails-cons u w.users fresh small;
  audit = Extends-refl w.audit_log;
}

pub create_user-Calm : (u : User) → Calm (create_user u)
unfolding create_user
create_user-Calm u = Steps-bind evolving Any _ _ (round_trip-Calm database) λ _.
    Steps-bind evolving Any _ _ (Steps-gets evolving Any _) λ now. Steps-check evolving _ _ _ _ (
      Steps-check evolving _ _ _ _ (
        Steps-check evolving _ _ _ _ (
          Steps-attempt_then evolving _ _ _ λ gs.
            Steps-write evolving _ _ _
              (λ w h.
                added_user w (new_user u now) gs (not_set _ h.0.0.0.1) (not_set _ h.0.0.1)
                  (to_lower_idem (trim_space u.email)))
              (Steps-pure evolving Any _))))

pub assign_role-Calm :
    (id : Uuid) (role : Role) (tenant_id : Option Uuid) → Calm (assign_role id role tenant_id)
unfolding assign_role
assign_role-Calm id role tenant_id = Steps-require evolving _ _ _ _ λ _.
    Steps-bind evolving Any _ _ (round_trip-Calm database) λ _. Steps-check evolving _ _ _ _ (
      Steps-check evolving _ _ _ _
        (Steps-modify evolving _ _ (λ w _. same-Evolving w _ refl refl refl ([], refl))))

rehash-UserStep :
    (b : Bool) (hash : Text) (now : ℕ) (u : User)
    → UserStep u (if b then record u { password_hash = hash; updated_at = now } else u)
rehash-UserStep b hash now u =
    if-UserStep b u _ (record { kept = refl; email_final = λ h. refl; phone_final = λ h. refl })

pub update_password-Calm : (id : Uuid) (hash : Text) → Calm (update_password id hash)
unfolding update_password
update_password-Calm id hash = Steps-bind evolving Any _ _ (round_trip-Calm database) λ _.
    Steps-bind evolving Any _ _ (Steps-find_or_raise evolving Any _ _) λ _.
      Steps-modify evolving Any _ λ w _.
        rw
          (update-map user_id id (λ u. record u { password_hash = hash; updated_at = w.clock })
            w.users)
          (with_rows w w.tokens _ (Evolves-refl token_id TokenStep TokenStep-refl w.tokens)
            (Evolves-refl token_hash TokenStep TokenStep-refl w.tokens)
            (map_users _ (λ u. rehash-UserStep (u.id == id) hash w.clock u) w.users)
            (map-UniqueEmails _ (λ u. rehash-UserStep (u.id == id) hash w.clock u) w.users))
