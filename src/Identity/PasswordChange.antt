-- ===== src/Identity/PasswordChange.antt =====
-- What a change of a password leaves behind.
use motivra.Prelude.{
  ℕ, ◌≡◌, refl, ap, ◌∙◌, Bool, true, false, List, [], ◌∷◌, some, arith, ==_iff, nat_eq,
}
use motivra.Prelude.Text.{Text}
use motivra.Prelude.Order.{update_where, count_rows}
use motivra.Prelude.Exec.{ok}
use motivra.Prelude.Exec.Runs.{
  Returns, bind-Returns, pure-Returns, gets-Returns, modify-Returns, find_or_raise-Returns,
  recode-Returns,
}
use motivra.Prelude.Table.{find_key, find-update}
use motivra.Identity.World.{
  Uuid, User, Session, IdentityError, IdentityWorld, failing, round_trip, AuditEntry,
}
use motivra.Identity.Store.Users.{
  user_id, find_user, with_grants, get_user, update_password, insert_audit,
}
use motivra.Identity.Store.Sessions.{live_of, revoke_at, revoke_user_sessions}
use motivra.Identity.Password.{KeyDerivation, hash_with_salt, hash_password}
use motivra.Identity.Service.{IdentityService, audit}
use motivra.Identity.Service.Accounts.{set_password, change_password}

pub round_trip-Returns :
    (e : IdentityError) (w : IdentityWorld) (u : Unit {0}) (t : IdentityWorld)
    → Returns (round_trip e) w u t
    → t ≡ record w { faults = t.faults }
unfolding round_trip
round_trip-Returns e w u t h = go w.faults refl h
  where
    go :
        (fs : List Bool)
        → w.faults ≡ fs
        → failing fs e w ≡ (ok u, t)
        → t ≡ record w { faults = t.faults }
    go [] q h = ground (arith, q, h)
    go (true ∷ fs) q h = ground (arith, h)
    go (false ∷ fs) q h = ground (arith, h)

-- No session of the user is live.
abbrev pub NoneLive : Uuid → List Session → Type 0
NoneLive id ss = count_rows (live_of id) ss ≡ 0

count-revoked :
    (id : Uuid) (now : ℕ) (ss : List Session)
    → NoneLive id (update_where (live_of id) (revoke_at now) ss)
unfolding count_rows update_where
count-revoked id now [] = refl
count-revoked id now (s ∷ ss) = ground (arith, count-revoked id now ss)

revoke_user_sessions-Returns :
    (id : Uuid) (w : IdentityWorld) (n : ℕ) (t : IdentityWorld)
    → Returns (revoke_user_sessions id) w n t
    → NoneLive id t.sessions × (t.users ≡ w.users)
unfolding revoke_user_sessions
revoke_user_sessions-Returns id w n t r =
    let a = bind-Returns _ _ w n t r in
    let b = bind-Returns _ _ a.between n t a.second in
    let c = bind-Returns _ _ b.between n t b.second in
    let at_b = (gets-Returns _ a.between b.value b.between b.first).1 in
    let at_c = modify-Returns _ b.between c.value c.between c.first in
    let end = (pure-Returns _ c.between n t c.second).1 in
    (
      rw (end, at_c) (count-revoked id b.between.clock b.between.sessions),
      ap (λ v. v.users) end
          ∙ ap (λ v. v.users) at_c
          ∙ ap (λ v. v.users) at_b
          ∙ ap (λ v. v.users) (round_trip-Returns _ w a.value a.between a.first),
    )

insert_audit-Returns :
    (entry : AuditEntry) (w : IdentityWorld) (u : Unit {0}) (t : IdentityWorld)
    → Returns (insert_audit entry) w u t
    → (t.sessions ≡ w.sessions) × (t.users ≡ w.users)
unfolding insert_audit
insert_audit-Returns entry w u t r =
    let a = bind-Returns _ _ w u t r in
    let end = modify-Returns _ a.between u t a.second in
    let trip = round_trip-Returns _ w a.value a.between a.first in
    (
      ap (λ v. v.sessions) end ∙ ap (λ v. v.sessions) trip,
      ap (λ v. v.users) end ∙ ap (λ v. v.users) trip,
    )

-- The user `id` has the hash.
pub record HasHash (id : Uuid) (hash : Text) (us : List User) : Type 0 where
  pub user : User
  pub found : find_user id us ≡ some user
  pub same : user.password_hash ≡ hash

HasHash-same :
    {id : Uuid} {hash made : Text} {us vs : List User}
    → vs ≡ us
    → hash ≡ made
    → HasHash id hash us
    → HasHash id made vs
HasHash-same {id} p q h = record {
  user = h.user;
  found = ap (find_user id) p ∙ h.found;
  same = h.same ∙ q;
}

update_password-Returns :
    (id : Uuid) (hash : Text) (w : IdentityWorld) (u : Unit {0}) (t : IdentityWorld)
    → Returns (update_password id hash) w u t
    → HasHash id hash t.users
unfolding update_password
update_password-Returns id hash w u t r =
    let a = bind-Returns _ _ w u t r in
    let b = bind-Returns _ _ a.between u t a.second in
    let f = find_or_raise-Returns _ _ a.between b.value b.between b.first in
    let end = modify-Returns _ b.between u t b.second in
    record {
      user = record b.value { password_hash = hash; updated_at = b.between.clock };
      found =
          ap (λ v. find_user id v.users) end
          ∙ find-update user_id
              (λ v. record v { password_hash = hash; updated_at = b.between.clock }) (λ v. refl) id
              id b.between.users
          ∙ ground (arith, ==_iff id id, f.0, ap (λ v. find_user id v.users) f.1);
      same = refl;
    }

hash_password-Returns :
    (id_key : KeyDerivation) (password : Text) (w : IdentityWorld) (hash : Text) (t : IdentityWorld)
    → Returns (hash_password id_key password) w hash t
    → (salt : Text) × (hash ≡ hash_with_salt id_key password salt)
unfolding hash_password
hash_password-Returns id_key password w hash t r =
    let a = bind-Returns _ _ w hash t r in
    let b = bind-Returns _ _ a.between hash t a.second in
    let c = bind-Returns _ _ b.between hash t b.second in
    (c.value, (pure-Returns _ c.between hash t c.second).0)

get_user-Returns :
    (id : Uuid) (w : IdentityWorld) (user : User) (t : IdentityWorld)
    → Returns (get_user id) w user t
    → user.id ≡ id
unfolding get_user with_grants
get_user-Returns id w user t r =
    let a = bind-Returns _ _ w user t r in
    let b = bind-Returns _ _ a.between user t a.second in
    let c = bind-Returns _ _ b.between user t b.second in
    ap user_id (pure-Returns _ c.between user t c.second).0
    ∙ find_key user_id id a.between.users b.value
        (find_or_raise-Returns _ _ a.between b.value b.between b.first).0

-- What the change leaves: the new hash, and no live session.
pub record Changed (id_key : KeyDerivation) (id : Uuid) (password : Text) (w : IdentityWorld)
    : Type 0 where
  pub salt : Text
  pub hashed : HasHash id (hash_with_salt id_key password salt) w.users
  pub signed_out : NoneLive id w.sessions

set_password-Changed :
    (s : IdentityService) (id : Uuid) (password : Text) (w : IdentityWorld) (u : Unit {0})
    (t : IdentityWorld)
    → Returns (set_password s id password) w u t
    → Changed s.id_key id password t
unfolding set_password audit
set_password-Changed s id password w u t r =
    let a = bind-Returns _ _ w u t r in
    let b = bind-Returns _ _ a.between u t a.second in
    let c = bind-Returns _ _ b.between u t b.second in
    let d = bind-Returns _ _ c.between u t c.second in
    let e = bind-Returns _ _ d.between u t d.second in
    let (salt, made) =
      hash_password-Returns s.id_key password b.between c.value c.between c.first in
    let swept = revoke_user_sessions-Returns id d.between e.value e.between e.first in
    let logged = insert_audit-Returns _ e.between u t e.second in
    record {
      salt = salt;
      hashed =
          HasHash-same (logged.1 ∙ swept.1) made
            (update_password-Returns id c.value c.between d.value d.between d.first);
      signed_out = ap (count_rows (live_of id)) logged.0 ∙ swept.0;
    }

-- A change of a password that returned leaves the account with the hash of the new password under some
-- salt, and with no live session.
pub change_password-Changed :
    (s : IdentityService) (id : Uuid) (current new : Text) (w : IdentityWorld) (u : Unit {0})
    (t : IdentityWorld)
    → Returns (change_password s id current new) w u t
    → Changed s.id_key id new t
unfolding change_password
change_password-Changed s id current new w u t r =
    let a = bind-Returns _ _ w u t r in
    let b = bind-Returns _ _ a.between u t a.second in
    let c = bind-Returns _ _ b.between u t b.second in
    let owner =
      get_user-Returns id w a.value a.between (recode-Returns _ _ w a.value a.between a.first) in
    rw (← owner) (set_password-Changed s a.value.id new c.between u t c.second)
