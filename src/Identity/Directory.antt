-- ===== src/Identity/Directory.antt =====
-- The directory of accounts over any history, and what the reads give away.
use motivra.Prelude.{
  ℕ, zero, suc, ◌≤◌, ◌≡◌, refl, ap, ◌∙◌, List, [], ◌∷◌, Option, arith, length, map, take, All,
}
use motivra.Prelude.Int.{ℤ, pos, negsuc}
use motivra.Prelude.Exec.Runs.{Returns, bind-Returns, pure-Returns, gets-Returns, modify-Returns}
use motivra.Prelude.Order.{drop, order_by}
use motivra.Identity.World.{
  Uuid, User, AuditAction, AuditObject, Metadata, AuditEntry, AuditRecord, IdentityWorld, actor_of,
}
use motivra.Identity.Store.Users.{
  newer_user, fill_role, fill_roles, fill_page, list_users, insert_audit,
}
use motivra.Identity.Service.{IdentityService}
use motivra.Identity.Service.Accounts.{
  without_hash, clamp_limit, clamp_offset, list_accounts, list_users_for_admin,
}
use motivra.Identity.Evolution.{UniqueEmails}
use motivra.Identity.Evolution.History.{IdentityCall, identity_history, history-Evolving}

-- Every history of calls keeps the emails of the accounts in lower case and unique: a lookup by the
-- email of an account finds that account.
pub history-UniqueEmails :
    (s : IdentityService) (cs : List IdentityCall) (w : IdentityWorld)
    → UniqueEmails w.users
    → UniqueEmails (identity_history s cs w).users
history-UniqueEmails s cs w h = (history-Evolving s cs w).emails h

-- The newest entry of the audit log is `entry`.
pub record Audited (entry : AuditEntry) (w : IdentityWorld) : Type 0 where
  pub at : ℕ
  pub before : List AuditRecord
  pub newest : w.audit_log ≡ record { entry = entry; created_at = at } ∷ before

pub insert_audit-Audited :
    (entry : AuditEntry) (w : IdentityWorld) (u : Unit {0}) (t : IdentityWorld)
    → Returns (insert_audit entry) w u t
    → Audited entry t
unfolding insert_audit
insert_audit-Audited entry w u t r =
    let a = bind-Returns _ _ w u t r in
    record {
      at = a.between.clock;
      before = a.between.audit_log;
      newest = ap (λ v. v.audit_log) (modify-Returns _ a.between u t a.second);
    }

length-map : (f : User → User) (us : List User) → length (map f us) ≡ length us
length-map f [] = refl
length-map f (u ∷ us) = ap suc (length-map f us)

length-take : (n : ℕ) (us : List User) → length (take n us) ≤ n
length-take zero us = omega arith
length-take (suc n) [] = omega arith
length-take (suc n) (u ∷ us) = omega (arith, length-take n us)

no_hashes : (us : List User) → All (λ u. u.password_hash ≡ []) (map without_hash us)
no_hashes [] = tt
no_hashes (u ∷ us) = (refl, no_hashes us)

clamp_limit-le : (limit : ℤ) → clamp_limit limit ≤ 100
clamp_limit-le (negsuc n) = omega arith
clamp_limit-le (pos limit) = ground arith

fill_page-length :
    (page : List User) (w : IdentityWorld) (us : List User) (t : IdentityWorld)
    → Returns (fill_page page) w us t
    → length us ≡ length page
unfolding fill_page fill_roles
fill_page-length [] w us t r = ap length (pure-Returns _ w us t r).0
fill_page-length (p ∷ ps) w us t r =
    let a = bind-Returns _ _ w us t r in
    ap length (gets-Returns _ a.between us t a.second).0
    ∙ length-map (fill_role a.between.grants) (p ∷ ps)

list_users-length :
    (limit offset : ℕ) (w : IdentityWorld) (us : List User) (t : IdentityWorld)
    → Returns (list_users limit offset) w us t
    → length us ≤ limit
unfolding list_users
list_users-length limit offset w us t r =
    let a = bind-Returns _ _ w us t r in
    let b = bind-Returns _ _ a.between us t a.second in
    let rows = (gets-Returns _ a.between b.value b.between b.first).0 in
    omega (
      arith,
      fill_page-length b.value b.between us t b.second,
      ap length rows,
      length-take limit (drop offset (order_by newer_user a.between.users)),
    )

list_accounts-Returns :
    (limit offset : ℤ) (w : IdentityWorld) (us : List User) (t : IdentityWorld)
    → Returns (list_accounts limit offset) w us t
    → All (λ u. u.password_hash ≡ []) us × (length us ≤ 100)
unfolding list_accounts
list_accounts-Returns limit offset w us t r =
    let a = bind-Returns _ _ w us t r in
    let out = (pure-Returns _ a.between us t a.second).0 in
    (
      rw out (no_hashes a.value),
      omega (
        arith,
        ap length out,
        length-map without_hash a.value,
        list_users-length (clamp_limit limit) (clamp_offset offset) w a.value a.between a.first,
        clamp_limit-le limit,
      ),
    )

-- A page of accounts that an administrator is given carries no password hash, has at most 100 accounts,
-- and is the newest entry of the audit log, with the number of accounts on it.
pub list_users_for_admin-Returns :
    (actor : Uuid) (tenant_id : Option Uuid) (limit offset : ℤ) (w : IdentityWorld) (us : List User)
    (t : IdentityWorld)
    → Returns (list_users_for_admin actor tenant_id limit offset) w us t
    → All (λ u. u.password_hash ≡ []) us
      × (length us ≤ 100)
      × Audited
          (record {
            actor_id = actor_of actor;
            action = AuditAction.users_listed;
            object = AuditObject.collection;
            tenant_id = tenant_id;
            metadata = Metadata.page (clamp_limit limit) (clamp_offset offset) (length us);
          })
          t
unfolding list_users_for_admin
list_users_for_admin-Returns actor tenant_id limit offset w us t r =
    let a = bind-Returns _ _ w us t r in
    let b = bind-Returns _ _ a.between us t a.second in
    let out = pure-Returns _ b.between us t b.second in
    let listed = list_accounts-Returns limit offset w a.value a.between a.first in
    (
      rw out.0 listed.0,
      rw out.0 listed.1,
      rw (out.0, out.1) (insert_audit-Audited _ a.between b.value b.between b.first),
    )
