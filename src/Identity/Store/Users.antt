-- ===== src/Identity/Store/Users.antt =====
-- Users, their role grants and the audit log in backend/identity/store.go. A row of `users` has no
-- roles column: `roles` is empty in the table, and a read fills it from the grants.
use motivra.Prelude.{
  ℕ, Bool, true, false, not, ◌&&◌, List, [], ◌∷◌, ◌++◌, Option, none, some, ltb, ◌==◌,
  if◌then◌else◌, nat_eq, map,
}
use motivra.Prelude.Text.{Text, text_eq, text-Eq}
use motivra.Prelude.Ascii.{to_lower, trim_space}
use motivra.Prelude.Order.{order_by, page, where_rows, any_row}
use motivra.Prelude.Exec.{
  Result, ok, err, ◌>>=◌, ◌>>◌, gets, find_or_raise, pure, require, check, modify, attempt,
}
use motivra.Prelude.Table.{find, update}
use motivra.Identity.Roles.{Role, role_eq, is_known_role}
use motivra.Identity.World.{
  Uuid, User, RoleGrant, AuditEntry, Field, IdentityError, missing, database, email_taken,
  phone_taken, user_exists, role_assigned, validation, is_set, is_blank, Action, round_trip,
}

abbrev pub user_id : User → Uuid
user_id u = u.id

abbrev pub user_email : User → Text
user_email u = u.email

abbrev pub find_user : Uuid → List User → Option User
find_user = find user_id

abbrev pub find_email : Text → List User → Option User
find_email = find user_email

-- The index users_phone_key, which leaves NULL out.
abbrev pub phone_used : Text → List User → Bool
phone_used phone us = if is_blank phone then false else any_row (λ u. text_eq u.phone phone) us

abbrev pub same_tenant : Option Uuid → Option Uuid → Bool
same_tenant none none = true
same_tenant (some t) (some u) = t == u
same_tenant _ _ = false

abbrev pub same_grant : RoleGrant → RoleGrant → Bool
same_grant g h =
    g.user_id == h.user_id && (role_eq g.role h.role && same_tenant g.tenant_id h.tenant_id)

abbrev pub personal_grant : Uuid → Role → RoleGrant
personal_grant id role = record { user_id = id; role = role; tenant_id = none }

-- The loop of CreateUser over the roles. The newest grant stands last.
unfoldable pub add_grants :
    Uuid → List Role → List RoleGrant → Result IdentityError (List RoleGrant)
add_grants id [] gs = ok gs
add_grants id (r ∷ rs) gs =
    let rest = add_grants id rs (gs ++ personal_grant id r ∷ []) in
    if is_known_role r
    then (if any_row (same_grant (personal_grant id r)) gs then err user_exists else rest)
    else err database

abbrev pub default_roles : List Role → List Role
default_roles [] = Role.customer ∷ []
default_roles (r ∷ rs) = r ∷ rs

-- The row that CreateUser inserts.
abbrev pub new_user : User → ℕ → User
new_user u now = record u {
  email = to_lower (trim_space u.email);
  phone = trim_space u.phone;
  roles = [];
  email_verified_at = none;
  phone_verified_at = none;
  created_at = now;
  updated_at = now;
}

unfoldable pub create_user : User → Action User
unfolding add_grants
create_user u = do
  round_trip database
  now ← gets (λ w. w.clock)
  let row = new_user u now
  let roles = default_roles u.roles
  check (λ w. not (is_set (find_user row.id w.users))) user_exists
  check (λ w. not (is_set (find_email row.email w.users))) email_taken
  check (λ w. not (phone_used row.phone w.users)) phone_taken
  grants ← attempt (λ w. add_grants row.id roles w.grants)
  modify (λ w. record w { users = row ∷ w.users; grants = grants })
  pure (record u {
    email = row.email;
    phone = row.phone;
    roles = roles;
    created_at = now;
    updated_at = now;
  })

unfoldable pub assign_role : Uuid → Role → Option Uuid → Action (Unit {0})
assign_role id role tenant_id = do
  require (is_known_role role) (validation (Field.role ∷ []))
  round_trip database
  check (λ w. is_set (find_user id w.users)) database
  let grant : RoleGrant = record { user_id = id; role = role; tenant_id = tenant_id }
  check (λ w. not (any_row (same_grant grant) w.grants)) role_assigned
  modify (λ w. record w { grants = w.grants ++ grant ∷ [] })

abbrev pub grants_of : Uuid → List RoleGrant → List RoleGrant
grants_of id = where_rows (λ g. g.user_id == id)

unfoldable pub get_role_grants : Uuid → Action (List RoleGrant)
get_role_grants id = do round_trip database; gets (λ w. grants_of id w.grants)

unfoldable pub roles_from_grants : List RoleGrant → List Role
roles_from_grants = map (λ g. g.role)

unfoldable pub with_grants : User → Action User
unfolding get_role_grants roles_from_grants
with_grants u = do
  grants ← get_role_grants u.id
  pure (record u { roles = roles_from_grants grants })

unfoldable pub get_user : Uuid → Action User
unfolding with_grants
get_user id = do
  round_trip database
  u ← find_or_raise (λ w. find_user id w.users) missing
  with_grants u

unfoldable pub get_user_by_email : Text → Action User
unfolding with_grants
get_user_by_email email = do
  round_trip database
  u ← find_or_raise (λ w. find_email (to_lower (trim_space email)) w.users) missing
  with_grants u

-- ORDER BY created_at DESC, id
abbrev pub newer_user : User → User → Bool
newer_user u v =
    if ltb v.created_at u.created_at
    then true
    else (if u.created_at == v.created_at then ltb u.id v.id else false)

-- One batched query for the grants of a page.
abbrev pub fill_role : List RoleGrant → User → User
fill_role gs u = record u { roles = roles_from_grants (grants_of u.id gs) }

unfoldable pub fill_roles : List RoleGrant → List User → List User
unfolding roles_from_grants
fill_roles gs = map (fill_role gs)

-- No second query where the page is empty.
unfoldable pub fill_page : List User → Action (List User)
unfolding fill_roles
fill_page [] = pure []
fill_page (u ∷ us) = do round_trip database; gets (λ w. fill_roles w.grants (u ∷ us))

unfoldable pub list_users : ℕ → ℕ → Action (List User)
unfolding fill_page
list_users limit offset = do
  round_trip database
  users ← gets (λ w. page limit offset (order_by newer_user w.users))
  fill_page users

unfoldable pub update_password : Uuid → Text → Action (Unit {0})
update_password id password_hash = do
  round_trip database
  find_or_raise (λ w. find_user id w.users) missing
  modify (λ w. record w {
    users =
        update user_id id (λ u. record u { password_hash = password_hash; updated_at = w.clock })
          w.users;
  })

unfoldable pub insert_audit : AuditEntry → Action (Unit {0})
insert_audit entry = do
  round_trip database
  modify
      (λ w. record w { audit_log = record { entry = entry; created_at = w.clock } ∷ w.audit_log })
