-- ===== src/Identity/Tests.antt =====
-- Runs of the identity service, and the theorems at them.
use motivra.Prelude.{
  ℕ, zero, suc, ◌≤◌, ◌<◌, ◌≡◌, ◌⊎◌, inr, refl, true, false, List, [], ◌∷◌, none, some, arith,
  length, All, nat_eq,
}
use motivra.Prelude.Int.{pos, negsuc}
use motivra.Prelude.Text.{Text, bytes, text_eq, text-Eq}
use motivra.Prelude.Ascii.{is_space, trim_space, lower, to_lower}
use motivra.Prelude.Strings.{split}
use motivra.Prelude.Base64.{encode, decode, IsByte}
use motivra.Prelude.Order.{where_rows, order_by}
use motivra.Prelude.Table.{find, update}
use motivra.Prelude.Exec.{err, ◌>>=◌, recode}
use motivra.Prelude.Exec.Runs.{Returns}
use motivra.Identity.Roles.{Role, highest_role}
use motivra.Identity.Roles.Laws.{rank, rank_of, OneOf, highest_role-Highest}
use motivra.Identity.World.{
  Uuid, User, UserStatus, Session, VerificationChannel, VerificationToken, invalid_login,
  invalid_refresh_token, invalid_verification_token, session_not_found, AuditAction, AuditObject,
  Metadata, IdentityWorld, round_trip, fresh_id, random_bytes,
}
use motivra.Identity.Store.Users.{user_id, user_email}
use motivra.Identity.Store.Sessions.{session_id, create_session}
use motivra.Identity.Password.{hash_with_salt, verify_password}
use motivra.Identity.Password.Laws.{verify_password-hash}
use motivra.Identity.Issuer.{AccessResponse, verification_refused, claim_context, new_opaque_token}
use motivra.Identity.Service.{IdentityService}
use motivra.Identity.Service.Accounts.{change_password, list_users_for_admin, login}
use motivra.Identity.Service.Sessions
use motivra.Identity.Service.Sessions.{refresh_tokens, revoke_own_session}
use motivra.Identity.Service.Verification.{verify}
use motivra.Identity.Evolution.{UniqueEmails}
use motivra.Identity.Evolution.History.{IdentityCall, identity_call, identity_history}
use motivra.Identity.Rotation.Laws.{refreshed-refused}
use motivra.Identity.Rotation.Verification.{verified-refused}
use motivra.Identity.Protocol.{SessionView, ProtocolPath, session_view, history-ProtocolPath}
use motivra.Identity.Directory.{Audited, history-UniqueEmails, list_users_for_admin-Returns}
use motivra.Identity.PasswordChange.{Changed, change_password-Changed}
use motivra.Identity.Refusals.{BadLogin-refused, foreign_session-not_found}

abbrev repeat : ℕ → ℕ → Text
repeat b zero = []
repeat b (suc n) = b ∷ repeat b n

-- A key derivation for the tests: the length of the password, as often as asked.
abbrev toy_key : Text → Text → ℕ → ℕ → ℕ → ℕ → Text
toy_key password salt time memory threads n = repeat (length password) n

abbrev service : IdentityService
service = record {
  issuer = record {
    token_hash = λ t. t;
    sign = λ c. some (bytes "signed");
    access_ttl = 10;
    refresh_ttl = 100;
    absolute_ttl = 1000;
    verification_grace = 0;
  };
  id_key = toy_key;
  has_publisher = true;
  breacher = none;
  breach_fail_closed = false;
  token_ttl = 50;
  resend_cooldown = 5;
  resend_limit = 3;
  dev_echo = false;
  redact = λ t. t;
}

abbrev old_password : Text
old_password = bytes "winter2024"

abbrev new_password : Text
new_password = bytes "longer words"

abbrev salt : Text
salt = 1 ∷ 2 ∷ []

abbrev user : User
user = record {
  id = 1;
  email = bytes "ann@x.io";
  phone = [];
  full_name = bytes "Ann";
  password_hash = hash_with_salt toy_key old_password salt;
  status = UserStatus.active;
  roles = [];
  email_verified_at = none;
  phone_verified_at = none;
  created_at = 3;
  updated_at = 3;
}

abbrev token : Text
token = bytes "abc"

abbrev session : Session
session = record {
  id = 5;
  user_id = 1;
  refresh_token_hash = token;
  device_name = bytes "phone";
  ip_address = [];
  created_at = 4;
  expires_at = 90;
  absolute_expires_at = 900;
  revoked_at = none;
}

abbrev email_token : VerificationToken
email_token = record {
  id = 6;
  user_id = 1;
  channel = VerificationChannel.email;
  token_hash = token;
  expires_at = 60;
  consumed_at = none;
  created_at = 4;
}

abbrev first_world : IdentityWorld
first_world = record {
  users = user ∷ [];
  grants = record { user_id = 1; role = Role.customer; tenant_id = none } ∷ [];
  sessions = session ∷ [];
  tokens = email_token ∷ [];
  audit_log = [];
  outbox = [];
  faults = [];
  draws = (9 ∷ []) ∷ [];
  next_id = 10;
  clock = 20;
}

abbrev later_calls : List IdentityCall
later_calls =
    IdentityCall.revoke_all 1 1
    ∷ IdentityCall.login (bytes "ann@x.io") old_password [] []
    ∷ IdentityCall.outside 30 [] []
    ∷ []

highest_role-Highest_example :
    All
      (λ r. rank r ≤ rank_of (highest_role (Role.support ∷ Role.other [] ∷ Role.finance ∷ [])))
      (Role.support ∷ Role.other [] ∷ Role.finance ∷ [])
    × ((highest_role (Role.support ∷ Role.other [] ∷ Role.finance ∷ []) ≡ none)
        ⊎ ((r : Role) × (highest_role (Role.support ∷ Role.other [] ∷ Role.finance ∷ []) ≡ some r)
            × OneOf r (Role.support ∷ Role.other [] ∷ Role.finance ∷ [])
            × (0 < rank r)))
highest_role-Highest_example =
    highest_role-Highest (Role.support ∷ Role.other [] ∷ Role.finance ∷ [])

highest_found : highest_role (Role.support ∷ Role.other [] ∷ Role.finance ∷ []) ≡ some Role.finance
unfolding highest_role
highest_found = refl

repeat-IsByte : (b n : ℕ) → b < 256 → All IsByte (repeat b n)
repeat-IsByte b zero small = tt
repeat-IsByte b (suc n) small = (small, repeat-IsByte b n small)

old_key-IsByte : All IsByte (toy_key old_password salt 3 65536 4 32)
unfolding bytes
old_key-IsByte = repeat-IsByte 10 32 (omega arith)

verify_password-hash_example :
    verify_password toy_key old_password (hash_with_salt toy_key old_password salt) ≡ some true
verify_password-hash_example =
    verify_password-hash toy_key old_password salt (λ e. omega (arith, e))
      (omega arith, (omega arith, tt)) refl old_key-IsByte

abbrev new_token : Text
new_token = bytes "CQ"

abbrev response : AccessResponse
response = record {
  access_token = bytes "signed";
  refresh_token = new_token;
  expires_at = 30;
  verification = [];
}

refresh_run :
    Returns
      (refresh_tokens service token)
      first_world
      response
      (refresh_tokens service token first_world).1
unfolding refresh_tokens ◌>>=◌ text_eq bytes find update encode where_rows recode round_trip
    verification_refused claim_context fresh_id new_opaque_token random_bytes create_session
refresh_run = refl

history_healthy : (w : IdentityWorld) → (identity_history service later_calls w).faults ≡ []
unfolding identity_history identity_call
history_healthy w = refl

refreshed-refused_example :
    refresh_tokens service token
      (identity_history service later_calls (refresh_tokens service token first_world).1)
    ≡ (
      err invalid_refresh_token,
      identity_history service later_calls (refresh_tokens service token first_world).1,
    )
refreshed-refused_example =
    refreshed-refused service token first_world response
      (refresh_tokens service token first_world).1 later_calls refresh_run
      (history_healthy (refresh_tokens service token first_world).1)

verify_run :
    Returns
      (verify service token)
      first_world
      VerificationChannel.email
      (verify service token first_world).1
unfolding verify ◌>>=◌ text_eq bytes find update trim_space recode round_trip
verify_run = refl

verified-refused_example :
    verify service token (identity_history service later_calls (verify service token first_world).1)
    ≡ (
      err invalid_verification_token,
      identity_history service later_calls (verify service token first_world).1,
    )
verified-refused_example =
    verified-refused service token first_world VerificationChannel.email
      (verify service token first_world).1 later_calls verify_run
      (history_healthy (verify service token first_world).1)

history-ProtocolPath_example :
    ProtocolPath
      (session_view 5 first_world)
      (session_view 5 (identity_history service later_calls first_world))
history-ProtocolPath_example = history-ProtocolPath service later_calls first_world 5

-- The session was live and is over.
session_ended :
    session_view 5 (identity_history service (IdentityCall.logout 5 1 ∷ []) first_world)
    ≡ SessionView.ended 1 900
unfolding identity_history identity_call Sessions.logout ◌>>=◌ find update recode round_trip
session_ended = refl

only_user : (k : Uuid) (u : User) → find user_id k first_world.users ≡ some u → user ≡ u
unfolding find
only_user k u h = ground (arith, h)

user_found : find user_email user.email first_world.users ≡ some user
unfolding find text_eq bytes
user_found = refl

user_lower : to_lower user.email ≡ user.email
unfolding to_lower lower bytes
user_lower = refl

first_emails : UniqueEmails first_world.users
first_emails = record {
  one = λ k u h. rw (← only_user k u h) user_found;
  lower = λ k u h. rw (← only_user k u h) user_lower;
}

history-UniqueEmails_example : UniqueEmails (identity_history service later_calls first_world).users
history-UniqueEmails_example = history-UniqueEmails service later_calls first_world first_emails

page_run :
    Returns
      (list_users_for_admin 2 none (pos 0) (negsuc 3))
      first_world
      (record user { roles = Role.customer ∷ []; password_hash = [] } ∷ [])
      (list_users_for_admin 2 none (pos 0) (negsuc 3) first_world).1
unfolding list_users_for_admin ◌>>=◌ order_by where_rows round_trip
page_run = refl

list_users_for_admin-Returns_example :
    All
      (λ u. u.password_hash ≡ [])
      (record user { roles = Role.customer ∷ []; password_hash = [] } ∷ [])
    × (length {A = User} (record user { roles = Role.customer ∷ []; password_hash = [] } ∷ [])
        ≤ 100)
    × Audited
        (record {
          actor_id = some 2;
          action = AuditAction.users_listed;
          object = AuditObject.collection;
          tenant_id = none;
          metadata = Metadata.page 20 0 1;
        })
        (list_users_for_admin 2 none (pos 0) (negsuc 3) first_world).1
list_users_for_admin-Returns_example =
    list_users_for_admin-Returns 2 none (pos 0) (negsuc 3) first_world
      (record user { roles = Role.customer ∷ []; password_hash = [] } ∷ [])
      (list_users_for_admin 2 none (pos 0) (negsuc 3) first_world).1 page_run

old_verified : verify_password toy_key old_password user.password_hash ≡ some true
old_verified = verify_password-hash_example

change_run :
    Returns
      (change_password service 1 old_password new_password)
      first_world
      tt
      (change_password service 1 old_password new_password first_world).1
unfolding change_password ◌>>=◌ text_eq bytes find update where_rows recode round_trip split encode
    decode random_bytes
change_run = refl

change_password-Changed_example :
    Changed toy_key 1 new_password
      (change_password service 1 old_password new_password first_world).1
change_password-Changed_example =
    change_password-Changed service 1 old_password new_password first_world tt
      (change_password service 1 old_password new_password first_world).1 change_run

-- A password of another length.
password_wrong : verify_password toy_key (bytes "guess") user.password_hash ≡ some false
unfolding verify_password hash_with_salt bytes text_eq split encode decode
password_wrong = refl

email_found :
    find user_email (to_lower (trim_space (bytes "ann@x.io"))) first_world.users ≡ some user
unfolding find text_eq bytes to_lower trim_space lower is_space
email_found = refl

BadLogin-refused_example :
    login service (bytes "ann@x.io") (bytes "guess") [] [] first_world
    ≡ (err invalid_login, first_world)
BadLogin-refused_example =
    BadLogin-refused first_world refl service (bytes "ann@x.io") (bytes "guess") [] []
      (inr (user, email_found, password_wrong))

session_found : find session_id 5 first_world.sessions ≡ some session
unfolding find
session_found = refl

foreign_session-not_found_example :
    revoke_own_session service 2 5 2 first_world ≡ (err session_not_found, first_world)
foreign_session-not_found_example =
    foreign_session-not_found first_world refl service 2 5 2
      (inr (session, session_found, λ e. omega (arith, e)))
