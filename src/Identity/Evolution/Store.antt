-- ===== src/Identity/Evolution/Store.antt =====
-- Every call of the identity store lets the tables evolve.
use motivra.Prelude.{ℕ, ◌≡◌, refl, sym, Bool, true, false, List, [], ◌∷◌, nat_eq, Extends}
use motivra.Prelude.Text.{Text, text-Eq}
use motivra.Prelude.Exec.Steps.{
  Steps, Any, Steps-pure, Steps-bind, Steps-find_or_raise, Steps-gets, Steps-modify,
}
use motivra.Prelude.Table.{Evolves-refl}
use motivra.Identity.World.{
  Uuid, User, VerificationChannel, AuditEntry, IdentityError, database, IdentityWorld, Action,
  failing, round_trip, fresh_id, drawn, random_bytes,
}
use motivra.Identity.Store.Users.{
  user_id, get_role_grants, with_grants, get_user, get_user_by_email, fill_page, list_users,
  insert_audit,
}
use motivra.Identity.Store.Sessions.{
  session_id, session_hash, get_session_by_refresh_hash, get_session_by_id, list_user_sessions,
}
use motivra.Identity.Store.Tokens.{
  token_id, token_hash, get_verification_token_by_hash, verification_token_stats,
}
use motivra.Identity.Evolution.{
  SessionStep, TokenStep, UserStep, SessionStep-refl, TokenStep-refl, UserStep-refl, Evolving,
  evolving,
}

-- From any state, `m` lets the tables evolve.
abbrev pub Calm : {A : Type 0} → Action A → Type 0
Calm m = Steps Any Evolving m

-- A write elsewhere.
pub same-Evolving :
    (v w : IdentityWorld)
    → v.sessions ≡ w.sessions
    → v.tokens ≡ w.tokens
    → v.users ≡ w.users
    → Extends v.audit_log w.audit_log
    → Evolving v w
same-Evolving v w s t u a = record {
  sessions = rw s (Evolves-refl session_id SessionStep SessionStep-refl w.sessions);
  hashes = rw s (Evolves-refl session_hash SessionStep SessionStep-refl w.sessions);
  tokens = rw t (Evolves-refl token_id TokenStep TokenStep-refl w.tokens);
  token_hashes = rw t (Evolves-refl token_hash TokenStep TokenStep-refl w.tokens);
  users = rw u (Evolves-refl user_id UserStep UserStep-refl w.users);
  emails = λ h. rw u at h;
  audit = a;
}

abbrev quiet :
    (v w : IdentityWorld)
    → v.sessions ≡ w.sessions
    → v.tokens ≡ w.tokens
    → v.users ≡ w.users
    → v.audit_log ≡ w.audit_log
    → Evolving v w
quiet v w s t u a = same-Evolving v w s t u ([], sym a)

pub round_trip-Calm : (e : IdentityError) → Calm (round_trip e)
unfolding round_trip
round_trip-Calm e = record { at = λ w _. go w w.faults }
  where
    go : (w : IdentityWorld) (fs : List Bool) → Evolving w (failing fs e w).1
    go w [] = evolving.same w
    go w (true ∷ fs) = quiet w _ refl refl refl refl
    go w (false ∷ fs) = quiet w _ refl refl refl refl

pub fresh_id-Calm : Calm fresh_id
unfolding fresh_id
fresh_id-Calm = record { at = λ w _. quiet w _ refl refl refl refl }

pub random_bytes-Calm : Calm random_bytes
unfolding random_bytes
random_bytes-Calm = record { at = λ w _. go w w.draws }
  where
    go : (w : IdentityWorld) (ds : List Text) → Evolving w (drawn ds w).1
    go w [] = evolving.same w
    go w (d ∷ ds) = quiet w _ refl refl refl refl

pub insert_audit-Calm : (entry : AuditEntry) → Calm (insert_audit entry)
unfolding insert_audit
insert_audit-Calm entry = Steps-bind evolving Any _ _ (round_trip-Calm database) λ _.
    Steps-modify evolving Any _ (λ w _.
      same-Evolving w _ refl refl refl (record { entry = entry; created_at = w.clock } ∷ [], refl))

-- Reads.
pub get_role_grants-Calm : (id : Uuid) → Calm (get_role_grants id)
unfolding get_role_grants
get_role_grants-Calm id =
    Steps-bind evolving Any _ _ (round_trip-Calm database) λ _. Steps-gets evolving Any _

with_grants-Calm : (u : User) → Calm (with_grants u)
unfolding with_grants
with_grants-Calm u =
    Steps-bind evolving Any _ _ (get_role_grants-Calm u.id) λ _. Steps-pure evolving Any _

pub get_user-Calm : (id : Uuid) → Calm (get_user id)
unfolding get_user
get_user-Calm id =
    Steps-bind evolving Any _ _ (round_trip-Calm database) λ _.
      Steps-bind evolving Any _ _ (Steps-find_or_raise evolving Any _ _) λ u. with_grants-Calm u

pub get_user_by_email-Calm : (email : Text) → Calm (get_user_by_email email)
unfolding get_user_by_email
get_user_by_email-Calm email =
    Steps-bind evolving Any _ _ (round_trip-Calm database) λ _.
      Steps-bind evolving Any _ _ (Steps-find_or_raise evolving Any _ _) λ u. with_grants-Calm u

fill_page-Calm : (us : List User) → Calm (fill_page us)
unfolding fill_page
fill_page-Calm [] = Steps-pure evolving Any _
fill_page-Calm (u ∷ us) =
    Steps-bind evolving Any _ _ (round_trip-Calm database) λ _. Steps-gets evolving Any _

pub list_users-Calm : (limit offset : ℕ) → Calm (list_users limit offset)
unfolding list_users
list_users-Calm limit offset =
    Steps-bind evolving Any _ _ (round_trip-Calm database)
      λ _. Steps-bind evolving Any _ _ (Steps-gets evolving Any _) λ us. fill_page-Calm us

pub get_session_by_refresh_hash-Calm : (hash : Text) → Calm (get_session_by_refresh_hash hash)
unfolding get_session_by_refresh_hash
get_session_by_refresh_hash-Calm hash =
    Steps-bind evolving Any _ _ (round_trip-Calm database) λ _. Steps-find_or_raise evolving Any _ _

pub get_session_by_id-Calm : (id : Uuid) → Calm (get_session_by_id id)
unfolding get_session_by_id
get_session_by_id-Calm id =
    Steps-bind evolving Any _ _ (round_trip-Calm database) λ _. Steps-find_or_raise evolving Any _ _

pub list_user_sessions-Calm : (id : Uuid) → Calm (list_user_sessions id)
unfolding list_user_sessions
list_user_sessions-Calm id =
    Steps-bind evolving Any _ _ (round_trip-Calm database) λ _. Steps-gets evolving Any _

pub get_verification_token_by_hash-Calm : (hash : Text) → Calm (get_verification_token_by_hash hash)
unfolding get_verification_token_by_hash
get_verification_token_by_hash-Calm hash =
    Steps-bind evolving Any _ _ (round_trip-Calm database) λ _. Steps-find_or_raise evolving Any _ _

pub verification_token_stats-Calm :
    (id : Uuid) (channel : VerificationChannel) (since : ℕ)
    → Calm (verification_token_stats id channel since)
unfolding verification_token_stats
verification_token_stats-Calm id channel since =
    Steps-bind evolving Any _ _ (round_trip-Calm database) λ _. Steps-gets evolving Any _
