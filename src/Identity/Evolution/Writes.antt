-- ===== src/Identity/Evolution/Writes.antt =====
-- The writes of the identity store let the tables evolve.
use mathlib.Core.Option
use motivra.Prelude.{
  ℕ, ◌≡◌, refl, sym, ap, ◌∙◌, Bool, true, false, not, List, ◌∷◌, Option, none, some, arith, ◌==◌,
  if◌then◌else◌, nat_eq, Extends-refl, map,
}
use motivra.Prelude.Text.{text-Eq}
use motivra.Prelude.Ascii.{to_lower}
use motivra.Prelude.Exec.Steps.{
  Any, Steps-pure, Steps-bind, Steps-require, Steps-check, Steps-find_or_raise, Steps-gets,
  Steps-modify, Steps-write,
}
use motivra.Prelude.Table.{
  Evolves, Evolves-refl, Evolves-cons, Evolves-map, if_key, update-map, find-map, map-eq-some,
  if_row, update_where-map,
}
use motivra.Identity.World.{
  Uuid, User, Session, VerificationChannel, VerificationToken, database, is_set, IdentityWorld,
}
use motivra.Identity.Store.Users.{user_id, user_email, find_user, find_email}
use motivra.Identity.Store.Sessions.{
  session_id, session_hash, create_session, new_session, revoke_at, revoke_session, live_of,
  revoke_user_sessions,
}
use motivra.Identity.Store.Tokens.{
  token_id, token_hash, new_token, create_verification_token, consume_at, verify_user, verify_email,
  verify_phone, consume_verification_token,
}
use motivra.Identity.Evolution.{
  SessionStep, TokenStep, UserStep, SessionStep-refl, TokenStep-refl, UserStep-refl, UniqueEmails,
  Evolving, evolving,
}
use motivra.Identity.Evolution.Store.{Calm, round_trip-Calm}

pub not_set : {A : Type 0} (o : Option A) → not (is_set o) ≡ true → o ≡ none
not_set none h = refl
not_set (some a) h = ground (arith, h)

-- One table changes.
module _ (w : IdentityWorld) where
  with_sessions :
      (ss : List Session)
      → Evolves session_id SessionStep w.sessions ss
      → Evolves session_hash SessionStep w.sessions ss
      → Evolving w (record w { sessions = ss })
  with_sessions ss s h = record {
    sessions = s;
    hashes = h;
    tokens = Evolves-refl token_id TokenStep TokenStep-refl w.tokens;
    token_hashes = Evolves-refl token_hash TokenStep TokenStep-refl w.tokens;
    users = Evolves-refl user_id UserStep UserStep-refl w.users;
    emails = λ h. h;
    audit = Extends-refl w.audit_log;
  }

  pub with_rows :
      (ts : List VerificationToken) (us : List User)
      → Evolves token_id TokenStep w.tokens ts
      → Evolves token_hash TokenStep w.tokens ts
      → Evolves user_id UserStep w.users us
      → (UniqueEmails w.users → UniqueEmails us)
      → Evolving w (record w { tokens = ts; users = us })
  with_rows ts us t h u e = record {
    sessions = Evolves-refl session_id SessionStep SessionStep-refl w.sessions;
    hashes = Evolves-refl session_hash SessionStep SessionStep-refl w.sessions;
    tokens = t;
    token_hashes = h;
    users = u;
    emails = e;
    audit = Extends-refl w.audit_log;
  }

  -- Every session is changed by a step.
  map_sessions :
      (g : Session → Session)
      → ((s : Session) → SessionStep s (g s))
      → Evolving w (record w { sessions = map g w.sessions })
  map_sessions g step =
      with_sessions (map g w.sessions)
        (Evolves-map session_id g (λ s. ap session_id ((step s).kept)) SessionStep step w.sessions)
        (Evolves-map session_hash g (λ s. ap session_hash ((step s).kept)) SessionStep step
          w.sessions)

revoke_at-SessionStep : (now : ℕ) (s : Session) → SessionStep s (revoke_at now s)
revoke_at-SessionStep now s = record { kept = refl; final = λ h. refl }

if-SessionStep :
    (b : Bool) (now : ℕ) (s : Session) → SessionStep s (if b then revoke_at now s else s)
if-SessionStep true now s = revoke_at-SessionStep now s
if-SessionStep false now s = SessionStep-refl s

pub create_session-Calm : (s : Session) → Calm (create_session s)
unfolding create_session
create_session-Calm s = Steps-bind evolving Any _ _ (round_trip-Calm database) λ _.
    Steps-check evolving _ _ _ _ (
      Steps-check evolving _ _ _ _ (
        Steps-check evolving _ _ _ _ (
          Steps-modify evolving _ _ (λ w h.
            with_sessions w (new_session s w.clock ∷ w.sessions)
              (Evolves-cons session_id SessionStep SessionStep-refl _ w.sessions
                (not_set _ h.0.0.1))
              (Evolves-cons session_hash SessionStep SessionStep-refl _ w.sessions
                (not_set _ h.0.1))))))

pub revoke_session-Calm : (id : Uuid) → Calm (revoke_session id)
unfolding revoke_session
revoke_session-Calm id = Steps-bind evolving Any _ _ (round_trip-Calm database) λ _.
    Steps-bind evolving Any _ _ (Steps-find_or_raise evolving Any _ _) λ _.
      Steps-modify evolving Any _ (λ w _.
        rw (update-map session_id id (revoke_at w.clock) w.sessions) (
          map_sessions w (if_key session_id id (revoke_at w.clock))
            (λ s. if-SessionStep (s.id == id) w.clock s)))

pub revoke_user_sessions-Calm : (id : Uuid) → Calm (revoke_user_sessions id)
unfolding revoke_user_sessions
revoke_user_sessions-Calm id = Steps-bind evolving Any _ _ (round_trip-Calm database) λ _.
    Steps-bind evolving Any _ _ (Steps-gets evolving Any _) λ n.
      Steps-write evolving Any _ _
        (λ w _. rw (update_where-map (live_of id) (revoke_at w.clock) w.sessions) (
          map_sessions w (if_row (live_of id) (revoke_at w.clock))
            (λ s. if-SessionStep (live_of id s) w.clock s)))
        (Steps-pure evolving Any n)

pub create_verification_token-Calm : (t : VerificationToken) → Calm (create_verification_token t)
unfolding create_verification_token
create_verification_token-Calm t = Steps-bind evolving Any _ _ (round_trip-Calm database) λ _.
    Steps-require evolving _ _ _ _ λ _. Steps-check evolving _ _ _ _ (
      Steps-check evolving _ _ _ _ (
        Steps-check evolving _ _ _ _ (
          Steps-modify evolving _ _ (λ w h.
            with_rows w (new_token t w.clock ∷ w.tokens) w.users
              (Evolves-cons token_id TokenStep TokenStep-refl _ w.tokens (not_set _ h.0.0.1))
              (Evolves-cons token_hash TokenStep TokenStep-refl _ w.tokens (not_set _ h.0.1))
              (Evolves-refl user_id UserStep UserStep-refl w.users) (λ e. e)))))

consume-TokenStep :
    (b : Bool) (at : ℕ) (t : VerificationToken) → TokenStep t (if b then consume_at at t else t)
consume-TokenStep true at t = record { kept = refl; final = λ h. refl }
consume-TokenStep false at t = TokenStep-refl t

verify_email-UserStep :
    (b : Bool) (at : ℕ) (u : User) → is_set u.email_verified_at ≡ b → UserStep u (verify_email at u)
verify_email-UserStep true at u e = rw e (UserStep-refl u)
verify_email-UserStep false at u e =
    rw e (record { kept = refl; email_final = λ h. ground (arith, e, h); phone_final = λ h. refl })

verify_phone-UserStep :
    (b : Bool) (at : ℕ) (u : User) → is_set u.phone_verified_at ≡ b → UserStep u (verify_phone at u)
verify_phone-UserStep true at u e = rw e (UserStep-refl u)
verify_phone-UserStep false at u e =
    rw e (record { kept = refl; email_final = λ h. refl; phone_final = λ h. ground (arith, e, h) })

verify_user-UserStep :
    (channel : VerificationChannel) (at : ℕ) (u : User) → UserStep u (verify_user channel at u)
verify_user-UserStep VerificationChannel.email at u = verify_email-UserStep _ at u refl
verify_user-UserStep VerificationChannel.phone at u = verify_phone-UserStep _ at u refl
verify_user-UserStep (VerificationChannel.other _) at u = UserStep-refl u

pub if-UserStep : (b : Bool) (u v : User) → UserStep u v → UserStep u (if b then v else u)
if-UserStep true u v h = h
if-UserStep false u v h = UserStep-refl u

-- Every user is changed by a step.
pub map_users :
    (g : User → User)
    → ((u : User) → UserStep u (g u))
    → (us : List User) → Evolves user_id UserStep us (map g us)
map_users g step us = Evolves-map user_id g (λ u. ap user_id ((step u).kept)) UserStep step us

map_tokens :
    (g : VerificationToken → VerificationToken)
    → ((t : VerificationToken) → TokenStep t (g t))
    → (ts : List VerificationToken)
    → Evolves token_id TokenStep ts (map g ts) × Evolves token_hash TokenStep ts (map g ts)
map_tokens g step ts = (
  Evolves-map token_id g (λ t. ap token_id ((step t).kept)) TokenStep step ts,
  Evolves-map token_hash g (λ t. ap token_hash ((step t).kept)) TokenStep step ts,
)

-- A change of the users that keeps their emails.
pub map-UniqueEmails :
    (g : User → User)
    → ((u : User) → UserStep u (g u))
    → (us : List User) → UniqueEmails us
    → UniqueEmails (map g us)
map-UniqueEmails g step us h = record {
  one = λ k v e.
      let (u, old, made) = mapped k v e in
      let mail : v.email ≡ u.email = ap user_email (sym made) ∙ ap user_email ((step u).kept) in
      ap (λ m. find_email m (map g us)) mail
      ∙ find-map user_email g (λ a. ap user_email ((step a).kept)) u.email us
      ∙ ap (Option.map g) (h.one k u old)
      ∙ ap some made;
  lower = λ k v e.
      let (u, old, made) = mapped k v e in
      let mail : v.email ≡ u.email = ap user_email (sym made) ∙ ap user_email ((step u).kept) in
      ap to_lower mail ∙ h.lower k u old ∙ sym mail;
}
  where
    mapped :
        (k : Uuid) (v : User)
        → find_user k (map g us) ≡ some v
        → (u : User) × (find_user k us ≡ some u) × (g u ≡ v)
    mapped k v e =
        map-eq-some g (find_user k us) v
          (sym (find-map user_id g (λ a. ap user_id ((step a).kept)) k us) ∙ e)

pub consume_verification_token-Calm :
    (id owner : Uuid) (channel : VerificationChannel) (at : ℕ)
    → Calm (consume_verification_token id owner channel at)
unfolding consume_verification_token
consume_verification_token-Calm id owner channel at =
    Steps-bind evolving Any _ _ (round_trip-Calm database) λ _. Steps-check evolving _ _ _ _ (
      Steps-require evolving _ _ _ _ λ _. Steps-modify evolving _ _ λ w _.
        rw
          (
            update-map token_id id (consume_at at) w.tokens,
            update-map user_id owner (verify_user channel at) w.users,
          )
          (let ts =
              map_tokens (if_key token_id id (consume_at at))
                (λ t. consume-TokenStep (t.id == id) at t) w.tokens in
            with_rows w _ _ ts.0 ts.1
              (map_users (if_key user_id owner (verify_user channel at))
                (λ u. if-UserStep (u.id == owner) u _ (verify_user-UserStep channel at u)) w.users)
              (map-UniqueEmails (if_key user_id owner (verify_user channel at))
                (λ u. if-UserStep (u.id == owner) u _ (verify_user-UserStep channel at u))
                w.users)))
