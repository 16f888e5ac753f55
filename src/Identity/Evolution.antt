-- ===== src/Identity/Evolution.antt =====
-- How the identity tables may change: no row is lost, a revoked session stays revoked, a consumed
-- token stays consumed, a verified channel stays verified, and the audit log only grows.
pub mod Store
pub mod Writes
pub mod Rules
pub mod Service
pub mod Operations
pub mod History
pub mod Users
use motivra.Prelude.{
  ◌≡◌, refl, sym, ap, ◌∙◌, Bool, true, false, List, [], ◌∷◌, ◌++◌, Option, none, some, arith, ◌==◌,
  if◌then◌else◌, nat_eq, Extends, Extends-refl, Extends-trans,
}
use motivra.Prelude.Text.{text-Eq}
use motivra.Prelude.Ascii.{to_lower}
use motivra.Prelude.Exec.Steps.{Preorder}
use motivra.Prelude.Table.{Evolves, Evolves-refl, Evolves-trans}
use motivra.Identity.World.{
  Uuid, User, Session, VerificationToken, AuditRecord, IdentityWorld, is_set,
}
use motivra.Identity.Store.Users.{user_id, find_user, find_email}
use motivra.Identity.Store.Sessions.{session_id, session_hash}
use motivra.Identity.Store.Tokens.{token_id, token_hash}

-- Only the revocation time changes, and it is never taken back.
pub record SessionStep (a b : Session) : Type 0 where
  pub kept : b ≡ record a { revoked_at = b.revoked_at }
  pub final : is_set a.revoked_at ≡ true → is_set b.revoked_at ≡ true

pub record TokenStep (a b : VerificationToken) : Type 0 where
  pub kept : b ≡ record a { consumed_at = b.consumed_at }
  pub final : is_set a.consumed_at ≡ true → is_set b.consumed_at ≡ true

pub record UserStep (a b : User) : Type 0 where
  pub kept : b ≡ record a {
    password_hash = b.password_hash;
    email_verified_at = b.email_verified_at;
    phone_verified_at = b.phone_verified_at;
    updated_at = b.updated_at;
  }
  pub email_final : is_set a.email_verified_at ≡ true → b.email_verified_at ≡ a.email_verified_at
  pub phone_final : is_set a.phone_verified_at ≡ true → b.phone_verified_at ≡ a.phone_verified_at

-- The row that a lookup by email finds is the only one with that email, and the emails are in lower case.
pub record UniqueEmails (us : List User) : Type 0 where
  pub one : (k : Uuid) (u : User) → find_user k us ≡ some u → find_email u.email us ≡ some u
  pub lower : (k : Uuid) (u : User) → find_user k us ≡ some u → to_lower u.email ≡ u.email

pub record Evolving (v w : IdentityWorld) : Type 0 where
  pub sessions : Evolves session_id SessionStep v.sessions w.sessions
  pub hashes : Evolves session_hash SessionStep v.sessions w.sessions
  pub tokens : Evolves token_id TokenStep v.tokens w.tokens
  pub token_hashes : Evolves token_hash TokenStep v.tokens w.tokens
  pub users : Evolves user_id UserStep v.users w.users
  pub emails : UniqueEmails v.users → UniqueEmails w.users
  pub audit : Extends v.audit_log w.audit_log

pub SessionStep-refl : (a : Session) → SessionStep a a
SessionStep-refl a = record { kept = refl; final = λ h. h }

pub SessionStep-trans : (a b c : Session) → SessionStep a b → SessionStep b c → SessionStep a c
SessionStep-trans a b c f g = record {
  kept = cc (f.kept, g.kept);
  final = λ h. g.final (f.final h);
}

pub TokenStep-refl : (a : VerificationToken) → TokenStep a a
TokenStep-refl a = record { kept = refl; final = λ h. h }

TokenStep-trans : (a b c : VerificationToken) → TokenStep a b → TokenStep b c → TokenStep a c
TokenStep-trans a b c f g = record { kept = cc (f.kept, g.kept); final = λ h. g.final (f.final h) }

pub UserStep-refl : (a : User) → UserStep a a
UserStep-refl a = record { kept = refl; email_final = λ h. refl; phone_final = λ h. refl }

UserStep-trans : (a b c : User) → UserStep a b → UserStep b c → UserStep a c
UserStep-trans a b c f g = record {
  kept = ground (arith, f.kept, g.kept);
  email_final = λ h. g.email_final (ap is_set (f.email_final h) ∙ h) ∙ f.email_final h;
  phone_final = λ h. g.phone_final (ap is_set (f.phone_final h) ∙ h) ∙ f.phone_final h;
}

pub evolving : Preorder Evolving
evolving = record {
  same = λ w. record {
    sessions = Evolves-refl session_id SessionStep SessionStep-refl w.sessions;
    hashes = Evolves-refl session_hash SessionStep SessionStep-refl w.sessions;
    tokens = Evolves-refl token_id TokenStep TokenStep-refl w.tokens;
    token_hashes = Evolves-refl token_hash TokenStep TokenStep-refl w.tokens;
    users = Evolves-refl user_id UserStep UserStep-refl w.users;
    emails = λ h. h;
    audit = Extends-refl w.audit_log;
  };
  chain = λ u v w f g. record {
    sessions = Evolves-trans session_id SessionStep SessionStep-trans _ _ _ f.sessions g.sessions;
    hashes = Evolves-trans session_hash SessionStep SessionStep-trans _ _ _ f.hashes g.hashes;
    tokens = Evolves-trans token_id TokenStep TokenStep-trans _ _ _ f.tokens g.tokens;
    token_hashes =
        Evolves-trans token_hash TokenStep TokenStep-trans _ _ _ f.token_hashes g.token_hashes;
    users = Evolves-trans user_id UserStep UserStep-trans _ _ _ f.users g.users;
    emails = λ h. g.emails (f.emails h);
    audit = Extends-trans _ _ _ f.audit g.audit;
  };
}
