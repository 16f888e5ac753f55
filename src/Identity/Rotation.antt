-- ===== src/Identity/Rotation.antt =====
-- A refresh token is good for one refresh: what a refresh and the revocations leave in the table.
pub mod Refresh
pub mod Laws
pub mod Verification
use motivra.Prelude.{
  ◌≡◌, refl, sym, ap, ◌∙◌, Bool, true, false, List, Option, none, some, arith, ◌==◌, ==_iff,
  if◌then◌else◌, nat_eq,
}
use mathlib.Core.Option
use motivra.Prelude.Text.{Text, text-Eq}
use motivra.Prelude.Exec.{ok, ◌>>=◌}
use motivra.Prelude.Exec.Steps.{Any, Steps-bind, Steps-find_or_raise}
use motivra.Prelude.Exec.Runs.{Returns, bind-Returns, modify-Returns, find_or_raise-Returns}
use motivra.Prelude.Table.{if_key, update, update-map, find-map}
use motivra.Identity.World.{Uuid, Session, is_set, database, IdentityWorld, Action}
use motivra.Identity.Store.Sessions.{
  session_id, session_hash, find_hash, revoke_at, revoke_session, get_session_by_refresh_hash,
}
use motivra.Identity.Evolution.{SessionStep, Evolving}
use motivra.Identity.Evolution.Store.{Calm, round_trip-Calm}

-- A call that returned let the tables evolve.
pub run-Evolving :
    {A : Type 0} (m : Action A) (w : IdentityWorld) (a : A) (t : IdentityWorld)
    → Returns m w a t
    → Calm m
    → Evolving w t
run-Evolving m w a t r c = let e : Evolving w (m w).1 = c.at w tt in rw r at e

-- The session with the digest `hash` is `id`.
pub record Holds (hash : Text) (id : Uuid) (w : IdentityWorld) : Type 0 where
  pub row : Session
  pub found : find_hash hash w.sessions ≡ some row
  pub same : row.id ≡ id

-- The session with the digest `hash` is revoked.
pub record Spent (hash : Text) (w : IdentityWorld) : Type 0 where
  pub row : Session
  pub found : find_hash hash w.sessions ≡ some row
  pub revoked : is_set row.revoked_at ≡ true

pub evolve-Holds :
    (hash : Text) (id : Uuid) (v w : IdentityWorld)
    → Evolving v w
    → Holds hash id v
    → Holds hash id w
evolve-Holds hash id v w e h =
    let (b, found, step) = e.hashes.row hash h.row h.found in
    record { row = b; found = found; same = ap session_id (step.kept) ∙ h.same }

pub evolve-Spent : (hash : Text) (v w : IdentityWorld) → Evolving v w → Spent hash v → Spent hash w
evolve-Spent hash v w e h =
    let (b, found, step) = e.hashes.row hash h.row h.found in
    record { row = b; found = found; revoked = step.final h.revoked }

revoked-Spent :
    (hash : Text) (id : Uuid) (w : IdentityWorld)
    → Holds hash id w
    → Spent hash (record w { sessions = update session_id id (revoke_at w.clock) w.sessions })
revoked-Spent hash id w h = record {
  row = revoke_at w.clock h.row;
  found =
      ap (find_hash hash) (update-map session_id id (revoke_at w.clock) w.sessions)
      ∙ find-map session_hash g keeps hash w.sessions
      ∙ ap (Option.map g) h.found
      ∙ ap some (rw ((==_iff h.row.id id).1 h.same) refl);
  revoked = refl;
}
  where
    g : Session → Session
    g = if_key session_id id (revoke_at w.clock)

    keeps_if :
        (b : Bool) (s : Session)
        → session_hash (if b then revoke_at w.clock s else s) ≡ session_hash s
    keeps_if true s = refl
    keeps_if false s = refl

    keeps : (s : Session) → session_hash (g s) ≡ session_hash s
    keeps s = keeps_if (s.id == id) s

-- A revocation that returned leaves the session revoked.
pub revoke_session-Spent :
    (hash : Text) (id : Uuid) (w : IdentityWorld) (u : Unit {0}) (t : IdentityWorld)
    → Holds hash id w
    → Returns (revoke_session id) w u t
    → Spent hash t
unfolding revoke_session
revoke_session-Spent hash id w u t h r =
    let a = bind-Returns _ _ w u t r in
    let b = bind-Returns _ _ a.between u t a.second in
    let at_b : b.between ≡ a.between =
      (find_or_raise-Returns _ _ a.between b.value b.between b.first).1 in
    let held : Holds hash id a.between =
      evolve-Holds hash id w a.between
        (run-Evolving _ w a.value a.between a.first (round_trip-Calm database)) h in
    rw (modify-Returns _ b.between u t b.second, at_b) (revoked-Spent hash id a.between held)

pub get_session-Returns :
    (hash : Text) (w : IdentityWorld) (s : Session) (t : IdentityWorld)
    → Returns (get_session_by_refresh_hash hash) w s t
    → find_hash hash t.sessions ≡ some s
unfolding get_session_by_refresh_hash
get_session-Returns hash w s t r =
    let a = bind-Returns _ _ w s t r in
    let f = find_or_raise-Returns _ _ a.between s t a.second in
    ap (λ v. find_hash hash v.sessions) f.1 ∙ f.0
