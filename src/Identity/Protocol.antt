-- ===== src/Identity/Protocol.antt =====
-- What the identity service promises of a session, without its rows: it is opened once, for an owner and
-- up to an end that never moves, and once it has ended it never lives again.
use motivra.Prelude.{
  ℕ, ◌≡◌, refl, ap, Bool, true, false, List, Option, none, some, arith, if◌then◌else◌, Option-cases,
  inl, inr, nat_eq,
}
use motivra.Identity.World.{Uuid, Session, is_set, IdentityWorld}
use motivra.Identity.Store.Sessions.{find_session}
use motivra.Identity.Service.{IdentityService}
use motivra.Identity.Evolution.{SessionStep}
use motivra.Identity.Evolution.History.{IdentityCall, identity_history, history-Evolving}

pub data SessionView : Type 0 where
  absent : SessionView
  live ended : Uuid → ℕ → SessionView

pub data ProtocolStep : SessionView → SessionView → Type 0 where
  opens : {owner : Uuid} {end : ℕ} → ProtocolStep absent (live owner end)
  ends : {owner : Uuid} {end : ℕ} → ProtocolStep (live owner end) (ended owner end)

pub data ProtocolPath : SessionView → SessionView → Type 0 where
  stays : {v : SessionView} → ProtocolPath v v
  then_step : {u v w : SessionView} → ProtocolPath u v → ProtocolStep v w → ProtocolPath u w

-- The view of a row.
abbrev pub row_view : Option Session → SessionView
row_view none = absent
row_view (some s) =
    if is_set s.revoked_at
    then ended s.user_id s.absolute_expires_at
    else live s.user_id s.absolute_expires_at

abbrev pub session_view : Uuid → IdentityWorld → SessionView
session_view id w = row_view (find_session id w.sessions)

from_absent : (v : SessionView) → ProtocolPath absent v
from_absent absent = stays
from_absent (live owner end) = then_step stays opens
from_absent (ended owner end) = then_step (then_step stays opens) ends

forward :
    (owner : Uuid) (end : ℕ) (a b : Bool)
    → (a ≡ true → b ≡ true)
    → ProtocolPath
        (if a then ended owner end else live owner end)
        (if b then ended owner end else live owner end)
forward owner end true true h = stays
forward owner end true false h = ground (arith, h refl)
forward owner end false true h = then_step stays ends
forward owner end false false h = stays

step-Path : (a b : Session) → SessionStep a b → ProtocolPath (row_view (some a)) (row_view (some b))
step-Path a b step =
    rw (ap (λ s. s.user_id) step.kept, ap (λ s. s.absolute_expires_at) step.kept)
      (forward a.user_id a.absolute_expires_at (is_set a.revoked_at) (is_set b.revoked_at)
        step.final)

-- Every history of calls moves each session along the protocol: from absent to live to ended, with the
-- owner and the absolute end that it was opened with.
pub history-ProtocolPath :
    (s : IdentityService) (cs : List IdentityCall) (w : IdentityWorld) (id : Uuid)
    → ProtocolPath (session_view id w) (session_view id (identity_history s cs w))
history-ProtocolPath s cs w id = elim (Option-cases (find_session id w.sessions)) [
  | inl new ↦ rw new (from_absent (session_view id (identity_history s cs w)))
  | inr (a, old) ↦
      let (b, found, step) = (history-Evolving s cs w).sessions.row id a old in
      rw (old, found) (step-Path a b step)
]
