-- ===== src/Inspections/Store.antt =====
-- The sessions in backend/inspections/store.go (PostgresStore), with the constraints of
-- backend/migrations/inspections.
pub mod Records
pub mod Reports
use motivra.Prelude.{
  ℕ, Bool, true, false, not, ◌&&◌, List, [], ◌∷◌, Option, none, some, ltb, ◌==◌, if◌then◌else◌,
  nat_eq,
}
use motivra.Prelude.Int.{ℤ, pos, negsuc}
use motivra.Prelude.Text.{Text}
use motivra.Prelude.Order.{order_by, page, where_rows}
use motivra.Prelude.Exec.{◌>>=◌, ◌>>◌, gets, find_or_raise, pure, require, check, modify}
use motivra.Prelude.Table.{find, update}
use motivra.Inspections.Status.{SessionStatus, session_status_eq, is_known_session}
use motivra.Inspections.World.{
  Uuid, is_vehicle_class, InspectionSession, SessionTransition, InspectionError, session_not_found,
  conflict, database, InspectionWorld, Action, round_trip, own_id, is_none,
}
use motivra.Inspections.Scope.{arguments_fit, InspectionScope, is_unrestricted, session_visible}

abbrev pub session_id : InspectionSession → Uuid
session_id s = s.id

abbrev pub find_session : Uuid → List InspectionSession → Option InspectionSession
find_session = find session_id

-- The row of CreateSession: the three times are NULL.
abbrev pub new_session : InspectionSession → Uuid → ℕ → InspectionSession
new_session s id now = record s {
  id = id;
  started_at = none;
  submitted_at = none;
  reported_at = none;
  created_at = now;
  updated_at = now;
}

-- The caller's session with what the database filled in.
unfoldable pub create_session : InspectionSession → Action InspectionSession
unfolding is_known_session
create_session s = do
  id ← own_id s.id
  round_trip database
  require
      (is_vehicle_class s.vehicle_class && (ltb 0 s.template_version && is_known_session s.status))
      database
  check (λ w. is_none (find_session id w.sessions)) database
  now ← gets (λ w. w.clock)
  modify (λ w. record w { sessions = new_session s id now ∷ w.sessions })
  pure (record s { id = id; created_at = now; updated_at = now })

-- The session, where the scope shows it.
abbrev visible_or_none : InspectionScope → Option InspectionSession → Option InspectionSession
visible_or_none scope none = none
visible_or_none scope (some s) = if session_visible scope s then some s else none

unfoldable pub scoped_session :
    InspectionScope → Option InspectionSession → Option InspectionSession
unfolding session_visible
scoped_session scope found = visible_or_none scope found

unfoldable pub get_session : Uuid → InspectionScope → Action InspectionSession
unfolding scoped_session arguments_fit
get_session id scope = do
  round_trip database
  require (arguments_fit scope) database
  find_or_raise (λ w. scoped_session scope (find_session id w.sessions)) session_not_found

pub record SessionFilter : Type 0 where
  pub vehicle_id : Option Uuid
  pub job_id : Option Uuid
  pub status : Option SessionStatus

abbrev pub same_id : Option Uuid → Option Uuid → Bool
same_id none column = true
same_id (some v) none = false
same_id (some v) (some c) = c == v

abbrev pub same_status : Option SessionStatus → SessionStatus → Bool
same_status none column = true
same_status (some v) column = session_status_eq column v

unfoldable pub passes_filter : SessionFilter → InspectionSession → Bool
unfolding session_status_eq
passes_filter f s =
    same_id f.vehicle_id s.vehicle_id
    && (same_id f.job_id s.job_id && same_status f.status s.status)

-- ORDER BY created_at DESC, id DESC
abbrev pub newer_session : InspectionSession → InspectionSession → Bool
newer_session s t =
    if ltb t.created_at s.created_at
    then true
    else (if s.created_at == t.created_at then ltb t.id s.id else false)

abbrev pub clamp_limit : ℤ → ℕ
clamp_limit (negsuc n) = 50
clamp_limit (pos n) = if n == 0 then 50 else if ltb 200 n then 200 else n

abbrev pub clamp_offset : ℤ → ℕ
clamp_offset (negsuc n) = 0
clamp_offset (pos n) = n

-- The later placeholders are numbered by the values, so a personal condition leaves a number unused, which
-- the database refuses.
unfoldable pub list_sessions :
    InspectionScope → SessionFilter → ℤ → ℤ → Action (List InspectionSession)
unfolding session_visible passes_filter arguments_fit
list_sessions scope f limit offset = do
  round_trip database
  require (arguments_fit scope) database
  gets (λ w. page (clamp_limit limit) (clamp_offset offset) (
      order_by newer_session
        (where_rows (λ s. session_visible scope s && passes_filter f s) w.sessions)))

-- The status, with the time that statusTimestampColumn names.
abbrev pub stamp_session : SessionStatus → ℕ → InspectionSession → InspectionSession
stamp_session SessionStatus.in_progress now s = record s {
  status = SessionStatus.in_progress;
  started_at = some now;
  updated_at = now;
}
stamp_session SessionStatus.submitted now s = record s {
  status = SessionStatus.submitted;
  submitted_at = some now;
  updated_at = now;
}
stamp_session SessionStatus.report_available now s = record s {
  status = SessionStatus.report_available;
  reported_at = some now;
  updated_at = now;
}
stamp_session to now s = record s { status = to; updated_at = now }

unfoldable pub update_session_status :
    Uuid → SessionStatus → SessionStatus → Option Uuid → Text → Action (Unit {0})
unfolding session_status_eq is_known_session
update_session_status id expected to actor reason = do
  round_trip database
  s ← find_or_raise (λ w. find_session id w.sessions) session_not_found
  require (session_status_eq s.status expected) conflict
  require (is_known_session to) database
  modify (λ w. record w {
    sessions = update session_id id (stamp_session to w.clock) w.sessions;
    transitions =
        record {
          session_id = id;
          from_status = s.status;
          to_status = to;
          actor_id = actor;
          reason = reason;
          created_at = w.clock;
        }
        ∷ w.transitions;
  })
