-- ===== src/Identity/Store/Sessions.antt =====
-- The refresh sessions in backend/identity/store.go.
use motivra.Prelude.{
  ℕ, Bool, true, false, not, ◌&&◌, List, ◌∷◌, Option, none, some, ltb, ◌==◌, if◌then◌else◌, nat_eq,
}
use motivra.Prelude.Text.{Text, text-Eq}
use motivra.Prelude.Order.{order_by, where_rows, update_where, count_rows}
use motivra.Prelude.Exec.{◌>>=◌, ◌>>◌, gets, find_or_raise, pure, check, modify}
use motivra.Prelude.Table.{find, update}
use motivra.Identity.World.{
  Uuid, Session, missing, database, session_exists, is_set, Action, round_trip,
}
use motivra.Identity.Store.Users.{find_user}

abbrev pub session_id : Session → Uuid
session_id s = s.id

abbrev pub session_hash : Session → Text
session_hash s = s.refresh_token_hash

abbrev pub find_session : Uuid → List Session → Option Session
find_session = find session_id

abbrev pub find_hash : Text → List Session → Option Session
find_hash = find session_hash

-- The row of CreateSession: created_at is the database's, revoked_at is NULL.
abbrev pub new_session : Session → ℕ → Session
new_session s now = record s { created_at = now; revoked_at = none }

unfoldable pub create_session : Session → Action (Unit {0})
create_session s = do
  round_trip database
  check (λ w. not (is_set (find_session s.id w.sessions))) session_exists
  check (λ w. not (is_set (find_hash s.refresh_token_hash w.sessions))) session_exists
  check (λ w. is_set (find_user s.user_id w.users)) database
  modify (λ w. record w { sessions = new_session s w.clock ∷ w.sessions })

unfoldable pub get_session_by_refresh_hash : Text → Action Session
get_session_by_refresh_hash hash = do
  round_trip database
  find_or_raise (λ w. find_hash hash w.sessions) missing

unfoldable pub get_session_by_id : Uuid → Action Session
get_session_by_id id = do
  round_trip database
  find_or_raise (λ w. find_session id w.sessions) missing

-- ORDER BY created_at DESC, id
abbrev pub newer_session : Session → Session → Bool
newer_session s t =
    if ltb t.created_at s.created_at
    then true
    else (if s.created_at == t.created_at then ltb s.id t.id else false)

unfoldable pub list_user_sessions : Uuid → Action (List Session)
list_user_sessions id = do
  round_trip database
  gets (λ w. order_by newer_session (where_rows (λ s. s.user_id == id) w.sessions))

abbrev pub revoke_at : ℕ → Session → Session
revoke_at now s = record s { revoked_at = some now }

-- A session that was revoked before is stamped again.
unfoldable pub revoke_session : Uuid → Action (Unit {0})
revoke_session id = do
  round_trip database
  find_or_raise (λ w. find_session id w.sessions) missing
  modify (λ w. record w { sessions = update session_id id (revoke_at w.clock) w.sessions })

abbrev pub is_live : Session → Bool
is_live s = not (is_set s.revoked_at)

abbrev pub live_of : Uuid → Session → Bool
live_of id s = s.user_id == id && is_live s

-- The number of rows that were revoked.
unfoldable pub revoke_user_sessions : Uuid → Action ℕ
revoke_user_sessions id = do
  round_trip database
  n ← gets (λ w. count_rows (live_of id) w.sessions)
  modify (λ w. record w { sessions = update_where (live_of id) (revoke_at w.clock) w.sessions })
  pure n
