-- ===== src/Inspections/Store/Reports.antt =====
-- InsertReport and GetReport in backend/inspections/store.go. PostgreSQL gives a jsonb value back in its
-- own spelling: `jsonb` is that spelling of a text.
use motivra.Prelude.{
  ℕ, suc, Bool, true, false, ◌&&◌, not, List, [], ◌∷◌, Option, none, some, ltb, ◌==◌, if◌then◌else◌,
  nat_eq,
}
use motivra.Prelude.Text.{Text, bytes}
use motivra.Prelude.Order.{any_row}
use motivra.Prelude.Exec.{◌>>=◌, ◌>>◌, gets, find_or_raise, pure, require, check, modify}
use motivra.Prelude.Table.{find, update}
use motivra.Inspections.Status.{SessionStatus, session_status_eq}
use motivra.Inspections.World.{
  Uuid, Report, session_not_found, report_not_found, conflict, database, Action, round_trip, own_id,
  is_none,
}
use motivra.Inspections.Scope.{arguments_fit, InspectionScope}
use motivra.Inspections.Store.{session_id, find_session, stamp_session}
use motivra.Inspections.Store.Records.{rows_visible, is_sha256_hex}

abbrev pub report_id : Report → Uuid
report_id r = r.id

abbrev pub is_blank : Text → Bool
is_blank [] = true
is_blank (_ ∷ _) = false

abbrev pub larger : ℕ → ℕ → ℕ
larger m n = if ltb m n then n else m

-- COALESCE(MAX(version), 0) + 1
unfoldable pub last_version : Uuid → List Report → ℕ
last_version id [] = 0
last_version id (r ∷ rs) =
    let rest = last_version id rs in if r.session_id == id then larger r.version rest else rest

abbrev pub stored_report : (Text → Text) → Report → Uuid → ℕ → Report
stored_report jsonb r id now = record r {
  id = id;
  findings_snapshot = jsonb r.findings_snapshot;
  evidence_snapshot = jsonb r.evidence_snapshot;
  created_at = now;
}

-- The statements that write.
unfoldable pub add_report : (Text → Text) → Report → Uuid → Action Report
unfolding bytes
add_report jsonb r id = do
  now ← gets (λ w. w.clock)
  modify (λ w. record w {
    reports = stored_report jsonb r id now ∷ w.reports;
    sessions =
        update session_id r.session_id (stamp_session SessionStatus.report_available now)
          w.sessions;
    transitions =
        record {
          session_id = r.session_id;
          from_status = SessionStatus.submitted;
          to_status = SessionStatus.report_available;
          actor_id = r.issued_by;
          reason = bytes "report issued";
          created_at = now;
        }
        ∷ w.transitions;
  })
  pure (record r { id = id; created_at = now })

-- The version is that of no other report of the session, since it is above the last.
unfoldable pub insert_next : (Text → Text) → Report → Uuid → Action Report
unfolding last_version is_sha256_hex add_report
insert_next jsonb r id = do
  check (λ w. suc (last_version r.session_id w.reports) == r.version) conflict
  check (λ w. any_row (λ e. e.session_id == r.session_id) w.evidence) database
  require (is_sha256_hex r.content_hash) database
  check (λ w. is_none (find report_id id w.reports)) database
  add_report jsonb r id

unfoldable pub insert_report : (Text → Text) → Report → Action Report
unfolding session_status_eq insert_next
insert_report jsonb r = do
  require (not (is_blank r.content_hash)) database
  id ← own_id r.id
  round_trip database
  s ← find_or_raise (λ w. find_session r.session_id w.sessions) session_not_found
  require (session_status_eq s.status SessionStatus.submitted) conflict
  insert_next jsonb r id

-- WHERE session_id = $1 AND version = $2
unfoldable pub report_of : Uuid → ℕ → List Report → Option Report
report_of id version [] = none
report_of id version (r ∷ rs) =
    if r.session_id == id && r.version == version then some r else report_of id version rs

-- No version stands for the last one.
abbrev pub wanted_version : Option ℕ → Uuid → List Report → ℕ
wanted_version none id rs = last_version id rs
wanted_version (some v) id rs = v

-- With a version the statement of a personal scope leaves a number unused, which the database refuses too.
unfoldable pub get_report : Uuid → Option ℕ → InspectionScope → Action Report
unfolding rows_visible last_version report_of arguments_fit
get_report id version scope = do
  round_trip database
  require (arguments_fit scope) database
  find_or_raise
      (λ w.
        if rows_visible scope id w.sessions
        then report_of id (wanted_version version id w.reports) w.reports
        else none)
      report_not_found
