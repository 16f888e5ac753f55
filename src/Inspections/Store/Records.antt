-- ===== src/Inspections/Store/Records.antt =====
-- Findings and evidence in backend/inspections/store.go, with the constraints and the triggers that seal
-- a session after its submission.
use motivra.Prelude.{
  ℕ, Bool, true, false, ◌&&◌, ◌||◌, List, [], ◌∷◌, Option, none, some, leb, ltb, ◌==◌, length,
  if◌then◌else◌, nat_eq,
}
use motivra.Prelude.Text.{Text}
use motivra.Prelude.Order.{order_by, where_rows}
use motivra.Prelude.Exec.{◌>>=◌, ◌>>◌, gets, pure, require, check, modify}
use motivra.Prelude.Table.{find}
use motivra.Inspections.Status.{SessionStatus, session_status_eq}
use motivra.Inspections.World.{
  Uuid, FindingResult, Severity, is_evidence_kind, InspectionSession, Finding, Evidence,
  session_not_found, database, Action, round_trip, own_id, is_none, is_some,
}
use motivra.Inspections.Scope.{arguments_fit, InspectionScope, is_unrestricted}
use motivra.Inspections.Store.{find_session, scoped_session}

abbrev pub finding_id : Finding → Uuid
finding_id f = f.id

abbrev pub evidence_id : Evidence → Uuid
evidence_id e = e.id

-- The trigger passes where the session is missing: the foreign key refuses the row then.
abbrev pub open_or_missing : Option InspectionSession → Bool
open_or_missing none = true
open_or_missing (some s) = session_status_eq s.status SessionStatus.in_progress

abbrev pub known_result : FindingResult → Bool
known_result (FindingResult.other _) = false
known_result _ = true

abbrev pub known_severity : Severity → Bool
known_severity (Severity.other _) = false
known_severity _ = true

unfoldable pub insert_finding : Finding → Action Finding
unfolding session_status_eq
insert_finding f = do
  id ← own_id f.id
  round_trip database
  check (λ w. open_or_missing (find_session f.session_id w.sessions)) database
  require (known_result f.result && known_severity f.severity) database
  check (λ w. is_none (find finding_id id w.findings)) database
  check (λ w. is_some (find_session f.session_id w.sessions)) session_not_found
  now ← gets (λ w. w.clock)
  modify (λ w. record w { findings = record f { id = id; created_at = now } ∷ w.findings })
  pure (record f { id = id; created_at = now })

-- The rows of a session may be read: EXISTS (SELECT … FROM inspection_sessions …), where the scope
-- restricts.
unfoldable pub rows_visible : InspectionScope → Uuid → List InspectionSession → Bool
unfolding is_unrestricted scoped_session
rows_visible scope id ss =
    if is_unrestricted scope then true else is_some (scoped_session scope (find_session id ss))

-- ORDER BY created_at ASC, id ASC
abbrev pub older_finding : Finding → Finding → Bool
older_finding f g =
    if ltb f.created_at g.created_at
    then true
    else (if f.created_at == g.created_at then ltb f.id g.id else false)

abbrev pub older_evidence : Evidence → Evidence → Bool
older_evidence f g =
    if ltb f.created_at g.created_at
    then true
    else (if f.created_at == g.created_at then ltb f.id g.id else false)

abbrev pub findings_of : Uuid → List Finding → List Finding
findings_of id fs = where_rows (λ f. f.session_id == id) fs

abbrev pub evidence_of : Uuid → List Evidence → List Evidence
evidence_of id es = where_rows (λ e. e.session_id == id) es

unfoldable pub list_findings : Uuid → InspectionScope → Action (List Finding)
unfolding rows_visible arguments_fit
list_findings id scope = do
  round_trip database
  require (arguments_fit scope) database
  gets (λ w.
      if rows_visible scope id w.sessions
      then order_by older_finding (findings_of id w.findings)
      else [])

abbrev pub is_hex : ℕ → Bool
is_hex c = leb b'0' c && leb c b'9' || (leb b'a' c && leb c b'f')

unfoldable pub all_hex : Text → Bool
all_hex [] = true
all_hex (c ∷ s) = let rest = all_hex s in if is_hex c then rest else false

-- `^[0-9a-f]{64}$`
unfoldable pub is_sha256_hex : Text → Bool
unfolding all_hex
is_sha256_hex s = length s == 64 && all_hex s

abbrev pub finding_exists : Option Uuid → List Finding → Bool
finding_exists none fs = true
finding_exists (some id) fs = is_some (find finding_id id fs)

unfoldable pub insert_evidence : Evidence → Action Evidence
unfolding session_status_eq is_sha256_hex
insert_evidence e = do
  id ← own_id e.id
  round_trip database
  check (λ w. open_or_missing (find_session e.session_id w.sessions)) database
  require (is_evidence_kind e.kind && is_sha256_hex e.content_hash) database
  check (λ w. is_none (find evidence_id id w.evidence)) database
  check (λ w. is_some (find_session e.session_id w.sessions)) session_not_found
  check (λ w. finding_exists e.finding_id w.findings) session_not_found
  now ← gets (λ w. w.clock)
  modify (λ w. record w { evidence = record e { id = id; created_at = now } ∷ w.evidence })
  pure (record e { id = id; created_at = now })

unfoldable pub list_evidence : Uuid → InspectionScope → Action (List Evidence)
unfolding rows_visible arguments_fit
list_evidence id scope = do
  round_trip database
  require (arguments_fit scope) database
  gets (λ w.
      if rows_visible scope id w.sessions
      then order_by older_evidence (evidence_of id w.evidence)
      else [])
