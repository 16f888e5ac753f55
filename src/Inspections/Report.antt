-- ===== src/Inspections/Report.antt =====
-- backend/inspections/report.go: the selection of the findings, the tests before a report, its canonical
-- text with the digest, and its verification. SHA-256, the encoding of JSON and the printed forms of
-- identifiers and times are parameters.
pub mod Checks
use motivra.Prelude.{
  ℕ, zero, suc, ◌+◌, ◌/◌, ◌%◌, Bool, true, false, not, ◌&&◌, ◌||◌, List, [], ◌∷◌, ◌++◌, Option,
  none, some, ltb, ◌==◌, length, map, if◌then◌else◌,
}
use motivra.Prelude.Text.{Text, bytes, text_eq, text-Eq}
use motivra.Prelude.Order.{order_by, where_rows, any_row}
use motivra.Prelude.Table.{find}
use motivra.Inspections.World.{
  Uuid, nil_uuid, FindingResult, Severity, EvidenceKind, Template, InspectionSession, Finding,
  Evidence, Report, ReportVerification, is_some,
}
use motivra.Inspections.Templates.{template_item, required_keys}

-- `f` takes the place of `c`: it is newer, or as new and of a larger identifier.
abbrev pub supersedes : Finding → Finding → Bool
supersedes f c = ltb c.created_at f.created_at || (f.created_at == c.created_at && ltb c.id f.id)

-- One round of the loop over the findings; the map is the list of its values.
unfoldable pub keep_latest : Finding → List Finding → List Finding
keep_latest f [] = f ∷ []
keep_latest f (c ∷ cs) =
    let rest = keep_latest f cs in
    if text_eq c.item_key f.item_key then (if supersedes f c then f ∷ cs else c ∷ cs) else c ∷ rest

unfoldable pub latest_by_item : List Finding → List Finding → List Finding
unfolding keep_latest
latest_by_item latest [] = latest
latest_by_item latest (f ∷ fs) = latest_by_item (keep_latest f latest) fs

abbrev pub finding_item : Finding → Text
finding_item f = f.item_key

abbrev pub is_row : Option Finding → Finding → Bool
is_row none f = false
is_row (some sel) f = sel.id == f.id

-- Go compares strings by their bytes.
unfoldable pub text_before : Text → Text → Bool
text_before s [] = false
text_before [] (d ∷ t) = true
text_before (c ∷ s) (d ∷ t) = let rest = text_before s t in if c == d then rest else ltb c d

abbrev pub item_before : Finding → Finding → Bool
item_before f g =
    if text_eq f.item_key g.item_key then ltb f.id g.id else text_before f.item_key g.item_key

unfoldable pub select_latest_findings : List Finding → List Finding
unfolding latest_by_item text_before
select_latest_findings fs =
    order_by item_before
      (where_rows (λ f. is_row (find finding_item f.item_key (latest_by_item [] fs)) f) fs)

-- The digits of a number, for `%d`: the fuel is above the number.
unfoldable pub decimal_from : ℕ → ℕ → Text
decimal_from zero n = []
decimal_from (suc fuel) n =
    let rest = decimal_from fuel (n / 10) in
    if ltb n 10 then (b'0' + n) ∷ [] else rest ++ (b'0' + n % 10) ∷ []

unfoldable pub decimal : ℕ → Text
unfolding decimal_from
decimal n = decimal_from (suc n) n

-- What a finding and a piece of evidence are in a snapshot.
pub record FindingSnapshot : Type 0 where
  pub id : Uuid
  pub item_key : Text
  pub result : FindingResult
  pub severity : Severity
  pub notes : Text
  pub recorded_by : Option Uuid
  pub created_at : ℕ

pub record EvidenceSnapshot : Type 0 where
  pub id : Uuid
  pub finding_id : Option Uuid
  pub kind : EvidenceKind
  pub content_hash : Text
  pub captured_at : ℕ
  pub uploaded : Bool

pub record Formats : Type 0 where
  pub uuid_string : Uuid → Text
  pub time_string : ℕ → Text
  pub sha256_hex : Text → Text
  pub findings_json : List FindingSnapshot → Text
  pub evidence_json : List EvidenceSnapshot → Text

abbrev pub result_string : FindingResult → Text
result_string FindingResult.pass = bytes "PASS"
result_string FindingResult.fail = bytes "FAIL"
result_string FindingResult.attention = bytes "ATTENTION"
result_string FindingResult.not_applicable = bytes "NOT_APPLICABLE"
result_string (FindingResult.other s) = s

abbrev pub severity_string : Severity → Text
severity_string Severity.green = bytes "GREEN"
severity_string Severity.amber = bytes "AMBER"
severity_string Severity.red = bytes "RED"
severity_string (Severity.other s) = s

abbrev pub kind_string : EvidenceKind → Text
kind_string EvidenceKind.photo = bytes "PHOTO"
kind_string EvidenceKind.reading = bytes "READING"
kind_string EvidenceKind.document = bytes "DOCUMENT"
kind_string (EvidenceKind.other s) = s

-- strings.Join
unfoldable pub join : Text → List Text → Text
join sep [] = []
join sep (s ∷ []) = s
join sep (s ∷ t ∷ ts) = s ++ (sep ++ join sep (t ∷ ts))

unfoldable pub template_matches : Template → InspectionSession → Bool
template_matches t s =
    t.id == s.template_id && (text_eq t.name s.template_name && t.version == s.template_version)

module _ (p : Formats) where
  abbrev pub uuid_or_dash : Option Uuid → Text
  uuid_or_dash none = bytes "-"
  uuid_or_dash (some id) = if id == nil_uuid then bytes "-" else p.uuid_string id

  -- The zero time where the session was not submitted.
  abbrev pub submission_timestamp : Option ℕ → Text
  submission_timestamp none = p.time_string 0
  submission_timestamp (some t) = p.time_string t

  abbrev pub finding_line : Finding → Text
  finding_line f =
      bytes "finding="
      ++ join (bytes ",") (
          p.uuid_string f.id
          ∷ f.item_key
          ∷ result_string f.result
          ∷ severity_string f.severity
          ∷ p.sha256_hex f.notes
          ∷ uuid_or_dash f.recorded_by
          ∷ [])

  abbrev pub evidence_line : Evidence → Text
  evidence_line e =
      bytes "evidence="
      ++ join (bytes ",") (
          p.uuid_string e.id
          ∷ kind_string e.kind
          ∷ e.content_hash
          ∷ uuid_or_dash e.finding_id
          ∷ (if e.uploaded then bytes "1" else bytes "0")
          ∷ [])

  unfoldable pub build_report_input : InspectionSession → List Finding → List Evidence → ℕ → Text
  unfolding bytes join decimal
  build_report_input s findings evidence version = join (bytes "\n") (
      (bytes "motivra-inspections-report-v1"
        ∷ (bytes "session_id=" ++ p.uuid_string s.id)
        ∷ (bytes "version=" ++ decimal version)
        ∷ (bytes "vehicle_id=" ++ uuid_or_dash s.vehicle_id)
        ∷ (bytes "job_id=" ++ uuid_or_dash s.job_id)
        ∷ (bytes "template_id=" ++ p.uuid_string s.template_id)
        ∷ (bytes "template_name=" ++ s.template_name)
        ∷ (bytes "template_version=" ++ decimal s.template_version)
        ∷ (bytes "inspector_id=" ++ p.uuid_string s.inspector_id)
        ∷ (bytes "submitted_at=" ++ submission_timestamp s.submitted_at)
        ∷ [])
      ++ (map finding_line findings
          ++ (map evidence_line evidence
              ++ (bytes "findings="
                  ++ (decimal (length findings)
                      ++ (bytes ",evidence=" ++ decimal (length evidence))))
                ∷ [])))

  unfoldable pub hash_report_input : Text → Text
  hash_report_input input = p.sha256_hex input

  unfoldable pub marshal_findings : List Finding → Text
  marshal_findings fs = p.findings_json (
      map
        (λ (f : Finding). record {
          id = f.id;
          item_key = f.item_key;
          result = f.result;
          severity = f.severity;
          notes = f.notes;
          recorded_by = f.recorded_by;
          created_at = f.created_at;
        })
        fs)

  unfoldable pub marshal_evidence : List Evidence → Text
  marshal_evidence es = p.evidence_json (
      map
        (λ (e : Evidence). record {
          id = e.id;
          finding_id = e.finding_id;
          kind = e.kind;
          content_hash = e.content_hash;
          captured_at = e.captured_at;
          uploaded = e.uploaded;
        })
        es)

  unfoldable pub verify_report :
      Template → InspectionSession → List Finding → List Evidence → Report → ℕ → ReportVerification
  unfolding template_matches marshal_findings marshal_evidence build_report_input hash_report_input
      select_latest_findings
  verify_report t s findings evidence r now =
      let template_match = template_matches t s in
      let findings_match =
        text_eq (marshal_findings (select_latest_findings findings)) r.findings_snapshot in
      let evidence_match = text_eq (marshal_evidence evidence) r.evidence_snapshot in
      let recomputed =
        hash_report_input
          (build_report_input s (select_latest_findings findings) evidence r.version) in
      let hash_match = text_eq recomputed r.content_hash in
      record {
        report_id = r.id;
        session_id = r.session_id;
        version = r.version;
        verified = hash_match && (findings_match && (evidence_match && template_match));
        hash_match = hash_match;
        findings_match = findings_match;
        evidence_match = evidence_match;
        template_match = template_match;
        findings_checked = length findings;
        evidence_checked = length evidence;
        stored_hash = r.content_hash;
        recomputed_hash = recomputed;
        checked_at = now;
      }
