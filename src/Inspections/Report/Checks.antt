-- ===== src/Inspections/Report/Checks.antt =====
-- The tests before a report: CheckReportReadiness in backend/inspections/report.go.
use motivra.Prelude.{
  Bool, true, false, not, ◌&&◌, List, [], ◌∷◌, ◌++◌, Option, none, some, ◌==◌, if◌then◌else◌,
}
use motivra.Prelude.Text.{Text, text_eq, text-Eq}
use motivra.Prelude.Order.{any_row}
use motivra.Inspections.World.{Uuid, nil_uuid, Severity, Template, Finding, Evidence, is_some}
use motivra.Inspections.Templates.{template_item, required_keys}
use motivra.Inspections.Report.{select_latest_findings}

-- What CheckReportReadiness finds wrong.
pub data Issue : Type 0 where
  unknown_item missing_item : Text → Issue
  red_without_evidence : Text → Uuid → Issue
  no_evidence : Issue

unfoldable pub item_issues : Template → List Finding → List Issue
unfolding template_item
item_issues t [] = []
item_issues t (f ∷ fs) =
    let rest = item_issues t fs in
    if is_some (template_item t f.item_key) then rest else unknown_item f.item_key ∷ rest

-- `covered[key]`
abbrev pub is_covered : Template → List Finding → Text → Bool
is_covered t selected key =
    any_row (λ f. is_some (template_item t f.item_key) && text_eq f.item_key key) selected

unfoldable pub coverage_issues : Template → List Finding → List Text → List Issue
unfolding any_row
coverage_issues t selected [] = []
coverage_issues t selected (key ∷ keys) =
    let rest = coverage_issues t selected keys in
    if is_covered t selected key then rest else missing_item key ∷ rest

abbrev pub is_about : Uuid → Option Uuid → Bool
is_about id none = false
is_about id (some f) = not (f == nil_uuid) && f == id

-- `evidenceByFinding[id]`
abbrev pub has_evidence : List Evidence → Uuid → Bool
has_evidence evidence id = any_row (λ (e : Evidence). is_about id e.finding_id) evidence

abbrev pub is_red : Severity → Bool
is_red Severity.red = true
is_red _ = false

unfoldable pub red_issues : List Evidence → List Finding → List Issue
unfolding any_row
red_issues evidence [] = []
red_issues evidence (f ∷ fs) =
    let rest = red_issues evidence fs in
    if is_red f.severity && not (has_evidence evidence f.id)
    then red_without_evidence f.item_key f.id ∷ rest
    else rest

abbrev pub evidence_issues : List Evidence → List Issue
evidence_issues [] = no_evidence ∷ []
evidence_issues (e ∷ es) = []

unfoldable pub report_issues : Template → List Finding → List Evidence → List Issue
unfolding select_latest_findings required_keys item_issues coverage_issues red_issues
report_issues t findings evidence =
    let selected = select_latest_findings findings in
    item_issues t selected
    ++ (coverage_issues t selected (required_keys t.items)
        ++ (red_issues evidence selected ++ evidence_issues evidence))

abbrev pub no_issues : List Issue → Bool
no_issues [] = true
no_issues (_ ∷ _) = false

-- CheckReportReadiness returns no error.
unfoldable pub is_ready : Template → List Finding → List Evidence → Bool
unfolding report_issues
is_ready t findings evidence = no_issues (report_issues t findings evidence)
