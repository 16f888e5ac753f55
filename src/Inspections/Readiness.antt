-- ===== src/Inspections/Readiness.antt =====
-- What the tests before a report mean.
use motivra.Prelude.{
  ◌⊎◌, ==_iff, Option, none, some, Option-cases, nat_eq, ◌≡◌, ◌≢◌, ◌↔◌, refl, sym, ap, ◌∙◌, Bool,
  true, false, not, ◌&&◌, List, [], ◌∷◌, ◌++◌, arith, All, Bool-cases, inl, inr,
}
use motivra.Prelude.Text.{Text, text_eq, text_eq_iff, text-Eq}
use motivra.Prelude.Table.{find}
use motivra.Prelude.Among.{Among, All-Among, any_row_iff, find-Among, Among-find}
use motivra.Inspections.Selection.{IsLatest, select_latest_findings_iff, latest_of_item}
use motivra.Inspections.World.{
  Uuid, nil_uuid, Severity, TemplateItem, Template, Finding, Evidence, is_some,
}
use motivra.Inspections.Templates.{item_key, template_item, required_keys}
use motivra.Inspections.Report.{select_latest_findings}
use motivra.Inspections.Report.Checks.{
  is_about, Issue, item_issues, is_covered, coverage_issues, has_evidence, is_red, red_issues,
  evidence_issues, report_issues, no_issues, is_ready,
}

no_issues-append : (xs ys : List Issue) → no_issues (xs ++ ys) ≡ (no_issues xs && no_issues ys)
no_issues-append [] ys = refl
no_issues-append (x ∷ xs) ys = refl

is_about_iff :
    (id : Uuid) (f : Option Uuid) → (is_about id f ≡ true) ↔ ((f ≡ some id) × (id ≢ nil_uuid))
is_about_iff id none = ((λ h. ground (arith, h)), λ k. ground (arith, k.0))
is_about_iff id (some f) = (
  (λ h. ground (arith, h, ==_iff f nil_uuid, ==_iff f id)),
  λ k. ground (arith, k.0, k.1, ==_iff f nil_uuid, ==_iff f id),
)

and_iff :
    (a b : Bool) {P Q : Type 0} → (a ≡ true) ↔ P → (b ≡ true) ↔ Q → ((a && b) ≡ true) ↔ (P × Q)
and_iff true b f g = ((λ h. (f.0 refl, g.0 h)), λ k. g.1 k.1)
and_iff false b f g = ((λ h. ground (arith, h)), λ k. f.1 k.0)

item_issues_iff :
    (t : Template) (fs : List Finding)
    → (no_issues (item_issues t fs) ≡ true)
      ↔ All (λ f. is_some (template_item t f.item_key) ≡ true) fs
unfolding item_issues
item_issues_iff t [] = ((λ h. tt), λ h. refl)
item_issues_iff t (f ∷ fs) = ground (arith, item_issues_iff t fs)

coverage_issues_iff :
    (t : Template) (selected : List Finding) (keys : List Text)
    → (no_issues (coverage_issues t selected keys) ≡ true)
      ↔ All (λ key. is_covered t selected key ≡ true) keys
unfolding coverage_issues
coverage_issues_iff t selected [] = ((λ h. tt), λ h. refl)
coverage_issues_iff t selected (key ∷ keys) = ground (arith, coverage_issues_iff t selected keys)

red_issues_iff :
    (evidence : List Evidence) (fs : List Finding)
    → (no_issues (red_issues evidence fs) ≡ true)
      ↔ All (λ f. (is_red f.severity && not (has_evidence evidence f.id)) ≡ false) fs
unfolding red_issues
red_issues_iff evidence [] = ((λ h. tt), λ h. refl)
red_issues_iff evidence (f ∷ fs) = ground (arith, red_issues_iff evidence fs)

evidence_issues_iff :
    (evidence : List Evidence) → (no_issues (evidence_issues evidence) ≡ true) ↔ (evidence ≢ [])
evidence_issues_iff [] = ((λ h. ground (arith, h)), λ h. absurd (h refl))
evidence_issues_iff (e ∷ es) = ((λ h. λ q. ground (arith, q)), λ h. refl)

-- The four loops find nothing.
is_ready-All :
    (t : Template) (findings : List Finding) (evidence : List Evidence)
    → (is_ready t findings evidence ≡ true) ↔ (
        All (λ f. is_some (template_item t f.item_key) ≡ true) (select_latest_findings findings)
        × All
            (λ key. is_covered t (select_latest_findings findings) key ≡ true)
            (required_keys t.items)
        × All
            (λ f. (is_red f.severity && not (has_evidence evidence f.id)) ≡ false)
            (select_latest_findings findings)
        × (evidence ≢ []))
unfolding is_ready report_issues
is_ready-All t findings evidence =
    let sel = select_latest_findings findings in
    let split : no_issues (report_issues t findings evidence) ≡ (
        no_issues (item_issues t sel)
        && (no_issues (coverage_issues t sel (required_keys t.items))
            && (no_issues (red_issues evidence sel) && no_issues (evidence_issues evidence)))) =
      no_issues-append _ _
      ∙ ap (λ b. no_issues (item_issues t sel) && b)
          (no_issues-append _ _
            ∙ ap (λ b. no_issues (coverage_issues t sel (required_keys t.items)) && b)
                (no_issues-append _ _)) in
    let both = and_iff _ _ (item_issues_iff t sel) (
      and_iff _ _ (coverage_issues_iff t sel (required_keys t.items))
        (and_iff _ _ (red_issues_iff evidence sel) (evidence_issues_iff evidence))) in
    (
      (λ h.
          let (items, (covered, (red, present))) = both.0 (sym split ∙ h) in
          (items, covered, red, present)),
      λ k.
          let (items, covered, red, present) = k in
          split ∙ both.1 (items, (covered, (red, present))),
    )

-- What a report needs, told of the findings as they were recorded: the newest finding of an item is of an
-- item of the template, every required item has a finding, a newest finding that is red has evidence of its
-- own, and there is some evidence.
pub record Reportable (t : Template) (fs : List Finding) (es : List Evidence) : Type 0 where
  pub known :
      (f : Finding) → IsLatest fs f → (i : TemplateItem) × Among i t.items × (i.key ≡ f.item_key)
  pub covered :
      (i : TemplateItem)
      → Among i t.items
      → i.required ≡ true
      → (f : Finding) × Among f fs × (f.item_key ≡ i.key)
  pub documented :
      (f : Finding)
      → IsLatest fs f
      → f.severity ≡ Severity.red
      → (e : Evidence) × Among e es × (e.finding_id ≡ some f.id) × (f.id ≢ nil_uuid)
  pub some_evidence : es ≢ []

template_item_iff :
    (t : Template) (key : Text)
    → (is_some (template_item t key) ≡ true)
      ↔ ((i : TemplateItem) × Among i t.items × (i.key ≡ key))
unfolding template_item
template_item_iff t key = (
  λ h. elim (Option-cases (find item_key key t.items)) [
    | inl gone ↦ ground (arith, h, gone)
    | inr k ↦
        let (i, found) = k in let (m, q) = find-Among item_key key t.items i found in (i, m, q)
  ],
  λ k. let (b, found) = Among-find item_key key t.items k.0 k.1 k.2 in rw found refl,
)

required_keys_iff :
    (is : List TemplateItem) (key : Text)
    → Among key (required_keys is)
      ↔ ((i : TemplateItem) × Among i is × (i.required ≡ true) × (i.key ≡ key))
unfolding required_keys
required_keys_iff [] key = ((λ h. absurd h), λ k. absurd k.1)
required_keys_iff (i ∷ is) key = elim (Bool-cases i.required) [
  | inl needed ↦ (
    (λ h.
        let row : (key ≡ i.key) ⊎ Among key (required_keys is) = rw needed at h in
        elim row [
          | inl e ↦ (i, inl refl, needed, sym e)
          | inr m ↦ let (x, a, r, q) = (required_keys_iff is key).0 m in (x, inr a, r, q)
        ]),
    λ k. rw needed (elim k.1 [
      | inl e ↦ inl (sym k.3 ∙ ap item_key e)
      | inr a ↦ inr ((required_keys_iff is key).1 (k.0, a, k.2, k.3))
    ]),
  )
  | inr free ↦ (
    (λ h.
        let row : Among key (required_keys is) = rw free at h in
        let (x, a, r, q) = (required_keys_iff is key).0 row in (x, inr a, r, q)),
    λ k. rw free (elim k.1 [
      | inl e ↦ ground (arith, ap (λ (x : TemplateItem). x.required) e, k.2, free)
      | inr a ↦ (required_keys_iff is key).1 (k.0, a, k.2, k.3)
    ]),
  )
]

is_red_iff : (s : Severity) → (is_red s ≡ true) ↔ (s ≡ Severity.red)
is_red_iff s = ((λ h. ground (arith, h)), λ h. ground (arith, h))

has_evidence_iff :
    (es : List Evidence) (id : Uuid)
    → (has_evidence es id ≡ true)
      ↔ ((e : Evidence) × Among e es × (e.finding_id ≡ some id) × (id ≢ nil_uuid))
has_evidence_iff es id = (
  λ h.
      let (e, m, t) = (any_row_iff (λ (e : Evidence). is_about id e.finding_id) es).0 h in
      let about = (is_about_iff id e.finding_id).0 t in (e, m, about.0, about.1),
  λ k.
      (any_row_iff (λ (e : Evidence). is_about id e.finding_id) es).1
        (k.0, k.1, (is_about_iff id k.0.finding_id).1 (k.2, k.3)),
)

not_both : (a b : Bool) → a ≡ true → (a && not b) ≡ false → b ≡ true
not_both a b h k = ground (arith, h, k)

either_not : (a b : Bool) → (a ≡ true → b ≡ true) → (a && not b) ≡ false
either_not true b h = ground (arith, h refl)
either_not false b h = refl

module _ (t : Template) (fs : List Finding) (es : List Evidence)
    (unique : (g h : Finding) → Among g fs → Among h fs → g.id ≡ h.id → g ≡ h) where
  selected : (f : Finding) → Among f (select_latest_findings fs) ↔ IsLatest fs f
  selected f = select_latest_findings_iff fs f unique

  abbrev covers : TemplateItem → Finding → Bool
  covers i f = is_some (template_item t f.item_key) && text_eq f.item_key i.key

  is_covered_iff :
      (i : TemplateItem)
      → Among i t.items
      → (is_covered t (select_latest_findings fs) i.key ≡ true)
        ↔ ((f : Finding) × Among f fs × (f.item_key ≡ i.key))
  is_covered_iff i m = (
    (λ h.
        let (f, a, b) = (any_row_iff (covers i) (select_latest_findings fs)).0 h in
        (f, ((selected f).0 a).0, (text_eq_iff f.item_key i.key).0 (ground (arith, b)))),
    λ k.
        let (g, l, q) = latest_of_item fs k.0 k.1 in
        let known = (template_item_iff t g.item_key).1 (i, m, sym (q ∙ k.2)) in
        let own = (text_eq_iff g.item_key i.key).1 (q ∙ k.2) in
        (any_row_iff (covers i) (select_latest_findings fs)).1
          (g, (selected g).1 l, ground (arith, known, own)),
  )

  -- CheckReportReadiness accepts the findings and the evidence of a session, the findings of different
  -- identifiers, exactly when for each item of the inspection the newest finding is of an item of the
  -- template, every required item has a finding, each of these newest findings that is red has evidence
  -- of its own, and there is some evidence.
  pub is_ready_iff : (is_ready t fs es ≡ true) ↔ Reportable t fs es
  is_ready_iff = (
    (λ h.
        let (items, keys, red, present) = (is_ready-All t fs es).0 h in
        record {
          known = λ f l.
              (template_item_iff t f.item_key).0 ((All-Among _ _).0 items f ((selected f).1 l));
          covered = λ i m needed. (is_covered_iff i m).0 (
              (All-Among _ _).0 keys i.key
                ((required_keys_iff t.items i.key).1 (i, m, needed, refl)));
          documented = λ f l is_red_one. (has_evidence_iff es f.id).0 (
              not_both (is_red f.severity) (has_evidence es f.id)
                ((is_red_iff f.severity).1 is_red_one)
                ((All-Among _ _).0 red f ((selected f).1 l)));
          some_evidence = present;
        }),
    λ r. (is_ready-All t fs es).1 (
      (All-Among _ _).1 (λ f a. (template_item_iff t f.item_key).1 (r.known f ((selected f).0 a))),
      (All-Among _ _).1 (λ key a.
          let (i, m, needed, q) = (required_keys_iff t.items key).0 a in
          ap (is_covered t (select_latest_findings fs)) (sym q)
          ∙ (is_covered_iff i m).1 (r.covered i m needed)),
      (All-Among _ _).1 (λ f a. either_not (is_red f.severity) (has_evidence es f.id) (λ h.
          (has_evidence_iff es f.id).1
            (r.documented f ((selected f).0 a) ((is_red_iff f.severity).0 h)))),
      r.some_evidence,
    ),
  )
