-- ===== src/Inspections/Inserted.antt =====
-- The row that the insertion of a report leaves.
use motivra.Prelude.{ℕ, ◌≡◌, ap, ◌∙◌, List, ◌∷◌, some, arith, ==_iff, nat_eq}
use motivra.Prelude.Text.{Text}
use motivra.Prelude.Exec.Runs.{Returns, bind-Returns, pure-Returns, modify-Returns}
use motivra.Inspections.World.{Uuid, Report, InspectionWorld}
use motivra.Inspections.Store.Reports.{
  stored_report, add_report, insert_next, insert_report, report_of,
}

-- The row of the report.
pub record Inserted (jsonb : Text → Text) (r x : Report) (t : InspectionWorld) : Type 0 where
  pub id : Uuid
  pub now : ℕ
  pub answer : x ≡ record r { id = id; created_at = now }
  pub row : report_of r.session_id r.version t.reports ≡ some (stored_report jsonb r id now)

report_of-head :
    (r : Report) (rs : List Report) → report_of r.session_id r.version (r ∷ rs) ≡ some r
unfolding report_of
report_of-head r rs = ground (arith, ==_iff r.session_id r.session_id, ==_iff r.version r.version)

add_report-Returns :
    (jsonb : Text → Text) (r : Report) (id : Uuid) (w : InspectionWorld) (x : Report)
    (t : InspectionWorld)
    → Returns (add_report jsonb r id) w x t
    → Inserted jsonb r x t
unfolding add_report
add_report-Returns jsonb r id w x t run =
    let a = bind-Returns _ _ w x t run in
    let b = bind-Returns _ _ a.between x t a.second in
    let end = pure-Returns _ b.between x t b.second in
    record {
      id = id;
      now = a.value;
      answer = end.0;
      row =
          ap (λ v. report_of r.session_id r.version v.reports)
            (end.1 ∙ modify-Returns _ a.between b.value b.between b.first)
          ∙ report_of-head (stored_report jsonb r id a.value) a.between.reports;
    }

insert_next-Returns :
    (jsonb : Text → Text) (r : Report) (id : Uuid) (w : InspectionWorld) (x : Report)
    (t : InspectionWorld)
    → Returns (insert_next jsonb r id) w x t
    → Inserted jsonb r x t
unfolding insert_next
insert_next-Returns jsonb r id w x t run =
    let a = bind-Returns _ _ w x t run in
    let b = bind-Returns _ _ a.between x t a.second in
    let c = bind-Returns _ _ b.between x t b.second in
    let d = bind-Returns _ _ c.between x t c.second in
    add_report-Returns jsonb r id d.between x t d.second

pub insert_report-Returns :
    (jsonb : Text → Text) (r : Report) (w : InspectionWorld) (x : Report) (t : InspectionWorld)
    → Returns (insert_report jsonb r) w x t
    → Inserted jsonb r x t
unfolding insert_report
insert_report-Returns jsonb r w x t run =
    let a = bind-Returns _ _ w x t run in
    let b = bind-Returns _ _ a.between x t a.second in
    let c = bind-Returns _ _ b.between x t b.second in
    let d = bind-Returns _ _ c.between x t c.second in
    let e = bind-Returns _ _ d.between x t d.second in
    insert_next-Returns jsonb r b.value e.between x t e.second
