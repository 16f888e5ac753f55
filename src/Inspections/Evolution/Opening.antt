-- ===== src/Inspections/Evolution/Opening.antt =====
-- The opening of a session lets the tables evolve.
use motivra.Prelude.{
  ◌≡◌, ap, true, ◌&&◌, List, [], ◌∷◌, none, some, arith, ◌==◌, ==_iff, nat_eq, Bool-cases, inl, inr,
}
use motivra.Prelude.Text.{text_eq_refl}
use motivra.Prelude.Exec.Steps.{Any, Steps-bind, Steps-or_raise_then, Steps-require_only}
use motivra.Prelude.Table.{find, find-cons}
use motivra.Inspections.World.{VehicleClass, Template, InspectionSession}
use motivra.Inspections.Templates.{
  template_registry, template_key, template_by_id, active_template, active_template_for_class,
  class_eq,
}
use motivra.Inspections.Report.{template_matches}
use motivra.Inspections.Service.{InspectionsService, with_template, open_session}
use motivra.Inspections.Evolution.{DistinctIds, evolving}
use motivra.Inspections.Evolution.Writes.{Calm, create_session-Calm}
use motivra.Inspections.Evolution.Service.{calls, publish-Calm}

-- The active template of a class is the one that its identifier names.
active-find :
    (class : VehicleClass) (ts : List Template) (t : Template)
    → DistinctIds ts
    → active_template class ts ≡ some t
    → find template_key t.id ts ≡ some t
unfolding active_template
active-find class [] t d h = ground (arith, h)
active-find class (x ∷ xs) t d h = elim (Bool-cases (class_eq x.vehicle_class class && x.active)) [
  | inl hit ↦
      let same : x ≡ t = ground (arith, h, hit) in
      ground (arith, same, find-cons template_key t.id x xs, ==_iff x.id t.id, ap template_key same)
  | inr miss ↦
      let later : find template_key t.id xs ≡ some t =
        active-find class xs t d.1 (ground (arith, h, miss)) in
      elim (Bool-cases (x.id == t.id)) [
        | inl hit ↦
            let gone : find template_key t.id xs ≡ none = rw (← (==_iff x.id t.id).0 hit) d.0 in
            ground (arith, later, gone)
        | inr other ↦ ground (arith, other, later, find-cons template_key t.id x xs)
      ]
]

own_template :
    (t : Template) (x : InspectionSession) → template_matches t (with_template t x) ≡ true
unfolding template_matches
own_template t x = ground (arith, ==_iff t.id t.id, text_eq_refl t.name, ==_iff t.version t.version)

module _ (s : InspectionsService) (distinct : DistinctIds (template_registry s.template_id)) where
  pub open_session-Calm : (given : InspectionSession) → Calm s.template_id (open_session s given)
  unfolding open_session active_template_for_class template_by_id
  open_session-Calm given =
      Steps-bind (evolving s.template_id) Any _ _
        (Steps-require_only (evolving s.template_id) Any _ _)
        λ _.
          Steps-bind (evolving s.template_id) Any _ _
            (Steps-require_only (evolving s.template_id) Any _ _)
            λ _. Steps-or_raise_then (evolving s.template_id) Any _ _ _ (λ t active.
              Steps-bind (evolving s.template_id) Any _ _
                (Steps-require_only (evolving s.template_id) Any _ _)
                λ _.
                  Steps-bind (evolving s.template_id) Any _ _
                    (Steps-require_only (evolving s.template_id) Any _ _)
                    λ _.
                      Steps-bind (evolving s.template_id) Any _ _
                        (create_session-Calm s.template_id t (with_template t given)
                          (active-find given.vehicle_class (template_registry s.template_id) t
                            distinct active)
                          (own_template t given))
                        λ _. search (calls, publish-Calm) depth 40)
