-- ===== src/Inspections/Templates.antt =====
-- backend/inspections/templates.go: the registry of the checklists, and its lookups. The identifier of a
-- template, which a package derives from its name and version, is a parameter.
use motivra.Prelude.{
  ℕ, Bool, true, false, ◌&&◌, List, [], ◌∷◌, Option, none, some, if◌then◌else◌, nat_eq,
}
use motivra.Prelude.Text.{Text, bytes, text_eq, text-Eq}
use motivra.Prelude.Table.{find}
use motivra.Inspections.World.{Uuid, VehicleClass, TemplateItem, Template}

abbrev pub class_eq : VehicleClass → VehicleClass → Bool
class_eq VehicleClass.motorcycle VehicleClass.motorcycle = true
class_eq VehicleClass.sedan VehicleClass.sedan = true
class_eq VehicleClass.suv VehicleClass.suv = true
class_eq VehicleClass.pickup VehicleClass.pickup = true
class_eq VehicleClass.truck VehicleClass.truck = true
class_eq VehicleClass.bus VehicleClass.bus = true
class_eq (VehicleClass.other s) (VehicleClass.other t) = text_eq s t
class_eq _ _ = false

abbrev item : Text → Text → Bool → TemplateItem
item key label required = record { key = key; label = label; required = required }

-- A registered template: they are all active.
abbrev registered : (Text → ℕ → Uuid) → VehicleClass → Text → ℕ → List TemplateItem → Template
registered template_id class name version items = record {
  id = template_id name version;
  vehicle_class = class;
  name = name;
  version = version;
  items = items;
  active = true;
}

abbrev motorcycle_items : List TemplateItem
motorcycle_items =
    item (bytes "brakes_front") (bytes "Front brake pads and disc condition") true
    ∷ item (bytes "brakes_rear") (bytes "Rear brake and drum condition") true
    ∷ item (bytes "tyres") (bytes "Tyre tread, pressure and sidewall condition") true
    ∷ item (bytes "chain_sprockets") (bytes "Drive chain tension and sprocket wear") true
    ∷ item (bytes "lights_electrical") (bytes "Headlamp, brake light, indicators and horn") true
    ∷ item (bytes "frame_suspension") (bytes "Frame, forks and rear suspension") true
    ∷ item (bytes "exhaust_emissions") (bytes "Exhaust condition and visible smoke") false
    ∷ item (bytes "odometer_consistency") (bytes "Odometer reading consistent with wear") true
    ∷ []

abbrev sedan_items : List TemplateItem
sedan_items =
    item (bytes "brakes") (bytes "Brake pads, discs and fluid condition") true
    ∷ item (bytes "tyres") (bytes "Tyre tread depth, pressure and spare") true
    ∷ item (bytes "suspension_steering") (bytes "Suspension bushings and steering play") true
    ∷ item (bytes "lights_electrical") (bytes "Exterior lights, horn and battery") true
    ∷ item (bytes "engine_leaks") (bytes "Engine bay: leaks, belts and fluids") true
    ∷ item (bytes "transmission") (bytes "Gearbox and clutch / automatic behaviour") true
    ∷ item (bytes "body_panel_condition") (bytes "Body panels, doors and glass") false
    ∷ item (bytes "odometer_consistency") (bytes "Odometer reading consistent with wear") true
    ∷ []

abbrev suv_items : List TemplateItem
suv_items =
    item (bytes "brakes") (bytes "Brake pads, discs and fluid condition") true
    ∷ item (bytes "tyres") (bytes "Tyre tread depth, pressure and spare") true
    ∷ item (bytes "suspension_steering") (bytes "Suspension, steering play and 4x4 engagement") true
    ∷ item (bytes "lights_electrical") (bytes "Exterior lights, horn and battery") true
    ∷ item (bytes "engine_leaks") (bytes "Engine bay: leaks, belts and fluids") true
    ∷ item (bytes "transmission") (bytes "Gearbox and transfer case behaviour") true
    ∷ item (bytes "chassis_underbody") (bytes "Underbody, chassis rails and mounting points") true
    ∷ item (bytes "odometer_consistency") (bytes "Odometer reading consistent with wear") true
    ∷ []

abbrev pickup_items : List TemplateItem
pickup_items =
    item (bytes "brakes") (bytes "Brake pads, discs and load-sensing valve") true
    ∷ item (bytes "tyres") (bytes "Tyre tread depth, pressure and spare") true
    ∷ item (bytes "suspension_steering") (bytes "Suspension, leaf springs and steering play") true
    ∷ item (bytes "lights_electrical") (bytes "Exterior lights, horn and battery") true
    ∷ item (bytes "engine_leaks") (bytes "Engine bay: leaks, belts and fluids") true
    ∷ item (bytes "transmission") (bytes "Gearbox and differential behaviour") true
    ∷ item (bytes "load_bed_tailgate") (bytes "Load bed, tailgate and towing gear") false
    ∷ item (bytes "odometer_consistency") (bytes "Odometer reading consistent with wear") true
    ∷ []

abbrev truck_items : List TemplateItem
truck_items =
    item (bytes "brakes_air") (bytes "Air brake system, tanks and governor") true
    ∷ item (bytes "tyres") (bytes "Tyre tread depth, pressure and spare") true
    ∷ item (bytes "suspension_steering") (bytes "Suspension, axles and steering play") true
    ∷ item (bytes "lights_electrical") (bytes "Exterior lights, horn and battery isolation") true
    ∷ item (bytes "engine_leaks") (bytes "Engine bay: leaks, belts and fluids") true
    ∷ item (bytes "transmission") (bytes "Gearbox, retarder and PTO behaviour") true
    ∷ item (bytes "chassis_underbody") (bytes "Chassis, fifth wheel / body mounting") true
    ∷ item (bytes "cargo_restraint") (bytes "Cargo restraint and load security") false
    ∷ item (bytes "odometer_consistency") (bytes "Odometer / tachograph consistency") true
    ∷ []

abbrev bus_items : List TemplateItem
bus_items =
    item (bytes "brakes_air") (bytes "Air brake system, tanks and governor") true
    ∷ item (bytes "tyres") (bytes "Tyre tread depth, pressure and spare") true
    ∷ item (bytes "suspension_steering") (bytes "Suspension, axles and steering play") true
    ∷ item (bytes "lights_electrical") (bytes "Exterior lights, horn and battery isolation") true
    ∷ item (bytes "engine_leaks") (bytes "Engine bay: leaks, belts and fluids") true
    ∷ item (bytes "transmission") (bytes "Gearbox and retarder behaviour") true
    ∷ item (bytes "passenger_safety") (bytes "Emergency exits, handrails and seating") true
    ∷ item (bytes "odometer_consistency") (bytes "Odometer reading consistent with wear") true
    ∷ []

unfoldable pub template_registry : (Text → ℕ → Uuid) → List Template
template_registry template_id =
    registered template_id VehicleClass.motorcycle (bytes "Motivra Standard Motorcycle Inspection")
      1 motorcycle_items
    ∷ registered template_id VehicleClass.sedan (bytes "Motivra Standard Sedan Inspection") 1
        sedan_items
    ∷ registered template_id VehicleClass.suv (bytes "Motivra Standard SUV Inspection") 1 suv_items
    ∷ registered template_id VehicleClass.pickup (bytes "Motivra Standard Pickup Inspection") 1
        pickup_items
    ∷ registered template_id VehicleClass.truck (bytes "Motivra Standard Truck Inspection") 1
        truck_items
    ∷ registered template_id VehicleClass.bus (bytes "Motivra Standard Bus Inspection") 1 bus_items
    ∷ []

abbrev pub template_key : Template → Uuid
template_key t = t.id

-- TemplateByID
unfoldable pub template_by_id : (Text → ℕ → Uuid) → Uuid → Option Template
unfolding template_registry
template_by_id template_id id = find template_key id (template_registry template_id)

unfoldable pub active_template : VehicleClass → List Template → Option Template
active_template class [] = none
active_template class (t ∷ ts) =
    if class_eq t.vehicle_class class && t.active then some t else active_template class ts

-- ActiveTemplateForClass
unfoldable pub active_template_for_class : (Text → ℕ → Uuid) → VehicleClass → Option Template
unfolding template_registry active_template
active_template_for_class template_id class = active_template class (template_registry template_id)

abbrev pub item_key : TemplateItem → Text
item_key i = i.key

-- Template.Item
unfoldable pub template_item : Template → Text → Option TemplateItem
template_item t key = find item_key key t.items

unfoldable pub required_keys : List TemplateItem → List Text
required_keys [] = []
required_keys (i ∷ is) = let rest = required_keys is in if i.required then i.key ∷ rest else rest
