-- ===== src/Patch/Properties.antt =====
-- `compute_property_patches` and `compute_ref_properties` of patch_compute.rs, and the loop over the
-- properties in `apply_update_child` of patch_apply.rs. Hash maps are dictionaries.
use Prim.Native.String.{String}
use roxo_mcp.Base.{Bool, true, false, not, ◌&&◌, List, [], ◌∷◌, Option, none, some, if◌then◌else◌}
use mathlib.Core.Option
use roxo_mcp.Base.Dict.{lookup, insert, remove}
use roxo_mcp.Base.Text.{String_discrete}
use roxo_mcp.RojoTree.Tree.{Properties, is_model_class, is_some}
use roxo_mcp.Patch.Variants.{Variants, strip_prefix, ref_pointer_attribute_prefix}

-- `UstrMap<Option<Variant>>`: a property that is assigned to `none` has been removed.
abbrev pub Changes : Type 0 → Type 0
Changes Variant = List (String × Option Variant)

abbrev pub get : {V : Type 0} → String → List (String × V) → Option V
get = lookup String_discrete

abbrev pub put : {V : Type 0} → String → V → List (String × V) → List (String × V)
put = insert String_discrete

abbrev pub delete : {V : Type 0} → String → List (String × V) → List (String × V)
delete = remove String_discrete

abbrev pub needs_pivot_migration : String
needs_pivot_migration = "NeedsPivotMigration"

abbrev pub is_some_bool : Option Bool → Bool
is_some_bool none = false
is_some_bool (some b) = true

module _ {Ref Variant : Type 0} (vs : Variants Ref Variant) where
  -- One turn of the loop over the snapshot's properties, after what the loop has gathered so far.
  abbrev pub compare_value : String → Variant → Option Variant → Changes Variant → Changes Variant
  compare_value name value none changed = put name (some value) changed
  compare_value name value (some old) changed =
      if not (vs.variant_eq value old) then put name (some value) changed else changed

  unfoldable pub compare_values :
      Properties Variant → Properties Variant → Changes Variant → Changes Variant
  compare_values [] old changed = changed
  compare_values ((name, value) ∷ new) old changed =
      compare_values new old (compare_value name value (get name old) changed)

  -- The same loop does not panic in a comparison.
  abbrev pub compares_value : Variant → Option Variant → Bool
  compares_value value none = true
  compares_value value (some old) = not (vs.panics value old)

  unfoldable pub compares_values : Properties Variant → Properties Variant → Bool
  compares_values [] old = true
  compares_values ((name, value) ∷ new) old =
      compares_value value (get name old) && compares_values new old

  -- The loop over the instance's properties. `visited_properties` are the snapshot's names.
  unfoldable pub remove_values :
      Properties Variant → Properties Variant → Changes Variant → Changes Variant
  remove_values new [] changed = changed
  remove_values new ((name, value) ∷ old) changed =
      remove_values new old (if is_some (get name new) then changed else put name none changed)

  abbrev pub point_to : String → Option Variant → Option Variant → Changes Variant → Changes Variant
  point_to name (some target) (some value) changed =
      if not (vs.same target value) then put name (some target) changed else delete name changed
  point_to name (some target) none changed = put name (some target) changed
  point_to name none (some value) changed = put name none changed
  point_to name none none changed = delete name changed

  -- The loop over the reference properties that attributes specify.
  unfoldable pub point_refs :
      Changes Variant → Properties Variant → Changes Variant → Changes Variant
  point_refs [] old changed = changed
  point_refs ((name, target) ∷ refs) old changed =
      point_refs refs old (point_to name target (get name old) changed)

  -- What the patch says of `NeedsPivotMigration`, on a class that inherits from Model.
  abbrev pub settle_migration : Option (Option Variant) → Changes Variant → Changes Variant
  settle_migration none changed = put needs_pivot_migration (some (vs.bool_variant false)) changed
  settle_migration (some none) changed = delete needs_pivot_migration changed
  settle_migration (some (some value)) changed =
      if is_some_bool (vs.as_bool value)
      then changed
      else put needs_pivot_migration (some (vs.bool_variant false)) changed

  abbrev pub start_migration : Properties Variant → Changes Variant → Changes Variant
  start_migration old changed =
      if not (is_some (get needs_pivot_migration old))
      then put needs_pivot_migration (some (vs.bool_variant false)) changed
      else changed

  unfoldable pub migrate : String → Properties Variant → Changes Variant → Changes Variant
  migrate class old changed =
      let started = start_migration old changed in
      let settled = settle_migration (get needs_pivot_migration started) started in
      if is_model_class class then settled else changed

  unfoldable pub property_changes :
      String → Properties Variant → Properties Variant → Changes Variant → Changes Variant
  unfolding compare_values remove_values point_refs migrate
  property_changes class new old refs =
      migrate class old (point_refs refs old (remove_values new old (compare_values new old [])))

  -- The target of a reference attribute: what it names, if that is one instance.
  abbrev pub add_ref :
      (String → Option Ref) → Option String → Option String → Changes Variant → Changes Variant
  add_ref resolve none value refs = refs
  add_ref resolve (some name) none refs = refs
  add_ref resolve (some name) (some specified) refs =
      put name (Option.map vs.ref_variant (resolve specified)) refs

  unfoldable pub attribute_refs :
      (String → Option Ref) → List (String × Variant) → Changes Variant → Changes Variant
  unfolding strip_prefix
  attribute_refs resolve [] refs = refs
  attribute_refs resolve ((name, value) ∷ attributes) refs =
      attribute_refs resolve attributes
        (add_ref resolve (strip_prefix ref_pointer_attribute_prefix name) (vs.text value) refs)

  abbrev pub refs_in : (String → Option Ref) → Option (List (String × Variant)) → Changes Variant
  refs_in resolve none = []
  refs_in resolve (some attributes) = attribute_refs resolve attributes []

  abbrev pub attributes_of : Option Variant → Option (List (String × Variant))
  attributes_of none = none
  attributes_of (some value) = vs.attributes value

  unfoldable pub compute_ref_properties :
      (String → Option Ref) → Properties Variant → Changes Variant
  unfolding attribute_refs
  compute_ref_properties resolve properties =
      refs_in resolve (attributes_of (get "Attributes" properties))

  -- `apply_update_child`: null references are passed over, others are translated.
  abbrev pub apply_value :
      (Ref → Ref) → String → Variant → Option Ref → Properties Variant → Properties Variant
  apply_value translate name value none properties = put name value properties
  apply_value translate name value (some r) properties =
      if vs.is_some_ref r then put name (vs.ref_variant (translate r)) properties else properties

  abbrev pub apply_change :
      (Ref → Ref) → String → Option Variant → Properties Variant → Properties Variant
  apply_change translate name none properties = delete name properties
  apply_change translate name (some value) properties =
      apply_value translate name value (vs.as_ref value) properties

  unfoldable pub apply_changes :
      (Ref → Ref) → Changes Variant → Properties Variant → Properties Variant
  apply_changes translate [] properties = properties
  apply_changes translate ((name, change) ∷ changes) properties =
      apply_changes translate changes (apply_change translate name change properties)
