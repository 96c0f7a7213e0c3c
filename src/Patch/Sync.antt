-- ===== src/Patch/Sync.antt =====
-- The update that is computed for an instance, when it is applied, makes the instance agree with the
-- snapshot: patch_compute.rs and patch_apply.rs together.
use Prim.Native.String.{String}
use roxo_mcp.Base.{false, List, [], ◌∷◌, Option, none, some, ◌≡◌, sym, ap, arith, subst}
use mathlib.Core.Option
use roxo_mcp.Base.Dict.{IsDistinct, insert-IsDistinct}
use roxo_mcp.Base.Text.{String_discrete}
use roxo_mcp.RojoTree.Index.{InstanceMetadata, get_specified_id}
use roxo_mcp.RojoTree.Tree.{WeakDom, RojoTree, Instance, Properties}
use roxo_mcp.Patch.Variants.{Variants, strip_prefix, ref_pointer_attribute_prefix}
use roxo_mcp.Patch.Properties.{
  Changes, get, add_ref, attribute_refs, refs_in, attributes_of, compute_ref_properties,
}
use roxo_mcp.Patch.Compute.{Comparison, property_update, same_text, changed_if, value_or}
use roxo_mcp.Patch.Apply.{updated_instance}
use roxo_mcp.Patch.Converge.{migrates}
use roxo_mcp.Patch.Outcome.{Agrees, IsPlain, synced, synced-Agrees}

module _ {Ref Variant : Type 0} (vs : Variants Ref Variant) (resolve : String → Option Ref) where
  add_ref-IsDistinct :
      (name value : Option String) (refs : Changes Variant)
      → IsDistinct String_discrete refs
      → IsDistinct String_discrete (add_ref vs resolve name value refs)
  add_ref-IsDistinct none value refs d = d
  add_ref-IsDistinct (some name) none refs d = d
  add_ref-IsDistinct (some name) (some specified) refs d =
      insert-IsDistinct String_discrete name (Option.map vs.ref_variant (resolve specified)) refs d

  attribute_refs-IsDistinct :
      (attributes : List (String × Variant)) (refs : Changes Variant)
      → IsDistinct String_discrete refs
      → IsDistinct String_discrete (attribute_refs vs resolve attributes refs)
  unfolding attribute_refs
  attribute_refs-IsDistinct [] refs d = d
  attribute_refs-IsDistinct ((name, value) ∷ rest) refs d =
      let target = strip_prefix ref_pointer_attribute_prefix name in
      attribute_refs-IsDistinct rest (add_ref vs resolve target (vs.text value) refs)
        (add_ref-IsDistinct target (vs.text value) refs d)

  refs_in-IsDistinct :
      (o : Option (List (String × Variant))) → IsDistinct String_discrete (refs_in vs resolve o)
  refs_in-IsDistinct none = tt
  refs_in-IsDistinct (some attributes) = attribute_refs-IsDistinct attributes [] tt

  compute_ref_properties-IsDistinct :
      (properties : Properties Variant)
      → IsDistinct String_discrete (compute_ref_properties vs resolve properties)
  unfolding compute_ref_properties
  compute_ref_properties-IsDistinct properties =
      refs_in-IsDistinct (attributes_of vs (get "Attributes" properties))

changed_value : (old new : String) → value_or old (changed_if (same_text new old) new) ≡ new
changed_value old new = ground arith

module _ {dom : WeakDom} {Rest : Type 0} (by : Comparison dom Rest) (t : RojoTree dom Rest) where
  open dom use {Ref, Variant}

  -- The references that the snapshot's attributes specify.
  abbrev pub specified : Properties Variant → Changes Variant
  specified properties =
      compute_ref_properties by.variants (λ r. get_specified_id dom.ref_discrete r t.index)
        properties

  -- The instance has the name and the class, and agrees on the properties that are no references, are
  -- not specified by attributes, and are not the mark of pivots.
  pub record IsSynced (name class : String) (properties : Properties Variant)
      (i : Instance Ref Variant) : Type 0 where
    pub name_is : i.name ≡ name
    pub class_is : i.class ≡ class
    pub agrees :
        (k : String)
        → migrates by.variants class k ≡ false
        → get k (specified properties) ≡ none
        → IsPlain by.variants (get k properties)
        → Agrees by.variants (get k properties) (get k i.properties)

  updated_properties :
      (to : Ref → Ref) (metadata md : InstanceMetadata Rest) (name class : String)
      (properties : Properties Variant) (i : Instance Ref Variant) (id : Ref)
      → (updated_instance by.variants to
          (property_update by t metadata name class properties i md id)
          i).properties
        ≡ synced by.variants to class properties i.properties (specified properties)
  unfolding property_update updated_instance
  updated_properties to metadata md name class properties i id =
      ap (λ c. synced by.variants to c properties i.properties (specified properties))
        (changed_value i.class class)

  -- The update that is computed from a snapshot, applied to the instance it was computed for,
  -- gives an instance with the snapshot's name and class. On a property that is no reference, is
  -- specified by no attribute and is not the mark of pivots on a model, it lacks the property if
  -- the snapshot does, and otherwise has the snapshot's value or one equal to it.
  pub property_update-IsSynced :
      (to : Ref → Ref) (metadata md : InstanceMetadata Rest) (name class : String)
      (properties : Properties Variant) (i : Instance Ref Variant) (id : Ref)
      → IsDistinct String_discrete properties
      → IsSynced name class properties (
          updated_instance by.variants to
            (property_update by t metadata name class properties i md id)
            i)
  unfolding property_update updated_instance
  property_update-IsSynced to metadata md name class properties i id d = record {
    name_is = changed_value i.name name;
    class_is = changed_value i.class class;
    agrees = λ k plain free value.
        subst (λ ps. Agrees by.variants (get k properties) (get k ps))
          (sym (updated_properties to metadata md name class properties i id))
          (synced-Agrees by.variants to k class properties i.properties (specified properties) d
            (compute_ref_properties-IsDistinct by.variants
              (λ r. get_specified_id dom.ref_discrete r t.index) properties)
            plain free value);
  }
