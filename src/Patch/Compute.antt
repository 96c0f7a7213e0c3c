-- ===== src/Patch/Compute.antt =====
-- patch_compute.rs: the patch between an optional snapshot and an instance of the tree. `none` is the
-- panic of an instance that does not exist or has no metadata.
use Prim.Native.String.{String}
use roxo_mcp.Base.{
  Bool, true, false, not, ◌&&◌, List, [], ◌∷◌, ◌++◌, Option, none, some, ite, if◌then◌else◌,
}
use roxo_mcp.Base.Text.{String_discrete}
use roxo_mcp.RojoTree.Index.{InstanceMetadata, get_specified_id}
use roxo_mcp.RojoTree.Tree.{WeakDom, RojoTree, Instance, Properties, get_instance, is_some}
use roxo_mcp.Patch.Variants.{Variants}
use roxo_mcp.Patch.Properties.{property_changes, compute_ref_properties}
use roxo_mcp.Patch.Sets.{PatchAdd, PatchUpdate, PatchSet, is_nil}

-- How the program compares the values of instances and their metadata.
pub record Comparison (dom : WeakDom) (Rest : Type 0) : Type 0 where
  pub variants : Variants dom.Ref dom.Variant
  pub same_metadata : InstanceMetadata Rest → InstanceMetadata Rest → Bool

-- What is gathered on the way: `ComputePatchContext`, and the patch set.
pub record Gathered (dom : WeakDom) (Rest : Type 0) : Type 0 where
  pub snapshot_id_to_instance_id : List (dom.Ref × dom.Ref)
  pub patch_set : PatchSet dom Rest

abbrev pub same_text : String → String → Bool
same_text a b = ite (String_discrete a b) true false

-- `None` where the snapshot agrees with the instance.
abbrev pub changed_if : {A : Type 0} → Bool → A → Option A
changed_if same a = if same then none else some a

abbrev pub value_or : {A : Type 0} → A → Option A → A
value_or a none = a
value_or a (some b) = b

abbrev pub found : {A : Type 0} → Option (Option A) → Option A
found none = none
found (some o) = o

module _ {Ref Variant Rest : Type 0} where
  -- The search of `compute_children_patches` for the first child without a partner that has the name
  -- and the class. Each child comes with its flag of `paired_instances`.
  abbrev pub flag_first :
      String
      → String
      → Ref
      → List (Ref × Bool)
      → Option (Option Ref × List (Ref × Bool))
      → Option (Instance Ref Variant × InstanceMetadata Rest)
      → Option (Option Ref × List (Ref × Bool))
  flag_first name class id rest later none = none
  flag_first name class id rest later (some (i, md)) =
      if same_text name i.name && same_text class i.class
      then some (some id, (id, true) ∷ rest)
      else elim later [
        | none ↦ none
        | some (partner, flagged) ↦ some (partner, (id, false) ∷ flagged)
      ]

module _ {Ref : Type 0} where
  abbrev pub pass :
      Ref → Option (Option Ref × List (Ref × Bool)) → Option (Option Ref × List (Ref × Bool))
  pass id none = none
  pass id (some (partner, flagged)) = some (partner, (id, true) ∷ flagged)

  -- The children without a partner.
  unfoldable pub unpaired : List (Ref × Bool) → List Ref
  unpaired [] = []
  unpaired ((id, true) ∷ rest) = unpaired rest
  unpaired ((id, false) ∷ rest) = id ∷ unpaired rest

  abbrev pub unflagged : List Ref → List (Ref × Bool)
  unflagged [] = []
  unflagged (id ∷ ids) = (id, false) ∷ unflagged ids

module _ {dom : WeakDom} {Rest : Type 0} where
  abbrev pub push_update : PatchUpdate dom Rest → Gathered dom Rest → Gathered dom Rest
  push_update update g = record g {
    patch_set = record g.patch_set {
      updated_instances = g.patch_set.updated_instances ++ update ∷ [];
    };
  }

  abbrev pub push_added : PatchAdd dom Rest → Gathered dom Rest → Gathered dom Rest
  push_added add g = record g {
    patch_set = record g.patch_set { added_instances = g.patch_set.added_instances ++ add ∷ [] };
  }

  abbrev pub push_removed : List dom.Ref → Gathered dom Rest → Gathered dom Rest
  push_removed ids g = record g {
    patch_set = record g.patch_set { removed_instances = g.patch_set.removed_instances ++ ids };
  }

  abbrev pub is_unchanged : PatchUpdate dom Rest → Bool
  is_unchanged u =
      is_nil u.changed_properties
      && not (is_some u.changed_name)
      && not (is_some u.changed_class_name)
      && not (is_some u.changed_metadata)

  -- `get_instance` with its `expect`.
  abbrev pub expect_instance :
      RojoTree dom Rest → dom.Ref → Option (Instance dom.Ref dom.Variant × InstanceMetadata Rest)
  expect_instance t id = found (get_instance dom id t)

  unfoldable pub property_update :
      Comparison dom Rest
      → RojoTree dom Rest
      → InstanceMetadata Rest
      → String
      → String
      → Properties dom.Variant
      → Instance dom.Ref dom.Variant
      → InstanceMetadata Rest
      → dom.Ref
      → PatchUpdate dom Rest
  unfolding property_changes compute_ref_properties
  property_update by t metadata name class properties i md id =
      let refs =
        compute_ref_properties by.variants (λ r. get_specified_id dom.ref_discrete r t.index)
          properties in
      let changed_class = changed_if (same_text class i.class) class in
      record {
        id = id;
        changed_name = changed_if (same_text name i.name) name;
        changed_class_name = changed_class;
        changed_properties =
            property_changes by.variants (value_or i.class changed_class) properties i.properties
              refs;
        changed_metadata = changed_if (by.same_metadata metadata md) metadata;
      }

  unfoldable pub find_partner :
      RojoTree dom Rest
      → String
      → String
      → List (dom.Ref × Bool)
      → Option (Option dom.Ref × List (dom.Ref × Bool))
  unfolding get_instance
  find_partner t name class [] = some (none, [])
  find_partner t name class ((id, true) ∷ rest) = pass id (find_partner t name class rest)
  find_partner t name class ((id, false) ∷ rest) =
      flag_first name class id rest (find_partner t name class rest) (expect_instance t id)
