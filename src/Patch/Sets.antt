-- ===== src/Patch/Sets.antt =====
-- snapshot/patch.rs: what a patch prescribes, and what its application reports.
use Prim.Native.String.{String}
use roxo_mcp.Base.{Bool, true, false, ◌&&◌, List, [], ◌∷◌, Option, none}
use roxo_mcp.RojoTree.Index.{InstanceMetadata}
use roxo_mcp.RojoTree.Tree.{WeakDom, InstanceSnapshot}
use roxo_mcp.Patch.Properties.{Changes}

module _ (dom : WeakDom) (Rest : Type 0) where
  pub record PatchAdd : Type 0 where
    pub parent_id : dom.Ref
    pub instance : InstanceSnapshot dom Rest

  pub record PatchUpdate : Type 0 where
    pub id : dom.Ref
    pub changed_name : Option String
    pub changed_class_name : Option String
    pub changed_properties : Changes dom.Variant
    pub changed_metadata : Option (InstanceMetadata Rest)

  pub record PatchSet : Type 0 where
    pub removed_instances : List dom.Ref
    pub added_instances : List PatchAdd
    pub updated_instances : List PatchUpdate

  pub record AppliedPatchUpdate : Type 0 where
    pub id : dom.Ref
    pub changed_name : Option String
    pub changed_class_name : Option String
    pub changed_properties : Changes dom.Variant
    pub changed_metadata : Option (InstanceMetadata Rest)

  pub record AppliedPatchSet : Type 0 where
    pub removed : List dom.Ref
    pub added : List dom.Ref
    pub updated : List AppliedPatchUpdate

abbrev pub is_nil : {A : Type 0} → List A → Bool
is_nil [] = true
is_nil (a ∷ rest) = false

module _ {dom : WeakDom} {Rest : Type 0} where
  abbrev pub empty_patch : PatchSet dom Rest
  empty_patch = record { removed_instances = []; added_instances = []; updated_instances = [] }

  abbrev pub empty_applied : AppliedPatchSet dom Rest
  empty_applied = record { removed = []; added = []; updated = [] }

  abbrev pub new_applied_update : dom.Ref → AppliedPatchUpdate dom Rest
  new_applied_update id = record {
    id = id;
    changed_name = none;
    changed_class_name = none;
    changed_properties = [];
    changed_metadata = none;
  }

  abbrev pub is_empty : AppliedPatchSet dom Rest → Bool
  is_empty s = is_nil s.removed && is_nil s.added && is_nil s.updated
