-- ===== src/Patch/Apply.antt =====
-- patch_apply.rs: the state of a patch application, and the application of updates.
use Prim.Native.String.{String}
use roxo_mcp.Base.{◌≡◌, List, [], ◌∷◌, ◌++◌, Option, none, some, ite}
use mathlib.Core.Option
use roxo_mcp.Base.Dict.{lookup}
use roxo_mcp.MultiMap.{MultiMap}
use roxo_mcp.RojoTree.Index.{InstanceMetadata, set_specified_id, set_specified_id?, update_metadata}
use roxo_mcp.RojoTree.Tree.{WeakDom, RojoTree, Instance, get_instance}
use roxo_mcp.Patch.Variants.{Variants}
use roxo_mcp.Patch.Properties.{get, attributes_of, apply_changes}
use roxo_mcp.Patch.Deferred.{defer_attributes, reported_changes}
use roxo_mcp.Patch.Sets.{PatchUpdate, AppliedPatchUpdate, AppliedPatchSet}
use roxo_mcp.Patch.Compute.{value_or, expect_instance}

-- `get_by_ref_mut` of rbx_dom_weak: the change of one instance in place.
pub record Mutation (dom : WeakDom) : Type 0 where
  pub update :
      dom.Dom → dom.Ref → (Instance dom.Ref dom.Variant → Instance dom.Ref dom.Variant) → dom.Dom
  pub get_by_ref-update :
      (d : dom.Dom) (r s : dom.Ref)
      (f : Instance dom.Ref dom.Variant → Instance dom.Ref dom.Variant)
      → dom.get_by_ref (update d r f) s
        ≡ ite (dom.ref_discrete r s) (Option.map f (dom.get_by_ref d s)) (dom.get_by_ref d s)

-- The tree, and the `PatchApplyContext`.
pub record Application (dom : WeakDom) (Rest : Type 0) : Type 0 where
  pub tree : RojoTree dom Rest
  pub snapshot_id_to_instance_id : List (dom.Ref × dom.Ref)
  pub has_refs_to_rewrite : List dom.Ref
  pub attribute_refs_to_rewrite : MultiMap dom.Ref (String × String)
  pub applied_patch_set : AppliedPatchSet dom Rest

module _ {dom : WeakDom} {Rest : Type 0} where
  open dom use {ref_discrete, Ref, Variant}

  -- The instance ID of a snapshot ID that this patch added, and any other ID as it is.
  abbrev pub translate : Application dom Rest → Ref → Ref
  translate a r = value_or r (lookup ref_discrete r a.snapshot_id_to_instance_id)

  unfoldable pub change_metadata :
      Ref → Option (InstanceMetadata Rest) → RojoTree dom Rest → RojoTree dom Rest
  unfolding update_metadata
  change_metadata id none t = t
  change_metadata id (some metadata) t = record t {
    index = update_metadata ref_discrete id metadata t.index;
  }

  abbrev pub push_updated :
      AppliedPatchUpdate dom Rest → Option (Application dom Rest) → Option (Application dom Rest)
  push_updated u none = none
  push_updated u (some a) = some (record a {
    applied_patch_set = record a.applied_patch_set {
      updated = a.applied_patch_set.updated ++ u ∷ [];
    };
  })

module _ {dom : WeakDom} {Rest : Type 0} (vs : Variants dom.Ref dom.Variant) where
  open dom use {ref_discrete, Ref, Variant}

  abbrev pub deferred :
      Ref → Option (List (String × Variant)) → Application dom Rest → Application dom Rest
  deferred id none a = a
  deferred id (some attributes) a =
      let (attr_id, refs) =
        defer_attributes ref_discrete vs id attributes (none, a.attribute_refs_to_rewrite) in
      record a {
        attribute_refs_to_rewrite = refs;
        tree = record a.tree { index = set_specified_id? ref_discrete id attr_id a.tree.index };
      }

  -- `none` is the panic of an instance that does not exist.
  unfoldable pub defer_ref_properties : Ref → Application dom Rest → Option (Application dom Rest)
  unfolding defer_attributes get_instance set_specified_id
  defer_ref_properties id a = elim (expect_instance a.tree id) [
    | none ↦ none
    | some (i, md) ↦ some (deferred id (attributes_of vs (get "Attributes" i.properties)) a)
  ]

  unfoldable pub updated_instance :
      (Ref → Ref) → PatchUpdate dom Rest → Instance Ref Variant → Instance Ref Variant
  unfolding apply_changes
  updated_instance to u i = record i {
    name = value_or i.name u.changed_name;
    class = value_or i.class u.changed_class_name;
    properties = apply_changes vs to u.changed_properties i.properties;
  }

  unfoldable pub applied_update : PatchUpdate dom Rest → AppliedPatchUpdate dom Rest
  unfolding reported_changes
  applied_update u = record {
    id = u.id;
    changed_name = u.changed_name;
    changed_class_name = u.changed_class_name;
    changed_properties = reported_changes vs u.changed_properties;
    changed_metadata = u.changed_metadata;
  }

  -- An update of an instance that is not there is left out, but its metadata has gone into the tree.
  unfoldable pub apply_update_child :
      Mutation dom → PatchUpdate dom Rest → Application dom Rest → Option (Application dom Rest)
  unfolding defer_ref_properties updated_instance change_metadata applied_update get_instance
  apply_update_child mutation u a =
      let t = change_metadata u.id u.changed_metadata a.tree in
      elim (get_instance dom u.id t) [
        | none ↦ some (record a { tree = t })
        | some none ↦ none
        | some (some (i, md)) ↦ push_updated (applied_update u) (
            defer_ref_properties u.id (record a {
              tree = record t {
                inner = mutation.update t.inner u.id (updated_instance (translate a) u);
              };
            }))
      ]

  unfoldable pub apply_updates :
      Mutation dom
      → List (PatchUpdate dom Rest)
      → Application dom Rest
      → Option (Application dom Rest)
  unfolding apply_update_child
  apply_updates mutation [] a = some a
  apply_updates mutation (u ∷ us) a = elim (apply_update_child mutation u a) [
    | none ↦ none
    | some a' ↦ apply_updates mutation us a'
  ]
