-- ===== src/Patch/Rewrite.antt =====
-- `compute_patch_set` and the `rewrite_refs_in_*` functions of patch_compute.rs: references to
-- snapshot IDs become references to the instances that the walk paired with them.
use roxo_mcp.Base.{List, [], ◌∷◌, Option, none, some, ite}
use roxo_mcp.Base.Dict.{lookup}
use roxo_mcp.RojoTree.Tree.{
  WeakDom, RojoTree, InstanceSnapshot, Snapshots, snapshot, nil, cons, Properties,
}
use roxo_mcp.Patch.Variants.{Variants}
use roxo_mcp.Patch.Properties.{Changes}
use roxo_mcp.Patch.Sets.{PatchAdd, PatchUpdate, PatchSet, empty_patch}
use roxo_mcp.Patch.Compute.{Comparison, Gathered}
use roxo_mcp.Patch.Walk.{compute_patch_set_internal}

module _ {Ref Variant : Type 0} (vs : Variants Ref Variant) (instance_of : Ref → Option Ref) where
  abbrev pub renamed : Option Ref → Variant → Variant
  renamed none value = value
  renamed (some id) value = vs.ref_variant id

  abbrev pub at_ref : Option Ref → Variant → Variant
  at_ref none value = value
  at_ref (some referent) value = renamed (instance_of referent) value

  abbrev pub rewrite_value : Variant → Variant
  rewrite_value value = at_ref (vs.as_ref value) value

  abbrev pub rewrite_change : Option Variant → Option Variant
  rewrite_change none = none
  rewrite_change (some value) = some (rewrite_value value)

  unfoldable pub rewrite_properties : Properties Variant → Properties Variant
  rewrite_properties [] = []
  rewrite_properties ((name, value) ∷ rest) = (name, rewrite_value value) ∷ rewrite_properties rest

  unfoldable pub rewrite_changes : Changes Variant → Changes Variant
  rewrite_changes [] = []
  rewrite_changes ((name, change) ∷ rest) = (name, rewrite_change change) ∷ rewrite_changes rest

unfoldable mutual
  unfolding rewrite_properties

  pub rewrite_refs_in_snapshot :
      {dom : WeakDom} {Rest : Type 0}
      → Variants dom.Ref dom.Variant
      → (dom.Ref → Option dom.Ref)
      → InstanceSnapshot dom Rest
      → InstanceSnapshot dom Rest
  rewrite_refs_in_snapshot vs instance_of
        (snapshot snapshot_id metadata name class properties children) =
      snapshot snapshot_id metadata name class (rewrite_properties vs instance_of properties)
        (rewrite_refs_in_children vs instance_of children)

  pub rewrite_refs_in_children :
      {dom : WeakDom} {Rest : Type 0}
      → Variants dom.Ref dom.Variant
      → (dom.Ref → Option dom.Ref)
      → Snapshots dom Rest
      → Snapshots dom Rest
  rewrite_refs_in_children vs instance_of nil = nil
  rewrite_refs_in_children vs instance_of (cons child rest) =
      cons (rewrite_refs_in_snapshot vs instance_of child)
        (rewrite_refs_in_children vs instance_of rest)

module _ {dom : WeakDom} {Rest : Type 0} where
  open dom use {ref_discrete, Ref, Variant}

  unfoldable pub rewrite_refs_in_updates :
      Variants Ref Variant
      → (Ref → Option Ref)
      → List (PatchUpdate dom Rest)
      → List (PatchUpdate dom Rest)
  unfolding rewrite_changes
  rewrite_refs_in_updates vs instance_of [] = []
  rewrite_refs_in_updates vs instance_of (update ∷ rest) =
      record update {
        changed_properties = rewrite_changes vs instance_of update.changed_properties;
      }
      ∷ rewrite_refs_in_updates vs instance_of rest

  unfoldable pub rewrite_refs_in_additions :
      Variants Ref Variant
      → (Ref → Option Ref)
      → List (PatchAdd dom Rest)
      → List (PatchAdd dom Rest)
  unfolding rewrite_refs_in_snapshot
  rewrite_refs_in_additions vs instance_of [] = []
  rewrite_refs_in_additions vs instance_of (add ∷ rest) =
      record add { instance = rewrite_refs_in_snapshot vs instance_of add.instance }
      ∷ rewrite_refs_in_additions vs instance_of rest

  unfoldable pub rewrite_patch :
      Comparison dom Rest → Option (Gathered dom Rest) → Option (PatchSet dom Rest)
  unfolding rewrite_refs_in_updates rewrite_refs_in_additions lookup
  rewrite_patch by none = none
  rewrite_patch by (some g) =
      let instance_of : Ref → Option Ref =
        λ r. lookup ref_discrete r g.snapshot_id_to_instance_id in
      some (record g.patch_set {
        updated_instances =
            rewrite_refs_in_updates by.variants instance_of g.patch_set.updated_instances;
        added_instances =
            rewrite_refs_in_additions by.variants instance_of g.patch_set.added_instances;
      })

  abbrev pub nothing_gathered : Gathered dom Rest
  nothing_gathered = record { snapshot_id_to_instance_id = []; patch_set = empty_patch }

  -- The patch, or `none` if the program panics.
  unfoldable pub compute_patch_set :
      Comparison dom Rest
      → Option (InstanceSnapshot dom Rest)
      → RojoTree dom Rest
      → Ref
      → Option (PatchSet dom Rest)
  unfolding rewrite_patch compute_patch_set_internal
  compute_patch_set by (some s) t id =
      rewrite_patch by (compute_patch_set_internal by t s id nothing_gathered)
  compute_patch_set by none t id =
      ite (ref_discrete id (dom.root_ref t.inner)) (some empty_patch)
        (some (record empty_patch { removed_instances = id ∷ [] }))
