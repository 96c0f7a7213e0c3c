-- ===== src/Patch/Walk.antt =====
-- `compute_patch_set` of patch_compute.rs: the walk over the snapshot and the instances, and the
-- references from snapshot IDs to instance IDs.
use roxo_mcp.Base.{Bool, List, Option, none, some, if◌then◌else◌}
use roxo_mcp.Base.Dict.{insert as insert_entry}
use roxo_mcp.RojoTree.Tree.{
  WeakDom, RojoTree, InstanceSnapshot, Snapshots, snapshot, nil, cons, get_instance,
}
use roxo_mcp.Patch.Properties.{compares_values}
use roxo_mcp.Patch.Sets.{PatchUpdate}
use roxo_mcp.Patch.Compute.{
  Comparison, Gathered, push_update, push_added, push_removed, is_unchanged, expect_instance,
  property_update, find_partner, unpaired, unflagged,
}

module _ {dom : WeakDom} {Rest : Type 0} where
  open dom use {ref_discrete, Ref, Variant}

  abbrev pub note_id : Comparison dom Rest → Ref → Ref → Gathered dom Rest → Gathered dom Rest
  note_id by snapshot_id id g =
      if by.variants.is_some_ref snapshot_id
      then record g {
        snapshot_id_to_instance_id =
            insert_entry ref_discrete snapshot_id id g.snapshot_id_to_instance_id;
      }
      else g

  -- `compute_property_patches` pushes an update unless nothing changed.
  abbrev pub push_changed : PatchUpdate dom Rest → Gathered dom Rest → Gathered dom Rest
  push_changed update g = if is_unchanged update then g else push_update update g

  abbrev pub remove_unpaired :
      Option (List (Ref × Bool) × Gathered dom Rest) → Option (Gathered dom Rest)
  remove_unpaired none = none
  remove_unpaired (some (children, g)) = some (push_removed (unpaired children) g)

unfoldable mutual
  unfolding property_update compares_values find_partner unpaired get_instance insert_entry

  pub compute_patch_set_internal :
      {dom : WeakDom} {Rest : Type 0}
      → Comparison dom Rest
      → RojoTree dom Rest
      → InstanceSnapshot dom Rest
      → dom.Ref
      → Gathered dom Rest
      → Option (Gathered dom Rest)
  compute_patch_set_internal by t (snapshot snapshot_id metadata name class properties children) id
        g =
      elim (expect_instance t id) [
        | none ↦ none
        | some (i, md) ↦
            let update = property_update by t metadata name class properties i md id in
            let rest = remove_unpaired (
              compute_children by t children id (unflagged i.children)
                (push_changed update (note_id by snapshot_id id g))) in
            if compares_values by.variants properties i.properties then rest else none
      ]

  -- The loop over the snapshot's children.
  pub compute_children :
      {dom : WeakDom} {Rest : Type 0}
      → Comparison dom Rest
      → RojoTree dom Rest
      → Snapshots dom Rest
      → dom.Ref
      → List (dom.Ref × Bool)
      → Gathered dom Rest
      → Option (List (dom.Ref × Bool) × Gathered dom Rest)
  compute_children by t nil id children g = some (children, g)
  compute_children by t (cons (snapshot snapshot_id metadata name class properties below) rest) id
        children g =
      elim (find_partner t name class children) [
        | none ↦ none
        | some (none, flagged) ↦ compute_children by t rest id flagged (
            push_added
              (record {
                parent_id = id;
                instance = snapshot snapshot_id metadata name class properties below;
              })
              g)
        | some (some partner, flagged) ↦
            elim (compute_patch_set_internal by t
              (snapshot snapshot_id metadata name class properties below) partner g) [
                | none ↦ none
                | some g' ↦ compute_children by t rest id flagged g'
              ]
      ]
