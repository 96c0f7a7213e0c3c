-- ===== src/Patch/Finish.antt =====
-- `apply_patch_set` of patch_apply.rs: removals, additions, updates, and the references that are
-- rewritten at the end.
use Prim.Native.String.{String}
use roxo_mcp.Base.{ℕ, List, [], ◌∷◌, ◌++◌, Option, none, some, if◌then◌else◌}
use roxo_mcp.Base.Dict.{lookup, insert as insert_entry}
use roxo_mcp.RojoTree.Index.{RojoRef, get_specified_id}
use roxo_mcp.RojoTree.Tree.{
  WeakDom, RojoTree, InstanceSnapshot, Snapshots, snapshot, nil, cons, Properties, get_instance,
  insert_instance, remove, extend,
}
use roxo_mcp.Patch.Variants.{Variants}
use roxo_mcp.Patch.Sets.{PatchAdd, PatchSet, AppliedPatchSet, empty_applied}
use roxo_mcp.Patch.Compute.{expect_instance}
use roxo_mcp.Patch.Rewrite.{rewrite_properties}
use roxo_mcp.Patch.Deferred.{has_refs, insert_ref, real_rewrites}
use roxo_mcp.Patch.Apply.{Mutation, Application, defer_ref_properties, apply_updates}

module _ {dom : WeakDom} {Rest : Type 0} where
  open dom use {ref_discrete, Ref, Variant}

  abbrev pub push_removal :
      Ref
      → Option (Option (RojoTree dom Rest))
      → Application dom Rest
      → Option (Option (Application dom Rest))
  push_removal id none a = none
  push_removal id (some none) a = some none
  push_removal id (some (some t)) a = some (
      some (record a {
        tree = t;
        applied_patch_set = record a.applied_patch_set {
          removed = a.applied_patch_set.removed ++ id ∷ [];
        };
      }))

  -- The outer `none` is fuel of a removal that ran out, the inner one a panic.
  unfoldable pub apply_removals :
      ℕ → List Ref → Application dom Rest → Option (Option (Application dom Rest))
  unfolding remove
  apply_removals fuel [] a = some (some a)
  apply_removals fuel (id ∷ ids) a = elim (push_removal id (remove dom fuel id a.tree) a) [
    | none ↦ none
    | some none ↦ some none
    | some (some a') ↦ apply_removals fuel ids a'
  ]

  -- What the context keeps of an instance that was inserted.
  unfoldable pub note_added :
      Variants Ref Variant
      → Ref
      → Properties Variant
      → Ref
      → RojoTree dom Rest
      → Application dom Rest
      → Application dom Rest
  unfolding has_refs insert_ref insert_entry
  note_added vs snapshot_id properties id t a = record {
    tree = t;
    snapshot_id_to_instance_id =
        if vs.is_some_ref snapshot_id
        then insert_entry ref_discrete snapshot_id id a.snapshot_id_to_instance_id
        else a.snapshot_id_to_instance_id;
    has_refs_to_rewrite =
        if has_refs vs properties
        then insert_ref ref_discrete id a.has_refs_to_rewrite
        else a.has_refs_to_rewrite;
    attribute_refs_to_rewrite = a.attribute_refs_to_rewrite;
    applied_patch_set = record a.applied_patch_set { added = a.applied_patch_set.added ++ id ∷ [] };
  }

unfoldable mutual
  unfolding note_added insert_instance defer_ref_properties

  -- The snapshot goes in without its children, which follow one by one.
  pub apply_add_child :
      {dom : WeakDom} {Rest : Type 0}
      → Variants dom.Ref dom.Variant
      → dom.Ref
      → InstanceSnapshot dom Rest
      → Application dom Rest
      → Option (Application dom Rest)
  apply_add_child {dom} vs parent_id (snapshot snapshot_id metadata name class properties children)
        a =
      let (t, id) =
        insert_instance dom a.tree parent_id
          (snapshot snapshot_id metadata name class properties nil) in
      elim (apply_add_children vs id children (note_added vs snapshot_id properties id t a)) [
        | none ↦ none
        | some a' ↦ defer_ref_properties vs id a'
      ]

  pub apply_add_children :
      {dom : WeakDom} {Rest : Type 0}
      → Variants dom.Ref dom.Variant
      → dom.Ref
      → Snapshots dom Rest
      → Application dom Rest
      → Option (Application dom Rest)
  apply_add_children vs id nil a = some a
  apply_add_children vs id (cons child rest) a = elim (apply_add_child vs id child a) [
    | none ↦ none
    | some a' ↦ apply_add_children vs id rest a'
  ]

module _ {dom : WeakDom} {Rest : Type 0} (vs : Variants dom.Ref dom.Variant) where
  open dom use {ref_discrete, Ref, Variant}

  unfoldable pub apply_additions :
      List (PatchAdd dom Rest) → Application dom Rest → Option (Application dom Rest)
  unfolding apply_add_child
  apply_additions [] a = some a
  apply_additions (add ∷ adds) a = elim (apply_add_child vs add.parent_id add.instance a) [
    | none ↦ none
    | some a' ↦ apply_additions adds a'
  ]

  -- `get_instance_mut` with its `expect`, and a change of the properties.
  unfoldable pub change_properties :
      Mutation dom
      → Ref
      → (Properties Variant → Properties Variant)
      → RojoTree dom Rest
      → Option (RojoTree dom Rest)
  unfolding get_instance
  change_properties mutation id f t = elim (expect_instance t id) [
    | none ↦ none
    | some (i, md) ↦ some (record t {
      inner = mutation.update t.inner id (λ j. record j { properties = f j.properties });
    })
  ]

  unfoldable pub rewrite_added :
      Mutation dom → (Ref → Option Ref) → List Ref → RojoTree dom Rest → Option (RojoTree dom Rest)
  unfolding change_properties rewrite_properties
  rewrite_added mutation instance_of [] t = some t
  rewrite_added mutation instance_of (id ∷ ids) t =
      elim (change_properties mutation id (rewrite_properties vs instance_of) t) [
        | none ↦ none
        | some t' ↦ rewrite_added mutation instance_of ids t'
      ]

  unfoldable pub rewrite_attributes :
      Mutation dom
      → List (Ref × List (String × String))
      → RojoTree dom Rest
      → Option (RojoTree dom Rest)
  unfolding change_properties real_rewrites get_specified_id extend
  rewrite_attributes mutation [] t = some t
  rewrite_attributes mutation ((id, entries) ∷ rest) t =
      let get_id : RojoRef → Option Ref = λ r. get_specified_id ref_discrete r t.index in
      elim (change_properties mutation id (λ ps. extend ps (real_rewrites vs get_id entries)) t) [
        | none ↦ none
        | some t' ↦ rewrite_attributes mutation rest t'
      ]

  unfoldable pub finalize_patch_application :
      Mutation dom → Application dom Rest → Option (RojoTree dom Rest × AppliedPatchSet dom Rest)
  unfolding rewrite_added rewrite_attributes lookup
  finalize_patch_application mutation a =
      let instance_of : Ref → Option Ref =
        λ r. lookup ref_discrete r a.snapshot_id_to_instance_id in
      elim (rewrite_added mutation instance_of a.has_refs_to_rewrite a.tree) [
        | none ↦ none
        | some t ↦ elim (rewrite_attributes mutation a.attribute_refs_to_rewrite t) [
          | none ↦ none
          | some t' ↦ some (t', a.applied_patch_set)
        ]
      ]

  abbrev pub start : RojoTree dom Rest → Application dom Rest
  start t = record {
    tree = t;
    snapshot_id_to_instance_id = [];
    has_refs_to_rewrite = [];
    attribute_refs_to_rewrite = [];
    applied_patch_set = empty_applied;
  }

  unfoldable pub finish :
      Mutation dom
      → Option (Application dom Rest)
      → Option (RojoTree dom Rest × AppliedPatchSet dom Rest)
  unfolding finalize_patch_application
  finish mutation none = none
  finish mutation (some a) = finalize_patch_application mutation a

  unfoldable pub apply_rest :
      Mutation dom
      → PatchSet dom Rest
      → Application dom Rest
      → Option (RojoTree dom Rest × AppliedPatchSet dom Rest)
  unfolding apply_additions apply_updates finish
  apply_rest mutation patch a = elim (apply_additions patch.added_instances a) [
    | none ↦ none
    | some a' ↦ finish mutation (apply_updates vs mutation patch.updated_instances a')
  ]

  unfoldable pub apply_patch_set :
      ℕ
      → Mutation dom
      → RojoTree dom Rest
      → PatchSet dom Rest
      → Option (Option (RojoTree dom Rest × AppliedPatchSet dom Rest))
  unfolding apply_removals apply_rest
  apply_patch_set fuel mutation t patch =
      elim (apply_removals fuel patch.removed_instances (start t)) [
        | none ↦ none
        | some none ↦ some none
        | some (some a) ↦ some (apply_rest mutation patch a)
      ]
