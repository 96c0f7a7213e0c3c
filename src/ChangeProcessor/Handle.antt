-- ===== src/ChangeProcessor/Handle.antt =====
-- The handlers of `JobThreadContext` and `compute_and_apply_changes`.
use roxo_mcp.Base.{ℕ, List, [], ◌∷◌, Option, none, some, if◌then◌else◌}
use roxo_mcp.Base.Text.{PathBuf}
use roxo_mcp.MessageQueue.{MessageQueue, Delivery, push_messages}
use roxo_mcp.RojoTree.Index.{get_metadata}
use roxo_mcp.RojoTree.Tree.{WeakDom, RojoTree}
use roxo_mcp.Patch.Sets.{PatchSet, AppliedPatchSet, empty_patch, is_empty}
use roxo_mcp.Patch.Rewrite.{compute_patch_set}
use roxo_mcp.Patch.Finish.{apply_patch_set}
use roxo_mcp.ChangeProcessor.Events.{
  VfsEvent, path_of, InstigatingSource, path, project_node, Carried, Answer, ok, not_found, failed,
  Sources, Snapshot, canonicalize_event_path, affected_ids,
}

-- A call that returns, panics, or runs out of the fuel of a removal.
pub data Run (A : Type 0) : Type 0 where
  done : A → Run A
  panicked : Run A
  out_of_fuel : Run A

abbrev pub and_then : {A B : Type 0} → Run A → (A → Run B) → Run B
and_then (done a) f = f a
and_then panicked f = panicked
and_then out_of_fuel f = out_of_fuel

abbrev pub or_panic : {A : Type 0} → Option A → Run A
or_panic none = panicked
or_panic (some a) = done a

abbrev pub run_of : {A : Type 0} → Option (Option A) → Run A
run_of none = out_of_fuel
run_of (some o) = or_panic o

-- A patch that changes nothing is not reported.
abbrev pub keep_patch :
    {dom : WeakDom} {Rest : Type 0}
    → Option (AppliedPatchSet dom Rest)
    → List (AppliedPatchSet dom Rest)
    → List (AppliedPatchSet dom Rest)
keep_patch none patches = patches
keep_patch (some patch) patches = if is_empty patch then patches else patch ∷ patches

module _ (dom : WeakDom) (Node Context : Type 0) where
  abbrev pub Tree : Type 0
  Tree = RojoTree dom (Carried Node Context)

  abbrev pub Applied : Type 0
  Applied = AppliedPatchSet dom (Carried Node Context)

module _ (dom : WeakDom) (Node Context Vfs : Type 0) where
  pub record JobThreadContext : Type 0 where
    pub tree : Tree dom Node Context
    pub vfs : Vfs
    pub message_queue : MessageQueue (Applied dom Node Context)

module _ {dom : WeakDom} {Node Context Vfs : Type 0} (src : Sources dom Node Context Vfs)
    (fuel : ℕ) where
  open dom use {Ref, Variant, ref_discrete}

  unfoldable pub apply_now :
      Tree dom Node Context
      → PatchSet dom (Carried Node Context)
      → Run (Tree dom Node Context × Option (Applied dom Node Context))
  unfolding apply_patch_set
  apply_now t patch =
      and_then (run_of (apply_patch_set src.comparison.variants fuel src.mutation t patch))
        (λ (u, applied). done (u, some applied))

  -- A snapshot error is logged, and changes nothing.
  unfoldable pub apply_snapshot :
      Tree dom Node Context
      → Ref
      → Option (Option (Snapshot dom Node Context))
      → Run (Tree dom Node Context × Option (Applied dom Node Context))
  unfolding apply_now compute_patch_set
  apply_snapshot t id none = done (t, none)
  apply_snapshot t id (some s) =
      and_then (or_panic (compute_patch_set src.comparison s t id)) (λ patch. apply_now t patch)

  unfoldable pub apply_path :
      Tree dom Node Context
      → Vfs
      → Ref
      → Context
      → PathBuf
      → Answer Unit
      → Run (Tree dom Node Context × Option (Applied dom Node Context))
  unfolding apply_snapshot apply_now
  apply_path t vfs id context p (ok _) = apply_snapshot t id (src.snapshot_from_vfs context vfs p)
  apply_path t vfs id context p not_found =
      apply_now t (record empty_patch { removed_instances = id ∷ [] })
  apply_path t vfs id context p failed = done (t, none)

  unfoldable pub apply_source :
      Tree dom Node Context
      → Vfs
      → Ref
      → Context
      → Option (InstigatingSource Node)
      → Run (Tree dom Node Context × Option (Applied dom Node Context))
  unfolding apply_path apply_snapshot
  apply_source t vfs id context none = done (t, none)
  apply_source t vfs id context (some (path p)) = apply_path t vfs id context p (src.metadata vfs p)
  apply_source t vfs id context (some (project_node p name node parent_class)) =
      apply_snapshot t id (src.snapshot_project_node context p name node vfs parent_class)

  -- `None` in place of a patch where the instance has no source, or something failed.
  unfoldable pub compute_and_apply_changes :
      Tree dom Node Context
      → Vfs
      → Ref
      → Run (Tree dom Node Context × Option (Applied dom Node Context))
  unfolding apply_source get_metadata
  compute_and_apply_changes t vfs id =
      and_then (or_panic (get_metadata ref_discrete id t.index))
        (λ md. apply_source t vfs id md.rest.context md.rest.instigating_source)

  unfoldable pub apply_ids :
      Tree dom Node Context
      → Vfs
      → List Ref
      → Run (Tree dom Node Context × List (Applied dom Node Context))
  unfolding compute_and_apply_changes
  apply_ids t vfs [] = done (t, [])
  apply_ids t vfs (id ∷ ids) = and_then (compute_and_apply_changes t vfs id) (λ (u, patch).
      and_then (apply_ids u vfs ids) (λ (w, patches). done (w, keep_patch patch patches)))

  unfoldable pub apply_patches :
      Tree dom Node Context
      → Vfs
      → PathBuf
      → Run (Tree dom Node Context × List (Applied dom Node Context))
  unfolding apply_ids affected_ids
  apply_patches t vfs p = apply_ids t vfs (affected_ids t p)

  unfoldable pub apply_event :
      Tree dom Node Context
      → Vfs
      → Answer PathBuf
      → Run (Tree dom Node Context × List (Applied dom Node Context))
  unfolding apply_patches
  apply_event t vfs (ok p) = apply_patches t vfs p
  apply_event t vfs not_found = done (t, [])
  apply_event t vfs failed = done (t, [])

  -- The patches go to the queue, also where there are none.
  abbrev pub push_patches :
      ℕ
      → Vfs
      → MessageQueue (Applied dom Node Context)
      → Tree dom Node Context × List (Applied dom Node Context)
      → Run (JobThreadContext dom Node Context Vfs × List (Delivery (Applied dom Node Context)))
  push_patches now vfs queue (t, patches) =
      let (pushed, out) = push_messages now patches queue in
      done (record { tree = t; vfs = vfs; message_queue = pushed }, out)

  unfoldable pub after_commit :
      ℕ
      → VfsEvent
      → JobThreadContext dom Node Context Vfs
      → Option Vfs
      → Run (JobThreadContext dom Node Context Vfs × List (Delivery (Applied dom Node Context)))
  unfolding apply_event canonicalize_event_path
  after_commit now event job none = done (job, [])
  after_commit now event job (some vfs) =
      and_then
        (apply_event job.tree vfs (canonicalize_event_path (src.canonicalize vfs) (path_of event)))
        (push_patches now vfs job.message_queue)

  unfoldable pub handle_vfs_event :
      ℕ
      → VfsEvent
      → JobThreadContext dom Node Context Vfs
      → Run (JobThreadContext dom Node Context Vfs × List (Delivery (Applied dom Node Context)))
  unfolding after_commit
  handle_vfs_event now event job = after_commit now event job (src.commit_event job.vfs event)
