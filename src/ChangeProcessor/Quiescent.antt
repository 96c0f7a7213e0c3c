-- ===== src/ChangeProcessor/Quiescent.antt =====
-- An event after which every affected instance still is what its source says changes nothing.
use roxo_mcp.Base.{ℕ, List, [], ◌∷◌, Option, none, some, ◌≡◌, refl, ap, ◌∙◌, All}
use mathlib.Core.List.{append-nil}
use roxo_mcp.Base.Text.{PathBuf}
use roxo_mcp.MessageQueue.{Delivery}
use roxo_mcp.MessageQueue.Quiet.{IsQuiet, push_messages_lem, push_messages-IsQuiet}
use roxo_mcp.RojoTree.Index.{InstanceMetadata, get_metadata}
use roxo_mcp.RojoTree.Tree.{WeakDom}
use roxo_mcp.Patch.Sets.{empty_patch}
use roxo_mcp.Patch.Apply.{apply_updates}
use roxo_mcp.Patch.Finish.{
  apply_patch_set, apply_removals, apply_rest, apply_additions, finish, finalize_patch_application,
  rewrite_added, rewrite_attributes,
}
use roxo_mcp.Patch.Mirror.{Mirrors, compute_patch_set_mirror}
use roxo_mcp.ChangeProcessor.Events.{
  VfsEvent, path_of, InstigatingSource, path, project_node, Carried, Answer, ok, not_found, failed,
  Sources, Snapshot, canonicalize_event_path, affected_ids,
}
use roxo_mcp.ChangeProcessor.Handle.{
  Run, done, panicked, out_of_fuel, and_then, Tree, Applied, JobThreadContext, apply_now,
  apply_snapshot, apply_path, apply_source, compute_and_apply_changes, keep_patch, apply_ids,
  apply_patches, apply_event, after_commit, handle_vfs_event,
}

module _ {dom : WeakDom} {Node Context Vfs : Type 0} (src : Sources dom Node Context Vfs)
    (fuel : ℕ) where
  open dom use {Ref, Variant, ref_discrete}

  -- The tree stays, and there is no patch to send.
  abbrev Idle :
      Tree dom Node Context
      → Run (Tree dom Node Context × Option (Applied dom Node Context))
      → Type 0
  Idle t (done (u, patch)) =
      (u ≡ t) × ((patches : List (Applied dom Node Context)) → keep_patch patch patches ≡ patches)
  Idle t panicked = ⊥
  Idle t out_of_fuel = ⊥

  apply_now-Idle : (t : Tree dom Node Context) → Idle t (apply_now src fuel t empty_patch)
  unfolding apply_now apply_patch_set apply_removals apply_rest apply_additions apply_updates finish
      finalize_patch_application rewrite_added rewrite_attributes
  apply_now-Idle t = (refl, λ patches. refl)

  -- The snapshot failed, or says what the tree has.
  abbrev pub SnapshotAgrees :
      Tree dom Node Context → Ref → Option (Option (Snapshot dom Node Context)) → Type 0
  SnapshotAgrees t id none = Unit
  SnapshotAgrees t id (some none) = ⊥
  SnapshotAgrees t id (some (some s)) = Mirrors src.comparison t s id

  apply_snapshot-Idle :
      (t : Tree dom Node Context) (id : Ref) (o : Option (Option (Snapshot dom Node Context)))
      → SnapshotAgrees t id o
      → Idle t (apply_snapshot src fuel t id o)
  unfolding apply_snapshot
  apply_snapshot-Idle t id none h = (refl, λ patches. refl)
  apply_snapshot-Idle t id (some none) h = absurd h
  apply_snapshot-Idle t id (some (some s)) h =
      rw (compute_patch_set_mirror src.comparison t s id h) (apply_now-Idle t)

  abbrev pub PathAgrees :
      Tree dom Node Context → Vfs → Ref → Context → PathBuf → Answer Unit → Type 0
  PathAgrees t vfs id context p (ok _) = SnapshotAgrees t id (src.snapshot_from_vfs context vfs p)
  PathAgrees t vfs id context p not_found = ⊥
  PathAgrees t vfs id context p failed = Unit

  apply_path-Idle :
      (t : Tree dom Node Context) (vfs : Vfs) (id : Ref) (context : Context) (p : PathBuf)
      (a : Answer Unit)
      → PathAgrees t vfs id context p a
      → Idle t (apply_path src fuel t vfs id context p a)
  unfolding apply_path
  apply_path-Idle t vfs id context p (ok _) h =
      apply_snapshot-Idle t id (src.snapshot_from_vfs context vfs p) h
  apply_path-Idle t vfs id context p not_found h = absurd h
  apply_path-Idle t vfs id context p failed h = (refl, λ patches. refl)

  abbrev pub SourceAgrees :
      Tree dom Node Context → Vfs → Ref → Context → Option (InstigatingSource Node) → Type 0
  SourceAgrees t vfs id context none = Unit
  SourceAgrees t vfs id context (some (path p)) = PathAgrees t vfs id context p (src.metadata vfs p)
  SourceAgrees t vfs id context (some (project_node p name node parent_class)) =
      SnapshotAgrees t id (src.snapshot_project_node context p name node vfs parent_class)

  apply_source-Idle :
      (t : Tree dom Node Context) (vfs : Vfs) (id : Ref) (context : Context)
      (o : Option (InstigatingSource Node))
      → SourceAgrees t vfs id context o
      → Idle t (apply_source src fuel t vfs id context o)
  unfolding apply_source
  apply_source-Idle t vfs id context none h = (refl, λ patches. refl)
  apply_source-Idle t vfs id context (some (path p)) h =
      apply_path-Idle t vfs id context p (src.metadata vfs p) h
  apply_source-Idle t vfs id context (some (project_node p name node parent_class)) h =
      apply_snapshot-Idle t id (src.snapshot_project_node context p name node vfs parent_class) h

  -- The instance has metadata, and its source fails or says what the tree has.
  abbrev pub InstanceAgrees : Tree dom Node Context → Vfs → Ref → Type 0
  InstanceAgrees t vfs id =
      (md : InstanceMetadata (Carried Node Context)) × (get_metadata ref_discrete id t.index
        ≡ some md)
      × SourceAgrees t vfs id md.rest.context md.rest.instigating_source

  compute_and_apply_changes-Idle :
      (t : Tree dom Node Context) (vfs : Vfs) (id : Ref)
      → InstanceAgrees t vfs id
      → Idle t (compute_and_apply_changes src fuel t vfs id)
  unfolding compute_and_apply_changes
  compute_and_apply_changes-Idle t vfs id (md, e, h) =
      rw e (apply_source-Idle t vfs id md.rest.context md.rest.instigating_source h)

  apply_ids_after :
      (t : Tree dom Node Context) (vfs : Vfs) (ids : List Ref)
      (r : Run (Tree dom Node Context × Option (Applied dom Node Context)))
      → Idle t r
      → apply_ids src fuel t vfs ids ≡ done (t, [])
      → and_then {B = Tree dom Node Context × List (Applied dom Node Context)} r (λ (u, patch).
        and_then {B = Tree dom Node Context × List (Applied dom Node Context)}
          (apply_ids src fuel u vfs ids)
          (λ (w, patches). done (w, keep_patch patch patches)))
        ≡ done (t, [])
  apply_ids_after t vfs ids (done (u, patch)) (e, keeps) h =
      rw (e, h) (ap (λ (ps : List (Applied dom Node Context)). done (t, ps)) (keeps []))
  apply_ids_after t vfs ids panicked i h = absurd i
  apply_ids_after t vfs ids out_of_fuel i h = absurd i

  apply_ids_agree :
      (t : Tree dom Node Context) (vfs : Vfs) (ids : List Ref)
      → All (InstanceAgrees t vfs) ids
      → apply_ids src fuel t vfs ids ≡ done (t, [])
  unfolding apply_ids
  apply_ids_agree t vfs [] h = refl
  apply_ids_agree t vfs (id ∷ ids) h =
      apply_ids_after t vfs ids (compute_and_apply_changes src fuel t vfs id)
        (compute_and_apply_changes-Idle t vfs id h.0) (apply_ids_agree t vfs ids h.1)

  -- The handler ends with the same tree and the same messages, and no listener is behind them.
  abbrev pub Settles :
      JobThreadContext dom Node Context Vfs
      → Run (JobThreadContext dom Node Context Vfs × List (Delivery (Applied dom Node Context)))
      → Type 0
  Settles job (done (after, out)) =
      (after.tree ≡ job.tree)
      × (after.message_queue.messages ≡ job.message_queue.messages)
      × IsQuiet after.message_queue
  Settles job panicked = ⊥
  Settles job out_of_fuel = ⊥

  -- After an event that the file system accepts, and whose path becomes a canonical path, the
  -- handler ends without a change of the tree and without a message, where each affected instance
  -- has metadata and its source fails to give a snapshot, or gives one that says what the tree
  -- has, of the instance and of all below it, no class of which inherits from Model and no
  -- attribute of which specifies a reference.
  pub handle_vfs_event-Settles :
      (now : ℕ) (event : VfsEvent) (job : JobThreadContext dom Node Context Vfs) (vfs : Vfs)
      (p : PathBuf)
      → src.commit_event job.vfs event ≡ some vfs
      → canonicalize_event_path (src.canonicalize vfs) (path_of event) ≡ ok p
      → All (InstanceAgrees job.tree vfs) (affected_ids job.tree p)
      → Settles job (handle_vfs_event src fuel now event job)
  unfolding handle_vfs_event after_commit apply_event apply_patches
  handle_vfs_event-Settles now event job vfs p commits found agrees =
      let (messages, listeners, out) = push_messages_lem now [] job.message_queue in
      rw (commits, found, apply_ids_agree job.tree vfs (affected_ids job.tree p) agrees, Settles)
        (
          refl,
          messages ∙ append-nil job.message_queue.messages,
          push_messages-IsQuiet now [] job.message_queue,
        )
