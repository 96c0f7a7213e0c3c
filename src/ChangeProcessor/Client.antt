-- ===== src/ChangeProcessor/Client.antt =====
-- `handle_tree_event` of change_processor.rs: a patch that a client sent. The files that it writes and
-- removes are listed; their errors are only logged.
use Prim.Native.String.{String}
use roxo_mcp.Base.{ℕ, List, [], ◌∷◌, ◌++◌, Option, none, some, if◌then◌else◌}
use roxo_mcp.Base.Text.{PathBuf}
use roxo_mcp.MessageQueue.{Delivery, push_messages}
use roxo_mcp.RojoTree.Index.{InstanceMetadata}
use roxo_mcp.RojoTree.Tree.{WeakDom, RojoTree, Instance, get_instance}
use roxo_mcp.Patch.Properties.{Changes}
use roxo_mcp.Patch.Sets.{PatchSet, PatchUpdate, is_empty}
use roxo_mcp.Patch.Compute.{same_text}
use roxo_mcp.Patch.Finish.{apply_patch_set}
use roxo_mcp.ChangeProcessor.Events.{InstigatingSource, path, project_node, Carried, Sources}
use roxo_mcp.ChangeProcessor.Handle.{
  Run, done, and_then, or_panic, run_of, Tree, Applied, JobThreadContext,
}

pub data FileAction : Type 0 where
  remove_file : PathBuf → FileAction
  write_file : PathBuf → String → FileAction

module _ {Node : Type 0} where
  abbrev pub removal_of : Option (InstigatingSource Node) → List FileAction
  removal_of (some (path p)) = remove_file p ∷ []
  removal_of (some (project_node p name node parent_class)) = []
  removal_of none = []

  abbrev pub write_of : Option (InstigatingSource Node) → Option String → List FileAction
  write_of (some (path p)) (some value) = write_file p value ∷ []
  write_of (some (path p)) none = []
  write_of (some (project_node p name node parent_class)) value = []
  write_of none value = []

abbrev pub string_of :
    {Variant : Type 0} → (Variant → Option String) → Option Variant → Option String
string_of as_string none = none
string_of as_string (some value) = as_string value

module _ {Variant Node : Type 0} (as_string : Variant → Option String) where
  -- The loop over the changed properties of an update: only `Source` is written.
  unfoldable pub source_writes : Option (InstigatingSource Node) → Changes Variant → List FileAction
  source_writes source [] = []
  source_writes source ((key, value) ∷ changes) =
      (if same_text key "Source" then write_of source (string_of as_string value) else [])
      ++ source_writes source changes

module _ {Ref Variant Node Context : Type 0} where
  abbrev pub removal_actions :
      Option (Option (Instance Ref Variant × InstanceMetadata (Carried Node Context)))
      → Option (List FileAction)
  removal_actions none = some []
  removal_actions (some none) = none
  removal_actions (some (some (i, md))) = some (removal_of md.rest.instigating_source)

  unfoldable pub update_actions :
      (Variant → Option String)
      → Changes Variant
      → Option (Option (Instance Ref Variant × InstanceMetadata (Carried Node Context)))
      → Option (List FileAction)
  unfolding source_writes
  update_actions as_string changes none = some []
  update_actions as_string changes (some none) = none
  update_actions as_string changes (some (some (i, md))) =
      some (source_writes as_string md.rest.instigating_source changes)

abbrev pub prepend_to : {A : Type 0} → Option (List A) → Option (List A) → Option (List A)
prepend_to none rest = none
prepend_to (some xs) none = none
prepend_to (some xs) (some ys) = some (xs ++ ys)

module _ {dom : WeakDom} {Node Context : Type 0} where
  open dom use {Ref, Variant}

  unfoldable pub removals :
      RojoTree dom (Carried Node Context) → List Ref → Option (List FileAction)
  unfolding get_instance
  removals t [] = some []
  removals t (id ∷ ids) = prepend_to (removal_actions (get_instance dom id t)) (removals t ids)

  unfoldable pub writes :
      (Variant → Option String)
      → RojoTree dom (Carried Node Context)
      → List (PatchUpdate dom (Carried Node Context))
      → Option (List FileAction)
  unfolding get_instance update_actions
  writes as_string t [] = some []
  writes as_string t (u ∷ us) =
      prepend_to (update_actions as_string u.changed_properties (get_instance dom u.id t))
        (writes as_string t us)

  unfoldable pub file_actions :
      (Variant → Option String)
      → RojoTree dom (Carried Node Context)
      → PatchSet dom (Carried Node Context)
      → Option (List FileAction)
  unfolding removals writes
  file_actions as_string t patch =
      prepend_to (removals t patch.removed_instances) (writes as_string t patch.updated_instances)

module _ {dom : WeakDom} {Node Context Vfs : Type 0} (src : Sources dom Node Context Vfs) where
  open dom use {Ref, Variant}

  -- A report without changes is not sent.
  abbrev pub push_patch :
      ℕ
      → JobThreadContext dom Node Context Vfs
      → Tree dom Node Context × Applied dom Node Context
      → JobThreadContext dom Node Context Vfs × List (Delivery (Applied dom Node Context))
  push_patch now job (t, applied) =
      if is_empty applied
      then (record job { tree = t }, [])
      else let (pushed, out) = push_messages now (applied ∷ []) job.message_queue in
        (record job { tree = t; message_queue = pushed }, out)

  unfoldable pub handle_tree_event :
      ℕ
      → ℕ
      → (Variant → Option String)
      → PatchSet dom (Carried Node Context)
      → JobThreadContext dom Node Context Vfs
      → Run (
          List FileAction
          × JobThreadContext dom Node Context Vfs
          × List (Delivery (Applied dom Node Context)))
  unfolding file_actions apply_patch_set
  handle_tree_event fuel now as_string patch job =
      and_then (or_panic (file_actions as_string job.tree patch)) (λ actions.
        and_then (run_of (apply_patch_set src.comparison.variants fuel src.mutation job.tree patch))
          (λ (applied : Tree dom Node Context × Applied dom Node Context).
            let after = push_patch now job applied in done (actions, after.0, after.1)))
