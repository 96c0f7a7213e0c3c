-- ===== src/ChangeProcessor/Tests.antt =====
-- Events on a tree with the folder `src` below its root, and a script in it.
use roxo_mcp.Base.{
  ℕ, ◌≡◌, refl, Bool, true, false, List, [], ◌∷◌, Option, none, some, arith, ℕ_discrete,
  if◌then◌else◌,
}
use roxo_mcp.Base.Dict.{lookup, insert, remove as remove_entry}
use roxo_mcp.Base.Text.{PathBuf, PathBuf_discrete, String_discrete}
use roxo_mcp.MultiMap
use roxo_mcp.MultiMap.{contains}
use roxo_mcp.MultiMap.Bucket.{position, swap_remove}
use roxo_mcp.RojoTree.Index.{
  InstanceMetadata, insert_metadata, remove_metadata, get_ids_at_path, get_metadata,
}
use roxo_mcp.RojoTree.Tree.{
  InstanceSnapshot, snapshot, nil, cons, extend, insert_instance, insert_children, insert_one, new,
  remove, get_instance,
}
use roxo_mcp.RojoTree.Sound
use roxo_mcp.RojoTree.Sound.{IsSound}
use roxo_mcp.RojoTree.Removal.{empty, tree}
use roxo_mcp.RojoTree.Memory.{memory, fresh, insert_instance as insert_into, sweep}
use roxo_mcp.Patch.Sample.{values, in_place}
use roxo_mcp.ChangeProcessor.Events.{
  write, path, Carried, ok, not_found, Sources, ancestors, canonicalize_first,
  canonicalize_event_path, first_ids, affected_ids,
}
use roxo_mcp.ChangeProcessor.Handle.{JobThreadContext, handle_vfs_event}
use roxo_mcp.ChangeProcessor.Client.{file_actions}
use roxo_mcp.ChangeProcessor.Ancestors
use roxo_mcp.ChangeProcessor.Ancestors.{Nearest, FindsIds}
use roxo_mcp.ChangeProcessor.Quiescent
use roxo_mcp.ChangeProcessor.Quiescent.{Settles, InstanceAgrees}
use roxo_mcp.ChangeProcessor.Removed.{Removable, SourceGone}
use roxo_mcp.ChangeProcessor.Owned
use roxo_mcp.ChangeProcessor.Owned.{AllOwned}

abbrev src_path : PathBuf
src_path = "src" ∷ []

abbrev metadata : List PathBuf → Option PathBuf → InstanceMetadata (Carried ℕ ℕ)
metadata paths none = record {
  ignore_unknown_instances = false;
  relevant_paths = paths;
  specified_id = none;
  rest = record { instigating_source = none; context = 0 };
}
metadata paths (some p) = record {
  ignore_unknown_instances = false;
  relevant_paths = paths;
  specified_id = none;
  rest = record { instigating_source = some (path p); context = 0 };
}

abbrev script : InstanceSnapshot memory (Carried ℕ ℕ)
script = snapshot 999 (metadata (src_path ∷ []) (some src_path)) "main" "ModuleScript" [] nil

abbrev folder : InstanceSnapshot memory (Carried ℕ ℕ)
folder = snapshot 999 (metadata (src_path ∷ []) (some src_path)) "src" "Folder" [] (cons script nil)

abbrev root : InstanceSnapshot memory (Carried ℕ ℕ)
root = snapshot 999 (metadata [] none) "game" "DataModel" [] (cons folder nil)

-- The file system is the list of the paths that exist.
abbrev in_vfs : List PathBuf → PathBuf → Bool
in_vfs vfs p = contains PathBuf_discrete p vfs

abbrev sources : Sources memory ℕ ℕ (List PathBuf)
unfolding contains PathBuf_discrete String_discrete
sources = record {
  commit_event = λ vfs e. some vfs;
  canonicalize = λ vfs p. if in_vfs vfs p then ok p else not_found;
  metadata = λ vfs p. if in_vfs vfs p then ok tt else not_found;
  snapshot_from_vfs = λ context vfs p. none;
  snapshot_project_node = λ context p name node vfs parent. none;
  comparison = record { variants = values; same_metadata = λ a b. true };
  mutation = in_place;
}

program : Unit {0}
unfolding lookup insert remove_entry PathBuf_discrete String_discrete MultiMap.get MultiMap.insert
    MultiMap.remove contains position swap_remove insert_metadata remove_metadata get_ids_at_path
    get_metadata extend insert_instance insert_children insert_one new remove get_instance
    ℕ_discrete fresh insert_into sweep ancestors canonicalize_first canonicalize_event_path
    first_ids affected_ids sources
program = tt

abbrev job : JobThreadContext memory ℕ ℕ (List PathBuf)
job = record {
  tree = new memory root;
  vfs = [] ∷ src_path ∷ [];
  message_queue = record { messages = []; message_listeners = []; last_push_at = 0 };
}

canonicalize_event_path-Nearest_example :
    Nearest
      (sources.canonicalize ([] ∷ []))
      src_path
      (canonicalize_event_path (sources.canonicalize ([] ∷ [])) src_path)
canonicalize_event_path-Nearest_example =
    Ancestors.canonicalize_event_path-Nearest (sources.canonicalize ([] ∷ [])) src_path

handle_vfs_event-Settles_example :
    Settles sources 2 job (handle_vfs_event sources 2 5 (write ("src" ∷ "lib" ∷ [])) job)
unfolding program
handle_vfs_event-Settles_example =
    Quiescent.handle_vfs_event-Settles sources 2 5 (write ("src" ∷ "lib" ∷ [])) job
      ([] ∷ src_path ∷ []) ("src" ∷ "lib" ∷ []) refl refl
      (
        (metadata (src_path ∷ []) (some src_path), refl, tt),
        ((metadata (src_path ∷ []) (some src_path), refl, tt), tt),
      )

folder-Removable : Removable (new memory root) 2 1 (tree 2 empty empty)
unfolding program
folder-Removable = record {
  sound = Sound.new-IsSound memory root;
  enough = omega arith;
  described = (refl, (refl, tt, tt), tt);
  unique = (refl, (refl, tt));
  there = λ x h. ground arith;
  destroyed = λ x. ground arith;
}

folder-SourceGone : SourceGone sources 2 (new memory root) ([] ∷ []) 1
unfolding program
folder-SourceGone = (metadata (src_path ∷ []) (some src_path), src_path, refl, refl, refl)

file_actions-AllOwned_example :
    AllOwned
      (new memory root)
      (λ id. id ≡ 1)
      (file_actions
        (λ v. none)
        (new memory root)
        (record { removed_instances = 1 ∷ []; added_instances = []; updated_instances = [] }))
file_actions-AllOwned_example =
    Owned.file_actions-AllOwned (new memory root) (λ id. id ≡ 1) (λ v. none)
      (record { removed_instances = 1 ∷ []; added_instances = []; updated_instances = [] })
      (Sound.new-IsSound memory root) (refl, tt) tt
