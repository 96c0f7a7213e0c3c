-- ===== src/ChangeProcessor/Events.antt =====
-- What the change processor uses of the virtual file system and the snapshot middleware, and the walk
-- of an event's path towards the root.
use Prim.Native.String.{String}
use roxo_mcp.Base.{List, [], ◌∷◌, ◌++◌, Option, map}
use roxo_mcp.Base.Text.{PathBuf}
use roxo_mcp.RojoTree.Index.{get_ids_at_path}
use roxo_mcp.RojoTree.Tree.{WeakDom, RojoTree, InstanceSnapshot}
use roxo_mcp.Patch.Compute.{Comparison}
use roxo_mcp.Patch.Apply.{Mutation}

pub data VfsEvent : Type 0 where
  create : PathBuf → VfsEvent
  write : PathBuf → VfsEvent
  remove : PathBuf → VfsEvent

abbrev pub path_of : VfsEvent → PathBuf
path_of (create p) = p
path_of (write p) = p
path_of (remove p) = p

-- metadata.rs. `Node` is a node of a project file.
pub data InstigatingSource (Node : Type 0) : Type 0 where
  path : PathBuf → InstigatingSource Node
  project_node : PathBuf → String → Node → Option String → InstigatingSource Node

-- The metadata that the tree only carries; `Context` has all but the source.
pub record Carried (Node Context : Type 0) : Type 0 where
  pub instigating_source : Option (InstigatingSource Node)
  pub context : Context

-- An `io::Result`, with `NotFound` apart from the other errors.
pub data Answer (A : Type 0) : Type 0 where
  ok : A → Answer A
  not_found : Answer A
  failed : Answer A

abbrev pub Snapshot : WeakDom → Type 0 → Type 0 → Type 0
Snapshot dom Node Context = InstanceSnapshot dom (Carried Node Context)

-- The file system and the middleware. A snapshot is an error, nothing, or an instance.
pub record Sources (dom : WeakDom) (Node Context Vfs : Type 0) : Type 0 where
  pub commit_event : Vfs → VfsEvent → Option Vfs
  pub canonicalize : Vfs → PathBuf → Answer PathBuf
  pub metadata : Vfs → PathBuf → Answer Unit
  pub snapshot_from_vfs : Context → Vfs → PathBuf → Option (Option (Snapshot dom Node Context))
  pub snapshot_project_node :
      Context
      → PathBuf
      → String
      → Node
      → Vfs
      → Option String
      → Option (Option (Snapshot dom Node Context))
  pub comparison : Comparison dom (Carried Node Context)
  pub mutation : Mutation dom

-- The path and its parents, the nearest first, each with what `strip_prefix` leaves of the path.
unfoldable pub ancestors : PathBuf → List (PathBuf × PathBuf)
ancestors [] = ([], []) ∷ []
ancestors (c ∷ p) =
    map (λ (e : PathBuf × PathBuf). (c ∷ e.0, e.1)) (ancestors p) ++ ([], c ∷ p) ∷ []

-- The loop of `canonicalize_event_path`.
abbrev pub join_suffix : PathBuf → Answer PathBuf → Answer PathBuf → Answer PathBuf
join_suffix suffix (ok p) rest = ok (p ++ suffix)
join_suffix suffix not_found rest = rest
join_suffix suffix failed rest = failed

unfoldable pub canonicalize_first :
    (PathBuf → Answer PathBuf) → List (PathBuf × PathBuf) → Answer PathBuf
canonicalize_first canonicalize [] = not_found
canonicalize_first canonicalize ((ancestor, suffix) ∷ rest) =
    join_suffix suffix (canonicalize ancestor) (canonicalize_first canonicalize rest)

unfoldable pub canonicalize_event_path : (PathBuf → Answer PathBuf) → PathBuf → Answer PathBuf
unfolding ancestors canonicalize_first
canonicalize_event_path canonicalize p = canonicalize_first canonicalize (ancestors p)

-- The loop of `apply_patches` for the nearest ancestor that has instances.
abbrev pub or_else : {A : Type 0} → List A → List A → List A
or_else [] ys = ys
or_else (x ∷ xs) ys = x ∷ xs

unfoldable pub first_ids :
    {Ref : Type 0} → (PathBuf → List Ref) → List (PathBuf × PathBuf) → List Ref
first_ids ids_at [] = []
first_ids ids_at ((ancestor, suffix) ∷ rest) = or_else (ids_at ancestor) (first_ids ids_at rest)

unfoldable pub affected_ids :
    {dom : WeakDom} {Rest : Type 0} → RojoTree dom Rest → PathBuf → List dom.Ref
unfolding ancestors first_ids get_ids_at_path
affected_ids {dom} t p = first_ids (λ q. get_ids_at_path dom.ref_discrete q t.index) (ancestors p)
