-- ===== src/Vfs/Inner.antt =====
-- `VfsInner` of crates/memofs/src/lib.rs over a `VfsBackend`. Every operation gives the new state and an
-- `io::Result`.
use Prim.Native.String.{String}
use roxo_mcp.Base.{ℕ, Bool, List, Option, none, some, if◌then◌else◌}
use roxo_mcp.Base.Text.{PathBuf}
use roxo_mcp.ChangeProcessor.Events.{VfsEvent, create, write, remove}

pub data IoResult (Err A : Type 0) : Type 0 where
  ok : A → IoResult Err A
  err : Err → IoResult Err A

-- The trait `VfsBackend`. `Info` is a `Metadata`.
pub record VfsBackend (Backend Err Info : Type 0) : Type 0 where
  pub read : PathBuf → Backend → Backend × IoResult Err (List ℕ)
  pub write : PathBuf → List ℕ → Backend → Backend × IoResult Err Unit
  pub exists : PathBuf → Backend → Backend × IoResult Err Bool
  pub read_dir : PathBuf → Backend → Backend × IoResult Err (List PathBuf)
  pub create_dir : PathBuf → Backend → Backend × IoResult Err Unit
  pub create_dir_all : PathBuf → Backend → Backend × IoResult Err Unit
  pub remove_file : PathBuf → Backend → Backend × IoResult Err Unit
  pub remove_dir_all : PathBuf → Backend → Backend × IoResult Err Unit
  pub metadata : PathBuf → Backend → Backend × IoResult Err Info
  pub canonicalize : PathBuf → Backend → Backend × IoResult Err PathBuf
  pub watch : PathBuf → Backend → Backend × IoResult Err Unit
  pub unwatch : PathBuf → Backend → Backend × IoResult Err Unit

pub record VfsInner (Backend : Type 0) : Type 0 where
  pub backend : Backend
  pub watch_enabled : Bool

module _ {Backend A Err : Type 0} where
  abbrev pub with_backend :
      VfsInner Backend → Backend × IoResult Err A → VfsInner Backend × IoResult Err A
  with_backend v (b, r) = (record v { backend = b }, r)

module _ {Backend Err Info : Type 0} (ops : VfsBackend Backend Err Info) where
  abbrev pub answer_after :
      {A : Type 0}
      → VfsInner Backend
      → A
      → Backend × IoResult Err Unit
      → VfsInner Backend × IoResult Err A
  answer_after v a (b, ok u) = (record v { backend = b }, ok a)
  answer_after v a (b, err e) = (record v { backend = b }, err e)

  -- After a read that succeeded, the path is watched, and an error of that is the answer.
  abbrev pub then_watch :
      {A : Type 0}
      → PathBuf
      → VfsInner Backend
      → Backend × IoResult Err A
      → VfsInner Backend × IoResult Err A
  then_watch path v (b, err e) = (record v { backend = b }, err e)
  then_watch path v (b, ok a) =
      if v.watch_enabled
      then answer_after v a (ops.watch path b)
      else (record v { backend = b }, ok a)

  unfoldable pub vfs_read : PathBuf → VfsInner Backend → VfsInner Backend × IoResult Err (List ℕ)
  vfs_read path v = then_watch path v (ops.read path v.backend)

  abbrev pub decoded :
      Err
      → (List ℕ → Option String)
      → VfsInner Backend × IoResult Err (List ℕ)
      → VfsInner Backend × IoResult Err String
  decoded invalid from_utf8 (v, err e) = (v, err e)
  decoded invalid from_utf8 (v, ok contents) = elim (from_utf8 contents) [
    | none ↦ (v, err invalid)
    | some text ↦ (v, ok text)
  ]

  unfoldable pub read_to_string :
      Err
      → (List ℕ → Option String)
      → PathBuf
      → VfsInner Backend
      → VfsInner Backend × IoResult Err String
  unfolding vfs_read
  read_to_string invalid from_utf8 path v = decoded invalid from_utf8 (vfs_read path v)

  unfoldable pub vfs_exists : PathBuf → VfsInner Backend → VfsInner Backend × IoResult Err Bool
  vfs_exists path v = with_backend v (ops.exists path v.backend)

  unfoldable pub vfs_write :
      PathBuf → List ℕ → VfsInner Backend → VfsInner Backend × IoResult Err Unit
  vfs_write path contents v = with_backend v (ops.write path contents v.backend)

  unfoldable pub vfs_read_dir :
      PathBuf → VfsInner Backend → VfsInner Backend × IoResult Err (List PathBuf)
  vfs_read_dir path v = then_watch path v (ops.read_dir path v.backend)

  unfoldable pub vfs_create_dir : PathBuf → VfsInner Backend → VfsInner Backend × IoResult Err Unit
  vfs_create_dir path v = with_backend v (ops.create_dir path v.backend)

  unfoldable pub vfs_create_dir_all :
      PathBuf → VfsInner Backend → VfsInner Backend × IoResult Err Unit
  vfs_create_dir_all path v = with_backend v (ops.create_dir_all path v.backend)

  -- The result of `unwatch` is ignored.
  unfoldable pub vfs_remove_file : PathBuf → VfsInner Backend → VfsInner Backend × IoResult Err Unit
  vfs_remove_file path v = with_backend v (ops.remove_file path (ops.unwatch path v.backend).0)

  unfoldable pub vfs_remove_dir_all :
      PathBuf → VfsInner Backend → VfsInner Backend × IoResult Err Unit
  vfs_remove_dir_all path v =
      with_backend v (ops.remove_dir_all path (ops.unwatch path v.backend).0)

  unfoldable pub vfs_metadata : PathBuf → VfsInner Backend → VfsInner Backend × IoResult Err Info
  vfs_metadata path v = with_backend v (ops.metadata path v.backend)

  unfoldable pub vfs_canonicalize :
      PathBuf → VfsInner Backend → VfsInner Backend × IoResult Err PathBuf
  vfs_canonicalize path v = with_backend v (ops.canonicalize path v.backend)

  unfoldable pub vfs_commit_event :
      VfsEvent → VfsInner Backend → VfsInner Backend × IoResult Err Unit
  vfs_commit_event (create path) v = (v, ok tt)
  vfs_commit_event (write path) v = (v, ok tt)
  vfs_commit_event (remove path) v = (record v { backend = (ops.unwatch path v.backend).0 }, ok tt)
