-- ===== src/Vfs/FsSnapshot.antt =====
-- syncback/fs_snapshot.rs. A hash map is a dictionary, and a hash set a list without repetition.
use roxo_mcp.Base.{ℕ, Bool, ◌&&◌, List, [], ◌∷◌, ◌++◌, map, keep, if◌then◌else◌}
use roxo_mcp.Base.Dict.{insert as insert_entry}
use roxo_mcp.Base.Text.{PathBuf, PathBuf_discrete}
use roxo_mcp.MultiMap.{contains}
use roxo_mcp.Patch.Sets.{is_nil}
use roxo_mcp.Vfs.Inner.{
  IoResult, ok, err, VfsBackend, VfsInner, vfs_create_dir_all, vfs_write, vfs_remove_dir_all,
  vfs_remove_file,
}

pub record FsSnapshot : Type 0 where
  pub added_files : List (PathBuf × List ℕ)
  pub added_dirs : List PathBuf
  pub removed_files : List PathBuf
  pub removed_dirs : List PathBuf

abbrev pub new_snapshot : FsSnapshot
new_snapshot = record { added_files = []; added_dirs = []; removed_files = []; removed_dirs = [] }

unfoldable pub insert_path : PathBuf → List PathBuf → List PathBuf
unfolding contains
insert_path p ps = if contains PathBuf_discrete p ps then ps else ps ++ p ∷ []

unfoldable pub extend_paths : List PathBuf → List PathBuf → List PathBuf
unfolding insert_path
extend_paths ps [] = ps
extend_paths ps (q ∷ qs) = extend_paths (insert_path q ps) qs

unfoldable pub extend_files :
    List (PathBuf × List ℕ) → List (PathBuf × List ℕ) → List (PathBuf × List ℕ)
extend_files files [] = files
extend_files files ((p, data') ∷ more) =
    extend_files (insert_entry PathBuf_discrete p data' files) more

unfoldable pub add_file : PathBuf → List ℕ → FsSnapshot → FsSnapshot
unfolding insert_entry
add_file p data' s = record s { added_files = insert_entry PathBuf_discrete p data' s.added_files }

unfoldable pub add_dir : PathBuf → FsSnapshot → FsSnapshot
unfolding insert_path
add_dir p s = record s { added_dirs = insert_path p s.added_dirs }

unfoldable pub remove_file : PathBuf → FsSnapshot → FsSnapshot
unfolding insert_path
remove_file p s = record s { removed_files = insert_path p s.removed_files }

unfoldable pub remove_dir : PathBuf → FsSnapshot → FsSnapshot
unfolding insert_path
remove_dir p s = record s { removed_dirs = insert_path p s.removed_dirs }

unfoldable pub merge : FsSnapshot → FsSnapshot → FsSnapshot
unfolding extend_files extend_paths
merge s other = record {
  added_files = extend_files s.added_files other.added_files;
  added_dirs = extend_paths s.added_dirs other.added_dirs;
  removed_files = extend_paths s.removed_files other.removed_files;
  removed_dirs = extend_paths s.removed_dirs other.removed_dirs;
}

unfoldable pub merge_with_filter : (PathBuf → Bool) → FsSnapshot → FsSnapshot → FsSnapshot
unfolding merge
merge_with_filter predicate s other = merge s (record {
  added_files = keep (λ (f : PathBuf × List ℕ). predicate f.0) other.added_files;
  added_dirs = keep predicate other.added_dirs;
  removed_files = keep predicate other.removed_files;
  removed_dirs = keep predicate other.removed_dirs;
})

abbrev pub is_empty_snapshot : FsSnapshot → Bool
is_empty_snapshot s =
    is_nil s.added_files && is_nil s.added_dirs && is_nil s.removed_files && is_nil s.removed_dirs

abbrev pub at_base : PathBuf → List PathBuf → List PathBuf
at_base base = map (λ p. base ++ p)

abbrev pub files_at_base : PathBuf → List (PathBuf × List ℕ) → List (PathBuf × List ℕ)
files_at_base base = map (λ (f : PathBuf × List ℕ). (base ++ f.0, f.1))

module _ {Backend Err Info : Type 0} (ops : VfsBackend Backend Err Info) where
  abbrev pub State : Type 0
  State = VfsInner Backend × IoResult Err Unit

  abbrev pub next_if_ok : State → (VfsInner Backend → State) → State
  next_if_ok (v, ok u) next = next v
  next_if_ok (v, err e) next = (v, err e)

  -- An error that says that the directory exists is passed over.
  abbrev pub next_unless : (Err → Bool) → State → (VfsInner Backend → State) → State
  next_unless already_exists (v, ok u) next = next v
  next_unless already_exists (v, err e) next = if already_exists e then next v else (v, err e)

  unfoldable pub create_dirs : (Err → Bool) → List PathBuf → VfsInner Backend → State
  unfolding vfs_create_dir_all
  create_dirs already_exists [] v = (v, ok tt)
  create_dirs already_exists (p ∷ ps) v =
      next_unless already_exists (vfs_create_dir_all ops p v) (create_dirs already_exists ps)

  unfoldable pub write_files : List (PathBuf × List ℕ) → VfsInner Backend → State
  unfolding vfs_write
  write_files [] v = (v, ok tt)
  write_files ((p, contents) ∷ files) v =
      next_if_ok (vfs_write ops p contents v) (write_files files)

  unfoldable pub remove_dirs : List PathBuf → VfsInner Backend → State
  unfolding vfs_remove_dir_all
  remove_dirs [] v = (v, ok tt)
  remove_dirs (p ∷ ps) v = next_if_ok (vfs_remove_dir_all ops p v) (remove_dirs ps)

  unfoldable pub remove_files : List PathBuf → VfsInner Backend → State
  unfolding vfs_remove_file
  remove_files [] v = (v, ok tt)
  remove_files (p ∷ ps) v = next_if_ok (vfs_remove_file ops p v) (remove_files ps)

  unfoldable pub write_to_vfs : (Err → Bool) → PathBuf → FsSnapshot → VfsInner Backend → State
  unfolding create_dirs write_files remove_dirs remove_files
  write_to_vfs already_exists base s v =
      next_if_ok
        (next_if_ok
          (next_if_ok (create_dirs already_exists (at_base base s.added_dirs) v)
            (write_files (files_at_base base s.added_files)))
          (remove_dirs (at_base base s.removed_dirs)))
        (remove_files (at_base base s.removed_files))
