-- ===== src/InMemoryFs/Fs.antt =====
-- The state and the operations of in_memory_fs.rs.
use roxo_mcp.Base.{ℕ, zero, suc, Bool, true, false, List, [], ◌∷◌, ◌++◌, Option, none, some, ite}
use Prim.Native.String.{String}
use roxo_mcp.Base.Dict.{lookup, insert, remove as remove_entry}
use roxo_mcp.Base.Text.{PathBuf, PathBuf_discrete}

mutual
  pub data VfsSnapshot : Type 0 where
    file : List ℕ → VfsSnapshot
    dir : VfsSnapshots → VfsSnapshot

  pub data VfsSnapshots : Type 0 where
    no_more : VfsSnapshots
    child : String → VfsSnapshot → VfsSnapshots → VfsSnapshots

pub data Entry : Type 0 where
  file_entry : List ℕ → Entry
  dir_entry : List PathBuf → Entry

pub record InMemoryFs : Type 0 where
  pub entries : List (PathBuf × Entry)
  pub orphans : List PathBuf

pub data IoError : Type 0 where
  must_be_file : PathBuf → IoError
  must_be_dir : PathBuf → IoError
  not_found : PathBuf → IoError

pub data Result {ℓ} (A : Type ℓ) : Type ℓ where
  ok : A → Result A
  err : IoError → Result A

abbrev pub new : InMemoryFs
new = record { entries = []; orphans = [] }

abbrev pub find : PathBuf → List (PathBuf × Entry) → Option Entry
find = lookup PathBuf_discrete

abbrev pub add : PathBuf → List PathBuf → List PathBuf
add path [] = path ∷ []
add path (p ∷ ps) = ite (PathBuf_discrete p path) (p ∷ ps) (p ∷ add path ps)

abbrev pub drop_path : PathBuf → List PathBuf → List PathBuf
drop_path path [] = []
drop_path path (p ∷ ps) = ite (PathBuf_discrete p path) ps (p ∷ drop_path path ps)

-- `Path::parent`: the root has none.
abbrev pub parent_below : String → Option PathBuf → Option PathBuf
parent_below name none = some []
parent_below name (some path) = some (name ∷ path)

unfoldable pub parent : PathBuf → Option PathBuf
parent [] = none
parent (name ∷ path) = parent_below name (parent path)

abbrev pub as_orphan : PathBuf → InMemoryFs → InMemoryFs
as_orphan path fs = record fs { orphans = add path fs.orphans }

-- The first part of `load_snapshot`: the path becomes a child of its parent, or an orphan.
abbrev pub link_below :
    PathBuf → PathBuf → Option Entry → InMemoryFs → InMemoryFs × Result (Unit {0})
link_below path parent_path none fs = (as_orphan path fs, ok tt)
link_below path parent_path (some (file_entry contents)) fs = (fs, err (must_be_dir parent_path))
link_below path parent_path (some (dir_entry children)) fs = (
  record fs {
    entries = insert PathBuf_discrete parent_path (dir_entry (add path children)) fs.entries;
  },
  ok tt,
)

abbrev pub link_to : PathBuf → Option PathBuf → InMemoryFs → InMemoryFs × Result (Unit {0})
link_to path none fs = (as_orphan path fs, ok tt)
link_to path (some parent_path) fs = link_below path parent_path (find parent_path fs.entries) fs

unfoldable pub link : PathBuf → InMemoryFs → InMemoryFs × Result (Unit {0})
unfolding parent
link path fs = link_to path (parent path) fs

abbrev pub put : PathBuf → Entry → InMemoryFs → InMemoryFs
put path entry fs = record fs { entries = insert PathBuf_discrete path entry fs.entries }

-- An early return: what comes after an error is not run.
abbrev pub then_do {ℓ} :
    {A : Type ℓ}
    → InMemoryFs × Result (Unit {0})
    → (InMemoryFs → InMemoryFs × Result A)
    → InMemoryFs × Result A
then_do (fs, ok u) next = next fs
then_do (fs, err e) next = (fs, err e)

unfoldable mutual
  unfolding link

  pub load_snapshot : VfsSnapshot → PathBuf → InMemoryFs → InMemoryFs × Result (Unit {0})
  load_snapshot (file contents) path fs =
      then_do (link path fs) (λ fs. (put path (file_entry contents) fs, ok tt))
  load_snapshot (dir children) path fs =
      then_do (link path fs) (λ fs. load_children children path (put path (dir_entry []) fs))

  pub load_children : VfsSnapshots → PathBuf → InMemoryFs → InMemoryFs × Result (Unit {0})
  load_children no_more path fs = (fs, ok tt)
  load_children (child name snapshot rest) path fs =
      then_do (load_snapshot snapshot (path ++ name ∷ []) fs) (λ fs. load_children rest path fs)

abbrev pub children_of : Option Entry → List PathBuf
children_of none = []
children_of (some (file_entry contents)) = []
children_of (some (dir_entry children)) = children

-- The loop of `remove` takes at most `fuel` paths off the queue.
unfoldable pub remove_loop :
    ℕ → List PathBuf → List (PathBuf × Entry) → Option (List (PathBuf × Entry))
remove_loop fuel [] entries = some entries
remove_loop zero (path ∷ queue) entries = none
remove_loop (suc fuel) (path ∷ queue) entries =
    remove_loop fuel (queue ++ children_of (find path entries))
      (remove_entry PathBuf_discrete path entries)

abbrev pub remove_in : PathBuf → InMemoryFs → Option (List (PathBuf × Entry)) → Option InMemoryFs
remove_in root_path fs none = none
remove_in root_path fs (some entries) =
    some (record { entries = entries; orphans = drop_path root_path fs.orphans })

unfoldable pub remove : ℕ → PathBuf → InMemoryFs → Option InMemoryFs
unfolding remove_loop
remove fuel root_path fs = remove_in root_path fs (remove_loop fuel (root_path ∷ []) fs.entries)

abbrev pub read_entry : PathBuf → Option Entry → Result (List ℕ)
read_entry path none = err (not_found path)
read_entry path (some (file_entry contents)) = ok contents
read_entry path (some (dir_entry children)) = err (must_be_file path)

unfoldable pub read : PathBuf → InMemoryFs → Result (List ℕ)
read path fs = read_entry path (find path fs.entries)

unfoldable pub write : PathBuf → List ℕ → InMemoryFs → InMemoryFs × Result (Unit {0})
unfolding load_snapshot
write path contents fs = load_snapshot (file contents) path fs

abbrev pub is_some : Option Entry → Bool
is_some none = false
is_some (some entry) = true

unfoldable pub exists : PathBuf → InMemoryFs → Result Bool
exists path fs = ok (is_some (find path fs.entries))

abbrev pub read_dir_entry : PathBuf → Option Entry → Result (List PathBuf)
read_dir_entry path none = err (not_found path)
read_dir_entry path (some (file_entry contents)) = err (must_be_dir path)
read_dir_entry path (some (dir_entry children)) = ok children

unfoldable pub read_dir : PathBuf → InMemoryFs → Result (List PathBuf)
read_dir path fs = read_dir_entry path (find path fs.entries)

unfoldable pub create_dir : PathBuf → InMemoryFs → InMemoryFs × Result (Unit {0})
unfolding load_snapshot
create_dir path fs = load_snapshot (dir no_more) path fs

-- The loop of `create_dir_all` on the proper prefixes of a path, the longest first: they are the
-- prefixes of the path `below` after `above`.
unfoldable pub create_ancestors : PathBuf → PathBuf → InMemoryFs → InMemoryFs × Result (Unit {0})
unfolding create_dir
create_ancestors above [] fs = (fs, ok tt)
create_ancestors above (name ∷ below) fs =
    then_do (create_ancestors (above ++ name ∷ []) below fs) (create_dir above)

unfoldable pub create_dir_all : PathBuf → InMemoryFs → InMemoryFs × Result (Unit {0})
unfolding create_ancestors create_dir
create_dir_all path fs = then_do (create_ancestors [] path fs) (create_dir path)

abbrev pub done : Option InMemoryFs → Option (InMemoryFs × Result (Unit {0}))
done none = none
done (some fs) = some (fs, ok tt)

abbrev pub remove_file_entry :
    ℕ → PathBuf → Option Entry → InMemoryFs → Option (InMemoryFs × Result (Unit {0}))
remove_file_entry fuel path none fs = some (fs, err (not_found path))
remove_file_entry fuel path (some (dir_entry children)) fs = some (fs, err (must_be_file path))
remove_file_entry fuel path (some (file_entry contents)) fs = done (remove fuel path fs)

unfoldable pub remove_file : ℕ → PathBuf → InMemoryFs → Option (InMemoryFs × Result (Unit {0}))
unfolding remove
remove_file fuel path fs = remove_file_entry fuel path (find path fs.entries) fs

abbrev pub remove_dir_entry :
    ℕ → PathBuf → Option Entry → InMemoryFs → Option (InMemoryFs × Result (Unit {0}))
remove_dir_entry fuel path none fs = some (fs, err (not_found path))
remove_dir_entry fuel path (some (file_entry contents)) fs = some (fs, err (must_be_dir path))
remove_dir_entry fuel path (some (dir_entry children)) fs = done (remove fuel path fs)

unfoldable pub remove_dir_all : ℕ → PathBuf → InMemoryFs → Option (InMemoryFs × Result (Unit {0}))
unfolding remove
remove_dir_all fuel path fs = remove_dir_entry fuel path (find path fs.entries) fs

abbrev pub metadata_entry : PathBuf → Option Entry → Result Bool
metadata_entry path none = err (not_found path)
metadata_entry path (some (file_entry contents)) = ok true
metadata_entry path (some (dir_entry children)) = ok false

-- Whether the path is a file.
unfoldable pub metadata : PathBuf → InMemoryFs → Result Bool
metadata path fs = metadata_entry path (find path fs.entries)
