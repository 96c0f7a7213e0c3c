-- ===== src/SnapshotMiddleware/Directories.antt =====
-- snapshot_middleware/dir.rs, and the `init` scripts of lua.rs: a directory as an instance. What reads
-- the entries, a script and the meta files are arguments.
use roxo_mcp.Base.{List, [], ◌∷◌, ◌++◌, map, Option, none, some, ite, if◌then◌else◌}
use roxo_mcp.Base.Text.{Text, codes}
use roxo_mcp.Base.Names.{Text_discrete}
use roxo_mcp.SnapshotMiddleware.Rules.{FilePath, Globs, PathIgnoreRule, is_path_ignored}
use roxo_mcp.SnapshotMiddleware.Select.{Outcome, done, error, panic, ScriptType}

-- An `InstanceSnapshot`: its children are of type `Child`, and `Rest` has its properties.
pub record Instance (Child Rest : Type 0) : Type 0 where
  pub name : Text
  pub class_name : Text
  pub children : List Child
  pub instigating_source : FilePath
  pub relevant_paths : List FilePath
  pub rest : Rest

-- The file system: the entries of a directory, each of which can be an error, and `canonicalize`.
pub record Folders : Type 0 where
  pub read_dir : FilePath → Option (List (Option FilePath))
  pub canonicalize : FilePath → Option FilePath

module _ {Child : Type 0} where
  abbrev pub add_child : Outcome (Option Child) → Outcome (List Child) → Outcome (List Child)
  add_child error rest = error
  add_child panic rest = panic
  add_child (done none) rest = rest
  add_child (done (some child)) error = error
  add_child (done (some child)) panic = panic
  add_child (done (some child)) (done children) = done (child ∷ children)

-- The files whose changes concern a directory, beside itself.
abbrev pub init_files : List Text
init_files =
    codes "init.lua"
    ∷ codes "init.luau"
    ∷ codes "init.server.lua"
    ∷ codes "init.server.luau"
    ∷ codes "init.client.lua"
    ∷ codes "init.client.luau"
    ∷ codes "init.plugin.lua"
    ∷ codes "init.plugin.luau"
    ∷ codes "init.csv"
    ∷ []

abbrev pub relevant_in : FilePath → List FilePath
relevant_in path = path ∷ map (λ (name : Text). path ++ name ∷ []) init_files

abbrev pub parent : FilePath → Option FilePath
parent [] = none
parent (n ∷ []) = some []
parent (n ∷ m ∷ path) = elim (parent (m ∷ path)) [ none ↦ none | some p ↦ some (n ∷ p) ]

module _ {Glob Child Rest : Type 0} (g : Globs Glob) (rules : List (PathIgnoreRule Glob))
    (folders : Folders) (read_child : FilePath → Outcome (Option Child)) (no_rest : Rest) where
  -- The loop over the entries.
  unfoldable pub gather : List (Option FilePath) → Outcome (List Child)
  gather [] = done []
  gather (none ∷ entries) = error
  gather (some entry ∷ entries) =
      let rest = gather entries in
      if is_path_ignored g rules entry then rest else add_child (read_child entry) rest

  abbrev pub folder_with :
      FilePath → Text → Outcome (List Child) → Option FilePath → Outcome (Instance Child Rest)
  folder_with path name error normalized = error
  folder_with path name panic normalized = panic
  folder_with path name (done children) none = error
  folder_with path name (done children) (some normalized) = done (record {
    name = name;
    class_name = codes "Folder";
    children = children;
    instigating_source = path;
    relevant_paths = relevant_in normalized;
    rest = no_rest;
  })

  abbrev pub gathered : Option (List (Option FilePath)) → Outcome (List Child)
  gathered none = error
  gathered (some entries) = gather entries

  -- It never gives `Ok(None)`.
  unfoldable pub snapshot_dir_no_meta : FilePath → Text → Outcome (Instance Child Rest)
  unfolding gather
  snapshot_dir_no_meta path name =
      folder_with path name (gathered (folders.read_dir path)) (folders.canonicalize path)

  module _
      (read_and_apply_all : FilePath → Instance Child Rest → Option (Instance Child Rest)) where
    abbrev pub or_error : Option (Instance Child Rest) → Outcome (Instance Child Rest)
    or_error none = error
    or_error (some snapshot) = done snapshot

    abbrev pub with_meta : FilePath → Outcome (Instance Child Rest) → Outcome (Instance Child Rest)
    with_meta path error = error
    with_meta path panic = panic
    with_meta path (done snapshot) = or_error (read_and_apply_all path snapshot)

    unfoldable pub snapshot_dir : FilePath → Text → Outcome (Instance Child Rest)
    unfolding snapshot_dir_no_meta
    snapshot_dir path name = with_meta path (snapshot_dir_no_meta path name)

    -- `snapshot_lua` gives an error, nothing, or a script.
    module _
        (snapshot_lua : FilePath → Text → ScriptType → Option (Option (Instance Child Rest))) where
      abbrev pub usurp :
          FilePath
          → Instance Child Rest
          → Option (Option (Instance Child Rest))
          → Outcome (Instance Child Rest)
      usurp path directory none = error
      usurp path directory (some none) = panic
      usurp path directory (some (some script)) = or_error (
          read_and_apply_all path (record script {
            children = directory.children;
            instigating_source = directory.instigating_source;
            relevant_paths = directory.relevant_paths;
          }))

      abbrev pub init_over :
          FilePath
          → FilePath
          → ScriptType
          → Outcome (Instance Child Rest)
          → Outcome (Instance Child Rest)
      init_over path init_path script_type error = error
      init_over path init_path script_type panic = panic
      init_over path init_path script_type (done directory) =
          ite (Text_discrete directory.class_name (codes "Folder"))
            (usurp path directory (snapshot_lua init_path directory.name script_type)) error

      abbrev pub init_in :
          FilePath → Text → ScriptType → Option FilePath → Outcome (Instance Child Rest)
      init_in init_path name script_type none = panic
      init_in init_path name script_type (some path) =
          init_over path init_path script_type (snapshot_dir_no_meta path name)

      unfoldable pub snapshot_lua_init :
          FilePath → Text → ScriptType → Outcome (Instance Child Rest)
      unfolding snapshot_dir_no_meta
      snapshot_lua_init init_path name script_type =
          init_in init_path name script_type (parent init_path)
