-- ===== src/SnapshotMiddleware/Tests.antt =====
-- The choice of middlewares on a small disk.
use roxo_mcp.Base.{◌≡◌, refl, Bool, true, false, [], ◌∷◌, ◌++◌, Option, none, some, ite}
use roxo_mcp.Base.Text.{Text, codes}
use roxo_mcp.Base.Names.{Text_discrete}
use roxo_mcp.FileNames.{server_script, module_script_dir}
use roxo_mcp.ChangeProcessor.Events.{Answer, ok, not_found}
use roxo_mcp.SnapshotMiddleware.Rules.{
  FilePath, Globs, SyncRule, PathIgnoreRule, file_name, find_rule, strip_prefix, strip_suffix,
  file_name_for_path, default_sync_rules, is_path_ignored, new_ignorable,
}
use roxo_mcp.SnapshotMiddleware.Select.{
  Outcome, ScriptType, module_type, done, Snapshot, InstanceContext, Sources, get_dir_middleware,
  snapshot_from_vfs, middleware_for_path,
}
use roxo_mcp.SnapshotMiddleware.Endings.{StarMatches, any_suffix, alternatives}
use roxo_mcp.SnapshotMiddleware.Ignored.{Decides, is_path_ignored-Decides}
use roxo_mcp.SnapshotMiddleware.Agree.{Stamped, snapshot_from_vfs-Stamped}
use roxo_mcp.SnapshotMiddleware.Chosen.{Chooses, get_dir_middleware-Chooses}
use roxo_mcp.SnapshotMiddleware.Directories.{
  Instance, Folders, relevant_in, snapshot_dir_no_meta, snapshot_lua_init,
}
use roxo_mcp.SnapshotMiddleware.Gathered.{IsFolder, snapshot_dir_no_meta-IsFolder}
use roxo_mcp.SnapshotMiddleware.Named.{default_sync_rules-extension}

abbrev ends : Text → Option Text → Bool
ends pattern none = false
ends [] (some name) = false
ends (star ∷ rest) (some name) = any_suffix name (alternatives rest)

-- Globs by their texts, each a star and an ending.
abbrev globs : Globs Text
globs = record { new = λ t. some t; literal = λ t. t; is_match = λ t path. ends t (file_name path) }

globs-StarMatches : StarMatches globs
globs-StarMatches rest name path simple named = rw named refl

abbrev folder : FilePath
folder = codes "src" ∷ codes "lib" ∷ []

abbrev script : FilePath
script = folder ++ codes "main.server.luau" ∷ []

-- The folder has an `init.lua`, and a script.
disk : FilePath → Answer Bool
disk [] = ok true
disk (a ∷ []) = ok true
disk (a ∷ b ∷ []) = ok true
disk (a ∷ b ∷ c ∷ []) =
    ite (Text_discrete c (codes "init.lua")) (ok false)
      (ite (Text_discrete c (codes "main.server.luau")) (ok false) not_found)
disk path = not_found

abbrev context : InstanceContext Text Unit
context = record { sync_rules = []; rest = tt }

abbrev sources : Sources Text (InstanceContext Text Unit)
sources = record {
  metadata = disk;
  read = λ reader ctx path name. some (some (record { content = name; middleware = none }));
}

abbrev main_snapshot : Snapshot Text
main_snapshot = record { content = codes "main"; middleware = some server_script }

reads_script : snapshot_from_vfs globs sources context script ≡ done (some main_snapshot)
unfolding snapshot_from_vfs disk default_sync_rules file_name_for_path strip_suffix strip_prefix
    Text_discrete
reads_script = refl

snapshot_from_vfs-Stamped_example :
    Stamped globs sources context (middleware_for_path globs sources [] script) main_snapshot
snapshot_from_vfs-Stamped_example =
    snapshot_from_vfs-Stamped globs sources context script main_snapshot reads_script

abbrev init_file : FilePath
init_file = folder ++ codes "init.lua" ∷ []

reads_folder : get_dir_middleware disk folder ≡ done (module_script_dir, codes "lib", init_file)
unfolding get_dir_middleware disk Text_discrete
reads_folder = refl

get_dir_middleware-Chooses_example :
    (file_name folder ≡ some (codes "lib")) × Chooses disk folder module_script_dir init_file
get_dir_middleware-Chooses_example =
    get_dir_middleware-Chooses disk folder module_script_dir (codes "lib") init_file reads_folder

default_sync_rules-extension_example :
    (rule : SyncRule Text) × (find_rule globs script (default_sync_rules globs) ≡ some rule)
    × (rule.middleware ≡ server_script)
    × (file_name_for_path rule script ≡ some (codes "main"))
default_sync_rules-extension_example =
    default_sync_rules-extension globs globs-StarMatches server_script (codes "server.luau") b'm'
      (codes "ain") folder refl refl

-- A module script with a dot in its name is read as a server script of another name.
reads_dotted :
    middleware_for_path globs sources [] (folder ++ (codes "main.server" ++ codes ".luau") ∷ [])
    ≡ done (some server_script)
unfolding middleware_for_path disk default_sync_rules strip_suffix strip_prefix Text_discrete
reads_dotted = refl

abbrev tests_only : PathIgnoreRule Text
tests_only = record {
  base_path = codes "src" ∷ [];
  glob = record { glob = codes "*.luau"; negated = false; raw = codes "*.luau" };
}

abbrev servers_too : PathIgnoreRule Text
servers_too = record {
  base_path = codes "src" ∷ [];
  glob = record { glob = codes "*.server.luau"; negated = true; raw = codes "!*.server.luau" };
}

parses_negation : new_ignorable globs (codes "!*.server.luau") ≡ some servers_too.glob
unfolding new_ignorable
parses_negation = refl

is_path_ignored-Decides_example :
    Decides globs script false
      (tests_only ∷ servers_too ∷ [])
      (is_path_ignored globs (tests_only ∷ servers_too ∷ []) script)
is_path_ignored-Decides_example =
    is_path_ignored-Decides globs script (tests_only ∷ servers_too ∷ [])

-- The folder lists its script and a file that is ignored.
abbrev listing : Folders
listing = record {
  read_dir = λ path. some (some script ∷ some (folder ++ codes "notes.luau" ∷ []) ∷ []);
  canonicalize = λ path. some path;
}

abbrev read_name : FilePath → Outcome (Option Text)
read_name path = done (file_name path)

abbrev folder_instance : Instance Text Unit
folder_instance = record {
  name = codes "lib";
  class_name = codes "Folder";
  children = codes "main.server.luau" ∷ [];
  instigating_source = folder;
  relevant_paths = relevant_in folder;
  rest = tt;
}

gathers_script :
    snapshot_dir_no_meta globs
      (tests_only ∷ servers_too ∷ [])
      listing
      read_name
      tt
      folder
      (codes "lib")
    ≡ done folder_instance
unfolding snapshot_dir_no_meta is_path_ignored strip_prefix strip_suffix Text_discrete
gathers_script = refl

snapshot_dir_no_meta-IsFolder_example :
    IsFolder globs
      (tests_only ∷ servers_too ∷ [])
      listing
      read_name
      tt
      folder
      (codes "lib")
      folder_instance
snapshot_dir_no_meta-IsFolder_example =
    snapshot_dir_no_meta-IsFolder globs (tests_only ∷ servers_too ∷ []) listing read_name tt folder
      (codes "lib") folder_instance gathers_script

abbrev as_script : FilePath → Text → ScriptType → Option (Option (Instance Text Unit))
as_script path name script_type =
    some (some (record folder_instance { class_name = codes "ModuleScript"; children = [] }))

-- A script takes the place of its directory, and has its children.
usurps_folder :
    snapshot_lua_init globs
      (tests_only ∷ servers_too ∷ [])
      listing
      read_name
      tt
      (λ path i. some i)
      as_script
      init_file
      (codes "lib")
      module_type
    ≡ done (record folder_instance { class_name = codes "ModuleScript" })
unfolding snapshot_lua_init is_path_ignored strip_prefix strip_suffix Text_discrete
usurps_folder = refl
