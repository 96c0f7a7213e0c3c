-- ===== src/SnapshotMiddleware/Select.antt =====
-- The choice of a middleware in snapshot_middleware/mod.rs: `snapshot_from_vfs` and
-- `middleware_for_path`. What reads the single formats is an interface, `Readers`.
use roxo_mcp.Base.{Bool, true, false, List, [], ◌∷◌, ◌++◌, Option, none, some, ite, if◌then◌else◌}
use roxo_mcp.Base.Text.{Text, codes}
use roxo_mcp.Base.Names.{Text_discrete}
use roxo_mcp.FileNames.{
  Middleware, csv, json_model, json, server_script, client_script, module_script, plugin_script,
  legacy_client_script, legacy_server_script, run_context_server_script, run_context_client_script,
  project, rbxm, rbxmx, toml, text, yaml, ignore, dir, server_script_dir, client_script_dir,
  plugin_script_dir, module_script_dir, csv_dir,
}
use roxo_mcp.ChangeProcessor.Events.{Answer, ok, not_found, failed}
use roxo_mcp.SnapshotMiddleware.Rules.{
  FilePath, Globs, SyncRule, file_name, find_rule, file_name_for_path, default_sync_rules,
}

-- An `anyhow::Result`, and the panic of `expect`.
pub data Outcome (A : Type 0) : Type 0 where
  done : A → Outcome A
  error : Outcome A
  panic : Outcome A

pub data ScriptType : Type 0 where
  server : ScriptType
  client : ScriptType
  module_type : ScriptType
  plugin : ScriptType
  legacy_server : ScriptType
  legacy_client : ScriptType
  run_context_server : ScriptType
  run_context_client : ScriptType

-- The functions that `Middleware::snapshot` calls.
pub data Reader : Type 0 where
  snapshot_csv : Reader
  snapshot_json_model : Reader
  snapshot_json : Reader
  snapshot_lua : ScriptType → Reader
  snapshot_project : Reader
  snapshot_rbxm : Reader
  snapshot_rbxmx : Reader
  snapshot_toml : Reader
  snapshot_txt : Reader
  snapshot_yaml : Reader
  snapshot_dir : Reader
  snapshot_lua_init : ScriptType → Reader
  snapshot_csv_init : Reader

-- An `InstanceSnapshot`, with the middleware of its metadata apart.
pub record Snapshot (Content : Type 0) : Type 0 where
  pub content : Content
  pub middleware : Option Middleware

pub record InstanceContext (Glob Rest : Type 0) : Type 0 where
  pub sync_rules : List (SyncRule Glob)
  pub rest : Rest

-- The metadata of a path is whether it is a directory. A reader gives `none` for an error.
pub record Sources (Content Context : Type 0) : Type 0 where
  pub metadata : FilePath → Answer Bool
  pub read : Reader → Context → FilePath → Text → Option (Option (Snapshot Content))

-- `none` is `Ignore`.
abbrev pub reader_of : Middleware → Option Reader
reader_of csv = some snapshot_csv
reader_of json_model = some snapshot_json_model
reader_of json = some snapshot_json
reader_of server_script = some (snapshot_lua server)
reader_of client_script = some (snapshot_lua client)
reader_of module_script = some (snapshot_lua module_type)
reader_of plugin_script = some (snapshot_lua plugin)
reader_of legacy_client_script = some (snapshot_lua legacy_client)
reader_of legacy_server_script = some (snapshot_lua legacy_server)
reader_of run_context_client_script = some (snapshot_lua run_context_client)
reader_of run_context_server_script = some (snapshot_lua run_context_server)
reader_of project = some snapshot_project
reader_of rbxm = some snapshot_rbxm
reader_of rbxmx = some snapshot_rbxmx
reader_of toml = some snapshot_toml
reader_of text = some snapshot_txt
reader_of yaml = some snapshot_yaml
reader_of ignore = none
reader_of dir = some snapshot_dir
reader_of server_script_dir = some (snapshot_lua_init server)
reader_of client_script_dir = some (snapshot_lua_init client)
reader_of plugin_script_dir = some (snapshot_lua_init plugin)
reader_of module_script_dir = some (snapshot_lua_init module_type)
reader_of csv_dir = some snapshot_csv_init

abbrev pub default_project_names : List (Middleware × Text)
default_project_names =
    (project, codes "default.project.json") ∷ (project, codes "default.project.jsonc") ∷ []

-- The priority of the `init` files.
abbrev pub init_paths : List (Middleware × Text)
init_paths =
    (module_script_dir, codes "init.luau")
    ∷ (module_script_dir, codes "init.lua")
    ∷ (server_script_dir, codes "init.server.luau")
    ∷ (server_script_dir, codes "init.server.lua")
    ∷ (client_script_dir, codes "init.client.luau")
    ∷ (client_script_dir, codes "init.client.lua")
    ∷ (plugin_script_dir, codes "init.plugin.lua")
    ∷ (plugin_script_dir, codes "init.plugin.luau")
    ∷ (csv_dir, codes "init.csv")
    ∷ []

-- The files that only their directory may read.
abbrev pub init_names : List Text
init_names =
    codes "init.server.luau"
    ∷ codes "init.server.lua"
    ∷ codes "init.client.luau"
    ∷ codes "init.client.lua"
    ∷ codes "init.plugin.luau"
    ∷ codes "init.plugin.lua"
    ∷ codes "init.luau"
    ∷ codes "init.lua"
    ∷ codes "init.csv"
    ∷ []

unfoldable pub is_one_of : Text → List Text → Bool
is_one_of name [] = false
is_one_of name (n ∷ names) = ite (Text_discrete name n) true (is_one_of name names)

module _ (metadata : FilePath → Answer Bool) where
  abbrev pub probe :
      Middleware
      → FilePath
      → Answer Bool
      → Outcome (Option (Middleware × FilePath))
      → Outcome (Option (Middleware × FilePath))
  probe m path (ok is_dir) rest = done (some (m, path))
  probe m path not_found rest = rest
  probe m path failed rest = error

  -- A loop over the names of files: the first one that is there.
  unfoldable pub first_existing :
      FilePath → List (Middleware × Text) → Outcome (Option (Middleware × FilePath))
  first_existing path [] = done none
  first_existing path ((m, name) ∷ names) =
      probe m (path ++ name ∷ []) (metadata (path ++ name ∷ [])) (first_existing path names)

  abbrev pub or_dir :
      FilePath → Outcome (Option (Middleware × FilePath)) → Outcome (Middleware × FilePath)
  or_dir path (done none) = done (dir, path)
  or_dir path (done (some found)) = done found
  or_dir path error = error
  or_dir path panic = panic

  abbrev pub or_init :
      FilePath → Outcome (Option (Middleware × FilePath)) → Outcome (Middleware × FilePath)
  or_init path (done none) = or_dir path (first_existing path init_paths)
  or_init path (done (some found)) = done found
  or_init path error = error
  or_init path panic = panic

  abbrev pub named_dir :
      Text → Outcome (Middleware × FilePath) → Outcome (Middleware × Text × FilePath)
  named_dir name (done (m, path)) = done (m, name, path)
  named_dir name error = error
  named_dir name panic = panic

  abbrev pub dir_middleware_at : FilePath → Option Text → Outcome (Middleware × Text × FilePath)
  dir_middleware_at path none = panic
  dir_middleware_at path (some name) =
      named_dir name (or_init path (first_existing path default_project_names))

  unfoldable pub get_dir_middleware : FilePath → Outcome (Middleware × Text × FilePath)
  unfolding first_existing
  get_dir_middleware path = dir_middleware_at path (file_name path)

module _ {Content : Type 0} where
  abbrev pub stamp :
      Middleware → Option (Option (Snapshot Content)) → Outcome (Option (Snapshot Content))
  stamp m none = error
  stamp m (some none) = done none
  stamp m (some (some s)) = done (some (record s { middleware = some m }))

module _ {Glob Content Rest : Type 0} (g : Globs Glob)
    (src : Sources Content (InstanceContext Glob Rest)) where
  abbrev pub read_with :
      InstanceContext Glob Rest
      → FilePath
      → Text
      → Option Reader
      → Option (Option (Snapshot Content))
  read_with ctx path name none = some none
  read_with ctx path name (some reader) = src.read reader ctx path name

  -- `Middleware::snapshot`.
  abbrev pub snapshot :
      Middleware → InstanceContext Glob Rest → FilePath → Text → Outcome (Option (Snapshot Content))
  snapshot m ctx path name = stamp m (read_with ctx path name (reader_of m))

  abbrev pub snapshot_named :
      Middleware
      → InstanceContext Glob Rest
      → FilePath
      → Option Text
      → Outcome (Option (Snapshot Content))
  snapshot_named m ctx path none = error
  snapshot_named m ctx path (some name) = snapshot m ctx path name

  abbrev pub snapshot_by :
      InstanceContext Glob Rest
      → FilePath
      → Option (SyncRule Glob)
      → Outcome (Option (Snapshot Content))
  snapshot_by ctx path none = done none
  snapshot_by ctx path (some rule) =
      snapshot_named rule.middleware ctx path (file_name_for_path rule path)

  abbrev pub user_or_default : FilePath → Option (SyncRule Glob) → Option (SyncRule Glob)
  user_or_default path none = find_rule g path (default_sync_rules g)
  user_or_default path (some rule) = some rule

  -- The user's rules come first.
  unfoldable pub snapshot_from_path :
      InstanceContext Glob Rest → FilePath → Outcome (Option (Snapshot Content))
  unfolding find_rule
  snapshot_from_path ctx path =
      snapshot_by ctx path (user_or_default path (find_rule g path ctx.sync_rules))

  abbrev pub snapshot_dir_by :
      InstanceContext Glob Rest
      → FilePath
      → Outcome (Middleware × Text × FilePath)
      → Outcome (Option (Snapshot Content))
  snapshot_dir_by ctx path error = error
  snapshot_dir_by ctx path panic = panic
  snapshot_dir_by ctx path (done (dir, name, init_path)) = snapshot dir ctx path name
  snapshot_dir_by ctx path (done (m, name, init_path)) = snapshot m ctx init_path name

  abbrev pub snapshot_file :
      InstanceContext Glob Rest → FilePath → Option Text → Outcome (Option (Snapshot Content))
  snapshot_file ctx path none = error
  snapshot_file ctx path (some name) =
      if is_one_of name init_names then done none else snapshot_from_path ctx path

  abbrev pub snapshot_at :
      InstanceContext Glob Rest → FilePath → Answer Bool → Outcome (Option (Snapshot Content))
  snapshot_at ctx path not_found = done none
  snapshot_at ctx path failed = error
  snapshot_at ctx path (ok true) = snapshot_dir_by ctx path (get_dir_middleware src.metadata path)
  snapshot_at ctx path (ok false) = snapshot_file ctx path (file_name path)

  unfoldable pub snapshot_from_vfs :
      InstanceContext Glob Rest → FilePath → Outcome (Option (Snapshot Content))
  unfolding get_dir_middleware is_one_of snapshot_from_path
  snapshot_from_vfs ctx path = snapshot_at ctx path (src.metadata path)

  abbrev pub middleware_of_dir :
      Outcome (Middleware × Text × FilePath) → Outcome (Option Middleware)
  middleware_of_dir error = error
  middleware_of_dir panic = panic
  middleware_of_dir (done (m, name, path)) = done (some m)

  abbrev pub middleware_of_rule : Option (SyncRule Glob) → Option Middleware
  middleware_of_rule none = none
  middleware_of_rule (some rule) = some rule.middleware

  abbrev pub middleware_at :
      List (SyncRule Glob) → FilePath → Answer Bool → Outcome (Option Middleware)
  middleware_at rules path not_found = done none
  middleware_at rules path failed = error
  middleware_at rules path (ok true) = middleware_of_dir (get_dir_middleware src.metadata path)
  middleware_at rules path (ok false) =
      done (middleware_of_rule (find_rule g path (rules ++ default_sync_rules g)))

  unfoldable pub middleware_for_path : List (SyncRule Glob) → FilePath → Outcome (Option Middleware)
  unfolding get_dir_middleware find_rule
  middleware_for_path rules path = middleware_at rules path (src.metadata path)
