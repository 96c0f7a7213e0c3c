-- ===== src/SnapshotMiddleware/Rules.antt =====
-- The rules of snapshot/metadata.rs and glob.rs: which files a middleware takes, and which paths are
-- ignored. Paths are lists of names that are valid Unicode.
use roxo_mcp.Base.{
  ℕ, Bool, true, false, not, List, [], ◌∷◌, Option, none, some, ite, ◌==◌, if◌then◌else◌,
}
use roxo_mcp.Base.Text.{Text, codes}
use roxo_mcp.Base.Names.{Text_discrete, rsplit_dot}
use roxo_mcp.FileNames.{Middleware}

abbrev pub FilePath : Type 0
FilePath = List Text

-- globset: `new` can fail; `literal` is `new` and `unwrap` at a pattern of the program.
pub record Globs (Glob : Type 0) : Type 0 where
  pub new : Text → Option Glob
  pub literal : Text → Glob
  pub is_match : Glob → FilePath → Bool

-- `Path::strip_prefix`.
unfoldable pub strip_prefix : FilePath → FilePath → Option FilePath
strip_prefix path [] = some path
strip_prefix [] (b ∷ base) = none
strip_prefix (p ∷ path) (b ∷ base) =
    let rest = strip_prefix path base in ite (Text_discrete p b) rest none

abbrev pub last_name : Text → FilePath → Text
last_name n [] = n
last_name n (m ∷ rest) = last_name m rest

-- `Path::file_name`.
abbrev pub file_name : FilePath → Option Text
file_name [] = none
file_name (n ∷ rest) = some (last_name n rest)

abbrev pub stem_of : Text → Option (Text × Text) → Text
stem_of name none = name
stem_of name (some ([], ext)) = name
stem_of name (some (c ∷ stem, ext)) = c ∷ stem

-- `Path::file_stem`, of a file name.
unfoldable pub file_stem : Text → Text
unfolding rsplit_dot
file_stem name = stem_of name (rsplit_dot name)

abbrev pub push_front : ℕ → Option Text → Option Text
push_front c none = none
push_front c (some t) = some (c ∷ t)

-- What `ends_with` finds before the suffix.
unfoldable pub strip_suffix : Text → Text → Option Text
strip_suffix suffix [] = ite (Text_discrete [] suffix) (some []) none
strip_suffix suffix (c ∷ cs) =
    let rest = push_front c (strip_suffix suffix cs) in
    ite (Text_discrete (c ∷ cs) suffix) (some []) rest

pub record SyncRule (Glob : Type 0) : Type 0 where
  pub include : Glob
  pub exclude : Option Glob
  pub middleware : Middleware
  pub suffix : Option Text
  pub base_path : FilePath

module _ {Glob : Type 0} (g : Globs Glob) where
  abbrev pub excluded : FilePath → Option Glob → Bool
  excluded path none = false
  excluded path (some pattern) = g.is_match pattern path

  abbrev pub matches_in : SyncRule Glob → Option FilePath → Bool
  matches_in rule none = false
  matches_in rule (some rest) =
      if excluded rest rule.exclude then false else g.is_match rule.include rest

  unfoldable pub matches : SyncRule Glob → FilePath → Bool
  unfolding strip_prefix
  matches rule path = matches_in rule (strip_prefix path rule.base_path)

  -- The first rule that matches.
  unfoldable pub find_rule : FilePath → List (SyncRule Glob) → Option (SyncRule Glob)
  unfolding matches
  find_rule path [] = none
  find_rule path (rule ∷ rules) =
      let rest = find_rule path rules in if matches rule path then some rule else rest

abbrev pub or_whole : Text → Option Text → Text
or_whole name none = name
or_whole name (some stem) = stem

abbrev pub trimmed : Option Text → Option Text → Option Text
trimmed suffix none = none
trimmed (some suffix) (some name) = some (or_whole name (strip_suffix suffix name))
trimmed none (some name) = some (file_stem name)

module _ {Glob : Type 0} where
  -- `none` is the error for a path without a file name.
  unfoldable pub file_name_for_path : SyncRule Glob → FilePath → Option Text
  unfolding strip_suffix file_stem
  file_name_for_path rule path = trimmed rule.suffix (file_name path)

-- A glob that a `!` negates.
pub record IgnorableGlob (Glob : Type 0) : Type 0 where
  pub glob : Glob
  pub negated : Bool
  pub raw : Text

abbrev pub ignorable : {Glob : Type 0} → Bool → Text → Option Glob → Option (IgnorableGlob Glob)
ignorable negated raw none = none
ignorable negated raw (some glob) = some (record { glob = glob; negated = negated; raw = raw })

-- Whether a pattern is a negation, and the pattern of the glob.
abbrev pub escaped_body : ℕ → Text → Text
escaped_body c [] = c ∷ []
escaped_body c (d ∷ rest) =
    if c == b'\\' then (if d == b'!' then d ∷ rest else c ∷ d ∷ rest) else c ∷ d ∷ rest

abbrev pub split_negation : Text → Bool × Text
split_negation [] = (false, [])
split_negation (c ∷ rest) = if c == b'!' then (true, rest) else (false, escaped_body c rest)

pub record PathIgnoreRule (Glob : Type 0) : Type 0 where
  pub base_path : FilePath
  pub glob : IgnorableGlob Glob

module _ {Glob : Type 0} (g : Globs Glob) where
  unfoldable pub new_ignorable : Text → Option (IgnorableGlob Glob)
  new_ignorable pattern =
      let (negated, body) = split_negation pattern in ignorable negated pattern (g.new body)

  abbrev pub ignores_in : PathIgnoreRule Glob → Option FilePath → Bool
  ignores_in rule none = false
  ignores_in rule (some rest) = g.is_match rule.glob.glob rest

  unfoldable pub ignore_rule_matches : PathIgnoreRule Glob → FilePath → Bool
  unfolding strip_prefix
  ignore_rule_matches rule path = ignores_in rule (strip_prefix path rule.base_path)

  -- The loop of `is_path_ignored`, with its flag.
  unfoldable pub ignore_loop : Bool → List (PathIgnoreRule Glob) → FilePath → Bool
  unfolding ignore_rule_matches
  ignore_loop ignored [] path = ignored
  ignore_loop ignored (rule ∷ rules) path =
      ignore_loop (if ignore_rule_matches rule path then not rule.glob.negated else ignored) rules
        path

  unfoldable pub is_path_ignored : List (PathIgnoreRule Glob) → FilePath → Bool
  unfolding ignore_loop
  is_path_ignored rules path = ignore_loop false rules path

  -- The macro `sync_rule`.
  abbrev pub sync_rule : Text → Middleware → Option Text → Option Text → SyncRule Glob
  sync_rule pattern middleware suffix none = record {
    include = g.literal pattern;
    exclude = none;
    middleware = middleware;
    suffix = suffix;
    base_path = [];
  }
  sync_rule pattern middleware suffix (some exclude) = record {
    include = g.literal pattern;
    exclude = some (g.literal exclude);
    middleware = middleware;
    suffix = suffix;
    base_path = [];
  }

  abbrev pub plain : Text → Middleware → SyncRule Glob
  plain pattern middleware = sync_rule pattern middleware none none

  abbrev pub with_suffix : Text → Middleware → Text → SyncRule Glob
  with_suffix pattern middleware suffix = sync_rule pattern middleware (some suffix) none

  unfoldable pub default_sync_rules : List (SyncRule Glob)
  default_sync_rules =
      with_suffix (codes "*.server.lua") Middleware.server_script (codes ".server.lua")
      ∷ with_suffix (codes "*.server.luau") Middleware.server_script (codes ".server.luau")
      ∷ with_suffix (codes "*.client.lua") Middleware.client_script (codes ".client.lua")
      ∷ with_suffix (codes "*.client.luau") Middleware.client_script (codes ".client.luau")
      ∷ with_suffix (codes "*.plugin.lua") Middleware.plugin_script (codes ".plugin.lua")
      ∷ with_suffix (codes "*.plugin.luau") Middleware.plugin_script (codes ".plugin.luau")
      ∷ plain (codes "*.{lua,luau}") Middleware.module_script
      ∷ with_suffix (codes "*.project.json") Middleware.project (codes ".project.json")
      ∷ with_suffix (codes "*.project.jsonc") Middleware.project (codes ".project.jsonc")
      ∷ with_suffix (codes "*.model.json") Middleware.json_model (codes ".model.json")
      ∷ with_suffix (codes "*.model.jsonc") Middleware.json_model (codes ".model.jsonc")
      ∷ sync_rule (codes "*.json") Middleware.json (some (codes ".json"))
          (some (codes "*.meta.json"))
      ∷ sync_rule (codes "*.jsonc") Middleware.json (some (codes ".jsonc"))
          (some (codes "*.meta.jsonc"))
      ∷ plain (codes "*.toml") Middleware.toml
      ∷ plain (codes "*.csv") Middleware.csv
      ∷ plain (codes "*.txt") Middleware.text
      ∷ plain (codes "*.rbxmx") Middleware.rbxmx
      ∷ plain (codes "*.rbxm") Middleware.rbxm
      ∷ plain (codes "*.{yml,yaml}") Middleware.yaml
      ∷ []
