-- ===== src/SnapshotMiddleware/Named.antt =====
-- The names that syncback gives to files against the rules that read them.
use roxo_mcp.Base.{
  ℕ, ◌≡◌, refl, ◌∙◌, ap, true, [], ◌∷◌, ◌++◌, Option, none, some, inl, inr, ◌⊎◌, subst,
}
use mathlib.Core.Logic.{if_pos}
use mathlib.Core.List.{append-nil}
use roxo_mcp.Base.Text.{Text, codes}
use roxo_mcp.Base.Names.{Text_discrete, rsplit_dot, rsplit_dot-append}
use roxo_mcp.SnapshotMiddleware.Endings.{StarMatches, is_dot_free, strip_suffix-stem}
use roxo_mcp.SnapshotMiddleware.Rows.{
  Row, starred, rule_of, simple, suffixed, rows, rows_lem, all_rows, find_row, find_row-stem,
  rule_option, find_rule-rows,
}
use roxo_mcp.FileNames.{
  Middleware, csv, json_model, json, server_script, client_script, module_script, plugin_script,
  legacy_client_script, legacy_server_script, run_context_server_script, run_context_client_script,
  project, rbxm, rbxmx, toml, text, yaml, ignore, dir, server_script_dir, client_script_dir,
  plugin_script_dir, module_script_dir, csv_dir, extension_for_middleware,
}
use roxo_mcp.SnapshotMiddleware.Rules.{
  FilePath, Globs, SyncRule, file_name, last_name, strip_suffix, find_rule, file_name_for_path,
  trimmed, file_stem, sync_rule, default_sync_rules,
}

-- The row that an extension is found by has the suffix of the extension, or no suffix and an extension
-- without a dot.
abbrev EndsBy : Row → Text → Type 0
EndsBy row ext = (row.suffix ≡ some (46 ∷ ext)) ⊎ ((row.suffix ≡ none) × (rsplit_dot ext ≡ none))

abbrev Reads : Middleware → Option Text → Type 0
Reads m none = Unit
Reads m (some ext) =
    (row : Row) × (find_row (46 ∷ ext) rows ≡ some row) × (row.middleware ≡ m) × EndsBy row ext

extension-Reads : (m : Middleware) → Reads m (extension_for_middleware m)
unfolding strip_suffix Text_discrete rsplit_dot
extension-Reads csv = (simple (codes ".csv") csv, refl, refl, inr (refl, refl))
extension-Reads json_model = (suffixed (codes ".model.json") json_model, refl, refl, inl refl)
extension-Reads json = (
  record (suffixed (codes ".json") json) { exclude = some (codes ".meta.json") },
  refl,
  refl,
  inl refl,
)
extension-Reads server_script =
    (suffixed (codes ".server.luau") server_script, refl, refl, inl refl)
extension-Reads client_script =
    (suffixed (codes ".client.luau") client_script, refl, refl, inl refl)
extension-Reads module_script =
    (simple (codes ".{lua,luau}") module_script, refl, refl, inr (refl, refl))
extension-Reads plugin_script =
    (suffixed (codes ".plugin.luau") plugin_script, refl, refl, inl refl)
extension-Reads project = (suffixed (codes ".project.json") project, refl, refl, inl refl)
extension-Reads rbxm = (simple (codes ".rbxm") rbxm, refl, refl, inr (refl, refl))
extension-Reads rbxmx = (simple (codes ".rbxmx") rbxmx, refl, refl, inr (refl, refl))
extension-Reads toml = (simple (codes ".toml") toml, refl, refl, inr (refl, refl))
extension-Reads text = (simple (codes ".txt") text, refl, refl, inr (refl, refl))
extension-Reads yaml = (simple (codes ".{yml,yaml}") yaml, refl, refl, inr (refl, refl))
extension-Reads legacy_client_script = tt
extension-Reads legacy_server_script = tt
extension-Reads run_context_server_script = tt
extension-Reads run_context_client_script = tt
extension-Reads ignore = tt
extension-Reads dir = tt
extension-Reads server_script_dir = tt
extension-Reads client_script_dir = tt
extension-Reads plugin_script_dir = tt
extension-Reads module_script_dir = tt
extension-Reads csv_dir = tt

strip_suffix_self : (ext : Text) → strip_suffix (46 ∷ ext) (46 ∷ ext) ≡ some []
unfolding strip_suffix
strip_suffix_self ext = if_pos (Text_discrete (46 ∷ ext) (46 ∷ ext)) refl _ _

trimmed-EndsBy :
    (row : Row) (ext : Text) (c : ℕ) (cs : Text)
    → is_dot_free (c ∷ cs) ≡ true
    → EndsBy row ext
    → trimmed row.suffix (some ((c ∷ cs) ++ 46 ∷ ext)) ≡ some (c ∷ cs)
unfolding file_stem
trimmed-EndsBy row ext c cs h (inl e) =
    rw (e, strip_suffix-stem ext ext (c ∷ cs) h, strip_suffix_self ext, append-nil) refl
trimmed-EndsBy row ext c cs h (inr (e, k)) = rw (e, rsplit_dot-append (c ∷ cs) ext k) refl

all_rows_end : all_rows rows ≡ true
all_rows_end = refl

last_name-append :
    (n : Text) (folder : FilePath) (name : Text) → last_name n (folder ++ name ∷ []) ≡ name
last_name-append n [] name = refl
last_name-append n (m ∷ folder) name = last_name-append m folder name

file_name-append : (folder : FilePath) (name : Text) → file_name (folder ++ name ∷ []) ≡ some name
file_name-append [] name = refl
file_name-append (p ∷ folder) name = ap some (last_name-append p folder name)

sync_rule_fields :
    {Glob : Type 0} (g : Globs Glob) (pattern : Text) (m : Middleware)
    (suffix exclude : Option Text)
    → let rule = sync_rule g pattern m suffix exclude in
      (rule.middleware ≡ m) × (rule.suffix ≡ suffix)
sync_rule_fields g pattern m suffix none = (refl, refl)
sync_rule_fields g pattern m suffix (some x) = (refl, refl)

module _ {Glob : Type 0} (g : Globs Glob) (star : StarMatches g) where
  -- If globs match as globset documents for a star before an ending: a file with a name without
  -- dots and the extension that syncback gives it for a middleware is read by the default rules
  -- with that middleware, under that name.
  pub default_sync_rules-extension :
      (m : Middleware) (ext : Text) (c : ℕ) (cs : Text) (folder : FilePath)
      → extension_for_middleware m ≡ some ext
      → is_dot_free (c ∷ cs) ≡ true
      → let path : FilePath = folder ++ ((c ∷ cs) ++ 46 ∷ ext) ∷ [] in
        (rule : SyncRule Glob) × (find_rule g path (default_sync_rules g) ≡ some rule)
        × (rule.middleware ≡ m)
        × (file_name_for_path rule path ≡ some (c ∷ cs))
  unfolding file_name_for_path
  default_sync_rules-extension m ext c cs folder h k =
      let name = (c ∷ cs) ++ 46 ∷ ext in
      let path = folder ++ name ∷ [] in
      let named = file_name-append folder name in
      let (row, found, same, ends) = subst (Reads m) h (extension-Reads m) in
      let in_rows = find_row-stem ext (c ∷ cs) rows k all_rows_end ∙ found in
      (
        rule_of g row,
        rw rows_lem (
            find_rule-rows g star name path named rows all_rows_end
            ∙ ap (rule_option g star name path named) in_rows),
        (sync_rule_fields g (b'*' ∷ row.pattern_rest) row.middleware row.suffix
              (starred row.exclude)).0
            ∙ same,
        rw
            (
              named,
              (sync_rule_fields g (b'*' ∷ row.pattern_rest) row.middleware row.suffix
                  (starred row.exclude)).1,
            )
            (trimmed-EndsBy row ext c cs k ends),
      )
