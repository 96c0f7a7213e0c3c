-- ===== src/SnapshotMiddleware/Rows.antt =====
-- The default rules as rows of texts.
use roxo_mcp.Base.{
  ◌≡◌, refl, Bool, true, false, ◌&&◌, List, [], ◌∷◌, ◌++◌, map, Option, none, some, arith,
  if◌then◌else◌,
}
use roxo_mcp.Base.Text.{Text, codes}
use roxo_mcp.SnapshotMiddleware.Endings.{
  StarMatches, any_suffix, alternatives, is_simple, all_dotted, is_dot_free, any_suffix-stem,
}
use roxo_mcp.FileNames.{
  Middleware, csv, json_model, json, server_script, client_script, module_script, plugin_script,
  project, rbxm, rbxmx, toml, text, yaml,
}
use roxo_mcp.SnapshotMiddleware.Rules.{
  FilePath, Globs, SyncRule, file_name, strip_prefix, find_rule, matches, sync_rule,
  default_sync_rules,
}

-- A default rule by its texts, the patterns without their stars.
pub record Row : Type 0 where
  pub pattern_rest : Text
  pub middleware : Middleware
  pub suffix : Option Text
  pub exclude : Option Text

abbrev pub starred : Option Text → Option Text
starred none = none
starred (some t) = some (b'*' ∷ t)

abbrev pub rule_of : {Glob : Type 0} → Globs Glob → Row → SyncRule Glob
rule_of g row =
    sync_rule g (b'*' ∷ row.pattern_rest) row.middleware row.suffix (starred row.exclude)

abbrev pub simple : Text → Middleware → Row
simple rest m = record { pattern_rest = rest; middleware = m; suffix = none; exclude = none }

abbrev pub suffixed : Text → Middleware → Row
suffixed rest m = record { pattern_rest = rest; middleware = m; suffix = some rest; exclude = none }

abbrev pub rows : List Row
rows =
    suffixed (codes ".server.lua") server_script
    ∷ suffixed (codes ".server.luau") server_script
    ∷ suffixed (codes ".client.lua") client_script
    ∷ suffixed (codes ".client.luau") client_script
    ∷ suffixed (codes ".plugin.lua") plugin_script
    ∷ suffixed (codes ".plugin.luau") plugin_script
    ∷ simple (codes ".{lua,luau}") module_script
    ∷ suffixed (codes ".project.json") project
    ∷ suffixed (codes ".project.jsonc") project
    ∷ suffixed (codes ".model.json") json_model
    ∷ suffixed (codes ".model.jsonc") json_model
    ∷ record (suffixed (codes ".json") json) { exclude = some (codes ".meta.json") }
    ∷ record (suffixed (codes ".jsonc") json) { exclude = some (codes ".meta.jsonc") }
    ∷ simple (codes ".toml") toml
    ∷ simple (codes ".csv") csv
    ∷ simple (codes ".txt") text
    ∷ simple (codes ".rbxmx") rbxmx
    ∷ simple (codes ".rbxm") rbxm
    ∷ simple (codes ".{yml,yaml}") yaml
    ∷ []

pub rows_lem : {Glob : Type 0} (g : Globs Glob) → default_sync_rules g ≡ map (rule_of g) rows
unfolding default_sync_rules
rows_lem g = refl

abbrev pub is_ending : Text → Bool
is_ending rest = is_simple rest && all_dotted (alternatives rest)

abbrev pub is_ending_option : Option Text → Bool
is_ending_option none = true
is_ending_option (some t) = is_ending t

abbrev pub all_rows : List Row → Bool
all_rows [] = true
all_rows (row ∷ rest) =
    is_ending row.pattern_rest && (is_ending_option row.exclude && all_rows rest)

abbrev pub hits_option : Text → Option Text → Bool
hits_option name none = false
hits_option name (some t) = any_suffix name (alternatives t)

abbrev pub hits : Text → Row → Bool
hits name row =
    if hits_option name row.exclude then false else any_suffix name (alternatives row.pattern_rest)

abbrev pub find_row : Text → List Row → Option Row
find_row name [] = none
find_row name (row ∷ rest) = if hits name row then some row else find_row name rest

and_left : (a b : Bool) → (a && b) ≡ true → (a ≡ true) × (b ≡ true)
and_left true b h = (refl, h)
and_left false b h = cc

hits_option-stem :
    (e stem : Text) (o : Option Text)
    → is_dot_free stem ≡ true
    → is_ending_option o ≡ true
    → hits_option (stem ++ 46 ∷ e) o ≡ hits_option (46 ∷ e) o
hits_option-stem e stem none h k = refl
hits_option-stem e stem (some t) h k =
    any_suffix-stem e stem (alternatives t) h
      (and_left (is_simple t) (all_dotted (alternatives t)) k).1

pub find_row-stem :
    (e stem : Text) (rs : List Row)
    → is_dot_free stem ≡ true
    → all_rows rs ≡ true
    → find_row (stem ++ 46 ∷ e) rs ≡ find_row (46 ∷ e) rs
find_row-stem e stem [] h k = refl
find_row-stem e stem (row ∷ rs) h k =
    let (here, more) =
      and_left (is_ending row.pattern_rest) (is_ending_option row.exclude && all_rows rs) k in
    let (out, rest) = and_left (is_ending_option row.exclude) (all_rows rs) more in
    rw
      (
        hits_option-stem e stem row.exclude h out,
        hits_option-stem e stem (some row.pattern_rest) h here,
        find_row-stem e stem rs h rest,
      )
      refl

module _ {Glob : Type 0} (g : Globs Glob) (star : StarMatches g) (name : Text) (path : FilePath)
    (named : file_name path ≡ some name) where
  matches-hits :
      (rest : Text) (m : Middleware) (suffix o : Option Text)
      → is_ending rest ≡ true
      → is_ending_option o ≡ true
      → matches g (sync_rule g (b'*' ∷ rest) m suffix (starred o)) path
        ≡ (if hits_option name o then false else any_suffix name (alternatives rest))
  unfolding matches strip_prefix
  matches-hits rest m suffix none k l =
      star rest name path (and_left (is_simple rest) (all_dotted (alternatives rest)) k).0 named
  matches-hits rest m suffix (some t) k l =
      rw
        (
          star t name path (and_left (is_simple t) (all_dotted (alternatives t)) l).0 named,
          star rest name path (and_left (is_simple rest) (all_dotted (alternatives rest)) k).0
              named,
        )
        refl

  abbrev pub rule_option : Option Row → Option (SyncRule Glob)
  rule_option none = none
  rule_option (some row) = some (rule_of g row)

  pub find_rule-rows :
      (rs : List Row)
      → all_rows rs ≡ true
      → find_rule g path (map (rule_of g) rs) ≡ rule_option (find_row name rs)
  unfolding find_rule
  find_rule-rows [] k = refl
  find_rule-rows (row ∷ rs) k =
      let (here, more) =
        and_left (is_ending row.pattern_rest) (is_ending_option row.exclude && all_rows rs) k in
      let (out, rest) = and_left (is_ending_option row.exclude) (all_rows rs) more in
      ground (
        arith,
        matches-hits row.pattern_rest row.middleware row.suffix row.exclude here out,
        find_rule-rows rs rest,
      )
