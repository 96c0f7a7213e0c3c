-- ===== src/FileNames.antt =====
-- syncback/file_names.rs: the names under which syncback writes instances. Of an instance of the old
-- tree only its first relevant path is read.
mod Legal
mod Tests
use roxo_mcp.Base.{
  ℕ, Bool, true, false, not, ◌&&◌, ◌||◌, List, [], ◌∷◌, ◌++◌, Option, none, some, ltb, leb, ◌==◌,
  ite, if◌then◌else◌,
}
use roxo_mcp.Base.Text.{Text, codes}
use roxo_mcp.Base.Names.{Text_discrete}

-- snapshot_middleware/mod.rs.
pub data Middleware : Type 0 where
  csv : Middleware
  json_model : Middleware
  json : Middleware
  server_script : Middleware
  client_script : Middleware
  module_script : Middleware
  plugin_script : Middleware
  legacy_client_script : Middleware
  legacy_server_script : Middleware
  run_context_server_script : Middleware
  run_context_client_script : Middleware
  project : Middleware
  rbxm : Middleware
  rbxmx : Middleware
  toml : Middleware
  text : Middleware
  yaml : Middleware
  ignore : Middleware
  dir : Middleware
  server_script_dir : Middleware
  client_script_dir : Middleware
  plugin_script_dir : Middleware
  module_script_dir : Middleware
  csv_dir : Middleware

-- `none` is the panic of `todo!` and `unimplemented!`.
abbrev pub extension_for_middleware : Middleware → Option Text
extension_for_middleware csv = some (codes "csv")
extension_for_middleware json_model = some (codes "model.json")
extension_for_middleware json = some (codes "json")
extension_for_middleware server_script = some (codes "server.luau")
extension_for_middleware client_script = some (codes "client.luau")
extension_for_middleware module_script = some (codes "luau")
extension_for_middleware plugin_script = some (codes "plugin.luau")
extension_for_middleware legacy_client_script = none
extension_for_middleware legacy_server_script = none
extension_for_middleware run_context_server_script = none
extension_for_middleware run_context_client_script = none
extension_for_middleware project = some (codes "project.json")
extension_for_middleware rbxm = some (codes "rbxm")
extension_for_middleware rbxmx = some (codes "rbxmx")
extension_for_middleware toml = some (codes "toml")
extension_for_middleware text = some (codes "txt")
extension_for_middleware yaml = some (codes "yml")
extension_for_middleware ignore = none
extension_for_middleware dir = none
extension_for_middleware server_script_dir = none
extension_for_middleware client_script_dir = none
extension_for_middleware plugin_script_dir = none
extension_for_middleware module_script_dir = none
extension_for_middleware csv_dir = none

abbrev pub invalid_windows_names : List Text
invalid_windows_names =
    codes "CON"
    ∷ codes "PRN"
    ∷ codes "AUX"
    ∷ codes "NUL"
    ∷ codes "COM1"
    ∷ codes "COM2"
    ∷ codes "COM3"
    ∷ codes "COM4"
    ∷ codes "COM5"
    ∷ codes "COM6"
    ∷ codes "COM7"
    ∷ codes "COM8"
    ∷ codes "COM9"
    ∷ codes "LPT1"
    ∷ codes "LPT2"
    ∷ codes "LPT3"
    ∷ codes "LPT4"
    ∷ codes "LPT5"
    ∷ codes "LPT6"
    ∷ codes "LPT7"
    ∷ codes "LPT8"
    ∷ codes "LPT9"
    ∷ []

abbrev pub forbidden_chars : List ℕ
forbidden_chars = codes "<>:\"/|?*\\"

abbrev pub has_char : ℕ → List ℕ → Bool
has_char c [] = false
has_char c (d ∷ ds) = c == d || has_char c ds

-- `char::is_control`: below the space, and from DEL to 159.
abbrev pub is_control : ℕ → Bool
is_control c = ltb c 32 || leb 127 c && leb c 159

abbrev pub ends_with : ℕ → Text → Bool
ends_with c [] = false
ends_with c (d ∷ []) = d == c
ends_with c (d ∷ e ∷ rest) = ends_with c (e ∷ rest)

abbrev pub is_one_of : Text → List Text → Bool
is_one_of name [] = false
is_one_of name (forbidden ∷ rest) = ite (Text_discrete name forbidden) true (is_one_of name rest)

pub data NameError : Type 0 where
  ends_with_space : NameError
  ends_with_dot : NameError
  forbidden_character : NameError
  control_character : NameError
  reserved_name : NameError

-- The loop over the characters.
abbrev pub check_chars : Text → Option NameError
check_chars [] = none
check_chars (c ∷ cs) =
    if has_char c forbidden_chars
    then some forbidden_character
    else if is_control c
    then some control_character
    else check_chars cs

abbrev pub check_reserved : Text → Option NameError → Option NameError
check_reserved name (some e) = some e
check_reserved name none = if is_one_of name invalid_windows_names then some reserved_name else none

-- The error that the name gives, if any.
pub validate_file_name : Text → Option NameError
unfolding Text_discrete
validate_file_name name =
    if ends_with 32 name
    then some ends_with_space
    else if ends_with 46 name
    then some ends_with_dot
    else check_reserved name (check_chars name)

pub data Named : Type 0 where
  named : Text → Named
  illegal : NameError → Named
  no_source : Named
  not_unicode : Named
  panics : Named

-- The dot is 46.
abbrev pub with_extension : Text → Option Text → Option NameError → Named
with_extension name none e = panics
with_extension name (some extension) (some e) = illegal e
with_extension name (some extension) none = named (name ++ 46 ∷ extension)

abbrev pub new_name : Middleware → Text → Named
new_name dir name = named name
new_name csv_dir name = named name
new_name server_script_dir name = named name
new_name client_script_dir name = named name
new_name plugin_script_dir name = named name
new_name module_script_dir name = named name
new_name middleware name =
    with_extension name (extension_for_middleware middleware) (validate_file_name name)

-- The first relevant path of an old instance, by its file name: `none` where that is no unicode.
abbrev pub old_name : Option (Option Text) → Named
old_name none = no_source
old_name (some none) = not_unicode
old_name (some (some file_name)) = named file_name

pub name_for_inst : Middleware → Text → Option (Option (Option Text)) → Named
unfolding validate_file_name
name_for_inst middleware name (some source) = old_name source
name_for_inst middleware name none = new_name middleware name
