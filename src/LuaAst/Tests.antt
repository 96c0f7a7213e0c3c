-- ===== src/LuaAst/Tests.antt =====
-- Printed Lua at small inputs.
use roxo_mcp.Base.{◌≡◌, refl, Bool, true, false, ◌++◌, none, some}
use roxo_mcp.Base.Text.{Text, codes}
use roxo_mcp.Base.Names.{Text_discrete}
use roxo_mcp.LuaAst.Stream.{new, write_lines, split_lines}
use roxo_mcp.LuaAst.Strings.{
  write_escaped, escape_char, is_valid_ident, is_keyword, is_one_of, all_ident_chars,
  is_valid_ident_char_start,
}
use roxo_mcp.LuaAst.{
  FpCategory, Expression, nil, number, string, table, array, no_entry, entry, no_element, element,
  Floats, return_value, fmt, fmt_lua, fmt_string_key, written,
}
use roxo_mcp.LuaAst.Print.{fmt-render, returned}
use roxo_mcp.LuaAst.Read.{continues_name, read_key, read_key-fmt_string_key}

-- Floats that are 0 or infinite.
abbrev class_of : Bool → FpCategory
class_of true = FpCategory.infinite
class_of false = FpCategory.zero

abbrev flags : Floats Bool
flags = record {
  classify = λ x. class_of x;
  is_sign_positive = λ x. false;
  display = λ x. codes "0";
  display_line = λ x. refl;
}

abbrev config : Expression Bool
config = table (
    entry (string (codes "name")) (string (codes "a\"b\n")) (
      entry (string (codes "end")) (array (element (number true) (element nil no_element)))
        no_entry))

prints_table :
    fmt flags (return_value config)
    ≡ some (codes "return {\n\tname = \"a\\\"b\\n\",\n\t[\"end\"] = {-math.huge, nil},\n}")
unfolding fmt fmt_lua write_lines split_lines write_escaped escape_char is_valid_ident is_keyword
    is_one_of all_ident_chars is_valid_ident_char_start Text_discrete
prints_table = refl

nil_key_panics : fmt flags (return_value (table (entry nil nil no_entry))) ≡ none
unfolding fmt fmt_lua write_lines split_lines
nil_key_panics = refl

fmt-render_example : fmt flags (return_value config) ≡ returned flags (return_value config)
fmt-render_example = fmt-render flags (return_value config)

read_key-fmt_string_key_example :
    (key : Text) × (written (fmt_string_key (codes "end") new) ≡ some key)
    × (read_key (key ++ codes " = 1") ≡ some (codes "end", codes " = 1"))
unfolding continues_name
read_key-fmt_string_key_example = read_key-fmt_string_key (codes "end") (codes " = 1") refl
