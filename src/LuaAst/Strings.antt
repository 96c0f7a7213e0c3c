-- ===== src/LuaAst/Strings.antt =====
-- The string literals and the identifiers of lua_ast.rs.
use roxo_mcp.Base.{
  ℕ, Bool, true, false, not, ◌&&◌, ◌||◌, List, [], ◌∷◌, some, leb, ◌==◌, ite, if◌then◌else◌,
}
use roxo_mcp.Base.Text.{Text, codes}
use roxo_mcp.Base.Names.{Text_discrete}
use roxo_mcp.LuaAst.Stream.{Writer, ◌>>◌, write}

-- `LuaEscape`, for one character.
unfoldable pub escape_char : ℕ → Text
escape_char c =
    if c == b'"'
    then codes "\\\""
    else if c == 13
    then codes "\\r"
    else if c == 10
    then codes "\\n"
    else if c == 9
    then codes "\\t"
    else if c == b'\\'
    then codes "\\\\"
    else c ∷ []

-- A call of `write_str` or `write_char` for each character.
unfoldable pub write_escaped : Text → Writer
write_escaped [] = some
write_escaped (c ∷ cs) = do write (escape_char c); write_escaped cs

abbrev pub is_ascii_alphabetic : ℕ → Bool
is_ascii_alphabetic c = (leb b'a' c && leb c b'z') || (leb b'A' c && leb c b'Z')

abbrev pub is_ascii_digit : ℕ → Bool
is_ascii_digit c = leb b'0' c && leb c b'9'

unfoldable pub is_valid_ident_char_start : ℕ → Bool
is_valid_ident_char_start c = is_ascii_alphabetic c || c == b'_'

unfoldable pub is_valid_ident_char : ℕ → Bool
is_valid_ident_char c = (is_ascii_alphabetic c || is_ascii_digit c) || c == b'_'

abbrev pub keywords : List Text
keywords =
    codes "and"
    ∷ codes "break"
    ∷ codes "do"
    ∷ codes "else"
    ∷ codes "elseif"
    ∷ codes "end"
    ∷ codes "false"
    ∷ codes "for"
    ∷ codes "function"
    ∷ codes "if"
    ∷ codes "in"
    ∷ codes "local"
    ∷ codes "nil"
    ∷ codes "not"
    ∷ codes "or"
    ∷ codes "repeat"
    ∷ codes "return"
    ∷ codes "then"
    ∷ codes "true"
    ∷ codes "until"
    ∷ codes "while"
    ∷ []

unfoldable pub is_one_of : Text → List Text → Bool
is_one_of value [] = false
is_one_of value (k ∷ ks) = ite (Text_discrete value k) true (is_one_of value ks)

unfoldable pub is_keyword : Text → Bool
unfolding is_one_of
is_keyword value = is_one_of value keywords

unfoldable pub all_ident_chars : Text → Bool
unfolding is_valid_ident_char
all_ident_chars [] = true
all_ident_chars (c ∷ cs) = is_valid_ident_char c && all_ident_chars cs

abbrev pub is_ident_shape : Text → Bool
is_ident_shape [] = false
is_ident_shape (c ∷ cs) = is_valid_ident_char_start c && all_ident_chars cs

unfoldable pub is_valid_ident : Text → Bool
is_valid_ident value = not (is_keyword value) && is_ident_shape value
