-- ===== src/LuaAst.antt =====
-- lua_ast.rs: Lua expressions and the printer that turns them into source code. `none` is a panic; the
-- sink under a stream is a text, whose writes do not fail.
pub mod Stream
pub mod Strings
mod Layout
mod Render
mod Print
mod Read
mod Tests
use Prim.Native.String.{String}
use roxo_mcp.Base.{ℕ, ◌-◌, ◌+◌, suc, ◌≡◌, Bool, true, false, Option, none, some, ltb, if◌then◌else◌}
use roxo_mcp.Base.Text.{Text, codes}
use roxo_mcp.LuaAst.Stream.{LuaStream, new, Writer, ◌>>◌, write, indent, unindent, has_newline}
use roxo_mcp.LuaAst.Strings.{write_escaped, is_valid_ident}

pub data FpCategory : Type 0 where
  nan : FpCategory
  infinite : FpCategory
  zero : FpCategory
  subnormal : FpCategory
  normal : FpCategory

-- `f64::classify`, `f64::is_sign_positive` and the `Display` of `f64`, whose text is one line.
pub record Floats (Float : Type 0) : Type 0 where
  pub classify : Float → FpCategory
  pub is_sign_positive : Float → Bool
  pub display : Float → Text
  pub display_line : (x : Float) → has_newline (display x) ≡ false

-- `Vec<Expression>` and the entries of a `Table` are types of the block.
mutual
  pub data Expression (Float : Type 0) : Type 0 where
    nil : Expression Float
    bool : Bool → Expression Float
    number : Float → Expression Float
    string : Text → Expression Float
    table : Entries Float → Expression Float
    array : Elements Float → Expression Float

  pub data Entries (Float : Type 0) : Type 0 where
    no_entry : Entries Float
    entry : Expression Float → Expression Float → Entries Float → Entries Float

  pub data Elements (Float : Type 0) : Type 0 where
    no_element : Elements Float
    element : Expression Float → Elements Float → Elements Float

pub data Statement (Float : Type 0) : Type 0 where
  return_value : Expression Float → Statement Float

module _ {Float : Type 0} where
  abbrev pub len : Elements Float → ℕ
  len no_element = 0
  len (element e es) = len es + 1

abbrev pub bool_text : Bool → Text
bool_text true = codes "true"
bool_text false = codes "false"

abbrev pub infinity_text : Bool → Text
infinity_text true = codes "math.huge"
infinity_text false = codes "-math.huge"

module _ {Float : Type 0} (f : Floats Float) where
  abbrev pub number_text : Float → FpCategory → Text
  number_text x nan = codes "0/0"
  number_text x infinite = infinity_text (f.is_sign_positive x)
  number_text x zero = f.display x
  number_text x subnormal = f.display x
  number_text x normal = f.display x

  abbrev pub fmt_number : Float → Writer
  fmt_number x = write (number_text x (f.classify x))

abbrev pub fmt_string : Text → Writer
fmt_string s = do write (codes "\""); write_escaped s; write (codes "\"")

abbrev pub fmt_string_key : Text → Writer
fmt_string_key s =
    if is_valid_ident s
    then write s
    else do write (codes "[\""); write_escaped s; write (codes "\"]")

-- The `FmtLua` of a table, a vector, and the default for a key, around what they hold.
abbrev pub fmt_table : Writer → Writer
fmt_table entries = do write (codes "{\n"); indent; entries; unindent; write (codes "}")

abbrev pub fmt_array : Writer → Writer
fmt_array elements = do write (codes "{"); elements; write (codes "}")

abbrev pub in_brackets : Writer → Writer
in_brackets literal = do write (codes "["); literal; write (codes "]")

abbrev pub written : Option LuaStream → Option Text
written none = none
written (some s) = some s.inner

module _ {Float : Type 0} (f : Floats Float) where
  unfoldable mutual
    pub fmt_lua : Expression Float → Writer
    fmt_lua nil = write (codes "nil")
    fmt_lua (bool b) = write (bool_text b)
    fmt_lua (number x) = fmt_number f x
    fmt_lua (string s) = fmt_string s
    fmt_lua (table es) = fmt_table (fmt_entries es)
    fmt_lua (array es) = fmt_array (fmt_elements (len es) 0 es)

    -- A string is shorter as a key; everything else takes the brackets of the trait's default.
    pub fmt_table_key : Expression Float → Writer
    fmt_table_key nil = λ s. none
    fmt_table_key (string s) = fmt_string_key s
    fmt_table_key (bool b) = in_brackets (write (bool_text b))
    fmt_table_key (number x) = in_brackets (fmt_number f x)
    fmt_table_key (table es) = in_brackets (fmt_table (fmt_entries es))
    fmt_table_key (array es) = in_brackets (fmt_array (fmt_elements (len es) 0 es))

    pub fmt_entries : Entries Float → Writer
    fmt_entries no_entry = some
    fmt_entries (entry key value es) = do
      fmt_table_key key
      write (codes " = ")
      fmt_lua value
      write (codes ",\n")
      fmt_entries es

    -- The number of elements, and the index of the first one of the rest.
    pub fmt_elements : ℕ → ℕ → Elements Float → Writer
    fmt_elements n index no_element = some
    fmt_elements n index (element e es) = do
      fmt_lua e
      if ltb index (n - 1) then write (codes ", ") else some
      fmt_elements n (index + 1) es

  abbrev pub fmt_statement : Statement Float → Writer
  fmt_statement (return_value e) = do write (codes "return "); fmt_lua e

  -- The `Display` of a statement.
  unfoldable pub fmt : Statement Float → Option Text
  fmt statement = written (fmt_statement statement new)
