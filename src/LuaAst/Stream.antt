-- ===== src/LuaAst/Stream.antt =====
-- `LuaStream` of lua_ast.rs: a writer that indents the lines it is given.
use roxo_mcp.Base.{
  ℕ, ◌+◌, ◌-◌, zero, suc, Bool, true, false, ◌||◌, List, [], ◌∷◌, ◌++◌, Option, none, some, ◌==◌,
  if◌then◌else◌,
}
use roxo_mcp.Base.Text.{Text}

pub record LuaStream : Type 0 where
  pub indent_level : ℕ
  pub is_start_of_line : Bool
  pub inner : Text

abbrev pub new : LuaStream
new = record { indent_level = 0; is_start_of_line = true; inner = [] }

abbrev pub is_empty : Text → Bool
is_empty [] = true
is_empty (c ∷ cs) = false

abbrev pub has_newline : Text → Bool
has_newline [] = false
has_newline (c ∷ cs) = c == 10 || has_newline cs

abbrev push_front : ℕ → List Text → List Text
push_front c [] = (c ∷ []) ∷ []
push_front c (l ∷ ls) = (c ∷ l) ∷ ls

-- `str::split('\n')`.
unfoldable pub split_lines : Text → List Text
split_lines [] = [] ∷ []
split_lines (c ∷ cs) = let rest = split_lines cs in if c == 10 then [] ∷ rest else push_front c rest

-- `"\t".repeat(n)`.
abbrev pub tabs : ℕ → Text
tabs zero = []
tabs (suc n) = 9 ∷ tabs n

abbrev pub line : LuaStream → LuaStream
line s = record s { is_start_of_line = true; inner = s.inner ++ 10 ∷ [] }

abbrev pub indentation : LuaStream → Text
indentation s = if s.is_start_of_line then tabs s.indent_level else []

abbrev pub write_line : Text → LuaStream → LuaStream
write_line [] s = s
write_line (c ∷ cs) s = record s {
  is_start_of_line = false;
  inner = (s.inner ++ indentation s) ++ c ∷ cs;
}

-- Every line but the first one is begun by a call of `line`.
unfoldable pub write_lines : Bool → List Text → LuaStream → LuaStream
write_lines is_first_line [] s = s
write_lines is_first_line (l ∷ ls) s =
    write_lines false ls (write_line l (if is_first_line then s else line s))

abbrev pub write_str : Text → LuaStream → LuaStream
write_str value s = write_lines true (split_lines value) s

-- What is done to a stream; `none` is a panic.
abbrev pub Writer : Type 0
Writer = LuaStream → Option LuaStream

infixl 5 ◌>>◌
abbrev pub ◌>>◌ : Writer → Writer → Writer
◌>>◌ f g s = elim (f s) [ none ↦ none | some s' ↦ g s' ]

abbrev pub write : Text → Writer
write value s = some (write_str value s)

abbrev pub indent : Writer
indent s = some (record s { indent_level = s.indent_level + 1 })

-- The assertion that the level is not 0.
abbrev pub unindent : Writer
unindent s =
    if s.indent_level == 0 then none else some (record s { indent_level = s.indent_level - 1 })
