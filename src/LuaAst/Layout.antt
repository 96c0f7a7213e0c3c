-- ===== src/LuaAst/Layout.antt =====
-- The layout of printed Lua: the printer and its stream against a printer that is told the level.
use roxo_mcp.Base.{
  ℕ, ◌≡◌, refl, ◌∙◌, ap, false, [], ◌∷◌, ◌++◌, Option, none, some, arith, if◌then◌else◌,
}
use mathlib.Core.List.{append_assoc, append-nil}
use roxo_mcp.Base.Text.{Text}
use roxo_mcp.LuaAst.Stream.{
  LuaStream, Writer, ◌>>◌, write, write_str, write_lines, split_lines, has_newline, is_empty,
  indentation,
}
use roxo_mcp.LuaAst.Strings.{escape_char, write_escaped}

-- A text with no line break is one line.
split_lines-one : (t : Text) → has_newline t ≡ false → split_lines t ≡ t ∷ []
unfolding split_lines
split_lines-one [] h = refl
split_lines-one (c ∷ cs) h = ground (arith, split_lines-one cs)

-- A piece of text after what is written, without a look at the breaks in it.
abbrev pub put : Text → LuaStream → LuaStream
put t s = record {
  indent_level = s.indent_level;
  is_start_of_line = if is_empty t then s.is_start_of_line else false;
  inner = s.inner ++ ((if is_empty t then [] else indentation s) ++ t);
}

pub write_str-one : (t : Text) (s : LuaStream) → has_newline t ≡ false → write_str t s ≡ put t s
unfolding write_lines
write_str-one [] s h = unfold split_lines in rw append-nil
write_str-one (c ∷ cs) s h = rw (split_lines-one (c ∷ cs) h) (simp append_assoc)

pub put-append : (t u : Text) (s : LuaStream) → put u (put t s) ≡ put (t ++ u) s
put-append [] u s = rw append-nil
put-append (c ∷ cs) [] s = rw (append-nil, append-nil)
put-append (c ∷ cs) (d ∷ ds) s = simp append_assoc

unfoldable pub escape : Text → Text
escape [] = []
escape (c ∷ cs) = escape_char c ++ escape cs

escape_char-one : (c : ℕ) → has_newline (escape_char c) ≡ false
unfolding escape_char
escape_char-one c = ground arith

abbrev pub printed : Option Text → LuaStream → Option LuaStream
printed none s = none
printed (some t) s = some (put t s)

infixr 40 ◌⊕◌
abbrev pub ◌⊕◌ : Option Text → Option Text → Option Text
none ⊕ b = none
(some t) ⊕ none = none
(some t) ⊕ (some u) = some (t ++ u)

pub >>-printed :
    (w v : Writer) (a b : Option Text) (s : LuaStream)
    → w s ≡ printed a s
    → ((t : LuaStream) → t.indent_level ≡ s.indent_level → v t ≡ printed b t)
    → (w >> v) s ≡ printed (a ⊕ b) s
>>-printed w v none b s p q = rw (p, ◌>>◌) refl
>>-printed w v (some t) none s p q = rw (p, ◌>>◌) (q (put t s) refl)
>>-printed w v (some t) (some u) s p q =
    rw (p, ◌>>◌) (q (put t s) refl ∙ ap some (put-append t u s))

pub write-printed :
    (t : Text) (s : LuaStream) → has_newline t ≡ false → write t s ≡ printed (some t) s
write-printed t s h = ap some (write_str-one t s h)

pub write_escaped-printed :
    (t : Text) (s : LuaStream) → write_escaped t s ≡ printed (some (escape t)) s
unfolding write_escaped escape
write_escaped-printed [] s = rw append-nil
write_escaped-printed (c ∷ cs) s =
    >>-printed (write (escape_char c)) (write_escaped cs) (some (escape_char c)) (some (escape cs))
      s (write-printed (escape_char c) s (escape_char-one c)) (λ t e. write_escaped-printed cs t)

-- Between two texts that are on one line.
abbrev pub enclosed : Text → Option Text → Text → Option Text
enclosed t a u = some t ⊕ (a ⊕ some u)

pub enclosed_by :
    (t u : Text) (w : Writer) (a : Option Text) (s : LuaStream)
    → has_newline t ≡ false
    → has_newline u ≡ false
    → ((r : LuaStream) → r.indent_level ≡ s.indent_level → w r ≡ printed a r)
    → (write t >> (w >> write u)) s ≡ printed (enclosed t a u) s
enclosed_by t u w a s h k p =
    >>-printed (write t) (w >> write u) (some t) (a ⊕ some u) s (write-printed t s h)
      (λ r e. >>-printed w (write u) a (some u) r (p r e) (λ q e'. write-printed u q k))
