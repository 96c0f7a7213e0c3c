-- ===== src/LuaAst/Render.antt =====
-- A printer that is told the level of indentation, against the printer of lua_ast.rs.
use roxo_mcp.Base.{
  ℕ, ◌+◌, ◌≡◌, refl, ◌∙◌, ap, Bool, true, false, [], ◌∷◌, ◌++◌, Option, none, some, arith,
  if◌then◌else◌, Bool-cases, inl, inr, Option-cases,
}
use mathlib.Core.List.{append_assoc, append-nil}
use roxo_mcp.Base.Text.{Text, codes}
use roxo_mcp.LuaAst.Stream.{
  LuaStream, Writer, ◌>>◌, write, write_lines, split_lines, unindent, has_newline, tabs,
  indentation,
}
use roxo_mcp.LuaAst.Strings.{
  write_escaped, is_valid_ident, is_valid_ident_char, is_valid_ident_char_start, all_ident_chars,
}
use roxo_mcp.LuaAst.Layout.{
  enclosed, escape, printed, ◌⊕◌, put, write-printed, write_escaped-printed, enclosed_by,
  write_str-one,
}
use roxo_mcp.LuaAst.{
  in_brackets, fmt_array, fmt_table, Expression, nil, bool, number, string, table, array, Entries,
  no_entry, entry, Elements, no_element, element, Floats, bool_text, number_text, infinity_text,
  fmt_string, fmt_string_key,
}

-- `none` stands for a `nil` as a key.
unfoldable pub key_text : Text → Option Text
key_text s =
    if is_valid_ident s then some s else enclosed (codes "[\"") (some (escape s)) (codes "\"]")

module _ {Float : Type 0} (f : Floats Float) where
  unfoldable mutual
    unfolding key_text

    pub render : ℕ → Expression Float → Option Text
    render d nil = some (codes "nil")
    render d (bool b) = some (bool_text b)
    render d (number x) = some (number_text f x (f.classify x))
    render d (string s) = enclosed (codes "\"") (some (escape s)) (codes "\"")
    render d (table es) = enclosed (codes "{\n") (render_entries (d + 1) es) (tabs d ++ codes "}")
    render d (array es) = enclosed (codes "{") (render_elements d es) (codes "}")

    pub render_key : ℕ → Expression Float → Option Text
    render_key d nil = none
    render_key d (string s) = key_text s
    render_key d (bool b) = enclosed (codes "[") (some (bool_text b)) (codes "]")
    render_key d (number x) =
        enclosed (codes "[") (some (number_text f x (f.classify x))) (codes "]")
    render_key d (table es) =
        enclosed (codes "[")
          (enclosed (codes "{\n") (render_entries (d + 1) es) (tabs d ++ codes "}")) (codes "]")
    render_key d (array es) =
        enclosed (codes "[") (enclosed (codes "{") (render_elements d es) (codes "}")) (codes "]")

    -- A line for each entry.
    pub render_entries : ℕ → Entries Float → Option Text
    render_entries d no_entry = some []
    render_entries d (entry key value es) =
        (some (tabs d)
          ⊕ (render_key d key ⊕ (some (codes " = ") ⊕ (render d value ⊕ some (codes ",\n")))))
        ⊕ render_entries d es

    pub render_elements : ℕ → Elements Float → Option Text
    render_elements d no_element = some []
    render_elements d (element e es) = render d e ⊕ render_rest d es

    pub render_rest : ℕ → Elements Float → Option Text
    render_rest d no_element = some []
    render_rest d (element e es) = some (codes ", ") ⊕ (render d e ⊕ render_rest d es)

pub bool_text-one : (b : Bool) → has_newline (bool_text b) ≡ false
bool_text-one true = refl
bool_text-one false = refl

pub infinity_text-one : (b : Bool) → has_newline (infinity_text b) ≡ false
infinity_text-one true = refl
infinity_text-one false = refl

ident-one : (s : Text) → all_ident_chars s ≡ true → has_newline s ≡ false
unfolding all_ident_chars is_valid_ident_char
ident-one [] h = refl
ident-one (c ∷ cs) h = ground (arith, ident-one cs)

valid-one : (s : Text) → is_valid_ident s ≡ true → has_newline s ≡ false
unfolding is_valid_ident is_valid_ident_char_start
valid-one [] h = refl
valid-one (c ∷ cs) h = ground (arith, ident-one cs)

pub fmt_string-printed :
    (s : Text) (r : LuaStream)
    → fmt_string s r ≡ printed (enclosed (codes "\"") (some (escape s)) (codes "\"")) r
fmt_string-printed s r =
    enclosed_by (codes "\"") (codes "\"") (write_escaped s) (some (escape s)) r refl refl
      (λ q e. write_escaped-printed s q)

pub fmt_string_key-printed :
    (s : Text) (r : LuaStream) → fmt_string_key s r ≡ printed (key_text s) r
unfolding key_text
fmt_string_key-printed s r = elim (Bool-cases (is_valid_ident s)) [
  | inl yes_ident ↦ rw yes_ident (write-printed s r (valid-one s yes_ident))
  | inr no_ident ↦ rw no_ident (
      enclosed_by (codes "[\"") (codes "\"]") (write_escaped s) (some (escape s)) r refl refl
        (λ q e. write_escaped-printed s q))
]

pub in_brackets-printed :
    (w : Writer) (a : Option Text) (r : LuaStream)
    → ((q : LuaStream) → q.indent_level ≡ r.indent_level → w q ≡ printed a q)
    → in_brackets w r ≡ printed (enclosed (codes "[") a (codes "]")) r
in_brackets-printed w a r p = enclosed_by (codes "[") (codes "]") w a r refl refl p

pub fmt_array-printed :
    (w : Writer) (a : Option Text) (r : LuaStream)
    → ((q : LuaStream) → q.indent_level ≡ r.indent_level → w q ≡ printed a q)
    → fmt_array w r ≡ printed (enclosed (codes "{") a (codes "}")) r
fmt_array-printed w a r p = enclosed_by (codes "{") (codes "}") w a r refl refl p

-- After whole lines, at the start of the next one.
abbrev pub entered : Option Text → LuaStream → Option LuaStream
entered none s = none
entered (some t) s = some (record s { is_start_of_line = true; inner = s.inner ++ t })

-- After the brace that opens a table.
abbrev opened : LuaStream → LuaStream
opened r = record {
  indent_level = r.indent_level + 1;
  is_start_of_line = true;
  inner = ((r.inner ++ indentation r) ++ codes "{") ++ 10 ∷ [];
}

abbrev close : Option LuaStream → Option LuaStream
close none = none
close (some s) = (unindent >> write (codes "}")) s

table_steps : (w : Writer) (r : LuaStream) → fmt_table w r ≡ close (w (opened r))
unfolding write_lines split_lines
table_steps w r = elim (Option-cases (w (opened r))) [
  | inl e ↦ rw (e, ◌>>◌) refl
  | inr (s, e) ↦ rw (e, ◌>>◌) refl
]

unindent_up :
    (d : ℕ) (b : Bool) (t : Text)
    → unindent (record { indent_level = d + 1; is_start_of_line = b; inner = t })
      ≡ some (record { indent_level = d; is_start_of_line = b; inner = t })
unindent_up d b t = ground arith

close-entered :
    (a : Option Text) (r : LuaStream)
    → close (entered a (opened r))
      ≡ printed (enclosed (codes "{\n") a (tabs r.indent_level ++ codes "}")) r
unfolding write_lines split_lines
close-entered none r = refl
close-entered (some t) r =
    rw (unindent_up r.indent_level true ((opened r).inner ++ t), ◌>>◌) (simp append_assoc)

pub fmt_table-printed :
    (w : Writer) (a : Option Text) (r : LuaStream)
    → ((q : LuaStream)
        → q.indent_level ≡ r.indent_level + 1
        → q.is_start_of_line ≡ true
        → w q ≡ entered a q)
    → fmt_table w r ≡ printed (enclosed (codes "{\n") a (tabs r.indent_level ++ codes "}")) r
fmt_table-printed w a r p = table_steps w r ∙ ap close (p (opened r) refl refl) ∙ close-entered a r

-- One line of a table.
abbrev pub line_of : ℕ → Option Text → Option Text → Option Text
line_of d k v = some (tabs d) ⊕ (k ⊕ (some (codes " = ") ⊕ (v ⊕ some (codes ",\n"))))

abbrev next_line : LuaStream → Text → Text → LuaStream
next_line s k v = record {
  indent_level = s.indent_level;
  is_start_of_line = true;
  inner = s.inner ++ (tabs s.indent_level ++ (k ++ (codes " = " ++ (v ++ codes ",\n"))));
}

abbrev pub fmt_line : Writer → Writer → Writer → Writer
fmt_line key value rest = key >> (write (codes " = ") >> (value >> (write (codes ",\n") >> rest)))

break_line :
    (s : LuaStream) (k v : Text)
    → s.is_start_of_line ≡ true
    → write (codes ",\n") (put v (put (codes " = ") (put k s))) ≡ some (next_line s k v)
unfolding write_lines split_lines
break_line s [] [] e = rw e (simp (append_assoc, append-nil))
break_line s [] (x ∷ v) e = rw e (simp (append_assoc, append-nil))
break_line s (x ∷ k) [] e = rw e (simp (append_assoc, append-nil))
break_line s (x ∷ k) (y ∷ v) e = rw e (simp (append_assoc, append-nil))

abbrev and_then : Writer → Option LuaStream → Option LuaStream
and_then w none = none
and_then w (some s) = w s

entered_next :
    (s : LuaStream) (k v : Text) (a : Option Text)
    → entered a (next_line s k v) ≡ entered (line_of s.indent_level (some k) (some v) ⊕ a) s
entered_next s k v none = refl
entered_next s k v (some t) = simp append_assoc

pub fmt_line-entered :
    (key value rest : Writer) (k v a : Option Text) (s : LuaStream)
    → key s ≡ printed k s
    → ((q : LuaStream) → q.indent_level ≡ s.indent_level → value q ≡ printed v q)
    → ((q : LuaStream)
        → q.indent_level ≡ s.indent_level
        → q.is_start_of_line ≡ true
        → rest q ≡ entered a q)
    → s.is_start_of_line ≡ true
    → fmt_line key value rest s ≡ entered (line_of s.indent_level k v ⊕ a) s
fmt_line-entered key value rest none v a s p q r e = rw (p, ◌>>◌) refl
fmt_line-entered key value rest (some k) none a s p q r e =
    rw (p, ◌>>◌, write_str-one (codes " = ") (put k s) refl, q (put (codes " = ") (put k s)) refl)
      refl
fmt_line-entered key value rest (some k) (some v) a s p q r e =
    rw (p, ◌>>◌, write_str-one (codes " = ") (put k s) refl, q (put (codes " = ") (put k s)) refl)
      (ap (and_then rest) (break_line s k v e)
        ∙ r (next_line s k v) refl refl
        ∙ entered_next s k v a)
