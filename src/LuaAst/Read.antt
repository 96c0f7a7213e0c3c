-- ===== src/LuaAst/Read.antt =====
-- How Lua reads the strings and the keys that lua_ast.rs prints.
use roxo_mcp.Base.{
  ℕ, ◌≡◌, refl, ◌∙◌, ap, Bool, true, false, not, ◌&&◌, ◌||◌, List, [], ◌∷◌, leb, ite, ◌++◌, Option,
  none, some, ◌==◌, arith, if◌then◌else◌, Bool-cases, inl, inr,
}
use mathlib.Core.List.{append_assoc}
use roxo_mcp.Base.Text.{Text, codes}
use roxo_mcp.Base.Names.{Text_discrete}
use roxo_mcp.LuaAst.Stream.{new}
use roxo_mcp.LuaAst.Strings.{
  escape_char, is_valid_ident, is_valid_ident_char, is_valid_ident_char_start, all_ident_chars,
  is_keyword, is_one_of,
}
use roxo_mcp.LuaAst.Layout.{escape, put}
use roxo_mcp.LuaAst.Render.{key_text, fmt_string-printed, fmt_string_key-printed}
use roxo_mcp.LuaAst.{fmt_string, fmt_string_key, written}

abbrev push_to : Option ℕ → Option (Text × Text) → Option (Text × Text)
push_to none r = none
push_to (some c) none = none
push_to (some c) (some (t, rest)) = some (c ∷ t, rest)

-- The character that a letter after a backslash stands for, of those that the printer uses.
unfoldable pub unescape : ℕ → Option ℕ
unescape c =
    if c == b'n'
    then some 10
    else if c == b'r'
    then some 13
    else if c == b't'
    then some 9
    else if c == b'"' || c == b'\\'
    then some c
    else none

-- The rest of a string literal and what follows it. The flag is set after a backslash. A literal is on
-- one line.
unfoldable pub read_string : Bool → Text → Option (Text × Text)
unfolding unescape
read_string after [] = none
read_string true (c ∷ cs) = push_to (unescape c) (read_string false cs)
read_string false (c ∷ cs) =
    let escaped = read_string true cs in
    let rest = push_to (some c) (read_string false cs) in
    if c == b'"'
    then some ([], cs)
    else if c == b'\\'
    then escaped
    else if c == 10 || c == 13
    then none
    else rest

-- A literal from its first quote on.
unfoldable pub read_literal : Text → Option (Text × Text)
unfolding read_string
read_literal [] = none
read_literal (c ∷ cs) = if c == b'"' then read_string false cs else none

abbrev close_bracket : Option (Text × Text) → Option (Text × Text)
close_bracket none = none
close_bracket (some (t, [])) = none
close_bracket (some (t, c ∷ rest)) = if c == b']' then some (t, rest) else none

-- The words that Lua reserves (section 3.1 of the manual, and no more in Luau).
abbrev reserved_words : List Text
reserved_words =
    codes "and"
    ∷ codes "break"
    ∷ codes "do"
    ∷ codes "else"
    ∷ codes "elseif"
    ∷ codes "end"
    ∷ codes "false"
    ∷ codes "for"
    ∷ codes "function"
    ∷ codes "if"
    ∷ codes "in"
    ∷ codes "local"
    ∷ codes "nil"
    ∷ codes "not"
    ∷ codes "or"
    ∷ codes "repeat"
    ∷ codes "return"
    ∷ codes "then"
    ∷ codes "true"
    ∷ codes "until"
    ∷ codes "while"
    ∷ []

-- The word is in the list.
unfoldable pub listed : Text → List Text → Bool
listed word [] = false
listed word (w ∷ ws) = ite (Text_discrete word w) true (listed word ws)

unfoldable pub is_reserved : Text → Bool
unfolding listed
is_reserved word = listed word reserved_words

-- A letter of ASCII or the underscore; and those that may follow, with the digits.
unfoldable pub starts_name : ℕ → Bool
starts_name c = (leb 65 c && leb c 90) || ((leb 97 c && leb c 122) || c == 95)

unfoldable pub continues_name : ℕ → Bool
unfolding starts_name
continues_name c = starts_name c || (leb 48 c && leb c 57)

-- The longest run of the characters of a name.
unfoldable pub read_name : Text → Text × Text
unfolding continues_name
read_name [] = ([], [])
read_name (c ∷ cs) =
    let (name, rest) = read_name cs in if continues_name c then (c ∷ name, rest) else ([], c ∷ cs)

-- A string key: in brackets and quotes, or a name that is no reserved word.
unfoldable pub read_key : Text → Option (Text × Text)
read_key [] = none
read_key (c ∷ cs) =
    if c == b'['
    then close_bracket (read_literal cs)
    else if starts_name c && not (is_reserved (read_name (c ∷ cs)).0)
    then some (read_name (c ∷ cs))
    else none

read_string-escape_char :
    (c : ℕ) (rest : Text)
    → read_string false (escape_char c ++ rest) ≡ push_to (some c) (read_string false rest)
unfolding read_string escape_char
read_string-escape_char c rest = ground arith

read_string-escape : (t rest : Text) → read_string false (escape t ++ b'"' ∷ rest) ≡ some (t, rest)
unfolding escape read_string
read_string-escape [] rest = refl
read_string-escape (c ∷ cs) rest = rw append_assoc (
    read_string-escape_char c (escape cs ++ b'"' ∷ rest)
    ∙ ap (push_to (some c)) (read_string-escape cs rest))

abbrev pub stops : Text → Bool
stops [] = true
stops (c ∷ cs) = not (continues_name c)

continues_valid : (c : ℕ) → is_valid_ident_char c ≡ true → continues_name c ≡ true
unfolding is_valid_ident_char continues_name starts_name
continues_valid c h = ground arith

starts_valid : (c : ℕ) → is_valid_ident_char_start c ≡ true → starts_name c ≡ true
unfolding is_valid_ident_char_start starts_name
starts_valid c h = ground arith

listed-is_one_of : (word : Text) (ws : List Text) → listed word ws ≡ is_one_of word ws
unfolding listed is_one_of
listed-is_one_of word [] = refl
listed-is_one_of word (w ∷ ws) = ap (ite (Text_discrete word w) true) (listed-is_one_of word ws)

-- The program's keywords are the reserved words.
is_reserved-is_keyword : (word : Text) → is_reserved word ≡ is_keyword word
unfolding is_reserved is_keyword
is_reserved-is_keyword word = listed-is_one_of word reserved_words

read_name-append :
    (t rest : Text)
    → all_ident_chars t ≡ true
    → stops rest ≡ true
    → read_name (t ++ rest) ≡ (t, rest)
unfolding all_ident_chars read_name
read_name-append [] [] h k = refl
read_name-append [] (c ∷ cs) h k = ground arith
read_name-append (c ∷ cs) rest h k = ground (arith, continues_valid c, read_name-append cs rest)

-- Whatever follows it, the literal that is printed for a string is read back as that string by the
-- rules of Lua for quotes, backslashes and line ends.
pub read_literal-fmt_string :
    (s rest : Text)
    → (literal : Text) × (written (fmt_string s new) ≡ some literal)
      × (read_literal (literal ++ rest) ≡ some (s, rest))
read_literal-fmt_string s rest = (
  codes "\"" ++ (escape s ++ codes "\""),
  rw (fmt_string-printed s new) refl,
  unfold read_literal in rw append_assoc (read_string-escape s rest),
)

valid_parts :
    (c : ℕ) (cs : Text)
    → is_valid_ident (c ∷ cs) ≡ true
    → (is_keyword (c ∷ cs) ≡ false)
      × (is_valid_ident_char_start c ≡ true)
      × (all_ident_chars cs ≡ true)
unfolding is_valid_ident
valid_parts c cs h = ground arith

start_parts :
    (c : ℕ)
    → is_valid_ident_char_start c ≡ true
    → (is_valid_ident_char c ≡ true) × ((c == b'[') ≡ false)
unfolding is_valid_ident_char_start is_valid_ident_char
start_parts c h = ground arith

all_ident_chars-cons :
    (c : ℕ) (cs : Text)
    → is_valid_ident_char c ≡ true
    → all_ident_chars cs ≡ true
    → all_ident_chars (c ∷ cs) ≡ true
unfolding all_ident_chars
all_ident_chars-cons c cs h k = rw (h, k) refl

read_key-ident :
    (s rest : Text)
    → is_valid_ident s ≡ true
    → stops rest ≡ true
    → read_key (s ++ rest) ≡ some (s, rest)
unfolding read_key
read_key-ident [] rest h k = unfold is_valid_ident is_keyword is_one_of in ground arith
read_key-ident (c ∷ cs) rest h k =
    let (other, start, all) = valid_parts c cs h in
    let (char, open_bracket) = start_parts c start in
    rw
      (
        open_bracket,
        starts_valid c start,
        read_name-append (c ∷ cs) rest (all_ident_chars-cons c cs char all) k,
        is_reserved-is_keyword (c ∷ cs),
        other,
      )
      refl

read_key-brackets :
    (s rest : Text) → read_key (codes "[\"" ++ (escape s ++ codes "\"]") ++ rest) ≡ some (s, rest)
unfolding read_key read_literal
read_key-brackets s rest = rw (append_assoc, read_string-escape s (b']' ∷ rest)) refl

written-put : (s : Text) → written (some (put s new)) ≡ some s
written-put [] = refl
written-put (c ∷ cs) = refl

-- The table key that is printed for a string, a name or a literal in brackets, is read back as that
-- string by a reader that takes no reserved word of Lua for a name, if what follows does not
-- continue a name.
pub read_key-fmt_string_key :
    (s rest : Text)
    → stops rest ≡ true
    → (key : Text) × (written (fmt_string_key s new) ≡ some key)
      × (read_key (key ++ rest) ≡ some (s, rest))
unfolding key_text
read_key-fmt_string_key s rest h = elim (Bool-cases (is_valid_ident s)) [
  | inl is_ident ↦ (
    s,
    rw (fmt_string_key-printed s new, is_ident) (written-put s),
    read_key-ident s rest is_ident h,
  )
  | inr no_ident ↦ (
    codes "[\"" ++ (escape s ++ codes "\"]"),
    rw (fmt_string_key-printed s new, no_ident) refl,
    read_key-brackets s rest,
  )
]
