-- ===== src/SnapshotMiddleware/Endings.antt =====
-- File names by their endings: the patterns of the default rules, and a stem before an ending.
use roxo_mcp.Base.{
  ℕ, ◌≡◌, refl, ◌∙◌, ap, Bool, true, false, not, ◌&&◌, ◌||◌, List, [], ◌∷◌, ◌++◌, Option, none,
  some, ◌==◌, arith, leb, if◌then◌else◌,
}
use mathlib.Core.Logic.{if_neg}
use roxo_mcp.Base.Text.{Text}
use roxo_mcp.SnapshotMiddleware.Rules.{FilePath, Globs, file_name, strip_suffix, push_front}

-- The names of a brace, up to its end.
abbrev start_name : ℕ → List Text → List Text
start_name c [] = (c ∷ []) ∷ []
start_name c (n ∷ ns) = (c ∷ n) ∷ ns

abbrev pub split_commas : Text → List Text
split_commas [] = []
split_commas (c ∷ cs) =
    let rest = split_commas cs in
    if c == b'}' then [] ∷ [] else if c == b',' then [] ∷ rest else start_name c rest

abbrev pub dotted : List Text → List Text
dotted [] = []
dotted (n ∷ ns) = (46 ∷ n) ∷ dotted ns

-- The endings of a pattern after its star: one, or those of a brace after a dot.
abbrev pub alternatives : Text → List Text
alternatives (c ∷ d ∷ more) = if d == b'{' then dotted (split_commas more) else (c ∷ d ∷ more) ∷ []
alternatives rest = rest ∷ []

abbrev pub is_letter : ℕ → Bool
is_letter c = leb b'a' c && leb c b'z'

abbrev pub is_braced : Text → Bool
is_braced [] = false
is_braced (c ∷ []) = c == b'}'
is_braced (c ∷ d ∷ cs) = (is_letter c || c == b',') && is_braced (d ∷ cs)

abbrev pub is_literal : Text → Bool
is_literal [] = true
is_literal (c ∷ cs) = (is_letter c || c == 46) && is_literal cs

-- A dot with letters and dots, or with a brace of letters, after it.
abbrev pub is_simple : Text → Bool
is_simple [] = false
is_simple (c ∷ []) = false
is_simple (c ∷ d ∷ more) = c == 46 && (if d == b'{' then is_braced more else is_literal (d ∷ more))

abbrev pub is_some : Option Text → Bool
is_some none = false
is_some (some t) = true

abbrev pub any_suffix : Text → List Text → Bool
any_suffix name [] = false
any_suffix name (s ∷ suffixes) = is_some (strip_suffix s name) || any_suffix name suffixes

-- What globset says of `*` with a simple pattern after it: a path matches by the end of its name.
abbrev pub StarMatches : {Glob : Type 0} → Globs Glob → Type 0
StarMatches g =
    (rest name : Text) (path : FilePath)
    → is_simple rest ≡ true
    → file_name path ≡ some name
    → g.is_match (g.literal (b'*' ∷ rest)) path ≡ any_suffix name (alternatives rest)

abbrev pub is_dot_free : Text → Bool
is_dot_free [] = true
is_dot_free (c ∷ cs) = not (c == 46) && is_dot_free cs

abbrev pub put_stem : Text → Option Text → Option Text
put_stem stem none = none
put_stem stem (some t) = some (stem ++ t)

cons_differs : (c : ℕ) (s t : Text) → (c == 46) ≡ false → ¬ (c ∷ t ≡ 46 ∷ s)
cons_differs c s t h e = ground arith

put_nothing : (o : Option Text) → o ≡ put_stem [] o
put_nothing none = refl
put_nothing (some t) = refl

push_put :
    (c : ℕ) (stem : Text) (o : Option Text) → push_front c (put_stem stem o) ≡ put_stem (c ∷ stem) o
push_put c stem none = refl
push_put c stem (some t) = refl

free_parts :
    (c : ℕ) (stem : Text)
    → is_dot_free (c ∷ stem) ≡ true
    → ((c == 46) ≡ false) × (is_dot_free stem ≡ true)
free_parts c stem h = ground arith

dotted_parts : (c : ℕ) (b : Bool) → (c == 46 && b) ≡ true → (c ≡ 46) × (b ≡ true)
dotted_parts c b h = ground arith

pub strip_suffix-stem :
    (s e stem : Text)
    → is_dot_free stem ≡ true
    → strip_suffix (46 ∷ s) (stem ++ 46 ∷ e) ≡ put_stem stem (strip_suffix (46 ∷ s) (46 ∷ e))
unfolding strip_suffix
strip_suffix-stem s e [] h = put_nothing (strip_suffix (46 ∷ s) (46 ∷ e))
strip_suffix-stem s e (c ∷ stem) h =
    let (other, free) = free_parts c stem h in
    rw (if_neg _ (cons_differs c s (stem ++ 46 ∷ e) other)) (
      ap (push_front c) (strip_suffix-stem s e stem free)
      ∙ push_put c stem (strip_suffix (46 ∷ s) (46 ∷ e)))

pub is_some-put_stem : (stem : Text) (o : Option Text) → is_some (put_stem stem o) ≡ is_some o
is_some-put_stem stem none = refl
is_some-put_stem stem (some t) = refl

-- Every ending begins with a dot.
abbrev pub all_dotted : List Text → Bool
all_dotted [] = true
all_dotted ([] ∷ ss) = false
all_dotted ((c ∷ s) ∷ ss) = c == 46 && all_dotted ss

pub any_suffix-stem :
    (e stem : Text) (ss : List Text)
    → is_dot_free stem ≡ true
    → all_dotted ss ≡ true
    → any_suffix (stem ++ 46 ∷ e) ss ≡ any_suffix (46 ∷ e) ss
any_suffix-stem e stem [] h d = refl
any_suffix-stem e stem ([] ∷ ss) h d = cc
any_suffix-stem e stem ((c ∷ s) ∷ ss) h d =
    let (dot, rest) = dotted_parts c (all_dotted ss) d in
    rw
      (
        dot,
        strip_suffix-stem s e stem h,
        is_some-put_stem stem (strip_suffix (46 ∷ s) (46 ∷ e)),
        any_suffix-stem e stem ss h rest,
      )
      refl
