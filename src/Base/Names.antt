-- ===== src/Base/Names.antt =====
-- What the program uses of the standard library on texts: file name extensions, decimal numerals,
-- `join` and path prefixes.
use Prim.Native.Nat.{ℕ, suc, zero, ◌+◌, ◌/◌, ◌%◌}
use mathlib.Core.Path.{◌≡◌, refl}
use mathlib.Core.Logic.{inl, inr, ite}
use mathlib.Core.Bool.{Bool, true, false}
use mathlib.Core.Option.{Option, none, some}
use mathlib.Core.List.{List, [], ◌∷◌, ◌++◌}
use native.Mathlib.Decide.{ℕ_discrete}
use roxo_mcp.Base.Tests.{◌==◌, ltb, if◌then◌else◌, Bool-cases}
use roxo_mcp.Base.Text.{Text, PathBuf, String_discrete, List_discrete}

unfoldable pub Text_discrete : Discrete Text
unfolding List_discrete ℕ_discrete
Text_discrete = List_discrete ℕ_discrete

abbrev dot : ℕ
dot = 46

abbrev at_last_dot : ℕ → Text → Option (Text × Text) → Option (Text × Text)
at_last_dot c rest none = if c == dot then some ([], rest) else none
at_last_dot c rest (some (stem, ext)) = some (c ∷ stem, ext)

-- What is before the last dot, and what is after it.
unfoldable pub rsplit_dot : Text → Option (Text × Text)
rsplit_dot [] = none
rsplit_dot (c ∷ rest) = at_last_dot c rest (rsplit_dot rest)

-- `Path::extension` of a file name: a name whose only dot is its first character has none.
abbrev extension_of : Option (Text × Text) → Option Text
extension_of none = none
extension_of (some ([], ext)) = none
extension_of (some (c ∷ stem, ext)) = some ext

unfoldable pub extension : Text → Option Text
unfolding rsplit_dot
extension name = extension_of (rsplit_dot name)

pub rsplit_dot-append :
    (stem ext : Text) → rsplit_dot ext ≡ none → rsplit_dot (stem ++ dot ∷ ext) ≡ some (stem, ext)
unfolding rsplit_dot
rsplit_dot-append [] ext h = rw h refl
rsplit_dot-append (c ∷ stem) ext h = rw (rsplit_dot-append stem ext h) refl

pub extension-append :
    (c : ℕ) (stem ext : Text)
    → rsplit_dot ext ≡ none
    → extension ((c ∷ stem) ++ dot ∷ ext) ≡ some ext
unfolding extension
extension-append c stem ext h = rw (rsplit_dot-append (c ∷ stem) ext h) refl

-- A numeral of a number below 10 ^ fuel, its last digit first.
digits : ℕ → ℕ → Text
digits zero n = []
digits (suc fuel) n =
    let rest = digits fuel (n / 10) in if ltb n 10 then (48 + n) ∷ [] else (48 + n % 10) ∷ rest

abbrev reverse_onto : Text → Text → Text
reverse_onto [] acc = acc
reverse_onto (c ∷ cs) acc = reverse_onto cs (c ∷ acc)

-- The decimal numeral.
unfoldable pub to_string : ℕ → Text
unfolding digits
to_string n = reverse_onto (digits (suc n) n) []

reverse_onto-cons :
    (c : ℕ) (cs acc : Text) → (d : ℕ) × (ds : Text) × (reverse_onto (c ∷ cs) acc ≡ d ∷ ds)
reverse_onto-cons c [] acc = (c, acc, refl)
reverse_onto-cons c (c' ∷ cs) acc = reverse_onto-cons c' cs (c ∷ acc)

-- A numeral has a first digit.
pub to_string-cons : (n : ℕ) → (c : ℕ) × (cs : Text) × (to_string n ≡ c ∷ cs)
unfolding to_string digits
to_string-cons n = elim (Bool-cases (ltb n 10)) [
  | inl e ↦ rw e (reverse_onto-cons (48 + n) [] [])
  | inr e ↦ rw e (reverse_onto-cons (48 + n % 10) (digits n (n / 10)) [])
]

unfoldable pub join_with : Text → List Text → Text
join_with sep [] = []
join_with sep (x ∷ []) = x
join_with sep (x ∷ y ∷ ys) = x ++ sep ++ join_with sep (y ∷ ys)

unfoldable pub starts_with : PathBuf → PathBuf → Bool
unfolding String_discrete
starts_with path [] = true
starts_with [] (c ∷ cs) = false
starts_with (d ∷ ds) (c ∷ cs) = let rest = starts_with ds cs in ite (String_discrete d c) rest false
