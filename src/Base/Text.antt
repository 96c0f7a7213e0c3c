-- ===== src/Base/Text.antt =====
-- Texts: a decidable equality that runs, and paths as lists of components.
use Prim.Native.Nat.{ℕ}
use Prim.Native.Char.{code}
use Prim.Native.String.{String}
use text.Mathlib.Text.{◌==◌ as str_eq}
use text.Mathlib.TextEquality.{eq_iff}
use roxo_mcp.Base.Equality.{decide_by}
unfoldable pub use roxo_mcp.Base.Equality.{List_discrete}
use mathlib.Core.List.{List, [], ◌∷◌}

unfoldable pub String_discrete : Discrete String
unfolding decide_by
String_discrete s t = decide_by (str_eq s t) (eq_iff s t)

-- A path by its components, the first one first.
abbrev pub PathBuf : Type 0
PathBuf = List String

unfoldable pub PathBuf_discrete : Discrete PathBuf
unfolding String_discrete List_discrete
PathBuf_discrete = List_discrete String_discrete

-- A text by its code points, where the program looks inside.
abbrev pub Text : Type 0
Text = List ℕ

abbrev pub codes : String → Text
codes String.[] = []
codes (String.◌∷◌ c s) = code c ∷ codes s
