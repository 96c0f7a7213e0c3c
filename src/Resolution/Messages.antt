-- ===== src/Resolution/Messages.antt =====
-- `nonexhaustive_list` of resolution.rs, for the message about an enum.
use Prim.Native.String.{String}
use roxo_mcp.Base.{
  ℕ, ◌-◌, min, Bool, true, false, List, [], ◌∷◌, ◌++◌, map, Option, none, some, length, take, ltb,
  ◌==◌, if◌then◌else◌,
}
use roxo_mcp.Base.Sort.{sort_by}
use roxo_mcp.Base.Text.{Text, codes}
use roxo_mcp.Base.Names.{to_string}

-- The order of `str`: by bytes, which is that of the code points.
unfoldable pub text_le : Text → Text → Bool
text_le [] t = true
text_le (c ∷ s) [] = false
text_le (c ∷ s) (d ∷ t) = let rest = text_le s t in if c == d then rest else ltb c d

unfoldable pub sort_names : List (String × ℕ) → List Text
unfolding text_le
sort_names items = sort_by text_le (map (λ (item : String × ℕ). codes item.0) items)

abbrev pub max_items : ℕ
max_items = 8

abbrev pub last_or : Text → List Text → Text
last_or v [] = v
last_or v (w ∷ ws) = last_or w ws

abbrev pub joined : List Text → Text
joined [] = []
joined (v ∷ vs) = v ++ (codes ", " ++ joined vs)

-- `none` is the panic for no values: `len - 1` is out of range.
unfoldable pub nonexhaustive_list : List Text → Option Text
unfolding to_string
nonexhaustive_list [] = none
nonexhaustive_list (v ∷ vs) =
    let values = v ∷ vs in
    let main_length = min (length values - 1) 9 in
    some (
      joined (take main_length values)
      ++ (if ltb max_items (length values)
          then codes "or " ++ (to_string (length values - main_length) ++ codes " more")
          else codes "or " ++ last_or v vs))
