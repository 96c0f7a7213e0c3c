-- ===== src/VariantEq/Tests.antt =====
-- Values over small numbers, of which 99 is the NaN.
use Prim.Native.String.{String}
use Prim.Native.Char.{code}
use text.Mathlib.TextEquality.{Char-path}
use mathlib.Core.List.{Perm}
use mathlib.Core.Path.{ap₂}
use roxo_mcp.Base.{
  ℕ, ◌≡◌, ◌↔◌, refl, Bool, true, false, ◌||◌, [], ◌∷◌, Option, none, some, ◌==◌, leb, ltb, arith,
  if◌then◌else◌,
}
use roxo_mcp.VariantEq.Values.{
  Floats, Values, Variant, attributes, attribute, no_more, color3, ColorKeypoint,
}
use roxo_mcp.VariantEq.Equal.{variant_eq, tags_eq}
use roxo_mcp.VariantEq.Reflexive
use roxo_mcp.VariantEq.Tags
use roxo_mcp.VariantEq.Tags.{IsOrder}

abbrev numbers_le : ℕ → ℕ → Option Bool
numbers_le a b = if (a == 99) || (b == 99) then none else some (leb a b)

number_is_itself : (a : ℕ) → (a == a) ≡ true
number_is_itself a = ground arith

numbers_le_nan : (a b : ℕ) → (a == 99) ≡ true → numbers_le a b ≡ none
numbers_le_nan a b e = ground arith

numbers_le_nan_right : (a b : ℕ) → (b == 99) ≡ true → numbers_le a b ≡ none
numbers_le_nan_right a b e = ground arith

abbrev floats : Floats
floats = record {
  Float = ℕ;
  float_cmp = λ a b. a == b;
  is_nan = λ a. a == 99;
  partial_cmp = numbers_le;
  float_cmp_refl = λ a e. number_is_itself a;
  partial_cmp_nan = numbers_le_nan;
  partial_cmp_nan_right = numbers_le_nan_right;
}

-- The order of texts by their code points.
text_le : String → String → Bool
text_le String.[] t = true
text_le (String.◌∷◌ c s) String.[] = false
text_le (String.◌∷◌ c s) (String.◌∷◌ d t) =
    let rest = text_le s t in if code c == code d then rest else ltb (code c) (code d)

text_le_total : (s t : String) → text_le s t ≡ false → text_le t s ≡ true
unfolding text_le
text_le_total String.[] t e = absurd cc
text_le_total (String.◌∷◌ c s) String.[] e = refl
text_le_total (String.◌∷◌ c s) (String.◌∷◌ d t) e = ground (arith, text_le_total s t)

text_le_trans : (s t u : String) → text_le s t ≡ true → text_le t u ≡ true → text_le s u ≡ true
unfolding text_le
text_le_trans String.[] t u e f = refl
text_le_trans (String.◌∷◌ c s) String.[] u e f = absurd cc
text_le_trans (String.◌∷◌ c s) (String.◌∷◌ d t) String.[] e f = absurd cc
text_le_trans (String.◌∷◌ c s) (String.◌∷◌ d t) (String.◌∷◌ b u) e f =
    ground (arith, text_le_trans s t u)

text_le_antisym : (s t : String) → text_le s t ≡ true → text_le t s ≡ true → s ≡ t
unfolding text_le
text_le_antisym String.[] String.[] e f = refl
text_le_antisym String.[] (String.◌∷◌ d t) e f = absurd cc
text_le_antisym (String.◌∷◌ c s) String.[] e f = absurd cc
text_le_antisym (String.◌∷◌ c s) (String.◌∷◌ d t) e f =
    ap₂ String.◌∷◌ (Char-path c d (ground arith)) (ground (arith, text_le_antisym s t))

text_le-IsOrder : IsOrder text_le
text_le-IsOrder = record {
  total = text_le_total;
  transitive = text_le_trans;
  antisymmetric = text_le_antisym;
}

abbrev values : Values
values = record {
  f32 = floats;
  f64 = floats;
  Exact = ℕ;
  same = λ a b. a == b;
  same_refl = number_is_itself;
  text_le = text_le;
}

abbrev white : Variant values
white = color3 99 1 1

abbrev named : Variant values
named = attributes (attribute "Colour" white no_more)

variant_eq_refl_example : variant_eq named named ≡ some true
variant_eq_refl_example = Reflexive.variant_eq_refl named (unfold Reflexive.Comparable in (tt, tt))

abbrev at : ℕ → ColorKeypoint ℕ
at t = record { time = t; r = 1; g = 1; b = 1 }

tags_eq_iff_example :
    (tags_eq text_le ("b" ∷ "a" ∷ []) ("a" ∷ "b" ∷ []) ≡ true)
    ↔ Perm {A = String} ("b" ∷ "a" ∷ []) ("a" ∷ "b" ∷ [])
tags_eq_iff_example = Tags.tags_eq_iff text_le ("b" ∷ "a" ∷ []) ("a" ∷ "b" ∷ []) text_le-IsOrder
