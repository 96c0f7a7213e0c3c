-- ===== src/Resolution/Tests.antt =====
-- Resolution against a small database.
use Prim.Native.String.{String}
use roxo_mcp.Base.{ℕ, ◌≡◌, ◌<◌, ◌↔◌, refl, subst, true, List, [], ◌∷◌, map, none, some, arith, ite}
use mathlib.Core.Logic.{if_neg}
use roxo_mcp.Base.Dict.{lookup, IsDistinct}
use roxo_mcp.Base.Sort.{sort_by}
use roxo_mcp.Base.Text.{codes, String_discrete}
use roxo_mcp.Resolution.Values.{
  Types, Content, uri, string, binary_string, enumeration, int32_type, DataType, enum_of, value_of,
  ClassDescriptor, Database, AmbiguousValue, string_value, ambiguous,
}
use roxo_mcp.Resolution.{
  Resolved, ok, err, find_descriptor, resolve, from_variant, resolve_unambiguous,
  from_variant_unambiguous, invalid_value,
}
use roxo_mcp.Resolution.Messages.{nonexhaustive_list, sort_names, text_le}
use roxo_mcp.Resolution.Lookup.{Finds, find_descriptor-Finds}
use roxo_mcp.Resolution.Typed.{HasType, resolve-HasType}
use roxo_mcp.Resolution.RoundTrip.{resolve-from_variant}

-- All numbers are natural, and bytes are texts.
abbrev naturals : Types
naturals = record {
  F32 = ℕ;
  F64 = ℕ;
  Int32 = ℕ;
  Int64 = ℕ;
  widen = λ n. n;
  narrow = λ n. n;
  from_int32 = λ n. n;
  to_int32 = λ n. n;
  from_int64 = λ n. n;
  to_int64 = λ n. n;
  is_exact = λ n. true;
  narrow_widen = λ n. refl;
  to_from_int32 = λ n. refl;
  to_from_int64 = λ n e. refl;
  TagList = List String;
  tags_from = λ s. s;
  tags_iter = λ s. s;
  tags_from_iter = λ s. refl;
  Object = ℕ;
  Bytes = String;
  utf8 = λ b. some b;
  AttributeMap = ℕ;
  FontValue = ℕ;
  Materials = ℕ;
}

abbrev materials : List (String × ℕ)
materials = ("Wood", 512) ∷ ("Plastic", 256) ∷ []

abbrev reflection : Database
reflection = record {
  classes = λ class. lookup String_discrete class (
      (
        "Part",
        record {
          properties = λ p. lookup String_discrete p (("Shape", value_of int32_type) ∷ []);
          superclass = some "BasePart";
        },
      )
      ∷ (
        "BasePart",
        record {
          properties = λ p. lookup String_discrete p (("Material", enum_of "Material") ∷ []);
          superclass = none;
        },
      )
      ∷ []);
  enums = λ name. lookup String_discrete name (("Material", materials) ∷ []);
}

abbrev as_uri : String → Content naturals
as_uri u = uri u

inherits : find_descriptor reflection 2 "Part" "Material" ≡ some (enum_of "Material")
unfolding find_descriptor lookup String_discrete
inherits = refl

abbrev rejected : Resolved naturals
rejected =
    resolve {t = naturals} as_uri reflection 2 "Part" "Material" (ambiguous (string_value "Wod"))

names_examples :
    rejected
    ≡ err (invalid_value "Part" "Material" (codes "Wod") "Material" (codes "Plastic, or Wood"))
unfolding resolve find_descriptor lookup String_discrete nonexhaustive_list sort_names text_le
    sort_by
names_examples = refl

loses_bytes :
    resolve_unambiguous {t = naturals} (from_variant_unambiguous (binary_string "ab"))
    ≡ ok (string "ab")
unfolding resolve_unambiguous from_variant_unambiguous
loses_bytes = refl

abbrev letters : List (List ℕ)
letters = map (λ (n : ℕ). n ∷ []) (97 ∷ 98 ∷ 99 ∷ 100 ∷ 101 ∷ 102 ∷ 103 ∷ 104 ∷ 105 ∷ 106 ∷ [])

-- Ten values: nine of them are listed, though at most eight are meant to be.
lists_nine : nonexhaustive_list letters ≡ some (codes "a, b, c, d, e, f, g, h, i, or 1 more")
unfolding nonexhaustive_list
lists_nine = refl

abbrev rank : String → ℕ
rank class = ite (String_discrete "Part" class) 1 0

rank_base : rank "BasePart" ≡ 0
unfolding String_discrete
rank_base = refl

ranked :
    (class super_class : String) (k : ClassDescriptor)
    → reflection.classes class ≡ some k
    → k.superclass ≡ some super_class
    → rank super_class < rank class
unfolding lookup
ranked class super_class k e h = ground (arith, rank_base)

find_descriptor-Finds_example :
    (find_descriptor reflection 2 "Part" "Material" ≡ some (enum_of "Material"))
    ↔ Finds reflection "Material" (enum_of "Material") "Part"
unfolding String_discrete
find_descriptor-Finds_example =
    find_descriptor-Finds reflection "Material" rank 2 "Part" (enum_of "Material") ranked
      (omega arith)

abbrev wood : AmbiguousValue naturals
wood = string_value "Wood"

wood_resolves :
    resolve {t = naturals} as_uri reflection 2 "Part" "Material" (ambiguous wood)
    ≡ ok (enumeration 512)
unfolding resolve find_descriptor lookup String_discrete
wood_resolves = refl

resolve-HasType_example :
    (d : DataType) × (find_descriptor reflection 2 "Part" "Material" ≡ some d)
    × HasType {t = naturals} reflection d (enumeration 512)
resolve-HasType_example =
    resolve-HasType as_uri reflection 2 "Part" "Material" wood (enumeration 512) wood_resolves

materials-IsDistinct : IsDistinct String_discrete materials
unfolding lookup String_discrete
materials-IsDistinct = (refl, (refl, tt))

IsDistinct-items :
    (name : String) (items : List (String × ℕ))
    → reflection.enums name ≡ some items
    → IsDistinct String_discrete items
unfolding lookup
IsDistinct-items name items e = elim (String_discrete "Material" name) [
  | yes p ↦
      let same : materials ≡ items = ground arith in
      subst (IsDistinct String_discrete) same materials-IsDistinct
  | no p ↦ cc (rw (if_neg _ p) at e)
]

resolve-from_variant_example :
    resolve {t = naturals} as_uri reflection 2 "Part" "Material"
      (from_variant reflection 2 (enumeration 256) "Part" "Material")
    ≡ ok (enumeration 256)
unfolding find_descriptor lookup String_discrete
resolve-from_variant_example =
    resolve-from_variant as_uri (λ u h. refl) reflection IsDistinct-items 2 "Part" "Material"
      (enumeration 256) tt
