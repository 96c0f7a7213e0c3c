-- ===== src/Resolution/Typed.antt =====
-- The types of resolved values.
use Prim.Native.String.{String}
use roxo_mcp.Base.{ℕ, ◌≡◌, refl, List, Option, none, some, arith, Option-cases, inl, inr}
use roxo_mcp.Base.Dict.{lookup}
use roxo_mcp.Base.Text.{String_discrete}
use roxo_mcp.Resolution.Values.{
  Types, Content, Variant, bool, float32, float64, int32, int64, string, binary_string, tags,
  content, content_id, vector2, vector3, color3, cframe, attributes, font, material_colors,
  enumeration, other, VariantType, bool_type, float32_type, float64_type, int32_type, int64_type,
  string_type, tags_type, content_type, content_id_type, vector2_type, vector3_type, color3_type,
  cframe_type, attributes_type, font_type, material_colors_type, DataType, enum_of, value_of,
  unknown, Database, AmbiguousValue, bool_value, string_value, ambiguous,
}
use roxo_mcp.Resolution.{
  ok, find_descriptor, member, invalid, resolve_enum, resolve_value, resolve_as, resolve, describe,
}
use roxo_mcp.Resolution.Messages.{nonexhaustive_list, sort_names}

module _ {t : Types} where
  abbrev pub type_of : Variant t → Option VariantType
  type_of (bool b) = some bool_type
  type_of (float32 n) = some float32_type
  type_of (float64 n) = some float64_type
  type_of (int32 n) = some int32_type
  type_of (int64 n) = some int64_type
  type_of (string s) = some string_type
  type_of (binary_string b) = none
  type_of (tags s) = some tags_type
  type_of (content c) = some content_type
  type_of (content_id s) = some content_id_type
  type_of (vector2 x y) = some vector2_type
  type_of (vector3 v) = some vector3_type
  type_of (color3 r g b) = some color3_type
  type_of (cframe c) = some cframe_type
  type_of (attributes a) = some attributes_type
  type_of (font f) = some font_type
  type_of (material_colors m) = some material_colors_type
  type_of (enumeration n) = none
  type_of (other k) = none

  -- A member of the enum by its number.
  abbrev pub IsMember : Database → String → Variant t → Type 0
  IsMember db name variant =
      (items : List (String × ℕ)) × (value : String) × (id : ℕ) × (db.enums name ≡ some items)
      × (lookup String_discrete value items ≡ some id)
      × (variant ≡ enumeration id)

  abbrev pub HasType : Database → DataType → Variant t → Type 0
  HasType db (enum_of name) variant = IsMember db name variant
  HasType db (value_of ty) variant = type_of variant ≡ some ty
  HasType db unknown variant = ⊥

  invalid_not_ok :
      (class prop name : String) (what : _) (o : Option _) (v : Variant t)
      → invalid class prop name what o ≡ ok v
      → ⊥
  invalid_not_ok class prop name what none v h = cc
  invalid_not_ok class prop name what (some x) v h = cc

module _ {t : Types} (content_from : String → Content t) where
  resolve_value-type_of :
      (class prop : String) (ty : VariantType) (a : AmbiguousValue t) (v : Variant t)
      → resolve_value content_from class prop ty a ≡ ok v
      → type_of v ≡ some ty
  unfolding resolve_value
  resolve_value-type_of class prop bool_type (bool_value b) v h = ground arith
  resolve_value-type_of class prop ty a v h = ground arith

module _ {t : Types} where
  member-IsMember :
      (db : Database) (class prop name value : String) (items : List (String × ℕ)) (o : Option ℕ)
      (v : Variant t)
      → db.enums name ≡ some items
      → lookup String_discrete value items ≡ o
      → member class prop name items value o ≡ ok v
      → IsMember db name v
  member-IsMember db class prop name value items (some id) v e l h =
      (items, value, id, e, l, ground arith)
  member-IsMember db class prop name value items none v e l h =
      absurd (invalid_not_ok class prop name _ _ v h)

  resolve_enum-IsMember :
      (db : Database) (class prop name : String) (o : Option (List (String × ℕ)))
      (a : AmbiguousValue t) (v : Variant t)
      → db.enums name ≡ o
      → resolve_enum class prop name o a ≡ ok v
      → IsMember db name v
  unfolding resolve_enum
  resolve_enum-IsMember db class prop name (some items) (string_value value) v e h =
      member-IsMember db class prop name value items (lookup String_discrete value items) v e refl h
  resolve_enum-IsMember db class prop name none a v e h = cc
  resolve_enum-IsMember db class prop name (some items) a v e h =
      absurd
        (invalid_not_ok class prop name (describe a) (nonexhaustive_list (sort_names items)) v h)

module _ {t : Types} (content_from : String → Content t) where
  resolve_as-HasType :
      (db : Database) (class prop : String) (d : DataType) (a : AmbiguousValue t) (v : Variant t)
      → resolve_as content_from db class prop (some d) a ≡ ok v
      → HasType db d v
  unfolding resolve_as
  resolve_as-HasType db class prop (enum_of name) a v h =
      resolve_enum-IsMember db class prop name (db.enums name) a v refl h
  resolve_as-HasType db class prop (value_of ty) a v h =
      resolve_value-type_of content_from class prop ty a v h
  resolve_as-HasType db class prop unknown a v h = cc

  -- If an ambiguous value resolves, then the property is known and the result has its type: the
  -- kind of the property, or the number of an item of its enum.
  pub resolve-HasType :
      (db : Database) (fuel : ℕ) (class prop : String) (a : AmbiguousValue t) (v : Variant t)
      → resolve content_from db fuel class prop (ambiguous a) ≡ ok v
      → (d : DataType) × (find_descriptor db fuel class prop ≡ some d) × HasType db d v
  unfolding resolve
  resolve-HasType db fuel class prop a v h =
      elim (Option-cases (find_descriptor db fuel class prop)) [
        | inl e ↦ cc (rw e at h)
        | inr (d, e) ↦ (d, e, resolve_as-HasType db class prop d a v (rw e at h))
      ]
