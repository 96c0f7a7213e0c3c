-- ===== src/Resolution/Values.antt =====
-- The property values of resolution.rs, and what it takes of rbx_types and of the reflection database.
use Prim.Native.String.{String}
use roxo_mcp.Base.{ℕ, ◌≡◌, Bool, true, List, Option}
use roxo_mcp.VariantEq.Values.{Vector3, CFrame}

-- The floats with their conversions by `as`: a 32-bit float, and a 32-bit integer, have their value as
-- 64-bit floats; a 64-bit integer has it if `is_exact`. `content_from` is the conversion of a text, `utf8`
-- that of bytes.
pub record Types : Type 1 where
  pub F32 : Type 0
  pub F64 : Type 0
  pub Int32 : Type 0
  pub Int64 : Type 0
  pub widen : F32 → F64
  pub narrow : F64 → F32
  pub from_int32 : Int32 → F64
  pub to_int32 : F64 → Int32
  pub from_int64 : Int64 → F64
  pub to_int64 : F64 → Int64
  pub is_exact : Int64 → Bool
  pub narrow_widen : (x : F32) → narrow (widen x) ≡ x
  pub to_from_int32 : (n : Int32) → to_int32 (from_int32 n) ≡ n
  pub to_from_int64 : (n : Int64) → is_exact n ≡ true → to_int64 (from_int64 n) ≡ n
  pub TagList : Type 0
  pub tags_from : List String → TagList
  pub tags_iter : TagList → List String
  pub tags_from_iter : (t : TagList) → tags_from (tags_iter t) ≡ t
  pub Object : Type 0
  pub Bytes : Type 0
  pub utf8 : Bytes → Option String
  pub AttributeMap : Type 0
  pub FontValue : Type 0
  pub Materials : Type 0

pub data Content (t : Types) : Type 0 where
  empty : Content t
  uri : String → Content t
  object : t.Object → Content t

-- `other` is a value of any further type.
pub data Variant (t : Types) : Type 0 where
  bool : Bool → Variant t
  float32 : t.F32 → Variant t
  float64 : t.F64 → Variant t
  int32 : t.Int32 → Variant t
  int64 : t.Int64 → Variant t
  string : String → Variant t
  binary_string : t.Bytes → Variant t
  tags : t.TagList → Variant t
  content : Content t → Variant t
  content_id : String → Variant t
  vector2 : t.F32 → t.F32 → Variant t
  vector3 : Vector3 t.F32 → Variant t
  color3 : t.F32 → t.F32 → t.F32 → Variant t
  cframe : CFrame t.F32 → Variant t
  attributes : t.AttributeMap → Variant t
  font : t.FontValue → Variant t
  material_colors : t.Materials → Variant t
  enumeration : ℕ → Variant t
  other : ℕ → Variant t

pub data VariantType : Type 0 where
  bool_type : VariantType
  float32_type : VariantType
  float64_type : VariantType
  int32_type : VariantType
  int64_type : VariantType
  string_type : VariantType
  tags_type : VariantType
  content_type : VariantType
  content_id_type : VariantType
  vector2_type : VariantType
  vector3_type : VariantType
  color3_type : VariantType
  cframe_type : VariantType
  attributes_type : VariantType
  font_type : VariantType
  material_colors_type : VariantType
  ref_type : VariantType
  other_type : ℕ → VariantType

-- `DataType` can grow, so there is `unknown`.
pub data DataType : Type 0 where
  enum_of : String → DataType
  value_of : VariantType → DataType
  unknown : DataType

pub record ClassDescriptor : Type 0 where
  pub properties : String → Option DataType
  pub superclass : Option String

-- The items of an enum in the order of its map.
pub record Database : Type 0 where
  pub classes : String → Option ClassDescriptor
  pub enums : String → Option (List (String × ℕ))

module _ (t : Types) where
  pub data AmbiguousValue : Type 0 where
    bool_value : Bool → AmbiguousValue
    string_value : String → AmbiguousValue
    string_array : List String → AmbiguousValue
    number : t.F64 → AmbiguousValue
    array2 : t.F64 → t.F64 → AmbiguousValue
    array3 : t.F64 → t.F64 → t.F64 → AmbiguousValue
    array4 : t.F64 → t.F64 → t.F64 → t.F64 → AmbiguousValue
    array12 :
        t.F64
        → t.F64
        → t.F64
        → t.F64
        → t.F64
        → t.F64
        → t.F64
        → t.F64
        → t.F64
        → t.F64
        → t.F64
        → t.F64
        → AmbiguousValue
    attributes_value : t.AttributeMap → AmbiguousValue
    font_value : t.FontValue → AmbiguousValue
    material_colors_value : t.Materials → AmbiguousValue

  pub data UnresolvedValue : Type 0 where
    fully_qualified : Variant t → UnresolvedValue
    ambiguous : AmbiguousValue → UnresolvedValue
