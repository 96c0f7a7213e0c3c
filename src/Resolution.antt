-- ===== src/Resolution.antt =====
-- resolution.rs: values of project files and models whose type the reflection database decides.
pub mod Values
pub mod Messages
mod Lookup
mod Typed
mod RoundTrip
mod Tests
use Prim.Native.String.{String}
use roxo_mcp.Base.{ℕ, zero, suc, Bool, List, [], ◌∷◌, map, Option, none, some, ◌==◌, if◌then◌else◌}
use roxo_mcp.Base.Dict.{lookup}
use roxo_mcp.Base.Text.{Text, codes, String_discrete}
use roxo_mcp.VariantEq.Values.{Vector3, CFrame}
use roxo_mcp.Resolution.Values.*
use roxo_mcp.Resolution.Messages.{nonexhaustive_list, sort_names}

-- The texts of the errors by what goes into them.
pub data ResolveError : Type 0 where
  unknown_property : String → String → ResolveError
  unknown_enum : String → ResolveError
  invalid_value : String → String → Text → String → Text → ResolveError
  ref_as_string : String → ResolveError
  wrong_type : String → String → VariantType → Text → ResolveError
  unknown_data_type : String → String → ResolveError
  not_unambiguous : ResolveError

pub data Resolved (t : Types) : Type 0 where
  ok : Variant t → Resolved t
  err : ResolveError → Resolved t
  panic : Resolved t

-- The loop of `find_descriptor`, from a class up, with fuel for the classes on the way. Without fuel it
-- finds nothing. `up` goes on with a class.
abbrev pub climb : (String → Option DataType) → Option String → Option DataType
climb up none = none
climb up (some super_class) = up super_class

abbrev pub found_or : Option DataType → Option DataType → Option DataType
found_or none rest = rest
found_or (some found) rest = some found

abbrev pub visit : String → (String → Option DataType) → Option ClassDescriptor → Option DataType
visit prop up none = none
visit prop up (some class) = found_or (class.properties prop) (climb up class.superclass)

unfoldable pub find_descriptor : Database → ℕ → String → String → Option DataType
find_descriptor db zero class prop = none
find_descriptor db (suc fuel) class prop =
    visit prop (λ super_class. find_descriptor db fuel super_class prop) (db.classes class)

module _ {t : Types} where
  abbrev pub describe : AmbiguousValue t → Text
  describe (bool_value b) = codes "a bool"
  describe (string_value s) = codes "a string"
  describe (string_array s) = codes "an array of strings"
  describe (number n) = codes "a number"
  describe (array2 a b) = codes "an array of two numbers"
  describe (array3 a b c) = codes "an array of three numbers"
  describe (array4 a b c d) = codes "an array of four numbers"
  describe (array12 a b c d e f g h i j k l) = codes "an array of twelve numbers"
  describe (attributes_value a) = codes "an object containing attributes"
  describe (font_value f) = codes "an object describing a Font"
  describe (material_colors_value m) = codes "an object describing MaterialColors"

  -- The closure `error`, which panics for an enum with no items.
  abbrev pub invalid : String → String → String → Text → Option Text → Resolved t
  invalid class prop name what none = panic
  invalid class prop name what (some examples) = err (invalid_value class prop what name examples)

  abbrev pub member : String → String → String → List (String × ℕ) → String → Option ℕ → Resolved t
  member class prop name items value (some id) = ok (enumeration id)
  member class prop name items value none =
      invalid class prop name (codes value) (nonexhaustive_list (sort_names items))

  unfoldable pub resolve_enum :
      String → String → String → Option (List (String × ℕ)) → AmbiguousValue t → Resolved t
  resolve_enum class prop name none value = err (unknown_enum name)
  resolve_enum class prop name (some items) (string_value value) =
      member class prop name items value (lookup String_discrete value items)
  resolve_enum class prop name (some items) value =
      invalid class prop name (describe value) (nonexhaustive_list (sort_names items))

module _ {t : Types} (content_from : String → Content t) where
  open t use {narrow, to_int32, to_int64, tags_from}

  unfoldable pub resolve_value : String → String → VariantType → AmbiguousValue t → Resolved t
  resolve_value class prop bool_type (bool_value b) = ok (bool b)
  resolve_value class prop float32_type (number n) = ok (float32 (narrow n))
  resolve_value class prop float64_type (number n) = ok (float64 n)
  resolve_value class prop int32_type (number n) = ok (int32 (to_int32 n))
  resolve_value class prop int64_type (number n) = ok (int64 (to_int64 n))
  resolve_value class prop string_type (string_value s) = ok (string s)
  resolve_value class prop tags_type (string_array s) = ok (tags (tags_from s))
  resolve_value class prop content_type (string_value s) = ok (content (content_from s))
  resolve_value class prop content_id_type (string_value s) = ok (content_id s)
  resolve_value class prop vector2_type (array2 a b) = ok (vector2 (narrow a) (narrow b))
  resolve_value class prop vector3_type (array3 a b c) =
      ok (vector3 (record { x = narrow a; y = narrow b; z = narrow c }))
  resolve_value class prop color3_type (array3 a b c) = ok (color3 (narrow a) (narrow b) (narrow c))
  resolve_value class prop cframe_type (array12 a b c d e f g h i j k l) = ok (
      cframe (record {
        position = record { x = narrow a; y = narrow b; z = narrow c };
        orientation_x = record { x = narrow d; y = narrow e; z = narrow f };
        orientation_y = record { x = narrow g; y = narrow h; z = narrow i };
        orientation_z = record { x = narrow j; y = narrow k; z = narrow l };
      }))
  resolve_value class prop attributes_type (attributes_value a) = ok (attributes a)
  resolve_value class prop font_type (font_value f) = ok (font f)
  resolve_value class prop material_colors_type (material_colors_value m) = ok (material_colors m)
  resolve_value class prop ref_type (string_value s) = err (ref_as_string prop)
  resolve_value class prop ty value = err (wrong_type class prop ty (describe value))

  unfoldable pub resolve_as :
      Database → String → String → Option DataType → AmbiguousValue t → Resolved t
  unfolding resolve_value resolve_enum
  resolve_as db class prop none value = err (unknown_property class prop)
  resolve_as db class prop (some (enum_of name)) value =
      resolve_enum class prop name (db.enums name) value
  resolve_as db class prop (some (value_of ty)) value = resolve_value class prop ty value
  resolve_as db class prop (some unknown) value = err (unknown_data_type class prop)

  unfoldable pub resolve : Database → ℕ → String → String → UnresolvedValue t → Resolved t
  unfolding resolve_as find_descriptor
  resolve db fuel class prop (fully_qualified full) = ok full
  resolve db fuel class prop (ambiguous partial) =
      resolve_as db class prop (find_descriptor db fuel class prop) partial

-- The first item with the number.
unfoldable pub name_of : ℕ → List (String × ℕ) → Option String
name_of n [] = none
name_of n ((name, id) ∷ items) = if id == n then some name else name_of n items

module _ {t : Types} where
  open t use {widen, from_int32, from_int64, tags_iter, utf8}

  unfoldable pub resolve_unambiguous : UnresolvedValue t → Resolved t
  resolve_unambiguous (fully_qualified full) = ok full
  resolve_unambiguous (ambiguous (bool_value b)) = ok (bool b)
  resolve_unambiguous (ambiguous (number n)) = ok (float64 n)
  resolve_unambiguous (ambiguous (string_value s)) = ok (string s)
  resolve_unambiguous (ambiguous value) = err not_unambiguous

  abbrev pub from_name : ℕ → Option String → UnresolvedValue t
  from_name n none = fully_qualified (enumeration n)
  from_name n (some name) = ambiguous (string_value name)

  abbrev pub from_items : ℕ → Option (List (String × ℕ)) → UnresolvedValue t
  from_items n none = fully_qualified (enumeration n)
  from_items n (some items) = from_name n (name_of n items)

  abbrev pub from_enum : Database → ℕ → DataType → UnresolvedValue t
  from_enum db n (enum_of name) = from_items n (db.enums name)
  from_enum db n (value_of ty) = fully_qualified (enumeration n)
  from_enum db n unknown = fully_qualified (enumeration n)

  abbrev pub from_content : Content t → UnresolvedValue t
  from_content empty = ambiguous (string_value "")
  from_content (uri u) = ambiguous (string_value u)
  from_content (object o) = fully_qualified (content (object o))

  -- The match on a value whose property is known.
  unfoldable pub from_known : Database → DataType → Variant t → UnresolvedValue t
  unfolding name_of
  from_known db descriptor (enumeration n) = from_enum db n descriptor
  from_known db descriptor (bool b) = ambiguous (bool_value b)
  from_known db descriptor (float32 n) = ambiguous (number (widen n))
  from_known db descriptor (float64 n) = ambiguous (number n)
  from_known db descriptor (int32 n) = ambiguous (number (from_int32 n))
  from_known db descriptor (int64 n) = ambiguous (number (from_int64 n))
  from_known db descriptor (string s) = ambiguous (string_value s)
  from_known db descriptor (tags s) = ambiguous (string_array (tags_iter s))
  from_known db descriptor (content c) = from_content c
  from_known db descriptor (content_id s) = ambiguous (string_value s)
  from_known db descriptor (vector2 x y) = ambiguous (array2 (widen x) (widen y))
  from_known db descriptor (vector3 v) = ambiguous (array3 (widen v.x) (widen v.y) (widen v.z))
  from_known db descriptor (color3 r g b) = ambiguous (array3 (widen r) (widen g) (widen b))
  from_known db descriptor (cframe c) = ambiguous (
      array12 (widen c.position.x) (widen c.position.y) (widen c.position.z)
        (widen c.orientation_x.x) (widen c.orientation_x.y) (widen c.orientation_x.z)
        (widen c.orientation_y.x) (widen c.orientation_y.y) (widen c.orientation_y.z)
        (widen c.orientation_z.x) (widen c.orientation_z.y) (widen c.orientation_z.z))
  from_known db descriptor (attributes a) = ambiguous (attributes_value a)
  from_known db descriptor (font f) = ambiguous (font_value f)
  from_known db descriptor (material_colors m) = ambiguous (material_colors_value m)
  from_known db descriptor (binary_string b) = fully_qualified (binary_string b)
  from_known db descriptor (other k) = fully_qualified (other k)

  abbrev pub from_found : Database → Option DataType → Variant t → UnresolvedValue t
  from_found db none variant = fully_qualified variant
  from_found db (some descriptor) variant = from_known db descriptor variant

  unfoldable pub from_variant : Database → ℕ → Variant t → String → String → UnresolvedValue t
  unfolding find_descriptor from_known
  from_variant db fuel variant class prop =
      from_found db (find_descriptor db fuel class prop) variant

  abbrev pub from_utf8 : t.Bytes → Option String → UnresolvedValue t
  from_utf8 bytes none = fully_qualified (binary_string bytes)
  from_utf8 bytes (some s) = ambiguous (string_value s)

  unfoldable pub from_variant_unambiguous : Variant t → UnresolvedValue t
  from_variant_unambiguous (string s) = ambiguous (string_value s)
  from_variant_unambiguous (float64 n) = ambiguous (number n)
  from_variant_unambiguous (bool b) = ambiguous (bool_value b)
  from_variant_unambiguous (binary_string b) = from_utf8 b (utf8 b)
  from_variant_unambiguous v = fully_qualified v
