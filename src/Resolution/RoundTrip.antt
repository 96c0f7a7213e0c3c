-- ===== src/Resolution/RoundTrip.antt =====
-- A value that is written without its type resolves to itself.
use Prim.Native.String.{String}
use roxo_mcp.Base.{ℕ, ◌≡◌, ◌≢◌, refl, ◌∙◌, true, List, [], ◌∷◌, Option, none, some, arith}
use roxo_mcp.Base.Dict.{lookup, IsDistinct}
use roxo_mcp.Base.Text.{String_discrete}
use roxo_mcp.Resolution.Values.{
  Types, Content, empty, uri, object, Variant, bool, float32, float64, int32, int64, string,
  binary_string, tags, content, content_id, vector2, vector3, color3, cframe, attributes, font,
  material_colors, enumeration, other, bool_type, float32_type, float64_type, int32_type,
  int64_type, string_type, tags_type, content_type, content_id_type, vector2_type, vector3_type,
  color3_type, cframe_type, attributes_type, font_type, material_colors_type, DataType, enum_of,
  value_of, unknown, Database, UnresolvedValue, fully_qualified, ambiguous,
}
use roxo_mcp.Resolution.{
  Resolved, ok, find_descriptor, resolve_enum, resolve_value, resolve_as, resolve, name_of,
  from_name, from_items, from_enum, from_known, from_found, from_variant,
}

module _ {t : Types} where
  -- The property's type is the value's, and the value has an exact number. A URI that is empty and a
  -- content that is empty are written alike.
  abbrev pub Fits : DataType → Variant t → Type 0
  Fits d (bool b) = d ≡ value_of bool_type
  Fits d (float32 n) = d ≡ value_of float32_type
  Fits d (float64 n) = d ≡ value_of float64_type
  Fits d (int32 n) = d ≡ value_of int32_type
  Fits d (int64 n) = (d ≡ value_of int64_type) × (t.is_exact n ≡ true)
  Fits d (string s) = d ≡ value_of string_type
  Fits d (binary_string b) = Unit
  Fits d (tags s) = d ≡ value_of tags_type
  Fits d (content empty) = ⊥
  Fits d (content (uri u)) = (d ≡ value_of content_type) × (u ≢ "")
  Fits d (content (object o)) = Unit
  Fits d (content_id s) = d ≡ value_of content_id_type
  Fits d (vector2 x y) = d ≡ value_of vector2_type
  Fits d (vector3 v) = d ≡ value_of vector3_type
  Fits d (color3 r g b) = d ≡ value_of color3_type
  Fits d (cframe c) = d ≡ value_of cframe_type
  Fits d (attributes a) = d ≡ value_of attributes_type
  Fits d (font f) = d ≡ value_of font_type
  Fits d (material_colors m) = d ≡ value_of material_colors_type
  Fits d (enumeration n) = Unit
  Fits d (other k) = Unit

  abbrev pub FitsFound : Option DataType → Variant t → Type 0
  FitsFound none v = Unit
  FitsFound (some d) v = Fits d v

lookup-name_of :
    (n : ℕ) (items : List (String × ℕ)) (name : String)
    → IsDistinct String_discrete items
    → name_of n items ≡ some name
    → lookup String_discrete name items ≡ some n
unfolding name_of lookup
lookup-name_of n [] name d h = cc
lookup-name_of n ((k, id) ∷ items) name d h = ground (arith, lookup-name_of n items name)

module _ {t : Types} (content_from : String → Content t)
    (content_from_uri : (u : String) → u ≢ "" → content_from u ≡ uri u) (db : Database)
    (distinct : (name : String) (items : List (String × ℕ))
      → db.enums name ≡ some items
      → IsDistinct String_discrete items)
    (fuel : ℕ) (class prop : String) where
  abbrev resolve_found : Option DataType → UnresolvedValue t → Resolved t
  resolve_found found (fully_qualified full) = ok full
  resolve_found found (ambiguous a) = resolve_as content_from db class prop found a

  from_name-resolves :
      (name : String) (items : List (String × ℕ)) (n : ℕ) (o : Option String)
      → db.enums name ≡ some items
      → name_of n items ≡ o
      → resolve_found (some (enum_of name)) (from_name n o) ≡ ok (enumeration n)
  unfolding resolve_as resolve_enum
  from_name-resolves name items n none e h = refl
  from_name-resolves name items n (some k) e h =
      rw e (rw (lookup-name_of n items k (distinct name items e) h) refl)

  from_items-resolves :
      (name : String) (n : ℕ) (o : Option (List (String × ℕ)))
      → db.enums name ≡ o
      → resolve_found (some (enum_of name)) (from_items n o) ≡ ok (enumeration n)
  from_items-resolves name n none e = refl
  from_items-resolves name n (some items) e =
      from_name-resolves name items n (name_of n items) e refl

  from_enum-resolves :
      (d : DataType) (n : ℕ) → resolve_found (some d) (from_enum db n d) ≡ ok (enumeration n)
  from_enum-resolves (enum_of name) n = from_items-resolves name n (db.enums name) refl
  from_enum-resolves (value_of ty) n = refl
  from_enum-resolves unknown n = refl

  from_known-resolves :
      (d : DataType) (v : Variant t) → Fits d v → resolve_found (some d) (from_known db d v) ≡ ok v
  unfolding from_known resolve_as resolve_value
  from_known-resolves d (bool b) h = rw h refl
  from_known-resolves d (float32 n) h = rw (h, t.narrow_widen n) refl
  from_known-resolves d (float64 n) h = rw h refl
  from_known-resolves d (int32 n) h = rw (h, t.to_from_int32 n) refl
  from_known-resolves d (int64 n) h = rw (h.0, t.to_from_int64 n h.1) refl
  from_known-resolves d (string s) h = rw h refl
  from_known-resolves d (binary_string b) h = refl
  from_known-resolves d (tags s) h = rw (h, t.tags_from_iter s) refl
  from_known-resolves d (content empty) h = absurd h
  from_known-resolves d (content (uri u)) h = rw (h.0, content_from_uri u h.1) refl
  from_known-resolves d (content (object o)) h = refl
  from_known-resolves d (content_id s) h = rw h refl
  from_known-resolves d (vector2 x y) h = rw h (simp t.narrow_widen)
  from_known-resolves d (vector3 v) h = rw h (simp t.narrow_widen)
  from_known-resolves d (color3 r g b) h = rw h (simp t.narrow_widen)
  from_known-resolves d (cframe c) h = rw h (simp t.narrow_widen)
  from_known-resolves d (attributes a) h = rw h refl
  from_known-resolves d (font f) h = rw h refl
  from_known-resolves d (material_colors m) h = rw h refl
  from_known-resolves d (enumeration n) h = from_enum-resolves d n
  from_known-resolves d (other k) h = refl

  from_found-resolves :
      (found : Option DataType) (v : Variant t)
      → FitsFound found v
      → resolve_found found (from_found db found v) ≡ ok v
  from_found-resolves none v h = refl
  from_found-resolves (some d) v h = from_known-resolves d v h

  resolve_lem :
      (u : UnresolvedValue t)
      → resolve content_from db fuel class prop u
        ≡ resolve_found (find_descriptor db fuel class prop) u
  unfolding resolve
  resolve_lem (fully_qualified full) = refl
  resolve_lem (ambiguous a) = refl

  -- A value whose type is that of its property is written by `from_variant`, with its type or
  -- without it, so that `resolve` gives it back: enums by the names of their items, and 64-bit
  -- integers if a float holds them exactly. An empty content and an empty URI are left out.
  pub resolve-from_variant :
      (v : Variant t)
      → FitsFound (find_descriptor db fuel class prop) v
      → resolve content_from db fuel class prop (from_variant db fuel v class prop) ≡ ok v
  unfolding from_variant
  resolve-from_variant v h =
      resolve_lem (from_found db (find_descriptor db fuel class prop) v)
      ∙ from_found-resolves (find_descriptor db fuel class prop) v h
