-- ===== src/VariantEq/Values.antt =====
-- The property values of rbx_types that variant_eq.rs compares, and the floats in them.
use Prim.Native.String.{String}
use roxo_mcp.Base.{ℕ, ◌≡◌, Bool, true, false, List, Option, none}

-- A float type: `float_cmp::approx_eq!`, `is_nan`, and `partial_cmp`, which says of two numbers whether
-- the first is at most the second, and nothing of a NaN.
pub record Floats : Type 1 where
  pub Float : Type 0
  pub float_cmp : Float → Float → Bool
  pub is_nan : Float → Bool
  pub partial_cmp : Float → Float → Option Bool
  pub float_cmp_refl : (a : Float) → is_nan a ≡ false → float_cmp a a ≡ true
  pub partial_cmp_nan : (a b : Float) → is_nan a ≡ true → partial_cmp a b ≡ none
  pub partial_cmp_nan_right : (a b : Float) → is_nan b ≡ true → partial_cmp a b ≡ none

-- The types that `==` compares. MaterialColors are compared as they are encoded.
pub data ExactKind : Type 0 where
  axes : ExactKind
  binary_string : ExactKind
  bool : ExactKind
  brick_color : ExactKind
  color3uint8 : ExactKind
  content : ExactKind
  content_id : ExactKind
  enumeration : ExactKind
  enum_item : ExactKind
  faces : ExactKind
  int32 : ExactKind
  int64 : ExactKind
  material_colors : ExactKind
  net_asset_ref : ExactKind
  reference : ExactKind
  region3int16 : ExactKind
  security_capabilities : ExactKind
  shared_string : ExactKind
  unique_id : ExactKind
  text : ExactKind
  vector2int16 : ExactKind
  vector3int16 : ExactKind

abbrev pub kind_code : ExactKind → ℕ
kind_code axes = 0
kind_code binary_string = 1
kind_code bool = 2
kind_code brick_color = 3
kind_code color3uint8 = 4
kind_code content = 5
kind_code content_id = 6
kind_code enumeration = 7
kind_code enum_item = 8
kind_code faces = 9
kind_code int32 = 10
kind_code int64 = 11
kind_code material_colors = 12
kind_code net_asset_ref = 13
kind_code reference = 14
kind_code region3int16 = 15
kind_code security_capabilities = 16
kind_code shared_string = 17
kind_code unique_id = 18
kind_code text = 19
kind_code vector2int16 = 20
kind_code vector3int16 = 21

-- What variants are made of: 32-bit and 64-bit floats, and values with an `==`.
pub record Values : Type 1 where
  pub f32 : Floats
  pub f64 : Floats
  pub Exact : Type 0
  pub same : Exact → Exact → Bool
  pub same_refl : (a : Exact) → same a a ≡ true
  -- `<=` on `str`.
  pub text_le : String → String → Bool

pub record Vector3 (F : Type 0) : Type 0 where
  pub x : F
  pub y : F
  pub z : F

-- The orientation by its rows.
pub record CFrame (F : Type 0) : Type 0 where
  pub position : Vector3 F
  pub orientation_x : Vector3 F
  pub orientation_y : Vector3 F
  pub orientation_z : Vector3 F

pub record ColorKeypoint (F : Type 0) : Type 0 where
  pub time : F
  pub r : F
  pub g : F
  pub b : F

pub record NumberKeypoint (F : Type 0) : Type 0 where
  pub time : F
  pub value : F
  pub envelope : F

pub record PhysicalProperties (F : Type 0) : Type 0 where
  pub density : F
  pub elasticity : F
  pub friction : F
  pub elasticity_weight : F
  pub friction_weight : F
  pub acoustic_absorption : F

mutual
  -- `other` is a type, by its number, that the comparison does not know.
  pub data Variant (v : Values) : Type 0 where
    attributes : Attributes v → Variant v
    exact : ExactKind → v.Exact → Variant v
    cframe : CFrame v.f32.Float → Variant v
    color3 : v.f32.Float → v.f32.Float → v.f32.Float → Variant v
    color_sequence : List (ColorKeypoint v.f32.Float) → Variant v
    float32 : v.f32.Float → Variant v
    float64 : v.f64.Float → Variant v
    font : v.Exact → v.Exact → v.Exact → v.Exact → Variant v
    number_range : v.f32.Float → v.f32.Float → Variant v
    number_sequence : List (NumberKeypoint v.f32.Float) → Variant v
    optional_cframe : Option (CFrame v.f32.Float) → Variant v
    physical_properties : Option (PhysicalProperties v.f32.Float) → Variant v
    ray : Vector3 v.f32.Float → Vector3 v.f32.Float → Variant v
    rect : v.f32.Float → v.f32.Float → v.f32.Float → v.f32.Float → Variant v
    region3 : Vector3 v.f32.Float → Vector3 v.f32.Float → Variant v
    tags : List String → Variant v
    udim : v.f32.Float → v.Exact → Variant v
    udim2 : v.f32.Float → v.Exact → v.f32.Float → v.Exact → Variant v
    vector2 : v.f32.Float → v.f32.Float → Variant v
    vector3 : Vector3 v.f32.Float → Variant v
    other : ℕ → Variant v

  -- The entries of a `BTreeMap`, by ascending name.
  pub data Attributes (v : Values) : Type 0 where
    no_more : Attributes v
    attribute : String → Variant v → Attributes v → Attributes v
