-- ===== src/Patch/Variants.antt =====
-- What patches use of the property values of rbx_types: which values are references, Booleans or
-- attributes, and their comparisons.
use Prim.Native.Char.{code}
use Prim.Native.String.{String}
use roxo_mcp.Base.{Bool, List, Option, none, some, ◌≡◌, ◌==◌, if◌then◌else◌}

pub record Variants (Ref Variant : Type 0) : Type 0 where
  -- `variant_eq`: whether it panics, and its answer where it does not. Then `==` on variants.
  pub panics : Variant → Variant → Bool
  pub variant_eq : Variant → Variant → Bool
  pub same : Variant → Variant → Bool
  pub as_ref : Variant → Option Ref
  pub ref_variant : Ref → Variant
  pub is_some_ref : Ref → Bool
  pub as_bool : Variant → Option Bool
  pub bool_variant : Bool → Variant
  pub attributes : Variant → Option (List (String × Variant))
  -- A `String`, or a `BinaryString` that is UTF-8.
  pub text : Variant → Option String
  pub as_ref_variant : (r : Ref) → as_ref (ref_variant r) ≡ some r
  pub as_bool_variant : (b : Bool) → as_bool (bool_variant b) ≡ some b
  pub as_ref_bool : (b : Bool) → as_ref (bool_variant b) ≡ none

-- rojo_ref.rs.
abbrev pub ref_id_attribute_name : String
ref_id_attribute_name = "Rojo_Id"

abbrev pub ref_pointer_attribute_prefix : String
ref_pointer_attribute_prefix = "Rojo_Target_"

unfoldable pub strip_prefix : String → String → Option String
strip_prefix String.[] s = some s
strip_prefix (String.◌∷◌ c p) String.[] = none
strip_prefix (String.◌∷◌ c p) (String.◌∷◌ d s) =
    let rest = strip_prefix p s in if code c == code d then rest else none
