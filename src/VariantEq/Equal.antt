-- ===== src/VariantEq/Equal.antt =====
-- `variant_eq`. `none` is a panic. Keypoints with the same time keep their order in the sort, which the
-- program leaves open.
use Prim.Native.String.{String}
use roxo_mcp.Base.{
  ℕ, suc, Bool, true, false, ◌&&◌, ◌||◌, List, [], ◌∷◌, Option, none, some, ◌==◌, length,
  if◌then◌else◌,
}
use roxo_mcp.Base.Sort
use roxo_mcp.Patch.Compute.{same_text}
use roxo_mcp.VariantEq.Values.{
  Floats, kind_code, Values, Vector3, CFrame, ColorKeypoint, NumberKeypoint, PhysicalProperties,
  Variant, Attributes, attributes, exact, cframe, color3, color_sequence, float32, float64, font,
  number_range, number_sequence, optional_cframe, physical_properties, ray, rect, region3, tags,
  udim, udim2, vector2, vector3, other, no_more, attribute,
}

module _ (f : Floats) where
  abbrev pub approx_eq : f.Float → f.Float → Bool
  approx_eq a b = f.float_cmp a b || f.is_nan a && f.is_nan b

  abbrev pub vector_eq : Vector3 f.Float → Vector3 f.Float → Bool
  vector_eq a b = approx_eq a.x b.x && approx_eq a.y b.y && approx_eq a.z b.z

  abbrev pub cframe_eq : CFrame f.Float → CFrame f.Float → Bool
  cframe_eq a b =
      vector_eq a.position b.position
      && vector_eq a.orientation_x b.orientation_x
      && vector_eq a.orientation_y b.orientation_y
      && vector_eq a.orientation_z b.orientation_z

  abbrev pub optional_eq : Option (CFrame f.Float) → Option (CFrame f.Float) → Bool
  optional_eq (some a) (some b) = cframe_eq a b
  optional_eq none none = true
  optional_eq none (some b) = false
  optional_eq (some a) none = false

  abbrev pub physical_eq :
      Option (PhysicalProperties f.Float) → Option (PhysicalProperties f.Float) → Bool
  physical_eq none none = true
  physical_eq (some a) (some b) =
      approx_eq a.density b.density
      && approx_eq a.elasticity b.elasticity
      && approx_eq a.friction b.friction
      && approx_eq a.elasticity_weight b.elasticity_weight
      && approx_eq a.friction_weight b.friction_weight
      && approx_eq a.acoustic_absorption b.acoustic_absorption
  physical_eq none (some b) = false
  physical_eq (some a) none = false

  abbrev pub color_keypoint_eq : ColorKeypoint f.Float → ColorKeypoint f.Float → Bool
  color_keypoint_eq a b =
      approx_eq a.time b.time && approx_eq a.r b.r && approx_eq a.g b.g && approx_eq a.b b.b

  abbrev pub number_keypoint_eq : NumberKeypoint f.Float → NumberKeypoint f.Float → Bool
  number_keypoint_eq a b =
      approx_eq a.time b.time && approx_eq a.value b.value && approx_eq a.envelope b.envelope

-- `all` over `zip`.
abbrev pub zip_all : {A : Type 0} → (A → A → Bool) → List A → List A → Bool
zip_all eq [] bs = true
zip_all eq (a ∷ as') [] = true
zip_all eq (a ∷ as') (b ∷ bs) = eq a b && zip_all eq as' bs

module _ {A : Type 0} (cmp : A → A → Option Bool) where
  abbrev pub put_before : A → A → List A → Option (List A) → Option Bool → Option (List A)
  put_before a b rest later none = none
  put_before a b rest later (some true) = some (a ∷ b ∷ rest)
  put_before a b rest none (some false) = none
  put_before a b rest (some later) (some false) = some (b ∷ later)

  abbrev pub insert_by : A → List A → Option (List A)
  insert_by a [] = some (a ∷ [])
  insert_by a (b ∷ rest) = put_before a b rest (insert_by a rest) (cmp a b)

  abbrev pub insert_into : A → Option (List A) → Option (List A)
  insert_into a none = none
  insert_into a (some sorted) = insert_by a sorted

  -- A sort whose comparisons may panic.
  abbrev pub sort_by : List A → Option (List A)
  sort_by [] = some []
  sort_by (a ∷ rest) = insert_into a (sort_by rest)

abbrev pub sorted_eq :
    {A : Type 0} → (A → A → Bool) → Option (List A) → Option (List A) → Option Bool
sorted_eq eq none bs = none
sorted_eq eq (some as') none = none
sorted_eq eq (some as') (some bs) = some (zip_all eq as' bs)

abbrev pub sequence_eq :
    {A : Type 0} → (A → A → Option Bool) → (A → A → Bool) → List A → List A → Option Bool
sequence_eq cmp eq as' bs =
    if length as' == length bs then sorted_eq eq (sort_by cmp as') (sort_by cmp bs) else some false

abbrev pub count_of : {v : Values} → Attributes v → ℕ
count_of no_more = 0
count_of (attribute name value rest) = suc (count_of rest)

abbrev pub if_both : Bool → Option Bool → Option Bool → Option Bool
if_both false value rest = some false
if_both true none rest = none
if_both true (some false) rest = some false
if_both true (some true) rest = rest

abbrev pub order_of : {A F : Type 0} → (F → F → Option Bool) → (A → F) → A → A → Option Bool
order_of cmp time a b = cmp (time a) (time b)

-- Tags are compared as they are sorted.
unfoldable pub tags_eq : (String → String → Bool) → List String → List String → Bool
unfolding Sort.sort_by
tags_eq le as' bs =
    if length as' == length bs
    then zip_all same_text (Sort.sort_by le as') (Sort.sort_by le bs)
    else false

unfoldable mutual
  unfolding tags_eq

  pub variant_eq : {v : Values} → Variant v → Variant v → Option Bool
  variant_eq (attributes a) (attributes b) =
      if count_of a == count_of b then attributes_eq a b else some false
  variant_eq {v} (exact k a) (exact l b) =
      if kind_code k == kind_code l then some (v.same a b) else some false
  variant_eq {v} (cframe a) (cframe b) = some (cframe_eq v.f32 a b)
  variant_eq {v} (color3 r g b) (color3 r' g' b') =
      some (approx_eq v.f32 r r' && approx_eq v.f32 g g' && approx_eq v.f32 b b')
  variant_eq {v} (color_sequence a) (color_sequence b) =
      sequence_eq (order_of v.f32.partial_cmp (λ k. k.time)) (color_keypoint_eq v.f32) a b
  variant_eq {v} (float32 a) (float32 b) = some (approx_eq v.f32 a b)
  variant_eq {v} (float64 a) (float64 b) = some (approx_eq v.f64 a b)
  variant_eq {v} (font weight style family face) (font weight' style' family' face') =
      some
        (v.same weight weight' && v.same style style' && v.same family family' && v.same face face')
  variant_eq {v} (number_range low high) (number_range low' high') =
      some (approx_eq v.f32 high high' && approx_eq v.f32 low low')
  variant_eq {v} (number_sequence a) (number_sequence b) =
      sequence_eq (order_of v.f32.partial_cmp (λ k. k.time)) (number_keypoint_eq v.f32) a b
  variant_eq {v} (optional_cframe a) (optional_cframe b) = some (optional_eq v.f32 a b)
  variant_eq {v} (physical_properties a) (physical_properties b) = some (physical_eq v.f32 a b)
  variant_eq {v} (ray origin direction) (ray origin' direction') =
      some (vector_eq v.f32 direction direction' && vector_eq v.f32 origin origin')
  variant_eq {v} (rect min_x min_y max_x max_y) (rect min_x' min_y' max_x' max_y') = some (
      approx_eq v.f32 max_x max_x'
      && approx_eq v.f32 max_y max_y'
      && approx_eq v.f32 min_x min_x'
      && approx_eq v.f32 min_y min_y')
  variant_eq {v} (region3 low high) (region3 low' high') =
      some (vector_eq v.f32 high high' && vector_eq v.f32 low low')
  variant_eq {v} (tags a) (tags b) = some (tags_eq v.text_le a b)
  variant_eq {v} (udim scale offset) (udim scale' offset') =
      some (approx_eq v.f32 scale scale' && v.same offset offset')
  variant_eq {v} (udim2 x dx y dy) (udim2 x' dx' y' dy') =
      some (approx_eq v.f32 x x' && v.same dx dx' && approx_eq v.f32 y y' && v.same dy dy')
  variant_eq {v} (vector2 x y) (vector2 x' y') = some (approx_eq v.f32 x x' && approx_eq v.f32 y y')
  variant_eq {v} (vector3 a) (vector3 b) = some (vector_eq v.f32 a b)
  variant_eq (other k) (other l) = if k == l then none else some false
  variant_eq a b = some false

  -- The loop over both maps: it stops at the first entry that differs.
  pub attributes_eq : {v : Values} → Attributes v → Attributes v → Option Bool
  attributes_eq no_more bs = some true
  attributes_eq (attribute name value rest) no_more = some true
  attributes_eq (attribute name value rest) (attribute name' value' rest') =
      if_both (same_text name name') (variant_eq value value') (attributes_eq rest rest')
