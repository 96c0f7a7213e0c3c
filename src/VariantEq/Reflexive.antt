-- ===== src/VariantEq/Reflexive.antt =====
-- Every value whose keypoints have an order is equal to itself, NaN included.
use Prim.Native.String.{String}
use roxo_mcp.Base.{
  ℕ, Bool, true, List, [], ◌∷◌, Option, none, some, ◌≡◌, refl, arith, length, ◌==◌, Bool-cases,
  Option-cases, inl, inr,
}
use roxo_mcp.Base.Sort
use roxo_mcp.Patch.Compute.{same_text}
use roxo_mcp.RojoTree.Tree.{is_some}
use roxo_mcp.VariantEq.Values.{
  Floats, Values, kind_code, Vector3, CFrame, ColorKeypoint, NumberKeypoint, PhysicalProperties,
  Variant, Attributes, attributes, exact, cframe, color3, color_sequence, float32, float64, font,
  number_range, number_sequence, optional_cframe, physical_properties, ray, rect, region3, tags,
  udim, udim2, vector2, vector3, other, no_more, attribute,
}
use roxo_mcp.VariantEq.Equal.{
  approx_eq, vector_eq, cframe_eq, optional_eq, physical_eq, color_keypoint_eq, number_keypoint_eq,
  zip_all, sort_by, sequence_eq, sorted_eq, order_of, tags_eq, variant_eq, attributes_eq, count_of,
}

module _ (f : Floats) where
  approx_refl : (a : f.Float) → approx_eq f a a ≡ true
  approx_refl a = elim (Bool-cases (f.is_nan a)) [
    | inl e ↦ ground (arith, e)
    | inr e ↦ rw (f.float_cmp_refl a e) refl
  ]

  vector_refl : (a : Vector3 f.Float) → vector_eq f a a ≡ true
  vector_refl a = rw (approx_refl a.x, approx_refl a.y, approx_refl a.z) refl

  cframe_refl : (a : CFrame f.Float) → cframe_eq f a a ≡ true
  cframe_refl a =
      rw
        (
          vector_refl a.position,
          vector_refl a.orientation_x,
          vector_refl a.orientation_y,
          vector_refl a.orientation_z,
        )
        refl

  optional_refl : (a : Option (CFrame f.Float)) → optional_eq f a a ≡ true
  optional_refl none = refl
  optional_refl (some a) = cframe_refl a

  physical_refl : (a : Option (PhysicalProperties f.Float)) → physical_eq f a a ≡ true
  physical_refl none = refl
  physical_refl (some a) =
      rw
        (
          approx_refl a.density,
          approx_refl a.elasticity,
          approx_refl a.friction,
          approx_refl a.elasticity_weight,
          approx_refl a.friction_weight,
          approx_refl a.acoustic_absorption,
        )
        refl

  color_keypoint_refl : (a : ColorKeypoint f.Float) → color_keypoint_eq f a a ≡ true
  color_keypoint_refl a =
      rw (approx_refl a.time, approx_refl a.r, approx_refl a.g, approx_refl a.b) refl

  number_keypoint_refl : (a : NumberKeypoint f.Float) → number_keypoint_eq f a a ≡ true
  number_keypoint_refl a = rw (approx_refl a.time, approx_refl a.value, approx_refl a.envelope) refl

zip_all_refl :
    {A : Type 0} (eq : A → A → Bool) (xs : List A)
    → ((x : A) → eq x x ≡ true)
    → zip_all eq xs xs ≡ true
zip_all_refl eq [] h = refl
zip_all_refl eq (x ∷ xs) h = rw (h x, zip_all_refl eq xs h) refl

equal_refl : (n : ℕ) → (n == n) ≡ true
equal_refl n = ground arith

same_text_itself : (s : String) → same_text s s ≡ true
same_text_itself s = ground arith

sequence_refl :
    {A : Type 0} (cmp : A → A → Option Bool) (eq : A → A → Bool) (xs : List A)
    → ((x : A) → eq x x ≡ true)
    → is_some (sort_by cmp xs) ≡ true
    → sequence_eq cmp eq xs xs ≡ some true
sequence_refl cmp eq xs h e = elim (Option-cases (sort_by cmp xs)) [
  | inl g ↦ absurd (ground (arith, e, g))
  | inr (sorted, g) ↦ rw (equal_refl (length xs), g, sorted_eq, zip_all_refl eq sorted h) refl
]

unfoldable mutual
  -- The times of keypoints can be compared, and the type is known.
  pub Comparable : {v : Values} → Variant v → Type 0
  Comparable (attributes a) = AllComparable a
  Comparable {v} (color_sequence ks) =
      is_some (sort_by (order_of v.f32.partial_cmp (λ k. k.time)) ks) ≡ true
  Comparable {v} (number_sequence ks) =
      is_some (sort_by (order_of v.f32.partial_cmp (λ k. k.time)) ks) ≡ true
  Comparable (other k) = ⊥
  Comparable a = Unit

  pub AllComparable : {v : Values} → Attributes v → Type 0
  AllComparable no_more = Unit
  AllComparable (attribute name value rest) = Comparable value × AllComparable rest

mutual
  unfolding variant_eq attributes_eq Comparable AllComparable tags_eq Sort.sort_by

  variant_eq_itself : {v : Values} (a : Variant v) → Comparable a → variant_eq a a ≡ some true
  variant_eq_itself (attributes a) c = rw (equal_refl (count_of a)) (attributes_eq_itself a c)
  variant_eq_itself {v} (exact k a) c = rw (equal_refl (kind_code k), v.same_refl a) refl
  variant_eq_itself {v} (cframe a) c = rw (cframe_refl v.f32 a) refl
  variant_eq_itself {v} (color3 r g b) c =
      rw (approx_refl v.f32 r, approx_refl v.f32 g, approx_refl v.f32 b) refl
  variant_eq_itself {v} (color_sequence ks) c =
      sequence_refl (order_of v.f32.partial_cmp (λ k. k.time)) (color_keypoint_eq v.f32) ks
        (color_keypoint_refl v.f32) c
  variant_eq_itself {v} (float32 a) c = rw (approx_refl v.f32 a) refl
  variant_eq_itself {v} (float64 a) c = rw (approx_refl v.f64 a) refl
  variant_eq_itself {v} (font a b c' d) c =
      rw (v.same_refl a, v.same_refl b, v.same_refl c', v.same_refl d) refl
  variant_eq_itself {v} (number_range a b) c = rw (approx_refl v.f32 b, approx_refl v.f32 a) refl
  variant_eq_itself {v} (number_sequence ks) c =
      sequence_refl (order_of v.f32.partial_cmp (λ k. k.time)) (number_keypoint_eq v.f32) ks
        (number_keypoint_refl v.f32) c
  variant_eq_itself {v} (optional_cframe a) c = rw (optional_refl v.f32 a) refl
  variant_eq_itself {v} (physical_properties a) c = rw (physical_refl v.f32 a) refl
  variant_eq_itself {v} (ray a b) c = rw (vector_refl v.f32 b, vector_refl v.f32 a) refl
  variant_eq_itself {v} (rect x y z w) c =
      rw (approx_refl v.f32 z, approx_refl v.f32 w, approx_refl v.f32 x, approx_refl v.f32 y) refl
  variant_eq_itself {v} (region3 a b) c = rw (vector_refl v.f32 b, vector_refl v.f32 a) refl
  variant_eq_itself {v} (tags ts) c =
      rw
        (
          equal_refl (length ts),
          zip_all_refl same_text (Sort.sort_by v.text_le ts) same_text_itself,
        )
        refl
  variant_eq_itself {v} (udim a b) c = rw (approx_refl v.f32 a, v.same_refl b) refl
  variant_eq_itself {v} (udim2 x dx y dy) c =
      rw (approx_refl v.f32 x, v.same_refl dx, approx_refl v.f32 y, v.same_refl dy) refl
  variant_eq_itself {v} (vector2 x y) c = rw (approx_refl v.f32 x, approx_refl v.f32 y) refl
  variant_eq_itself {v} (vector3 a) c = rw (vector_refl v.f32 a) refl
  variant_eq_itself (other k) c = absurd c

  attributes_eq_itself :
      {v : Values} (a : Attributes v) → AllComparable a → attributes_eq a a ≡ some true
  attributes_eq_itself no_more c = refl
  attributes_eq_itself (attribute name value rest) c =
      rw (same_text_itself name, variant_eq_itself value c.0, attributes_eq_itself rest c.1) refl

-- A value is equal to itself, also where it has a NaN, if its type is known and the times of its
-- keypoints can be compared, in its attributes too.
pub variant_eq_refl : {v : Values} (a : Variant v) → Comparable a → variant_eq a a ≡ some true
variant_eq_refl a c = variant_eq_itself a c
