-- ===== src/VariantEq/Nan.antt =====
-- A NaN among the times of keypoints.
use roxo_mcp.Base.{
  Bool, true, false, List, [], ◌∷◌, Option, none, some, ◌≡◌, ◌⊎◌, inl, inr, refl, length, ◌==◌,
}
use roxo_mcp.VariantEq.Values.{Values, ColorKeypoint, color_sequence}
use roxo_mcp.VariantEq.Equal.{sort_by, insert_by, insert_into, put_before, order_of, variant_eq}

module _ {A : Type 0} (cmp : A → A → Option Bool) where
  -- The element cannot be compared with any other.
  abbrev Odd : A → Type 0
  Odd a = ((b : A) → cmp a b ≡ none) × ((b : A) → cmp b a ≡ none)

  abbrev HasOdd : List A → Type 0
  HasOdd [] = ⊥
  HasOdd (a ∷ rest) = Odd a ⊎ HasOdd rest

  -- A sort gives as many elements, or panics.
  abbrev NonEmpty : Option (List A) → Type 0
  NonEmpty none = Unit
  NonEmpty (some []) = ⊥
  NonEmpty (some (a ∷ rest)) = Unit

  put_before-NonEmpty :
      (a b : A) (rest : List A) (later : Option (List A)) (o : Option Bool)
      → NonEmpty (put_before cmp a b rest later o)
  put_before-NonEmpty a b rest later none = tt
  put_before-NonEmpty a b rest later (some true) = tt
  put_before-NonEmpty a b rest none (some false) = tt
  put_before-NonEmpty a b rest (some later) (some false) = tt

  insert_by-NonEmpty : (a : A) (xs : List A) → NonEmpty (insert_by cmp a xs)
  insert_by-NonEmpty a [] = tt
  insert_by-NonEmpty a (b ∷ rest) = put_before-NonEmpty a b rest (insert_by cmp a rest) (cmp a b)

  insert_into-NonEmpty : (a : A) (o : Option (List A)) → NonEmpty (insert_into cmp a o)
  insert_into-NonEmpty a none = tt
  insert_into-NonEmpty a (some xs) = insert_by-NonEmpty a xs

  insert_into-Odd : (a : A) (o : Option (List A)) → Odd a → NonEmpty o → insert_into cmp a o ≡ none
  insert_into-Odd a none odd n = refl
  insert_into-Odd a (some []) odd n = absurd n
  insert_into-Odd a (some (b ∷ rest)) odd n = rw (odd.0 b) refl

  -- With an element that cannot be compared, the sort of two elements or more panics.
  sort_by-Odd : (a b : A) (xs : List A) → HasOdd (a ∷ b ∷ xs) → sort_by cmp (a ∷ b ∷ xs) ≡ none
  sort_by-Odd a b xs (inl odd) =
      insert_into-Odd a (sort_by cmp (b ∷ xs)) odd (insert_into-NonEmpty b (sort_by cmp xs))
  sort_by-Odd a b [] (inr (inl odd)) = rw (odd.1 a) refl
  sort_by-Odd a b [] (inr (inr h)) = absurd h
  sort_by-Odd a b (c ∷ xs) (inr h) = rw (sort_by-Odd b c xs h) refl

module _ (v : Values) where
  abbrev pub HasNan : List (ColorKeypoint v.f32.Float) → Type 0
  HasNan [] = ⊥
  HasNan (k ∷ ks) = (v.f32.is_nan k.time ≡ true) ⊎ HasNan ks

  HasNan-HasOdd :
      (ks : List (ColorKeypoint v.f32.Float))
      → HasNan ks
      → HasOdd (order_of v.f32.partial_cmp (λ k. k.time)) ks
  HasNan-HasOdd [] h = h
  HasNan-HasOdd (k ∷ ks) (inl e) = inl (
    (λ b. v.f32.partial_cmp_nan k.time b.time e),
    (λ b. v.f32.partial_cmp_nan_right b.time k.time e),
  )
  HasNan-HasOdd (k ∷ ks) (inr h) = inr (HasNan-HasOdd ks h)

  -- Comparing two colour sequences of the same length panics where the first has two keypoints or more
  -- and the time of one is a NaN.
  pub variant_eq_panic :
      (j k : ColorKeypoint v.f32.Float) (ks other : List (ColorKeypoint v.f32.Float))
      → HasNan (j ∷ k ∷ ks)
      → (length (j ∷ k ∷ ks) == length other) ≡ true
      → variant_eq {v = v} (color_sequence (j ∷ k ∷ ks)) (color_sequence other) ≡ none
  unfolding variant_eq
  variant_eq_panic j k ks other h e =
      rw
        (
          e,
          sort_by-Odd (order_of v.f32.partial_cmp (λ p. p.time)) j k ks
              (HasNan-HasOdd (j ∷ k ∷ ks) h),
        )
        refl
