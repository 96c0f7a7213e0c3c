-- ===== src/Base/Sort.antt =====
-- `sort_by` and its like: a stable sort by an order test.
use mathlib.Core.List.Perm
use roxo_mcp.Base.Tests.{if◌then◌else◌, Bool-cases}
use roxo_mcp.Base.Lists.{All}
use mathlib.Core.Path.{◌≡◌}
use mathlib.Core.Logic.{inl, inr}
use mathlib.Core.Bool.{Bool, true, false}
use mathlib.Core.List.{List, [], ◌∷◌, Perm}
use native.Mathlib.Omega.{arith}

module _ {ℓ} {A : Type ℓ} (le : A → A → Bool) where
  unfoldable pub insert_sorted : A → List A → List A
  insert_sorted x [] = x ∷ []
  insert_sorted x (y ∷ ys) = if le x y then x ∷ y ∷ ys else y ∷ insert_sorted x ys

  unfoldable pub sort_by : List A → List A
  unfolding insert_sorted
  sort_by [] = []
  sort_by (x ∷ xs) = insert_sorted x (sort_by xs)

  insert_sorted-perm : (x : A) (xs : List A) → Perm (insert_sorted x xs) (x ∷ xs)
  unfolding insert_sorted
  insert_sorted-perm x [] = Perm.refl (x ∷ [])
  insert_sorted-perm x (y ∷ ys) = elim (Bool-cases (le x y)) [
    | inl e ↦ rw e (Perm.refl (x ∷ y ∷ ys))
    | inr e ↦ rw e (Perm.trans (Perm.cons y (insert_sorted-perm x ys)) (Perm.swap x y ys))
  ]

  -- The sort loses nothing and makes nothing up.
  pub sort_by-perm : (xs : List A) → Perm (sort_by xs) xs
  unfolding sort_by
  sort_by-perm [] = Perm.refl []
  sort_by-perm (x ∷ xs) =
      Perm.trans (insert_sorted-perm x (sort_by xs)) (Perm.cons x (sort_by-perm xs))

  insert_sorted-All {κ} :
      (P : A → Type κ) (x : A) (xs : List A) → P x → All P xs → All P (insert_sorted x xs)
  unfolding insert_sorted
  insert_sorted-All P x [] p h = (p, tt)
  insert_sorted-All P x (y ∷ ys) p h = ground (arith, insert_sorted-All P x ys p h.1)

  -- Each element comes before all later ones.
  abbrev pub IsSorted : List A → Type ℓ
  IsSorted [] = Unit
  IsSorted (x ∷ xs) = All (λ y. le x y ≡ true) xs × IsSorted xs

module _ {ℓ} {A : Type ℓ} (le : A → A → Bool) where
  abbrev pub IsTotal : Type ℓ
  IsTotal = (x y : A) → le x y ≡ false → le y x ≡ true

  abbrev pub IsTransitive : Type ℓ
  IsTransitive = (x y z : A) → le x y ≡ true → le y z ≡ true → le x z ≡ true

  All-trans :
      (x y : A) (ys : List A)
      → IsTransitive
      → le x y ≡ true
      → All (λ z. le y z ≡ true) ys
      → All (λ z. le x z ≡ true) ys
  All-trans x y [] t e h = tt
  All-trans x y (z ∷ zs) t e h = (t x y z e h.0, All-trans x y zs t e h.1)

  insert_sorted-IsSorted :
      (x : A) (xs : List A)
      → IsTotal
      → IsTransitive
      → IsSorted le xs
      → IsSorted le (insert_sorted le x xs)
  unfolding insert_sorted
  insert_sorted-IsSorted x [] o t h = (tt, tt)
  insert_sorted-IsSorted x (y ∷ ys) o t h = elim (Bool-cases (le x y)) [
    | inl e ↦ rw e ((e, All-trans x y ys t e h.0), h)
    | inr e ↦ rw e (
      insert_sorted-All le (λ z. le y z ≡ true) x ys (o x y e) h.0,
      insert_sorted-IsSorted x ys o t h.1,
    )
  ]

  pub sort_by-IsSorted : (xs : List A) → IsTotal → IsTransitive → IsSorted le (sort_by le xs)
  unfolding sort_by
  sort_by-IsSorted [] o t = tt
  sort_by-IsSorted (x ∷ xs) o t =
      insert_sorted-IsSorted x (sort_by le xs) o t (sort_by-IsSorted xs o t)
