-- ===== src/VariantEq/Tags.antt =====
-- Tags are compared as bags: the order in which they are stored does not count.
use Prim.Native.String.{String}
use roxo_mcp.Base.{
  suc, Bool, true, List, [], ◌∷◌, ◌≡◌, ◌↔◌, refl, sym, ap, ◌∙◌, subst, arith, length, ◌==◌,
  Bool-cases, inl, inr,
}
use mathlib.Core.Path.{ap₂}
use mathlib.Core.Logic.{∥∥₁_elim}
use mathlib.Core.Bool.{Bool-set}
use mathlib.Core.List.{Perm}
use mathlib.Core.List.Perm
use mathlib.Core.List.{Permᴰ}
use roxo_mcp.Base.Sort.{insert_sorted, sort_by, sort_by-perm, IsTotal, IsTransitive}
use roxo_mcp.Patch.Compute.{same_text}
use roxo_mcp.VariantEq.Equal.{zip_all, tags_eq}

module _ {A : Type 0} (le : A → A → Bool) where
  -- An order: two elements that are each at most the other are one.
  pub record IsOrder : Type 0 where
    pub total : IsTotal le
    pub transitive : IsTransitive le
    pub antisymmetric : (x y : A) → le x y ≡ true → le y x ≡ true → x ≡ y

  insert_comm :
      (x y : A) (zs : List A)
      → IsOrder
      → insert_sorted le x (insert_sorted le y zs) ≡ insert_sorted le y (insert_sorted le x zs)
  unfolding insert_sorted
  insert_comm x y [] o = ground (arith, o.total x y, o.antisymmetric x y)
  insert_comm x y (z ∷ zs) o = ground (
    arith,
    insert_comm x y zs o,
    o.total x y,
    o.total x z,
    o.total y z,
    o.antisymmetric x y,
    o.transitive x y z,
    o.transitive y x z,
  )

  sort_by_same : (xs ys : List A) → IsOrder → Permᴰ xs ys → sort_by le xs ≡ sort_by le ys
  unfolding sort_by
  sort_by_same xs ys o Permᴰ.nil = refl
  sort_by_same xs ys o (Permᴰ.cons {l₁ = l₁} {l₂ = l₂} e d) =
      ap₂ (insert_sorted le) e (sort_by_same l₁ l₂ o d)
  sort_by_same xs ys o (Permᴰ.swap {a = a} {b = b} {l = l} e f) =
      insert_comm a b (sort_by le l) o
      ∙ ap₂ (λ p q. insert_sorted le p (insert_sorted le q (sort_by le l))) f e
  sort_by_same xs ys o (Permᴰ.trans {l₂ = zs} d e) = sort_by_same xs zs o d ∙ sort_by_same zs ys o e

length_same : {A : Type 0} {xs ys : List A} → Permᴰ xs ys → length xs ≡ length ys
length_same Permᴰ.nil = refl
length_same (Permᴰ.cons e d) = ap suc (length_same d)
length_same (Permᴰ.swap e f) = refl
length_same (Permᴰ.trans d e) = length_same d ∙ length_same e

length-insert_sorted :
    {A : Type 0} (le : A → A → Bool) (x : A) (xs : List A)
    → length (insert_sorted le x xs) ≡ suc (length xs)
unfolding insert_sorted
length-insert_sorted le x [] = refl
length-insert_sorted le x (y ∷ ys) = ground (arith, length-insert_sorted le x ys)

length-sort_by : {A : Type 0} (le : A → A → Bool) (xs : List A) → length (sort_by le xs) ≡ length xs
unfolding sort_by
length-sort_by le [] = refl
length-sort_by le (x ∷ xs) =
    length-insert_sorted le x (sort_by le xs) ∙ ap suc (length-sort_by le xs)

zip_all_texts :
    (xs ys : List String) → length xs ≡ length ys → zip_all same_text xs ys ≡ true → xs ≡ ys
zip_all_texts [] [] e h = refl
zip_all_texts [] (y ∷ ys) e h = absurd (omega arith)
zip_all_texts (x ∷ xs) [] e h = absurd (omega arith)
zip_all_texts (x ∷ xs) (y ∷ ys) e h = ground (arith, zip_all_texts xs ys)

same_texts : (xs : List String) → zip_all same_text xs xs ≡ true
same_texts [] = refl
same_texts (x ∷ xs) = ground (arith, same_texts xs)

tags_eq-Perm :
    (le : String → String → Bool) (xs ys : List String) → tags_eq le xs ys ≡ true → Perm xs ys
unfolding tags_eq
tags_eq-Perm le xs ys h = elim (Bool-cases (length xs == length ys)) [
  | inr e ↦ absurd (ground (arith, e, h))
  | inl e ↦
      let sorted : sort_by le xs ≡ sort_by le ys =
        zip_all_texts (sort_by le xs) (sort_by le ys)
          (length-sort_by le xs ∙ ground (arith, e) ∙ sym (length-sort_by le ys))
          (ground (arith, e, h)) in
      Perm.trans (Perm.symm (sort_by-perm le xs))
        (subst (λ zs. Perm zs ys) (sym sorted) (sort_by-perm le ys))
]

Perm-tags_eq :
    (le : String → String → Bool) (xs ys : List String)
    → IsOrder le
    → Permᴰ xs ys
    → tags_eq le xs ys ≡ true
unfolding tags_eq
Perm-tags_eq le xs ys o d =
    rw (sort_by_same le xs ys o d, length_same d) (ground (arith, same_texts (sort_by le ys)))

-- Two lists of tags are equal exactly if one is a permutation of the other, where tags are sorted
-- by an order.
pub tags_eq_iff :
    (le : String → String → Bool) (xs ys : List String)
    → IsOrder le
    → (tags_eq le xs ys ≡ true) ↔ Perm xs ys
tags_eq_iff le xs ys o = (
  tags_eq-Perm le xs ys,
  λ p. ∥∥₁_elim p (Bool-set (tags_eq le xs ys) true) (Perm-tags_eq le xs ys o),
)
