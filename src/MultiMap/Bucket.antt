-- ===== src/MultiMap/Bucket.antt =====
-- The buckets of multimap.rs: vectors without duplicates, and `Vec::swap_remove`.
use roxo_mcp.Base.{
  ℕ, zero, suc, ◌≡◌, refl, Bool, true, false, List, [], ◌∷◌, ◌++◌, ap, Option, none, some, ite,
  arith, subst, inl, inr, Option-cases,
}
use mathlib.Core.Logic.{if_pos}
use mathlib.Core.Option

module _ {ℓ} {A : Type ℓ} where
  -- The last element of `x ∷ xs`, and those before it.
  pub split_last : A → List A → A × List A
  split_last x [] = (x, [])
  split_last x (y ∷ ys) = let (last, before) = split_last y ys in (last, x ∷ before)

  pub last_first : List A → List A
  unfolding split_last
  last_first [] = []
  last_first (y ∷ ys) = let (last, before) = split_last y ys in last ∷ before

  -- `Vec::swap_remove`: the last element takes the place of the one removed. `none` is the panic at
  -- an index out of range.
  unfoldable pub swap_remove : List A → ℕ → Option (A × List A)
  unfolding last_first
  swap_remove [] i = none
  swap_remove (x ∷ xs) zero = some (x, last_first xs)
  swap_remove (x ∷ xs) (suc i) = elim (swap_remove xs i) [
    | none ↦ none
    | some (y, rest) ↦ some (y, x ∷ rest)
  ]

module _ {ℓ} {A : Type ℓ} (dec : Discrete A) where
  -- The scan of a bucket for an equal value.
  unfoldable pub contains : A → List A → Bool
  contains v [] = false
  contains v (x ∷ xs) = ite (dec x v) true (contains v xs)

  -- `iter().position(..)`: the first index of a value.
  unfoldable pub position : A → List A → Option ℕ
  position v [] = none
  position v (x ∷ xs) = ite (dec x v) (some 0) (Option.map suc (position v xs))

  -- No value twice.
  abbrev pub Unique : List A → Type 0
  Unique [] = Unit
  Unique (x ∷ xs) = (contains x xs ≡ false) × Unique xs

  contains-split_last :
      (w x : A) (xs : List A)
      → let (last, before) = split_last x xs in
        ite (dec last w) true (contains w before) ≡ contains w (x ∷ xs)
  unfolding split_last contains
  contains-split_last w x [] = refl
  contains-split_last w x (y ∷ ys) = ground (arith, contains-split_last w y ys)

  split_last-Unique :
      (x : A) (xs : List A)
      → Unique (x ∷ xs)
      → let (last, before) = split_last x xs in Unique (last ∷ before)
  unfolding split_last contains
  split_last-Unique x [] h = h
  split_last-Unique x (y ∷ ys) h = ground (
    arith,
    split_last-Unique y ys h.1,
    contains-split_last x y ys,
    contains-split_last (split_last y ys).0 y ys,
  )

  contains-last_first : (w : A) (xs : List A) → contains w (last_first xs) ≡ contains w xs
  unfolding last_first
  contains-last_first w [] = refl
  contains-last_first w (x ∷ xs) = unfold contains in contains-split_last w x xs

  last_first-Unique : (xs : List A) → Unique xs → Unique (last_first xs)
  unfolding last_first
  last_first-Unique [] h = tt
  last_first-Unique (x ∷ xs) h = split_last-Unique x xs h

  pub position-none : (v : A) (xs : List A) → position v xs ≡ none → contains v xs ≡ false
  unfolding position contains
  position-none v [] e = refl
  position-none v (x ∷ xs) e = ground (arith, position-none v xs)

  -- A bucket without a value, and how the others moved: the last one takes its place.
  pub data Swapped (v : A) (xs rest : List A) : Type ℓ where
    absent : contains v xs ≡ false → rest ≡ xs → Swapped v xs rest
    at_end : (before : List A) → xs ≡ before ++ v ∷ [] → rest ≡ before → Swapped v xs rest
    moved :
        (before between : List A) (last : A)
        → xs ≡ before ++ v ∷ (between ++ last ∷ [])
        → rest ≡ before ++ last ∷ between
        → Swapped v xs rest

  split_last-append :
      (x : A) (xs : List A) → let (last, before) = split_last x xs in x ∷ xs ≡ before ++ last ∷ []
  unfolding split_last
  split_last-append x [] = refl
  split_last-append x (y ∷ ys) = ap (λ zs. x ∷ zs) (split_last-append y ys)

  first-Swapped : (x : A) (xs : List A) → Swapped x (x ∷ xs) (last_first xs)
  unfolding last_first
  first-Swapped x [] = at_end [] refl refl
  first-Swapped x (y ∷ ys) =
      moved [] (split_last y ys).1 (split_last y ys).0 (ap (λ zs. x ∷ zs) (split_last-append y ys))
        refl

  later-Swapped :
      (v x : A) (xs rest : List A)
      → contains v xs ≡ true
      → Swapped v xs rest
      → Swapped v (x ∷ xs) (x ∷ rest)
  later-Swapped v x xs rest here (absent e f) = absurd cc
  later-Swapped v x xs rest here (at_end before e f) =
      at_end (x ∷ before) (ap (λ zs. x ∷ zs) e) (ap (λ zs. x ∷ zs) f)
  later-Swapped v x xs rest here (moved before between last e f) =
      moved (x ∷ before) between last (ap (λ zs. x ∷ zs) e) (ap (λ zs. x ∷ zs) f)

  -- The removal at an index takes out that value, and nothing else.
  abbrev pub Removes : A → List A → ℕ → Type ℓ
  Removes v xs i =
      (rest : List A) × (swap_remove xs i ≡ some (v, rest))
      × Unique rest
      × (contains v xs ≡ true)
      × Swapped v xs rest
      × ((w : A) → contains w rest ≡ ite (dec v w) false (contains w xs))

  first-Removes : (x : A) (xs : List A) → Unique (x ∷ xs) → Removes x (x ∷ xs) 0
  unfolding swap_remove contains
  first-Removes x xs h = (
    last_first xs,
    refl,
    last_first-Unique xs h.1,
    if_pos (dec x x) refl true (contains x xs),
    first-Swapped x xs,
    λ w. ground (arith, contains-last_first w xs),
  )

  later-Removes :
      (v x : A) (xs : List A) (i : ℕ)
      → ¬ (x ≡ v)
      → contains x xs ≡ false
      → Removes v xs i
      → Removes v (x ∷ xs) (suc i)
  unfolding swap_remove contains
  later-Removes v x xs i differ fresh (rest, e, u, found, swapped, others) = (
    x ∷ rest,
    rw e refl,
    (ground (arith, others x), u),
    ground arith,
    later-Swapped v x xs rest found swapped,
    λ w. ground (arith, others w),
  )

  -- Removing at the position of a value never panics, and takes out that value alone.
  pub position-Removes :
      (v : A) (xs : List A) (i : ℕ) → Unique xs → position v xs ≡ some i → Removes v xs i
  unfolding position
  position-Removes v [] i h e = cc
  position-Removes v (x ∷ xs) i h e = elim (dec x v) [
    | yes p ↦
        let e' : 0 ≡ i = ground arith in
        subst (Removes v (x ∷ xs)) e' (subst (λ u. Removes u (x ∷ xs) 0) p (first-Removes x xs h))
    | no p ↦ elim (Option-cases (position v xs)) [
      | inl missing ↦ absurd (ground arith)
      | inr (j, found) ↦
          let e' : suc j ≡ i = ground arith in
          subst (Removes v (x ∷ xs)) e'
            (later-Removes v x xs j p h.0 (position-Removes v xs j h.1 found))
    ]
  ]
