-- ===== src/Base/Equality.antt =====
-- Decidable equalities that run.
use mathlib.Core.Path.{◌≡◌, refl, ap, ap₂}
use mathlib.Core.Logic.{◌↔◌}
use mathlib.Core.Bool.{Bool, true, false}
use mathlib.Core.List.{List, [], ◌∷◌, head-eq_of_cons-eq, tail-eq_of_cons-eq}
use mathlib.Core.Option.{Option, none, some}

unfoldable pub decide_by : {P : Type 0} (b : Bool) → (b ≡ true) ↔ P → Dec P
decide_by true e = yes (e.0 refl)
decide_by false e = no (λ p. cc (e.1 p))

module _ {ℓ} {A : Type ℓ} where
  cons_decision : {x y : A} {xs ys : List A} → Dec (x ≡ y) → Dec (xs ≡ ys) → Dec (x ∷ xs ≡ y ∷ ys)
  cons_decision (yes p) (yes q) = yes (ap₂ ◌∷◌ p q)
  cons_decision (yes p) (no n) = no (λ e. n (tail-eq_of_cons-eq e))
  cons_decision (no n) q = no (λ e. n (head-eq_of_cons-eq e))

  unfoldable pub List_discrete : Discrete A → Discrete (List A)
  unfolding cons_decision
  List_discrete d [] [] = yes refl
  List_discrete d [] (y ∷ ys) = no (λ e. cc)
  List_discrete d (x ∷ xs) [] = no (λ e. cc)
  List_discrete d (x ∷ xs) (y ∷ ys) = cons_decision (d x y) (List_discrete d xs ys)

module _ {ℓ} {A : Type ℓ} where
  some_decision : {x y : A} → Dec (x ≡ y) → Dec (some x ≡ some y)
  some_decision (yes p) = yes (ap some p)
  some_decision (no n) = no (λ e. n (cc))

  unfoldable pub Option_discrete : Discrete A → Discrete (Option A)
  unfolding some_decision
  Option_discrete d none none = yes refl
  Option_discrete d none (some y) = no (λ e. cc)
  Option_discrete d (some x) none = no (λ e. cc)
  Option_discrete d (some x) (some y) = some_decision (d x y)

module _ {ℓ} {A B : Type ℓ} where
  pair_decision :
      {x y : A} {u v : B} → Dec (x ≡ y) → Dec (u ≡ v) → Dec (◌≡◌ {A = A × B} (x, u) (y, v))
  pair_decision (yes p) (yes q) = yes (λ i. (p i, q i))
  pair_decision (yes p) (no n) = no (λ e. n (ap (λ (r : A × B). r.1) e))
  pair_decision (no n) q = no (λ e. n (ap (λ (r : A × B). r.0) e))

  unfoldable pub pair_discrete : Discrete A → Discrete B → Discrete (A × B)
  unfolding pair_decision
  pair_discrete d e (x, u) (y, v) = pair_decision (d x y) (e u v)
