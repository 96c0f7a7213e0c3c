-- ===== src/Base/Dict.antt =====
-- Dictionaries as association lists over keys with a decidable equality: the model of `HashMap`.
-- The order of the entries stands for the unspecified order of iteration.
use Prim.Native.Nat.{◌+◌, ◌≤◌}
use mathlib.Core.Path.{◌≡◌, refl, subst}
use mathlib.Core.Logic.{◌≢◌, ite}
use mathlib.Core.Bool.{Bool}
use mathlib.Core.List.{List, [], ◌∷◌}
use mathlib.Core.Option.{Option, none, some}
use native.Mathlib.Omega.{arith}
use roxo_mcp.Base.Tests.{if◌then◌else◌}
use roxo_mcp.Base.Lists.{length}

module _ {ℓ} {K V : Type ℓ} where
  -- `retain`, by a test of the entry.
  abbrev pub retain : (K → V → Bool) → List (K × V) → List (K × V)
  retain p [] = []
  retain p ((j, v) ∷ m) = if p j v then (j, v) ∷ retain p m else retain p m

module _ {ℓ} {K V : Type ℓ} (dec : Discrete K) where
  unfoldable pub lookup : K → List (K × V) → Option V
  lookup k [] = none
  lookup k ((j, v) ∷ m) = ite (dec j k) (some v) (lookup k m)

  -- A value is replaced in place, and a new key goes to the end.
  unfoldable pub insert : K → V → List (K × V) → List (K × V)
  insert k v [] = (k, v) ∷ []
  insert k v ((j, w) ∷ m) = ite (dec j k) ((k, v) ∷ m) ((j, w) ∷ insert k v m)

  unfoldable pub remove : K → List (K × V) → List (K × V)
  remove k [] = []
  remove k ((j, w) ∷ m) = ite (dec j k) (remove k m) ((j, w) ∷ remove k m)

  -- No key twice.
  abbrev pub IsDistinct : List (K × V) → Type ℓ
  IsDistinct [] = Unit
  IsDistinct ((k, v) ∷ m) = (lookup k m ≡ none) × IsDistinct m

  pub lookup-insert :
      (k j : K) (v : V) (m : List (K × V))
      → lookup j (insert k v m) ≡ ite (dec k j) (some v) (lookup j m)
  unfolding lookup insert
  lookup-insert k j v [] = refl
  lookup-insert k j v ((i, w) ∷ m) = ground (arith, lookup-insert k j v m)

  pub lookup-remove :
      (k j : K) (m : List (K × V)) → lookup j (remove k m) ≡ ite (dec k j) none (lookup j m)
  unfolding lookup remove
  lookup-remove k j [] = ground arith
  lookup-remove k j ((i, w) ∷ m) = ground (arith, lookup-remove k j m)

  pub insert-IsDistinct :
      (k : K) (v : V) (m : List (K × V)) → IsDistinct m → IsDistinct (insert k v m)
  unfolding lookup insert
  insert-IsDistinct k v [] h = (refl, tt)
  insert-IsDistinct k v ((i, w) ∷ m) h =
      ground (arith, insert-IsDistinct k v m h.1, lookup-insert k i v m)

  pub remove-IsDistinct : (k : K) (m : List (K × V)) → IsDistinct m → IsDistinct (remove k m)
  unfolding remove
  remove-IsDistinct k [] h = tt
  remove-IsDistinct k ((i, w) ∷ m) h =
      ground (arith, remove-IsDistinct k m h.1, lookup-remove k i m)

  pub lookup-retain-none :
      (k : K) (p : K → V → Bool) (m : List (K × V))
      → lookup k m ≡ none
      → lookup k (retain p m) ≡ none
  unfolding lookup
  lookup-retain-none k p [] h = refl
  lookup-retain-none k p ((i, w) ∷ m) h = ground (arith, lookup-retain-none k p m)

  pub retain-IsDistinct :
      (p : K → V → Bool) (m : List (K × V)) → IsDistinct m → IsDistinct (retain p m)
  retain-IsDistinct p [] h = tt
  retain-IsDistinct p ((i, w) ∷ m) h =
      ground (arith, retain-IsDistinct p m h.1, lookup-retain-none i p m h.0)

  -- An entry stays exactly if it passes the test.
  pub lookup-retain-some :
      (k : K) (p : K → V → Bool) (m : List (K × V)) (v : V)
      → IsDistinct m
      → lookup k m ≡ some v
      → lookup k (retain p m) ≡ (if p k v then some v else none)
  unfolding lookup
  lookup-retain-some k p [] v h e = ground arith
  lookup-retain-some k p ((i, w) ∷ m) v h e =
      ground (arith, lookup-retain-some k p m v h.1, lookup-retain-none k p m)

  pub length-insert_new :
      (k : K) (v : V) (m : List (K × V)) → lookup k m ≡ none → length (insert k v m) ≡ length m + 1
  unfolding lookup insert
  length-insert_new k v [] h = omega arith
  length-insert_new k v ((i, w) ∷ m) h = ground (arith, length-insert_new k v m)

  pub length-insert_old :
      (k : K) (v : V) (m : List (K × V)) → lookup k m ≢ none → length (insert k v m) ≡ length m
  unfolding lookup insert
  length-insert_old k v [] h = absurd (h refl)
  length-insert_old k v ((i, w) ∷ m) h = ground (arith, length-insert_old k v m)

  pub remove-absent : (k : K) (m : List (K × V)) → lookup k m ≡ none → remove k m ≡ m
  unfolding lookup remove
  remove-absent k [] h = refl
  remove-absent k ((i, w) ∷ m) h = ground (arith, remove-absent k m)

  pub remove-insert : (k : K) (v : V) (m : List (K × V)) → remove k (insert k v m) ≡ remove k m
  unfolding insert remove
  remove-insert k v [] = ground arith
  remove-insert k v ((i, w) ∷ m) = ground (arith, remove-insert k v m)

  pub length-remove-le : (k : K) (m : List (K × V)) → length (remove k m) ≤ length m
  unfolding remove
  length-remove-le k [] = omega arith
  length-remove-le k ((i, w) ∷ m) = ground (arith, length-remove-le k m)

  pub length-remove_lt :
      (k : K) (m : List (K × V)) → lookup k m ≢ none → length (remove k m) + 1 ≤ length m
  unfolding lookup remove
  length-remove_lt k [] h = absurd (h refl)
  length-remove_lt k ((i, w) ∷ m) h = ground (arith, length-remove_lt k m, length-remove-le k m)

  pub length-retain-le : (p : K → V → Bool) (m : List (K × V)) → length (retain p m) ≤ length m
  length-retain-le p [] = omega arith
  length-retain-le p ((i, w) ∷ m) = ground (arith, length-retain-le p m)

module _ {ℓ κ} {K V : Type ℓ} where
  -- Every value has the property.
  abbrev pub AllValues : (V → Type κ) → List (K × V) → Type κ
  AllValues P [] = Unit
  AllValues P ((k, v) ∷ m) = P v × AllValues P m

module _ {ℓ κ} {K V : Type ℓ} (dec : Discrete K) (P : V → Type κ) where
  pub lookup-AllValues :
      (k : K) (m : List (K × V)) (v : V) → lookup dec k m ≡ some v → AllValues P m → P v
  unfolding lookup
  lookup-AllValues k [] v e h = cc
  lookup-AllValues k ((i, w) ∷ m) v e h = elim (dec i k) [
    | yes p ↦ let same : w ≡ v = ground arith in subst P same h.0
    | no p ↦ lookup-AllValues k m v (ground arith) h.1
  ]

  pub insert-AllValues :
      (k : K) (v : V) (m : List (K × V)) → P v → AllValues P m → AllValues P (insert dec k v m)
  unfolding insert
  insert-AllValues k v [] p h = (p, tt)
  insert-AllValues k v ((i, w) ∷ m) p h = ground (arith, insert-AllValues k v m p h.1)

  pub remove-AllValues : (k : K) (m : List (K × V)) → AllValues P m → AllValues P (remove dec k m)
  unfolding remove
  remove-AllValues k [] h = tt
  remove-AllValues k ((i, w) ∷ m) h = ground (arith, remove-AllValues k m h.1)

  pub retain-AllValues :
      (p : K → V → Bool) (m : List (K × V)) → AllValues P m → AllValues P (retain p m)
  retain-AllValues p [] h = tt
  retain-AllValues p ((i, w) ∷ m) h = ground (arith, retain-AllValues p m h.1)
