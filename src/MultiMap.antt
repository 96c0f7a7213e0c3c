-- ===== src/MultiMap.antt =====
-- multimap.rs: a map from keys to buckets of values. The hash map inside is a dictionary.
pub mod Bucket
pub mod Laws
mod Tests
use roxo_mcp.Base.{
  ℕ, ◌≡◌, refl, ◌≢◌, Bool, true, false, List, [], ◌∷◌, ◌++◌, Option, none, some, if◌then◌else◌,
}
use roxo_mcp.Base.Dict.{lookup, insert as insert_entry, remove as remove_entry}
use mathlib.Core.Option.{get_or}
use Bucket.{position, swap_remove}
unfoldable pub use Bucket.{contains, Unique}

abbrev pub MultiMap {ℓ} : Type ℓ → Type ℓ → Type ℓ
MultiMap K V = List (K × List V)

module _ {ℓ} {K V : Type ℓ} (deck : Discrete K) (decv : Discrete V) where
  -- The slice of a key: empty where there is no bucket.
  unfoldable pub get : K → MultiMap K V → List V
  get k m = get_or (lookup deck k m) []

  unfoldable pub insert : K → V → MultiMap K V → MultiMap K V
  unfolding get
  insert k v m =
      let bucket = get k m in
      insert_entry deck k (if contains decv v bucket then bucket else bucket ++ v ∷ []) m

  -- The bucket goes back, or goes away if nothing is left in it.
  abbrev pub settle : K → List V → MultiMap K V → MultiMap K V
  settle k [] m = remove_entry deck k m
  settle k (x ∷ xs) m = insert_entry deck k (x ∷ xs) m

  -- The last case is the panic of `swap_remove`, which `position` rules out.
  abbrev take_out : K → List V → Option (V × List V) → MultiMap K V → MultiMap K V × Option V
  take_out k bucket (some (x, rest)) m = (settle k rest m, some x)
  take_out k bucket none m = (m, none)

  abbrev remove_at : K → List V → Option ℕ → MultiMap K V → MultiMap K V × Option V
  remove_at k bucket none m = (settle k bucket m, none)
  remove_at k bucket (some i) m = take_out k bucket (swap_remove bucket i) m

  abbrev remove_from : K → V → Option (List V) → MultiMap K V → MultiMap K V × Option V
  remove_from k v none m = (m, none)
  remove_from k v (some bucket) m = remove_at k bucket (position decv v bucket) m

  unfoldable pub remove : K → V → MultiMap K V → MultiMap K V × Option V
  remove k v m = remove_from k v (lookup deck k m) m
