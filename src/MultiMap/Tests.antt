-- ===== src/MultiMap/Tests.antt =====
-- multimap.rs on a map with two keys.
use roxo_mcp.Base.{ℕ, ◌≡◌, refl, [], ◌∷◌, some, ℕ_discrete}
use roxo_mcp.Base.Dict.{lookup, insert as insert_entry, remove as remove_entry}
use roxo_mcp.MultiMap.{MultiMap, get, insert, remove, contains}
use roxo_mcp.MultiMap.Bucket.{position, swap_remove}
use roxo_mcp.MultiMap.Laws
use roxo_mcp.MultiMap.Laws.{IsValid, Removed}

abbrev map : MultiMap ℕ ℕ
map = (1, 10 ∷ 11 ∷ 12 ∷ []) ∷ (2, 20 ∷ []) ∷ []

program : Unit {0}
unfolding get insert remove contains position swap_remove lookup insert_entry remove_entry
    ℕ_discrete
program = tt

-- The last value takes the place of the removed one.
remove_swaps :
    remove ℕ_discrete ℕ_discrete 1 10 map ≡ ((1, 12 ∷ 11 ∷ []) ∷ (2, 20 ∷ []) ∷ [], some 10)
unfolding program
remove_swaps = refl

-- A bucket that becomes empty goes away.
remove_last : remove ℕ_discrete ℕ_discrete 2 20 map ≡ ((1, 10 ∷ 11 ∷ 12 ∷ []) ∷ [], some 20)
unfolding program
remove_last = refl

insert_twice : insert ℕ_discrete ℕ_discrete 1 11 map ≡ map
unfolding program
insert_twice = refl

map-IsValid : IsValid ℕ_discrete ℕ_discrete map
unfolding program
map-IsValid = record {
  distinct = (refl, (refl, tt));
  buckets = (((λ e. cc), (refl, (refl, (refl, tt)))), (((λ e. cc), (refl, tt)), tt));
}

remove-Removed_example :
    Removed ℕ_discrete ℕ_discrete 1 10 map (remove ℕ_discrete ℕ_discrete 1 10 map)
remove-Removed_example = Laws.remove-Removed ℕ_discrete ℕ_discrete 1 10 map map-IsValid
