-- ===== src/RojoTree/Paths.antt =====
-- The loops over the path map and the steps on the ID map, as a reader of the maps sees them.
use roxo_mcp.Base.{
  ◌≡◌, Bool, true, false, ◌||◌, List, [], ◌∷◌, Option, none, some, ite, arith, if◌then◌else◌,
}
use roxo_mcp.Base.Text.{PathBuf, PathBuf_discrete, String_discrete}
use mathlib.Core.Logic.{if_pos, if_neg}
use roxo_mcp.MultiMap
use roxo_mcp.MultiMap.{MultiMap, contains}
use roxo_mcp.MultiMap.Laws.{IsValid, insert-IsValid, contains-insert, remove-Removed}
use roxo_mcp.RojoTree.Index.{
  RojoRef, insert_path, remove_path, insert_paths, remove_paths, insert_id, insert_id?, remove_id,
  update_paths, update_ids, paths_discrete,
}

-- The instance's ID is this one.
abbrev pub is_id : RojoRef → Option RojoRef → Bool
is_id s none = false
is_id s (some x) = ite (String_discrete x s) true false

module _ {Ref : Type 0} (dec : Discrete Ref) where
  -- The instance is among those of the path.
  abbrev pub at_path : PathBuf → Ref → MultiMap PathBuf Ref → Bool
  at_path p id m = contains dec id (MultiMap.get PathBuf_discrete dec p m)

  -- The instance is among those that claim the ID.
  abbrev pub at_id : RojoRef → Ref → MultiMap RojoRef Ref → Bool
  at_id s id m = contains dec id (MultiMap.get String_discrete dec s m)

  abbrev pub PathsValid : MultiMap PathBuf Ref → Type 0
  PathsValid m = IsValid PathBuf_discrete dec m

  abbrev pub IdsValid : MultiMap RojoRef Ref → Type 0
  IdsValid m = IsValid String_discrete dec m

  pub insert_paths_seen :
      (id w : Ref) (p : PathBuf) (ps : List PathBuf) (m : MultiMap PathBuf Ref)
      → at_path p w (insert_paths dec id ps m)
        ≡ ite (dec id w) (contains PathBuf_discrete p ps || at_path p w m) (at_path p w m)
  unfolding insert_paths contains
  insert_paths_seen id w p [] m = ground arith
  insert_paths_seen id w p (q ∷ ps) m = ground (
    arith,
    insert_paths_seen id w p ps (insert_path dec id q m),
    contains-insert PathBuf_discrete dec q p id w m,
  )

  pub insert_paths-IsValid :
      (id : Ref) (ps : List PathBuf) (m : MultiMap PathBuf Ref)
      → PathsValid m
      → PathsValid (insert_paths dec id ps m)
  unfolding insert_paths
  insert_paths-IsValid id [] m v = v
  insert_paths-IsValid id (q ∷ ps) m v =
      insert_paths-IsValid id ps (insert_path dec id q m)
        (insert-IsValid PathBuf_discrete dec q id m v)

  pub remove_paths-IsValid :
      (id : Ref) (ps : List PathBuf) (m : MultiMap PathBuf Ref)
      → PathsValid m
      → PathsValid (remove_paths dec id ps m)
  unfolding remove_paths
  remove_paths-IsValid id [] m v = v
  remove_paths-IsValid id (q ∷ ps) m v =
      remove_paths-IsValid id ps (remove_path dec id q m)
        (remove-Removed PathBuf_discrete dec q id m v).valid

  pub remove_paths_seen :
      (id w : Ref) (p : PathBuf) (ps : List PathBuf) (m : MultiMap PathBuf Ref)
      → PathsValid m
      → at_path p w (remove_paths dec id ps m)
        ≡ ite
            (dec id w)
            (if contains PathBuf_discrete p ps then false else at_path p w m)
            (at_path p w m)
  unfolding remove_paths contains
  remove_paths_seen id w p [] m v = ground arith
  remove_paths_seen id w p (q ∷ ps) m v = ground (
    arith,
    remove_paths_seen id w p ps (remove_path dec id q m)
        (remove-Removed PathBuf_discrete dec q id m v).valid,
    (remove-Removed PathBuf_discrete dec q id m v).seen p w,
  )

  -- An update of the paths of one instance.
  pub update_paths-IsValid :
      (id : Ref) (old new : List PathBuf) (m : MultiMap PathBuf Ref)
      → PathsValid m
      → PathsValid (update_paths dec id old new m)
  update_paths-IsValid id old new m v = elim (paths_discrete old new) [
    | yes p ↦ rw (if_pos _ p) v
    | no p ↦
        rw (if_neg _ p) (
          insert_paths-IsValid id new (remove_paths dec id old m) (remove_paths-IsValid id old m v))
  ]

  pub update_paths_seen :
      (id w : Ref) (p : PathBuf) (old new : List PathBuf) (m : MultiMap PathBuf Ref)
      → PathsValid m
      → at_path p id m ≡ contains PathBuf_discrete p old
      → at_path p w (update_paths dec id old new m)
        ≡ ite (dec id w) (contains PathBuf_discrete p new) (at_path p w m)
  update_paths_seen id w p old new m v e = elim (paths_discrete old new) [
    | yes same ↦ rw (if_pos _ same) (ground (arith, same))
    | no differ ↦ rw (if_neg _ differ) (
        ground (
          arith,
          insert_paths_seen id w p new (remove_paths dec id old m),
          remove_paths_seen id w p old m v,
        ))
  ]

  pub insert_id_seen :
      (id w : Ref) (s r : RojoRef) (m : MultiMap RojoRef Ref)
      → at_id s w (insert_id dec id r m)
        ≡ ite (dec id w) (is_id s (some r) || at_id s w m) (at_id s w m)
  insert_id_seen id w s r m = ground (arith, contains-insert String_discrete dec r s id w m)

  pub insert_id?-IsValid :
      (id : Ref) (new : Option RojoRef) (m : MultiMap RojoRef Ref)
      → IdsValid m
      → IdsValid (insert_id? dec id new m)
  insert_id?-IsValid id none m v = v
  insert_id?-IsValid id (some r) m v = insert-IsValid String_discrete dec r id m v

  pub insert_id?_seen :
      (id w : Ref) (s : RojoRef) (new : Option RojoRef) (m : MultiMap RojoRef Ref)
      → at_id s w (insert_id? dec id new m)
        ≡ ite (dec id w) (is_id s new || at_id s w m) (at_id s w m)
  insert_id?_seen id w s none m = ground arith
  insert_id?_seen id w s (some r) m = insert_id_seen id w s r m

  pub remove_id-IsValid :
      (id : Ref) (old : Option RojoRef) (m : MultiMap RojoRef Ref)
      → IdsValid m
      → IdsValid (remove_id dec id old m)
  remove_id-IsValid id none m v = v
  remove_id-IsValid id (some r) m v = (remove-Removed String_discrete dec r id m v).valid

  pub remove_id_seen :
      (id w : Ref) (s : RojoRef) (old : Option RojoRef) (m : MultiMap RojoRef Ref)
      → IdsValid m
      → at_id s w (remove_id dec id old m)
        ≡ ite (dec id w) (if is_id s old then false else at_id s w m) (at_id s w m)
  remove_id_seen id w s none m v = ground arith
  remove_id_seen id w s (some r) m v =
      ground (arith, (remove-Removed String_discrete dec r id m v).seen s w)

  pub update_ids-IsValid :
      (id : Ref) (old new : Option RojoRef) (m : MultiMap RojoRef Ref)
      → IdsValid m
      → IdsValid (update_ids dec id old new m)
  update_ids-IsValid id none none m v = v
  update_ids-IsValid id none (some r) m v = insert-IsValid String_discrete dec r id m v
  update_ids-IsValid id (some q) none m v = remove_id-IsValid id (some q) m v
  update_ids-IsValid id (some q) (some r) m v = elim (String_discrete q r) [
    | yes p ↦ rw (if_pos _ p) v
    | no p ↦ rw (if_neg _ p) (
        remove_id-IsValid id (some q) (insert_id dec id r m)
          (insert-IsValid String_discrete dec r id m v))
  ]

  pub update_ids_seen :
      (id w : Ref) (s : RojoRef) (old new : Option RojoRef) (m : MultiMap RojoRef Ref)
      → IdsValid m
      → at_id s id m ≡ is_id s old
      → at_id s w (update_ids dec id old new m) ≡ ite (dec id w) (is_id s new) (at_id s w m)
  update_ids_seen id w s none none m v e = ground arith
  update_ids_seen id w s none (some r) m v e = ground (arith, insert_id_seen id w s r m)
  update_ids_seen id w s (some q) none m v e = ground (arith, remove_id_seen id w s (some q) m v)
  update_ids_seen id w s (some q) (some r) m v e = elim (String_discrete q r) [
    | yes p ↦ rw (if_pos _ p) (ground (arith, p))
    | no p ↦ rw (if_neg _ p) (
        ground (
          arith,
          p,
          insert_id_seen id w s r m,
          remove_id_seen id w s (some q) (insert_id dec id r m)
              (insert-IsValid String_discrete dec r id m v),
        ))
  ]
