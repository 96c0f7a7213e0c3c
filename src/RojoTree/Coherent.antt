-- ===== src/RojoTree/Coherent.antt =====
-- The invariant of the three maps: the path map and the ID map say exactly what the metadata says.
use roxo_mcp.Base.{◌≡◌, refl, ap, Bool, false, Option, none, some, arith}
use roxo_mcp.Base.Dict.{
  lookup, insert as insert_entry, remove as remove_entry, IsDistinct, lookup-insert, lookup-remove,
  insert-IsDistinct, remove-IsDistinct,
}
use roxo_mcp.Base.Text.{PathBuf, PathBuf_discrete, String_discrete}
use roxo_mcp.MultiMap.{contains}
use roxo_mcp.MultiMap.Laws.{insert-IsValid}
use roxo_mcp.RojoTree.Index.{
  RojoRef, InstanceMetadata, Index, insert_paths, remove_paths, insert_id, insert_id?,
  set_specified_id?, remove_id, set_specified_id, insert_metadata, remove_metadata, update_metadata,
  update_paths, update_ids,
}
use roxo_mcp.RojoTree.Paths.{
  is_id, at_path, at_id, PathsValid, IdsValid, insert_paths_seen, insert_paths-IsValid,
  remove_paths_seen, remove_paths-IsValid, update_paths_seen, update_paths-IsValid, insert_id_seen,
  insert_id?_seen, insert_id?-IsValid, remove_id_seen, remove_id-IsValid, update_ids_seen,
  update_ids-IsValid,
}

module _ {Rest : Type 0} where
  -- The metadata of an instance names the path among its relevant ones.
  abbrev pub names_path : PathBuf → Option (InstanceMetadata Rest) → Bool
  names_path p none = false
  names_path p (some md) = contains PathBuf_discrete p md.relevant_paths

  -- The metadata of an instance claims the ID.
  abbrev pub claims_id : RojoRef → Option (InstanceMetadata Rest) → Bool
  claims_id s none = false
  claims_id s (some md) = is_id s md.specified_id

module _ {Ref Rest : Type 0} (dec : Discrete Ref) where
  pub record Coherent (t : Index Ref Rest) : Type 0 where
    pub distinct : IsDistinct dec t.metadata_map
    pub paths_valid : PathsValid dec t.path_to_ids
    pub ids_valid : IdsValid dec t.specified_id_to_refs
    pub paths :
        (p : PathBuf) (id : Ref)
        → at_path dec p id t.path_to_ids ≡ names_path p (lookup dec id t.metadata_map)
    pub ids :
        (s : RojoRef) (id : Ref)
        → at_id dec s id t.specified_id_to_refs ≡ claims_id s (lookup dec id t.metadata_map)

  inserted : Ref → InstanceMetadata Rest → Index Ref Rest → Index Ref Rest
  inserted id md t = record {
    metadata_map = insert_entry dec id md t.metadata_map;
    path_to_ids = insert_paths dec id md.relevant_paths t.path_to_ids;
    specified_id_to_refs = insert_id? dec id md.specified_id t.specified_id_to_refs;
  }

  set_specified_id?_fresh :
      (id : Ref) (s : Option RojoRef) (t : Index Ref Rest)
      → lookup dec id t.metadata_map ≡ none
      → set_specified_id? dec id s t
        ≡ record t { specified_id_to_refs = insert_id? dec id s t.specified_id_to_refs }
  unfolding set_specified_id
  set_specified_id?_fresh id none t e = refl
  set_specified_id?_fresh id (some s) t e = rw (e, set_specified_id)

  insert_metadata_fresh :
      (id : Ref) (md : InstanceMetadata Rest) (t : Index Ref Rest)
      → lookup dec id t.metadata_map ≡ none
      → insert_metadata dec id md t ≡ inserted id md t
  unfolding insert_metadata inserted
  insert_metadata_fresh id md t e =
      ap
        (λ (u : Index Ref Rest).
          let r : Index Ref Rest = record u {
            metadata_map = insert_entry dec id md u.metadata_map;
          } in
          r)
        (set_specified_id?_fresh id md.specified_id
          (record t { path_to_ids = insert_paths dec id md.relevant_paths t.path_to_ids }) e)

  inserted-Coherent :
      (id : Ref) (md : InstanceMetadata Rest) (t : Index Ref Rest)
      → Coherent t
      → lookup dec id t.metadata_map ≡ none
      → Coherent (inserted id md t)
  unfolding inserted
  inserted-Coherent id md t c e = record {
    distinct = insert-IsDistinct dec id md t.metadata_map c.distinct;
    paths_valid = insert_paths-IsValid dec id md.relevant_paths t.path_to_ids c.paths_valid;
    ids_valid = insert_id?-IsValid dec id md.specified_id t.specified_id_to_refs c.ids_valid;
    paths = λ p w. ground (
      arith,
      c.paths p w,
      c.paths p id,
      lookup-insert dec id w md t.metadata_map,
      insert_paths_seen dec id w p md.relevant_paths t.path_to_ids,
    );
    ids = λ s w. ground (
      arith,
      c.ids s w,
      c.ids s id,
      lookup-insert dec id w md t.metadata_map,
      insert_id?_seen dec id w s md.specified_id t.specified_id_to_refs,
    );
  }

  -- The metadata of an instance that had none goes into all three maps.
  pub insert_metadata-Coherent :
      (id : Ref) (md : InstanceMetadata Rest) (t : Index Ref Rest)
      → Coherent t
      → lookup dec id t.metadata_map ≡ none
      → Coherent (insert_metadata dec id md t)
  insert_metadata-Coherent id md t c e =
      rw (insert_metadata_fresh id md t e) (inserted-Coherent id md t c e)

  pub metadata_map-insert :
      (id : Ref) (md : InstanceMetadata Rest) (t : Index Ref Rest)
      → lookup dec id t.metadata_map ≡ none
      → (insert_metadata dec id md t).metadata_map ≡ insert_entry dec id md t.metadata_map
  unfolding inserted
  metadata_map-insert id md t e = rw (insert_metadata_fresh id md t e)

  removed : Ref → InstanceMetadata Rest → Index Ref Rest → Index Ref Rest
  removed id md t = record {
    metadata_map = remove_entry dec id t.metadata_map;
    path_to_ids = remove_paths dec id md.relevant_paths t.path_to_ids;
    specified_id_to_refs = remove_id dec id md.specified_id t.specified_id_to_refs;
  }

  removed-Coherent :
      (id : Ref) (md : InstanceMetadata Rest) (t : Index Ref Rest)
      → Coherent t
      → lookup dec id t.metadata_map ≡ some md
      → Coherent (removed id md t)
  unfolding removed
  removed-Coherent id md t c e = record {
    distinct = remove-IsDistinct dec id t.metadata_map c.distinct;
    paths_valid = remove_paths-IsValid dec id md.relevant_paths t.path_to_ids c.paths_valid;
    ids_valid = remove_id-IsValid dec id md.specified_id t.specified_id_to_refs c.ids_valid;
    paths = λ p w. ground (
      arith,
      c.paths p w,
      c.paths p id,
      lookup-remove dec id w t.metadata_map,
      remove_paths_seen dec id w p md.relevant_paths t.path_to_ids c.paths_valid,
    );
    ids = λ s w. ground (
      arith,
      c.ids s w,
      c.ids s id,
      lookup-remove dec id w t.metadata_map,
      remove_id_seen dec id w s md.specified_id t.specified_id_to_refs c.ids_valid,
    );
  }

  -- The metadata of an instance that has some goes out of all three maps, without a panic.
  pub remove_metadata-Coherent :
      (id : Ref) (md : InstanceMetadata Rest) (t : Index Ref Rest)
      → Coherent t
      → lookup dec id t.metadata_map ≡ some md
      → (u : Index Ref Rest) × (remove_metadata dec id t ≡ some u)
        × Coherent u
        × (u.metadata_map ≡ remove_entry dec id t.metadata_map)
  unfolding remove_metadata removed
  remove_metadata-Coherent id md t c e =
      (removed id md t, rw (e, remove_metadata), removed-Coherent id md t c e, refl)

  updated : Ref → InstanceMetadata Rest → InstanceMetadata Rest → Index Ref Rest → Index Ref Rest
  updated id existing md t = record {
    metadata_map = insert_entry dec id md t.metadata_map;
    path_to_ids = update_paths dec id existing.relevant_paths md.relevant_paths t.path_to_ids;
    specified_id_to_refs =
        update_ids dec id existing.specified_id md.specified_id t.specified_id_to_refs;
  }

  updated-Coherent :
      (id : Ref) (existing md : InstanceMetadata Rest) (t : Index Ref Rest)
      → Coherent t
      → lookup dec id t.metadata_map ≡ some existing
      → Coherent (updated id existing md t)
  unfolding updated
  updated-Coherent id existing md t c e = record {
    distinct = insert-IsDistinct dec id md t.metadata_map c.distinct;
    paths_valid =
        update_paths-IsValid dec id existing.relevant_paths md.relevant_paths t.path_to_ids
          c.paths_valid;
    ids_valid =
        update_ids-IsValid dec id existing.specified_id md.specified_id t.specified_id_to_refs
          c.ids_valid;
    paths = λ p w. ground (
      arith,
      c.paths p w,
      c.paths p id,
      lookup-insert dec id w md t.metadata_map,
      update_paths_seen dec id w p existing.relevant_paths md.relevant_paths t.path_to_ids
          c.paths_valid,
    );
    ids = λ s w. ground (
      arith,
      c.ids s w,
      c.ids s id,
      lookup-insert dec id w md t.metadata_map,
      update_ids_seen dec id w s existing.specified_id md.specified_id t.specified_id_to_refs
          c.ids_valid,
    );
  }

  -- Where the three maps agree and an instance has metadata, an update of its metadata leaves the
  -- three maps in agreement.
  pub update_metadata-Coherent :
      (id : Ref) (existing md : InstanceMetadata Rest) (t : Index Ref Rest)
      → Coherent t
      → lookup dec id t.metadata_map ≡ some existing
      → Coherent (update_metadata dec id md t)
  unfolding update_metadata updated
  update_metadata-Coherent id existing md t c e =
      rw (e, update_metadata) (updated-Coherent id existing md t c e)

  set_id-Coherent :
      (id : Ref) (s : RojoRef) (md : InstanceMetadata Rest) (t : Index Ref Rest)
      → Coherent t
      → lookup dec id t.metadata_map ≡ some md
      → Coherent (record t {
        metadata_map = insert_entry dec id (record md { specified_id = some s }) t.metadata_map;
        specified_id_to_refs =
            insert_id dec id s (remove_id dec id md.specified_id t.specified_id_to_refs);
      })
  set_id-Coherent id s md t c e =
      let md' : InstanceMetadata Rest = record md { specified_id = some s } in
      let m = remove_id dec id md.specified_id t.specified_id_to_refs in
      record {
        distinct = insert-IsDistinct dec id md' t.metadata_map c.distinct;
        paths_valid = c.paths_valid;
        ids_valid =
            insert-IsValid String_discrete dec s id m
              (remove_id-IsValid dec id md.specified_id t.specified_id_to_refs c.ids_valid);
        paths = λ p w.
            ground (arith, c.paths p w, c.paths p id, lookup-insert dec id w md' t.metadata_map);
        ids = λ r w. ground (
          arith,
          c.ids r w,
          c.ids r id,
          lookup-insert dec id w md' t.metadata_map,
          insert_id_seen dec id w r s m,
          remove_id_seen dec id w r md.specified_id t.specified_id_to_refs c.ids_valid,
        );
      }

  -- Where the three maps agree and an instance has metadata, giving it an ID leaves the three
  -- maps in agreement.
  pub set_specified_id-Coherent :
      (id : Ref) (s : RojoRef) (md : InstanceMetadata Rest) (t : Index Ref Rest)
      → Coherent t
      → lookup dec id t.metadata_map ≡ some md
      → Coherent (set_specified_id dec id s t)
  unfolding set_specified_id
  set_specified_id-Coherent id s md t c e = rw (e, set_specified_id) (set_id-Coherent id s md t c e)
