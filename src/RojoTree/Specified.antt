-- ===== src/RojoTree/Specified.antt =====
-- What the lookups of `RojoTree` return, and the update of an instance that is not there.
use roxo_mcp.Base.{◌≡◌, ◌↔◌, true, false, List, [], ◌∷◌, none, some, ite, arith}
use roxo_mcp.Base.Dict.{lookup, insert as insert_entry, lookup-insert}
use roxo_mcp.Base.Text.{PathBuf, PathBuf_discrete, String_discrete}
use roxo_mcp.MultiMap
use roxo_mcp.MultiMap.{contains, Unique}
use roxo_mcp.MultiMap.Laws.{bucket-Unique}
use roxo_mcp.RojoTree.Index.{
  RojoRef, InstanceMetadata, Index, only, get_specified_id, get_ids_at_path, update_metadata,
}
use roxo_mcp.RojoTree.Coherent.{Coherent, names_path, claims_id}

module _ {Ref : Type 0} (dec : Discrete Ref) where
  only_found :
      (rs : List Ref) (r w : Ref)
      → only dec rs ≡ some r
      → contains dec w rs ≡ ite (dec r w) true false
  unfolding contains
  only_found [] r w e = cc
  only_found (x ∷ []) r w e = ground arith
  only_found (x ∷ y ∷ rs) r w e = cc

  only_alone :
      (rs : List Ref) (r : Ref)
      → Unique dec rs
      → contains dec r rs ≡ true
      → ((w : Ref) → contains dec w rs ≡ true → w ≡ r)
      → only dec rs ≡ some r
  unfolding contains
  only_alone [] r u e alone = cc
  only_alone (x ∷ []) r u e alone = ground (arith, alone x)
  only_alone (x ∷ y ∷ rs) r u e alone = absurd (ground (arith, alone x, alone y))

module _ {Ref Rest : Type 0} (dec : Discrete Ref) where
  -- The instance claims the ID, and no other instance does.
  abbrev pub ClaimsAlone : RojoRef → Ref → Index Ref Rest → Type 0
  ClaimsAlone s r t =
      (claims_id s (lookup dec r t.metadata_map) ≡ true)
      × ((w : Ref) → claims_id s (lookup dec w t.metadata_map) ≡ true → w ≡ r)

  -- Where the three maps agree, an ID is resolved to an instance exactly if that instance claims
  -- the ID and no other instance does.
  pub get_specified_id_lem :
      (s : RojoRef) (r : Ref) (t : Index Ref Rest)
      → Coherent dec t
      → (get_specified_id dec s t ≡ some r) ↔ ClaimsAlone s r t
  unfolding get_specified_id
  get_specified_id_lem s r t c =
      let bucket = MultiMap.get String_discrete dec s t.specified_id_to_refs in
      (
        λ e. (
          ground (arith, only_found dec bucket r r e, c.ids s r),
          λ w h. ground (arith, only_found dec bucket r w e, c.ids s w),
        ),
        λ h.
            only_alone dec bucket r
              (bucket-Unique String_discrete dec t.specified_id_to_refs s c.ids_valid)
              (ground (arith, c.ids s r)) (λ w e. h.1 w (ground (arith, c.ids s w))),
      )

  -- Where the three maps agree, the instances at a path are those whose metadata names the path,
  -- each of them once.
  pub get_ids_at_path_lem :
      (p : PathBuf) (t : Index Ref Rest)
      → Coherent dec t
      → Unique dec (get_ids_at_path dec p t)
        × ((id : Ref)
            → contains dec id (get_ids_at_path dec p t)
              ≡ names_path p (lookup dec id t.metadata_map))
  unfolding get_ids_at_path
  get_ids_at_path_lem p t c =
      (bucket-Unique PathBuf_discrete dec t.path_to_ids p c.paths_valid, λ id. c.paths p id)

  -- An update of an instance without metadata, with metadata that names a path, leaves maps that
  -- do not agree, where they did agree before.
  pub update_metadata_vacant :
      (id : Ref) (md : InstanceMetadata Rest) (p : PathBuf) (t : Index Ref Rest)
      → Coherent dec t
      → lookup dec id t.metadata_map ≡ none
      → contains PathBuf_discrete p md.relevant_paths ≡ true
      → ¬ Coherent dec (update_metadata dec id md t)
  unfolding update_metadata
  update_metadata_vacant id md p t c e h bad =
      let after : Coherent dec (record t { metadata_map = insert_entry dec id md t.metadata_map }) =
        rw (e, update_metadata) at bad in
      absurd
        (ground (arith, after.paths p id, c.paths p id, lookup-insert dec id id md t.metadata_map))
