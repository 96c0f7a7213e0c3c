-- ===== src/RojoTree/Index.antt =====
-- The three maps of `RojoTree` (snapshot/tree.rs), and the operations that keep them in step. The
-- references of rbx_dom_weak are a parameter, and so is the metadata that the tree only carries.
use Prim.Native.String.{String}
use roxo_mcp.Base.{Bool, List, [], ◌∷◌, Option, none, some, ite}
use roxo_mcp.Base.Dict.{lookup, insert as insert_entry, remove as remove_entry}
use roxo_mcp.Base.Text.{PathBuf, PathBuf_discrete, List_discrete, String_discrete}
use roxo_mcp.MultiMap
use roxo_mcp.MultiMap.{MultiMap}

abbrev pub RojoRef : Type 0
RojoRef = String

-- `Rest` has the fields that the tree only carries: the instigating source, the context, the
-- middleware and the schema.
pub record InstanceMetadata (Rest : Type 0) : Type 0 where
  pub ignore_unknown_instances : Bool
  pub relevant_paths : List PathBuf
  pub specified_id : Option RojoRef
  pub rest : Rest

pub record Index (Ref Rest : Type 0) : Type 0 where
  pub metadata_map : List (Ref × InstanceMetadata Rest)
  pub path_to_ids : MultiMap PathBuf Ref
  pub specified_id_to_refs : MultiMap RojoRef Ref

abbrev pub paths_discrete : Discrete (List PathBuf)
paths_discrete = List_discrete PathBuf_discrete

module _ {Ref : Type 0} (dec : Discrete Ref) where
  abbrev pub insert_path : Ref → PathBuf → MultiMap PathBuf Ref → MultiMap PathBuf Ref
  insert_path id path m = MultiMap.insert PathBuf_discrete dec path id m

  abbrev pub remove_path : Ref → PathBuf → MultiMap PathBuf Ref → MultiMap PathBuf Ref
  remove_path id path m = (MultiMap.remove PathBuf_discrete dec path id m).0

  -- The loops `for path in paths` over the path map.
  unfoldable pub insert_paths : Ref → List PathBuf → MultiMap PathBuf Ref → MultiMap PathBuf Ref
  insert_paths id [] m = m
  insert_paths id (p ∷ ps) m = insert_paths id ps (insert_path id p m)

  unfoldable pub remove_paths : Ref → List PathBuf → MultiMap PathBuf Ref → MultiMap PathBuf Ref
  remove_paths id [] m = m
  remove_paths id (p ∷ ps) m = remove_paths id ps (remove_path id p m)

  abbrev pub insert_id : Ref → RojoRef → MultiMap RojoRef Ref → MultiMap RojoRef Ref
  insert_id id specified m = MultiMap.insert String_discrete dec specified id m

  abbrev pub remove_id : Ref → Option RojoRef → MultiMap RojoRef Ref → MultiMap RojoRef Ref
  remove_id id none m = m
  remove_id id (some old) m = (MultiMap.remove String_discrete dec old id m).0

  abbrev pub insert_id? : Ref → Option RojoRef → MultiMap RojoRef Ref → MultiMap RojoRef Ref
  insert_id? id none m = m
  insert_id? id (some specified) m = insert_id id specified m

  abbrev pub update_paths :
      Ref → List PathBuf → List PathBuf → MultiMap PathBuf Ref → MultiMap PathBuf Ref
  update_paths id old new m =
      ite (paths_discrete old new) m (insert_paths id new (remove_paths id old m))

  -- The new ID goes in before the old one comes out.
  abbrev pub update_ids :
      Ref → Option RojoRef → Option RojoRef → MultiMap RojoRef Ref → MultiMap RojoRef Ref
  update_ids id none none m = m
  update_ids id none (some new) m = insert_id id new m
  update_ids id (some old) none m = remove_id id (some old) m
  update_ids id (some old) (some new) m =
      ite (String_discrete old new) m (remove_id id (some old) (insert_id id new m))

  abbrev pub only : List Ref → Option Ref
  only [] = none
  only (r ∷ []) = some r
  only (r ∷ s ∷ rs) = none

module _ {Ref Rest : Type 0} (dec : Discrete Ref) where
  -- `metadata.specified_id.replace(..)` where the instance has metadata, and the insertion.
  unfoldable pub set_specified_id : Ref → RojoRef → Index Ref Rest → Index Ref Rest
  set_specified_id id specified t = elim (lookup dec id t.metadata_map) [
    | none ↦ record t { specified_id_to_refs = insert_id dec id specified t.specified_id_to_refs }
    | some metadata ↦ record t {
      metadata_map =
          insert_entry dec id (record metadata { specified_id = some specified }) t.metadata_map;
      specified_id_to_refs =
          insert_id dec id specified
            (remove_id dec id metadata.specified_id t.specified_id_to_refs);
    }
  ]

  abbrev pub set_specified_id? : Ref → Option RojoRef → Index Ref Rest → Index Ref Rest
  set_specified_id? id none t = t
  set_specified_id? id (some specified) t = set_specified_id id specified t

  unfoldable pub insert_metadata : Ref → InstanceMetadata Rest → Index Ref Rest → Index Ref Rest
  unfolding insert_paths set_specified_id
  insert_metadata id metadata t =
      let placed : Index Ref Rest = record t {
        path_to_ids = insert_paths dec id metadata.relevant_paths t.path_to_ids;
      } in
      let t' = set_specified_id? id metadata.specified_id placed in
      record t' { metadata_map = insert_entry dec id metadata t'.metadata_map }

  -- `none` is the panic of `unwrap` where the instance has no metadata.
  unfoldable pub remove_metadata : Ref → Index Ref Rest → Option (Index Ref Rest)
  remove_metadata id t = elim (lookup dec id t.metadata_map) [
    | none ↦ none
    | some metadata ↦ some (record {
      metadata_map = remove_entry dec id t.metadata_map;
      path_to_ids = remove_paths dec id metadata.relevant_paths t.path_to_ids;
      specified_id_to_refs = remove_id dec id metadata.specified_id t.specified_id_to_refs;
    })
  ]

  unfoldable pub update_metadata : Ref → InstanceMetadata Rest → Index Ref Rest → Index Ref Rest
  update_metadata id metadata t = elim (lookup dec id t.metadata_map) [
    | none ↦ record t { metadata_map = insert_entry dec id metadata t.metadata_map }
    | some existing ↦ record {
      metadata_map = insert_entry dec id metadata t.metadata_map;
      path_to_ids =
          update_paths dec id existing.relevant_paths metadata.relevant_paths t.path_to_ids;
      specified_id_to_refs =
          update_ids dec id existing.specified_id metadata.specified_id t.specified_id_to_refs;
    }
  ]

  unfoldable pub get_ids_at_path : PathBuf → Index Ref Rest → List Ref
  get_ids_at_path path t = MultiMap.get PathBuf_discrete dec path t.path_to_ids

  unfoldable pub get_metadata : Ref → Index Ref Rest → Option (InstanceMetadata Rest)
  get_metadata id t = lookup dec id t.metadata_map

  -- The reference behind an ID, if there is exactly one.
  unfoldable pub get_specified_id : RojoRef → Index Ref Rest → Option Ref
  get_specified_id specified t =
      only dec (MultiMap.get String_discrete dec specified t.specified_id_to_refs)
