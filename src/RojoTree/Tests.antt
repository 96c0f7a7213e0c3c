-- ===== src/RojoTree/Tests.antt =====
-- `RojoTree` on a root with a child that has a child: `src` under the root, and a script in it.
use Prim.Native.String.{String}
use roxo_mcp.Base.{
  ℕ, ◌≡◌, refl, false, List, [], ◌∷◌, Option, none, some, arith, ℕ_discrete, if◌then◌else◌,
}
use roxo_mcp.Base.Dict.{lookup, insert, remove as remove_entry}
use roxo_mcp.Base.Text.{PathBuf, PathBuf_discrete}
use roxo_mcp.MultiMap
use roxo_mcp.MultiMap.{contains, Unique}
use roxo_mcp.MultiMap.Bucket.{position, swap_remove}
use roxo_mcp.RojoTree.Index.{
  InstanceMetadata, insert_metadata, remove_metadata, update_metadata, get_ids_at_path,
  get_metadata, get_specified_id,
}
use roxo_mcp.RojoTree.Coherent
use roxo_mcp.RojoTree.Coherent.{Coherent, names_path}
use roxo_mcp.RojoTree.Tree.{
  RojoTree, InstanceSnapshot, snapshot, nil, cons, extend, insert_instance, insert_children, new,
  remove, get_instance,
}
use roxo_mcp.RojoTree.Sound
use roxo_mcp.RojoTree.Sound.{IsSound, Inserted, has}
use roxo_mcp.RojoTree.Removal
use roxo_mcp.RojoTree.Removal.{empty, tree, subtree, refs}
use roxo_mcp.RojoTree.Memory.{memory, fresh, insert_instance as insert_into, sweep}

abbrev src_path : PathBuf
src_path = "src" ∷ []

abbrev script_path : PathBuf
script_path = "src" ∷ "init.luau" ∷ []

abbrev metadata : List PathBuf → Option String → InstanceMetadata ℕ
metadata paths id = record {
  ignore_unknown_instances = false;
  relevant_paths = paths;
  specified_id = id;
  rest = 0;
}

abbrev script : InstanceSnapshot memory ℕ
script =
    snapshot 0 (metadata (script_path ∷ src_path ∷ []) (some "script")) "main" "ModuleScript" [] nil

abbrev root : InstanceSnapshot memory ℕ
root =
    snapshot 0 (metadata [] none) "game" "DataModel" []
      (cons (snapshot 0 (metadata (src_path ∷ []) none) "src" "Folder" [] (cons script nil)) nil)

program : Unit {0}
unfolding lookup insert remove_entry PathBuf_discrete MultiMap.get MultiMap.insert MultiMap.remove
    contains position swap_remove insert_metadata remove_metadata update_metadata get_ids_at_path
    get_metadata get_specified_id extend insert_instance insert_children new remove get_instance
    ℕ_discrete fresh insert_into sweep
program = tt

abbrev planted : RojoTree memory ℕ
unfolding program
planted = new memory root

-- A change of the directory concerns both instances.
ids_at_src : get_ids_at_path ℕ_discrete src_path (new memory root).index ≡ 1 ∷ 2 ∷ []
unfolding program
ids_at_src = refl

script_id : get_specified_id ℕ_discrete "script" (new memory root).index ≡ some 2
unfolding program
script_id = refl

start-IsSound : IsSound memory (new memory root)
start-IsSound = Sound.new-IsSound memory root

insert_instance-Inserted_example :
    Inserted memory (new memory root) (insert_instance memory (new memory root) 1 script).0
unfolding program
insert_instance-Inserted_example =
    Sound.insert_instance-Inserted memory (new memory root) 1 script start-IsSound refl

update_metadata-Coherent_example :
    Coherent ℕ_discrete
      (update_metadata ℕ_discrete 1 (metadata (script_path ∷ []) none) (new memory root).index)
unfolding program
update_metadata-Coherent_example =
    Coherent.update_metadata-Coherent ℕ_discrete 1 (metadata (src_path ∷ []) none)
      (metadata (script_path ∷ []) none) (new memory root).index start-IsSound.coherent refl

-- The folder goes away with its script.
remove-IsSound_example :
    (u : RojoTree memory ℕ) × (remove memory 2 1 (new memory root) ≡ some (some u))
    × IsSound memory u
    × ((x : ℕ)
        → lookup ℕ_discrete x u.index.metadata_map ≡ (
            if contains ℕ_discrete x (1 ∷ 2 ∷ [])
            then none
            else lookup ℕ_discrete x (new memory root).index.metadata_map))
unfolding program
remove-IsSound_example =
    Removal.remove-IsSound memory (new memory root) 2 1 (tree 2 empty empty) start-IsSound
      (omega arith) (refl, (refl, tt, tt), tt) (refl, (refl, tt)) (λ x h. ground arith)
      (λ x. ground arith)
