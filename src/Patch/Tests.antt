-- ===== src/Patch/Tests.antt =====
-- Patches on a tree with a folder below its root.
use Prim.Native.String.{String}
use roxo_mcp.Base.{
  ℕ, zero, suc, ◌≡◌, refl, true, false, List, [], ◌∷◌, Option, none, some, subst, ap, ℕ_discrete,
  sym, ◌∙◌, arith,
}
use roxo_mcp.Base.Dict.{lookup, insert}
use roxo_mcp.Base.Text.{PathBuf_discrete, String_discrete}
use roxo_mcp.MultiMap
use roxo_mcp.MultiMap.{contains}
use roxo_mcp.RojoTree.Index.{
  InstanceMetadata, set_specified_id, insert_metadata, get_metadata, get_specified_id,
}
use roxo_mcp.RojoTree.Tree.{
  Instance, InstanceSnapshot, snapshot, nil, cons, extend, insert_instance, insert_children,
  insert_one, new, get_instance, is_some,
}
use roxo_mcp.RojoTree.Sound
use roxo_mcp.RojoTree.Memory.{memory, fresh, insert_instance as insert_into}
use roxo_mcp.Patch.Variants.{strip_prefix}
use roxo_mcp.Patch.Properties.{
  get, compare_values, compares_value, compares_values, remove_values, point_refs, migrate,
  property_changes, attribute_refs, compute_ref_properties, apply_changes,
}
use roxo_mcp.Patch.Sets.{PatchSet, empty_patch}
use roxo_mcp.Patch.Compute.{
  Comparison, expect_instance, property_update, find_partner, unpaired, unflagged,
}
use roxo_mcp.Patch.Walk.{compute_patch_set_internal, compute_children}
use roxo_mcp.Patch.Rewrite.{
  compute_patch_set, rewrite_patch, rewrite_refs_in_updates, rewrite_refs_in_additions,
  rewrite_changes, rewrite_properties, rewrite_refs_in_snapshot, rewrite_refs_in_children,
}
use roxo_mcp.Patch.Apply.{updated_instance}
use roxo_mcp.Patch.Finish.{apply_patch_set}
use roxo_mcp.Patch.Total
use roxo_mcp.Patch.Total.{IsClosed, AreThere, IsComparable, AreComparable}
use roxo_mcp.Patch.Mirror
use roxo_mcp.Patch.Mirror.{Mirrors}
use roxo_mcp.Patch.Pairing
use roxo_mcp.Patch.Pairing.{FindsFirst}
use roxo_mcp.Patch.Outcome
use roxo_mcp.Patch.Outcome.{synced}
use roxo_mcp.Patch.Sync
use roxo_mcp.Patch.Sync.{IsSynced}
use roxo_mcp.Patch.Applied
use roxo_mcp.Patch.Applied.{Ends}
use roxo_mcp.Patch.Sample.{values, in_place}

abbrev md : Option String → InstanceMetadata ℕ
md id = record {
  ignore_unknown_instances = false;
  relevant_paths = [];
  specified_id = id;
  rest = 0;
}

abbrev folder : InstanceSnapshot memory ℕ
folder = snapshot 999 (md (some "script")) "src" "Folder" (("Size", 7) ∷ []) nil

abbrev root : InstanceSnapshot memory ℕ
root = snapshot 999 (md none) "game" "DataModel" [] (cons folder nil)

abbrev by : Comparison memory ℕ
by = record { variants = values; same_metadata = λ a b. true }

program : Unit {0}
unfolding lookup insert PathBuf_discrete String_discrete MultiMap.get MultiMap.insert contains
    insert_metadata set_specified_id get_metadata get_specified_id extend insert_instance
    insert_children insert_one new get_instance ℕ_discrete fresh insert_into strip_prefix
    compare_values remove_values point_refs migrate property_changes attribute_refs
    compute_ref_properties apply_changes property_update find_partner unpaired
    compute_patch_set_internal compute_children compute_patch_set rewrite_patch
    rewrite_refs_in_updates rewrite_refs_in_additions rewrite_changes rewrite_properties
    rewrite_refs_in_snapshot rewrite_refs_in_children IsComparable AreComparable compares_values
    Mirrors updated_instance
program = tt

-- The folder has gone, and a script is new.
abbrev changed : InstanceSnapshot memory ℕ
changed =
    snapshot 999 (md none) "game" "DataModel" []
      (cons (snapshot 999 (md none) "main" "Script" [] nil) nil)

patch_of_changed :
    compute_patch_set by (some changed) (new memory root) 0
    ≡ some (record {
      removed_instances = 1 ∷ [];
      added_instances =
          record { parent_id = 0; instance = snapshot 999 (md none) "main" "Script" [] nil } ∷ [];
      updated_instances = [];
    })
unfolding program
patch_of_changed = refl

abbrev below : Option (Instance ℕ ℕ × InstanceMetadata ℕ) → List ℕ
below none = []
below (some (i, m)) = i.children

none_ne_some : {A : Type 0} (a : A) → ¬ (none ≡ some a)
none_ne_some a e = cc

not_there : (n : ℕ) → expect_instance (new memory root) (suc (suc n)) ≡ none
unfolding program
not_there n = ground arith

planted-IsClosed : IsClosed {Rest = ℕ} (new memory root)
unfolding program
planted-IsClosed zero i m e =
    subst (λ cs. AreThere (new memory root) (unflagged cs)) (ap below e) (refl, tt)
planted-IsClosed (suc zero) i m e =
    subst (λ cs. AreThere (new memory root) (unflagged cs)) (ap below e) tt
planted-IsClosed (suc (suc n)) i m e = absurd (none_ne_some (i, m) (sym (not_there n) ∙ e))

-- Only the value 60 makes the comparison panic.
seven_compares : (o : Option ℕ) → compares_value values 7 o ≡ true
seven_compares none = refl
seven_compares (some old) = refl

root-IsComparable : IsComparable by (new memory root) root
unfolding program
root-IsComparable =
    (λ id i m e. refl, (((λ id i m e. rw (seven_compares (get "Size" i.properties)) refl), tt), tt))

compute_patch_set_total_example :
    is_some (compute_patch_set by (some root) (new memory root) 0) ≡ true
unfolding program
compute_patch_set_total_example =
    Total.compute_patch_set_total by (new memory root) root 0 planted-IsClosed root-IsComparable
      refl

root-Mirrors : Mirrors by (new memory root) root 0
unfolding program
root-Mirrors = (
  record {
    referent = 0;
    parent = 0;
    name = "game";
    class = "DataModel";
    properties = [];
    children = 1 ∷ [];
  },
  md none,
  refl,
  record {
    same_name = refl;
    same_class = refl;
    same_md = refl;
    plain = refl;
    no_refs = λ resolve. refl;
    matched = tt;
    covered = tt;
  },
  (
    (
      record {
        referent = 1;
        parent = 0;
        name = "src";
        class = "Folder";
        properties = ("Size", 7) ∷ [];
        children = [];
      },
      md (some "script"),
      refl,
      record {
        same_name = refl;
        same_class = refl;
        same_md = refl;
        plain = refl;
        no_refs = λ resolve. refl;
        matched = ((7, refl, refl, refl), tt);
        covered = (refl, tt);
      },
      tt,
    ),
    tt,
  ),
)

compute_patch_set_mirror_example :
    compute_patch_set by (some root) (new memory root) 0 ≡ some empty_patch
compute_patch_set_mirror_example =
    Mirror.compute_patch_set_mirror by (new memory root) root 0 root-Mirrors

find_partner-FindsFirst_example :
    FindsFirst
      (new memory root)
      "src"
      "Folder"
      ((1, true) ∷ (1, false) ∷ [])
      (find_partner (new memory root) "src" "Folder" ((1, true) ∷ (1, false) ∷ []))
unfolding program
find_partner-FindsFirst_example =
    Pairing.find_partner-FindsFirst (new memory root) "src" "Folder" ((1, true) ∷ (1, false) ∷ [])
      (refl, (refl, tt))

patch : PatchSet memory ℕ
patch = record {
  removed_instances = [];
  added_instances = record { parent_id = 1; instance = changed } ∷ [];
  updated_instances =
      record {
        id = 1;
        changed_name = some "lib";
        changed_class_name = none;
        changed_properties = ("Size", some 8) ∷ [];
        changed_metadata = some (md none);
      }
      ∷ [];
}

apply_patch_set-Ends_example :
    Ends values in_place
      (new memory root)
      (apply_patch_set values 3 in_place (new memory root) patch)
unfolding program patch
apply_patch_set-Ends_example =
    Applied.apply_patch_set-Ends values in_place 3 (new memory root) patch
      (Sound.new-IsSound memory root) refl (refl, tt) (refl, tt)

-- An instance whose properties are a number, a reference, and one that an attribute specifies.
abbrev old : List (String × ℕ)
old = ("Size", 7) ∷ ("Target", 101) ∷ ("NeedsPivotMigration", 1) ∷ []

abbrev part : Instance ℕ ℕ
part = record {
  referent = 1;
  parent = 0;
  name = "Part";
  class = "Part";
  properties = old;
  children = [];
}

property_update-IsSynced_example :
    IsSynced by (new memory root) "Door" "Part" (("Size", 8) ∷ ("Attributes", 50) ∷ []) (
      updated_instance values
        (λ r. r)
        (property_update by
          (new memory root)
          (md none)
          "Door"
          "Part"
          (("Size", 8) ∷ ("Attributes", 50) ∷ [])
          part
          (md none)
          1)
        part)
unfolding program
property_update-IsSynced_example =
    Sync.property_update-IsSynced by (new memory root) (λ r. r) (md none) (md none) "Door" "Part"
      (("Size", 8) ∷ ("Attributes", 50) ∷ []) part 1 (refl, (refl, tt))

synced_null_example :
    get "Target" (synced values (λ r. r) "Part" (("Target", 1099) ∷ []) old []) ≡ get "Target" old
unfolding program
synced_null_example =
    Outcome.synced_null values (λ r. r) "Target" "Part" (("Target", 1099) ∷ []) old [] 1099 999
      (refl, tt) tt refl refl refl refl refl
