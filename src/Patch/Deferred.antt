-- ===== src/Patch/Deferred.antt =====
-- What patch_apply.rs does with one instance at a time: the loops of `defer_ref_properties` and of
-- `finalize_patch_application` over attributes, and the changes that the report of an update repeats.
use Prim.Native.String.{String}
use roxo_mcp.Base.{Bool, false, not, List, [], ◌∷◌, Option, none, some, ◌++◌, ◌||◌, if◌then◌else◌}
use roxo_mcp.Base.Equality.{pair_discrete}
use roxo_mcp.Base.Text.{String_discrete}
use roxo_mcp.MultiMap
use roxo_mcp.MultiMap.{MultiMap, contains}
use roxo_mcp.RojoTree.Index.{RojoRef}
use roxo_mcp.Patch.Variants.{
  Variants, strip_prefix, ref_id_attribute_name, ref_pointer_attribute_prefix,
}
use roxo_mcp.Patch.Properties.{Changes}
use roxo_mcp.RojoTree.Tree.{Properties}
use roxo_mcp.Patch.Compute.{same_text}

unfoldable pub entry_discrete : Discrete (String × String)
unfolding pair_discrete String_discrete
entry_discrete = pair_discrete String_discrete String_discrete

-- An attribute that holds an ID replaces the ID found before; other attributes leave it.
abbrev pub specified_by : String → Option String → Option RojoRef → Option RojoRef
specified_by name none attr_id = attr_id
specified_by name (some value) attr_id =
    if same_text name ref_id_attribute_name then some value else attr_id

module _ {Ref : Type 0} (dec : Discrete Ref) where
  unfoldable pub targeted_by :
      Ref
      → Option String
      → Option String
      → MultiMap Ref (String × String)
      → MultiMap Ref (String × String)
  unfolding MultiMap.insert entry_discrete
  targeted_by id none value refs = refs
  targeted_by id (some name) none refs = refs
  targeted_by id (some name) (some value) refs =
      MultiMap.insert dec entry_discrete id (name, value) refs

module _ {Ref Variant : Type 0} (dec : Discrete Ref) (vs : Variants Ref Variant) where
  -- The loop of `defer_ref_properties` over the attributes.
  unfoldable pub defer_attributes :
      Ref
      → List (String × Variant)
      → Option RojoRef × MultiMap Ref (String × String)
      → Option RojoRef × MultiMap Ref (String × String)
  unfolding strip_prefix targeted_by
  defer_attributes id [] found = found
  defer_attributes id ((name, value) ∷ attributes) (attr_id, refs) =
      defer_attributes id attributes (
        specified_by name (vs.text value) attr_id,
        targeted_by dec id (strip_prefix ref_pointer_attribute_prefix name) (vs.text value) refs,
      )

module _ {Ref Variant : Type 0} (vs : Variants Ref Variant) where
  abbrev pub is_null_ref : Option Ref → Bool
  is_null_ref none = false
  is_null_ref (some r) = not (vs.is_some_ref r)

  abbrev pub reported : String → Option Variant → Changes Variant → Changes Variant
  reported name none changes = (name, none) ∷ changes
  reported name (some value) changes =
      if is_null_ref (vs.as_ref value) then changes else (name, some value) ∷ changes

  -- The changes that the report repeats: all but the null references.
  unfoldable pub reported_changes : Changes Variant → Changes Variant
  reported_changes [] = []
  reported_changes ((name, change) ∷ changes) = reported name change (reported_changes changes)

  abbrev pub is_live : Option Ref → Bool
  is_live none = false
  is_live (some r) = vs.is_some_ref r

  unfoldable pub has_refs : Properties Variant → Bool
  has_refs [] = false
  has_refs ((name, value) ∷ rest) = is_live (vs.as_ref value) || has_refs rest

  abbrev pub resolved : String → Option Ref → Properties Variant → Properties Variant
  resolved name none rewrites = rewrites
  resolved name (some target) rewrites = (name, vs.ref_variant target) ∷ rewrites

  -- The attribute references of an instance that name one instance.
  unfoldable pub real_rewrites :
      (RojoRef → Option Ref) → List (String × String) → Properties Variant
  real_rewrites get_id [] = []
  real_rewrites get_id ((name, value) ∷ rest) =
      resolved name (get_id value) (real_rewrites get_id rest)

module _ {Ref : Type 0} (dec : Discrete Ref) where
  unfoldable pub insert_ref : Ref → List Ref → List Ref
  unfolding contains
  insert_ref id ids = if contains dec id ids then ids else ids ++ id ∷ []
