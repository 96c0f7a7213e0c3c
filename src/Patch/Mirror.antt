-- ===== src/Patch/Mirror.antt =====
-- A snapshot that says what the tree already has gives an empty patch, outside models and where no
-- attribute specifies a reference.
use Prim.Native.String.{String}
use roxo_mcp.Base.{
  Bool, true, false, List, [], ◌∷◌, ◌++◌, Option, none, some, ◌≡◌, refl, ◌∙◌, ap, arith, inl, inr,
  Option-cases, subst,
}
use mathlib.Core.List.{append-nil}
use roxo_mcp.RojoTree.Index.{InstanceMetadata, get_specified_id}
use roxo_mcp.RojoTree.Tree.{
  WeakDom, RojoTree, Instance, InstanceSnapshot, Snapshots, snapshot, nil, cons, is_some,
  Properties, is_model_class,
}
use roxo_mcp.Patch.Variants.{Variants}
use roxo_mcp.Patch.Properties.{
  get, property_changes, compare_values, compares_values, remove_values, point_refs, migrate,
  compute_ref_properties,
}
use roxo_mcp.Patch.Sets.{PatchUpdate, empty_patch}
use roxo_mcp.Patch.Compute.{
  Comparison, Gathered, expect_instance, find_partner, unflagged, unpaired, property_update,
  is_unchanged, same_text,
}
use roxo_mcp.Patch.Walk.{
  compute_patch_set_internal, compute_children, push_changed, note_id, remove_unpaired,
}
use roxo_mcp.Patch.Rewrite.{
  compute_patch_set, rewrite_patch, nothing_gathered, rewrite_refs_in_updates,
  rewrite_refs_in_additions,
}

module _ {Ref Variant : Type 0} (vs : Variants Ref Variant) where
  -- Every value of the snapshot is found equal to the instance's, without a panic.
  abbrev pub Matched : Properties Variant → Properties Variant → Type 0
  Matched [] old = Unit
  Matched ((name, value) ∷ new) old =
      ((found : Variant) × (get name old ≡ some found)
        × (vs.panics value found ≡ false)
        × (vs.variant_eq value found ≡ true))
      × Matched new old

  -- The snapshot has every property of the instance.
  abbrev pub Covered : Properties Variant → Properties Variant → Type 0
  Covered new [] = Unit
  Covered new ((name, value) ∷ old) = (is_some (get name new) ≡ true) × Covered new old

  compare_values-Matched :
      (new old : Properties Variant) → Matched new old → compare_values vs new old [] ≡ []
  unfolding compare_values
  compare_values-Matched [] old m = refl
  compare_values-Matched ((name, value) ∷ new) old ((found, e, calm, f), m) =
      rw (e, f) (compare_values-Matched new old m)

  compares_values-Matched :
      (new old : Properties Variant) → Matched new old → compares_values vs new old ≡ true
  unfolding compares_values
  compares_values-Matched [] old m = refl
  compares_values-Matched ((name, value) ∷ new) old ((found, e, calm, f), m) =
      rw (e, calm) (compares_values-Matched new old m)

  remove_values-Covered :
      (new old : Properties Variant) → Covered new old → remove_values vs new old [] ≡ []
  unfolding remove_values
  remove_values-Covered new [] c = refl
  remove_values-Covered new ((name, value) ∷ old) (e, c) = rw e (remove_values-Covered new old c)

  property_changes_none :
      (class : String) (new old : Properties Variant)
      → Matched new old
      → Covered new old
      → is_model_class class ≡ false
      → property_changes vs class new old [] ≡ []
  unfolding property_changes point_refs migrate
  property_changes_none class new old m c plain =
      rw (compare_values-Matched new old m, remove_values-Covered new old c, plain) refl

same_text_refl : (s : String) → same_text s s ≡ true
same_text_refl s = ground arith

module _ {dom : WeakDom} {Rest : Type 0} (by : Comparison dom Rest) (t : RojoTree dom Rest) where
  open dom use {Ref, Variant}

  -- The instance has the name, the class, the metadata and the properties. The class is none of those
  -- that inherit from Model, and no attribute specifies a reference.
  pub record IsSame (metadata : InstanceMetadata Rest) (name class : String)
      (properties : Properties Variant) (i : Instance Ref Variant) (md : InstanceMetadata Rest)
      : Type 0 where
    pub same_name : name ≡ i.name
    pub same_class : class ≡ i.class
    pub same_md : by.same_metadata metadata md ≡ true
    pub plain : is_model_class i.class ≡ false
    pub no_refs :
        (resolve : String → Option Ref) → compute_ref_properties by.variants resolve properties ≡ []
    pub matched : Matched by.variants properties i.properties
    pub covered : Covered by.variants properties i.properties

  is_unchanged_lem :
      (metadata : InstanceMetadata Rest) (name class : String) (properties : Properties Variant)
      (i : Instance Ref Variant) (md : InstanceMetadata Rest) (id : Ref)
      → IsSame metadata name class properties i md
      → is_unchanged (property_update by t metadata name class properties i md id) ≡ true
  unfolding property_update
  is_unchanged_lem metadata name class properties i md id s =
      rw
        (
          s.same_name,
          s.same_class,
          s.same_md,
          same_text_refl i.name,
          same_text_refl i.class,
          s.no_refs (λ r. get_specified_id dom.ref_discrete r t.index),
          property_changes_none by.variants i.class properties i.properties s.matched s.covered
              s.plain,
        )
        refl

unfoldable mutual
  -- The snapshot says what the tree has, of the instance and of all below it in order; none of their
  -- classes inherits from Model, and no attribute specifies a reference.
  pub Mirrors :
      {dom : WeakDom} {Rest : Type 0}
      → Comparison dom Rest
      → RojoTree dom Rest
      → InstanceSnapshot dom Rest
      → dom.Ref
      → Type 0
  Mirrors {dom} {Rest} by t (snapshot sid metadata name class properties children) id =
      (i : Instance dom.Ref dom.Variant) × (md : InstanceMetadata Rest) × (expect_instance t id
        ≡ some (i, md))
      × IsSame by t metadata name class properties i md
      × MirrorsAll by t children i.children

  pub MirrorsAll :
      {dom : WeakDom} {Rest : Type 0}
      → Comparison dom Rest
      → RojoTree dom Rest
      → Snapshots dom Rest
      → List dom.Ref
      → Type 0
  MirrorsAll by t nil [] = Unit
  MirrorsAll by t nil (id ∷ ids) = ⊥
  MirrorsAll by t (cons child rest) [] = ⊥
  MirrorsAll by t (cons child rest) (id ∷ ids) = Mirrors by t child id × MirrorsAll by t rest ids

abbrev paired : {Ref : Type 0} → List Ref → List (Ref × Bool)
paired [] = []
paired (id ∷ ids) = (id, true) ∷ paired ids

abbrev Kept :
    {dom : WeakDom} {Rest : Type 0} → Gathered dom Rest → Option (Gathered dom Rest) → Type 0
Kept g none = ⊥
Kept g (some g') = g'.patch_set ≡ g.patch_set

abbrev KeptAll :
    {dom : WeakDom} {Rest : Type 0}
    → Gathered dom Rest
    → Option (List (dom.Ref × Bool) × Gathered dom Rest)
    → Type 0
KeptAll g none = ⊥
KeptAll g (some (children, g')) = (unpaired children ≡ []) × (g'.patch_set ≡ g.patch_set)

unpaired-paired : {Ref : Type 0} (ids : List Ref) → unpaired (paired ids ++ []) ≡ []
unfolding unpaired
unpaired-paired [] = refl
unpaired-paired (id ∷ ids) = unpaired-paired ids

find_partner_next :
    {dom : WeakDom} {Rest : Type 0} (t : RojoTree dom Rest) (name class : String)
    (done later : List dom.Ref) (id : dom.Ref) (i : Instance dom.Ref dom.Variant)
    (md : InstanceMetadata Rest)
    → expect_instance t id ≡ some (i, md)
    → same_text name i.name ≡ true
    → same_text class i.class ≡ true
    → find_partner t name class (paired done ++ unflagged (id ∷ later))
      ≡ some (some id, paired (done ++ id ∷ []) ++ unflagged later)
unfolding find_partner
find_partner_next t name class [] later id i md e f g = rw (e, f, g) refl
find_partner_next t name class (other ∷ done) later id i md e f g =
    rw (find_partner_next t name class done later id i md e f g) refl

remove_unpaired-Kept :
    {dom : WeakDom} {Rest : Type 0} (g : Gathered dom Rest)
    (o : Option (List (dom.Ref × Bool) × Gathered dom Rest))
    → KeptAll g o
    → Kept g (remove_unpaired o)
remove_unpaired-Kept g none k = k
remove_unpaired-Kept g (some (children, g')) k =
    rw (k.0, append-nil g'.patch_set.removed_instances) k.1

push_changed-Kept :
    {dom : WeakDom} {Rest : Type 0} (update : PatchUpdate dom Rest) (sid id : dom.Ref)
    (by : Comparison dom Rest) (g : Gathered dom Rest)
    → is_unchanged update ≡ true
    → (push_changed update (note_id by sid id g)).patch_set ≡ g.patch_set
push_changed-Kept update sid id by g e = ground (arith, e)

mutual
  unfolding compute_patch_set_internal compute_children Mirrors MirrorsAll

  compute_patch_set_internal-Kept :
      {dom : WeakDom} {Rest : Type 0} (by : Comparison dom Rest) (t : RojoTree dom Rest)
      (s : InstanceSnapshot dom Rest) (id : dom.Ref) (g : Gathered dom Rest)
      → Mirrors by t s id
      → Kept g (compute_patch_set_internal by t s id g)
  compute_patch_set_internal-Kept by t (snapshot sid metadata name class properties children) id g
        (i, md, e, same, below) =
      let update = property_update by t metadata name class properties i md id in
      let g' = push_changed update (note_id by sid id g) in
      let keeps =
        push_changed-Kept update sid id by g
          (is_unchanged_lem by t metadata name class properties i md id same) in
      rw (e, compares_values-Matched by.variants properties i.properties same.matched, Kept)
        (remove_unpaired-Kept g (compute_children by t children id (unflagged i.children) g')
          (compute_children-Kept by t children id [] i.children g g' keeps below))

  compute_children-Kept :
      {dom : WeakDom} {Rest : Type 0} (by : Comparison dom Rest) (t : RojoTree dom Rest)
      (ss : Snapshots dom Rest) (id : dom.Ref) (done later : List dom.Ref)
      (g g' : Gathered dom Rest)
      → g'.patch_set ≡ g.patch_set
      → MirrorsAll by t ss later
      → KeptAll g (compute_children by t ss id (paired done ++ unflagged later) g')
  compute_children-Kept by t nil id done [] g g' keeps m = (unpaired-paired done, keeps)
  compute_children-Kept by t nil id done (other ∷ later) g g' keeps m = absurd m
  compute_children-Kept by t (cons child rest) id done [] g g' keeps m = absurd m
  compute_children-Kept by t (cons (snapshot sid metadata name class properties below) rest) id done
        (other ∷ later) g g' keeps ((i, md, e, same, under), m) =
      let kept =
        compute_patch_set_internal-Kept by t (snapshot sid metadata name class properties below)
          other g' (i, md, e, same, under) in
      let next =
        find_partner_next t name class done later other i md e
          (ap (λ n. same_text n i.name) same.same_name ∙ same_text_refl i.name)
          (ap (λ c. same_text c i.class) same.same_class ∙ same_text_refl i.class) in
      elim (Option-cases (
        compute_patch_set_internal by t (snapshot sid metadata name class properties below) other
          g')) [
            | inl f ↦ absurd (subst (Kept g') f kept)
            | inr (g'', f) ↦
                rw (next, f, KeptAll)
                  (compute_children-Kept by t rest id (done ++ other ∷ []) later g g''
                    (subst (Kept g') f kept ∙ keeps) m)
          ]

rewrite_patch_empty :
    {dom : WeakDom} {Rest : Type 0} (by : Comparison dom Rest) (o : Option (Gathered dom Rest))
    → Kept nothing_gathered o
    → rewrite_patch by o ≡ some empty_patch
unfolding rewrite_patch rewrite_refs_in_updates rewrite_refs_in_additions
rewrite_patch_empty by none k = absurd k
rewrite_patch_empty by (some g) k = rw k refl

-- A snapshot that says what the tree has, of an instance and of all below it, gives an empty patch,
-- where the class of none of these instances inherits from Model and no attribute in the snapshot
-- specifies a reference.
pub compute_patch_set_mirror :
    {dom : WeakDom} {Rest : Type 0} (by : Comparison dom Rest) (t : RojoTree dom Rest)
    (s : InstanceSnapshot dom Rest) (id : dom.Ref)
    → Mirrors by t s id
    → compute_patch_set by (some s) t id ≡ some empty_patch
unfolding compute_patch_set
compute_patch_set_mirror by t s id m =
    rewrite_patch_empty by (compute_patch_set_internal by t s id nothing_gathered)
      (compute_patch_set_internal-Kept by t s id nothing_gathered m)
