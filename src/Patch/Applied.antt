-- ===== src/Patch/Applied.antt =====
-- A patch that removes nothing is applied to a sound tree without a panic, and leaves it sound.
use Prim.Native.String.{String}
use roxo_mcp.Base.{
  ℕ, true, List, [], ◌∷◌, Option, none, some, ◌≡◌, refl, ◌∙◌, All, All-map, inl, inr, Option-cases,
  subst,
}
use roxo_mcp.Base.Dict.{lookup}
use roxo_mcp.RojoTree.Index.{RojoRef, get_specified_id}
use roxo_mcp.RojoTree.Tree.{WeakDom, RojoTree, Properties, extend}
use roxo_mcp.RojoTree.Sound.{IsSound, has}
use roxo_mcp.Patch.Variants.{Variants}
use roxo_mcp.Patch.Sets.{PatchSet, PatchUpdate, AppliedPatchSet}
use roxo_mcp.Patch.Rewrite.{rewrite_properties}
use roxo_mcp.Patch.Deferred.{real_rewrites}
use roxo_mcp.Patch.Apply.{Mutation, Application, apply_update_child, apply_updates}
use roxo_mcp.Patch.Finish.{
  change_properties, rewrite_added, rewrite_attributes, finalize_patch_application, start, finish,
  apply_additions, apply_removals, apply_rest, apply_patch_set,
}
use roxo_mcp.Patch.Context.{
  Ready, Advanced, Advances, Advances-trans, AllKeys, AllKeys-map, expect_instance_there,
}
use roxo_mcp.Patch.Additions.{HaveParents, apply_additions-Advances}
use roxo_mcp.Patch.Updates.{Same, HaveTargets, update-Same, apply_update_child-Advances}

module _ {dom : WeakDom} {Rest : Type 0} (vs : Variants dom.Ref dom.Variant)
    (mutation : Mutation dom) where
  open dom use {ref_discrete, Ref, Variant}

  apply_updates-Advances :
      (us : List (PatchUpdate dom Rest)) (a : Application dom Rest)
      → Ready a
      → HaveTargets a.tree us
      → Advances a (apply_updates vs mutation us a)
  unfolding apply_updates
  apply_updates-Advances [] a r h = record { ready = r; keeps = λ s k. k }
  apply_updates-Advances (u ∷ us) a r h =
      let head = apply_update_child-Advances vs mutation u a r h.0 in
      elim (Option-cases (apply_update_child vs mutation u a)) [
        | inl f ↦ absurd (subst (Advances a) f head)
        | inr (b, f) ↦
            let first : Advanced a b = subst (Advances a) f head in
            let later =
              All-map (λ w. has dom a.tree w.id ≡ true) (λ w. has dom b.tree w.id ≡ true) us
                (λ w k. first.keeps w.id k) h.1 in
            rw (f, Advances)
              (Advances-trans a b (apply_updates vs mutation us b) first
                (apply_updates-Advances us b first.ready later))
      ]

  -- The result is a sound tree with the same instances.
  abbrev Kept : RojoTree dom Rest → Option (RojoTree dom Rest) → Type 0
  Kept t none = ⊥
  Kept t (some u) = Same t u

  Kept-trans :
      (t u : RojoTree dom Rest) (o : Option (RojoTree dom Rest)) → Same t u → Kept u o → Kept t o
  Kept-trans t u none s k = k
  Kept-trans t u (some w) s k = record { sound = k.sound; same = λ r. k.same r ∙ s.same r }

  change_properties-Kept :
      (id : Ref) (f : Properties Variant → Properties Variant) (t : RojoTree dom Rest)
      → IsSound dom t
      → has dom t id ≡ true
      → Kept t (change_properties vs mutation id f t)
  unfolding change_properties
  change_properties-Kept id f t s e =
      let (i, md, there, g) = expect_instance_there t id s e in
      rw (there, Kept) (update-Same mutation id (λ j. record j { properties = f j.properties }) t s)

  rewrite_added-Kept :
      (instance_of : Ref → Option Ref) (ids : List Ref) (t : RojoTree dom Rest)
      → IsSound dom t
      → All (λ r. has dom t r ≡ true) ids
      → Kept t (rewrite_added vs mutation instance_of ids t)
  unfolding rewrite_added
  rewrite_added-Kept instance_of [] t s h = record { sound = s; same = λ r. refl }
  rewrite_added-Kept instance_of (id ∷ ids) t s h =
      let f = rewrite_properties vs instance_of in
      let head = change_properties-Kept id f t s h.0 in
      elim (Option-cases (change_properties vs mutation id f t)) [
        | inl g ↦ absurd (subst (Kept t) g head)
        | inr (u, g) ↦
            let first : Same t u = subst (Kept t) g head in
            let later =
              All-map (λ r. has dom t r ≡ true) (λ r. has dom u r ≡ true) ids
                (λ r k. first.same r ∙ k) h.1 in
            rw (g, Kept)
              (Kept-trans t u (rewrite_added vs mutation instance_of ids u) first
                (rewrite_added-Kept instance_of ids u first.sound later))
      ]

  rewrite_attributes-Kept :
      (entries : List (Ref × List (String × String))) (t : RojoTree dom Rest)
      → IsSound dom t
      → AllKeys (λ r. has dom t r ≡ true) entries
      → Kept t (rewrite_attributes vs mutation entries t)
  unfolding rewrite_attributes
  rewrite_attributes-Kept [] t s h = record { sound = s; same = λ r. refl }
  rewrite_attributes-Kept ((id, found) ∷ rest) t s h =
      let get_id : RojoRef → Option Ref = λ r. get_specified_id ref_discrete r t.index in
      let f : Properties Variant → Properties Variant =
        λ ps. extend ps (real_rewrites vs get_id found) in
      let head = change_properties-Kept id f t s h.0 in
      elim (Option-cases (change_properties vs mutation id f t)) [
        | inl g ↦ absurd (subst (Kept t) g head)
        | inr (u, g) ↦
            let first : Same t u = subst (Kept t) g head in
            let later =
              AllKeys-map (λ r. has dom t r ≡ true) (λ r. has dom u r ≡ true) rest
                (λ r k. first.same r ∙ k) h.1 in
            rw (g, Kept)
              (Kept-trans t u (rewrite_attributes vs mutation rest u) first
                (rewrite_attributes-Kept rest u first.sound later))
      ]

  -- A result, with a sound tree that has what the first tree has.
  abbrev pub Succeeds :
      RojoTree dom Rest → Option (RojoTree dom Rest × AppliedPatchSet dom Rest) → Type 0
  Succeeds t none = ⊥
  Succeeds t (some (u, applied)) =
      IsSound dom u × ((r : Ref) → has dom t r ≡ true → has dom u r ≡ true)

  finalize-Succeeds :
      (t : RojoTree dom Rest) (a : Application dom Rest)
      → Ready a
      → ((r : Ref) → has dom t r ≡ true → has dom a.tree r ≡ true)
      → Succeeds t (finalize_patch_application vs mutation a)
  unfolding finalize_patch_application
  finalize-Succeeds t a r keeps =
      let instance_of : Ref → Option Ref =
        λ s. lookup ref_discrete s a.snapshot_id_to_instance_id in
      let head = rewrite_added-Kept instance_of a.has_refs_to_rewrite a.tree r.sound r.refs in
      elim (Option-cases (rewrite_added vs mutation instance_of a.has_refs_to_rewrite a.tree)) [
        | inl g ↦ absurd (subst (Kept a.tree) g head)
        | inr (u, g) ↦
            let first : Same a.tree u = subst (Kept a.tree) g head in
            let later =
              AllKeys-map (λ s. has dom a.tree s ≡ true) (λ s. has dom u s ≡ true)
                a.attribute_refs_to_rewrite (λ s k. first.same s ∙ k) r.attributes in
            let rest = rewrite_attributes-Kept a.attribute_refs_to_rewrite u first.sound later in
            elim (Option-cases (rewrite_attributes vs mutation a.attribute_refs_to_rewrite u)) [
              | inl h ↦ absurd (subst (Kept u) h rest)
              | inr (w, h) ↦
                  let last : Same u w = subst (Kept u) h rest in
                  rw (g, h, Succeeds) (last.sound, λ s k. last.same s ∙ first.same s ∙ keeps s k)
            ]
      ]

  apply_rest-Succeeds :
      (t : RojoTree dom Rest) (patch : PatchSet dom Rest)
      → IsSound dom t
      → HaveParents vs t patch.added_instances
      → HaveTargets t patch.updated_instances
      → Succeeds t (apply_rest vs mutation patch (start vs t))
  unfolding apply_rest finish
  apply_rest-Succeeds t patch s parents targets =
      let a = start vs t in
      let ready : Ready a = record { sound = s; refs = tt; attributes = tt } in
      let head = apply_additions-Advances vs patch.added_instances a ready parents in
      elim (Option-cases (apply_additions vs patch.added_instances a)) [
        | inl f ↦ absurd (subst (Advances a) f head)
        | inr (b, f) ↦
            let first : Advanced a b = subst (Advances a) f head in
            let targets' =
              All-map (λ w. has dom t w.id ≡ true) (λ w. has dom b.tree w.id ≡ true)
                patch.updated_instances (λ w k. first.keeps w.id k) targets in
            let rest = apply_updates-Advances patch.updated_instances b first.ready targets' in
            elim (Option-cases (apply_updates vs mutation patch.updated_instances b)) [
              | inl g ↦ absurd (subst (Advances b) g rest)
              | inr (c, g) ↦
                  let last : Advanced b c = subst (Advances b) g rest in
                  rw (f, g, Succeeds)
                    (finalize-Succeeds t c last.ready (λ r k. last.keeps r (first.keeps r k)))
            ]
      ]

  -- The application did not run out of fuel, nor panic.
  abbrev pub Ends :
      RojoTree dom Rest → Option (Option (RojoTree dom Rest × AppliedPatchSet dom Rest)) → Type 0
  Ends t none = ⊥
  Ends t (some o) = Succeeds t o

  -- A patch without removals, whose additions and updates name instances of a sound tree, is
  -- applied without a panic, and gives a sound tree (exactly the instances of the DOM have
  -- metadata, and the path map and the ID map say what the metadata says) that has every instance
  -- it had.
  pub apply_patch_set-Ends :
      (fuel : ℕ) (t : RojoTree dom Rest) (patch : PatchSet dom Rest)
      → IsSound dom t
      → patch.removed_instances ≡ []
      → HaveParents vs t patch.added_instances
      → HaveTargets t patch.updated_instances
      → Ends t (apply_patch_set vs fuel mutation t patch)
  unfolding apply_patch_set apply_removals
  apply_patch_set-Ends fuel t patch s none_removed parents targets =
      rw (none_removed, Ends) (apply_rest-Succeeds t patch s parents targets)
