-- ===== src/Patch/Updates.antt =====
-- The updates of a patch, and the rewriting of references at its end, keep the tree sound and do not
-- panic.
use roxo_mcp.Base.{true, List, Option, none, some, ◌≡◌, refl, ◌∙◌, arith, All, All-map}
use mathlib.Core.Option
use roxo_mcp.Base.Dict.{lookup-insert}
use roxo_mcp.RojoTree.Index.{InstanceMetadata, update_metadata}
use roxo_mcp.RojoTree.Coherent.{update_metadata-Coherent}
use roxo_mcp.RojoTree.Tree.{WeakDom, RojoTree, Instance, is_some}
use roxo_mcp.RojoTree.Sound.{IsSound, has}
use roxo_mcp.Patch.Variants.{Variants}
use roxo_mcp.Patch.Sets.{PatchUpdate, AppliedPatchUpdate}
use roxo_mcp.Patch.Apply.{
  Mutation, Application, change_metadata, apply_update_child, updated_instance, translate,
  push_updated, applied_update, defer_ref_properties,
}
use roxo_mcp.Patch.Context.{
  Ready, Advances, Advances-trans, AllKeys-map, expect_instance_there,
  defer_ref_properties-Advances,
}

is_some-map : {A B : Type 0} (f : A → B) (o : Option A) → is_some (Option.map f o) ≡ is_some o
is_some-map f none = refl
is_some-map f (some a) = refl

module _ {dom : WeakDom} where
  open dom use {Ref, Variant}

  has-update :
      (mutation : Mutation dom) (id r : Ref) (f : Instance Ref Variant → Instance Ref Variant)
      (d : dom.Dom)
      → is_some (dom.get_by_ref (mutation.update d id f) r) ≡ is_some (dom.get_by_ref d r)
  has-update mutation id r f d =
      ground (arith, mutation.get_by_ref-update d id r f, is_some-map f (dom.get_by_ref d r))

module _ {dom : WeakDom} {Rest : Type 0} where
  open dom use {ref_discrete, Ref, Variant}

  -- A sound tree with the instances of another.
  pub record Same (t u : RojoTree dom Rest) : Type 0 where
    pub sound : IsSound dom u
    pub same : (r : Ref) → has dom u r ≡ has dom t r

  change_metadata-Same :
      (id : Ref) (o : Option (InstanceMetadata Rest)) (t : RojoTree dom Rest)
      → IsSound dom t
      → has dom t id ≡ true
      → Same t (change_metadata id o t)
  unfolding change_metadata update_metadata
  change_metadata-Same id none t s e = record { sound = s; same = λ r. refl }
  change_metadata-Same id (some metadata) t s e =
      let (i, md, there, g) = expect_instance_there t id s e in
      record {
        sound = record {
          in_step = λ r.
              rw (g, update_metadata)
                (ground (
                  arith,
                  g,
                  s.in_step r,
                  lookup-insert ref_discrete id r metadata t.index.metadata_map,
                ));
          coherent = update_metadata-Coherent ref_discrete id md metadata t.index s.coherent g;
        };
        same = λ r. refl;
      }

  pub update-Same :
      (mutation : Mutation dom) (id : Ref) (f : Instance Ref Variant → Instance Ref Variant)
      (t : RojoTree dom Rest)
      → IsSound dom t
      → Same t (record t { inner = mutation.update t.inner id f })
  update-Same mutation id f t s = record {
    sound = record {
      in_step = λ r. has-update mutation id r f t.inner ∙ s.in_step r;
      coherent = s.coherent;
    };
    same = λ r. has-update mutation id r f t.inner;
  }

  with_tree-Ready :
      (t : RojoTree dom Rest) (a : Application dom Rest)
      → Ready a
      → Same a.tree t
      → Ready (record a { tree = t })
  with_tree-Ready t a r s =
      let keeps = λ (x : Ref) (e : has dom a.tree x ≡ true). s.same x ∙ e in
      record {
        sound = s.sound;
        refs =
            All-map (λ x. has dom a.tree x ≡ true) (λ x. has dom t x ≡ true) a.has_refs_to_rewrite
              keeps r.refs;
        attributes =
            AllKeys-map (λ x. has dom a.tree x ≡ true) (λ x. has dom t x ≡ true)
              a.attribute_refs_to_rewrite keeps r.attributes;
      }

  push_updated-Advances :
      (u : AppliedPatchUpdate dom Rest) (a : Application dom Rest)
      (o : Option (Application dom Rest))
      → Advances a o
      → Advances a (push_updated u o)
  push_updated-Advances u a none s = s
  push_updated-Advances u a (some b) s = record {
    ready = record { sound = s.ready.sound; refs = s.ready.refs; attributes = s.ready.attributes };
    keeps = s.keeps;
  }

  module _ (vs : Variants Ref Variant) (mutation : Mutation dom) where
    pub apply_update_child-Advances :
        (u : PatchUpdate dom Rest) (a : Application dom Rest)
        → Ready a
        → has dom a.tree u.id ≡ true
        → Advances a (apply_update_child vs mutation u a)
    unfolding apply_update_child
    apply_update_child-Advances u a r e =
        let t = change_metadata u.id u.changed_metadata a.tree in
        let s = change_metadata-Same u.id u.changed_metadata a.tree r.sound e in
        let (i, md, there, g) = expect_instance_there t u.id s.sound (s.same u.id ∙ e) in
        let w = update-Same mutation u.id (updated_instance vs (translate a) u) t s.sound in
        let t' : RojoTree dom Rest = record t {
          inner = mutation.update t.inner u.id (updated_instance vs (translate a) u);
        } in
        let b : Application dom Rest = record a { tree = t' } in
        let both : Same a.tree t' = record { sound = w.sound; same = λ x. w.same x ∙ s.same x } in
        let ready = with_tree-Ready t' a r both in
        rw (there, Advances)
          (push_updated-Advances (applied_update vs u) a (defer_ref_properties vs u.id b) (
            Advances-trans a b (defer_ref_properties vs u.id b)
              (record { ready = ready; keeps = λ x k. both.same x ∙ k })
              (defer_ref_properties-Advances vs u.id b ready (both.same u.id ∙ e))))

  -- The instances of the updates are in the tree.
  abbrev pub HaveTargets : RojoTree dom Rest → List (PatchUpdate dom Rest) → Type 0
  HaveTargets t us = All (λ u. has dom t u.id ≡ true) us
