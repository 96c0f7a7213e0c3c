-- ===== src/Patch/Additions.antt =====
-- The additions and the updates of a patch keep the tree sound and do not panic.
use Prim.Native.String.{String}
use roxo_mcp.Base.{
  Bool, true, false, List, [], ◌∷◌, ◌≡◌, arith, All, All-map, if◌then◌else◌, inl, inr, Option-cases,
  subst,
}
use roxo_mcp.RojoTree.Index.{InstanceMetadata}
use roxo_mcp.RojoTree.Tree.{
  WeakDom, RojoTree, InstanceSnapshot, Snapshots, snapshot, nil, cons, Properties, insert_instance,
  insert_children, insert_one, builder_of,
}
use roxo_mcp.RojoTree.Sound.{has, Inserted, insert_instance-Inserted}
use roxo_mcp.Patch.Variants.{Variants}
use roxo_mcp.Patch.Sets.{PatchAdd}
use roxo_mcp.Patch.Deferred.{insert_ref, has_refs}
use roxo_mcp.Patch.Apply.{Application, defer_ref_properties}
use roxo_mcp.Patch.Finish.{note_added, apply_add_child, apply_add_children, apply_additions}
use roxo_mcp.Patch.Context.{
  Ready, Advanced, Advances, Advances-trans, AllKeys-map, insert_ref-All,
  defer_ref_properties-Advances,
}

if-All :
    {A : Type 0} (P : A → Type 0) (b : Bool) (xs ys : List A)
    → All P xs
    → All P ys
    → All P (if b then xs else ys)
if-All P true xs ys h k = h
if-All P false xs ys h k = k

module _ {dom : WeakDom} {Rest : Type 0} (vs : Variants dom.Ref dom.Variant) where
  open dom use {ref_discrete, Ref, Variant}

  has-insert_instance :
      (t : RojoTree dom Rest) (parent sid : Ref) (metadata : InstanceMetadata Rest)
      (name class : String) (properties : Properties Variant)
      → has dom t parent ≡ true
      → has dom
          (insert_instance dom t parent (snapshot sid metadata name class properties nil)).0
          (insert_instance dom t parent (snapshot sid metadata name class properties nil)).1
        ≡ true
  unfolding insert_instance insert_children insert_one
  has-insert_instance t parent sid metadata name class properties e =
      let b = builder_of dom name class properties in
      ground (arith, dom.insert_adds t.inner parent b (dom.insert t.inner parent b).1 e)

  note_added-Advanced :
      (sid id : Ref) (properties : Properties Variant) (t : RojoTree dom Rest)
      (a : Application dom Rest)
      → Ready a
      → Inserted dom a.tree t
      → has dom t id ≡ true
      → Advanced a (note_added vs sid properties id t a)
  unfolding note_added
  note_added-Advanced sid id properties t a r grown e =
      let refs =
        All-map (λ s. has dom a.tree s ≡ true) (λ s. has dom t s ≡ true) a.has_refs_to_rewrite
          grown.keeps r.refs in
      record {
        ready = record {
          sound = grown.sound;
          refs =
              if-All (λ s. has dom t s ≡ true) (has_refs vs properties)
                (insert_ref ref_discrete id a.has_refs_to_rewrite) a.has_refs_to_rewrite
                (insert_ref-All ref_discrete (λ s. has dom t s ≡ true) id a.has_refs_to_rewrite e
                  refs)
                refs;
          attributes =
              AllKeys-map (λ s. has dom a.tree s ≡ true) (λ s. has dom t s ≡ true)
                a.attribute_refs_to_rewrite grown.keeps r.attributes;
        };
        keeps = grown.keeps;
      }

mutual
  unfolding apply_add_child apply_add_children

  apply_add_child-Advances :
      {dom : WeakDom} {Rest : Type 0} (vs : Variants dom.Ref dom.Variant) (parent : dom.Ref)
      (s : InstanceSnapshot dom Rest) (a : Application dom Rest)
      → Ready a
      → has dom a.tree parent ≡ true
      → Advances a (apply_add_child vs parent s a)
  apply_add_child-Advances {dom} vs parent (snapshot sid metadata name class properties children) a
        r e =
      let placed =
        insert_instance dom a.tree parent (snapshot sid metadata name class properties nil) in
      let there = has-insert_instance vs a.tree parent sid metadata name class properties e in
      let noted = note_added vs sid properties placed.1 placed.0 a in
      let first =
        note_added-Advanced vs sid placed.1 properties placed.0 a r
          (insert_instance-Inserted dom a.tree parent
            (snapshot sid metadata name class properties nil) r.sound e)
          there in
      let below = apply_add_children-Advances vs placed.1 children noted first.ready there in
      elim (Option-cases (apply_add_children vs placed.1 children noted)) [
        | inl f ↦ absurd (subst (Advances noted) f below)
        | inr (b, f) ↦
            let later : Advanced noted b = subst (Advances noted) f below in
            rw (f, Advances)
              (Advances-trans a b (defer_ref_properties vs placed.1 b)
                (record { ready = later.ready; keeps = λ s k. later.keeps s (first.keeps s k) })
                (defer_ref_properties-Advances vs placed.1 b later.ready
                  (later.keeps placed.1 there)))
      ]

  apply_add_children-Advances :
      {dom : WeakDom} {Rest : Type 0} (vs : Variants dom.Ref dom.Variant) (id : dom.Ref)
      (ss : Snapshots dom Rest) (a : Application dom Rest)
      → Ready a
      → has dom a.tree id ≡ true
      → Advances a (apply_add_children vs id ss a)
  apply_add_children-Advances vs id nil a r e = record { ready = r; keeps = λ s k. k }
  apply_add_children-Advances vs id (cons child rest) a r e =
      let head = apply_add_child-Advances vs id child a r e in
      elim (Option-cases (apply_add_child vs id child a)) [
        | inl f ↦ absurd (subst (Advances a) f head)
        | inr (b, f) ↦
            let first : Advanced a b = subst (Advances a) f head in
            rw (f, Advances)
              (Advances-trans a b (apply_add_children vs id rest b) first
                (apply_add_children-Advances vs id rest b first.ready (first.keeps id e)))
      ]

module _ {dom : WeakDom} {Rest : Type 0} (vs : Variants dom.Ref dom.Variant) where
  open dom use {ref_discrete, Ref, Variant}

  -- The parents of the additions are in the tree.
  abbrev pub HaveParents : RojoTree dom Rest → List (PatchAdd dom Rest) → Type 0
  HaveParents t [] = Unit
  HaveParents t (add ∷ adds) = (has dom t add.parent_id ≡ true) × HaveParents t adds

  HaveParents-keeps :
      (t u : RojoTree dom Rest) (adds : List (PatchAdd dom Rest))
      → ((r : Ref) → has dom t r ≡ true → has dom u r ≡ true)
      → HaveParents t adds
      → HaveParents u adds
  HaveParents-keeps t u [] keeps h = tt
  HaveParents-keeps t u (add ∷ adds) keeps h =
      (keeps add.parent_id h.0, HaveParents-keeps t u adds keeps h.1)

  pub apply_additions-Advances :
      (adds : List (PatchAdd dom Rest)) (a : Application dom Rest)
      → Ready a
      → HaveParents a.tree adds
      → Advances a (apply_additions vs adds a)
  unfolding apply_additions
  apply_additions-Advances [] a r h = record { ready = r; keeps = λ s k. k }
  apply_additions-Advances (add ∷ adds) a r h =
      let head = apply_add_child-Advances vs add.parent_id add.instance a r h.0 in
      elim (Option-cases (apply_add_child vs add.parent_id add.instance a)) [
        | inl f ↦ absurd (subst (Advances a) f head)
        | inr (b, f) ↦
            let first : Advanced a b = subst (Advances a) f head in
            rw (f, Advances)
              (Advances-trans a b (apply_additions vs adds b) first (
                apply_additions-Advances adds b first.ready
                  (HaveParents-keeps a.tree b.tree adds first.keeps h.1)))
      ]
