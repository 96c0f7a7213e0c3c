-- ===== src/Patch/Total.antt =====
-- The computation of a patch does not panic on a tree whose instances' children exist, with values that
-- can be compared.
use Prim.Native.String.{String}
use roxo_mcp.Base.{
  Bool, true, false, List, [], ◌∷◌, Option, none, some, ◌≡◌, refl, ◌∙◌, arith, inl, inr,
  Option-cases, subst,
}
use roxo_mcp.RojoTree.Index.{InstanceMetadata}
use roxo_mcp.RojoTree.Tree.{
  WeakDom, RojoTree, Instance, InstanceSnapshot, Snapshots, snapshot, nil, cons, is_some,
}
use roxo_mcp.Patch.Properties.{compares_values}
use roxo_mcp.Patch.Compute.{
  Comparison, Gathered, expect_instance, find_partner, flag_first, pass, unflagged, property_update,
  push_added,
}
use roxo_mcp.Patch.Walk.{
  compute_patch_set_internal, compute_children, push_changed, note_id, remove_unpaired,
}
use roxo_mcp.Patch.Rewrite.{compute_patch_set, rewrite_patch, nothing_gathered}

module _ {dom : WeakDom} {Rest : Type 0} (t : RojoTree dom Rest) where
  open dom use {Ref, Variant}

  -- The instance and its metadata are there.
  abbrev pub IsThere : Ref → Type 0
  IsThere id = is_some (expect_instance t id) ≡ true

  abbrev pub AreThere : List (Ref × Bool) → Type 0
  AreThere [] = Unit
  AreThere ((id, flag) ∷ rest) = IsThere id × AreThere rest

  -- The children of every instance are there.
  abbrev pub IsClosed : Type 0
  IsClosed =
      (id : Ref) (i : Instance Ref Variant) (md : InstanceMetadata Rest)
      → expect_instance t id ≡ some (i, md)
      → AreThere (unflagged i.children)

  abbrev Searched : Option (Option Ref × List (Ref × Bool)) → Type 0
  Searched none = ⊥
  Searched (some (none, flagged)) = AreThere flagged
  Searched (some (some partner, flagged)) = IsThere partner × AreThere flagged

  pass-Searched :
      (id : Ref) (o : Option (Option Ref × List (Ref × Bool)))
      → IsThere id
      → Searched o
      → Searched (pass id o)
  pass-Searched id none h s = s
  pass-Searched id (some (none, flagged)) h s = (h, s)
  pass-Searched id (some (some partner, flagged)) h s = (s.0, (h, s.1))

  flag_later :
      (id : Ref) (o : Option (Option Ref × List (Ref × Bool)))
      → IsThere id
      → Searched o
      → Searched
          (elim o [ none ↦ none | some (partner, flagged) ↦ some (partner, (id, false) ∷ flagged) ])
  flag_later id none h s = s
  flag_later id (some (none, flagged)) h s = (h, s)
  flag_later id (some (some partner, flagged)) h s = (s.0, (h, s.1))

  flag_first-Searched :
      (name class : String) (id : Ref) (rest : List (Ref × Bool))
      (later : Option (Option Ref × List (Ref × Bool)))
      (o : Option (Instance Ref Variant × InstanceMetadata Rest))
      → is_some o ≡ true
      → IsThere id
      → AreThere rest
      → Searched later
      → Searched (flag_first name class id rest later o)
  flag_first-Searched name class id rest later none e h hs s = absurd cc
  flag_first-Searched name class id rest later (some (i, md)) e h hs s =
      ground (arith, flag_later id later h s)

  find_partner-Searched :
      (name class : String) (children : List (Ref × Bool))
      → AreThere children
      → Searched (find_partner t name class children)
  unfolding find_partner
  find_partner-Searched name class [] h = tt
  find_partner-Searched name class ((id, true) ∷ rest) h =
      pass-Searched id (find_partner t name class rest) h.0
        (find_partner-Searched name class rest h.1)
  find_partner-Searched name class ((id, false) ∷ rest) h =
      flag_first-Searched name class id rest (find_partner t name class rest) (expect_instance t id)
        h.0 h.0 h.1 (find_partner-Searched name class rest h.1)

is_some-remove_unpaired :
    {dom : WeakDom} {Rest : Type 0} (o : Option (List (dom.Ref × Bool) × Gathered dom Rest))
    → is_some (remove_unpaired o) ≡ is_some o
is_some-remove_unpaired none = refl
is_some-remove_unpaired (some (children, g)) = refl

unfoldable mutual
  -- The properties of no instance of the snapshot make the comparison panic, with those of whatever
  -- instance of the tree.
  pub IsComparable :
      {dom : WeakDom} {Rest : Type 0}
      → Comparison dom Rest
      → RojoTree dom Rest
      → InstanceSnapshot dom Rest
      → Type 0
  IsComparable {dom} {Rest} by t (snapshot sid metadata name class properties children) =
      ((id : dom.Ref) (i : Instance dom.Ref dom.Variant) (md : InstanceMetadata Rest)
        → expect_instance t id ≡ some (i, md)
        → compares_values by.variants properties i.properties ≡ true)
      × AreComparable by t children

  pub AreComparable :
      {dom : WeakDom} {Rest : Type 0}
      → Comparison dom Rest
      → RojoTree dom Rest
      → Snapshots dom Rest
      → Type 0
  AreComparable by t nil = Unit
  AreComparable by t (cons child rest) = IsComparable by t child × AreComparable by t rest

mutual
  unfolding compute_patch_set_internal compute_children IsComparable AreComparable

  compute_patch_set_internal-is_some :
      {dom : WeakDom} {Rest : Type 0} (by : Comparison dom Rest) (t : RojoTree dom Rest)
      (s : InstanceSnapshot dom Rest) (id : dom.Ref) (g : Gathered dom Rest)
      → IsClosed t
      → IsComparable by t s
      → IsThere t id
      → is_some (compute_patch_set_internal by t s id g) ≡ true
  compute_patch_set_internal-is_some by t (snapshot sid metadata name class properties children) id
        g closed (calm, below) there =
      elim (Option-cases (expect_instance t id)) [
        | inl e ↦ absurd (ground (arith, e, there))
        | inr ((i, md), e) ↦
            let g' =
              push_changed (property_update by t metadata name class properties i md id)
                (note_id by sid id g) in
            rw (e, calm id i md e, is_some)
              (is_some-remove_unpaired (compute_children by t children id (unflagged i.children) g')
                ∙ compute_children-is_some by t children id (unflagged i.children) g' closed below
                    (closed id i md e))
      ]

  compute_children-is_some :
      {dom : WeakDom} {Rest : Type 0} (by : Comparison dom Rest) (t : RojoTree dom Rest)
      (ss : Snapshots dom Rest) (id : dom.Ref) (children : List (dom.Ref × Bool))
      (g : Gathered dom Rest)
      → IsClosed t
      → AreComparable by t ss
      → AreThere t children
      → is_some (compute_children by t ss id children g) ≡ true
  compute_children-is_some by t nil id children g closed calm there = refl
  compute_children-is_some by t (cons (snapshot sid metadata name class properties below) rest) id
        children g closed (calm, calms) there =
      let s = snapshot sid metadata name class properties below in
      let searched = find_partner-Searched t name class children there in
      elim (Option-cases (find_partner t name class children)) [
        | inl e ↦ absurd (subst (Searched t) e searched)
        | inr ((none, flagged), e) ↦
            rw (e, is_some)
              (compute_children-is_some by t rest id flagged
                (push_added (record { parent_id = id; instance = s }) g) closed calms
                (subst (Searched t) e searched))
        | inr ((some partner, flagged), e) ↦
            let ready = subst (Searched t) e searched in
            elim (Option-cases (compute_patch_set_internal by t s partner g)) [
              | inl f ↦ absurd (
                  ground (
                    arith,
                    f,
                    compute_patch_set_internal-is_some by t
                        (snapshot sid metadata name class properties below) partner g closed calm
                        ready.0,
                  ))
              | inr (g', f) ↦
                  rw (e, f, is_some)
                    (compute_children-is_some by t rest id flagged g' closed calms ready.1)
            ]
      ]

-- Computing the patch for a snapshot does not panic, for an instance that is in the tree, where the
-- children of every instance are in the tree, and comparing the properties of no instance of the
-- snapshot with those of an instance of the tree panics.
pub compute_patch_set_total :
    {dom : WeakDom} {Rest : Type 0} (by : Comparison dom Rest) (t : RojoTree dom Rest)
    (s : InstanceSnapshot dom Rest) (id : dom.Ref)
    → IsClosed t
    → IsComparable by t s
    → IsThere t id
    → is_some (compute_patch_set by (some s) t id) ≡ true
unfolding compute_patch_set rewrite_patch
compute_patch_set_total by t s id closed calm there =
    elim (Option-cases (compute_patch_set_internal by t s id nothing_gathered)) [
      | inl e ↦ absurd (
          ground (
            arith,
            e,
            compute_patch_set_internal-is_some by t s id nothing_gathered closed calm there,
          ))
      | inr (g, e) ↦ rw (e, is_some) refl
    ]
