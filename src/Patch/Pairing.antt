-- ===== src/Patch/Pairing.antt =====
-- Which child `compute_children_patches` pairs a snapshot's child with.
use Prim.Native.String.{String}
use roxo_mcp.Base.{
  Bool, true, false, ◌&&◌, List, [], ◌∷◌, ◌++◌, Option, none, some, ◌≡◌, refl, ap, arith, All, inl,
  inr, Option-cases, Bool-cases,
}
use roxo_mcp.RojoTree.Index.{InstanceMetadata}
use roxo_mcp.RojoTree.Tree.{WeakDom, RojoTree, Instance}
use roxo_mcp.Patch.Compute.{expect_instance, find_partner, flag_first, pass, same_text}
use roxo_mcp.Patch.Total.{IsThere, AreThere}

module _ {dom : WeakDom} {Rest : Type 0} (t : RojoTree dom Rest) (name class : String) where
  open dom use {Ref, Variant}

  abbrev fits : Option (Instance Ref Variant × InstanceMetadata Rest) → Bool
  fits none = false
  fits (some (i, md)) = same_text name i.name && same_text class i.class

  -- The child is an instance with the name and the class.
  abbrev pub matches : Ref → Bool
  matches id = fits (expect_instance t id)

  -- The child has a partner already, or does not match.
  abbrev pub Passed : Ref × Bool → Type 0
  Passed (id, true) = Unit
  Passed (id, false) = matches id ≡ false

  -- The search ends: either nothing matches and no flag changes, or it finds the first child without a
  -- partner that matches, and sets its flag alone.
  abbrev pub FindsFirst : List (Ref × Bool) → Option (Option Ref × List (Ref × Bool)) → Type 0
  FindsFirst children none = ⊥
  FindsFirst children (some (none, flagged)) = (flagged ≡ children) × All Passed children
  FindsFirst children (some (some partner, flagged)) =
      (before : List (Ref × Bool)) × (after : List (Ref × Bool)) × (children
        ≡ before ++ (partner, false) ∷ after)
      × (flagged ≡ before ++ (partner, true) ∷ after)
      × (matches partner ≡ true)
      × All Passed before

  pass-FindsFirst :
      (id : Ref) (rest : List (Ref × Bool)) (o : Option (Option Ref × List (Ref × Bool)))
      → FindsFirst rest o
      → FindsFirst ((id, true) ∷ rest) (pass id o)
  pass-FindsFirst id rest none f = f
  pass-FindsFirst id rest (some (none, flagged)) f = (ap (λ r. (id, true) ∷ r) f.0, (tt, f.1))
  pass-FindsFirst id rest (some (some partner, flagged)) (before, after, e, g, m, p) = (
    (id, true) ∷ before,
    after,
    ap (λ r. (id, true) ∷ r) e,
    ap (λ r. (id, true) ∷ r) g,
    m,
    (tt, p),
  )

  skip-FindsFirst :
      (id : Ref) (rest : List (Ref × Bool)) (o : Option (Option Ref × List (Ref × Bool)))
      → matches id ≡ false
      → FindsFirst rest o
      → FindsFirst
          ((id, false) ∷ rest)
          (elim o [ none ↦ none | some (partner, flagged) ↦ some (partner, (id, false) ∷ flagged) ])
  skip-FindsFirst id rest none n f = f
  skip-FindsFirst id rest (some (none, flagged)) n f = (ap (λ r. (id, false) ∷ r) f.0, (n, f.1))
  skip-FindsFirst id rest (some (some partner, flagged)) n (before, after, e, g, m, p) = (
    (id, false) ∷ before,
    after,
    ap (λ r. (id, false) ∷ r) e,
    ap (λ r. (id, false) ∷ r) g,
    m,
    (n, p),
  )

  flag_first-FindsFirst :
      (id : Ref) (rest : List (Ref × Bool)) (later : Option (Option Ref × List (Ref × Bool)))
      → IsThere t id
      → FindsFirst rest later
      → FindsFirst ((id, false) ∷ rest) (flag_first name class id rest later (expect_instance t id))
  flag_first-FindsFirst id rest later there f = elim (Option-cases (expect_instance t id)) [
    | inl e ↦ absurd (ground (arith, e, there))
    | inr ((i, md), e) ↦ elim (Bool-cases (same_text name i.name && same_text class i.class)) [
      | inl g ↦ rw (e, g, FindsFirst) ([], rest, refl, refl, rw (e, g, fits) refl, tt)
      | inr g ↦ rw (e, g, FindsFirst) (skip-FindsFirst id rest later (rw (e, g, fits) refl) f)
    ]
  ]

  -- Among children that exist, the search for a partner ends: with the first child that has no
  -- partner and has the snapshot's name and class, whose flag alone is set, or with none where no
  -- child without a partner has them.
  pub find_partner-FindsFirst :
      (children : List (Ref × Bool))
      → AreThere t children
      → FindsFirst children (find_partner t name class children)
  unfolding find_partner
  find_partner-FindsFirst [] h = (refl, tt)
  find_partner-FindsFirst ((id, true) ∷ rest) h =
      pass-FindsFirst id rest (find_partner t name class rest) (find_partner-FindsFirst rest h.1)
  find_partner-FindsFirst ((id, false) ∷ rest) h =
      flag_first-FindsFirst id rest (find_partner t name class rest) h.0
        (find_partner-FindsFirst rest h.1)
