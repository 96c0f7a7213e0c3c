-- ===== src/Patch/Outcome.antt =====
-- What an instance's properties are after a patch that was computed from a snapshot is applied.
use Prim.Native.String.{String}
use roxo_mcp.Base.{
  true, false, [], ◌∷◌, Option, none, some, ◌≡◌, ◌⊎◌, refl, sym, subst, ◌∙◌, ap, arith, ite,
  if◌then◌else◌,
}
use roxo_mcp.Base.Dict.{lookup, IsDistinct, lookup-insert, lookup-remove}
use roxo_mcp.Base.Text.{String_discrete}
use roxo_mcp.RojoTree.Tree.{Properties, is_model_class}
use roxo_mcp.Patch.Variants.{Variants}
use roxo_mcp.Patch.Properties.{
  Changes, needs_pivot_migration, get, property_changes, apply_value, apply_change, apply_changes,
}
use roxo_mcp.Patch.Distinct.{property_changes-IsDistinct}
use roxo_mcp.Patch.Converge.{
  migrates, get-property_changes, get-property_changes_mark, migrated, pointed, or_removed,
  or_changed,
}

module _ {Ref Variant : Type 0} (vs : Variants Ref Variant) where
  -- The value agrees with what the snapshot says of the property.
  abbrev pub Agrees : Option Variant → Option Variant → Type 0
  Agrees none found = found ≡ none
  Agrees (some value) none = none ≡ some value
  Agrees (some value) (some found) = (found ≡ value) ⊎ (vs.variant_eq value found ≡ true)

  abbrev pub IsPlain : Option Variant → Type 0
  IsPlain none = Unit
  IsPlain (some value) = vs.as_ref value ≡ none

module _ {Ref Variant : Type 0} (vs : Variants Ref Variant) (translate : Ref → Ref) where
  abbrev valued : Variant → Option Ref → Option Variant → Option Variant
  valued value none old = some value
  valued value (some r) old = if vs.is_some_ref r then some (vs.ref_variant (translate r)) else old

  abbrev applied : Option (Option Variant) → Option Variant → Option Variant
  applied none old = old
  applied (some none) old = none
  applied (some (some value)) old = valued value (vs.as_ref value) old

  get-apply_value :
      (k name : String) (value : Variant) (o : Option Ref) (properties : Properties Variant)
      → get k (apply_value vs translate name value o properties)
        ≡ ite (String_discrete name k) (valued value o (get k properties)) (get k properties)
  get-apply_value k name value none properties =
      lookup-insert String_discrete name k value properties
  get-apply_value k name value (some r) properties =
      ground (arith, lookup-insert String_discrete name k (vs.ref_variant (translate r)) properties)

  get-apply_change :
      (k name : String) (change : Option Variant) (properties : Properties Variant)
      → get k (apply_change vs translate name change properties)
        ≡ ite (String_discrete name k) (applied (some change) (get k properties)) (get k properties)
  get-apply_change k name none properties = lookup-remove String_discrete name k properties
  get-apply_change k name (some value) properties =
      get-apply_value k name value (vs.as_ref value) properties

  get-apply_changes :
      (k : String) (changes : Changes Variant) (properties : Properties Variant)
      → IsDistinct String_discrete changes
      → get k (apply_changes vs translate changes properties)
        ≡ applied (get k changes) (get k properties)
  unfolding apply_changes lookup
  get-apply_changes k [] properties d = refl
  get-apply_changes k ((name, change) ∷ changes) properties d = ground (
    arith,
    get-apply_changes k changes (apply_change vs translate name change properties),
    get-apply_change k name change properties,
  )

  -- The properties of an instance of a class after the patch for a snapshot's.
  abbrev pub synced :
      String → Properties Variant → Properties Variant → Changes Variant → Properties Variant
  synced class new old refs =
      apply_changes vs translate (property_changes vs class new old refs) old

  abbrev outcome : Option Variant → Option Variant → Option (Option Variant) → Option Variant
  outcome new old target =
      applied (pointed vs target old (or_removed vs new old (or_changed vs new old none))) old

  get-synced :
      (k class : String) (new old : Properties Variant) (refs : Changes Variant)
      → IsDistinct String_discrete new
      → IsDistinct String_discrete refs
      → migrates vs class k ≡ false
      → get k (synced class new old refs) ≡ outcome (get k new) (get k old) (get k refs)
  get-synced k class new old refs d e plain =
      get-apply_changes k (property_changes vs class new old refs) old
        (property_changes-IsDistinct vs class new old refs)
      ∙ ap (λ c. applied c (get k old)) (get-property_changes vs k class new old refs d e plain)

  outcome-Agrees :
      (new old : Option Variant) → IsPlain vs new → Agrees vs new (outcome new old none)
  outcome-Agrees none none plain = refl
  outcome-Agrees none (some old) plain = refl
  outcome-Agrees (some value) none plain = ground arith
  outcome-Agrees (some value) (some old) plain = ground arith

  -- A property that is neither a reference nor the migration mark of a model: after the patch, the
  -- instance lacks it if the snapshot does, and otherwise has the snapshot's value or one equal to it.
  pub synced-Agrees :
      (k class : String) (new old : Properties Variant) (refs : Changes Variant)
      → IsDistinct String_discrete new
      → IsDistinct String_discrete refs
      → migrates vs class k ≡ false
      → get k refs ≡ none
      → IsPlain vs (get k new)
      → Agrees vs (get k new) (get k (synced class new old refs))
  synced-Agrees k class new old refs d e plain free h =
      subst (Agrees vs (get k new))
        (sym
          (get-synced k class new old refs d e plain ∙ ap (outcome (get k new) (get k old)) free))
        (outcome-Agrees (get k new) (get k old) h)

  outcome_null :
      (value : Variant) (r : Ref) (old : Option Variant)
      → vs.as_ref value ≡ some r
      → vs.is_some_ref r ≡ false
      → outcome (some value) old none ≡ old
  outcome_null value r none e null = ground arith
  outcome_null value r (some old) e null = ground arith

  -- Where neither the snapshot's properties nor those that its attributes specify have a name
  -- twice: a property that the snapshot sets to the null reference is left as it was, if no
  -- attribute specifies it and it is not the migration mark of a model.
  pub synced_null :
      (k class : String) (new old : Properties Variant) (refs : Changes Variant) (value : Variant)
      (r : Ref)
      → IsDistinct String_discrete new
      → IsDistinct String_discrete refs
      → migrates vs class k ≡ false
      → get k refs ≡ none
      → get k new ≡ some value
      → vs.as_ref value ≡ some r
      → vs.is_some_ref r ≡ false
      → get k (synced class new old refs) ≡ get k old
  synced_null k class new old refs value r d e plain free present h null =
      get-synced k class new old refs d e plain
      ∙ ap (outcome (get k new) (get k old)) free
      ∙ ap (λ n. outcome n (get k old) none) present
      ∙ outcome_null value r (get k old) h null

  marked :
      (target : Option (Option Variant)) (new old : Option Variant) (value found : Variant)
      → target ≡ none
      → new ≡ some value
      → old ≡ some found
      → vs.variant_eq value found ≡ true
      → applied
          (migrated vs old
            (pointed vs target old (or_removed vs new old (or_changed vs new old none))))
          old
        ≡ some (vs.bool_variant false)
  marked target new old value found e f g h = rw (e, f, g, h, vs.as_ref_bool false) refl

  -- On a model whose `NeedsPivotMigration` already equals what the snapshot says of it, the patch sets
  -- the property to false.
  pub synced_mark :
      (class : String) (new old : Properties Variant) (refs : Changes Variant)
      (value found : Variant)
      → IsDistinct String_discrete new
      → IsDistinct String_discrete refs
      → is_model_class class ≡ true
      → get needs_pivot_migration refs ≡ none
      → get needs_pivot_migration new ≡ some value
      → get needs_pivot_migration old ≡ some found
      → vs.variant_eq value found ≡ true
      → get needs_pivot_migration (synced class new old refs) ≡ some (vs.bool_variant false)
  synced_mark class new old refs value found d e model free present there same =
      let k = needs_pivot_migration in
      get-apply_changes k (property_changes vs class new old refs) old
        (property_changes-IsDistinct vs class new old refs)
      ∙ ap (λ c. applied c (get k old)) (get-property_changes_mark vs class new old refs d e model)
      ∙ marked (get k refs) (get k new) (get k old) value found free present there same
