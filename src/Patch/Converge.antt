-- ===== src/Patch/Converge.antt =====
-- What the property changes of a patch are, name by name, and what applying them gives.
use Prim.Native.String.{String}
use roxo_mcp.Base.{
  Bool, true, false, not, [], ◌∷◌, Option, none, some, ◌≡◌, refl, ◌∙◌, ap, arith, ite,
  if◌then◌else◌, Bool-cases, inl, inr,
}
use roxo_mcp.Base.Dict.{lookup, IsDistinct, lookup-insert, lookup-remove}
use roxo_mcp.Base.Text.{String_discrete}
use roxo_mcp.RojoTree.Tree.{Properties, is_model_class, is_some}
use roxo_mcp.Patch.Variants.{Variants}
use roxo_mcp.Patch.Properties.{
  Changes, get, put, compare_value, compare_values, remove_values, point_to, point_refs,
  property_changes, migrate, needs_pivot_migration, start_migration, settle_migration, is_some_bool,
}
use roxo_mcp.Patch.Distinct.{changes_of}

module _ {Ref Variant : Type 0} (vs : Variants Ref Variant) where
  abbrev pub or_changed :
      Option Variant → Option Variant → Option (Option Variant) → Option (Option Variant)
  or_changed none old change = change
  or_changed (some value) none change = some (some value)
  or_changed (some value) (some old) change =
      if not (vs.variant_eq value old) then some (some value) else change

  abbrev pub or_removed :
      Option Variant → Option Variant → Option (Option Variant) → Option (Option Variant)
  or_removed (some value) old change = change
  or_removed none none change = change
  or_removed none (some old) change = some none

  get-compare_value :
      (k name : String) (value : Variant) (o : Option Variant) (changed : Changes Variant)
      → get k (compare_value vs name value o changed)
        ≡ ite (String_discrete name k) (or_changed (some value) o (get k changed)) (get k changed)
  get-compare_value k name value none changed =
      lookup-insert String_discrete name k (some value) changed
  get-compare_value k name value (some old) changed =
      ground (arith, lookup-insert String_discrete name k (some value) changed)

  get-compare_values :
      (k : String) (new old : Properties Variant) (changed : Changes Variant)
      → IsDistinct String_discrete new
      → get k (compare_values vs new old changed)
        ≡ or_changed (get k new) (get k old) (get k changed)
  unfolding compare_values lookup
  get-compare_values k [] old changed d = refl
  get-compare_values k ((name, value) ∷ new) old changed d = ground (
    arith,
    get-compare_values k new old (compare_value vs name value (get name old) changed),
    get-compare_value k name value (get name old) changed,
  )

  get-remove_values :
      (k : String) (new old : Properties Variant) (changed : Changes Variant)
      → get k (remove_values vs new old changed)
        ≡ or_removed (get k new) (get k old) (get k changed)
  unfolding remove_values lookup
  get-remove_values k new [] changed = ground arith
  get-remove_values k new ((name, value) ∷ old) changed = ground (
    arith,
    get-remove_values k new old (if is_some (get name new) then changed else put name none changed),
    lookup-insert String_discrete name k none changed,
  )

  abbrev pub pointed :
      Option (Option Variant) → Option Variant → Option (Option Variant) → Option (Option Variant)
  pointed none old change = change
  pointed (some (some target)) (some value) change =
      if not (vs.same target value) then some (some target) else none
  pointed (some (some target)) none change = some (some target)
  pointed (some none) (some value) change = some none
  pointed (some none) none change = none

  get-point_to :
      (k name : String) (target old : Option Variant) (changed : Changes Variant)
      → get k (point_to vs name target old changed)
        ≡ ite (String_discrete name k) (pointed (some target) old (get k changed)) (get k changed)
  get-point_to k name (some target) (some value) changed = ground (
    arith,
    lookup-insert String_discrete name k (some target) changed,
    lookup-remove String_discrete name k changed,
  )
  get-point_to k name (some target) none changed =
      lookup-insert String_discrete name k (some target) changed
  get-point_to k name none (some value) changed = lookup-insert String_discrete name k none changed
  get-point_to k name none none changed = lookup-remove String_discrete name k changed

  get-point_refs :
      (k : String) (refs : Changes Variant) (old : Properties Variant) (changed : Changes Variant)
      → IsDistinct String_discrete refs
      → get k (point_refs vs refs old changed) ≡ pointed (get k refs) (get k old) (get k changed)
  unfolding point_refs lookup
  get-point_refs k [] old changed d = refl
  get-point_refs k ((name, target) ∷ refs) old changed d = ground (
    arith,
    get-point_refs k refs old (point_to vs name target (get name old) changed),
    get-point_to k name target (get name old) changed,
  )

  abbrev pub migrated : Option Variant → Option (Option Variant) → Option (Option Variant)
  migrated (some old) none = some (some (vs.bool_variant false))
  migrated (some old) (some none) = none
  migrated (some old) (some (some value)) =
      if is_some_bool (vs.as_bool value)
      then some (some value)
      else some (some (vs.bool_variant false))
  migrated none change = some (some (vs.bool_variant false))

  abbrev settled : Option (Option Variant) → Option (Option Variant)
  settled none = some (some (vs.bool_variant false))
  settled (some none) = none
  settled (some (some value)) =
      if is_some_bool (vs.as_bool value)
      then some (some value)
      else some (some (vs.bool_variant false))

  get-settle_migration :
      (k : String) (o : Option (Option Variant)) (changed : Changes Variant)
      → get needs_pivot_migration changed ≡ o
      → get k (settle_migration vs o changed)
        ≡ ite (String_discrete needs_pivot_migration k) (settled o) (get k changed)
  get-settle_migration k none changed e =
      lookup-insert String_discrete needs_pivot_migration k (some (vs.bool_variant false)) changed
  get-settle_migration k (some none) changed e =
      lookup-remove String_discrete needs_pivot_migration k changed
  get-settle_migration k (some (some value)) changed e = ground (
    arith,
    lookup-insert String_discrete needs_pivot_migration k (some (vs.bool_variant false)) changed,
  )

  get-start_migration :
      (k : String) (old : Properties Variant) (changed : Changes Variant)
      → get k (start_migration vs old changed) ≡ (
          if is_some (get needs_pivot_migration old)
          then get k changed
          else ite
              (String_discrete needs_pivot_migration k)
              (some (some (vs.bool_variant false)))
              (get k changed))
  get-start_migration k old changed = ground (
    arith,
    lookup-insert String_discrete needs_pivot_migration k (some (vs.bool_variant false)) changed,
  )

  settled_started :
      (o : Option Variant) (change : Option (Option Variant))
      → settled (if is_some o then change else some (some (vs.bool_variant false)))
        ≡ migrated o change
  settled_started none change = rw (vs.as_bool_variant false) refl
  settled_started (some old) none = refl
  settled_started (some old) (some none) = refl
  settled_started (some old) (some (some value)) = refl

  get-migrate :
      (k class : String) (old : Properties Variant) (changed : Changes Variant)
      → get k (migrate vs class old changed) ≡ (
          if is_model_class class
          then ite
              (String_discrete needs_pivot_migration k)
              (migrated (get needs_pivot_migration old) (get needs_pivot_migration changed))
              (get k changed)
          else get k changed)
  unfolding migrate
  get-migrate k class old changed = elim (Bool-cases (is_model_class class)) [
    | inl e ↦
        let started = start_migration vs old changed in
        let o = get needs_pivot_migration started in
        ground (
          arith,
          e,
          get-settle_migration k o started refl,
          get-start_migration k old changed,
          get-start_migration needs_pivot_migration old changed,
          settled_started (get needs_pivot_migration old) (get needs_pivot_migration changed),
        )
    | inr e ↦ rw e refl
  ]

  -- A property whose value the hack for pivots decides: `NeedsPivotMigration` of a model.
  abbrev pub migrates : String → String → Bool
  migrates class k = ite (String_discrete needs_pivot_migration k) (is_model_class class) false

  get-migrate_other :
      (k class : String) (old : Properties Variant) (changed : Changes Variant)
      → migrates class k ≡ false
      → get k (migrate vs class old changed) ≡ get k changed
  get-migrate_other k class old changed plain = ground (arith, get-migrate k class old changed)

  get-changes_of :
      (k : String) (new old : Properties Variant) (refs : Changes Variant)
      → IsDistinct String_discrete new
      → IsDistinct String_discrete refs
      → get k (changes_of vs new old refs)
        ≡ pointed
            (get k refs)
            (get k old)
            (or_removed (get k new) (get k old) (or_changed (get k new) (get k old) none))
  unfolding lookup
  get-changes_of k new old refs d e =
      let compared = compare_values vs new old [] in
      get-point_refs k refs old (remove_values vs new old compared) e
      ∙ ap (pointed (get k refs) (get k old)) (
          get-remove_values k new old compared
          ∙ ap (or_removed (get k new) (get k old)) (get-compare_values k new old [] d))

  pub get-property_changes_mark :
      (class : String) (new old : Properties Variant) (refs : Changes Variant)
      → IsDistinct String_discrete new
      → IsDistinct String_discrete refs
      → is_model_class class ≡ true
      → get needs_pivot_migration (property_changes vs class new old refs)
        ≡ migrated (get needs_pivot_migration old) (
            pointed (get needs_pivot_migration refs) (get needs_pivot_migration old) (
              or_removed
                (get needs_pivot_migration new)
                (get needs_pivot_migration old)
                (or_changed (get needs_pivot_migration new) (get needs_pivot_migration old) none)))
  unfolding property_changes
  get-property_changes_mark class new old refs d e model =
      let k = needs_pivot_migration in
      let at_model = get-migrate k class old (changes_of vs new old refs) in
      ground (arith, at_model, model)
      ∙ ap (migrated (get k old)) (get-changes_of k new old refs d e)

  pub get-property_changes :
      (k class : String) (new old : Properties Variant) (refs : Changes Variant)
      → IsDistinct String_discrete new
      → IsDistinct String_discrete refs
      → migrates class k ≡ false
      → get k (property_changes vs class new old refs)
        ≡ pointed
            (get k refs)
            (get k old)
            (or_removed (get k new) (get k old) (or_changed (get k new) (get k old) none))
  unfolding property_changes
  get-property_changes k class new old refs d e plain =
      get-migrate_other k class old (changes_of vs new old refs) plain
      ∙ get-changes_of k new old refs d e
