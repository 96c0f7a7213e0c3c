-- ===== src/Patch/Distinct.antt =====
-- The names among the property changes that patch_compute.rs computes for an instance.
use Prim.Native.String.{String}
use roxo_mcp.Base.{Bool, true, false, not, [], ◌∷◌, Option, none, some, arith, if◌then◌else◌}
use roxo_mcp.Base.Dict.{IsDistinct, insert-IsDistinct, remove-IsDistinct}
use roxo_mcp.Base.Text.{String_discrete}
use roxo_mcp.RojoTree.Tree.{Properties, is_some}
use roxo_mcp.Patch.Variants.{Variants}
use roxo_mcp.Patch.Properties.{
  Changes, get, put, compare_value, compare_values, remove_values, point_to, point_refs,
  property_changes, migrate, needs_pivot_migration, start_migration, settle_migration,
}

module _ {Ref Variant : Type 0} (vs : Variants Ref Variant) where
  abbrev pub changes_of :
      Properties Variant → Properties Variant → Changes Variant → Changes Variant
  changes_of new old refs =
      point_refs vs refs old (remove_values vs new old (compare_values vs new old []))

  put_if-IsDistinct :
      (b : Bool) (name : String) (change : Option Variant) (changed : Changes Variant)
      → IsDistinct String_discrete changed
      → IsDistinct String_discrete (if b then put name change changed else changed)
  put_if-IsDistinct true name change changed d =
      insert-IsDistinct String_discrete name change changed d
  put_if-IsDistinct false name change changed d = d

  compare_value-IsDistinct :
      (name : String) (value : Variant) (o : Option Variant) (changed : Changes Variant)
      → IsDistinct String_discrete changed
      → IsDistinct String_discrete (compare_value vs name value o changed)
  compare_value-IsDistinct name value none changed d =
      insert-IsDistinct String_discrete name (some value) changed d
  compare_value-IsDistinct name value (some old) changed d =
      put_if-IsDistinct (not (vs.variant_eq value old)) name (some value) changed d

  compare_values-IsDistinct :
      (new old : Properties Variant) (changed : Changes Variant)
      → IsDistinct String_discrete changed
      → IsDistinct String_discrete (compare_values vs new old changed)
  unfolding compare_values
  compare_values-IsDistinct [] old changed d = d
  compare_values-IsDistinct ((name, value) ∷ new) old changed d =
      compare_values-IsDistinct new old (compare_value vs name value (get name old) changed)
        (compare_value-IsDistinct name value (get name old) changed d)

  remove_values-IsDistinct :
      (new old : Properties Variant) (changed : Changes Variant)
      → IsDistinct String_discrete changed
      → IsDistinct String_discrete (remove_values vs new old changed)
  unfolding remove_values
  remove_values-IsDistinct new [] changed d = d
  remove_values-IsDistinct new ((name, value) ∷ old) changed d =
      remove_values-IsDistinct new old
        (if is_some (get name new) then changed else put name none changed)
        (ground (arith, insert-IsDistinct String_discrete name none changed d))

  point_to-IsDistinct :
      (name : String) (target old : Option Variant) (changed : Changes Variant)
      → IsDistinct String_discrete changed
      → IsDistinct String_discrete (point_to vs name target old changed)
  point_to-IsDistinct name (some target) (some value) changed d = ground (
    arith,
    insert-IsDistinct String_discrete name (some target) changed d,
    remove-IsDistinct String_discrete name changed d,
  )
  point_to-IsDistinct name (some target) none changed d =
      insert-IsDistinct String_discrete name (some target) changed d
  point_to-IsDistinct name none (some value) changed d =
      insert-IsDistinct String_discrete name none changed d
  point_to-IsDistinct name none none changed d = remove-IsDistinct String_discrete name changed d

  point_refs-IsDistinct :
      (refs : Changes Variant) (old : Properties Variant) (changed : Changes Variant)
      → IsDistinct String_discrete changed
      → IsDistinct String_discrete (point_refs vs refs old changed)
  unfolding point_refs
  point_refs-IsDistinct [] old changed d = d
  point_refs-IsDistinct ((name, target) ∷ refs) old changed d =
      point_refs-IsDistinct refs old (point_to vs name target (get name old) changed)
        (point_to-IsDistinct name target (get name old) changed d)

  settle_migration-IsDistinct :
      (o : Option (Option Variant)) (changed : Changes Variant)
      → IsDistinct String_discrete changed
      → IsDistinct String_discrete (settle_migration vs o changed)
  settle_migration-IsDistinct none changed d =
      insert-IsDistinct String_discrete needs_pivot_migration (some (vs.bool_variant false)) changed
        d
  settle_migration-IsDistinct (some none) changed d =
      remove-IsDistinct String_discrete needs_pivot_migration changed d
  settle_migration-IsDistinct (some (some value)) changed d = ground (
    arith,
    insert-IsDistinct String_discrete needs_pivot_migration (some (vs.bool_variant false)) changed
        d,
  )

  pub property_changes-IsDistinct :
      (class : String) (new old : Properties Variant) (refs : Changes Variant)
      → IsDistinct String_discrete (property_changes vs class new old refs)
  unfolding property_changes migrate
  property_changes-IsDistinct class new old refs =
      let changed = changes_of new old refs in
      let d =
        point_refs-IsDistinct refs old (remove_values vs new old (compare_values vs new old [])) (
          remove_values-IsDistinct new old (compare_values vs new old [])
            (compare_values-IsDistinct new old [] tt)) in
      let started = start_migration vs old changed in
      let e =
        put_if-IsDistinct (not (is_some (get needs_pivot_migration old))) needs_pivot_migration
          (some (vs.bool_variant false)) changed d in
      ground (arith, settle_migration-IsDistinct (get needs_pivot_migration started) started e)
