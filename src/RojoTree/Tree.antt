-- ===== src/RojoTree/Tree.antt =====
-- `RojoTree` (snapshot/tree.rs) over the instances of rbx_dom_weak, which are a parameter.
use Prim.Native.String.{String}
use roxo_mcp.Base.{
  ℕ, zero, suc, ◌≡◌, Bool, true, false, not, ◌&&◌, List, [], ◌∷◌, ◌++◌, Option, none, some, ite,
  if◌then◌else◌,
}
use roxo_mcp.Base.Dict.{lookup, insert as insert_entry}
use roxo_mcp.Base.Text.{String_discrete}
use roxo_mcp.MultiMap.{contains}
use roxo_mcp.RojoTree.Index.{
  InstanceMetadata, Index, insert_metadata, remove_metadata, get_metadata,
}

abbrev pub Properties : Type 0 → Type 0
Properties Variant = List (String × Variant)

-- rbx_dom_weak's `InstanceBuilder` and `Instance`.
pub record InstanceBuilder (Variant : Type 0) : Type 0 where
  pub class : String
  pub name : String
  pub properties : Properties Variant

pub record Instance (Ref Variant : Type 0) : Type 0 where
  pub referent : Ref
  pub parent : Ref
  pub name : String
  pub class : String
  pub properties : Properties Variant
  pub children : List Ref

abbrev pub is_some : {A : Type 0} → Option A → Bool
is_some none = false
is_some (some a) = true

abbrev pub children_of : {Ref Variant : Type 0} → Option (Instance Ref Variant) → List Ref
children_of none = []
children_of (some i) = i.children

-- What the tree uses of rbx_dom_weak, with what it documents of `insert`: the new instance gets a
-- reference of its own, and no other instance appears or goes away.
pub record WeakDom : Type 1 where
  pub Dom : Type 0
  pub Ref : Type 0
  pub Variant : Type 0
  pub ref_discrete : Discrete Ref
  pub bool_variant : Bool → Variant
  pub new_dom : InstanceBuilder Variant → Dom
  pub root_ref : Dom → Ref
  pub insert : Dom → Ref → InstanceBuilder Variant → Dom × Ref
  pub destroy : Dom → Ref → Dom
  pub get_by_ref : Dom → Ref → Option (Instance Ref Variant)
  pub insert_fresh :
      (d : Dom) (parent : Ref) (b : InstanceBuilder Variant)
      → is_some (get_by_ref d parent) ≡ true
      → is_some (get_by_ref d (insert d parent b).1) ≡ false
  pub insert_adds :
      (d : Dom) (parent : Ref) (b : InstanceBuilder Variant) (r : Ref)
      → is_some (get_by_ref d parent) ≡ true
      → is_some (get_by_ref (insert d parent b).0 r)
        ≡ ite (ref_discrete (insert d parent b).1 r) true (is_some (get_by_ref d r))
  pub new_root :
      (b : InstanceBuilder Variant) (r : Ref)
      → is_some (get_by_ref (new_dom b) r) ≡ ite (ref_discrete (root_ref (new_dom b)) r) true false

mutual
  -- snapshot/instance_snapshot.rs: the transient ID, metadata, name, class, properties, children.
  pub data InstanceSnapshot (dom : WeakDom) (Rest : Type 0) : Type 0 where
    snapshot :
        dom.Ref
        → InstanceMetadata Rest
        → String
        → String
        → Properties dom.Variant
        → Snapshots dom Rest
        → InstanceSnapshot dom Rest

  pub data Snapshots (dom : WeakDom) (Rest : Type 0) : Type 0 where
    nil : Snapshots dom Rest
    cons : InstanceSnapshot dom Rest → Snapshots dom Rest → Snapshots dom Rest

-- The classes that inherit from Model.
abbrev model_classes : List String
model_classes =
    "Model" ∷ "Actor" ∷ "Tool" ∷ "HopperBin" ∷ "Flag" ∷ "WorldModel" ∷ "Workspace" ∷ "Status" ∷ []

abbrev pub is_model_class : String → Bool
is_model_class class = contains String_discrete class model_classes

-- `with_properties`: later values replace earlier ones.
unfoldable pub extend : {V : Type 0} → Properties V → Properties V → Properties V
extend ps [] = ps
extend ps ((k, v) ∷ qs) = extend (insert_entry String_discrete k v ps) qs

pub record RojoTree (dom : WeakDom) (Rest : Type 0) : Type 0 where
  pub inner : dom.Dom
  pub index : Index dom.Ref Rest

-- The value that pivots need on a model, unless the snapshot sets the property itself.
abbrev pub needs_pivot_migration :
    (dom : WeakDom) → String → Properties dom.Variant → Properties dom.Variant
needs_pivot_migration dom class properties =
    if is_model_class class
      && not (is_some (lookup String_discrete "NeedsPivotMigration" properties))
    then ("NeedsPivotMigration", dom.bool_variant false) ∷ []
    else []

abbrev pub builder_of :
    (dom : WeakDom) → String → String → Properties dom.Variant → InstanceBuilder dom.Variant
unfolding extend
builder_of dom name class properties = record {
  class = class;
  name = name;
  properties = extend (extend [] (needs_pivot_migration dom class properties)) properties;
}

module _ (dom : WeakDom) {Rest : Type 0} where
  open dom use {Dom, Ref, Variant, ref_discrete}

  -- One instance goes into the DOM, and its metadata into the maps.
  unfoldable pub insert_one :
      RojoTree dom Rest
      → Ref
      → InstanceBuilder Variant
      → InstanceMetadata Rest
      → RojoTree dom Rest × Ref
  insert_one t parent builder metadata =
      let (inner, referent) = dom.insert t.inner parent builder in
      (
        record { inner = inner; index = insert_metadata ref_discrete referent metadata t.index },
        referent,
      )

unfoldable mutual
  unfolding extend insert_one

  pub insert_instance :
      (dom : WeakDom) {Rest : Type 0}
      → RojoTree dom Rest
      → dom.Ref
      → InstanceSnapshot dom Rest
      → RojoTree dom Rest × dom.Ref
  insert_instance dom t parent (snapshot _ metadata name class properties children) =
      let (placed, referent) =
        insert_one dom t parent (builder_of dom name class properties) metadata in
      (insert_children dom placed referent children, referent)

  pub insert_children :
      (dom : WeakDom) {Rest : Type 0}
      → RojoTree dom Rest
      → dom.Ref
      → Snapshots dom Rest
      → RojoTree dom Rest
  insert_children dom t parent nil = t
  insert_children dom t parent (cons child rest) =
      insert_children dom (insert_instance dom t parent child).0 parent rest

module _ (dom : WeakDom) {Rest : Type 0} where
  open dom use {Dom, Ref, Variant, ref_discrete}

  abbrev pub empty_index : Index Ref Rest
  empty_index = record { metadata_map = []; path_to_ids = []; specified_id_to_refs = [] }

  -- The root is built from the snapshot as it is; its children are inserted below it.
  unfoldable pub new : InstanceSnapshot dom Rest → RojoTree dom Rest
  unfolding extend
  new (snapshot _ metadata name class properties children) =
      let inner =
        dom.new_dom (record { class = class; name = name; properties = extend [] properties }) in
      let root = dom.root_ref inner in
      insert_children dom
        (record { inner = inner; index = insert_metadata ref_discrete root metadata empty_index })
        root children

  -- The loop of `remove` over its queue. The outer `none` is fuel that ran out, the inner one the
  -- panic where an instance has no metadata.
  unfoldable pub remove_loop :
      ℕ → Dom → List Ref → Index Ref Rest → Option (Option (Index Ref Rest))
  remove_loop fuel inner [] index = some (some index)
  remove_loop zero inner (id ∷ to_move) index = none
  remove_loop (suc fuel) inner (id ∷ to_move) index = elim (remove_metadata ref_discrete id index) [
    | none ↦ some none
    | some index' ↦ remove_loop fuel inner (to_move ++ children_of (dom.get_by_ref inner id)) index'
  ]

  unfoldable pub remove : ℕ → Ref → RojoTree dom Rest → Option (Option (RojoTree dom Rest))
  unfolding remove_loop
  remove fuel id t = elim (remove_loop fuel t.inner (id ∷ []) t.index) [
    | none ↦ none
    | some none ↦ some none
    | some (some index) ↦ some (some (record { inner = dom.destroy t.inner id; index = index }))
  ]

  -- `get_instance`: the inner `none` is the panic of `unwrap` where an instance has no metadata.
  unfoldable pub get_instance :
      Ref → RojoTree dom Rest → Option (Option (Instance Ref Variant × InstanceMetadata Rest))
  get_instance id t = elim (dom.get_by_ref t.inner id) [
    | none ↦ none
    | some i ↦ elim (get_metadata ref_discrete id t.index) [
      | none ↦ some none
      | some metadata ↦ some (some (i, metadata))
    ]
  ]
