-- ===== src/RojoTree/Sound.antt =====
-- The instances and the metadata of a `RojoTree` stay in step: `new` and `insert_instance`.
use roxo_mcp.Base.{◌≡◌, ◌≢◌, refl, Bool, true, false, [], Option, none, some, ite, arith}
use roxo_mcp.Base.Dict.{lookup, lookup-insert}
use roxo_mcp.MultiMap
use roxo_mcp.MultiMap.{contains}
use roxo_mcp.RojoTree.Index.{InstanceMetadata, insert_metadata, get_metadata}
use roxo_mcp.RojoTree.Coherent.{Coherent, insert_metadata-Coherent, metadata_map-insert}
use roxo_mcp.RojoTree.Tree.{
  WeakDom, RojoTree, InstanceBuilder, InstanceSnapshot, Snapshots, snapshot, nil, cons, is_some,
  builder_of, extend, insert_one, insert_instance, insert_children, new, empty_index, get_instance,
}

none_of_is_some : {A : Type 0} (o : Option A) → is_some o ≡ false → o ≡ none
none_of_is_some none e = refl
none_of_is_some (some a) e = cc

module _ (dom : WeakDom) {Rest : Type 0} where
  open dom use {Dom, Ref, Variant, ref_discrete}

  -- The instance is in the DOM.
  abbrev pub has : RojoTree dom Rest → Ref → Bool
  has t r = is_some (dom.get_by_ref t.inner r)

  -- Exactly the instances of the DOM have metadata, and the maps agree with it.
  pub record IsSound (t : RojoTree dom Rest) : Type 0 where
    pub in_step : (r : Ref) → has t r ≡ is_some (lookup ref_discrete r t.index.metadata_map)
    pub coherent : Coherent ref_discrete t.index

  insert_one-IsSound :
      (t : RojoTree dom Rest) (parent : Ref) (b : InstanceBuilder Variant)
      (md : InstanceMetadata Rest)
      → IsSound t
      → has t parent ≡ true
      → IsSound (insert_one dom t parent b md).0
  unfolding insert_one
  insert_one-IsSound t parent b md s e =
      let r = (dom.insert t.inner parent b).1 in
      let fresh : lookup ref_discrete r t.index.metadata_map ≡ none =
        none_of_is_some (lookup ref_discrete r t.index.metadata_map)
          (ground (arith, dom.insert_fresh t.inner parent b e, s.in_step r)) in
      record {
        in_step = λ w. ground (
          arith,
          s.in_step w,
          dom.insert_adds t.inner parent b w e,
          metadata_map-insert ref_discrete r md t.index fresh,
          lookup-insert ref_discrete r w md t.index.metadata_map,
        );
        coherent = insert_metadata-Coherent ref_discrete r md t.index s.coherent fresh;
      }

  has-insert_one :
      (t : RojoTree dom Rest) (parent : Ref) (b : InstanceBuilder Variant)
      (md : InstanceMetadata Rest) (r : Ref)
      → has t parent ≡ true
      → has (insert_one dom t parent b md).0 r
        ≡ ite (ref_discrete (insert_one dom t parent b md).1 r) true (has t r)
  unfolding insert_one
  has-insert_one t parent b md r e = dom.insert_adds t.inner parent b r e

  -- The tree after an insertion is sound, and has what it had.
  pub record Inserted (t u : RojoTree dom Rest) : Type 0 where
    pub sound : IsSound u
    pub keeps : (r : Ref) → has t r ≡ true → has u r ≡ true

mutual
  unfolding insert_instance insert_children

  Inserted-instance :
      (dom : WeakDom) {Rest : Type 0} (t : RojoTree dom Rest) (parent : dom.Ref)
      (s : InstanceSnapshot dom Rest)
      → IsSound dom t
      → has dom t parent ≡ true
      → Inserted dom t (insert_instance dom t parent s).0
  Inserted-instance dom t parent (snapshot _ md name class properties children) h e =
      let b = builder_of dom name class properties in
      let placed = insert_one dom t parent b md in
      let there : has dom placed.0 placed.1 ≡ true =
        ground (arith, has-insert_one dom t parent b md placed.1 e) in
      let later =
        Inserted-children dom placed.0 placed.1 children (insert_one-IsSound dom t parent b md h e)
          there in
      record {
        sound = later.sound;
        keeps = λ r k. later.keeps r (ground (arith, has-insert_one dom t parent b md r e, k));
      }

  Inserted-children :
      (dom : WeakDom) {Rest : Type 0} (t : RojoTree dom Rest) (parent : dom.Ref)
      (s : Snapshots dom Rest)
      → IsSound dom t
      → has dom t parent ≡ true
      → Inserted dom t (insert_children dom t parent s)
  Inserted-children dom t parent nil h e = record { sound = h; keeps = λ r k. k }
  Inserted-children dom t parent (cons child rest) h e =
      let first = Inserted-instance dom t parent child h e in
      let later =
        Inserted-children dom (insert_instance dom t parent child).0 parent rest first.sound
          (first.keeps parent e) in
      record { sound = later.sound; keeps = λ r k. later.keeps r (first.keeps r k) }

module _ (dom : WeakDom) {Rest : Type 0} where
  open dom use {Dom, Ref, Variant, ref_discrete}

  -- Inserting a snapshot with all its descendants below an instance of a sound tree gives a sound
  -- tree (exactly the instances of the DOM have metadata, and the path map and the ID map say
  -- what the metadata says) that has every instance it had.
  pub insert_instance-Inserted :
      (t : RojoTree dom Rest) (parent : Ref) (s : InstanceSnapshot dom Rest)
      → IsSound dom t
      → has dom t parent ≡ true
      → Inserted dom t (insert_instance dom t parent s).0
  insert_instance-Inserted t parent s h e = Inserted-instance dom t parent s h e

  empty-Coherent : Coherent ref_discrete (empty_index dom {Rest = Rest})
  unfolding lookup MultiMap.get contains
  empty-Coherent = record {
    distinct = tt;
    paths_valid = record { distinct = tt; buckets = tt };
    ids_valid = record { distinct = tt; buckets = tt };
    paths = λ p id. refl;
    ids = λ s id. refl;
  }

  -- The tree built from any snapshot is sound.
  pub new-IsSound : (s : InstanceSnapshot dom Rest) → IsSound dom (new dom s)
  unfolding new lookup
  new-IsSound (snapshot _ md name class properties children) =
      let b : InstanceBuilder Variant = record {
        class = class;
        name = name;
        properties = extend [] properties;
      } in
      let root = dom.root_ref (dom.new_dom b) in
      let planted : RojoTree dom Rest = record {
        inner = dom.new_dom b;
        index = insert_metadata ref_discrete root md (empty_index dom);
      } in
      let sound : IsSound dom planted = record {
        in_step = λ w. ground (
          arith,
          dom.new_root b w,
          metadata_map-insert ref_discrete root md (empty_index dom) refl,
          lookup-insert ref_discrete root w md [],
        );
        coherent =
            insert_metadata-Coherent ref_discrete root md (empty_index dom) empty-Coherent refl;
      } in
      (Inserted-children dom planted root children sound
        (ground (arith, dom.new_root b root))).sound

  -- In a sound tree no look-up of an instance meets the panic for missing metadata.
  pub get_instance-ne-panic :
      (t : RojoTree dom Rest) (r : Ref) → IsSound dom t → get_instance dom r t ≢ some none
  unfolding get_instance get_metadata
  get_instance-ne-panic t r s = ground (arith, s.in_step r)
