-- ===== src/Patch/Context.antt =====
-- What the steps of a patch application keep: a sound tree with all its instances, and a context that
-- names instances of the tree.
use Prim.Native.String.{String}
use roxo_mcp.Base.{
  true, List, [], ◌∷◌, ◌++◌, Option, none, some, ◌≡◌, refl, sym, ◌∙◌, arith, All, All-append,
  if◌then◌else◌, inl, inr, Option-cases,
}
use roxo_mcp.Base.Dict.{lookup, insert as insert_entry, lookup-insert}
use roxo_mcp.MultiMap
use roxo_mcp.MultiMap.{MultiMap, contains}
use roxo_mcp.RojoTree.Index.{
  InstanceMetadata, Index, RojoRef, set_specified_id, set_specified_id?, get_metadata,
}
use roxo_mcp.RojoTree.Coherent.{set_specified_id-Coherent}
use roxo_mcp.RojoTree.Tree.{WeakDom, RojoTree, Instance, is_some, get_instance}
use roxo_mcp.RojoTree.Sound.{IsSound, has}
use roxo_mcp.Patch.Variants.{Variants, strip_prefix, ref_pointer_attribute_prefix}
use roxo_mcp.Patch.Properties.{get, attributes_of}
use roxo_mcp.Patch.Deferred.{
  specified_by, targeted_by, defer_attributes, entry_discrete, insert_ref,
}
use roxo_mcp.Patch.Apply.{Application, deferred, defer_ref_properties}

module _ {K V : Type 0} where
  abbrev pub AllKeys : (K → Type 0) → List (K × V) → Type 0
  AllKeys P [] = Unit
  AllKeys P ((k, v) ∷ m) = P k × AllKeys P m

  pub AllKeys-map :
      (P Q : K → Type 0) (m : List (K × V)) → ((k : K) → P k → Q k) → AllKeys P m → AllKeys Q m
  AllKeys-map P Q [] f h = tt
  AllKeys-map P Q ((k, v) ∷ m) f h = (f k h.0, AllKeys-map P Q m f h.1)

  insert-AllKeys :
      (dec : Discrete K) (P : K → Type 0) (k : K) (v : V) (m : List (K × V))
      → P k
      → AllKeys P m
      → AllKeys P (insert_entry dec k v m)
  unfolding insert_entry
  insert-AllKeys dec P k v [] p h = (p, tt)
  insert-AllKeys dec P k v ((j, w) ∷ m) p h = ground (arith, insert-AllKeys dec P k v m p h.1)

pub insert_ref-All :
    {Ref : Type 0} (dec : Discrete Ref) (P : Ref → Type 0) (id : Ref) (ids : List Ref)
    → P id
    → All P ids
    → All P (insert_ref dec id ids)
unfolding insert_ref
insert_ref-All dec P id ids p h = ground (arith, All-append P ids (id ∷ []) h (p, tt))

targeted_by-AllKeys :
    {Ref : Type 0} (dec : Discrete Ref) (P : Ref → Type 0) (id : Ref) (name value : Option String)
    (refs : MultiMap Ref (String × String))
    → P id
    → AllKeys P refs
    → AllKeys P (targeted_by dec id name value refs)
unfolding targeted_by MultiMap.insert
targeted_by-AllKeys dec P id none value refs p h = h
targeted_by-AllKeys dec P id (some name) none refs p h = h
targeted_by-AllKeys dec P id (some name) (some value) refs p h =
    insert-AllKeys dec P id
      (if contains entry_discrete (name, value) (MultiMap.get dec entry_discrete id refs)
        then MultiMap.get dec entry_discrete id refs
        else MultiMap.get dec entry_discrete id refs ++ (name, value) ∷ [])
      refs p h

module _ {Ref Rest : Type 0} (dec : Discrete Ref) where
  set_specified_id_map :
      (id r : Ref) (specified : RojoRef) (md : InstanceMetadata Rest) (t : Index Ref Rest)
      → lookup dec id t.metadata_map ≡ some md
      → is_some (lookup dec r (set_specified_id dec id specified t).metadata_map)
        ≡ is_some (lookup dec r t.metadata_map)
  unfolding set_specified_id
  set_specified_id_map id r specified md t e =
      rw (e, set_specified_id)
        (ground (
          arith,
          lookup-insert dec id r (record md { specified_id = some specified }) t.metadata_map,
        ))

module _ {Ref Variant : Type 0} (dec : Discrete Ref) (vs : Variants Ref Variant) where
  defer_attributes-AllKeys :
      (P : Ref → Type 0) (id : Ref) (attributes : List (String × Variant))
      (found : Option RojoRef × MultiMap Ref (String × String))
      → P id
      → AllKeys P found.1
      → AllKeys P (defer_attributes dec vs id attributes found).1
  unfolding defer_attributes
  defer_attributes-AllKeys P id [] found p h = h
  defer_attributes-AllKeys P id ((name, value) ∷ attributes) (attr_id, refs) p h =
      defer_attributes-AllKeys P id attributes
        (
          specified_by name (vs.text value) attr_id,
          targeted_by dec id (strip_prefix ref_pointer_attribute_prefix name) (vs.text value) refs,
        )
        p
        (targeted_by-AllKeys dec P id (strip_prefix ref_pointer_attribute_prefix name)
          (vs.text value) refs p h)

module _ {dom : WeakDom} {Rest : Type 0} where
  open dom use {ref_discrete, Ref, Variant}

  pub record Ready (a : Application dom Rest) : Type 0 where
    pub sound : IsSound dom a.tree
    pub refs : All (λ r. has dom a.tree r ≡ true) a.has_refs_to_rewrite
    pub attributes : AllKeys (λ r. has dom a.tree r ≡ true) a.attribute_refs_to_rewrite

  -- The second tree is sound and has what the first one has.
  pub record Grown (t u : RojoTree dom Rest) : Type 0 where
    pub sound : IsSound dom u
    pub keeps : (r : Ref) → has dom t r ≡ true → has dom u r ≡ true

  pub record Advanced (a b : Application dom Rest) : Type 0 where
    pub ready : Ready b
    pub keeps : (r : Ref) → has dom a.tree r ≡ true → has dom b.tree r ≡ true

  -- The step does not panic, and the state after it is ready.
  abbrev pub Advances : Application dom Rest → Option (Application dom Rest) → Type 0
  Advances a none = ⊥
  Advances a (some b) = Advanced a b

  pub Advances-trans :
      (a b : Application dom Rest) (o : Option (Application dom Rest))
      → Advanced a b
      → Advances b o
      → Advances a o
  Advances-trans a b none s h = h
  Advances-trans a b (some c) s h = record {
    ready = h.ready;
    keeps = λ r e. h.keeps r (s.keeps r e);
  }

  -- Whatever is in a sound tree has metadata.
  pub expect_instance_there :
      (t : RojoTree dom Rest) (id : Ref)
      → IsSound dom t
      → has dom t id ≡ true
      → (i : Instance Ref Variant) × (md : InstanceMetadata Rest) × (get_instance dom id t
          ≡ some (some (i, md)))
        × (lookup ref_discrete id t.index.metadata_map ≡ some md)
  unfolding get_instance get_metadata
  expect_instance_there t id s e = elim (Option-cases (dom.get_by_ref t.inner id)) [
    | inl f ↦ absurd (ground (arith, f, e))
    | inr (i, f) ↦ elim (Option-cases (lookup ref_discrete id t.index.metadata_map)) [
      | inl g ↦ absurd (ground (arith, s.in_step id, e, g))
      | inr (md, g) ↦ (i, md, rw (f, g, get_instance) refl, g)
    ]
  ]

  set_specified_id-IsSound :
      (id : Ref) (o : Option RojoRef) (t : RojoTree dom Rest)
      → IsSound dom t
      → has dom t id ≡ true
      → IsSound dom (record t { index = set_specified_id? ref_discrete id o t.index })
  set_specified_id-IsSound id none t s e = s
  set_specified_id-IsSound id (some specified) t s e =
      let (i, md, there, g) = expect_instance_there t id s e in
      record {
        in_step =
            λ r. s.in_step r ∙ sym (set_specified_id_map ref_discrete id r specified md t.index g);
        coherent = set_specified_id-Coherent ref_discrete id specified md t.index s.coherent g;
      }

  module _ (vs : Variants Ref Variant) where
    deferred-Advanced :
        (id : Ref) (o : Option (List (String × Variant))) (a : Application dom Rest)
        → Ready a
        → has dom a.tree id ≡ true
        → Advanced a (deferred vs id o a)
    deferred-Advanced id none a r e = record { ready = r; keeps = λ s k. k }
    deferred-Advanced id (some attributes) a r e =
        let found =
          defer_attributes ref_discrete vs id attributes (none, a.attribute_refs_to_rewrite) in
        record {
          ready = record {
            sound = set_specified_id-IsSound id found.0 a.tree r.sound e;
            refs = r.refs;
            attributes =
                defer_attributes-AllKeys ref_discrete vs (λ s. has dom a.tree s ≡ true) id
                  attributes (none, a.attribute_refs_to_rewrite) e r.attributes;
          };
          keeps = λ s k. k;
        }

    pub defer_ref_properties-Advances :
        (id : Ref) (a : Application dom Rest)
        → Ready a
        → has dom a.tree id ≡ true
        → Advances a (defer_ref_properties vs id a)
    unfolding defer_ref_properties
    defer_ref_properties-Advances id a r e =
        let (i, md, there, g) = expect_instance_there a.tree id r.sound e in
        rw (there, Advances)
          (deferred-Advanced id (attributes_of vs (get "Attributes" i.properties)) a r e)
