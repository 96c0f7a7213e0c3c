-- ===== src/RojoTree/Removal.antt =====
-- `RojoTree::remove`: the loop over the queue ends, never panics, and forgets exactly the subtree.
use roxo_mcp.Base.{
  ℕ, zero, suc, ◌+◌, ◌≤◌, ◌≡◌, refl, sym, ap, true, false, ◌||◌, List, [], ◌∷◌, ◌++◌, Option, none,
  some, arith, if◌then◌else◌,
}
use mathlib.Core.List.{append_assoc}
use roxo_mcp.Base.Dict.{lookup, remove as remove_entry, lookup-remove}
use roxo_mcp.MultiMap.{contains, Unique}
use roxo_mcp.RojoTree.Index.{Index}
use roxo_mcp.RojoTree.Coherent.{Coherent, remove_metadata-Coherent}
use roxo_mcp.RojoTree.Tree.{WeakDom, RojoTree, is_some, children_of, remove_loop, remove}
use roxo_mcp.RojoTree.Sound.{IsSound, has}

found : {A : Type 0} (o : Option A) → is_some o ≡ true → (a : A) × (o ≡ some a)
found none e = cc
found (some a) e = (a, refl)

module _ {A : Type 0} (dec : Discrete A) where
  contains-append :
      (w : A) (xs ys : List A)
      → contains dec w (xs ++ ys) ≡ (contains dec w xs || contains dec w ys)
  unfolding contains
  contains-append w [] ys = refl
  contains-append w (x ∷ xs) ys = ground (arith, contains-append w xs ys)

  abbrev Apart : List A → List A → Type 0
  Apart xs ys = (w : A) → contains dec w xs ≡ true → contains dec w ys ≡ false

  Unique-split :
      (xs ys : List A) → Unique dec (xs ++ ys) → Unique dec xs × Unique dec ys × Apart xs ys
  unfolding contains
  Unique-split [] ys u = (tt, u, λ w h. cc)
  Unique-split (x ∷ xs) ys u =
      let (ux, uy, apart) = Unique-split xs ys u.1 in
      (
        (ground (arith, contains-append x xs ys), ux),
        uy,
        λ w h. ground (arith, contains-append x xs ys, apart w),
      )

  Unique-join :
      (xs ys : List A) → Unique dec xs → Unique dec ys → Apart xs ys → Unique dec (xs ++ ys)
  unfolding contains
  Unique-join [] ys ux uy apart = uy
  Unique-join (x ∷ xs) ys ux uy apart = (
    ground (arith, contains-append x xs ys, apart x),
    Unique-join xs ys ux.1 uy (λ w h. apart w (ground arith)),
  )

  Unique-swap : (xs ys : List A) → Unique dec (xs ++ ys) → Unique dec (ys ++ xs)
  Unique-swap xs ys u =
      let (ux, uy, apart) = Unique-split xs ys u in
      Unique-join ys xs uy ux (λ w h. ground (arith, apart w))

-- Finite trees of references: a reference, its children, and the trees to the right.
pub data Forest (Ref : Type 0) : Type 0 where
  empty : Forest Ref
  tree : Ref → Forest Ref → Forest Ref → Forest Ref

module _ {Ref : Type 0} where
  abbrev pub roots : Forest Ref → List Ref
  roots empty = []
  roots (tree r c s) = r ∷ roots s

  abbrev pub refs : Forest Ref → List Ref
  refs empty = []
  refs (tree r c s) = r ∷ (refs c ++ refs s)

  abbrev pub size : Forest Ref → ℕ
  size empty = 0
  size (tree r c s) = suc (size c + size s)

  abbrev join : Forest Ref → Forest Ref → Forest Ref
  join empty g = g
  join (tree r c s) g = tree r c (join s g)

  roots-join : (f g : Forest Ref) → roots (join f g) ≡ roots f ++ roots g
  roots-join empty g = refl
  roots-join (tree r c s) g = ap (◌∷◌ r) (roots-join s g)

  refs-join : (f g : Forest Ref) → refs (join f g) ≡ refs f ++ refs g
  refs-join empty g = refl
  refs-join (tree r c s) g =
      ap (◌∷◌ r) (rw (refs-join s g) (sym (append_assoc (refs c) (refs s) (refs g))))

  size-join : (f g : Forest Ref) → size (join f g) ≡ size f + size g
  size-join empty g = omega arith
  size-join (tree r c s) g = omega (arith, size-join s g)

-- One tree.
abbrev pub subtree : {Ref : Type 0} → Ref → Forest Ref → Forest Ref
subtree id below = tree id below empty

module _ (dom : WeakDom) where
  open dom use {Dom, Ref, Variant, ref_discrete}

  -- The children in the DOM are those of the forest, all the way down.
  abbrev pub Describes : Dom → Forest Ref → Type 0
  Describes d empty = Unit
  Describes d (tree r c s) =
      (children_of (dom.get_by_ref d r) ≡ roots c) × Describes d c × Describes d s

  Describes-join :
      (d : Dom) (f g : Forest Ref) → Describes d f → Describes d g → Describes d (join f g)
  Describes-join d empty g h k = k
  Describes-join d (tree r c s) g h k = (h.0, h.1, Describes-join d s g h.2 k)

module _ (dom : WeakDom) {Rest : Type 0} where
  open dom use {Dom, Ref, Variant, ref_discrete}

  -- The maps have forgotten these references and nothing else.
  pub record Forgets (gone : List Ref) (index index' : Index Ref Rest) : Type 0 where
    pub coherent : Coherent ref_discrete index'
    pub rest :
        (x : Ref)
        → lookup ref_discrete x index'.metadata_map ≡ (
            if contains ref_discrete x gone then none else lookup ref_discrete x index.metadata_map)

  abbrev HaveMetadata : List Ref → Index Ref Rest → Type 0
  HaveMetadata rs index =
      (x : Ref)
      → contains ref_discrete x rs ≡ true
      → is_some (lookup ref_discrete x index.metadata_map) ≡ true

  -- After one round: the children of the removed instance stand behind the rest of the queue.
  rest-HaveMetadata :
      (r : Ref) (k s : Forest Ref) (index index' : Index Ref Rest)
      → contains ref_discrete r (refs k ++ refs s) ≡ false
      → HaveMetadata (r ∷ (refs k ++ refs s)) index
      → index'.metadata_map ≡ remove_entry ref_discrete r index.metadata_map
      → HaveMetadata (refs (join s k)) index'
  unfolding contains
  rest-HaveMetadata r k s index index' fresh m e x h =
      rw (e, lookup-remove ref_discrete r x index.metadata_map)
        (ground (
          arith,
          m x,
          h,
          ap (contains ref_discrete x) (refs-join s k),
          contains-append ref_discrete x (refs s) (refs k),
          contains-append ref_discrete x (refs k) (refs s),
        ))

  rest_forgotten :
      (r : Ref) (k s : Forest Ref) (index index1 index' : Index Ref Rest)
      → index1.metadata_map ≡ remove_entry ref_discrete r index.metadata_map
      → Forgets (refs (join s k)) index1 index'
      → Forgets (r ∷ (refs k ++ refs s)) index index'
  unfolding contains
  rest_forgotten r k s index index1 index' e f = record {
    coherent = f.coherent;
    rest = λ x.
        rw
          (
            f.rest x,
            e,
            lookup-remove ref_discrete r x index.metadata_map,
            refs-join s k,
            contains-append ref_discrete x (refs s) (refs k),
            contains-append ref_discrete x (refs k) (refs s),
          )
          (ground arith);
  }

  remove_loop-Forgets :
      (fuel : ℕ) (d : Dom) (f : Forest Ref) (index : Index Ref Rest)
      → size f ≤ fuel
      → Describes dom d f
      → Unique ref_discrete (refs f)
      → HaveMetadata (refs f) index
      → Coherent ref_discrete index
      → (index' : Index Ref Rest) × (remove_loop dom fuel d (roots f) index ≡ some (some index'))
        × Forgets (refs f) index index'
  unfolding remove_loop contains
  remove_loop-Forgets fuel d empty index n h u m c =
      (index, refl, record { coherent = c; rest = λ x. refl })
  remove_loop-Forgets zero d (tree r k s) index n h u m c = absurd (omega arith)
  remove_loop-Forgets (suc fuel) d (tree r k s) index n h u m c =
      let (md, e) = found (lookup ref_discrete r index.metadata_map) (m r (ground arith)) in
      let (index1, e1, c1, e2) = remove_metadata-Coherent ref_discrete r md index c e in
      let (index', e', f) =
        remove_loop-Forgets fuel d (join s k) index1 (omega (arith, size-join s k))
          (Describes-join dom d s k h.2 h.1)
          (rw (refs-join s k) (Unique-swap ref_discrete (refs k) (refs s) u.1))
          (rest-HaveMetadata r k s index index1 u.0 m e2) c1 in
      (
        index',
        rw (e1, remove_loop, h.0, ← roots-join s k) e',
        rest_forgotten r k s index index1 index' e2 f,
      )

  -- In a sound tree, removing an instance with fuel for its subtree returns, without a panic, a
  -- sound tree whose metadata lacks exactly the subtree. The subtree is a finite forest that the
  -- DOM describes, without repetition and present; destroy is assumed to take out the subtree and
  -- nothing else.
  pub remove-IsSound :
      (t : RojoTree dom Rest) (fuel : ℕ) (id : Ref) (below : Forest Ref)
      → IsSound dom t
      → size (subtree id below) ≤ fuel
      → Describes dom t.inner (subtree id below)
      → Unique ref_discrete (refs (subtree id below))
      → ((x : Ref) → contains ref_discrete x (refs (subtree id below)) ≡ true → has dom t x ≡ true)
      → ((x : Ref)
          → is_some (dom.get_by_ref (dom.destroy t.inner id) x)
            ≡ (if contains ref_discrete x (refs (subtree id below)) then false else has dom t x))
      → (u : RojoTree dom Rest) × (remove dom fuel id t ≡ some (some u))
        × IsSound dom u
        × ((x : Ref)
            → lookup ref_discrete x u.index.metadata_map ≡ (
                if contains ref_discrete x (refs (subtree id below))
                then none
                else lookup ref_discrete x t.index.metadata_map))
  unfolding remove
  remove-IsSound t fuel id below s n h u there gone =
      let (index, e, f) =
        remove_loop-Forgets fuel t.inner (subtree id below) t.index n h u
          (λ x h. ground (arith, there x h, s.in_step x)) s.coherent in
      (
        record { inner = dom.destroy t.inner id; index = index },
        rw (e, remove),
        record {
          in_step = λ x. ground (arith, gone x, f.rest x, s.in_step x);
          coherent = f.coherent;
        },
        f.rest,
      )
