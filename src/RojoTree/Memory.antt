-- ===== src/RojoTree/Memory.antt =====
-- A small DOM that has the operations and the laws that `RojoTree` uses of rbx_dom_weak.
use roxo_mcp.Base.{
  ℕ, zero, suc, ◌≤◌, ◌≡◌, refl, true, false, List, [], ◌∷◌, ◌++◌, none, some, ite, arith, max,
  length, Option-cases, inl, inr, ℕ_discrete,
}
use roxo_mcp.Base.Dict.{lookup, insert, remove, lookup-insert}
use roxo_mcp.RojoTree.Tree.{WeakDom, InstanceBuilder, Instance, is_some, children_of}

abbrev Table : Type 0
Table = List (ℕ × Instance ℕ ℕ)

abbrev instance_of : ℕ → ℕ → InstanceBuilder ℕ → Instance ℕ ℕ
instance_of r parent b = record {
  referent = r;
  parent = parent;
  name = b.name;
  class = b.class;
  properties = b.properties;
  children = [];
}

-- A reference above all that are in use.
unfoldable pub fresh : Table → ℕ
fresh [] = 0
fresh ((k, _) ∷ d) = max (suc k) (fresh d)

fresh_lem : (d : Table) (k : ℕ) → fresh d ≤ k → lookup ℕ_discrete k d ≡ none
unfolding fresh lookup
fresh_lem [] k h = refl
fresh_lem ((j, i) ∷ d) k h = ground (arith, fresh_lem d k)

abbrev adopt : ℕ → ℕ → Table → Table
adopt parent child d = elim (lookup ℕ_discrete parent d) [
  | none ↦ d
  | some i ↦ insert ℕ_discrete parent (record i { children = i.children ++ child ∷ [] }) d
]

unfoldable pub insert_instance : Table → ℕ → InstanceBuilder ℕ → Table × ℕ
insert_instance d parent b = (
  insert ℕ_discrete (fresh d) (instance_of (fresh d) parent b) (adopt parent (fresh d) d),
  fresh d,
)

unfoldable pub sweep : ℕ → List ℕ → Table → Table
sweep fuel [] d = d
sweep zero (r ∷ rs) d = d
sweep (suc fuel) (r ∷ rs) d =
    sweep fuel (rs ++ children_of (lookup ℕ_discrete r d)) (remove ℕ_discrete r d)

adopt_keeps :
    (parent child r : ℕ) (d : Table)
    → is_some (lookup ℕ_discrete parent d) ≡ true
    → is_some (lookup ℕ_discrete r (adopt parent child d)) ≡ is_some (lookup ℕ_discrete r d)
adopt_keeps parent child r d h = elim (Option-cases (lookup ℕ_discrete parent d)) [
  | inl e ↦ absurd (ground arith)
  | inr (i, e) ↦ ground (
    arith,
    lookup-insert ℕ_discrete parent r (record i { children = i.children ++ child ∷ [] }) d,
  )
]

pub insert_instance_fresh :
    (d : Table) (parent : ℕ) (b : InstanceBuilder ℕ)
    → is_some (lookup ℕ_discrete parent d) ≡ true
    → is_some (lookup ℕ_discrete (insert_instance d parent b).1 d) ≡ false
unfolding insert_instance
insert_instance_fresh d parent b h = rw (fresh_lem d (fresh d) (omega arith)) refl

pub insert_instance_adds :
    (d : Table) (parent : ℕ) (b : InstanceBuilder ℕ) (r : ℕ)
    → is_some (lookup ℕ_discrete parent d) ≡ true
    → is_some (lookup ℕ_discrete r (insert_instance d parent b).0)
      ≡ ite (ℕ_discrete (insert_instance d parent b).1 r) true (is_some (lookup ℕ_discrete r d))
unfolding insert_instance
insert_instance_adds d parent b r h = ground (
  arith,
  lookup-insert ℕ_discrete (fresh d) r (instance_of (fresh d) parent b) (adopt parent (fresh d) d),
  adopt_keeps parent (fresh d) r d h,
)

pub plant-root :
    (b : InstanceBuilder ℕ) (r : ℕ)
    → is_some (lookup ℕ_discrete r ((0, instance_of 0 0 b) ∷ [])) ≡ ite (ℕ_discrete 0 r) true false
unfolding lookup
plant-root b r = ground arith

abbrev pub memory : WeakDom
memory = record {
  Dom = Table;
  Ref = ℕ;
  Variant = ℕ;
  ref_discrete = ℕ_discrete;
  bool_variant = λ b. 0;
  new_dom = λ b. (0, instance_of 0 0 b) ∷ [];
  root_ref = λ d. 0;
  insert = insert_instance;
  destroy = λ d r. sweep (length d) (r ∷ []) d;
  get_by_ref = λ d r. lookup ℕ_discrete r d;
  insert_fresh = insert_instance_fresh;
  insert_adds = insert_instance_adds;
  new_root = plant-root;
}
