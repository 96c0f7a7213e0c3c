-- ===== src/Patch/Sample.antt =====
-- Values as numbers, on the small DOM: 0 and 1 are Booleans, 50 is the attributes, 51 the text of an
-- ID, and from 100 on there are references, of which 999 is the null reference.
use roxo_mcp.Base.{
  ℕ, ◌+◌, ◌-◌, ◌≡◌, refl, Bool, true, false, not, ◌&&◌, List, [], ◌∷◌, Option, none, some, ite,
  arith, ◌==◌, leb, if◌then◌else◌, ℕ_discrete, Option-cases, inl, inr,
}
use mathlib.Core.Option
use roxo_mcp.Base.Dict.{lookup, insert, lookup-insert}
use roxo_mcp.RojoTree.Tree.{Instance}
use roxo_mcp.RojoTree.Memory.{memory}
use roxo_mcp.Patch.Variants.{Variants}
use roxo_mcp.Patch.Apply.{Mutation}

abbrev number_ref : ℕ → Option ℕ
number_ref v = if leb 100 v then some (v - 100) else none

abbrev number_bool : ℕ → Option Bool
number_bool v = if v == 0 then some false else if v == 1 then some true else none

abbrev bool_number : Bool → ℕ
bool_number false = 0
bool_number true = 1

pub number_ref_lem : (r : ℕ) → number_ref (100 + r) ≡ some r
number_ref_lem r = ground arith

pub number_bool_lem : (b : Bool) → number_bool (bool_number b) ≡ some b
number_bool_lem false = refl
number_bool_lem true = refl

pub number_ref_bool : (b : Bool) → number_ref (bool_number b) ≡ none
number_ref_bool false = refl
number_ref_bool true = refl

abbrev pub values : Variants ℕ ℕ
values = record {
  panics = λ a b. a == 60 && b == 60;
  variant_eq = λ a b. a == b;
  same = λ a b. a == b;
  as_ref = number_ref;
  ref_variant = λ r. 100 + r;
  is_some_ref = λ r. not (r == 999);
  as_bool = number_bool;
  bool_variant = bool_number;
  attributes = λ v. if v == 50 then some (("Rojo_Target_Part", 51) ∷ []) else none;
  text = λ v. if v == 51 then some "script" else none;
  as_ref_variant = number_ref_lem;
  as_bool_variant = number_bool_lem;
  as_ref_bool = number_ref_bool;
}

abbrev change :
    List (ℕ × Instance ℕ ℕ) → ℕ → (Instance ℕ ℕ → Instance ℕ ℕ) → List (ℕ × Instance ℕ ℕ)
change d r f = elim (lookup ℕ_discrete r d) [ none ↦ d | some i ↦ insert ℕ_discrete r (f i) d ]

pub lookup-change :
    (d : List (ℕ × Instance ℕ ℕ)) (r s : ℕ) (f : Instance ℕ ℕ → Instance ℕ ℕ)
    → lookup ℕ_discrete s (change d r f)
      ≡ ite (ℕ_discrete r s) (Option.map f (lookup ℕ_discrete s d)) (lookup ℕ_discrete s d)
lookup-change d r s f = elim (Option-cases (lookup ℕ_discrete r d)) [
  | inl e ↦ ground arith
  | inr (i, e) ↦ ground (arith, e, lookup-insert ℕ_discrete r s (f i) d)
]

abbrev pub in_place : Mutation memory
in_place = record { update = change; get_by_ref-update = lookup-change }
