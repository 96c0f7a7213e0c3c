-- ===== src/ChangeProcessor/Ancestors.antt =====
-- Which ancestor of an event's path is canonicalized, and which one's instances are affected.
use Prim.Native.String.{String}
use roxo_mcp.Base.{List, [], ◌∷◌, ◌++◌, ◌≡◌, refl, sym, subst, ap, ◌∙◌, All, map}
use roxo_mcp.Base.Text.{PathBuf}
use roxo_mcp.RojoTree.Index.{get_ids_at_path}
use roxo_mcp.RojoTree.Tree.{WeakDom, RojoTree}
use roxo_mcp.ChangeProcessor.Events.{
  Answer, ok, not_found, failed, ancestors, canonicalize_first, canonicalize_event_path,
  join_suffix, first_ids, or_else, affected_ids,
}

module _ (canonicalize : PathBuf → Answer PathBuf) where
  -- Of the paths between one and another further down, only the first may exist.
  abbrev pub NearerMissing : PathBuf → PathBuf → Type 0
  NearerMissing ancestor suffix =
      (c : String) (some_more rest : PathBuf)
      → suffix ≡ c ∷ (some_more ++ rest)
      → canonicalize (ancestor ++ c ∷ some_more) ≡ not_found

  -- The path is divided at its nearest ancestor, or itself, that is not just missing.
  abbrev pub Nearest : PathBuf → Answer PathBuf → Type 0
  Nearest p (ok q) =
      (ancestor : PathBuf) × (suffix : PathBuf) × (found : PathBuf) × (p ≡ ancestor ++ suffix)
      × (canonicalize ancestor ≡ ok found)
      × (q ≡ found ++ suffix)
      × NearerMissing ancestor suffix
  Nearest p not_found =
      (ancestor suffix : PathBuf) → p ≡ ancestor ++ suffix → canonicalize ancestor ≡ not_found
  Nearest p failed =
      (ancestor : PathBuf) × (suffix : PathBuf) × (p ≡ ancestor ++ suffix)
      × (canonicalize ancestor ≡ failed)
      × NearerMissing ancestor suffix

-- The first answer that is not `not_found`.
or_further : Answer PathBuf → Answer PathBuf → Answer PathBuf
or_further (ok q) further = ok q
or_further not_found further = further
or_further failed further = failed

or_further-join_suffix :
    (suffix : PathBuf) (a rest further : Answer PathBuf)
    → join_suffix suffix a (or_further rest further)
      ≡ or_further (join_suffix suffix a rest) further
unfolding or_further
or_further-join_suffix suffix (ok q) rest further = refl
or_further-join_suffix suffix not_found rest further = refl
or_further-join_suffix suffix failed rest further = refl

canonicalize_first-append :
    (canonicalize : PathBuf → Answer PathBuf) (c : String) (es : List (PathBuf × PathBuf))
    (e : PathBuf × PathBuf)
    → canonicalize_first canonicalize (map (λ (e : PathBuf × PathBuf). (c ∷ e.0, e.1)) es ++ e ∷ [])
      ≡ or_further
          (canonicalize_first (λ q. canonicalize (c ∷ q)) es)
          (canonicalize_first canonicalize (e ∷ []))
unfolding canonicalize_first or_further
canonicalize_first-append canonicalize c [] e = refl
canonicalize_first-append canonicalize c ((ancestor, suffix) ∷ es) e =
    ap (join_suffix suffix (canonicalize (c ∷ ancestor)))
      (canonicalize_first-append canonicalize c es e)
    ∙ or_further-join_suffix suffix (canonicalize (c ∷ ancestor))
        (canonicalize_first (λ q. canonicalize (c ∷ q)) es)
        (canonicalize_first canonicalize (e ∷ []))

-- The component behind a parent that is missing below it.
missing_below :
    (canonicalize : PathBuf → Answer PathBuf) (c d : String) (p q rest : PathBuf)
    → Nearest (λ r. canonicalize (c ∷ r)) p not_found
    → c ∷ p ≡ d ∷ (q ++ rest)
    → canonicalize (d ∷ q) ≡ not_found
missing_below canonicalize c d p q rest none_below e =
    let same : c ≡ d = cc in
    let divided : p ≡ q ++ rest = cc in
    subst (λ x. canonicalize (x ∷ q) ≡ not_found) same (none_below q rest divided)

root-Nearest :
    (canonicalize : PathBuf → Answer PathBuf) (c : String) (p : PathBuf) (a : Answer PathBuf)
    → canonicalize [] ≡ a
    → Nearest (λ q. canonicalize (c ∷ q)) p not_found
    → Nearest canonicalize (c ∷ p) (join_suffix (c ∷ p) a not_found)
root-Nearest canonicalize c p (ok q) e none_below =
    ([], c ∷ p, q, refl, e, refl, λ d q' rest. missing_below canonicalize c d p q' rest none_below)
root-Nearest canonicalize c p failed e none_below =
    ([], c ∷ p, refl, e, λ d q' rest. missing_below canonicalize c d p q' rest none_below)
root-Nearest canonicalize c p not_found e none_below = at
  where
    at :
        (ancestor suffix : PathBuf) → c ∷ p ≡ ancestor ++ suffix → canonicalize ancestor ≡ not_found
    at [] suffix f = e
    at (d ∷ q) suffix f = missing_below canonicalize c d p q suffix none_below f

below-Nearest :
    (canonicalize : PathBuf → Answer PathBuf) (c : String) (p : PathBuf) (below : Answer PathBuf)
    → Nearest (λ q. canonicalize (c ∷ q)) p below
    → Nearest canonicalize
        (c ∷ p)
        (or_further below (join_suffix (c ∷ p) (canonicalize []) not_found))
unfolding or_further
below-Nearest canonicalize c p (ok q) (ancestor, suffix, found, e, f, g, nearer) =
    (c ∷ ancestor, suffix, found, ap (λ r. c ∷ r) e, f, g, nearer)
below-Nearest canonicalize c p not_found n = root-Nearest canonicalize c p (canonicalize []) refl n
below-Nearest canonicalize c p failed (ancestor, suffix, e, f, nearer) =
    (c ∷ ancestor, suffix, ap (λ r. c ∷ r) e, f, nearer)

empty-Nearest :
    (canonicalize : PathBuf → Answer PathBuf) (a : Answer PathBuf)
    → canonicalize [] ≡ a
    → Nearest canonicalize [] (join_suffix [] a not_found)
empty-Nearest canonicalize (ok q) e = ([], [], q, refl, e, refl, λ c more rest f. absurd cc)
empty-Nearest canonicalize failed e = ([], [], refl, e, λ c more rest f. absurd cc)
empty-Nearest canonicalize not_found e = at
  where
    at : (ancestor suffix : PathBuf) → [] ≡ ancestor ++ suffix → canonicalize ancestor ≡ not_found
    at [] suffix f = e
    at (d ∷ q) suffix f = absurd cc

-- The path of an event becomes the canonical path of the nearest that exists of itself and its
-- ancestors, followed by the rest of the path; it is missing only if it and all its ancestors are,
-- and an error other than that comes from the nearest of them that is not missing.
pub canonicalize_event_path-Nearest :
    (canonicalize : PathBuf → Answer PathBuf) (p : PathBuf)
    → Nearest canonicalize p (canonicalize_event_path canonicalize p)
unfolding canonicalize_event_path canonicalize_first ancestors
canonicalize_event_path-Nearest canonicalize [] = empty-Nearest canonicalize (canonicalize []) refl
canonicalize_event_path-Nearest canonicalize (c ∷ p) =
    subst (Nearest canonicalize (c ∷ p))
      (sym (canonicalize_first-append canonicalize c (ancestors p) ([], c ∷ p)))
      (below-Nearest canonicalize c p (canonicalize_event_path (λ q. canonicalize (c ∷ q)) p)
        (canonicalize_event_path-Nearest (λ q. canonicalize (c ∷ q)) p))

module _ {dom : WeakDom} {Rest : Type 0} (t : RojoTree dom Rest) where
  abbrev pub NoneAt : PathBuf × PathBuf → Type 0
  NoneAt e = get_ids_at_path dom.ref_discrete e.0 t.index ≡ []

  -- The IDs are those at the nearest of the paths that has any.
  abbrev pub FindsIds : List (PathBuf × PathBuf) → List dom.Ref → Type 0
  FindsIds es [] = All NoneAt es
  FindsIds es (id ∷ ids) =
      (before : List (PathBuf × PathBuf)) × (nearest : PathBuf × PathBuf) × (after : List
        (PathBuf × PathBuf))
      × (es ≡ before ++ nearest ∷ after)
      × All NoneAt before
      × (get_ids_at_path dom.ref_discrete nearest.0 t.index ≡ id ∷ ids)

  later-FindsIds :
      (e : PathBuf × PathBuf) (es : List (PathBuf × PathBuf)) (ids : List dom.Ref)
      → NoneAt e
      → FindsIds es ids
      → FindsIds (e ∷ es) ids
  later-FindsIds e es [] n h = (n, h)
  later-FindsIds e es (id ∷ ids) n (before, nearest, after, f, ns, g) =
      (e ∷ before, nearest, after, ap (λ xs. e ∷ xs) f, (n, ns), g)

  or_else-FindsIds :
      (e : PathBuf × PathBuf) (es : List (PathBuf × PathBuf)) (here rest : List dom.Ref)
      → get_ids_at_path dom.ref_discrete e.0 t.index ≡ here
      → FindsIds es rest
      → FindsIds (e ∷ es) (or_else here rest)
  or_else-FindsIds e es [] rest n h = later-FindsIds e es rest n h
  or_else-FindsIds e es (id ∷ ids) rest n h = ([], e, es, refl, tt, n)

  first_ids-FindsIds :
      (es : List (PathBuf × PathBuf))
      → FindsIds es (first_ids (λ q. get_ids_at_path dom.ref_discrete q t.index) es)
  unfolding first_ids
  first_ids-FindsIds [] = tt
  first_ids-FindsIds (e ∷ es) =
      or_else-FindsIds e es (get_ids_at_path dom.ref_discrete e.0 t.index)
        (first_ids (λ q. get_ids_at_path dom.ref_discrete q t.index) es) refl
        (first_ids-FindsIds es)

  -- The affected instances of a path are all those at the nearest of the path and its parents that has
  -- any; there are none only if no parent has any.
  pub affected_ids-FindsIds : (p : PathBuf) → FindsIds (ancestors p) (affected_ids t p)
  unfolding affected_ids
  affected_ids-FindsIds p = first_ids-FindsIds (ancestors p)
