-- ===== src/InMemoryFs/Removal.antt =====
-- `remove` of in_memory_fs.rs: the loop ends, and how much fuel it takes at most.
use roxo_mcp.Base.{
  All, All-append_left, All-append_right, ◌⊎◌, ◌∙◌, inl, inr, Option, refl, subst, sym, some, none,
  ◌++◌, ℕ, zero, suc, ◌+◌, ◌≤◌, ◌≡◌, arith, List, [], ◌∷◌, length, length-append,
}
use mathlib.Core.Logic.{if_neg}
use roxo_mcp.Base.Dict.{lookup, remove as remove_entry, lookup-remove}
use roxo_mcp.Base.Text.{PathBuf, PathBuf_discrete}
use roxo_mcp.InMemoryFs.{
  InMemoryFs, Entry, file_entry, dir_entry, find, children_of, remove_loop, remove, drop_path,
}

-- How many paths the directories hold.
abbrev pub held : List (PathBuf × Entry) → ℕ
held [] = 0
held ((path, entry) ∷ entries) = length (children_of (some entry)) + held entries

held_remove_le :
    (path : PathBuf) (entries : List (PathBuf × Entry))
    → held (remove_entry PathBuf_discrete path entries) ≤ held entries
unfolding remove_entry
held_remove_le path [] = omega arith
held_remove_le path ((j, entry) ∷ entries) = ground (arith, held_remove_le path entries)

held-remove :
    (path : PathBuf) (entries : List (PathBuf × Entry))
    → length (children_of (find path entries)) + held (remove_entry PathBuf_discrete path entries)
      ≤ held entries
unfolding lookup remove_entry
held-remove path [] = omega arith
held-remove path ((j, entry) ∷ entries) =
    ground (arith, held-remove path entries, held_remove_le path entries)

-- The path is one of the list.
pub data Among (j : PathBuf) : List PathBuf → Type 0 where
  first : {path : PathBuf} {paths : List PathBuf} → j ≡ path → Among j (path ∷ paths)
  later : {path : PathBuf} {paths : List PathBuf} → Among j paths → Among j (path ∷ paths)

-- A path that is in the queue, or a child of a directory that is reached.
pub data IsReached (queue : List PathBuf) (entries : List (PathBuf × Entry))
    : PathBuf → Type 0 where
  queued : {j : PathBuf} → Among j queue → IsReached queue entries j
  inside :
      {path j : PathBuf} {children : List PathBuf}
      → IsReached queue entries path
      → find path entries ≡ some (dir_entry children)
      → Among j children
      → IsReached queue entries j

-- What a removal does to the entries: every path that is reached is gone, and every other entry is as
-- it was.
pub record Pruned (queue : List PathBuf) (entries entries' : List (PathBuf × Entry)) : Type 0 where
  pub gone : (j : PathBuf) → IsReached queue entries j → find j entries' ≡ none
  pub others : (j : PathBuf) → (find j entries' ≡ find j entries) ⊎ IsReached queue entries j

-- The same, by the queue and by one directory at a time.
record Cut (queue : List PathBuf) (entries entries' : List (PathBuf × Entry)) : Type 0 where
  gone : All (λ path. find path entries' ≡ none) queue
  subtree :
      (j : PathBuf) (children : List PathBuf)
      → find j entries ≡ some (dir_entry children)
      → find j entries' ≡ none
      → All (λ path. find path entries' ≡ none) children
  others : (j : PathBuf) → (find j entries' ≡ find j entries) ⊎ IsReached queue entries j

member-All : (P : PathBuf → Type 0) (xs : List PathBuf) (x : PathBuf) → All P xs → Among x xs → P x
member-All P [] x h m = elim m [ ]
member-All P (y ∷ ys) x h (first e) = subst P (sym e) h.0
member-All P (y ∷ ys) x h (later m) = member-All P ys x h.1 m

later_cases :
    {j path : PathBuf} {xs ys : List PathBuf}
    → Among j xs ⊎ Among j ys
    → Among j (path ∷ xs) ⊎ Among j ys
later_cases (inl m) = inl (later m)
later_cases (inr m) = inr m

append_cases : (j : PathBuf) (xs ys : List PathBuf) → Among j (xs ++ ys) → Among j xs ⊎ Among j ys
append_cases j [] ys m = inr m
append_cases j (x ∷ xs) ys (first e) = inl (first e)
append_cases j (x ∷ xs) ys (later m) = later_cases (append_cases j xs ys m)

Cut-gone :
    (queue : List PathBuf) (entries entries' : List (PathBuf × Entry)) (j : PathBuf)
    → Cut queue entries entries'
    → IsReached queue entries j
    → find j entries' ≡ none
Cut-gone queue entries entries' j c (queued m) =
    member-All (λ path. find path entries' ≡ none) queue j c.gone m
Cut-gone queue entries entries' j c (inside {path = path} {children = children} r e m) =
    member-All (λ path. find path entries' ≡ none) children j
      (c.subtree path children e (Cut-gone queue entries entries' path c r)) m

children_of_dir :
    (j : PathBuf) (o : Option Entry)
    → Among j (children_of o)
    → (children : List PathBuf) × (o ≡ some (dir_entry children)) × Among j children
children_of_dir j none m = elim m [ ]
children_of_dir j (some (file_entry contents)) m = elim m [ ]
children_of_dir j (some (dir_entry children)) m = (children, refl, m)

queued_earlier :
    (path j : PathBuf) (queue : List PathBuf) (entries : List (PathBuf × Entry))
    → Among j queue ⊎ Among j (children_of (find path entries))
    → IsReached (path ∷ queue) entries j
queued_earlier path j queue entries (inl m) = queued (later m)
queued_earlier path j queue entries (inr m) =
    let (children, e, m') = children_of_dir j (find path entries) m in
    inside (queued (first refl)) e m'

found_earlier :
    (path p : PathBuf) (entries : List (PathBuf × Entry)) (entry : Entry)
    → find p (remove_entry PathBuf_discrete path entries) ≡ some entry
    → find p entries ≡ some entry
found_earlier path p entries entry e =
    ground (arith, e, lookup-remove PathBuf_discrete path p entries)

one_round_earlier :
    (path : PathBuf) (queue : List PathBuf) (entries : List (PathBuf × Entry)) (j : PathBuf)
    → IsReached
        (queue ++ children_of (find path entries))
        (remove_entry PathBuf_discrete path entries)
        j
    → IsReached (path ∷ queue) entries j
one_round_earlier path queue entries j (queued m) =
    queued_earlier path j queue entries (append_cases j queue (children_of (find path entries)) m)
one_round_earlier path queue entries j (inside {path = p} {children = children} r e m) =
    inside (one_round_earlier path queue entries p r)
      (found_earlier path p entries (dir_entry children) e) m

others_one_round :
    (path j : PathBuf) (queue : List PathBuf) (entries entries' : List (PathBuf × Entry))
    → (find j entries' ≡ find j (remove_entry PathBuf_discrete path entries))
      ⊎ IsReached
          (queue ++ children_of (find path entries))
          (remove_entry PathBuf_discrete path entries)
          j
    → (find j entries' ≡ find j entries) ⊎ IsReached (path ∷ queue) entries j
others_one_round path j queue entries entries' (inr r) =
    inr (one_round_earlier path queue entries j r)
others_one_round path j queue entries entries' (inl e) = elim (PathBuf_discrete path j) [
  | yes p ↦ inr (queued (first (sym p)))
  | no n ↦ inl (
      e
      ∙ (lookup-remove PathBuf_discrete path j entries
          ∙ if_neg (PathBuf_discrete path j) n none (find j entries)))
]

removed_gone :
    (path : PathBuf) (queue : List PathBuf) (entries entries' : List (PathBuf × Entry))
    → Cut
        (queue ++ children_of (find path entries))
        (remove_entry PathBuf_discrete path entries)
        entries'
    → find path entries' ≡ none
removed_gone path queue entries entries' c = elim (c.others path) [
  | inl e ↦ ground (arith, e, lookup-remove PathBuf_discrete path path entries)
  | inr r ↦
      Cut-gone (queue ++ children_of (find path entries))
        (remove_entry PathBuf_discrete path entries) entries' path c r
]

children_gone :
    (path j : PathBuf) (queue children : List PathBuf) (entries entries' : List (PathBuf × Entry))
    → Cut
        (queue ++ children_of (find path entries))
        (remove_entry PathBuf_discrete path entries)
        entries'
    → find j entries ≡ some (dir_entry children)
    → find j entries' ≡ none
    → All (λ path. find path entries' ≡ none) children
children_gone path j queue children entries entries' r e gone = elim (PathBuf_discrete path j) [
  | yes p ↦
      (subst (λ o. All (λ path. find path entries' ≡ none) (children_of o))
        (subst (λ k. find k entries ≡ some (dir_entry children)) (sym p) e)
        (All-append_right (λ path. find path entries' ≡ none) queue
          (children_of (find path entries)) r.gone))
  | no n ↦
      r.subtree j children
        (lookup-remove PathBuf_discrete path j entries
          ∙ (if_neg (PathBuf_discrete path j) n none (find j entries) ∙ e))
        gone
]

step-Cut :
    (path : PathBuf) (queue : List PathBuf) (entries entries' : List (PathBuf × Entry))
    → Cut
        (queue ++ children_of (find path entries))
        (remove_entry PathBuf_discrete path entries)
        entries'
    → Cut (path ∷ queue) entries entries'
step-Cut path queue entries entries' r = record {
  gone = (
    removed_gone path queue entries entries' r,
    All-append_left (λ path. find path entries' ≡ none) queue (children_of (find path entries))
        r.gone,
  );
  subtree = λ j children e gone. children_gone path j queue children entries entries' r e gone;
  others = λ j. others_one_round path j queue entries entries' (r.others j);
}

remove_loop-Cut :
    (fuel : ℕ) (queue : List PathBuf) (entries : List (PathBuf × Entry))
    → length queue + held entries ≤ fuel
    → (entries' : List (PathBuf × Entry)) × (remove_loop fuel queue entries ≡ some entries')
      × Cut queue entries entries'
unfolding remove_loop
remove_loop-Cut fuel [] entries h =
    (entries, refl, record { gone = tt; subtree = λ j cs e f. absurd cc; others = λ j. inl refl })
remove_loop-Cut zero (path ∷ queue) entries h = absurd (omega arith)
remove_loop-Cut (suc fuel) (path ∷ queue) entries h =
    let children = children_of (find path entries) in
    let (entries', e, r) =
      remove_loop-Cut fuel (queue ++ children) (remove_entry PathBuf_discrete path entries)
        (omega (arith, length-append queue children, held-remove path entries)) in
    (entries', e, step-Cut path queue entries entries' r)

-- With fuel for the root and every path that a directory holds, a removal returns: the path and all
-- that is below it, child by child, are gone, and every other entry is as it was.
pub remove-Pruned :
    (fuel : ℕ) (path : PathBuf) (fs : InMemoryFs)
    → 1 + held fs.entries ≤ fuel
    → (fs' : InMemoryFs) × (remove fuel path fs ≡ some fs')
      × Pruned (path ∷ []) fs.entries fs'.entries
unfolding remove
remove-Pruned fuel path fs h =
    let (entries', e, r) = remove_loop-Cut fuel (path ∷ []) fs.entries h in
    (
      record { entries = entries'; orphans = drop_path path fs.orphans },
      rw e refl,
      record { gone = λ j. Cut-gone (path ∷ []) fs.entries entries' j r; others = r.others },
    )
