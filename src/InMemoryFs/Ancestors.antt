-- ===== src/InMemoryFs/Ancestors.antt =====
-- `create_dir_all` of in_memory_fs.rs, and the listings of the ancestors.
use roxo_mcp.Base.{
  ◌≡◌, ◌≢◌, refl, ap, subst, ◌∙◌, arith, [], ◌∷◌, Option, none, some, Option-cases, inl, inr,
}
use mathlib.Core.Logic.{if_pos, if_neg}
use Prim.Native.String.{String}
use roxo_mcp.Base.Dict.{lookup-insert}
use roxo_mcp.Base.Text.{PathBuf, PathBuf_discrete}
use roxo_mcp.InMemoryFs.{
  InMemoryFs, Entry, file_entry, dir_entry, Result, ok, err, find, add, as_orphan, parent, link,
  link_below, put, then_do, load_snapshot, load_children, no_more, read_dir, read_dir_entry,
  create_dir, create_ancestors, create_dir_all,
}

abbrev Emptied : InMemoryFs → Type 0
Emptied fs = find [] fs.entries ≡ some (dir_entry [])

put-Emptied :
    (name : String) (path : PathBuf) (entry : Entry) (fs : InMemoryFs)
    → Emptied fs
    → Emptied (put (name ∷ path) entry fs)
put-Emptied name path entry fs h =
    lookup-insert PathBuf_discrete (name ∷ path) [] entry fs.entries
    ∙ (if_neg (PathBuf_discrete (name ∷ path) []) (λ e. cc) (some entry) (find [] fs.entries) ∙ h)

link_below-Emptied :
    (a b : String) (path p : PathBuf) (o : Option Entry) (fs : InMemoryFs)
    → Emptied fs
    → Emptied
        (then_do
          (link_below (a ∷ path) (b ∷ p) o fs)
          (λ fs. load_children no_more (a ∷ path) (put (a ∷ path) (dir_entry []) fs))).0
unfolding load_snapshot
link_below-Emptied a b path p none fs h =
    put-Emptied a path (dir_entry []) (as_orphan (a ∷ path) fs) h
link_below-Emptied a b path p (some (file_entry contents)) fs h = h
link_below-Emptied a b path p (some (dir_entry children)) fs h =
    put-Emptied a path (dir_entry []) (put (b ∷ p) (dir_entry (add (a ∷ path) children)) fs)
      (put-Emptied b p (dir_entry (add (a ∷ path) children)) fs h)

parent-none : (b : String) (path : PathBuf) → parent (b ∷ path) ≢ none
unfolding parent
parent-none b path e = elim (Option-cases (parent path)) [
  | inl f ↦ ground (arith, f)
  | inr (q, f) ↦ ground (arith, f)
]

create_dir-Emptied :
    (a b : String) (path : PathBuf) (fs : InMemoryFs)
    → Emptied fs
    → Emptied (create_dir (a ∷ b ∷ path) fs).0
unfolding create_dir load_snapshot link parent
create_dir-Emptied a b path fs h = elim (Option-cases (parent (b ∷ path))) [
  | inl e ↦ absurd (parent-none b path e)
  | inr (p, e) ↦ rw e (link_below-Emptied a a (b ∷ path) p (find (a ∷ p) fs.entries) fs h)
]

create_root-Emptied : (fs : InMemoryFs) → Emptied (create_dir [] fs).0
unfolding create_dir load_snapshot link parent
create_root-Emptied fs =
    lookup-insert PathBuf_discrete [] [] (dir_entry []) fs.entries
    ∙ if_pos (PathBuf_discrete [] []) refl (some (dir_entry [])) (find [] fs.entries)

after_root :
    (a b : String) (path : PathBuf) (r : InMemoryFs × Result (Unit {0}))
    → Emptied r.0
    → Emptied (then_do r (create_dir (a ∷ b ∷ path))).0
after_root a b path (fs, err e) h = h
after_root a b path (fs, ok u) h = create_dir-Emptied a b path fs h

after :
    (a b : String) (path : PathBuf) (r : InMemoryFs × Result (Unit {0})) (fs' : InMemoryFs)
    → then_do (then_do r (create_dir [])) (create_dir (a ∷ b ∷ path)) ≡ (fs', ok tt)
    → Emptied fs'
after a b path (fs, err e) fs' h = absurd (ground arith)
after a b path (fs, ok u) fs' h =
    subst (λ r. Emptied r.0) h (after_root a b path (create_dir [] fs) (create_root-Emptied fs))

-- When `create_dir_all` succeeds on a path of two names or more, the root lists nothing afterwards,
-- whatever it listed before.
pub create_dir_all-read_dir :
    (a b : String) (path : PathBuf) (fs fs' : InMemoryFs)
    → create_dir_all (a ∷ b ∷ path) fs ≡ (fs', ok tt)
    → read_dir [] fs' ≡ ok []
unfolding create_dir_all create_ancestors read_dir
create_dir_all-read_dir a b path fs fs' h =
    ap (read_dir_entry []) (after a b path (create_ancestors (a ∷ []) (b ∷ path) fs) fs' h)
