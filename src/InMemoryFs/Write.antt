-- ===== src/InMemoryFs/Write.antt =====
-- `write` of in_memory_fs.rs against `read` and `read_dir`.
use roxo_mcp.Base.{
  ℕ, suc, ◌≡◌, ◌≢◌, refl, sym, ap, subst, ◌∙◌, arith, List, [], ◌∷◌, Option, none, some, length,
  Option-cases, inl, inr, ite,
}
use mathlib.Core.Logic.{if_pos, if_neg}
use roxo_mcp.Base.Dict.{lookup-insert}
use roxo_mcp.Base.Text.{PathBuf, PathBuf_discrete}
use roxo_mcp.InMemoryFs.{
  InMemoryFs, Entry, file_entry, dir_entry, must_be_dir, Result, ok, err, find, add, as_orphan,
  parent, link, link_below, put, then_do, load_snapshot, read_entry, read, write,
}

-- What a write does: the file reads back, every other path reads as it did, and a parent directory
-- lists the file; or the parent is a file, and nothing changes.
pub data Written (path : PathBuf) (contents : List ℕ) (fs : InMemoryFs)
    : InMemoryFs × Result (Unit {0}) → Type 0 where
  written :
      (fs' : InMemoryFs)
      → read path fs' ≡ ok contents
      → ((j : PathBuf) → j ≢ path → read j fs' ≡ read j fs)
      → ((p : PathBuf) (children : List PathBuf)
          → parent path ≡ some p
          → find p fs.entries ≡ some (dir_entry children)
          → find p fs'.entries ≡ some (dir_entry (add path children)))
      → Written path contents fs (fs', ok tt)
  refused :
      (p : PathBuf) (other : List ℕ)
      → parent path ≡ some p
      → find p fs.entries ≡ some (file_entry other)
      → Written path contents fs (fs, err (must_be_dir p))

parent-none : (path : PathBuf) → parent path ≡ none → length path ≡ 0
unfolding parent
parent-none [] e = refl
parent-none (name ∷ path) e = elim (Option-cases (parent path)) [
  | inl f ↦ absurd (ground (arith, f))
  | inr (q, f) ↦ absurd (ground (arith, f))
]

length-parent : (path p : PathBuf) → parent path ≡ some p → length path ≡ suc (length p)
unfolding parent
length-parent [] p e = absurd cc
length-parent (name ∷ path) p e = elim (Option-cases (parent path)) [
  | inl f ↦ let root : p ≡ [] = ground (arith, f) in rw root (ap suc (parent-none path f))
  | inr (q, f) ↦
      let below : p ≡ name ∷ q = ground (arith, f) in rw below (ap suc (length-parent path q f))
]

longer : (path p : PathBuf) → length path ≡ suc (length p) → path ≢ p
longer path p e same = omega (arith, e, ap length same)

find-put :
    (j path : PathBuf) (entry : Entry) (fs : InMemoryFs)
    → find j (put path entry fs).entries
      ≡ ite (PathBuf_discrete path j) (some entry) (find j fs.entries)
find-put j path entry fs = lookup-insert PathBuf_discrete path j entry fs.entries

put-Written :
    (path : PathBuf) (contents : List ℕ) (fs linked : InMemoryFs)
    → ((j : PathBuf) → j ≢ path → read j linked ≡ read j fs)
    → ((p : PathBuf) (children : List PathBuf)
        → parent path ≡ some p
        → find p fs.entries ≡ some (dir_entry children)
        → find p linked.entries ≡ some (dir_entry (add path children)))
    → Written path contents fs (put path (file_entry contents) linked, ok tt)
unfolding read
put-Written path contents fs linked others listed =
    let now = put path (file_entry contents) linked in
    written now
      (rw
        (find-put path path (file_entry contents) linked, if_pos (PathBuf_discrete path path) refl)
        refl)
      (λ j differ.
        ap (read_entry j) (
          find-put j path (file_entry contents) linked
          ∙ if_neg (PathBuf_discrete path j) (λ e. differ (sym e)) (some (file_entry contents))
              (find j linked.entries))
        ∙ others j differ)
      (λ p children e f.
        find-put p path (file_entry contents) linked
        ∙ (if_neg (PathBuf_discrete path p) (λ same. longer path p (length-parent path p e) same)
              (some (file_entry contents)) (find p linked.entries)
            ∙ listed p children e f))

relinked :
    (path p : PathBuf) (contents : List ℕ) (children : List PathBuf) (fs : InMemoryFs)
    → parent path ≡ some p
    → find p fs.entries ≡ some (dir_entry children)
    → Written path contents fs
        (put path (file_entry contents) (put p (dir_entry (add path children)) fs), ok tt)
unfolding read
relinked path p contents children fs e f =
    put-Written path contents fs (put p (dir_entry (add path children)) fs)
      (λ j differ. elim (PathBuf_discrete p j) [
        | yes same ↦
            ap (read_entry j) (
              find-put j p (dir_entry (add path children)) fs
              ∙ if_pos (PathBuf_discrete p j) same (some (dir_entry (add path children)))
                  (find j fs.entries))
            ∙ sym (
                ap (read_entry j)
                  (subst (λ k. find k fs.entries ≡ some (dir_entry children)) same f))
        | no n ↦ ap (read_entry j) (
            find-put j p (dir_entry (add path children)) fs
            ∙ if_neg (PathBuf_discrete p j) n (some (dir_entry (add path children)))
                (find j fs.entries))
      ])
      (λ q children' g h.
        let same : p ≡ q = ground (arith, e, g) in
        find-put q p (dir_entry (add path children)) fs
        ∙ (if_pos (PathBuf_discrete p q) same (some (dir_entry (add path children)))
              (find q fs.entries)
            ∙ ap (λ cs. some (dir_entry (add path cs)))
                (ground
                  (arith, h, subst (λ k. find k fs.entries ≡ some (dir_entry children)) same f))))

write_below :
    (path p : PathBuf) (contents : List ℕ) (o : Option Entry) (fs : InMemoryFs)
    → parent path ≡ some p
    → find p fs.entries ≡ o
    → Written path contents fs
        (then_do (link_below path p o fs) (λ fs. (put path (file_entry contents) fs, ok tt)))
write_below path p contents none fs e f =
    put-Written path contents fs (as_orphan path fs) (λ j differ. unfold read in refl)
      (λ q children g h. absurd (ground (arith, e, f, g, h)))
write_below path p contents (some (file_entry other)) fs e f = refused p other e f
write_below path p contents (some (dir_entry children)) fs e f =
    relinked path p contents children fs e f

-- A write succeeds unless the parent is a file: then the file reads back, every other path reads as
-- it did, and a parent directory lists the file. If the parent is a file, nothing changes.
pub write-Written :
    (path : PathBuf) (contents : List ℕ) (fs : InMemoryFs)
    → Written path contents fs (write path contents fs)
unfolding write load_snapshot link
write-Written path contents fs = elim (Option-cases (parent path)) [
  | inl e ↦ rw e (
      put-Written path contents fs (as_orphan path fs) (λ j differ. unfold read in refl)
        (λ q children g h. absurd (ground (arith, e, g))))
  | inr (p, e) ↦ rw e (write_below path p contents (find p fs.entries) fs e refl)
]
