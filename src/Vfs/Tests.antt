-- ===== src/Vfs/Tests.antt =====
-- Snapshots on a backend that only has files.
use mathlib.Core.Logic.{if_pos}
use roxo_mcp.Base.{
  ℕ, ◌≡◌, refl, sym, ◌∙◌, true, false, not, List, [], ◌∷◌, none, some, arith, if◌then◌else◌,
  Bool-cases, inl, inr,
}
use roxo_mcp.Base.Dict.{lookup, insert, remove, retain, lookup-insert, lookup-remove}
use roxo_mcp.Base.Text.{PathBuf, PathBuf_discrete}
use roxo_mcp.Vfs.Inner.{ok, err, VfsBackend}
use roxo_mcp.Vfs.FsSnapshot.{FsSnapshot, write_to_vfs}
use roxo_mcp.Vfs.Outcome
use roxo_mcp.Vfs.Outcome.{Files, Leaves, written, below}

abbrev Disk : Type 0
Disk = List (PathBuf × List ℕ)

abbrev backend : VfsBackend Disk ℕ ℕ
backend = record {
  read = λ p d. (d, err 2);
  write = λ p c d. (insert PathBuf_discrete p c d, ok tt);
  exists = λ p d. (d, ok false);
  read_dir = λ p d. (d, err 2);
  create_dir = λ p d. (d, ok tt);
  create_dir_all = λ p d. (d, ok tt);
  remove_file = λ p d. (remove PathBuf_discrete p d, ok tt);
  remove_dir_all = λ p d. (retain (λ q _. not (below p q)) d, ok tt);
  metadata = λ p d. (d, err 2);
  canonicalize = λ p d. (d, ok p);
  watch = λ p d. (d, ok tt);
  unwatch = λ p d. (d, ok tt);
}

lookup-retain_above :
    (p q : PathBuf) (d : Disk)
    → lookup PathBuf_discrete q (retain (λ q _. not (below p q)) d)
      ≡ (if below p q then none else lookup PathBuf_discrete q d)
unfolding lookup
lookup-retain_above p q [] = ground arith
lookup-retain_above p q ((j, c) ∷ d) = elim (PathBuf_discrete j q) [
  | yes e ↦ rw e (elim (Bool-cases (below p q)) [
    | inl f ↦ rw f (lookup-retain_above p q d ∙ rw f refl)
    | inr f ↦ rw f (
        if_pos (PathBuf_discrete q q) refl (some c) _
        ∙ sym (if_pos (PathBuf_discrete q q) refl (some c) (lookup PathBuf_discrete q d)))
  ])
  | no n ↦ ground (arith, lookup-retain_above p q d)
]

abbrev files : Files backend
unfolding lookup
files = record {
  file_at = λ d q. lookup PathBuf_discrete q d;
  create_dir_all_keeps = λ p q d. refl;
  unwatch_keeps = λ p q d. refl;
  write_ok = λ p q c d e. lookup-insert PathBuf_discrete p q c d;
  remove_file_ok = λ p q d e. lookup-remove PathBuf_discrete p q d;
  remove_dir_all_ok = λ p q d e. lookup-retain_above p q d;
}

-- The file `a` is removed, and added again by the snapshot that is merged; a directory is removed.
abbrev replaced : FsSnapshot
replaced = record {
  added_files = ("a" ∷ [], 1 ∷ []) ∷ [];
  added_dirs = [];
  removed_files = ("a" ∷ []) ∷ [];
  removed_dirs = ("old" ∷ []) ∷ [];
}

abbrev disk : Disk
disk = ("base" ∷ "old" ∷ "b" ∷ [], 2 ∷ []) ∷ ("base" ∷ "c" ∷ [], 3 ∷ []) ∷ []

write_to_vfs-Leaves_example :
    Leaves backend files
      (written backend files ("base" ∷ []) replaced (λ q. lookup PathBuf_discrete q disk))
      (write_to_vfs backend
        (λ e. false)
        ("base" ∷ [])
        replaced
        (record { backend = disk; watch_enabled = true }))
unfolding lookup files
write_to_vfs-Leaves_example =
    Outcome.write_to_vfs-Leaves backend files (λ e. false) ("base" ∷ []) replaced
      (record { backend = disk; watch_enabled = true }) (refl, tt)
