-- ===== src/Vfs/Outcome.antt =====
-- What the files are after `write_to_vfs`, and that a path that is both added and removed is gone.
use roxo_mcp.Base.{
  ℕ, ◌≡◌, refl, ap, ◌∙◌, Bool, true, false, ◌||◌, List, [], ◌∷◌, Option, none, some, ite, arith,
  if◌then◌else◌, Bool-cases, inl, inr,
}
use roxo_mcp.Base.Dict.{lookup, IsDistinct}
use roxo_mcp.Base.Text.{PathBuf, PathBuf_discrete, String_discrete}
use roxo_mcp.MultiMap.{contains}
use roxo_mcp.Vfs.Inner.{
  IoResult, ok, err, VfsBackend, VfsInner, vfs_create_dir_all, vfs_write, vfs_remove_dir_all,
  vfs_remove_file,
}
use roxo_mcp.Vfs.FsSnapshot.{
  FsSnapshot, State, next_if_ok, next_unless, create_dirs, write_files, remove_dirs, remove_files,
  at_base, files_at_base, write_to_vfs,
}

-- The second path is the first, or is below it.
abbrev pub below : PathBuf → PathBuf → Bool
below [] q = true
below (c ∷ p) [] = false
below (c ∷ p) (d ∷ q) = ite (String_discrete c d) (below p q) false

-- The files of a backend, with what std::fs documents of its operations where they succeed: `write`
-- and the removals change what they name, and neither making directories nor watching changes a file.
-- The in-memory file system, a backend of the tests, is no such backend: it makes a directory of a
-- file without an error.
pub record Files {Backend Err Info : Type 0} (ops : VfsBackend Backend Err Info) : Type 0 where
  pub file_at : Backend → PathBuf → Option (List ℕ)
  pub create_dir_all_keeps :
      (p q : PathBuf) (b : Backend) → file_at (ops.create_dir_all p b).0 q ≡ file_at b q
  pub unwatch_keeps : (p q : PathBuf) (b : Backend) → file_at (ops.unwatch p b).0 q ≡ file_at b q
  pub write_ok :
      (p q : PathBuf) (contents : List ℕ) (b : Backend)
      → (ops.write p contents b).1 ≡ ok tt
      → file_at (ops.write p contents b).0 q
        ≡ ite (PathBuf_discrete p q) (some contents) (file_at b q)
  pub remove_file_ok :
      (p q : PathBuf) (b : Backend)
      → (ops.remove_file p b).1 ≡ ok tt
      → file_at (ops.remove_file p b).0 q ≡ ite (PathBuf_discrete p q) none (file_at b q)
  pub remove_dir_all_ok :
      (p q : PathBuf) (b : Backend)
      → (ops.remove_dir_all p b).1 ≡ ok tt
      → file_at (ops.remove_dir_all p b).0 q ≡ (if below p q then none else file_at b q)

abbrev pub found_or : Option (List ℕ) → Option (List ℕ) → Option (List ℕ)
found_or none old = old
found_or (some contents) old = some contents

module _ {Backend Err Info : Type 0} (ops : VfsBackend Backend Err Info) (files : Files ops) where
  open files use {file_at}

  abbrev pub below_any : List PathBuf → PathBuf → Bool
  below_any [] q = false
  below_any (p ∷ ps) q = below p q || below_any ps q

  -- Where the operation succeeds, the files are these.
  abbrev pub Leaves : (PathBuf → Option (List ℕ)) → State ops → Type 0
  Leaves target (v, ok u) = (q : PathBuf) → file_at v.backend q ≡ target q
  Leaves target (v, err e) = Unit

  Leaves-next :
      (mid target : PathBuf → Option (List ℕ)) (s : State ops) (next : VfsInner Backend → State ops)
      → Leaves mid s
      → ((v : VfsInner Backend)
          → ((q : PathBuf) → file_at v.backend q ≡ mid q)
          → Leaves target (next v))
      → Leaves target (next_if_ok ops s next)
  Leaves-next mid target (v, ok u) next h k = k v h
  Leaves-next mid target (v, err e) next h k = tt

  passed :
      (already_exists : Err → Bool) (v : VfsInner Backend) (r : IoResult Err Unit)
      (target : PathBuf → Option (List ℕ)) (next : VfsInner Backend → State ops)
      → Leaves target (next v)
      → Leaves target (next_unless ops already_exists (v, r) next)
  passed already_exists v (ok u) target next h = h
  passed already_exists v (err e) target next h = elim (Bool-cases (already_exists e)) [
    | inl f ↦ rw f h
    | inr f ↦ rw f tt
  ]

  create_dirs-Leaves :
      (already_exists : Err → Bool) (ps : List PathBuf) (v : VfsInner Backend)
      (target : PathBuf → Option (List ℕ))
      → ((q : PathBuf) → file_at v.backend q ≡ target q)
      → Leaves target (create_dirs ops already_exists ps v)
  unfolding create_dirs vfs_create_dir_all
  create_dirs-Leaves already_exists [] v target h = h
  create_dirs-Leaves already_exists (p ∷ ps) v target h =
      let made = ops.create_dir_all p v.backend in
      let v' : VfsInner Backend = record v { backend = made.0 } in
      let later =
        create_dirs-Leaves already_exists ps v' target
          (λ q. files.create_dir_all_keeps p q v.backend ∙ h q) in
      passed already_exists v' made.1 target (create_dirs ops already_exists ps) later

  Leaves-same :
      (old target : PathBuf → Option (List ℕ)) (s : State ops)
      → ((q : PathBuf) → old q ≡ target q)
      → Leaves old s
      → Leaves target s
  Leaves-same old target (v, ok u) e h = λ q. h q ∙ e q
  Leaves-same old target (v, err f) e h = tt

  -- One operation with a known result, and the loop over the rest.
  step :
      (v : VfsInner Backend) (r : IoResult Err Unit) (target : PathBuf → Option (List ℕ))
      (next : VfsInner Backend → State ops)
      → (r ≡ ok tt → Leaves target (next v))
      → Leaves target (next_if_ok ops (v, r) next)
  step v (ok u) target next h = h refl
  step v (err e) target next h = tt

  write_files-Leaves :
      (fs : List (PathBuf × List ℕ)) (v : VfsInner Backend) (old : PathBuf → Option (List ℕ))
      → IsDistinct PathBuf_discrete fs
      → ((q : PathBuf) → file_at v.backend q ≡ old q)
      → Leaves (λ q. found_or (lookup PathBuf_discrete q fs) (old q)) (write_files ops fs v)
  unfolding write_files vfs_write lookup
  write_files-Leaves [] v old d h = h
  write_files-Leaves ((p, contents) ∷ fs) v old d h =
      let made = ops.write p contents v.backend in
      let v' : VfsInner Backend = record v { backend = made.0 } in
      step v' made.1 (λ q. found_or (lookup PathBuf_discrete q ((p, contents) ∷ fs)) (old q))
        (write_files ops fs)
        (λ e.
          Leaves-same
            (λ q.
              found_or (lookup PathBuf_discrete q fs)
                (ite (PathBuf_discrete p q) (some contents) (old q)))
            (λ q. found_or (lookup PathBuf_discrete q ((p, contents) ∷ fs)) (old q))
            (write_files ops fs v') (λ q. ground (arith, d))
            (write_files-Leaves fs v' (λ q. ite (PathBuf_discrete p q) (some contents) (old q)) d.1
              (λ q.
                files.write_ok p q contents v.backend e
                ∙ ap (ite (PathBuf_discrete p q) (some contents)) (h q))))

  remove_dirs-Leaves :
      (ps : List PathBuf) (v : VfsInner Backend) (old : PathBuf → Option (List ℕ))
      → ((q : PathBuf) → file_at v.backend q ≡ old q)
      → Leaves (λ q. if below_any ps q then none else old q) (remove_dirs ops ps v)
  unfolding remove_dirs vfs_remove_dir_all
  remove_dirs-Leaves [] v old h = h
  remove_dirs-Leaves (p ∷ ps) v old h =
      let start = (ops.unwatch p v.backend).0 in
      let made = ops.remove_dir_all p start in
      let v' : VfsInner Backend = record v { backend = made.0 } in
      step v' made.1 (λ q. if below_any (p ∷ ps) q then none else old q) (remove_dirs ops ps)
        (λ e.
          Leaves-same (λ q. if below_any ps q then none else if below p q then none else old q)
            (λ q. if below_any (p ∷ ps) q then none else old q) (remove_dirs ops ps v')
            (λ q. ground arith)
            (remove_dirs-Leaves ps v' (λ q. if below p q then none else old q)
              (λ q.
                files.remove_dir_all_ok p q start e
                ∙ ap (λ o. if below p q then none else o)
                    (files.unwatch_keeps p q v.backend ∙ h q))))

  remove_files-Leaves :
      (ps : List PathBuf) (v : VfsInner Backend) (old : PathBuf → Option (List ℕ))
      → ((q : PathBuf) → file_at v.backend q ≡ old q)
      → Leaves (λ q. if contains PathBuf_discrete q ps then none else old q) (remove_files ops ps v)
  unfolding remove_files vfs_remove_file contains
  remove_files-Leaves [] v old h = h
  remove_files-Leaves (p ∷ ps) v old h =
      let start = (ops.unwatch p v.backend).0 in
      let made = ops.remove_file p start in
      let v' : VfsInner Backend = record v { backend = made.0 } in
      step v' made.1 (λ q. if contains PathBuf_discrete q (p ∷ ps) then none else old q)
        (remove_files ops ps)
        (λ e.
          Leaves-same
            (λ q.
              if contains PathBuf_discrete q ps
              then none
              else ite (PathBuf_discrete p q) none (old q))
            (λ q. if contains PathBuf_discrete q (p ∷ ps) then none else old q)
            (remove_files ops ps v') (λ q. ground arith)
            (remove_files-Leaves ps v' (λ q. ite (PathBuf_discrete p q) none (old q))
              (λ q.
                files.remove_file_ok p q start e
                ∙ ap (ite (PathBuf_discrete p q) none) (files.unwatch_keeps p q v.backend ∙ h q))))

  -- The files after a snapshot is written below a base path.
  abbrev pub written :
      PathBuf → FsSnapshot → (PathBuf → Option (List ℕ)) → PathBuf → Option (List ℕ)
  written base s old q =
      if contains PathBuf_discrete q (at_base base s.removed_files)
      then none
      else if below_any (at_base base s.removed_dirs) q
      then none
      else found_or (lookup PathBuf_discrete q (files_at_base base s.added_files)) (old q)

  -- On a backend whose operations do to the files what std::fs documents, and where no path is
  -- added twice below the base: where writing a snapshot succeeds, a path that the snapshot
  -- removes as a file is no file, also where the snapshot adds it; else nothing below a removed
  -- directory is; else an added file has its new contents; and every other file has what it had.
  pub write_to_vfs-Leaves :
      (already_exists : Err → Bool) (base : PathBuf) (s : FsSnapshot) (v : VfsInner Backend)
      → IsDistinct PathBuf_discrete (files_at_base base s.added_files)
      → Leaves (written base s (file_at v.backend)) (write_to_vfs ops already_exists base s v)
  unfolding write_to_vfs
  write_to_vfs-Leaves already_exists base s v d =
      let old : PathBuf → Option (List ℕ) = file_at v.backend in
      let added : PathBuf → Option (List ℕ) =
        λ q. found_or (lookup PathBuf_discrete q (files_at_base base s.added_files)) (old q) in
      let kept : PathBuf → Option (List ℕ) =
        λ q. if below_any (at_base base s.removed_dirs) q then none else added q in
      let made = create_dirs ops already_exists (at_base base s.added_dirs) v in
      let put = next_if_ok ops made (write_files ops (files_at_base base s.added_files)) in
      let cleared = next_if_ok ops put (remove_dirs ops (at_base base s.removed_dirs)) in
      Leaves-next kept (written base s old) cleared
        (remove_files ops (at_base base s.removed_files))
        (Leaves-next added kept put (remove_dirs ops (at_base base s.removed_dirs))
          (Leaves-next old added made (write_files ops (files_at_base base s.added_files))
            (create_dirs-Leaves already_exists (at_base base s.added_dirs) v old (λ q. refl))
            (λ v' h. write_files-Leaves (files_at_base base s.added_files) v' old d h))
          (λ v' h. remove_dirs-Leaves (at_base base s.removed_dirs) v' added h))
        (λ v' h. remove_files-Leaves (at_base base s.removed_files) v' kept h)
