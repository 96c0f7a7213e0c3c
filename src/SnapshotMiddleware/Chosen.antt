-- ===== src/SnapshotMiddleware/Chosen.antt =====
-- Which file of a directory decides its middleware.
use roxo_mcp.Base.{
  ◌≡◌, refl, ◌∙◌, sym, ap, Bool, List, [], ◌∷◌, ◌++◌, All, All-append, Option, none, some, ◌⊎◌, inl,
  inr, arith, Option-cases,
}
use mathlib.Core.List.{append_assoc}
use roxo_mcp.Base.Text.{Text}
use roxo_mcp.FileNames.{Middleware}
use roxo_mcp.ChangeProcessor.Events.{Answer, ok, not_found, failed}
use roxo_mcp.SnapshotMiddleware.Rules.{FilePath, file_name}
use roxo_mcp.SnapshotMiddleware.Select.{
  Outcome, done, error, panic, probe, first_existing, or_dir, or_init, named_dir, dir_middleware_at,
  get_dir_middleware, default_project_names, init_paths,
}

ap_some :
    {p q : Middleware × FilePath} → Outcome.done p ≡ done q → Outcome.done (some p) ≡ done (some q)
ap_some e = ground arith

module _ (metadata : FilePath → Answer Bool) (path : FilePath) where
  abbrev pub AllMissing : List (Middleware × Text) → Type 0
  AllMissing names = All (λ (c : Middleware × Text). metadata (path ++ c.1 ∷ []) ≡ not_found) names

  -- The first name that is there, with its middleware and its path.
  pub record IsFirst (names : List (Middleware × Text)) (m : Middleware) (p : FilePath)
      : Type 0 where
    pub before : List (Middleware × Text)
    pub name : Text
    pub after : List (Middleware × Text)
    pub split : names ≡ before ++ (m, name) ∷ after
    pub place : p ≡ path ++ name ∷ []
    pub is_dir : Bool
    pub there : metadata p ≡ ok is_dir
    pub missing : AllMissing before

  abbrev Found : List (Middleware × Text) → Option (Middleware × FilePath) → Type 0
  Found names none = AllMissing names
  Found names (some (m, p)) = IsFirst names m p

  past :
      (c : Middleware × Text) (names : List (Middleware × Text))
      (o : Option (Middleware × FilePath))
      → metadata (path ++ c.1 ∷ []) ≡ not_found
      → Found names o
      → Found (c ∷ names) o
  past c names none e h = (e, h)
  past c names (some (m, p)) e h = record {
    before = c ∷ h.before;
    name = h.name;
    after = h.after;
    split = ap (◌∷◌ c) h.split;
    place = h.place;
    is_dir = h.is_dir;
    there = h.there;
    missing = (e, h.missing);
  }

  probe-Found :
      (m : Middleware) (name : Text) (names : List (Middleware × Text)) (a : Answer Bool)
      (rest : Outcome (Option (Middleware × FilePath))) (o : Option (Middleware × FilePath))
      → metadata (path ++ name ∷ []) ≡ a
      → (rest ≡ done o → Found names o)
      → probe metadata m (path ++ name ∷ []) a rest ≡ done o
      → Found ((m, name) ∷ names) o
  probe-Found m name names (ok d) rest none e ih h = cc
  probe-Found m name names (ok d) rest (some (m', p)) e ih h =
      let same : m ≡ m' = ground arith in
      let at : path ++ name ∷ [] ≡ p = ground arith in
      record {
        before = [];
        name = name;
        after = names;
        split = rw same refl;
        place = sym at;
        is_dir = d;
        there = rw (← at) e;
        missing = tt;
      }
  probe-Found m name names not_found rest o e ih h = past (m, name) names o e (ih h)
  probe-Found m name names failed rest o e ih h = cc

  first_existing-Found :
      (names : List (Middleware × Text)) (o : Option (Middleware × FilePath))
      → first_existing metadata path names ≡ done o
      → Found names o
  unfolding first_existing
  first_existing-Found [] none h = tt
  first_existing-Found [] (some p) h = cc
  first_existing-Found ((m, name) ∷ names) o h =
      probe-Found m name names (metadata (path ++ name ∷ [])) (first_existing metadata path names) o
        refl (first_existing-Found names o) h

  in_front :
      (names more : List (Middleware × Text)) (m : Middleware) (p : FilePath)
      → IsFirst names m p
      → IsFirst (names ++ more) m p
  in_front names more m p h = record {
    before = h.before;
    name = h.name;
    after = h.after ++ more;
    split =
        ap (λ (l : List (Middleware × Text)). l ++ more) h.split
        ∙ append_assoc h.before ((m, h.name) ∷ h.after) more;
    place = h.place;
    is_dir = h.is_dir;
    there = h.there;
    missing = h.missing;
  }

  behind :
      (names more : List (Middleware × Text)) (m : Middleware) (p : FilePath)
      → AllMissing names
      → IsFirst more m p
      → IsFirst (names ++ more) m p
  behind names more m p k h = record {
    before = names ++ h.before;
    name = h.name;
    after = h.after;
    split = ap (◌++◌ names) h.split ∙ sym (append_assoc names h.before ((m, h.name) ∷ h.after));
    place = h.place;
    is_dir = h.is_dir;
    there = h.there;
    missing =
        All-append (λ (c : Middleware × Text). metadata (path ++ c.1 ∷ []) ≡ not_found) names
          h.before k h.missing;
  }

  abbrev pub candidates : List (Middleware × Text)
  candidates = default_project_names ++ init_paths

  -- The project files come first, then the `init` files in their order, and then the directory.
  abbrev pub Chooses : Middleware → FilePath → Type 0
  Chooses m p = IsFirst candidates m p ⊎ (AllMissing candidates × (m ≡ Middleware.dir) × (p ≡ path))

  dir-Chooses :
      (o : Outcome (Option (Middleware × FilePath))) (m : Middleware) (p : FilePath)
      → AllMissing default_project_names
      → first_existing metadata path init_paths ≡ o
      → or_dir metadata path o ≡ done (m, p)
      → Chooses m p
  dir-Chooses (done none) m p k e h =
      let rest = first_existing-Found init_paths none e in
      inr (
        All-append (λ (c : Middleware × Text). metadata (path ++ c.1 ∷ []) ≡ not_found)
            default_project_names init_paths k rest,
        ground arith,
        ground arith,
      )
  dir-Chooses (done (some (m', p'))) m p k e h = inl (
      behind default_project_names init_paths m p k
        (first_existing-Found init_paths (some (m, p)) (e ∙ ap_some h)))
  dir-Chooses error m p k e h = cc
  dir-Chooses panic m p k e h = cc

  init-Chooses :
      (o : Outcome (Option (Middleware × FilePath))) (m : Middleware) (p : FilePath)
      → first_existing metadata path default_project_names ≡ o
      → or_init metadata path o ≡ done (m, p)
      → Chooses m p
  init-Chooses (done none) m p e h =
      dir-Chooses (first_existing metadata path init_paths) m p
        (first_existing-Found default_project_names none e) refl h
  init-Chooses (done (some (m', p'))) m p e h = inl (
      in_front default_project_names init_paths m p
        (first_existing-Found default_project_names (some (m, p)) (e ∙ ap_some h)))
  init-Chooses error m p e h = cc
  init-Chooses panic m p e h = cc

  named-Chooses :
      (n name : Text) (o : Outcome (Middleware × FilePath)) (m : Middleware) (p : FilePath)
      → or_init metadata path (first_existing metadata path default_project_names) ≡ o
      → named_dir metadata n o ≡ done (m, name, p)
      → (n ≡ name) × Chooses m p
  named-Chooses n name (done (m', p')) m p e h =
      let same : ◌≡◌ {A = Outcome (Middleware × FilePath)} (done (m', p')) (done (m, p)) =
        ground arith in
      let named : n ≡ name = ground arith in
      (named, init-Chooses (first_existing metadata path default_project_names) m p refl (e ∙ same))
  named-Chooses n name error m p e h = cc
  named-Chooses n name panic m p e h = cc

  -- If `get_dir_middleware` succeeds, then the name is that of the directory, and the file is the
  -- first of the project files and the `init` files, in their order, that is there, with all
  -- before it missing; or all are missing, and it is the directory.
  pub get_dir_middleware-Chooses :
      (m : Middleware) (name : Text) (p : FilePath)
      → get_dir_middleware metadata path ≡ done (m, name, p)
      → (file_name path ≡ some name) × Chooses m p
  unfolding get_dir_middleware
  get_dir_middleware-Chooses m name p h = elim (Option-cases (file_name path)) [
    | inl e ↦ cc (rw (e, dir_middleware_at) at h)
    | inr (n, e) ↦
        let (same, chosen) =
          named-Chooses n name
            (or_init metadata path (first_existing metadata path default_project_names)) m p refl
            (rw (e, dir_middleware_at) at h) in
        (e ∙ ap some same, chosen)
  ]
