-- ===== src/SnapshotMiddleware/Gathered.antt =====
-- What a directory's instance is made of.
use roxo_mcp.Base.{
  ◌≡◌, refl, sym, ap, subst, Bool, true, false, ◌&&◌, List, [], ◌∷◌, ◌++◌, map, Option, none, some,
  ◌⊎◌, inl, inr, arith, All, Bool-cases,
}
use mathlib.Core.Logic.{if_neg}
use roxo_mcp.Base.Text.{Text, codes}
use roxo_mcp.Base.Names.{Text_discrete}
use roxo_mcp.FileNames.{Middleware}
use roxo_mcp.SnapshotMiddleware.Rules.{FilePath, Globs, PathIgnoreRule, is_path_ignored}
use roxo_mcp.SnapshotMiddleware.Select.{Outcome, done, error, panic, init_paths, is_one_of}
use roxo_mcp.SnapshotMiddleware.Directories.{
  Instance, Folders, add_child, gather, gathered, folder_with, relevant_in, init_files,
  snapshot_dir_no_meta,
}

done-inj : {A : Type 0} {a b : A} → done a ≡ done b → a ≡ b
done-inj h = ground arith

abbrev pub Contains : FilePath → List FilePath → Type 0
Contains p [] = ⊥
Contains p (q ∷ qs) = (q ≡ p) ⊎ Contains p qs

-- Each name is among the files of a directory.
abbrev all_named : List (Middleware × Text) → Bool
all_named [] = true
all_named ((m, name) ∷ names) = is_one_of name init_files && all_named names

files-Contains :
    (path : FilePath) (name : Text) (names : List Text)
    → is_one_of name names ≡ true
    → Contains (path ++ name ∷ []) (map (λ (n : Text). path ++ n ∷ []) names)
unfolding is_one_of
files-Contains path name [] h = cc
files-Contains path name (n ∷ names) h = elim (Text_discrete name n) [
  | yes p ↦ inl (ap (λ (t : Text). path ++ t ∷ []) (sym p))
  | no p ↦ inr (files-Contains path name names (rw (if_neg _ p) at h))
]

relevant_in-Contains :
    (path : FilePath) (names : List (Middleware × Text))
    → all_named names ≡ true
    → All (λ (c : Middleware × Text). Contains (path ++ c.1 ∷ []) (relevant_in path)) names
relevant_in-Contains path [] h = tt
relevant_in-Contains path ((m, name) ∷ names) h =
    let here : is_one_of name init_files ≡ true = ground arith in
    let rest : all_named names ≡ true = ground arith in
    (inr (files-Contains path name init_files here), relevant_in-Contains path names rest)

init_paths_named : all_named init_paths ≡ true
unfolding is_one_of Text_discrete
init_paths_named = refl

module _ {Glob Child : Type 0} (g : Globs Glob) (rules : List (PathIgnoreRule Glob))
    (read_child : FilePath → Outcome (Option Child)) where
  -- The children are those of the entries that are not ignored, in the order of the entries.
  pub data Gathers : List (Option FilePath) → List Child → Type 0 where
    no_entry : Gathers [] []
    ignored :
        (entry : FilePath) (entries : List (Option FilePath)) (children : List Child)
        → is_path_ignored g rules entry ≡ true
        → Gathers entries children
        → Gathers (some entry ∷ entries) children
    nothing :
        (entry : FilePath) (entries : List (Option FilePath)) (children : List Child)
        → is_path_ignored g rules entry ≡ false
        → read_child entry ≡ done none
        → Gathers entries children
        → Gathers (some entry ∷ entries) children
    child_of :
        (entry : FilePath) (child : Child) (entries : List (Option FilePath))
        (children : List Child)
        → is_path_ignored g rules entry ≡ false
        → read_child entry ≡ done (some child)
        → Gathers entries children
        → Gathers (some entry ∷ entries) (child ∷ children)

  add_child-Gathers :
      (entry : FilePath) (entries : List (Option FilePath)) (o : Outcome (Option Child))
      (rest : Outcome (List Child)) (children : List Child)
      → is_path_ignored g rules entry ≡ false
      → read_child entry ≡ o
      → ((cs : List Child) → rest ≡ done cs → Gathers entries cs)
      → add_child o rest ≡ done children
      → Gathers (some entry ∷ entries) children
  add_child-Gathers entry entries error rest children i e ih h = cc
  add_child-Gathers entry entries panic rest children i e ih h = cc
  add_child-Gathers entry entries (done none) rest children i e ih h =
      nothing entry entries children i e (ih children h)
  add_child-Gathers entry entries (done (some c)) error children i e ih h = cc
  add_child-Gathers entry entries (done (some c)) panic children i e ih h = cc
  add_child-Gathers entry entries (done (some c)) (done cs) children i e ih h =
      let same : c ∷ cs ≡ children = ground arith in
      subst (Gathers (some entry ∷ entries)) same (child_of entry c entries cs i e (ih cs refl))

module _ {Glob Child Rest : Type 0} (g : Globs Glob) (rules : List (PathIgnoreRule Glob))
    (folders : Folders) (read_child : FilePath → Outcome (Option Child)) (no_rest : Rest) where
  gather-Gathers :
      (entries : List (Option FilePath)) (children : List Child)
      → gather g rules folders read_child no_rest entries ≡ done children
      → Gathers g rules read_child entries children
  unfolding gather
  gather-Gathers [] children h =
      let none_left : ◌≡◌ {A = List Child} [] children = ground arith in
      subst (Gathers g rules read_child []) none_left no_entry
  gather-Gathers (none ∷ entries) children h = cc
  gather-Gathers (some entry ∷ entries) children h =
      elim (Bool-cases (is_path_ignored g rules entry)) [
        | inl i ↦ ignored entry entries children i (gather-Gathers entries children (rw i at h))
        | inr i ↦
            add_child-Gathers g rules read_child entry entries (read_child entry)
              (gather g rules folders read_child no_rest entries) children i refl
              (λ cs e. gather-Gathers entries cs e) (rw i at h)
      ]

  -- A folder of its name, with the children of its entries, that is relevant to its canonical path and
  -- to each `init` file there.
  pub record IsFolder (path : FilePath) (name : Text) (i : Instance Child Rest) : Type 0 where
    pub named : i.name ≡ name
    pub class_of : i.class_name ≡ codes "Folder"
    pub entries : List (Option FilePath)
    pub listed : folders.read_dir path ≡ some entries
    pub children_of : Gathers g rules read_child entries i.children
    pub normalized : FilePath
    pub canonical : folders.canonicalize path ≡ some normalized
    pub itself : Contains normalized i.relevant_paths
    pub init_file :
        All
          (λ (c : Middleware × Text). Contains (normalized ++ c.1 ∷ []) i.relevant_paths)
          init_paths

  normalized-IsFolder :
      (path : FilePath) (name : Text) (entries : List (Option FilePath)) (o : Outcome (List Child))
      (c : Option FilePath) (i : Instance Child Rest)
      → folders.read_dir path ≡ some entries
      → gather g rules folders read_child no_rest entries ≡ o
      → folders.canonicalize path ≡ c
      → folder_with g rules folders read_child no_rest path name o c ≡ done i
      → IsFolder path name i
  normalized-IsFolder path name entries error c i l e k h = cc
  normalized-IsFolder path name entries panic c i l e k h = cc
  normalized-IsFolder path name entries (done children) none i l e k h = cc
  normalized-IsFolder path name entries (done children) (some normalized) i l e k h =
      let same : _ ≡ i = done-inj h in
      subst (IsFolder path name) same (record {
        named = refl;
        class_of = refl;
        entries = entries;
        listed = l;
        children_of = gather-Gathers entries children e;
        normalized = normalized;
        canonical = k;
        itself = inl refl;
        init_file = relevant_in-Contains normalized init_paths init_paths_named;
      })

  listing-IsFolder :
      (path : FilePath) (name : Text) (l : Option (List (Option FilePath))) (c : Option FilePath)
      (i : Instance Child Rest)
      → folders.read_dir path ≡ l
      → folders.canonicalize path ≡ c
      → folder_with g rules folders read_child no_rest path name
          (gathered g rules folders read_child no_rest l)
          c
        ≡ done i
      → IsFolder path name i
  listing-IsFolder path name none c i e k h = cc
  listing-IsFolder path name (some entries) c i e k h =
      normalized-IsFolder path name entries (gather g rules folders read_child no_rest entries) c i
        e refl k h

  -- If a directory is read, its instance is a folder of the given name whose children are the
  -- snapshots of its entries that are not ignored, in the order of the entries, and which is
  -- relevant to its canonical path and to every `init` file there that can decide its middleware.
  pub snapshot_dir_no_meta-IsFolder :
      (path : FilePath) (name : Text) (i : Instance Child Rest)
      → snapshot_dir_no_meta g rules folders read_child no_rest path name ≡ done i
      → IsFolder path name i
  unfolding snapshot_dir_no_meta
  snapshot_dir_no_meta-IsFolder path name i h =
      listing-IsFolder path name (folders.read_dir path) (folders.canonicalize path) i refl refl h
