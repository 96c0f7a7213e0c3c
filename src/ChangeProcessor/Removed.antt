-- ===== src/ChangeProcessor/Removed.antt =====
-- An instance whose file is gone is removed; another affected instance below it is then looked up
-- although it has gone.
use roxo_mcp.Base.{ℕ, true, false, List, [], ◌∷◌, none, some, ◌≡◌, refl, ◌≤◌, if◌then◌else◌}
use roxo_mcp.Base.Text.{PathBuf}
use roxo_mcp.MultiMap.{contains, Unique}
use roxo_mcp.RojoTree.Index.{InstanceMetadata, get_metadata}
use roxo_mcp.RojoTree.Tree.{WeakDom, RojoTree, is_some, remove}
use roxo_mcp.RojoTree.Sound.{IsSound, has}
use roxo_mcp.RojoTree.Removal.{Forest, subtree, refs, size, Describes, remove-IsSound}
use roxo_mcp.Patch.Sets.{empty_patch}
use roxo_mcp.Patch.Apply.{apply_updates}
use roxo_mcp.Patch.Finish.{
  apply_patch_set, apply_removals, apply_rest, apply_additions, finish, finalize_patch_application,
  rewrite_added, rewrite_attributes,
}
use roxo_mcp.ChangeProcessor.Events.{path, Carried, not_found, Sources}
use roxo_mcp.ChangeProcessor.Handle.{
  done, panicked, Tree, Applied, apply_now, apply_path, apply_source, compute_and_apply_changes,
  apply_ids,
}

module _ {dom : WeakDom} {Rest : Type 0} where
  open dom use {Ref, ref_discrete}

  -- The subtree of the instance is a finite forest of instances of a sound tree, there is fuel for it,
  -- and destroy takes out the subtree and nothing else.
  pub record Removable (t : RojoTree dom Rest) (fuel : ℕ) (id : Ref) (below : Forest Ref)
      : Type 0 where
    pub sound : IsSound dom t
    pub enough : size (subtree id below) ≤ fuel
    pub described : Describes dom t.inner (subtree id below)
    pub unique : Unique ref_discrete (refs (subtree id below))
    pub there :
        (x : Ref) → contains ref_discrete x (refs (subtree id below)) ≡ true → has dom t x ≡ true
    pub destroyed :
        (x : Ref)
        → is_some (dom.get_by_ref (dom.destroy t.inner id) x)
          ≡ (if contains ref_discrete x (refs (subtree id below)) then false else has dom t x)

module _ {dom : WeakDom} {Node Context Vfs : Type 0} (src : Sources dom Node Context Vfs)
    (fuel : ℕ) where
  open dom use {Ref, Variant, ref_discrete}

  abbrev pub only_removed : Ref → Applied dom Node Context
  only_removed id = record { removed = id ∷ []; added = []; updated = [] }

  apply_now_removal :
      (t u : Tree dom Node Context) (id : Ref)
      → remove dom fuel id t ≡ some (some u)
      → apply_now src fuel t (record empty_patch { removed_instances = id ∷ [] })
        ≡ done (u, some (only_removed id))
  unfolding apply_now apply_patch_set apply_removals apply_rest apply_additions apply_updates finish
      finalize_patch_application rewrite_added rewrite_attributes
  apply_now_removal t u id e = rw (e, apply_now, apply_patch_set, apply_removals) refl

  -- The metadata of the instance names a path as its source, and the path is gone.
  abbrev pub SourceGone : Tree dom Node Context → Vfs → Ref → Type 0
  SourceGone t vfs id =
      (md : InstanceMetadata (Carried Node Context)) × (p : PathBuf) × (get_metadata ref_discrete id
          t.index
        ≡ some md)
      × (md.rest.instigating_source ≡ some (path p))
      × (src.metadata vfs p ≡ not_found)

  compute_removed :
      (t u : Tree dom Node Context) (vfs : Vfs) (id : Ref)
      → SourceGone t vfs id
      → remove dom fuel id t ≡ some (some u)
      → compute_and_apply_changes src fuel t vfs id ≡ done (u, some (only_removed id))
  unfolding compute_and_apply_changes apply_source apply_path
  compute_removed t u vfs id (md, p, e, f, g) r = rw (e, f, g) (apply_now_removal t u id r)

  -- An instance whose source is a path that is gone is removed with all below it: the change ends, its
  -- report has the instance alone, and the tree is sound and has lost exactly the subtree. The subtree
  -- is a finite forest of instances of a sound tree, with fuel for it.
  pub compute_and_apply_changes_gone :
      (t : Tree dom Node Context) (vfs : Vfs) (id : Ref) (below : Forest Ref)
      → Removable t fuel id below
      → SourceGone t vfs id
      → (u : Tree dom Node Context) × (compute_and_apply_changes src fuel t vfs id
          ≡ done (u, some (only_removed id)))
        × IsSound dom u
        × ((x : Ref)
            → get_metadata ref_discrete x u.index ≡ (
                if contains ref_discrete x (refs (subtree id below))
                then none
                else get_metadata ref_discrete x t.index))
  unfolding get_metadata
  compute_and_apply_changes_gone t vfs id below r s =
      let (u, e, sound, forgotten) =
        remove-IsSound dom t fuel id below r.sound r.enough r.described r.unique r.there
          r.destroyed in
      (u, compute_removed t u vfs id s e, sound, forgotten)

  after_removal :
      (t u : Tree dom Node Context) (vfs : Vfs) (id other : Ref) (rest : List Ref)
      → compute_and_apply_changes src fuel t vfs id ≡ done (u, some (only_removed id))
      → get_metadata ref_discrete other u.index ≡ none
      → apply_ids src fuel t vfs (id ∷ other ∷ rest) ≡ panicked
  unfolding apply_ids compute_and_apply_changes
  after_removal t u vfs id other rest e f = rw (e, f) refl

  -- Where the source of the first of two affected instances is a path that is gone, and the second is
  -- below it, the handler panics: it looks up the metadata of an instance that it has just removed.
  pub apply_ids_panic :
      (t : Tree dom Node Context) (vfs : Vfs) (id other : Ref) (rest : List Ref)
      (below : Forest Ref)
      → Removable t fuel id below
      → SourceGone t vfs id
      → contains ref_discrete other (refs (subtree id below)) ≡ true
      → apply_ids src fuel t vfs (id ∷ other ∷ rest) ≡ panicked
  apply_ids_panic t vfs id other rest below r s inside =
      let (u, e, sound, forgotten) = compute_and_apply_changes_gone t vfs id below r s in
      after_removal t u vfs id other rest e (rw (forgotten other, inside) refl)
