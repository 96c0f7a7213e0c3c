-- ===== src/ChangeProcessor/Owned.antt =====
-- The files that a client's patch writes and removes are those that its instances come from.
use Prim.Native.String.{String}
use roxo_mcp.Base.{
  List, [], ◌∷◌, Option, none, some, ◌≡◌, refl, All, All-append, All-map, Bool-cases, inl, inr,
}
use roxo_mcp.Base.Text.{PathBuf}
use roxo_mcp.RojoTree.Index.{InstanceMetadata}
use roxo_mcp.RojoTree.Tree.{WeakDom, RojoTree, Instance, get_instance}
use roxo_mcp.RojoTree.Sound.{IsSound, get_instance-ne-panic}
use roxo_mcp.Patch.Properties.{Changes}
use roxo_mcp.Patch.Sets.{PatchSet, PatchUpdate}
use roxo_mcp.Patch.Compute.{same_text}
use roxo_mcp.ChangeProcessor.Events.{InstigatingSource, path, project_node, Carried}
use roxo_mcp.ChangeProcessor.Client.{
  FileAction, remove_file, write_file, removal_of, write_of, string_of, source_writes,
  removal_actions, update_actions, prepend_to, removals, writes, file_actions,
}

abbrev pub file_of : FileAction → PathBuf
file_of (remove_file p) = p
file_of (write_file p text) = p

module _ {dom : WeakDom} {Node Context : Type 0} (t : RojoTree dom (Carried Node Context)) where
  open dom use {Ref, Variant}

  -- The file of the action is the source of this instance of the tree.
  abbrev pub IsSourceOf : Ref → FileAction → Type 0
  IsSourceOf id action =
      (i : Instance Ref Variant) × (md : InstanceMetadata (Carried Node Context)) × (get_instance
          dom id t
        ≡ some (some (i, md)))
      × (md.rest.instigating_source ≡ some (path (file_of action)))

  removal_of-IsSourceOf :
      (id : Ref) (i : Instance Ref Variant) (md : InstanceMetadata (Carried Node Context))
      (o : Option (InstigatingSource Node))
      → get_instance dom id t ≡ some (some (i, md))
      → md.rest.instigating_source ≡ o
      → All (IsSourceOf id) (removal_of o)
  removal_of-IsSourceOf id i md none e f = tt
  removal_of-IsSourceOf id i md (some (path p)) e f = ((i, md, e, f), tt)
  removal_of-IsSourceOf id i md (some (project_node p name node parent_class)) e f = tt

  write_of-IsSourceOf :
      (id : Ref) (i : Instance Ref Variant) (md : InstanceMetadata (Carried Node Context))
      (o : Option (InstigatingSource Node)) (value : Option String)
      → get_instance dom id t ≡ some (some (i, md))
      → md.rest.instigating_source ≡ o
      → All (IsSourceOf id) (write_of o value)
  write_of-IsSourceOf id i md none value e f = tt
  write_of-IsSourceOf id i md (some (path p)) none e f = tt
  write_of-IsSourceOf id i md (some (path p)) (some value) e f = ((i, md, e, f), tt)
  write_of-IsSourceOf id i md (some (project_node p name node parent_class)) value e f = tt

  source_writes-IsSourceOf :
      (as_string : Variant → Option String) (id : Ref) (i : Instance Ref Variant)
      (md : InstanceMetadata (Carried Node Context)) (changes : Changes Variant)
      → get_instance dom id t ≡ some (some (i, md))
      → All (IsSourceOf id) (source_writes as_string md.rest.instigating_source changes)
  unfolding source_writes
  source_writes-IsSourceOf as_string id i md [] e = tt
  source_writes-IsSourceOf as_string id i md ((key, value) ∷ changes) e =
      let source = md.rest.instigating_source in
      let rest = source_writes-IsSourceOf as_string id i md changes e in
      elim (Bool-cases (same_text key "Source")) [
        | inl f ↦ rw f (
            All-append (IsSourceOf id) (write_of source (string_of as_string value))
              (source_writes as_string source changes)
              (write_of-IsSourceOf id i md source (string_of as_string value) e refl) rest)
        | inr f ↦ rw f rest
      ]

  -- The actions exist, and each belongs to one of the instances.
  abbrev pub AllOwned : (Ref → Type 0) → Option (List FileAction) → Type 0
  AllOwned Named none = ⊥
  AllOwned Named (some actions) = All (λ a. (id : Ref) × Named id × IsSourceOf id a) actions

  prepend_to-AllOwned :
      (Named : Ref → Type 0) (xs ys : Option (List FileAction))
      → AllOwned Named xs
      → AllOwned Named ys
      → AllOwned Named (prepend_to xs ys)
  prepend_to-AllOwned Named none ys h k = h
  prepend_to-AllOwned Named (some xs) none h k = k
  prepend_to-AllOwned Named (some xs) (some ys) h k =
      All-append (λ a. (id : Ref) × Named id × IsSourceOf id a) xs ys h k

  named :
      (Named : Ref → Type 0) (id : Ref) (actions : List FileAction)
      → Named id
      → All (IsSourceOf id) actions
      → All (λ a. (id : Ref) × Named id × IsSourceOf id a) actions
  named Named id actions n h =
      All-map (IsSourceOf id) (λ a. (id : Ref) × Named id × IsSourceOf id a) actions
        (λ a k. (id, n, k)) h

  removal_actions-AllOwned :
      (Named : Ref → Type 0) (id : Ref)
      (o : Option (Option (Instance Ref Variant × InstanceMetadata (Carried Node Context))))
      → IsSound dom t
      → Named id
      → get_instance dom id t ≡ o
      → AllOwned Named (removal_actions o)
  removal_actions-AllOwned Named id none s n e = tt
  removal_actions-AllOwned Named id (some none) s n e = absurd (get_instance-ne-panic dom t id s e)
  removal_actions-AllOwned Named id (some (some (i, md))) s n e =
      named Named id (removal_of md.rest.instigating_source) n
        (removal_of-IsSourceOf id i md md.rest.instigating_source e refl)

  update_actions-AllOwned :
      (Named : Ref → Type 0) (as_string : Variant → Option String) (changes : Changes Variant)
      (id : Ref)
      (o : Option (Option (Instance Ref Variant × InstanceMetadata (Carried Node Context))))
      → IsSound dom t
      → Named id
      → get_instance dom id t ≡ o
      → AllOwned Named (update_actions as_string changes o)
  unfolding update_actions
  update_actions-AllOwned Named as_string changes id none s n e = tt
  update_actions-AllOwned Named as_string changes id (some none) s n e =
      absurd (get_instance-ne-panic dom t id s e)
  update_actions-AllOwned Named as_string changes id (some (some (i, md))) s n e =
      named Named id (source_writes as_string md.rest.instigating_source changes) n
        (source_writes-IsSourceOf as_string id i md changes e)

  removals-AllOwned :
      (Named : Ref → Type 0) (ids : List Ref)
      → IsSound dom t
      → All Named ids
      → AllOwned Named (removals t ids)
  unfolding removals
  removals-AllOwned Named [] s n = tt
  removals-AllOwned Named (id ∷ ids) s n =
      prepend_to-AllOwned Named (removal_actions (get_instance dom id t)) (removals t ids)
        (removal_actions-AllOwned Named id (get_instance dom id t) s n.0 refl)
        (removals-AllOwned Named ids s n.1)

  writes-AllOwned :
      (Named : Ref → Type 0) (as_string : Variant → Option String)
      (us : List (PatchUpdate dom (Carried Node Context)))
      → IsSound dom t
      → All (λ u. Named u.id) us
      → AllOwned Named (writes as_string t us)
  unfolding writes
  writes-AllOwned Named as_string [] s n = tt
  writes-AllOwned Named as_string (u ∷ us) s n =
      let here = update_actions as_string u.changed_properties (get_instance dom u.id t) in
      prepend_to-AllOwned Named here (writes as_string t us)
        (update_actions-AllOwned Named as_string u.changed_properties u.id (get_instance dom u.id t)
          s n.0 refl)
        (writes-AllOwned Named as_string us s n.1)

  -- In a sound tree the files that `handle_tree_event` writes and removes can be told, without a
  -- panic, and each is the source path of an instance that the patch removes or updates: whatever
  -- holds of the IDs that the patch names holds of that instance's.
  pub file_actions-AllOwned :
      (Named : Ref → Type 0) (as_string : Variant → Option String)
      (patch : PatchSet dom (Carried Node Context))
      → IsSound dom t
      → All Named patch.removed_instances
      → All (λ u. Named u.id) patch.updated_instances
      → AllOwned Named (file_actions as_string t patch)
  unfolding file_actions
  file_actions-AllOwned Named as_string patch s h k =
      prepend_to-AllOwned Named (removals t patch.removed_instances)
        (writes as_string t patch.updated_instances)
        (removals-AllOwned Named patch.removed_instances s h)
        (writes-AllOwned Named as_string patch.updated_instances s k)
