-- ===== src/SnapshotMiddleware/Agree.antt =====
-- `snapshot_from_vfs` against `middleware_for_path`.
use roxo_mcp.Base.{
  ◌≡◌, refl, Bool, true, false, List, [], ◌∷◌, ◌++◌, Option, none, some, inl, inr, arith,
  Bool-cases, Option-cases,
}
use roxo_mcp.Base.Text.{Text}
use roxo_mcp.FileNames.{Middleware, dir}
use roxo_mcp.ChangeProcessor.Events.{Answer, ok, not_found, failed}
use roxo_mcp.SnapshotMiddleware.Rules.{
  FilePath, Globs, SyncRule, file_name, find_rule, file_name_for_path, default_sync_rules,
}
use roxo_mcp.SnapshotMiddleware.Select.{
  Outcome, done, error, panic, Snapshot, InstanceContext, Sources, reader_of, stamp, read_with,
  snapshot_by, snapshot_from_path, snapshot_dir_by, snapshot_file, snapshot_at, snapshot_from_vfs,
  user_or_default, middleware_of_dir, middleware_of_rule, middleware_at, middleware_for_path,
  get_dir_middleware, is_one_of, init_names,
}

-- The first match in two lists.
find_rule-append :
    {Glob : Type 0} (g : Globs Glob) (path : FilePath) (rules more : List (SyncRule Glob))
    → find_rule g path (rules ++ more)
      ≡ elim (find_rule g path rules) [ none ↦ find_rule g path more | some rule ↦ some rule ]
unfolding find_rule
find_rule-append g path [] more = refl
find_rule-append g path (rule ∷ rules) more = ground (arith, find_rule-append g path rules more)

module _ {Glob Content Rest : Type 0} (g : Globs Glob)
    (src : Sources Content (InstanceContext Glob Rest)) (ctx : InstanceContext Glob Rest) where
  -- Some middleware, that of the snapshot.
  abbrev pub Stamped : Outcome (Option Middleware) → Snapshot Content → Type 0
  Stamped chosen s = (m : Middleware) × (s.middleware ≡ some m) × (chosen ≡ done (some m))

  stamp-Stamped :
      (m : Middleware) (r : Option (Option (Snapshot Content))) (s : Snapshot Content)
      → stamp m r ≡ done (some s)
      → s.middleware ≡ some m
  stamp-Stamped m none s h = cc
  stamp-Stamped m (some none) s h = cc
  stamp-Stamped m (some (some s')) s h = ground arith

  dir-Stamped :
      (path : FilePath) (o : Outcome (Middleware × Text × FilePath)) (s : Snapshot Content)
      → snapshot_dir_by g src ctx path o ≡ done (some s)
      → Stamped (middleware_of_dir g src o) s
  dir-Stamped path error s h = cc
  dir-Stamped path panic s h = cc
  dir-Stamped path (done (dir, name, p)) s h =
      (dir, stamp-Stamped dir (read_with g src ctx path name (reader_of dir)) s h, refl)
  dir-Stamped path (done (m, name, p)) s h =
      (m, stamp-Stamped m (read_with g src ctx p name (reader_of m)) s h, refl)

  rule-Stamped :
      (path : FilePath) (o : Option (SyncRule Glob)) (s : Snapshot Content)
      → snapshot_by g src ctx path o ≡ done (some s)
      → Stamped (done (middleware_of_rule g src o)) s
  rule-Stamped path none s h = cc
  rule-Stamped path (some rule) s h = elim (Option-cases (file_name_for_path rule path)) [
    | inl e ↦ cc (rw e at h)
    | inr (name, e) ↦ (rule.middleware, stamp-Stamped rule.middleware _ s (rw e at h), refl)
  ]

  chosen_rule :
      (path : FilePath)
      → user_or_default g src path (find_rule g path ctx.sync_rules)
        ≡ find_rule g path (ctx.sync_rules ++ default_sync_rules g)
  chosen_rule path = ground (arith, find_rule-append g path ctx.sync_rules (default_sync_rules g))

  file-Stamped :
      (path : FilePath) (o : Option Text) (s : Snapshot Content)
      → snapshot_file g src ctx path o ≡ done (some s)
      → Stamped (middleware_at g src ctx.sync_rules path (ok false)) s
  unfolding snapshot_from_path
  file-Stamped path none s h = cc
  file-Stamped path (some name) s h = elim (Bool-cases (is_one_of name init_names)) [
    | inl e ↦ cc (rw e at h)
    | inr e ↦ rw (← chosen_rule path) (
        rule-Stamped path (user_or_default g src path (find_rule g path ctx.sync_rules)) s
          (rw e at h))
  ]

  at-Stamped :
      (path : FilePath) (a : Answer Bool) (s : Snapshot Content)
      → snapshot_at g src ctx path a ≡ done (some s)
      → Stamped (middleware_at g src ctx.sync_rules path a) s
  at-Stamped path not_found s h = cc
  at-Stamped path failed s h = cc
  at-Stamped path (ok true) s h = dir-Stamped path (get_dir_middleware src.metadata path) s h
  at-Stamped path (ok false) s h = file-Stamped path (file_name path) s h

  -- If `snapshot_from_vfs` gives an instance for a path, then the middleware in its metadata is
  -- the one that `middleware_for_path` gives for the path with the sync rules of the context,
  -- whatever the disk and the readers of the formats answer.
  pub snapshot_from_vfs-Stamped :
      (path : FilePath) (s : Snapshot Content)
      → snapshot_from_vfs g src ctx path ≡ done (some s)
      → Stamped (middleware_for_path g src ctx.sync_rules path) s
  unfolding snapshot_from_vfs middleware_for_path
  snapshot_from_vfs-Stamped path s h = at-Stamped path (src.metadata path) s h
