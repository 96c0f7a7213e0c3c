-- ===== src/InMemoryFs/Tests.antt =====
-- in_memory_fs.rs on a root with one file.
use roxo_mcp.Base.{◌≡◌, refl, [], ◌∷◌, some, arith}
use roxo_mcp.Base.Dict.{lookup, insert, remove as remove_entry}
use roxo_mcp.Base.Equality.{List_discrete}
use roxo_mcp.Base.Text.{PathBuf_discrete, String_discrete}
use roxo_mcp.InMemoryFs.{
  InMemoryFs, file_entry, dir_entry, ok, err, must_be_dir, parent, link, load_snapshot,
  load_children, file, dir, child, no_more, read, write, read_dir, create_dir, create_ancestors,
  create_dir_all, remove_loop, remove, remove_dir_all, new, exists,
}
use roxo_mcp.InMemoryFs.Write
use roxo_mcp.InMemoryFs.Write.{Written}
use roxo_mcp.InMemoryFs.Removal
use roxo_mcp.InMemoryFs.Removal.{Pruned}

program : Unit {0}
unfolding lookup insert remove_entry List_discrete PathBuf_discrete String_discrete parent link
    load_snapshot load_children read write read_dir create_dir create_ancestors create_dir_all
    remove_loop remove remove_dir_all exists
program = tt

abbrev disk : InMemoryFs
disk = record {
  entries =
      ([], dir_entry (("notes" ∷ []) ∷ ("src" ∷ []) ∷ []))
      ∷ ("notes" ∷ [], file_entry (1 ∷ 2 ∷ []))
      ∷ ("src" ∷ [], dir_entry (("src" ∷ "main" ∷ []) ∷ []))
      ∷ ("src" ∷ "main" ∷ [], file_entry [])
      ∷ [];
  orphans = [] ∷ [];
}

-- The snapshot of this root loads as this root.
loads :
    load_snapshot
      (dir (
        child "notes"
          (file (1 ∷ 2 ∷ []))
          (child "src" (dir (child "main" (file []) no_more)) no_more)))
      []
      new
    ≡ (disk, ok tt)
unfolding program
loads = refl

refuses : write ("notes" ∷ "a" ∷ []) [] disk ≡ (disk, err (must_be_dir ("notes" ∷ [])))
unfolding program
refuses = refl

write_example : Written ("notes" ∷ []) (3 ∷ []) disk (write ("notes" ∷ []) (3 ∷ []) disk)
write_example = Write.write-Written ("notes" ∷ []) (3 ∷ []) disk

remove_example :
    (fs' : InMemoryFs) × (remove 4 ("src" ∷ []) disk ≡ some fs')
    × Pruned (("src" ∷ []) ∷ []) disk.entries fs'.entries
remove_example = Removal.remove-Pruned 4 ("src" ∷ []) disk (omega arith)
