-- ===== src/Lib.antt =====
-- Roxo: the server that keeps a Rojo project and Roblox Studio in step.
--
-- `roxo serve` reads a project from a virtual file system into a tree of instances, watches the
-- files, and sends what changes as patches to the Studio plugin over HTTP. `syncback` goes the other
-- way, from a place file to the project's files. Around that core stand a queue of messages for the
-- subscribers, registries of Studio clients and of serve sessions, checks on who may talk to the
-- server, and commands that tell an agent why Studio is not connected.
--
-- The modules, and the files of the repository that they are about:
--
--   Base             shared names, Boolean tests on numbers, lists, dictionaries (Base.Dict, for hash
--                    maps), sorting (Base.Sort), decidable equality, texts and names
--   MessageQueue     src/message_queue.rs: MessageQueue with push_messages, subscribe, cursor,
--                    last_push_at. subscribe is two steps, subscribe_check and enlist, since the code
--                    takes its two locks one after the other; MessageQueue.Interleave is the step
--                    relation of threads that push and subscribe
--   MultiMap         src/multimap.rs: a map to buckets without duplicates
--   RojoTree         src/snapshot/tree.rs, metadata.rs and instance_snapshot.rs, src/rojo_ref.rs:
--                    RojoTree.Index is the three maps and what keeps them in step, RojoTree.Tree the
--                    instances with insert_instance, remove and get_instance. The DOM (rbx_dom_weak)
--                    is a record of operations with laws, WeakDom; RojoTree.Memory is one such DOM
--   Patch            src/snapshot/patch.rs, patch_compute.rs and patch_apply.rs: Patch.Properties and
--                    Patch.Compute are the comparison of one instance with a snapshot, Patch.Walk and
--                    Patch.Rewrite compute_patch_set, Patch.Deferred, Patch.Apply and Patch.Finish
--                    apply_patch_set. The other modules prove what they do. Property values
--                    (rbx_types) are a parameter, Patch.Variants, and so is the change of an instance
--                    in place, Patch.Apply.Mutation
--   ChangeProcessor  src/change_processor.rs: handle_vfs_event and handle_tree_event, which compose the
--                    tree, patches and the message queue. The snapshot middleware and the virtual file
--                    system are an interface, ChangeProcessor.Events.Sources
--   VariantEq        src/variant_eq.rs: variant_eq on every type of value. Floats are a parameter
--   ClientRegistry   src/client_registry.rs: clients with their handshakes and subscriptions, and the
--                    probes of places that only looked. The clock is an argument of each call
--   SessionRegistry  src/session_registry.rs: the beacons of all serve sessions of a machine, as a
--                    directory of files that `list` prunes, `publish` writes and a guard's drop
--                    removes; peer_ports and resolve read it
--   Origin           src/web/origin.rs: allowed_hosts, and check_request_origin on Host and Origin
--   Diagnose         src/cli/diagnose.rs: diagnose_at, with describe_place of src/cli/status.rs. It
--                    reads the clients and probes of the client registry
--   InMemoryFs       crates/memofs/src/in_memory_fs.rs: the file system in memory behind the Vfs
--   Vfs              crates/memofs/src/lib.rs and src/syncback/fs_snapshot.rs: Vfs.Inner is VfsInner
--                    over an interface for the trait VfsBackend, Vfs.FsSnapshot what syncback writes
--                    through it
--   FileNames        src/syncback/file_names.rs: names of the files that syncback writes
--   LuaAst           src/lua_ast.rs: the printer of Lua expressions. LuaAst.Stream is the stream that
--                    indents, LuaAst.Strings literals and names; LuaAst.Render and LuaAst.Read are a
--                    second printer and a reader, to compare with
--   Resolution       src/resolution.rs: values whose type the reflection database decides, with the
--                    search for a property's descriptor; the database and rbx_types are parameters
--   SnapshotMiddleware
--                    src/snapshot_middleware/mod.rs with the rules of src/snapshot/metadata.rs and
--                    src/glob.rs: SnapshotMiddleware.Rules is sync rules and ignore rules,
--                    SnapshotMiddleware.Select the choice of the middleware for a path, and
--                    SnapshotMiddleware.Directories what reads a directory, with or without an `init`
--                    script (dir.rs and lua.rs beside mod.rs). What reads the single formats is an
--                    interface, Select.Sources. The middlewares are those of
--                    FileNames, whose extensions the rules are compared with
--
-- Strings are lists of code points where the program looks inside, and paths are lists of names. Hash
-- maps are association lists with one entry for each key, so that their order is not that of the
-- program; nothing here depends on it but the choice between probes of the same second. Counters
-- keep their wrap-around: message cursors are u32, client identifiers and probe counts u64.
-- Subtraction stops at 0 where the code says saturating_sub, and nowhere else.
--
-- Three loops run on fuel. RojoTree.Tree.remove takes an instance off a queue in each round: fuel for
-- the instances below the root is enough in a sound tree. InMemoryFs.Fs.remove takes a path off a
-- queue: one more than the paths that directories hold is enough, since each round removes the entry
-- whose children it adds. Resolution.find_descriptor takes a superclass in each round: one more than
-- the rank of the class is enough, if superclasses have lower ranks. Everything else is structural
-- recursion.
--
-- Parameters, for code that is not in the repository: rbx_dom_weak (with the laws of WeakDom), the
-- parsers of addresses, authorities and URIs, JSON, path canonicalization, the signal that asks
-- whether a process is alive, globset, floats, and the reflection database. A theorem on publishing
-- assumes that JSON reads back what it wrote, and one on sync rules that a star before an ending
-- matches by the end of the file name. Patches take the comparison of property values and what
-- makes it panic as parameters; VariantEq models both. What is said of the files that syncback
-- writes assumes that the backend does to them what std::fs documents.
--
-- Not modelled: project files, the readers of the single file formats, the rest of syncback, the
-- auto-connect policy, waiting for a session, the HTTP server and its templates, the command line and
-- the agent tools, and the Studio plugin, which is written in Lua.
pub mod Base
pub mod MessageQueue
pub mod MultiMap
pub mod ClientRegistry
pub mod SessionRegistry
pub mod Origin
pub mod RojoTree
pub mod InMemoryFs
pub mod Diagnose
pub mod FileNames
pub mod Patch
pub mod ChangeProcessor
pub mod VariantEq
pub mod Vfs
pub mod LuaAst
pub mod Resolution
pub mod SnapshotMiddleware
