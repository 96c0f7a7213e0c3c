-- ===== src/SessionRegistry/Tests.antt =====
-- session_registry.rs on a directory with two beacons, a broken one and another file. The stand-in
-- for JSON reads a beacon from the port that its first code names.
use roxo_mcp.Base.{
  ℕ, ◌≡◌, refl, Bool, false, List, [], ◌∷◌, Option, none, some, keep, ℕ_discrete, ◌==◌,
}
use mathlib.Core.List.{Perm}
use roxo_mcp.Base.Dict.{lookup, insert, remove, IsDistinct}
use roxo_mcp.Base.Sort.{insert_sorted, sort_by}
use roxo_mcp.Base.Text.{Text, codes, PathBuf, String_discrete, List_discrete}
use roxo_mcp.SessionRegistry.{
  SessionBeacon, Entry, entries, file_name, is_json, scan, list, publish, drop_guard,
  is_process_alive, advertised_ports, dedup_after, dedup, peer_ports, found, failed, resolve,
  base_url, sessions_dir,
}
use roxo_mcp.Base.Names.{Text_discrete, rsplit_dot, to_string, extension, starts_with, join_with}
use roxo_mcp.SessionRegistry.Listing
use roxo_mcp.SessionRegistry.Listing.{stays, advertised_in}
use roxo_mcp.SessionRegistry.Resolve
use roxo_mcp.SessionRegistry.Resolve.{selected, Answers}

abbrev beacon : ℕ → SessionBeacon
beacon port = record {
  session_id = port;
  pid = port;
  address = codes "127.0.0.1";
  port = port;
  project_name = codes "Test";
  project_id = codes "roxo-abc";
  project_path = "tmp" ∷ "default.project.json" ∷ [];
  place_id = none;
  game_id = none;
  serve_place_ids = none;
  auto_connect = codes "matching";
  server_version = codes "7.7.0";
  started_at = 0;
}

abbrev from_slice : Text → Option SessionBeacon
from_slice [] = none
from_slice (port ∷ rest) = some (beacon port)

abbrev to_vec_pretty : SessionBeacon → Text
to_vec_pretty b = b.port ∷ []

abbrev alive : ℕ → Bool
alive pid = is_process_alive 34873 (λ pid. pid == 34872) pid

abbrev dir : List Entry
dir =
    (codes "34873.json", some (34873 ∷ []))
    ∷ (codes "34872.json", some (34872 ∷ []))
    ∷ (codes "1.json", some [])
    ∷ (codes "notes.txt", none)
    ∷ []

abbrev canonicalize : PathBuf → Option PathBuf
canonicalize path = some path

program : Unit {0}
unfolding lookup insert remove ℕ_discrete String_discrete List_discrete Text_discrete insert_sorted
    sort_by is_json scan list publish drop_guard to_string extension is_process_alive rsplit_dot
    advertised_ports dedup_after dedup peer_ports resolve starts_with join_with base_url
    sessions_dir
program = tt

base_url_text : base_url (beacon 34872) ≡ codes "http://127.0.0.1:34872"
unfolding program
base_url_text = refl

list_sorts : list from_slice alive (entries dir) ≡ (
  entries (
      (codes "34873.json", some (34873 ∷ []))
      ∷ (codes "34872.json", some (34872 ∷ []))
      ∷ (codes "notes.txt", none)
      ∷ []),
  some (beacon 34872 ∷ beacon 34873 ∷ []),
)
unfolding program
list_sorts = refl

dead_goes :
    list from_slice (λ pid. false) (entries dir)
    ≡ (entries ((codes "notes.txt", none) ∷ []), some [])
unfolding program
dead_goes = refl

dir-IsDistinct : IsDistinct Text_discrete dir
unfolding program
dir-IsDistinct = (refl, (refl, (refl, (refl, tt))))

list-publish_example :
    (ss : List SessionBeacon) × ((list from_slice alive
        (entries (publish to_vec_pretty (beacon 34872) dir).0)).1
      ≡ some ss)
    × Perm ss (
        beacon 34872
        ∷ advertised_in from_slice alive (remove Text_discrete (file_name (beacon 34872)) dir))
list-publish_example =
    Listing.list-publish from_slice alive to_vec_pretty (beacon 34872) dir dir-IsDistinct refl
      (unfold program in refl)

drop_guard-publish_example :
    drop_guard
      (publish to_vec_pretty (beacon 34872) dir).1
      (publish to_vec_pretty (beacon 34872) dir).0
    ≡ remove Text_discrete (file_name (beacon 34872)) dir
drop_guard-publish_example =
    Listing.drop_guard-publish from_slice alive to_vec_pretty (beacon 34872) dir

peers : peer_ports from_slice 34872 (entries dir) ≡ 34873 ∷ []
unfolding program
peers = refl

resolve_port :
    (resolve from_slice alive canonicalize (some 34872) (some ("tmp" ∷ [])) (entries dir)).1
    ≡ found (beacon 34872)
unfolding program
resolve_port = refl

resolve_example :
    let (dir', sessions) = list from_slice alive (entries dir) in
    let (dir'', answer) =
      resolve from_slice alive canonicalize (some 34872) (some ("tmp" ∷ [])) (entries dir) in
    (dir'' ≡ dir')
    × (sessions ≡ none → answer ≡ failed)
    × ((ss : List SessionBeacon)
        → sessions ≡ some ss
        → Answers (keep (selected canonicalize (some 34872) (some ("tmp" ∷ []))) ss) answer)
resolve_example =
    Resolve.resolve-Answers from_slice alive canonicalize (some 34872) (some ("tmp" ∷ []))
      (entries dir)
