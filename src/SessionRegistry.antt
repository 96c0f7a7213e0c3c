-- ===== src/SessionRegistry.antt =====
-- session_registry.rs: the beacons of the serve sessions of one machine, a directory of files that
-- every session shares. JSON (serde_json), the kernel's answer to a signal 0 and `dunce` are
-- arguments; a removal of a file that is there succeeds.
mod Listing
mod Resolve
mod Tests
use roxo_mcp.Base.{
  ℕ, suc, zero, ◌+◌, ◌/◌, ◌%◌, Bool, true, false, not, ◌&&◌, ◌||◌, List, [], ◌∷◌, ◌++◌, map, Option,
  none, some, length, take, keep, leb, ◌==◌, if◌then◌else◌, ite, ℕ_discrete,
}
use mathlib.Core.Option.{get_or}
use roxo_mcp.Base.Dict.{insert, remove}
use roxo_mcp.Base.Sort.{sort_by}
use roxo_mcp.Base.Text.{Text, codes, PathBuf, String_discrete, PathBuf_discrete, List_discrete}
use roxo_mcp.Base.Names.{Text_discrete, extension, to_string, join_with, starts_with}

pub record SessionBeacon : Type 0 where
  pub session_id : ℕ
  pub pid : ℕ
  pub address : Text
  pub port : ℕ
  pub project_name : Text
  pub project_id : Text
  pub project_path : PathBuf
  pub place_id : Option ℕ
  pub game_id : Option ℕ
  pub serve_place_ids : Option (List ℕ)
  pub auto_connect : Text
  pub server_version : Text
  pub started_at : ℕ

pub base_url : SessionBeacon → Text
unfolding to_string
base_url b = codes "http://" ++ b.address ++ codes ":" ++ to_string b.port

-- The variables ROXO_HOME, HOME and USERPROFILE, where they are set.
pub sessions_dir : Option PathBuf → Option PathBuf → Option PathBuf → Option PathBuf
sessions_dir (some home) h u = some (home ++ "sessions" ∷ [])
sessions_dir none (some home) u = some (home ++ ".roxo" ∷ "sessions" ∷ [])
sessions_dir none none (some home) = some (home ++ ".roxo" ∷ "sessions" ∷ [])
sessions_dir none none none = none

-- A file: its name, and what reading it gives, `none` where that fails.
abbrev pub Entry : Type 0
Entry = Text × Option Text

-- What the sessions directory is to a process.
pub data SessionsDir : Type 0 where
  unavailable : SessionsDir
  unreadable : SessionsDir
  entries : List Entry → SessionsDir

abbrev pub json : Text
json = codes "json"

abbrev pub file_name : SessionBeacon → Text
file_name b = to_string b.port ++ codes ".json"

pub is_json : Text → Bool
unfolding extension Text_discrete
is_json name = elim (extension name) [
  | none ↦ false
  | some ext ↦ ite (Text_discrete ext json) true false
]

abbrev pub parsed : (Text → Option SessionBeacon) → Option Text → Option SessionBeacon
parsed from_slice none = none
parsed from_slice (some bytes) = from_slice bytes

module _ (own_pid : ℕ) (kill : ℕ → Bool) where
  pub is_process_alive : ℕ → Bool
  is_process_alive pid = pid == own_pid || kill pid

abbrev pub by_port : SessionBeacon → SessionBeacon → Bool
by_port a b = leb a.port b.port

module _ (from_slice : Text → Option SessionBeacon) (alive : ℕ → Bool) where
  -- One turn of the loop of `list`, given what the rest of the directory gives.
  abbrev pub visit_beacon :
      Entry
      → Option SessionBeacon
      → List Entry × List SessionBeacon
      → List Entry × List SessionBeacon
  visit_beacon entry none (dir, sessions) = (dir, sessions)
  visit_beacon entry (some b) (dir, sessions) =
      if alive b.pid then (entry ∷ dir, b ∷ sessions) else (dir, sessions)

  abbrev pub visit : Entry → List Entry × List SessionBeacon → List Entry × List SessionBeacon
  visit entry (dir, sessions) =
      if not (is_json entry.0)
      then (entry ∷ dir, sessions)
      else visit_beacon entry (parsed from_slice entry.1) (dir, sessions)

  pub scan : List Entry → List Entry × List SessionBeacon
  unfolding is_json
  scan [] = ([], [])
  scan (entry ∷ rest) = visit entry (scan rest)

  pub list : SessionsDir → SessionsDir × Option (List SessionBeacon)
  unfolding scan sort_by
  list unavailable = (unavailable, some [])
  list unreadable = (unreadable, none)
  list (entries dir) =
      let (dir', sessions) = scan dir in (entries dir', some (sort_by by_port sessions))

module _ (to_vec_pretty : SessionBeacon → Text) where
  -- The directory with the beacon; its guard holds the file's name.
  pub publish : SessionBeacon → List Entry → List Entry × Text
  unfolding to_string insert Text_discrete
  publish b dir = (insert Text_discrete (file_name b) (some (to_vec_pretty b)) dir, file_name b)

-- The guard's `drop`.
pub drop_guard : Text → List Entry → List Entry
unfolding remove Text_discrete
drop_guard path dir = remove Text_discrete path dir

abbrev pub max_peer_ports : ℕ
max_peer_ports = 16

module _ (from_slice : Text → Option SessionBeacon) (own_session : ℕ) where
  abbrev pub other_port : Option SessionBeacon → List ℕ → List ℕ
  other_port none ports = ports
  other_port (some b) ports = if not (b.session_id == own_session) then b.port ∷ ports else ports

  pub advertised_ports : List Entry → List ℕ
  unfolding is_json
  advertised_ports [] = []
  advertised_ports ((name, content) ∷ rest) =
      let ports = advertised_ports rest in
      if not (is_json name) then ports else other_port (parsed from_slice content) ports

-- `dedup_after x` drops what repeats the element before it, which is x at first.
unfoldable pub dedup_after : ℕ → List ℕ → List ℕ
dedup_after x [] = []
dedup_after x (y ∷ ys) =
    let same = dedup_after x ys in
    let other = dedup_after y ys in if x == y then same else y ∷ other

unfoldable pub dedup : List ℕ → List ℕ
unfolding dedup_after
dedup [] = []
dedup (x ∷ xs) = x ∷ dedup_after x xs

pub peer_ports : (Text → Option SessionBeacon) → ℕ → SessionsDir → List ℕ
unfolding advertised_ports sort_by dedup
peer_ports from_slice own_session unavailable = []
peer_ports from_slice own_session unreadable = []
peer_ports from_slice own_session (entries dir) =
    take max_peer_ports (dedup (sort_by leb (advertised_ports from_slice own_session dir)))

pub data Resolved : Type 0 where
  found : SessionBeacon → Resolved
  no_session : Resolved
  ambiguous : Text → Resolved
  failed : Resolved

abbrev pub on_port : Option ℕ → SessionBeacon → Bool
on_port none b = true
on_port (some port) b = b.port == port

abbrev pub in_project : Option PathBuf → SessionBeacon → Bool
in_project none b = true
in_project (some project) b = starts_with b.project_path project

abbrev pub listing_line : SessionBeacon → Text
listing_line b = codes "  port " ++ to_string b.port ++ codes " - " ++ b.project_name

abbrev pub choose : List SessionBeacon → Resolved
choose [] = no_session
choose (b ∷ []) = found b
choose (b ∷ c ∷ rest) = ambiguous (join_with (codes "\n") (map listing_line (b ∷ c ∷ rest)))

abbrev pub canonical : (PathBuf → Option PathBuf) → PathBuf → PathBuf
canonical canonicalize project = get_or (canonicalize project) project

abbrev pub narrow :
    (PathBuf → Option PathBuf) → Option ℕ → Option PathBuf → List SessionBeacon → List SessionBeacon
narrow canonicalize port none sessions = keep (on_port port) sessions
narrow canonicalize port (some project) sessions =
    keep (in_project (some (canonical canonicalize project))) (keep (on_port port) sessions)

abbrev pub resolve_in :
    (PathBuf → Option PathBuf) → Option ℕ → Option PathBuf → Option (List SessionBeacon) → Resolved
resolve_in canonicalize port project none = failed
resolve_in canonicalize port project (some sessions) =
    choose (narrow canonicalize port project sessions)

module _ (from_slice : Text → Option SessionBeacon) (alive : ℕ → Bool)
    (canonicalize : PathBuf → Option PathBuf) where
  pub resolve : Option ℕ → Option PathBuf → SessionsDir → SessionsDir × Resolved
  unfolding list to_string join_with starts_with
  resolve port project dir =
      let (dir', sessions) = list from_slice alive dir in
      (dir', resolve_in canonicalize port project sessions)
