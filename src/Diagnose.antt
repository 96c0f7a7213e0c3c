-- ===== src/Diagnose.antt =====
-- cli/diagnose.rs: why Studio is not connected. The JSON object of a suggested edit is a record of
-- the two keys that the code sets.
mod Advice
mod State
mod Tests
use roxo_mcp.Base.{
  ℕ, zero, suc, ◌+◌, ◌-◌, ◌≡◌, Bool, true, false, not, ◌&&◌, ◌||◌, List, [], ◌∷◌, ◌++◌, map, Option,
  none, some, leb, ◌==◌, if◌then◌else◌, ite,
}
use mathlib.Core.Option
use mathlib.Core.Option.{get_or}
use roxo_mcp.Base.Text.{Text, codes}
use roxo_mcp.ClientRegistry.{ClientInfo, ProbeInfo, ProbeVerdict}
use roxo_mcp.Base.Names.{Text_discrete, to_string, join_with}
unfoldable pub use Advice.*

-- `SessionStatusResponse` of web/interface.rs.
pub record SessionStatus : Type 0 where
  pub session_id : ℕ
  pub server_name : Text
  pub server_version : Text
  pub protocol_version : ℕ
  pub project_name : Text
  pub project_id : Text
  pub project_path : Text
  pub place_id : Option ℕ
  pub game_id : Option ℕ
  pub serve_place_ids : Option (List ℕ)
  pub auto_connect : Text
  pub uptime_seconds : ℕ
  pub studio_connected : Bool
  pub client_count : ℕ
  pub clients : List ClientInfo
  pub recent_probes : List ProbeInfo
  pub last_patch_at : Option ℕ
  pub patches_sent : ℕ

-- `describe_place` of cli/status.rs.
pub describe_place : Option ℕ → Text
unfolding to_string
describe_place none = codes "unknown place"
describe_place (some zero) = codes "unpublished place"
describe_place (some (suc n)) = codes "place " ++ to_string (suc n)

pub fresh_verdict : ProbeInfo → Option ProbeVerdict
fresh_verdict probe = elim probe.verdict [
  | none ↦ none
  | some verdict ↦
      if leb probe.last_probe_at (verdict.reported_at + stale_verdict_secs)
      then some verdict
      else none
]

abbrev pub find_client : List ClientInfo → Option ClientInfo
find_client [] = none
find_client (client ∷ rest) = if client.subscribed then some client else find_client rest

abbrev pub how_connected : ClientInfo → Text
how_connected client = elim client.match_reason [
  | none ↦ if client.auto_connected then codes "auto-connected" else codes "connected manually"
  | some reason ↦
      if client.auto_connected
      then codes "auto-connected via " ++ reason
      else codes "connected manually"
]

abbrev pub connected_client : Option ClientInfo → Diagnosis
connected_client none = new_diagnosis connected_state (codes "Studio is connected.")
connected_client (some client) =
    record (new_diagnosis connected_state (
      codes "Studio is connected: "
      ++ describe_place client.place_id
      ++ codes ", "
      ++ how_connected client
      ++ codes ".")) { place_id = client.place_id }

pub connected : SessionStatus → Diagnosis
unfolding describe_place
connected status = connected_client (find_client status.clients)

abbrev pub in_ranges : ℕ → List (ℕ × ℕ) → Bool
in_ranges port [] = false
in_ranges port ((low, high) ∷ rest) = leb low port && leb port high || in_ranges port rest

abbrev pub range_text : ℕ × ℕ → Text
range_text (low, high) = to_string low ++ codes "-" ++ to_string high

abbrev pub ranges_text : Text
ranges_text = join_with (codes ", ") (map range_text plugin_default_port_ranges)

abbrev pub outside : Option ℕ → Option ℕ
outside none = none
outside (some port) = if in_ranges port plugin_default_port_ranges then none else some port

abbrev pub port_fix : Option ℕ → Text
port_fix (some port) =
    codes "Port "
    ++ to_string port
    ++ codes " is outside the plugin's default scan ranges ("
    ++ ranges_text
    ++ codes "). Serve on a port inside them, add "
    ++ to_string port
    ++ codes " to the plugin's auto-connect ports setting, or keep another Roxo session running "
    ++ codes "inside the ranges: a current plugin probes every session that one lists as a peer."
port_fix none =
    codes "Check that Studio is open with the place loaded, that the Roxo plugin is installed "
    ++ codes "(`roxo plugin install`) with auto-connect on, and that its auto-connect ports "
    ++ codes "setting covers this port (default: "
    ++ ranges_text
    ++ codes ")."

pub not_probed : Option ℕ → Diagnosis
unfolding to_string join_with
not_probed port = record (new_diagnosis not_probed_state not_probed_summary) {
  fix = some (port_fix (outside port));
}

abbrev pub conflict_text : List ℕ → Text
conflict_text [] = []
conflict_text (p ∷ ps) =
    codes " (ports " ++ join_with (codes ", ") (map to_string (p ∷ ps)) ++ codes ")"

pub ambiguous : ProbeInfo → ProbeVerdict → Diagnosis
unfolding describe_place to_string join_with
ambiguous probe verdict =
    record (new_diagnosis ambiguous_state (
      describe_place probe.place_id
      ++ codes " found more than one server claiming it, so it connected to none: "
      ++ verdict.reason)) {
        fix = some (
            codes "Stop the other serve sessions for this place"
            ++ conflict_text verdict.conflicting_ports
            ++ codes ", or remove the place from their servePlaceIds. "
            ++ codes "Roxo never picks between two claims.");
      }

pub declined : SessionStatus → ProbeInfo → ProbeVerdict → Diagnosis
unfolding describe_place apply_fix
declined status probe verdict =
    apply_fix status.project_path status.serve_place_ids probe.place_id verdict.code (
      new_diagnosis declined_state (
        describe_place probe.place_id
        ++ codes " probed this server and declined it: "
        ++ verdict.reason))

pub probed : ProbeInfo → Diagnosis
unfolding describe_place
probed probe =
    record (new_diagnosis probed_state
      (describe_place probe.place_id ++ codes " probed this server but did not say it declined.")) {
        fix = some probed_fix;
      }

abbrev pub judged : SessionStatus → ProbeInfo → Option ProbeVerdict → Diagnosis
judged status probe none = probed probe
judged status probe (some verdict) =
    ite (Text_discrete verdict.outcome (codes "ambiguous")) (ambiguous probe verdict)
      (declined status probe verdict)

abbrev pub first_probe : List ProbeInfo → Option ProbeInfo
first_probe [] = none
first_probe (probe ∷ rest) = some probe

abbrev pub find_fresh : List ProbeInfo → Option ProbeInfo
find_fresh [] = none
find_fresh (probe ∷ rest) = elim (fresh_verdict probe) [
  | none ↦ find_fresh rest
  | some v ↦ some probe
]

abbrev pub or_first : Option ProbeInfo → List ProbeInfo → Option ProbeInfo
or_first none probes = first_probe probes
or_first (some probe) probes = some probe

abbrev pub code_of : Option ProbeVerdict → Option Text
code_of none = none
code_of (some verdict) = verdict.code

abbrev pub diagnose_probe : SessionStatus → Option ℕ → ℕ → Option ProbeInfo → Diagnosis
diagnose_probe status port now none = not_probed port
diagnose_probe status port now (some probe) = record (judged status probe (fresh_verdict probe)) {
  place_id = probe.place_id;
  reason_code = code_of (fresh_verdict probe);
  last_probe_seconds_ago = some (now - probe.last_probe_at);
}

pub diagnose_at : SessionStatus → Option ℕ → ℕ → Diagnosis
unfolding fresh_verdict connected not_probed ambiguous declined probed Text_discrete
diagnose_at status port now =
    if status.studio_connected
    then connected status
    else diagnose_probe status port now
        (or_first (find_fresh status.recent_probes) status.recent_probes)
