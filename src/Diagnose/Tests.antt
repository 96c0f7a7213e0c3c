-- ===== src/Diagnose/Tests.antt =====
-- cli/diagnose.rs on a session that one place probed and declined.
use roxo_mcp.Base.{◌≡◌, refl, false, [], ◌∷◌, none, some, ℕ_discrete}
use roxo_mcp.Base.Sort.{insert_sorted, sort_by}
use roxo_mcp.Base.Text.{codes, List_discrete}
use roxo_mcp.ClientRegistry.{ProbeInfo, ProbeVerdict}
use roxo_mcp.Base.Names.{Text_discrete}
use roxo_mcp.SessionRegistry.{dedup, dedup_after}
use roxo_mcp.Diagnose.{
  SessionStatus, declined_state, probed_state, list_place, reject_code, apply_fix, fresh_verdict,
  ambiguous, declined, probed, connected, not_probed, diagnose_at, describe_place,
}
use roxo_mcp.Diagnose.State
use roxo_mcp.Diagnose.State.{Explains}

abbrev verdict : ProbeVerdict
verdict = record {
  outcome = codes "declined";
  code = some (codes "no-identity-match");
  reason = codes "no match";
  conflicting_ports = [];
  reported_at = 100;
}

abbrev probe : ProbeInfo
probe = record {
  place_id = some 95;
  game_id = none;
  client_version = none;
  remote_addr = codes "127.0.0.1";
  first_probe_at = 90;
  last_probe_at = 110;
  probe_count = 2;
  verdict = some verdict;
}

abbrev status : SessionStatus
status = record {
  session_id = 1;
  server_name = codes "roxo";
  server_version = codes "7.7.0";
  protocol_version = 5;
  project_name = codes "Game";
  project_id = codes "roxo-1";
  project_path = codes "default.project.json";
  place_id = none;
  game_id = none;
  serve_place_ids = some (97 ∷ 96 ∷ []);
  auto_connect = codes "matching";
  uptime_seconds = 30;
  studio_connected = false;
  client_count = 0;
  clients = [];
  recent_probes = probe ∷ [];
  last_patch_at = none;
  patches_sent = 0;
}

program : Unit {0}
unfolding ℕ_discrete List_discrete Text_discrete insert_sorted sort_by dedup dedup_after list_place
    reject_code apply_fix fresh_verdict ambiguous declined probed connected not_probed diagnose_at
    describe_place
program = tt

declines : (diagnose_at status none 120).state ≡ declined_state
unfolding program
declines = refl

-- Two minutes after the verdict the place probed again: the verdict no longer counts.
goes_stale :
    (diagnose_at
      (record status { recent_probes = record probe { last_probe_at = 220 } ∷ [] })
      none
      230).state
    ≡ probed_state
unfolding program
goes_stale = refl

state_example : Explains status (diagnose_at status none 120)
state_example = State.diagnose_at-Explains status none 120
