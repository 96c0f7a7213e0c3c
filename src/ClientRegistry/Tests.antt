-- ===== src/ClientRegistry/Tests.antt =====
-- client_registry.rs on a registry with two clients and one probe.
use roxo_mcp.Base.{ℕ, ◌≡◌, ◌≢◌, refl, true, false, [], ◌∷◌, none, some, arith, ℕ_discrete}
use roxo_mcp.Base.Dict.{lookup, insert, remove as remove_entry}
use roxo_mcp.Base.Equality.{Option_discrete, pair_discrete}
use roxo_mcp.Base.Sort.{insert_sorted, sort_by}
use roxo_mcp.Base.Text.{codes, Text}
use roxo_mcp.ClientRegistry.{
  ClientHandshake, ProbeInfo, ProbeReport, ClientRegistry, new, prune_stale, info_of, handshake,
  set_subscribed, clients, subscribed_count, prune_probes, record_probe, record_probe_verdict,
  recent_probes, probed, new_probe, key_discrete, make_room, probe_entry, evict_oldest,
}
use roxo_mcp.ClientRegistry.Clients
use roxo_mcp.ClientRegistry.Clients.{IsValid, left_of}
use roxo_mcp.ClientRegistry.Recorded
use roxo_mcp.ClientRegistry.Recorded.{Recorded, Counted}
use roxo_mcp.ClientRegistry.Probes.{find, IsValid as IsValidProbes}
use roxo_mcp.ClientRegistry.Bounds
use roxo_mcp.ClientRegistry.Bounds.{AllBounded}

abbrev studio : ClientHandshake
studio = record {
  place_id = some 95;
  game_id = none;
  client_name = some (codes "Studio");
  client_version = none;
  auto_connected = true;
  match_reason = none;
}

abbrev addr : Text
addr = codes "127.0.0.1"

-- A client that polls, and one that has been silent since its handshake.
abbrev registry : ClientRegistry
registry = record {
  clients =
      (0, record (info_of studio addr 0 100) { subscribed = true })
      ∷ (1, info_of studio addr 1 100)
      ∷ [];
  next_id = 2;
  probes = ((some 95, none), probed 100 studio addr (new_probe (some 95) none 100)) ∷ [];
}

abbrev report : ProbeReport
report = record {
  place_id = some 96;
  game_id = none;
  outcome = codes "conflict";
  code = none;
  reason = codes "two servers";
  conflicting_ports = 34872 ∷ 34873 ∷ [];
}

program : Unit {0}
unfolding lookup insert remove_entry ℕ_discrete Option_discrete pair_discrete key_discrete new
    prune_stale handshake set_subscribed clients subscribed_count prune_probes make_room probe_entry
    evict_oldest record_probe record_probe_verdict recent_probes insert_sorted sort_by
program = tt

registry-IsValid : IsValid registry
unfolding program
registry-IsValid = record { distinct = (refl, (refl, tt)); below = λ k h. ground arith }

probes-IsValid : IsValidProbes registry.probes
unfolding program
probes-IsValid = record { distinct = (refl, tt); bounded = omega arith }

silent_client_goes : (prune_stale 160 registry).next_id ≡ 2
unfolding program
silent_client_goes = refl

handshake_example :
    let (r', id) = handshake 160 160 studio addr registry in
    (lookup ℕ_discrete id registry.clients ≡ none)
    × (lookup ℕ_discrete id r'.clients
        ≡ some (record {
          id = id;
          place_id = some 95;
          game_id = none;
          client_name = codes "Studio";
          client_version = none;
          auto_connected = true;
          match_reason = none;
          remote_addr = addr;
          connected_at = 160;
          last_seen = 160;
          subscribed = false;
        }))
    × ((j : ℕ)
        → j ≢ id
        → lookup ℕ_discrete j r'.clients ≡ left_of 160 (lookup ℕ_discrete j registry.clients))
    × IsValid r'
handshake_example =
    Clients.handshake_lem 160 160 studio addr registry registry-IsValid (omega arith)

record_probe_example :
    let pruned = prune_probes 200 registry.probes in
    (entry : ProbeInfo) × Counted 200 studio addr (find (some 95, none) pruned) entry
    × Recorded pruned (record_probe 200 studio addr registry).probes (some 95, none) entry
record_probe_example = Recorded.record_probe-Recorded 200 studio addr registry probes-IsValid

bounded_example :
    AllBounded (record_probe 200 studio addr new).probes
    × AllBounded (record_probe_verdict 200 report addr new).probes
bounded_example = Bounds.recorded-AllBounded 200 studio report addr new (unfold program in tt)
