-- ===== src/ClientRegistry.antt =====
-- client_registry.rs: the Studio clients of a serve session. The clock is an argument of each call;
-- the two mutexes make each method one step.
mod Data
mod Clients
mod Probes
mod Recorded
mod Bounds
mod Tests
use roxo_mcp.Base.{
  ℕ, ◌+◌, ◌-◌, ◌%◌, ◌^◌, max, Bool, true, false, not, ◌&&◌, ◌||◌, List, [], ◌∷◌, map, Option, none,
  some, length, take, keep, ltb, leb, if◌then◌else◌, ℕ_discrete,
}
use mathlib.Core.Option
use mathlib.Core.Option.{get_or}
use roxo_mcp.Base.Dict.{lookup, insert, remove as remove_entry, retain}
use roxo_mcp.Base.Equality.{Option_discrete, pair_discrete}
use roxo_mcp.Base.Sort.{sort_by}
use roxo_mcp.Base.Text.{Text, codes}
pub use Data.{ClientId, ClientInfo, ClientHandshake, ProbeVerdict, ProbeInfo, ProbeReport, ProbeKey}
unfoldable pub use Data.{key_discrete}

pub record ClientRegistry : Type 0 where
  pub clients : List (ClientId × ClientInfo)
  pub next_id : ℕ
  pub probes : List (ProbeKey × ProbeInfo)

abbrev pub clip : Text → ℕ → Text
clip text max_chars = take max_chars text

abbrev pub unsubscribed_ttl_secs : ℕ
unsubscribed_ttl_secs = 60

abbrev pub probe_ttl_secs : ℕ
probe_ttl_secs = 600

abbrev pub max_probes : ℕ
max_probes = 16

abbrev pub max_reason_chars : ℕ
max_reason_chars = 500

abbrev pub max_field_chars : ℕ
max_field_chars = 64

pub new : ClientRegistry
new = record { clients = []; next_id = 0; probes = [] }

-- Subscribed, or seen within the last minute. `-` on ℕ stops at 0, as `saturating_sub` does.
abbrev pub stays : ℕ → ClientInfo → Bool
stays now client = client.subscribed || ltb (now - client.last_seen) unsubscribed_ttl_secs

pub prune_stale : ℕ → ClientRegistry → ClientRegistry
prune_stale now r = record r { clients = retain (λ _ client. stays now client) r.clients }

abbrev pub unknown : Text
unknown = codes "unknown"

abbrev pub info_of : ClientHandshake → Text → ClientId → ℕ → ClientInfo
info_of h remote_addr id now = record {
  id = id;
  place_id = h.place_id;
  game_id = h.game_id;
  client_name = get_or h.client_name unknown;
  client_version = h.client_version;
  auto_connected = h.auto_connected;
  match_reason = h.match_reason;
  remote_addr = remote_addr;
  connected_at = now;
  last_seen = now;
  subscribed = false;
}

-- `pruned_at` is the clock that `prune_stale` reads, and `now` the one read after it. The counter is
-- a u64.
pub handshake : ℕ → ℕ → ClientHandshake → Text → ClientRegistry → ClientRegistry × ClientId
unfolding prune_stale
handshake pruned_at now h remote_addr r =
    let pruned = prune_stale pruned_at r in
    let id = pruned.next_id in
    (
      record pruned {
        next_id = (id + 1) % 2 ^ 64;
        clients = insert ℕ_discrete id (info_of h remote_addr id now) pruned.clients;
      },
      id,
    )

-- `get_mut`: a client that is not there is left out.
abbrev pub write_back :
    ClientId → (ClientInfo → ClientInfo) → Option ClientInfo → ClientRegistry → ClientRegistry
write_back id f none r = r
write_back id f (some client) r = record r { clients = insert ℕ_discrete id (f client) r.clients }

abbrev pub with_client : ClientId → (ClientInfo → ClientInfo) → ClientRegistry → ClientRegistry
with_client id f r = write_back id f (lookup ℕ_discrete id r.clients) r

pub set_subscribed : ℕ → ClientId → Bool → ClientRegistry → ClientRegistry
set_subscribed now id subscribed =
    with_client id (λ client. record client { subscribed = subscribed; last_seen = now })

pub touch : ℕ → ClientId → ClientRegistry → ClientRegistry
touch now id = with_client id (λ client. record client { last_seen = now })

pub remove : ClientId → ClientRegistry → ClientRegistry
remove id r = record r { clients = remove_entry ℕ_discrete id r.clients }

abbrev pub values {ℓ} : {K V : Type ℓ} → List (K × V) → List V
values m = map (λ e. e.1) m

abbrev pub by_id : ClientInfo → ClientInfo → Bool
by_id a b = leb a.id b.id

pub clients : ℕ → ClientRegistry → ClientRegistry × List ClientInfo
unfolding prune_stale sort_by
clients now r = let pruned = prune_stale now r in (pruned, sort_by by_id (values pruned.clients))

pub subscribed_count : ClientRegistry → ℕ
subscribed_count r = length (keep (λ client. client.subscribed) (values r.clients))

abbrev pub last_heard : ProbeInfo → ℕ
last_heard probe = elim probe.verdict [
  | none ↦ probe.last_probe_at
  | some verdict ↦ max verdict.reported_at probe.last_probe_at
]

pub prune_probes : ℕ → List (ProbeKey × ProbeInfo) → List (ProbeKey × ProbeInfo)
prune_probes now probes = retain (λ _ probe. ltb (now - last_heard probe) probe_ttl_secs) probes

-- `min_by_key`: the first of the entries that were probed longest ago.
pub oldest_from : ProbeKey × ProbeInfo → List (ProbeKey × ProbeInfo) → ProbeKey × ProbeInfo
oldest_from best [] = best
oldest_from best (e ∷ es) =
    oldest_from (if ltb (e.1).last_probe_at (best.1).last_probe_at then e else best) es

pub evict_oldest : List (ProbeKey × ProbeInfo) → List (ProbeKey × ProbeInfo)
unfolding oldest_from
evict_oldest [] = []
evict_oldest (e ∷ es) = remove_entry key_discrete (oldest_from e es).0 (e ∷ es)

abbrev pub new_probe : Option ℕ → Option ℕ → ℕ → ProbeInfo
new_probe place_id game_id now = record {
  place_id = place_id;
  game_id = game_id;
  client_version = none;
  remote_addr = [];
  first_probe_at = now;
  last_probe_at = now;
  probe_count = 0;
  verdict = none;
}

abbrev pub contains_key : ProbeKey → List (ProbeKey × ProbeInfo) → Bool
contains_key key probes = elim (lookup key_discrete key probes) [ none ↦ false | some _ ↦ true ]

-- Room for one more place, if this one is new.
pub make_room : ProbeKey → List (ProbeKey × ProbeInfo) → List (ProbeKey × ProbeInfo)
unfolding evict_oldest
make_room key probes =
    if not (contains_key key probes) && leb max_probes (length probes)
    then evict_oldest probes
    else probes

-- `probe_entry` returns a place in the map, which both callers write: here it is the map without
-- the write, and the entry.
pub probe_entry :
    Option ℕ → Option ℕ → ℕ → List (ProbeKey × ProbeInfo) → List (ProbeKey × ProbeInfo) × ProbeInfo
unfolding prune_probes make_room
probe_entry place_id game_id now probes =
    let key : ProbeKey = (place_id, game_id) in
    let room = make_room key (prune_probes now probes) in
    (room, get_or (lookup key_discrete key room) (new_probe place_id game_id now))

abbrev pub probed : ℕ → ClientHandshake → Text → ProbeInfo → ProbeInfo
probed now h remote_addr entry = record entry {
  last_probe_at = now;
  probe_count = (entry.probe_count + 1) % 2 ^ 64;
  remote_addr = remote_addr;
  client_version = elim h.client_version [
    | none ↦ entry.client_version
    | some version ↦ some (clip version max_field_chars)
  ];
}

pub record_probe : ℕ → ClientHandshake → Text → ClientRegistry → ClientRegistry
unfolding probe_entry
record_probe now h remote_addr r =
    let (room, entry) = probe_entry h.place_id h.game_id now r.probes in
    record r {
      probes = insert key_discrete (h.place_id, h.game_id) (probed now h remote_addr entry) room;
    }

abbrev pub verdict_of : ℕ → ProbeReport → ProbeVerdict
verdict_of now report = record {
  outcome = clip report.outcome max_field_chars;
  code = Option.map (λ code. clip code max_field_chars) report.code;
  reason = clip report.reason max_reason_chars;
  conflicting_ports = take max_probes report.conflicting_ports;
  reported_at = now;
}

abbrev pub or_addr : Text → Text → Text
or_addr [] addr = addr
or_addr (c ∷ cs) addr = c ∷ cs

pub record_probe_verdict : ℕ → ProbeReport → Text → ClientRegistry → ClientRegistry
unfolding probe_entry
record_probe_verdict now report remote_addr r =
    let (room, entry) = probe_entry report.place_id report.game_id now r.probes in
    record r {
      probes =
          insert key_discrete (report.place_id, report.game_id)
            (record entry {
              remote_addr = or_addr entry.remote_addr remote_addr;
              verdict = some (verdict_of now report);
            })
            room;
    }

abbrev pub most_recent_first : ProbeInfo → ProbeInfo → Bool
most_recent_first a b = leb b.last_probe_at a.last_probe_at

pub recent_probes : ℕ → ClientRegistry → ClientRegistry × List ProbeInfo
unfolding prune_probes sort_by
recent_probes now r =
    let probes = prune_probes now r.probes in
    (record r { probes = probes }, sort_by most_recent_first (values probes))
