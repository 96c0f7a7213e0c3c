-- ===== src/ClientRegistry/Bounds.antt =====
-- The probes of client_registry.rs: how long what a plugin reports can be, and the list for the
-- reader.
use roxo_mcp.Base.{
  ℕ, [], ◌∷◌, Option, none, some, ◌≤◌, ◌-◌, refl, ltb, ◌≡◌, arith, length, length-take,
}
use mathlib.Core.Option
use mathlib.Core.Option.{get_or}
use roxo_mcp.Base.Dict.{
  lookup, retain, AllValues, insert-AllValues, remove-AllValues, retain-AllValues, lookup-AllValues,
}
use roxo_mcp.Base.Text.{Text}
use roxo_mcp.ClientRegistry.{
  ClientHandshake, ProbeInfo, ProbeVerdict, ProbeReport, ProbeKey, ClientRegistry, key_discrete,
  prune_probes, last_heard, probe_ttl_secs, oldest_from, evict_oldest, new_probe, make_room,
  probe_entry, probed, record_probe, verdict_of, or_addr, record_probe_verdict, clip,
  max_field_chars, max_reason_chars, max_probes,
}
use roxo_mcp.ClientRegistry.Probes.{Probes}

abbrev pub IsShort : Option Text → Type 0
IsShort none = Unit
IsShort (some text) = length text ≤ max_field_chars

pub record IsClipped (verdict : ProbeVerdict) : Type 0 where
  outcome : length verdict.outcome ≤ max_field_chars
  code : IsShort verdict.code
  reason : length verdict.reason ≤ max_reason_chars
  ports : length verdict.conflicting_ports ≤ max_probes

abbrev pub HasClipped : Option ProbeVerdict → Type 0
HasClipped none = Unit
HasClipped (some verdict) = IsClipped verdict

-- What a plugin reported is cut to its bounds. The address is the server's own.
pub record IsBounded (probe : ProbeInfo) : Type 0 where
  version : IsShort probe.client_version
  verdict : HasClipped probe.verdict

clip-fits : (n : ℕ) (text : Text) → length (clip text n) ≤ n
clip-fits n text = omega (arith, length-take n text)

clip-IsShort : (text : Option Text) → IsShort (Option.map (λ t. clip t max_field_chars) text)
clip-IsShort none = tt
clip-IsShort (some text) = clip-fits max_field_chars text

verdict_of-IsClipped : (now : ℕ) (report : ProbeReport) → IsClipped (verdict_of now report)
verdict_of-IsClipped now report = record {
  outcome = clip-fits max_field_chars report.outcome;
  code = clip-IsShort report.code;
  reason = clip-fits max_reason_chars report.reason;
  ports = omega (arith, length-take max_probes report.conflicting_ports);
}

abbrev pub AllBounded : Probes → Type 0
AllBounded = AllValues IsBounded

make_room-AllBounded : (key : ProbeKey) (m : Probes) → AllBounded m → AllBounded (make_room key m)
unfolding make_room evict_oldest
make_room-AllBounded key [] h = ground arith
make_room-AllBounded key (e ∷ es) h =
    ground (arith, remove-AllValues key_discrete IsBounded (oldest_from e es).0 (e ∷ es) h)

entry-IsBounded :
    (place_id game_id : Option ℕ) (now : ℕ) (o : Option ProbeInfo) (m : Probes)
    → lookup key_discrete (place_id, game_id) m ≡ o
    → AllBounded m
    → IsBounded (get_or o (new_probe place_id game_id now))
entry-IsBounded place_id game_id now none m e h = record { version = tt; verdict = tt }
entry-IsBounded place_id game_id now (some probe) m e h =
    lookup-AllValues key_discrete IsBounded (place_id, game_id) m probe e h

probe_entry-IsBounded :
    (place_id game_id : Option ℕ) (now : ℕ) (m : Probes)
    → AllBounded m
    → let (room, entry) = probe_entry place_id game_id now m in AllBounded room × IsBounded entry
unfolding probe_entry prune_probes
probe_entry-IsBounded place_id game_id now m h =
    let key : ProbeKey = (place_id, game_id) in
    let p = λ (k : ProbeKey) (probe : ProbeInfo). ltb (now - last_heard probe) probe_ttl_secs in
    let pruned = retain p m in
    let room = make_room-AllBounded key pruned (retain-AllValues key_discrete IsBounded p m h) in
    (
      room,
      entry-IsBounded place_id game_id now (lookup key_discrete key (make_room key pruned))
          (make_room key pruned) refl room,
    )

probed-IsShort :
    (version old : Option Text)
    → IsShort old
    → IsShort (elim version [ none ↦ old | some v ↦ some (clip v max_field_chars) ])
probed-IsShort none old h = h
probed-IsShort (some v) old h = clip-fits max_field_chars v

-- If no recorded text or list of ports was longer than its bound, none is after a probe or a
-- verdict, whatever the plugin sent.
pub recorded-AllBounded :
    (now : ℕ) (h : ClientHandshake) (report : ProbeReport) (addr : Text) (r : ClientRegistry)
    → AllBounded r.probes
    → AllBounded (record_probe now h addr r).probes
      × AllBounded (record_probe_verdict now report addr r).probes
unfolding record_probe record_probe_verdict
recorded-AllBounded now h report addr r b =
    let (room, entry) = probe_entry-IsBounded h.place_id h.game_id now r.probes b in
    let (room', entry') = probe_entry-IsBounded report.place_id report.game_id now r.probes b in
    let e = (probe_entry h.place_id h.game_id now r.probes).1 in
    let e' = (probe_entry report.place_id report.game_id now r.probes).1 in
    (
      insert-AllValues key_discrete IsBounded (h.place_id, h.game_id) (probed now h addr e)
          (probe_entry h.place_id h.game_id now r.probes).0
          (record {
            version = probed-IsShort h.client_version e.client_version entry.version;
            verdict = entry.verdict;
          })
          room,
      insert-AllValues key_discrete IsBounded (report.place_id, report.game_id)
          (record e' {
            remote_addr = or_addr e'.remote_addr addr;
            verdict = some (verdict_of now report);
          })
          (probe_entry report.place_id report.game_id now r.probes).0
          (record { version = entry'.version; verdict = verdict_of-IsClipped now report }) room',
    )
