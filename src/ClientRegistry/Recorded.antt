-- ===== src/ClientRegistry/Recorded.antt =====
-- `record_probe` and `record_probe_verdict` of client_registry.rs: what is written, and what stays.
use roxo_mcp.Base.{
  ℕ, ◌+◌, ◌-◌, ◌%◌, ◌^◌, ◌≤◌, ◌≡◌, ◌≢◌, refl, sym, subst, ◌∙◌, true, not, ◌&&◌, Option, none, some,
  arith, length, take, ltb, leb, Option-cases, Bool-cases, inl, inr,
}
use mathlib.Core.Option.{get_or}
use mathlib.Core.Logic.{if_pos, if_neg}
use roxo_mcp.Base.Dict.{
  insert, IsDistinct, lookup-insert, insert-IsDistinct, retain-IsDistinct, length-insert_new,
  length-insert_old, length-retain-le,
}
use roxo_mcp.Base.Text.{Text}
use roxo_mcp.ClientRegistry.{
  ClientHandshake, ProbeInfo, ProbeKey, ClientRegistry, key_discrete, max_probes, prune_probes,
  last_heard, probe_ttl_secs, new_probe, contains_key, make_room, probe_entry, probed, record_probe,
}
use roxo_mcp.ClientRegistry.Probes.{Probes, find, IsValid, IsOldest, evict_oldest-Evicted}

-- A recording of a probe or of a verdict: the entry that is written, and what stays of the others.
-- Entries go away for two reasons only: they expired, or the map was full, the place is new and no
-- entry was probed longer ago.
pub data Stays (pruned probes : Probes) (key j : ProbeKey) : Type 0 where
  same : find j probes ≡ find j pruned → Stays pruned probes key j
  evicted :
      (probe : ProbeInfo)
      → find j pruned ≡ some probe
      → find j probes ≡ none
      → find key pruned ≡ none
      → max_probes ≤ length pruned
      → IsOldest probe pruned
      → Stays pruned probes key j

Stays-write :
    (pruned room probes : Probes) (key j : ProbeKey)
    → Stays pruned room key j
    → find j probes ≡ find j room
    → Stays pruned probes key j
Stays-write pruned room probes key j (same e) h = same (h ∙ e)
Stays-write pruned room probes key j (evicted probe f e n full o) h =
    evicted probe f (h ∙ e) n full o

pub record Recorded (pruned probes : Probes) (key : ProbeKey) (entry : ProbeInfo) : Type 0 where
  pub valid : IsValid probes
  pub written : find key probes ≡ some entry
  pub others : (j : ProbeKey) → j ≢ key → Stays pruned probes key j

prune_probes-IsValid : (now : ℕ) (m : Probes) → IsValid m → IsValid (prune_probes now m)
unfolding prune_probes
prune_probes-IsValid now m v =
    let p = λ (k : ProbeKey) (probe : ProbeInfo). ltb (now - last_heard probe) probe_ttl_secs in
    record {
      distinct = retain-IsDistinct key_discrete p m v.distinct;
      bounded = omega (arith, length-retain-le key_discrete p m, v.bounded);
    }

-- Before the write: there is room for the entry.
record Room (key : ProbeKey) (pruned room : Probes) : Type 0 where
  distinct : IsDistinct key_discrete room
  bounded : length room ≤ max_probes
  roomy : find key room ≡ none → length room + 1 ≤ max_probes
  own : find key room ≡ find key pruned
  others : (j : ProbeKey) → Stays pruned room key j

full_and_new :
    (key : ProbeKey) (m : Probes)
    → (not (contains_key key m) && leb max_probes (length m)) ≡ true
    → (find key m ≡ none) × (max_probes ≤ length m)
full_and_new key m h = ground arith

make_room-Room : (key : ProbeKey) (m : Probes) → IsValid m → Room key m (make_room key m)
unfolding make_room
make_room-Room key m v = elim (Bool-cases (not (contains_key key m) && leb max_probes (length m))) [
  | inl e ↦
      let (fresh, full) = full_and_new key m e in
      let ev = evict_oldest-Evicted m v.distinct (omega arith) in
      rw e (record {
        distinct = ev.distinct;
        bounded = omega (arith, ev.smaller, v.bounded);
        roomy = λ h. omega (arith, ev.smaller, v.bounded);
        own = ground (arith, ev.others key);
        others = λ j. elim (key_discrete ev.key j) [
          | yes p ↦
              evicted ev.probe (subst (λ k. find k m ≡ some ev.probe) p ev.found)
                (ev.others j ∙ if_pos (key_discrete ev.key j) p none (find j m)) fresh full
                ev.oldest
          | no p ↦ same (ev.others j ∙ if_neg (key_discrete ev.key j) p none (find j m))
        ];
      })
  | inr e ↦ rw e (record {
    distinct = v.distinct;
    bounded = v.bounded;
    roomy = λ h. ground arith;
    own = refl;
    others = λ j. same refl;
  })
]

written-Recorded :
    (key : ProbeKey) (entry : ProbeInfo) (pruned room : Probes)
    → Room key pruned room
    → Recorded pruned (insert key_discrete key entry room) key entry
written-Recorded key entry pruned room w = record {
  valid = record {
    distinct = insert-IsDistinct key_discrete key entry room w.distinct;
    bounded = elim (Option-cases (find key room)) [
      | inl e ↦ omega (arith, length-insert_new key_discrete key entry room e, w.roomy e)
      | inr (old, e) ↦
          omega (arith, length-insert_old key_discrete key entry room (λ e'. cc), w.bounded)
    ];
  };
  written =
      lookup-insert key_discrete key key entry room
      ∙ if_pos (key_discrete key key) refl (some entry) (find key room);
  others = λ j differ.
      Stays-write pruned room (insert key_discrete key entry room) key j (w.others j) (
        lookup-insert key_discrete key j entry room
        ∙ if_neg (key_discrete key j) (λ e. differ (sym e)) (some entry) (find j room));
}

-- The entry of a probe, by the entry that its place had: one more probe than before, the address and
-- the time of this one, its version (the first 64 characters) if it names one, and the rest as it was.
pub record Counted (now : ℕ) (h : ClientHandshake) (addr : Text) (old : Option ProbeInfo)
    (entry : ProbeInfo) : Type 0 where
  pub counted :
      entry.probe_count ≡ (elim old [ none ↦ 0 | some probe ↦ probe.probe_count ] + 1) % 2 ^ 64
  pub first_probed :
      entry.first_probe_at ≡ elim old [ none ↦ now | some probe ↦ probe.first_probe_at ]
  pub last_probed : entry.last_probe_at ≡ now
  pub address : entry.remote_addr ≡ addr
  pub version : entry.client_version ≡ elim h.client_version [
    | none ↦ elim old [ none ↦ none | some probe ↦ probe.client_version ]
    | some version ↦ some (take 64 version)
  ]
  pub unchanged_verdict : entry.verdict ≡ elim old [ none ↦ none | some probe ↦ probe.verdict ]
  pub place :
      ◌≡◌ {A = ProbeKey}
        (entry.place_id, entry.game_id)
        (elim old [ none ↦ (h.place_id, h.game_id) | some probe ↦ (probe.place_id, probe.game_id) ])

probed-Counted :
    (now : ℕ) (h : ClientHandshake) (addr : Text) (old : Option ProbeInfo)
    → Counted now h addr old (probed now h addr (get_or old (new_probe h.place_id h.game_id now)))
probed-Counted now h addr none = record {
  counted = refl;
  first_probed = refl;
  last_probed = refl;
  address = refl;
  version = refl;
  unchanged_verdict = refl;
  place = refl;
}
probed-Counted now h addr (some probe) = record {
  counted = refl;
  first_probed = refl;
  last_probed = refl;
  address = refl;
  version = refl;
  unchanged_verdict = refl;
  place = refl;
}

-- On probes with no place twice and at most 16 places, `record_probe` keeps that, stores under the
-- place of the handshake its entry with one more probe counted (modulo 2^64), the address, the time
-- and the version of this one and the rest as it was (of a new place: no probe, and first probed
-- now), and leaves every other place as pruning leaves it, but for one that it may evict: only if
-- the place is new and the map full, and then one that no other was probed before.
pub record_probe-Recorded :
    (now : ℕ) (h : ClientHandshake) (addr : Text) (r : ClientRegistry)
    → IsValid r.probes
    → let key : ProbeKey = (h.place_id, h.game_id) in
      let pruned = prune_probes now r.probes in
      (entry : ProbeInfo) × Counted now h addr (find key pruned) entry
      × Recorded pruned (record_probe now h addr r).probes key entry
unfolding record_probe probe_entry
record_probe-Recorded now h addr r v =
    let key : ProbeKey = (h.place_id, h.game_id) in
    let pruned = prune_probes now r.probes in
    let room = make_room key pruned in
    let w = make_room-Room key pruned (prune_probes-IsValid now r.probes v) in
    let entry =
      λ (o : Option ProbeInfo). probed now h addr (get_or o (new_probe h.place_id h.game_id now)) in
    (
      entry (find key pruned),
      probed-Counted now h addr (find key pruned),
      subst
          (λ o.
            Recorded pruned (insert key_discrete key (entry (find key room)) room) key (entry o))
          w.own (written-Recorded key (entry (find key room)) pruned room w),
    )
