-- ===== src/ClientRegistry/Probes.antt =====
-- The probes of client_registry.rs: how many places are remembered, and which one makes room.
use roxo_mcp.Base.{
  ◌+◌, ◌≤◌, ◌<◌, ◌≡◌, List, [], ◌∷◌, Option, none, some, ite, arith, length, All, ltb,
  if◌then◌else◌,
}
use roxo_mcp.Base.Dict.{lookup, IsDistinct, lookup-remove, remove-IsDistinct, length-remove_lt}
use roxo_mcp.ClientRegistry.{
  ProbeInfo, ProbeKey, key_discrete, max_probes, oldest_from, evict_oldest,
}

abbrev pub Probes : Type 0
Probes = List (ProbeKey × ProbeInfo)

abbrev pub find : ProbeKey → Probes → Option ProbeInfo
find = lookup key_discrete

-- No place twice, and never more places than the bound.
pub record IsValid (probes : Probes) : Type 0 where
  pub distinct : IsDistinct key_discrete probes
  pub bounded : length probes ≤ max_probes

-- Every entry is the one that is found under its key.
abbrev Found : Probes → Probes → Type 0
Found m = All (λ e. find e.0 m ≡ some e.1)

Found-cons :
    (e : ProbeKey × ProbeInfo) (m es : Probes) → find e.0 m ≡ none → Found m es → Found (e ∷ m) es
unfolding lookup
Found-cons e m [] fresh h = tt
Found-cons e m (x ∷ es) fresh h = (ground arith, Found-cons e m es fresh h.1)

Found-self : (m : Probes) → IsDistinct key_discrete m → Found m m
unfolding lookup
Found-self [] d = tt
Found-self ((k, v) ∷ m) d = (ground arith, Found-cons (k, v) m m d.0 (Found-self m d.1))

oldest-Found :
    (m : Probes) (best : ProbeKey × ProbeInfo) (es : Probes)
    → find best.0 m ≡ some best.1
    → Found m es
    → find (oldest_from best es).0 m ≡ some (oldest_from best es).1
unfolding oldest_from
oldest-Found m best [] h f = h
oldest-Found m best (e ∷ es) h f =
    oldest-Found m (if ltb (e.1).last_probe_at (best.1).last_probe_at then e else best) es
      (ground arith) f.1

-- No entry was probed longer ago.
abbrev pub IsOldest : ProbeInfo → Probes → Type 0
IsOldest probe = All (λ e. probe.last_probe_at ≤ (e.1).last_probe_at)

oldest_from-IsOldest :
    (best : ProbeKey × ProbeInfo) (es : Probes)
    → ((oldest_from best es).1.last_probe_at ≤ (best.1).last_probe_at)
      × IsOldest (oldest_from best es).1 es
unfolding oldest_from
oldest_from-IsOldest best [] = (omega arith, tt)
oldest_from-IsOldest best (e ∷ es) =
    let next = if ltb (e.1).last_probe_at (best.1).last_probe_at then e else best in
    let (least, rest) = oldest_from-IsOldest next es in (ground arith, (ground arith, rest))

-- What makes room in a full map: its oldest entry, and nothing else.
pub record Evicted (m m' : Probes) : Type 0 where
  pub key : ProbeKey
  pub probe : ProbeInfo
  pub found : find key m ≡ some probe
  pub oldest : IsOldest probe m
  pub others : (j : ProbeKey) → find j m' ≡ ite (key_discrete key j) none (find j m)
  pub smaller : length m' + 1 ≤ length m
  pub distinct : IsDistinct key_discrete m'

pub evict_oldest-Evicted :
    (m : Probes) → IsDistinct key_discrete m → 0 < length m → Evicted m (evict_oldest m)
unfolding evict_oldest
evict_oldest-Evicted [] d h = absurd (omega arith)
evict_oldest-Evicted (e ∷ es) d h =
    let o = oldest_from e es in
    let f = Found-self (e ∷ es) d in
    let found = oldest-Found (e ∷ es) e es f.0 f.1 in
    record {
      key = o.0;
      probe = o.1;
      found = found;
      oldest = oldest_from-IsOldest e es;
      others = λ j. lookup-remove key_discrete o.0 j (e ∷ es);
      smaller = length-remove_lt key_discrete o.0 (e ∷ es) (λ none'. cc);
      distinct = remove-IsDistinct key_discrete o.0 (e ∷ es) d;
    }
