-- ===== src/ClientRegistry/Clients.antt =====
-- The clients of client_registry.rs: identities, expiry and the count of live subscriptions.
use roxo_mcp.Base.{
  ℕ, ◌+◌, ◌^◌, ◌<◌, ◌≡◌, ◌≢◌, Bool, false, Option, none, some, arith, if◌then◌else◌, ℕ_discrete,
  Option-cases, inl, inr,
}
use roxo_mcp.Base.Dict.{
  lookup, IsDistinct, lookup-insert, insert-IsDistinct, retain-IsDistinct, lookup-retain-none,
  lookup-retain-some,
}
use mathlib.Core.Option.{get_or}
use roxo_mcp.Base.Text.{Text, codes}
use roxo_mcp.ClientRegistry.{
  ClientId, ClientInfo, ClientHandshake, ClientRegistry, stays, prune_stale, info_of, handshake,
}

-- What pruning leaves of a client.
abbrev pub left_of : ℕ → Option ClientInfo → Option ClientInfo
left_of now none = none
left_of now (some c) = if stays now c then some c else none

-- The clients have distinct identities, which are all below the next one.
pub record IsValid (r : ClientRegistry) : Type 0 where
  pub distinct : IsDistinct ℕ_discrete r.clients
  pub below : (k : ClientId) → lookup ℕ_discrete k r.clients ≢ none → k < r.next_id

-- On a registry with no identity twice, pruning keeps exactly the clients that are subscribed or
-- were seen within the last minute, as they are.
pub prune_stale_lem :
    (now : ℕ) (r : ClientRegistry) (k : ClientId)
    → IsValid r
    → lookup ℕ_discrete k (prune_stale now r).clients ≡ left_of now (lookup ℕ_discrete k r.clients)
unfolding prune_stale
prune_stale_lem now r k v = elim (Option-cases (lookup ℕ_discrete k r.clients)) [
  | inl e ↦ rw e (lookup-retain-none ℕ_discrete k (λ _ c. stays now c) r.clients e)
  | inr (c, e) ↦
      rw e (lookup-retain-some ℕ_discrete k (λ _ c. stays now c) r.clients c v.distinct e)
]

left_of-none : (now : ℕ) (o : Option ClientInfo) → left_of now o ≢ none → o ≢ none
left_of-none now none h = h
left_of-none now (some c) h = λ e. cc

fresh_id : (r : ClientRegistry) → IsValid r → lookup ℕ_discrete r.next_id r.clients ≡ none
fresh_id r v = elim (Option-cases (lookup ℕ_discrete r.next_id r.clients)) [
  | inl e ↦ e
  | inr (c, e) ↦ absurd (omega (arith, v.below r.next_id (λ e'. cc)))
]

pub prune_stale-IsValid : (now : ℕ) (r : ClientRegistry) → IsValid r → IsValid (prune_stale now r)
prune_stale-IsValid now r v = record {
  distinct =
      unfold prune_stale in retain-IsDistinct ℕ_discrete (λ _ c. stays now c) r.clients v.distinct;
  below = λ k h.
      unfold prune_stale in
      v.below k
        (left_of-none now (lookup ℕ_discrete k r.clients) (rw (← prune_stale_lem now r k v) h));
}

-- On a registry with no identity twice and all below the counter, which is not about to wrap
-- around, a handshake takes an identity that no client has and records it there with the data of
-- the handshake, connected and seen now, and not subscribed; the other clients are those that
-- pruning leaves, and the registry stays such.
pub handshake_lem :
    (pruned_at now : ℕ) (h : ClientHandshake) (addr : Text) (r : ClientRegistry)
    → IsValid r
    → r.next_id + 1 < 2 ^ 64
    → let (r', id) = handshake pruned_at now h addr r in
      (lookup ℕ_discrete id r.clients ≡ none)
      × (lookup ℕ_discrete id r'.clients
          ≡ some (record {
            id = id;
            place_id = h.place_id;
            game_id = h.game_id;
            client_name = get_or h.client_name (codes "unknown");
            client_version = h.client_version;
            auto_connected = h.auto_connected;
            match_reason = h.match_reason;
            remote_addr = addr;
            connected_at = now;
            last_seen = now;
            subscribed = false;
          }))
      × ((j : ClientId)
          → j ≢ id
          → lookup ℕ_discrete j r'.clients ≡ left_of pruned_at (lookup ℕ_discrete j r.clients))
      × IsValid r'
unfolding handshake prune_stale
handshake_lem pruned_at now h addr r v small =
    let id = r.next_id in
    let pruned = prune_stale pruned_at r in
    let w = prune_stale-IsValid pruned_at r v in
    let info = info_of h addr id now in
    (
      fresh_id r v,
      ground (arith, lookup-insert ℕ_discrete id id info pruned.clients),
      λ j differ. ground (
        arith,
        lookup-insert ℕ_discrete id j info pruned.clients,
        prune_stale_lem pruned_at r j v,
      ),
      record {
        distinct = insert-IsDistinct ℕ_discrete id info pruned.clients w.distinct;
        below =
            λ k there. ground (arith, lookup-insert ℕ_discrete id k info pruned.clients, w.below k);
      },
    )

module _ (p : ClientInfo → Bool) where
  abbrev one : Bool → ℕ
  one b = if b then 1 else 0
