-- ===== src/ClientRegistry/Data.antt =====
-- The records of client_registry.rs.
use roxo_mcp.Base.{ℕ, Bool, List, Option, ℕ_discrete}
use roxo_mcp.Base.Equality.{Option_discrete, pair_discrete}
use roxo_mcp.Base.Text.{Text}

abbrev pub ClientId : Type 0
ClientId = ℕ

pub record ClientInfo : Type 0 where
  pub id : ClientId
  pub place_id : Option ℕ
  pub game_id : Option ℕ
  pub client_name : Text
  pub client_version : Option Text
  pub auto_connected : Bool
  pub match_reason : Option Text
  pub remote_addr : Text
  pub connected_at : ℕ
  pub last_seen : ℕ
  pub subscribed : Bool

pub record ClientHandshake : Type 0 where
  pub place_id : Option ℕ
  pub game_id : Option ℕ
  pub client_name : Option Text
  pub client_version : Option Text
  pub auto_connected : Bool
  pub match_reason : Option Text

pub record ProbeVerdict : Type 0 where
  pub outcome : Text
  pub code : Option Text
  pub reason : Text
  pub conflicting_ports : List ℕ
  pub reported_at : ℕ

pub record ProbeInfo : Type 0 where
  pub place_id : Option ℕ
  pub game_id : Option ℕ
  pub client_version : Option Text
  pub remote_addr : Text
  pub first_probe_at : ℕ
  pub last_probe_at : ℕ
  pub probe_count : ℕ
  pub verdict : Option ProbeVerdict

pub record ProbeReport : Type 0 where
  pub place_id : Option ℕ
  pub game_id : Option ℕ
  pub outcome : Text
  pub code : Option Text
  pub reason : Text
  pub conflicting_ports : List ℕ

abbrev pub ProbeKey : Type 0
ProbeKey = Option ℕ × Option ℕ

unfoldable pub key_discrete : Discrete ProbeKey
unfolding Option_discrete pair_discrete ℕ_discrete
key_discrete = pair_discrete (Option_discrete ℕ_discrete) (Option_discrete ℕ_discrete)
