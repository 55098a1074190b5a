-- ===== src/RaftState/Config.antt =====
-- GetConfig and UpdateConfig (ddbr-server/infra/raft_state.go) and the RaftConfig that they pass
-- (infra/init_manager.go).
use ddbr.Common.{◌≡◌, refl, Bool, List, Option, none, some}
use ddbr.Common.Eq.{Str}
use ddbr.Common.Int.{ℤ}
use ddbr.RaftState.{RaftState}

pub record RaftConfig : Type 0 where
  pub node_id : Option ℤ
  pub cluster_id : ℤ
  pub peers : List Str
  pub election_timeout : ℤ
  pub heartbeat_period : ℤ
  pub data_dir : Str
  pub snapshot_count : ℤ
  pub port : Str
  pub gateway_host : Str
  pub is_master : Bool
  pub master_addr : Str

unfoldable pub get_config : RaftState → RaftConfig
get_config rs = record {
  node_id = some rs.node_id;
  cluster_id = rs.cluster_id;
  peers = rs.peers;
  election_timeout = rs.election_timeout;
  heartbeat_period = rs.heartbeat_period;
  data_dir = rs.data_dir;
  snapshot_count = rs.snapshot_count;
  port = rs.port;
  gateway_host = rs.gateway_host;
  is_master = rs.is_master;
  master_addr = rs.master_addr;
}

abbrev pub given_or : ℤ → Option ℤ → ℤ
given_or old none = old
given_or old (some new) = new

unfoldable pub update_config : RaftState → RaftConfig → RaftState
update_config rs config = record rs {
  node_id = given_or rs.node_id config.node_id;
  cluster_id = config.cluster_id;
  peers = config.peers;
  election_timeout = config.election_timeout;
  heartbeat_period = config.heartbeat_period;
  data_dir = config.data_dir;
  snapshot_count = config.snapshot_count;
  port = config.port;
  gateway_host = config.gateway_host;
  is_master = config.is_master;
  master_addr = config.master_addr;
}

-- What UpdateConfig stores is what GetConfig returns, but for a node id that was left out, which
-- stays as it was; the Raft fields do not change; and a node's own configuration changes nothing.
pub get_config-update_config :
    (rs : RaftState) (c : RaftConfig)
    → (get_config (update_config rs c)
        ≡ record c { node_id = some (given_or rs.node_id c.node_id) })
      × ((update_config rs c).logs ≡ rs.logs)
      × ((update_config rs c).current_term ≡ rs.current_term)
      × ((update_config rs c).voted_for ≡ rs.voted_for)
      × ((update_config rs c).commit_index ≡ rs.commit_index)
      × (update_config rs (get_config rs) ≡ rs)
unfolding get_config update_config
get_config-update_config rs c = (refl, refl, refl, refl, refl, refl)
