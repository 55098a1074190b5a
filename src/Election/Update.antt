-- ===== src/Election/Update.antt =====
-- How the election state machine is made, and how its configuration and its peers are set
-- (ddbr-server/infra/raft_state_machine.go).
use ddbr.Common.{ℕ, ◌+◌, ◌*◌, List, [], ◌∷◌, ◌++◌, Option, none, some, map, if◌then◌else◌}
use ddbr.Common.Eq.{Str, bytes}
use ddbr.Common.Int.{ℤ, pos, negsuc, wrap, sub_ℕ}
use ddbr.Common.Text.{contains}
use ddbr.Config.{Config, Global}
use ddbr.Election.{RaftStateMachine, follower}

-- time.Duration(ms) * time.Millisecond
unfoldable pub milliseconds : ℤ → ℤ
unfolding wrap
milliseconds (pos n) = wrap (pos (n * 1000000))
milliseconds (negsuc n) = wrap (sub_ℕ 0 ((n + 1) * 1000000))

abbrev new_with : ℕ → Config → Option ℤ → Option RaftStateMachine
new_with now config none = none
new_with now config (some id) = some (record {
  node_id = id;
  cluster_id = config.cluster_id;
  peers = config.peers;
  timeout = milliseconds config.election_timeout;
  heartbeat_period = milliseconds config.heartbeat_period;
  state = follower;
  current_term = pos 0;
  voted_for = negsuc 0;
  logs = [];
  commit_index = pos 0;
  last_applied = pos 0;
  next_index = [];
  match_index = [];
  votes_received = 0;
  total_votes = 0;
  last_heartbeat = now;
  events = [];
  port = config.port;
  gateway_host = config.gateway_host;
  master_addr = config.master_addr;
  is_master = config.is_master;
  config_master = config.is_master;
})

-- GetRaftStateMachine's first call: a panic where no configuration is loaded, or it has no id.
unfoldable pub new : ℕ → Global → Option RaftStateMachine
unfolding milliseconds
new now none = none
new now (some config) = new_with now config config.node_id

-- UpdateConfig
unfoldable pub update_config : Config → RaftStateMachine → RaftStateMachine
unfolding milliseconds
update_config config sm = record sm {
  peers = config.peers;
  timeout = milliseconds config.election_timeout;
  heartbeat_period = milliseconds config.heartbeat_period;
  master_addr = config.master_addr;
  is_master = config.is_master;
}

unfoldable pub with_port : Str → Str
unfolding contains
with_port host = if contains host (bytes ":") then host else host ++ bytes ":8080"

-- updateClusterInfo, with the hosts of the gateway's answer
unfoldable pub update_cluster_info : List Str → RaftStateMachine → RaftStateMachine
unfolding with_port
update_cluster_info [] sm = sm
update_cluster_info (host ∷ hosts) sm = record sm { peers = map with_port (host ∷ hosts) }
