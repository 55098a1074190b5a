-- ===== src/Start.antt =====
-- How a server starts (ddbr-server/infra/init_manager.go): it loads its configuration and recovers
-- its state.
pub mod Join
pub mod Recovered
pub mod Register
pub mod Role
pub mod Down
pub mod First
use mathlib.Core.Option
use ddbr.Common.{
  Bool, true, false, not, ◌&&◌, ◌||◌, List, [], ◌∷◌, Option, none, some, if◌then◌else◌,
}
use ddbr.Common.Eq.{Str, bytes, str_Eq, int_Eq, ◌==◌}
use ddbr.Common.Int.{ℤ, pos, negsuc, ltb_ℤ}
use ddbr.Common.Text.{contains}
use ddbr.Common.Result.{Result, ok, err}
use ddbr.Config.{
  Config, Global, ConfigError, UnmarshalConfig, load_config, set_is_master, set_master_addr,
  update_peers,
}
use ddbr.Kv.Command.{Unmarshal}
use ddbr.Kv.Machine.{StateMachine}
use ddbr.RaftState.{RaftState, set_peers}
use ddbr.RaftState.Config.{RaftConfig, update_config}
use ddbr.Recovery.{Host, UnmarshalState, recover_from_storage}
use ddbr.Gateway.{RegisterSeverResp}
use ddbr.Gateway.Api.{GatewayApi}

-- A server process: the configuration, the state, and the initialisation manager's fields; `file`
-- is the state file in the data directory.
pub record Server : Type 0 where
  pub config : Global
  pub raft : RaftState
  pub kv : StateMachine
  pub file : Option Str
  pub is_init : Bool
  pub data_path : Str
  pub has_joined_cluster : Bool

pub data StartError : Type 0 where
  config_path_empty : StartError
  config_failed : ConfigError → StartError
  no_data_directory : StartError
  not_initialized : StartError
  leader_not_set : Str → StartError
  not_joined : Str → StartError

-- What reading the configuration file and making the data directory gives.
pub record Files : Type 0 where
  pub config_file : Option Str
  pub made : Bool
  pub readable : Bool

unfoldable pub raft_config : Config → RaftConfig
raft_config c = record {
  node_id = c.node_id;
  cluster_id = c.cluster_id;
  peers = c.peers;
  election_timeout = c.election_timeout;
  heartbeat_period = c.heartbeat_period;
  data_dir = c.data_dir;
  snapshot_count = c.snapshot_count;
  port = c.port;
  gateway_host = c.gateway_host;
  is_master = c.is_master;
  master_addr = c.master_addr;
}

abbrev pub use_config : Bool → Config → Server → Result StartError (Unit {0}) × Server
use_config made c s =
    let s' = record s { config = some c; data_path = c.data_dir } in
    if made
    then (ok tt, record s' { raft = update_config s.raft (raft_config c) })
    else (err no_data_directory, s')

-- A call of LoadConfig without an error leaves a configuration, so the second clause is not
-- reached.
abbrev pub with_role :
    Bool
    → Bool
    → Result ConfigError (Unit {0}) × Global
    → Server
    → Result StartError (Unit {0}) × Server
with_role master made (err x, g) s = (err (config_failed x), record s { config = g })
with_role master made (ok r, none) s = (err (config_failed ConfigError.not_loaded), s)
with_role master made (ok r, some c) s = use_config made (set_is_master master c) s

-- InitManager.LoadConfig
unfoldable pub load_with_role :
    UnmarshalConfig → ℤ → Files → Bool → Server → Result StartError (Unit {0}) × Server
unfolding load_config raft_config update_config
load_with_role u fresh files master s =
    with_role master files.made (load_config u fresh files.config_file s.config) s

abbrev pub is_master_of : Global → Bool
is_master_of none = false
is_master_of (some c) = c.is_master

abbrev pub to_host : Server → Host
to_host s = record {
  raft = s.raft;
  kv = s.kv;
  is_master = is_master_of s.config;
  is_init = s.is_init;
  file = s.file;
}

abbrev from_host : Host → Server → Server
from_host h s = record s { raft = h.raft; kv = h.kv; file = h.file; is_init = true }

abbrev with_directory : Server → Server
with_directory s =
    if s.raft.data_dir == []
    then record s { raft = record s.raft { data_dir = s.data_path } }
    else record s { data_path = s.raft.data_dir }

-- InitializeRaftState; an error of the recovery is only logged.
unfoldable pub initialize_raft_state : Unmarshal → UnmarshalState → Files → Server → Server
unfolding recover_from_storage
initialize_raft_state u v files s =
    let s' = with_directory s in
    if s.is_init then s else from_host (recover_from_storage u v files.readable (to_host s')).1 s'
