-- ===== src/Start/Join.antt =====
-- How a starting server registers with the gateway and joins the cluster: RegisterNodeAndGetInfo,
-- JoinCluster and InitializeResources (ddbr-server/infra/init_manager.go).
use mathlib.Core.Option
use ddbr.Common.{Bool, true, false, not, ◌&&◌, ◌||◌, List, [], Option, none, some, if◌then◌else◌}
use ddbr.Common.Eq.{Str, bytes, str_Eq, int_Eq, ◌==◌}
use ddbr.Common.Int.{ℤ, pos, negsuc, ltb_ℤ}
use ddbr.Common.Text.{contains}
use ddbr.Common.Result.{Result, ok, err}
use ddbr.Config.{Config, Global, UnmarshalConfig, set_is_master, set_master_addr, update_peers}
use ddbr.Kv.Command.{Unmarshal}
use ddbr.RaftState.{set_peers}
use ddbr.Recovery.{UnmarshalState}
use ddbr.Gateway.{RegisterSeverResp}
use ddbr.Gateway.Api.{GatewayApi}
use ddbr.Start.{
  Server, StartError, config_path_empty, not_initialized, leader_not_set, not_joined, Files,
  initialize_raft_state, load_with_role,
}

-- The client of a leader, for JoinCluster: none, or how the call ends.
abbrev pub JoinClient : Type 0
JoinClient = Str → Option (Result Str (Unit {0}))

abbrev pub join_result :
    Option (Result Str (Unit {0})) → RegisterSeverResp → Result StartError RegisterSeverResp
join_result none resp = ok resp
join_result (some (err x)) resp = err (not_joined x)
join_result (some (ok r)) resp = ok resp

module _ (api : GatewayApi) where
  -- Of the calls of the gateway: their result, the configuration after them, and the gateway.
  abbrev pub Registered : Type 0
  Registered = Result StartError RegisterSeverResp × Config × api.State

  -- A node that is no master joins the leader that the gateway named.
  unfoldable pub join_leader : JoinClient → RegisterSeverResp → Config → api.State → Registered
  join_leader client resp c g =
      if not c.is_master && not (resp.leader_host == [])
      then (join_result (client resp.leader_host) resp, set_master_addr resp.leader_host c, g)
      else (ok resp, c, g)

  abbrev pub after_set_leader :
      JoinClient → RegisterSeverResp → Config → Result Str Str × api.State → Registered
  after_set_leader client resp c (ok host, g) = join_leader client resp c g
  after_set_leader client resp c (err x, g) =
      if contains x (bytes "leader already exists")
      then join_leader client resp (set_is_master false c) g
      else (err (leader_not_set x), c, g)

  abbrev pub no_leader : ℤ → Bool
  no_leader id = id == negsuc 0 || id == pos 0

  unfoldable pub use_resp : JoinClient → RegisterSeverResp → Config → api.State → Registered
  unfolding join_leader
  use_resp client resp c g =
      if not c.is_master
      then join_leader client resp c g
      else if no_leader resp.leader_id
      then after_set_leader client resp c (api.set_leader g)
      else join_leader client resp (set_is_master false c) g

  -- The answer is read before the error is looked at: an error, which comes without an answer, is a
  -- panic.
  abbrev pub checked :
      JoinClient → Config → Result Str RegisterSeverResp × api.State → Option Registered
  checked client c (err x, g) = none
  checked client c (ok resp, g) = some (use_resp client resp c g)

  -- RegisterNodeAndGetInfo
  unfoldable pub register_node : JoinClient → ℤ → Config → api.State → Option Registered
  unfolding use_resp
  register_node client node_id c g = checked client c (api.register_sever node_id g)

  -- A server, the gateway, and the leader whose logs SyncLogsWithLeader was started for.
  abbrev pub Joined : Type 0
  Joined = Result StartError (Unit {0}) × Server × api.State × Option ℤ

  -- ModifyServerHost
  abbrev modify_server_host : List Str → Config → Server → Server
  modify_server_host hosts c s = record s {
    raft = set_peers hosts s.raft;
    config = some (update_peers hosts c);
  }

  abbrev pub take_registered : Server → Registered → Joined
  take_registered s (err x, c, g) = (err x, record s { config = some c }, g, none)
  take_registered s (ok resp, c, g) =
      if ltb_ℤ (pos 0) resp.leader_id
      then (
        ok tt,
        record (modify_server_host resp.sever_host_sever c s) { has_joined_cluster = true },
        g,
        some resp.leader_id,
      )
      else (ok tt, record s { config = some c }, g, none)

  abbrev pub join_with : JoinClient → Global → Server → api.State → Option Joined
  join_with client none s g = none
  join_with client (some c) s g =
      Option.map (take_registered s) (register_node client s.raft.node_id c g)

  -- JoinCluster; `none` is a panic.
  unfoldable pub join_cluster : JoinClient → Server → api.State → Option Joined
  unfolding register_node
  join_cluster client s g =
      if s.has_joined_cluster
      then some (ok tt, s, g, none)
      else if not s.is_init
      then some (err not_initialized, s, g, none)
      else join_with client s.config s g

  -- An error of JoinCluster is only logged.
  abbrev pub ignore_error : Joined → Joined
  ignore_error (r, s, g, leader) = (ok tt, s, g, leader)

  abbrev pub start_loaded :
      Unmarshal
      → UnmarshalState
      → Files
      → JoinClient
      → Result StartError (Unit {0}) × Server
      → api.State
      → Option Joined
  start_loaded u v files client (err x, s) g = some (err x, s, g, none)
  start_loaded u v files client (ok r, s) g =
      Option.map ignore_error (join_cluster client (initialize_raft_state u v files s) g)

  -- InitializeResources
  unfoldable pub initialize_resources :
      Unmarshal
      → UnmarshalState
      → UnmarshalConfig
      → ℤ
      → Files
      → JoinClient
      → Str
      → Bool
      → Server
      → api.State
      → Option Joined
  unfolding load_with_role initialize_raft_state join_cluster
  initialize_resources u v w fresh files client path master s g =
      if path == []
      then some (err config_path_empty, s, g, none)
      else start_loaded u v files client (load_with_role w fresh files master s) g
