-- ===== src/Start/Role.antt =====
-- Whether a server starts as the leader (ddbr-server/infra/init_manager.go).
use mathlib.Core.Option
use ddbr.Start.Recovered.{initialize-IsInitialized}
use ddbr.Common.{
  if-true, if-false, ◌≡◌, ◌≢◌, refl, sym, subst, ap, ◌∙◌, Bool, true, false, List, [], Option, none,
  some, arith,
}
use ddbr.Common.Eq.{Str, str_Eq, str_eq_iff, int_Eq, ◌==◌}
use ddbr.Common.Int.{ℤ}
use ddbr.Common.Result.{ok, err}
use ddbr.Config.{
  Config, UnmarshalConfig, with_defaults, load_config, use_parsed, set_is_master, update_peers,
}
use ddbr.Kv.Command.{Unmarshal}
use ddbr.RaftState.Config.{update_config, given_or}
use ddbr.Recovery.{UnmarshalState}
use ddbr.Gateway.Api.{GatewayApi}
use ddbr.Start.{
  Server, Files, load_with_role, raft_config, with_role, config_path_empty, initialize_raft_state,
}
use ddbr.Start.Join.{Joined, initialize_resources, start_loaded, ignore_error, JoinClient}
use ddbr.Start.Register.{join_cluster-follower, joined_server, follower_of}
use ddbr.Kv.Machine.{StateMachine}
use ddbr.RaftState.{RaftState}
use ddbr.Sync.{LeaderClient, GatewayAnswer, sync_logs_with_leader, with_leader, find_leader}

module _ (api : GatewayApi) where
  -- How a start ends: as a follower of the leader that the gateway knows.
  pub record IsFollower (host : Str) (id : ℤ) (master : Bool) (o : Option (Joined api))
      : Type 0 where
    pub server : Server
    pub gateway : api.State
    pub config : Config
    pub ended : o ≡ some (ok tt, server, gateway, some id)
    pub loaded : server.config ≡ some config
    pub no_master : config.is_master ≡ false
    pub address : config.master_addr ≡ host
    pub raft_master : server.raft.is_master ≡ master
    pub leads : api.Leads host id gateway

  start_loaded-IsFollower :
      (u : Unmarshal) (v : UnmarshalState) (files : Files) (client : JoinClient) (s : Server)
      (g : api.State) (c : Config) (host : Str) (id : ℤ)
      → s.has_joined_cluster ≡ false
      → s.config ≡ some c
      → api.Leads host id g
      → client host ≡ some (ok tt)
      → IsFollower host id s.raft.is_master (start_loaded api u v files client (ok tt, s) g)
  start_loaded-IsFollower u v files client s g c host id a e k j =
      let t = initialize_raft_state u v files s in
      let q = initialize-IsInitialized u v files s in
      let (hosts, r) =
        join_cluster-follower api client id host c t g (q.same_joined ∙ a) q.is_init
          (q.same_config ∙ e) k j in
      record {
        server = joined_server hosts (follower_of host c) t;
        gateway = (api.register_sever t.raft.node_id g).1;
        config = update_peers hosts (follower_of host c);
        ended = ap (Option.map (ignore_error api)) r;
        loaded = refl;
        no_master = refl;
        address = refl;
        raft_master = q.same_role.0;
        leads = (api.register-Leads host id t.raft.node_id g k).0;
      }

  pub load_with_role-config :
      (w : UnmarshalConfig) (fresh : ℤ) (files : Files) (master : Bool) (s : Server) (text : Str)
      (c : Config)
      → files.config_file ≡ some text
      → w text ≡ ok c
      → files.made ≡ true
      → (t : Server) × (load_with_role w fresh files master s ≡ (ok tt, t))
        × (t.config ≡ some (set_is_master master (with_defaults fresh c)))
        × (t.raft.is_master ≡ master)
        × (t.has_joined_cluster ≡ s.has_joined_cluster)
        × (t.raft.node_id ≡ given_or s.raft.node_id (with_defaults fresh c).node_id)
  unfolding load_with_role load_config update_config raft_config
  load_with_role-config w fresh files master s text c f e d =
      let d0 = with_defaults fresh c in
      let t = (with_role master true (ok tt, some d0) s).1 in
      (
        t,
        ap (λ o. with_role master files.made (load_config w fresh o s.config) s) f
            ∙ ap (λ r. with_role master files.made (use_parsed fresh r s.config) s) e
            ∙ ap (λ b. with_role master b (ok tt, some d0) s) d,
        refl,
        refl,
        refl,
        refl,
      )

  -- Starting a new server, with or without the flag -master, whose configuration file and data
  -- directory are in order, while the gateway knows a leader that accepts the server: the
  -- configuration ends up with no master flag and with the leader's address, the synchronisation of
  -- the logs with the leader is started, and the gateway still knows the leader. But the Raft state
  -- keeps the flag that the server was started with.
  pub initialize_resources-IsFollower :
      (u : Unmarshal) (v : UnmarshalState) (w : UnmarshalConfig) (fresh : ℤ) (files : Files)
      (client : JoinClient) (path : Str) (master : Bool) (s : Server) (g : api.State) (text : Str)
      (c : Config) (host : Str) (id : ℤ)
      → path ≢ []
      → files.config_file ≡ some text
      → w text ≡ ok c
      → files.made ≡ true
      → s.has_joined_cluster ≡ false
      → api.Leads host id g
      → client host ≡ some (ok tt)
      → IsFollower host id master
          (initialize_resources api u v w fresh files client path master s g)
  unfolding initialize_resources
  initialize_resources-IsFollower u v w fresh files client path master s g text c host id n f e d m
        k j =
      let (t, l, conf, role, joined, own) =
        load_with_role-config w fresh files master s text c f e d in
      let started =
        start_loaded-IsFollower u v files client t g (set_is_master master (with_defaults fresh c))
          host id (joined ∙ m) conf k j in
      let loaded = start_loaded api u v files client (load_with_role w fresh files master s) g in
      subst (IsFollower host id master)
        (sym (
          if-false (path == []) (some (err config_path_empty, s, g, none)) loaded
            (ground (arith, n, str_eq_iff path []))
          ∙ ap (λ x. start_loaded api u v files client x g) l))
        (subst (λ b. IsFollower host id b (start_loaded api u v files client (ok tt, t) g)) role
          started)

sync_logs-master :
    (u : Unmarshal) (client : LeaderClient) (answer : GatewayAnswer) (peers : List Str)
    (master : Str) (id : ℤ) (rs : RaftState) (kv : StateMachine)
    → rs.is_master ≡ true
    → sync_logs_with_leader u client answer peers master id (rs, kv) ≡ (ok false, (rs, kv))
unfolding sync_logs_with_leader
sync_logs-master u client answer peers master id rs kv m =
    if-true rs.is_master (ok false, (rs, kv))
      (with_leader u client (find_leader id answer peers master) (rs, kv)) m

-- A new server that is started with the flag -master, its configuration file and data directory in
-- order, while the gateway knows a leader that accepts the server, starts to synchronise its logs
-- with that leader; but the synchronisation does nothing, whatever the gateway and the leader would
-- answer.
pub initialize_resources-demoted :
    (api : GatewayApi) (u : Unmarshal) (v : UnmarshalState) (w : UnmarshalConfig) (fresh : ℤ)
    (files : Files) (client : JoinClient) (path : Str) (s : Server) (g : api.State) (text : Str)
    (c : Config) (host : Str) (id : ℤ) (leader : LeaderClient) (answer : GatewayAnswer)
    (peers : List Str) (master : Str)
    → path ≢ []
    → files.config_file ≡ some text
    → w text ≡ ok c
    → files.made ≡ true
    → s.has_joined_cluster ≡ false
    → api.Leads host id g
    → client host ≡ some (ok tt)
    → (t : Server) × (g' : api.State) × (initialize_resources api u v w fresh files client path true
          s g
        ≡ some (ok tt, t, g', some id))
      × (sync_logs_with_leader u leader answer peers master id (t.raft, t.kv)
          ≡ (ok false, (t.raft, t.kv)))
initialize_resources-demoted api u v w fresh files client path s g text c host id leader answer
      peers master a b d e f k j =
    let r =
      initialize_resources-IsFollower api u v w fresh files client path true s g text c host id a b
        d e f k j in
    (
      r.server,
      r.gateway,
      r.ended,
      sync_logs-master u leader answer peers master id r.server.raft r.server.kv r.raft_master,
    )
