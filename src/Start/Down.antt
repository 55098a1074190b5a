-- ===== src/Start/Down.antt =====
-- A start whose registration fails (ddbr-server/infra/init_manager.go).
use mathlib.Core.Option
use ddbr.Common.{
  if-false, ◌≡◌, ◌≢◌, ap, ◌∙◌, Bool, true, false, not, [], Option, none, some, arith, if◌then◌else◌,
}
use ddbr.Common.Eq.{Str, str_Eq, str_eq_iff, ◌==◌}
use ddbr.Common.Int.{ℤ}
use ddbr.Common.Result.{ok, err}
use ddbr.Config.{Config, UnmarshalConfig, with_defaults, set_is_master}
use ddbr.Kv.Command.{Unmarshal}
use ddbr.RaftState.Config.{given_or}
use ddbr.Recovery.{UnmarshalState}
use ddbr.Gateway.Api.{GatewayApi}
use ddbr.Start.{
  Server, Files, initialize_raft_state, load_with_role, config_path_empty, not_initialized,
}
use ddbr.Start.Join.{
  JoinClient, Joined, initialize_resources, join_cluster, join_with, start_loaded, take_registered,
  ignore_error, checked, register_node,
}
use ddbr.Start.Recovered.{initialize-IsInitialized}
use ddbr.Start.Role.{load_with_role-config}

module _ (u : Unmarshal) (v : UnmarshalState) (w : UnmarshalConfig) (fresh : ℤ) (files : Files)
    (client : JoinClient) (path : Str) (s : Server) (text : Str) (c : Config)
    (path_given : path ≢ []) (has_file : files.config_file ≡ some text) (parses : w text ≡ ok c)
    (made : files.made ≡ true) (is_new : s.has_joined_cluster ≡ false) where
  -- The start, after the configuration is loaded.
  pub initialize_resources-loaded :
      (api : GatewayApi) (master : Bool) (g : api.State)
      → (t : Server) × (initialize_resources api u v w fresh files client path master s g
          ≡ Option.map (ignore_error api) (join_with api client t.config t g))
        × (t.config ≡ some (set_is_master master (with_defaults fresh c)))
        × (t.raft.node_id ≡ given_or s.raft.node_id (with_defaults fresh c).node_id)
  unfolding initialize_resources join_cluster
  initialize_resources-loaded api master g =
      let (l, e, conf, role, joined, own) =
        load_with_role-config api w fresh files master s text c has_file parses made in
      let t = initialize_raft_state u v files l in
      let q = initialize-IsInitialized u v files l in
      let loaded = start_loaded api u v files client (load_with_role w fresh files master s) g in
      let with_config = join_with api client t.config t g in
      let ready : Option (Joined api) =
        if not t.is_init then some (err not_initialized, t, g, none) else with_config in
      (
        t,
        if-false (path == []) (some (err config_path_empty, s, g, none)) loaded
              (ground (arith, path_given, str_eq_iff path []))
            ∙ ap (λ x. start_loaded api u v files client x g) e
            ∙ ap (Option.map (ignore_error api)) (
                if-false t.has_joined_cluster (some (ok tt, t, g, none)) ready
                  (q.same_joined ∙ joined ∙ is_new)
                ∙ if-false (not t.is_init) (some (err not_initialized, t, g, none)) with_config
                    (ground (arith, q.is_init))),
        q.same_config ∙ conf,
        q.same_role.1 ∙ own,
      )

  -- If the gateway's answer to the registration is an error, a server whose configuration is in
  -- order panics when it starts, though an error of JoinCluster is meant to be logged only.
  pub initialize_resources-no_gateway :
      (api : GatewayApi) (master : Bool) (g : api.State)
      → ((own : ℤ) → (x : Str) × ((api.register_sever own g).0 ≡ err x))
      → initialize_resources api u v w fresh files client path master s g ≡ none
  unfolding register_node
  initialize_resources-no_gateway api master g fails =
      let (t, e, conf, same) = initialize_resources-loaded api master g in
      let own = t.raft.node_id in
      let d = set_is_master master (with_defaults fresh c) in
      e
      ∙ ap (λ x. Option.map (ignore_error api) (join_with api client x t g)) conf
      ∙ ap
          (λ r. Option.map (ignore_error api) (
            Option.map (take_registered api t)
              (checked api client d (r, (api.register_sever own g).1))))
          (fails own).1
