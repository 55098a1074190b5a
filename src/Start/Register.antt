-- ===== src/Start/Register.antt =====
-- How a node registers as a follower (ddbr-server/infra/init_manager.go).
use mathlib.Core.Option
use ddbr.Common.{
  if-true, if-false, ◌≡◌, ◌≢◌, refl, sym, ap, ◌∙◌, inl, inr, true, false, not, ◌&&◌, List, [],
  Option, none, some, arith, if◌then◌else◌, Bool-cases,
}
use ddbr.Common.Eq.{Str, str_Eq, str_eq_iff, int_Eq, ◌==◌}
use ddbr.Common.Int.{ℤ, pos, ltb_ℤ, ◌<ℤ◌}
use ddbr.Common.Result.{ok, err}
use ddbr.Config.{Config, set_is_master, set_master_addr, update_peers}
use ddbr.RaftState.{set_peers}
use ddbr.Gateway.{RegisterSeverResp}
use ddbr.Gateway.Api.{GatewayApi}
use ddbr.Start.{Server, not_initialized}
use ddbr.Start.Join.{
  Joined, take_registered, join_cluster, join_with, JoinClient, use_resp, after_set_leader, checked,
  register_node, join_leader, no_leader,
}

-- The server after it joined, with the hosts that the gateway named.
abbrev pub joined_server : List Str → Config → Server → Server
joined_server hosts c s = record s {
  raft = set_peers hosts s.raft;
  config = some (update_peers hosts c);
  has_joined_cluster = true;
}

abbrev pub follower_of : Str → Config → Config
follower_of host c = set_master_addr host (set_is_master false c)

module _ (api : GatewayApi) where
  pub join_leader-follower :
      (client : JoinClient) (resp : RegisterSeverResp) (c : Config) (g : api.State)
      → c.is_master ≡ false
      → resp.leader_host ≢ []
      → client resp.leader_host ≡ some (ok tt)
      → join_leader api client resp c g ≡ (ok resp, set_master_addr resp.leader_host c, g)
  unfolding join_leader
  join_leader-follower client resp c g m n j =
      let b : (not c.is_master && not (resp.leader_host == [])) ≡ true =
        ground (arith, m, n, str_eq_iff resp.leader_host []) in
      rw (b, j) refl

  pub use_resp-follower :
      (client : JoinClient) (resp : RegisterSeverResp) (c : Config) (g : api.State)
      → resp.leader_host ≢ []
      → pos 0 <ℤ resp.leader_id
      → client resp.leader_host ≡ some (ok tt)
      → use_resp api client resp c g
        ≡ (ok resp, set_master_addr resp.leader_host (set_is_master false c), g)
  unfolding use_resp
  use_resp-follower client resp c g n p j =
      let joined = join_leader api client resp c g in
      let deposed = join_leader api client resp (set_is_master false c) g in
      let claimed = after_set_leader api client resp c (api.set_leader g) in
      let led = if no_leader api resp.leader_id then claimed else deposed in
      elim (Bool-cases c.is_master) [
        | inl m ↦
            if-false (not c.is_master) joined led (ground (arith, m))
            ∙ if-false (no_leader api resp.leader_id) claimed deposed (ground (arith, p))
            ∙ join_leader-follower client resp (set_is_master false c) g refl n j
        | inr m ↦
            let e : c ≡ set_is_master false c = ap (λ b. set_is_master b c) m in
            if-true (not c.is_master) joined led (ground (arith, m))
            ∙ join_leader-follower client resp c g m n j
            ∙ ap (λ d. (ok resp, set_master_addr resp.leader_host d, g)) e
      ]

  -- A node whose gateway knows a leader registers as a follower of it.
  pub register_node-follower :
      (client : JoinClient) (own id : ℤ) (host : Str) (c : Config) (g : api.State)
      → api.Leads host id g
      → client host ≡ some (ok tt)
      → (resp : RegisterSeverResp) × (register_node api client own c g
          ≡ some
              (ok resp, set_master_addr host (set_is_master false c), (api.register_sever own g).1))
        × (resp.leader_id ≡ id)
  unfolding register_node
  register_node-follower client own id host c g k j =
      let (k2, resp, e, h, i) = api.register-Leads host id own g k in
      let (n, p) = api.leads_known host id g k in
      (
        resp,
        ap (λ r. checked api client c (r, (api.register_sever own g).1)) e
            ∙ ap some (
                use_resp-follower client resp c (api.register_sever own g).1 (λ x. n (sym h ∙ x))
                  (ground (arith, p, i)) (ap client h ∙ j))
            ∙ ap
                (λ x. some (
                  ok resp,
                  set_master_addr x (set_is_master false c),
                  (api.register_sever own g).1,
                ))
                h,
        i,
      )

  pub take_registered-joined :
      (s : Server) (resp : RegisterSeverResp) (c : Config) (g : api.State) (id : ℤ)
      → resp.leader_id ≡ id
      → pos 0 <ℤ id
      → take_registered api s (ok resp, c, g)
        ≡ (ok tt, joined_server resp.sever_host_sever c s, g, some id)
  take_registered-joined s resp c g id i p =
      if-true (ltb_ℤ (pos 0) resp.leader_id)
        (ok tt, joined_server resp.sever_host_sever c s, g, some resp.leader_id)
        (ok tt, record s { config = some c }, g, none) (ground (arith, i, p))
      ∙ ap (λ x. (ok tt, joined_server resp.sever_host_sever c s, g, some x)) i

  pub join_cluster-follower :
      (client : JoinClient) (id : ℤ) (host : Str) (c : Config) (s : Server) (g : api.State)
      → s.has_joined_cluster ≡ false
      → s.is_init ≡ true
      → s.config ≡ some c
      → api.Leads host id g
      → client host ≡ some (ok tt)
      → (hosts : List Str) × (join_cluster api client s g
          ≡ some (
            ok tt,
            joined_server hosts (follower_of host c) s,
            (api.register_sever s.raft.node_id g).1,
            some id,
          ))
  unfolding join_cluster
  join_cluster-follower client id host c s g a b e k j =
      let with_config = join_with api client s.config s g in
      let ready : Option (Joined api) =
        if not s.is_init then some (err not_initialized, s, g, none) else with_config in
      let (resp, r, i) = register_node-follower client s.raft.node_id id host c g k j in
      (
        resp.sever_host_sever,
        if-false s.has_joined_cluster (some (ok tt, s, g, none)) ready a
            ∙ if-false (not s.is_init) (some (err not_initialized, s, g, none)) with_config
                (ground (arith, b))
            ∙ ap (λ x. join_with api client x s g) e
            ∙ ap (Option.map (take_registered api s)) r
            ∙ ap some (
                take_registered-joined s resp (follower_of host c)
                  (api.register_sever s.raft.node_id g).1 id i (api.leads_known host id g k).1),
      )
