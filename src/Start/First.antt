-- ===== src/Start/First.antt =====
-- The first leader of a cluster (ddbr-server/infra/init_manager.go with
-- ddbr-gateway/service/gateway_service.go).
use mathlib.Core.Option
use ddbr.Common.{
  if-true, if-false, ◌≡◌, ◌≢◌, refl, ap, ◌∙◌, true, false, not, ◌&&◌, List, [], ◌∷◌, none, some,
  arith,
}
use ddbr.Common.Eq.{Str, str_Eq, str_eq, str_eq_iff, ◌==◌}
use ddbr.Common.Int.{ℤ, pos, negsuc, ◌<ℤ◌}
use ddbr.Common.Result.{ok}
use ddbr.Config.{Config, UnmarshalConfig, with_defaults, id_or, set_is_master, set_master_addr}
use ddbr.Kv.Command.{Unmarshal}
use ddbr.RaftState.Config.{given_or}
use ddbr.Recovery.{UnmarshalState}
use ddbr.Gateway.{Registry, RegisterSeverResp, RangeOrder, SetLeaderError}
use ddbr.Gateway
use ddbr.Hosts.{add_host, contains}
use ddbr.Common.Dict.{insert}
use ddbr.Gateway.Api.{with_text, called_from, Leads}
use ddbr.Start.{Server, Files}
use ddbr.Start.Join.{
  JoinClient, initialize_resources, join_with, use_resp, join_leader, join_result, after_set_leader,
  take_registered, ignore_error, checked, register_node,
}
use ddbr.Start.Down.{initialize_resources-loaded}

-- The registry that the first leader leaves.
abbrev led_by : Str → ℤ → Registry
led_by host id = record Gateway.new {
  sever_list = host ∷ [];
  node_map = (id, host) ∷ [];
  leader_host = host;
  leader_id = id;
  sever_leader_id = id;
}

-- The answer to the first registration
abbrev first_resp : Str → RegisterSeverResp
first_resp host = record { leader_host = []; leader_id = negsuc 0; sever_host_sever = host ∷ [] }

abbrev registered : Str → ℤ → Registry
registered host id = record Gateway.new { sever_list = host ∷ []; node_map = (id, host) ∷ [] }

register_sever-first :
    (host : Str) (id : ℤ)
    → Gateway.register_sever host id Gateway.new ≡ (first_resp host, registered host id)
unfolding Gateway.register_sever Gateway.add_sever Gateway.learn_leader_id add_host contains insert
    str_eq
register_sever-first host id = refl

learn_node-first :
    (host : Str) (id : ℤ) (r : Registry)
    → Gateway.learn_node host ((id, host) ∷ []) r ≡ Gateway.set_leader_id id r
unfolding Gateway.learn_node
learn_node-first host id r =
    if-true (host == host) (Gateway.set_leader_id id r) r (ground (arith, str_eq_iff host host))

set_leader-first :
    (order : RangeOrder) (host : Str) (id : ℤ)
    → order ((id, host) ∷ []) ≡ (id, host) ∷ []
    → Gateway.set_leader order host (registered host id) ≡ (ok host, led_by host id)
unfolding Gateway.set_leader str_eq
set_leader-first order host id o =
    let r = record (registered host id) { leader_host = host } in
    ap (λ (nodes : List (ℤ × Str)). (ok host, Gateway.learn_node host nodes r)) o
    ∙ ap (λ (x : Registry). (ok host, x)) (learn_node-first host id r)

use_resp-first :
    (order : RangeOrder) (error_text : SetLeaderError → Str) (host : Str) (id : ℤ)
    (client : JoinClient) (d : Config)
    → d.is_master ≡ true
    → order ((id, host) ∷ []) ≡ (id, host) ∷ []
    → let api = called_from order error_text host in
      use_resp api client (first_resp host) d (registered host id)
      ≡ (ok (first_resp host), d, led_by host id)
unfolding use_resp join_leader
use_resp-first order error_text host id client d m o =
    let api = called_from order error_text host in
    let joined = join_leader api client (first_resp host) d (registered host id) in
    let led =
      after_set_leader api client (first_resp host) d
        (with_text error_text (Gateway.set_leader order host (registered host id))) in
    if-false (not d.is_master) joined led (ground (arith, m))
    ∙ ap (λ x. after_set_leader api client (first_resp host) d (with_text error_text x))
        (set_leader-first order host id o)
    ∙ if-false (not d.is_master && not (let x : Str = [] in x == []))
        (join_result (client []) (first_resp host), set_master_addr [] d, led_by host id)
        (ok (first_resp host), d, led_by host id) (ground (arith, m))

register_node-first :
    (order : RangeOrder) (error_text : SetLeaderError → Str) (host : Str) (id : ℤ)
    (client : JoinClient) (d : Config)
    → d.is_master ≡ true
    → order ((id, host) ∷ []) ≡ (id, host) ∷ []
    → register_node (called_from order error_text host) client id d Gateway.new
      ≡ some (ok (first_resp host), d, led_by host id)
unfolding register_node
register_node-first order error_text host id client d m o =
    let api = called_from order error_text host in
    ap (λ (x : RegisterSeverResp × Registry). checked api client d (ok x.0, x.1))
      (register_sever-first host id)
    ∙ ap some (use_resp-first order error_text host id client d m o)

-- A new server whose host and configured id (above 0) are the first that a new gateway sees,
-- started with the flag -master and with its configuration file and data directory in order, stays
-- the leader, joins no cluster, and is the leader that the gateway then knows, by host and by id.
-- Ranging over a map of one node gives that node.
pub initialize_resources-first_master :
    (u : Unmarshal) (v : UnmarshalState) (w : UnmarshalConfig) (fresh : ℤ) (files : Files)
    (client : JoinClient) (path : Str) (s : Server) (text : Str) (c : Config) (order : RangeOrder)
    (error_text : SetLeaderError → Str) (host : Str) (id : ℤ)
    → path ≢ []
    → files.config_file ≡ some text
    → w text ≡ ok c
    → files.made ≡ true
    → s.has_joined_cluster ≡ false
    → host ≢ []
    → pos 0 <ℤ id
    → c.node_id ≡ some id
    → order ((id, host) ∷ []) ≡ (id, host) ∷ []
    → let api = called_from order error_text host in
      (t : Server) × (g : Registry) × (initialize_resources api u v w fresh files client path true s
          Gateway.new
        ≡ some (ok tt, t, g, none))
      × (t.config ≡ some (set_is_master true (with_defaults fresh c)))
      × Leads host id g
unfolding with_defaults
initialize_resources-first_master u v w fresh files client path s text c order error_text host id a
      b e f h n p i o =
    let api = called_from order error_text host in
    let d = set_is_master true (with_defaults fresh c) in
    let (t, q, conf, own) =
      initialize_resources-loaded u v w fresh files client path s text c a b e f h api true
        Gateway.new in
    let same : t.raft.node_id ≡ id = own ∙ ap (λ x. given_or s.raft.node_id (id_or fresh x)) i in
    (
      record t { config = some d },
      led_by host id,
      q
          ∙ ap (λ x. Option.map (ignore_error api) (join_with api client x t Gateway.new)) conf
          ∙ ap
              (λ x.
                Option.map (ignore_error api)
                  (Option.map (take_registered api t) (register_node api client x d Gateway.new)))
              same
          ∙ ap (λ x. Option.map (ignore_error api) (Option.map (take_registered api t) x))
              (register_node-first order error_text host id client d refl o),
      refl,
      (n, p, refl, refl),
    )
