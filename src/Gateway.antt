-- ===== src/Gateway.antt =====
-- The gateway's registry of servers (ddbr-gateway/repo/sever_repo.go, gateway_repo.go) and the
-- handlers that change it (ddbr-gateway/service/gateway_service.go).
pub mod Leader
pub mod Api
pub mod Pool
pub mod Handler
pub mod Start
use ddbr.Common.{
  Bool, true, false, not, ◌&&◌, List, [], ◌∷◌, ◌++◌, Option, none, some, if◌then◌else◌,
}
use ddbr.Common.Eq.{Str, ◌==◌, str_Eq, int_Eq}
use ddbr.Common.Int.{ℤ, pos, negsuc, ltb_ℤ, leb_ℤ}
use ddbr.Common.Dict.{Dict, insert}
use ddbr.Common.Result.{Result, ok, err}
use ddbr.Hosts.{add_host}

-- The variable `info` of the server repository, and the gateway repository's two fields.
pub record Registry : Type 0 where
  pub sever_list : List Str
  pub leader_host : Str
  pub node_map : Dict ℤ Str
  pub sever_leader_id : ℤ
  pub master_host : Str
  pub leader_id : ℤ

abbrev pub new : Registry
new = record {
  sever_list = [];
  leader_host = [];
  node_map = [];
  sever_leader_id = negsuc 0;
  master_host = [];
  leader_id = negsuc 0;
}

-- AddSever
unfoldable pub add_sever : Str → ℤ → Registry → Registry
unfolding add_host
add_sever host node_id r = record r {
  sever_list = add_host host r.sever_list;
  node_map = insert node_id host r.node_map;
}

-- The gateway repository's SetLeaderId, which sets the server repository's too.
abbrev pub set_leader_id : ℤ → Registry → Registry
set_leader_id node_id r = record r { leader_id = node_id; sever_leader_id = node_id }

pub record RegisterSeverResp : Type 0 where
  pub leader_host : Str
  pub leader_id : ℤ
  pub sever_host_sever : List Str

-- The leader's id is learnt from a server whose host is the gateway repository's MasterHost.
unfoldable pub learn_leader_id : Str → ℤ → Registry → Registry
learn_leader_id host node_id r =
    if leb_ℤ r.leader_id (pos 0) && (not (r.master_host == []) && r.master_host == host)
    then set_leader_id node_id r
    else r

-- RegisterSever of a server at `host`, the remote end of the connection
unfoldable pub register_sever : Str → ℤ → Registry → RegisterSeverResp × Registry
unfolding add_sever learn_leader_id
register_sever host node_id r =
    let r' = learn_leader_id host node_id (add_sever host node_id r) in
    (
      record {
        leader_host = r'.leader_host;
        leader_id = r'.leader_id;
        sever_host_sever = r'.sever_list;
      },
      r',
    )

-- The first node with that host, in the order in which the map is ranged over.
unfoldable pub learn_node : Str → List (ℤ × Str) → Registry → Registry
learn_node host [] r = r
learn_node host ((node_id, node_host) ∷ rest) r =
    let later = learn_node host rest r in
    if node_host == host then set_leader_id node_id r else later

pub data SetLeaderError : Type 0 where
  leader_exists : Str → SetLeaderError

-- The order in which Go ranges over the node map, which it does not fix.
abbrev pub RangeOrder : Type 0
RangeOrder = Dict ℤ Str → List (ℤ × Str)

-- SetLeader by a server at `host`: the reply's MasterHost, or the error with it.
unfoldable pub set_leader : RangeOrder → Str → Registry → Result SetLeaderError Str × Registry
unfolding learn_node
set_leader order host r =
    if not (r.leader_host == []) && ltb_ℤ (pos 0) r.leader_id
    then (err (leader_exists r.leader_host), r)
    else (ok host, learn_node host (order r.node_map) (record r { leader_host = host }))

-- The calls of the servers.
pub data Call : Type 0 where
  register : Str → ℤ → Call
  lead : Str → Call

unfoldable pub handle_call : RangeOrder → Call → Registry → Registry
unfolding register_sever set_leader
handle_call order (register host node_id) r = (register_sever host node_id r).1
handle_call order (lead host) r = (set_leader order host r).1

unfoldable pub handle_calls : RangeOrder → List Call → Registry → Registry
unfolding handle_call
handle_calls order [] r = r
handle_calls order (c ∷ cs) r = handle_calls order cs (handle_call order c r)
