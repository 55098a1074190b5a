-- ===== src/Membership.antt =====
-- The leader's list of the cluster's hosts (ddbr-server/repo/meta_data.go) and the calls that
-- change it (ddbr-server/service/heart_service.go).
pub mod Peers
use ddbr.Common.{
  Bool, true, false, not, ◌&&◌, List, [], ◌∷◌, ◌++◌, Option, none, some, if◌then◌else◌,
}
use ddbr.Common.Eq.{Str, ◌==◌, str_Eq}
use ddbr.Hosts.{contains, add_host}

pub record MetaData : Type 0 where
  pub gateway_host : Str
  pub server_host : List Str

-- The global metadata, and RaftState's Peers.
pub record Cluster : Type 0 where
  pub metadata : MetaData
  pub peers : List Str

unfoldable pub add_server_host : Str → MetaData → MetaData
unfolding add_host
add_server_host host data_now = record data_now { server_host = add_host host data_now.server_host }

-- A host that is not empty and not in the list yet goes to its end.
unfoldable pub include : Str → List Str → List Str
unfolding contains
include host hosts =
    if not (host == []) && not (contains hosts host) then hosts ++ host ∷ [] else hosts

abbrev or_empty : Option Str → Str
or_empty none = []
or_empty (some host) = host

-- HeartBeat of the leader at `local_host`; `remote` is none where the remote address is not known.
-- The reply's peers, and the state.
unfoldable pub heart_beat : Str → Option Str → Cluster → List Str × Cluster
unfolding include add_server_host contains
heart_beat local_host remote c =
    let host = or_empty remote in
    let known = include local_host c.metadata.server_host in
    let peers = include host known in
    if not (host == []) && not (contains known host)
    then (peers, record { metadata = add_server_host host c.metadata; peers = peers })
    else (known, c)

-- JoinCluster: none is its error.
unfoldable pub join_cluster : Option Str → Cluster → Option (Unit {0}) × Cluster
unfolding add_server_host
join_cluster none c = (none, c)
join_cluster (some host) c =
    let data_now = add_server_host host c.metadata in
    (some tt, record { metadata = data_now; peers = data_now.server_host })
