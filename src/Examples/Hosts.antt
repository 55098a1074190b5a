-- ===== src/Examples/Hosts.antt =====
-- Examples for the host lists of the gateway and the leader (ddbr-gateway/repo,
-- ddbr-server/service).
use ddbr.Common.{◌≡◌, ◌≢◌, refl, ◌⊎◌, Bool, true, false, List, [], ◌∷◌, Option, none, some, arith}
use ddbr.Common.Eq.{bytes, str_Eq, str_eq}
use ddbr.Common.Int.{pos}
use ddbr.Common.Result.{err}
use ddbr.Hosts.{contains, Distinct}
use ddbr.Gateway
use ddbr.Gateway.{
  Registry, RangeOrder, Call, register, lead, leader_exists, set_leader, handle_calls,
}
use ddbr.Gateway.Leader.{WellFormed, handle_calls-WellFormed, handle_calls-leader}
use ddbr.Membership.{Cluster, heart_beat}
use ddbr.Membership.Peers.{heart_beat-peers}

abbrev in_order : RangeOrder
in_order d = d

abbrev calls : List Call
calls = register (bytes "a") (pos 1) ∷ lead (bytes "a") ∷ register (bytes "a") (pos 2) ∷ []

new-WellFormed : WellFormed Gateway.new
unfolding ddbr.Common.Dict.lookup
new-WellFormed = record { distinct = tt; listed = λ id host g. absurd (ground (arith, g)) }

handle_calls-WellFormed_example : WellFormed (handle_calls in_order calls Gateway.new)
handle_calls-WellFormed_example = handle_calls-WellFormed in_order calls Gateway.new new-WellFormed

abbrev led : Registry
led = record Gateway.new { leader_host = bytes "a"; leader_id = pos 1; sever_leader_id = pos 1 }

handle_calls-leader_example :
    let s = handle_calls in_order calls led in
    (s.leader_host ≡ bytes "a")
    × (s.leader_id ≡ pos 1)
    × ((set_leader in_order (bytes "b") s).0 ≡ err (leader_exists (bytes "a")))
handle_calls-leader_example =
    handle_calls-leader in_order calls led (bytes "b") ((λ e. cc), omega arith)

abbrev cluster : Cluster
cluster = record {
  metadata = record { gateway_host = []; server_host = bytes "a" ∷ [] };
  peers = [];
}

heart_beat-peers_example :
    let (peers, c) = heart_beat (bytes "l") (some (bytes "b")) cluster in
    Distinct peers
    × (contains peers (bytes "l") ≡ true)
    × (contains peers (bytes "b") ≡ true)
    × Distinct c.metadata.server_host
    × (c ≡ record {
      metadata = record cluster.metadata { server_host = bytes "a" ∷ bytes "b" ∷ [] };
      peers = peers;
    })
unfolding contains str_eq
heart_beat-peers_example =
    heart_beat-peers (bytes "l") (bytes "b") cluster (λ e. cc) (λ e. cc) (refl, tt)
