-- ===== src/Membership/Peers.antt =====
-- Which hosts HeartBeat and JoinCluster make peers (ddbr-server/service/heart_service.go).
use ddbr.Common.{
  ◌≡◌, ◌≢◌, refl, ◌∙◌, ◌⊎◌, inl, inr, Bool, not, ◌&&◌, ◌||◌, Bool-cases, if-true, if-false,
  if◌then◌else◌, true, false, List, [], ◌∷◌, ◌++◌, some, arith,
}
use ddbr.Common.Eq.{◌==◌, Str, str_Eq, str_eq_iff}
use ddbr.Hosts.{
  add_host, contains, Distinct, contains-append, Distinct-append, add_host-Distinct,
  contains-add_host,
}
use ddbr.Membership.{Cluster, add_server_host, include, heart_beat, join_cluster}

include-cases :
    (host : Str) (hosts : List Str)
    → (include host hosts ≡ hosts)
      ⊎ ((include host hosts ≡ hosts ++ host ∷ []) × (contains hosts host ≡ false))
unfolding include
include-cases host hosts = ground arith

include-Distinct : (host : Str) (hosts : List Str) → Distinct hosts → Distinct (include host hosts)
include-Distinct host hosts d = elim (include-cases host hosts) [
  | inl same ↦ rw same d
  | inr (more, new) ↦ rw more (Distinct-append hosts host new d)
]

contains-include :
    (host : Str) (hosts : List Str) → host ≢ [] → contains (include host hosts) host ≡ true
unfolding include
contains-include host hosts n =
    ground (arith, str_eq_iff host [], str_eq_iff host host, contains-append hosts host host)

contains-include_old :
    (host item : Str) (hosts : List Str)
    → contains hosts item ≡ true
    → contains (include host hosts) item ≡ true
unfolding include
contains-include_old host item hosts h = ground (arith, contains-append hosts host item)

-- The caller is new: it is neither stored nor the leader itself.
abbrev is_new : Str → Str → List Str → Bool
is_new local_host host hosts = not (contains hosts host) && not (local_host == host)

contains-include_both :
    (local_host host : Str) (hosts : List Str)
    → local_host ≢ []
    → contains (include local_host hosts) host ≡ (contains hosts host || local_host == host)
unfolding include
contains-include_both local_host host hosts l = ground (
  arith,
  str_eq_iff local_host [],
  str_eq_iff local_host host,
  contains-append hosts local_host host,
)

include-append :
    (host : Str) (hosts : List Str)
    → host ≢ []
    → contains hosts host ≡ false
    → include host hosts ≡ hosts ++ host ∷ []
unfolding include
include-append host hosts n e = ground (arith, e, str_eq_iff host [])

add_host-append :
    (host : Str) (hosts : List Str)
    → contains hosts host ≡ false
    → add_host host hosts ≡ hosts ++ host ∷ []
unfolding add_host
add_host-append host hosts e = rw e refl

abbrev joined : Str → List Str → Cluster → List Str × Cluster
joined host known c = (
  known ++ host ∷ [],
  record {
    metadata = record c.metadata { server_host = c.metadata.server_host ++ host ∷ [] };
    peers = known ++ host ∷ [];
  },
)

heart_beat-joined :
    (local_host host : Str) (c : Cluster)
    → host ≢ []
    → contains c.metadata.server_host host ≡ false
    → contains (include local_host c.metadata.server_host) host ≡ false
    → heart_beat local_host (some host) c
      ≡ joined host (include local_host c.metadata.server_host) c
unfolding heart_beat add_server_host
heart_beat-joined local_host host c h unstored fresh =
    let known = include local_host c.metadata.server_host in
    let p = include-append host known h fresh in
    let q = add_host-append host c.metadata.server_host unstored in
    let t : (not (host == []) && not (contains known host)) ≡ true =
      ground (arith, fresh, str_eq_iff host []) in
    if-true (not (host == []) && not (contains known host)) _ _ t ∙ λ i.
    (p i, record { metadata = record c.metadata { server_host = q i }; peers = p i })

heart_beat-same :
    (local_host host : Str) (c : Cluster)
    → contains (include local_host c.metadata.server_host) host ≡ true
    → heart_beat local_host (some host) c ≡ (include local_host c.metadata.server_host, c)
unfolding heart_beat
heart_beat-same local_host host c old =
    let known = include local_host c.metadata.server_host in
    let t : (not (host == []) && not (contains known host)) ≡ false = ground (arith, old) in
    if-false (not (host == []) && not (contains known host)) _ _ t

-- The answer to a heartbeat names the leader and the caller, each host once. If the caller is
-- neither stored nor the leader itself, it goes to the end of the stored list, and the hosts of the
-- answer, the leader itself among them, become the peers; else nothing changes. The stored list has
-- no repetition before, nor has it after, and neither host is empty.
pub heart_beat-peers :
    (local_host host : Str) (c : Cluster)
    → local_host ≢ []
    → host ≢ []
    → Distinct c.metadata.server_host
    → let (peers, c') = heart_beat local_host (some host) c in
      let hosts = c.metadata.server_host in
      Distinct peers
      × (contains peers local_host ≡ true)
      × (contains peers host ≡ true)
      × Distinct c'.metadata.server_host
      × (c' ≡ (
          if not (contains hosts host) && not (local_host == host)
          then record {
            metadata = record c.metadata { server_host = hosts ++ host ∷ [] };
            peers = peers;
          }
          else c))
heart_beat-peers local_host host c l h d =
    let hosts = c.metadata.server_host in
    let known = include local_host hosts in
    let all = include-Distinct local_host hosts d in
    let has_local = contains-include local_host hosts l in
    let both = contains-include_both local_host host hosts l in
    elim (Bool-cases (is_new local_host host hosts)) [
      | inl new ↦
          let fresh : contains known host ≡ false = both ∙ ground (arith, new) in
          let unstored : contains hosts host ≡ false = ground (arith, new) in
          rw (heart_beat-joined local_host host c h unstored fresh, new)
            (
              Distinct-append known host fresh all,
              contains-append known host local_host ∙ ground (arith, has_local),
              contains-append known host host ∙ ground (arith, str_eq_iff host host),
              Distinct-append hosts host unstored d,
              refl,
            )
      | inr old ↦
          let same : contains known host ≡ true = both ∙ ground (arith, old) in
          rw (heart_beat-same local_host host c same, old) (all, has_local, same, d, refl)
    ]

-- After JoinCluster the caller is a peer, the peers are the stored hosts, and none of them stands
-- twice.
pub join_cluster-peers :
    (host : Str) (c : Cluster)
    → Distinct c.metadata.server_host
    → let c' = (join_cluster (some host) c).1 in
      (contains c'.peers host ≡ true) × (c'.peers ≡ c'.metadata.server_host) × Distinct c'.peers
unfolding join_cluster
join_cluster-peers host c d = (
  contains-add_host host host c.metadata.server_host ∙ ground (arith, str_eq_iff host host),
  refl,
  add_host-Distinct host c.metadata.server_host d,
)
