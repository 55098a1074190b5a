-- ===== src/Election/Heartbeats/Own.antt =====
-- A leader whose peers include itself (ddbr-server/infra/raft_state_machine.go): updateClusterInfo
-- takes every host that the gateway knows.
use ddbr.Common.{
  ℕ, ◌≡◌, ◌≢◌, ◌⊎◌, inl, inr, refl, ap, ◌∙◌, true, List, [], ◌∷◌, map, arith, Bool-cases,
}
use ddbr.Common.Eq.{Str, ◌==◌, str_Eq, str_eq_iff}
use ddbr.Rpc.{AppendEntriesReq}
use ddbr.Hosts
use ddbr.Election.{RaftStateMachine, follower}
use ddbr.Election.Append.{UnmarshalEntry, append_entries, reply}
use ddbr.Election.Loop.{step, next_event}
use ddbr.Election.Update.{update_cluster_info, with_port}
use ddbr.Election.Heartbeats.{heartbeat_request, send_heartbeats, request_to}

-- The request goes to that address.
abbrev pub IsSent : Str → AppendEntriesReq → List (Str × AppendEntriesReq) → Type 0
IsSent address req [] = ⊥
IsSent address req ((a, r) ∷ sent) = ((a ≡ address) × (r ≡ req)) ⊎ IsSent address req sent

with_port-not_empty : (host : Str) → with_port host ≢ []
unfolding with_port
with_port-not_empty [] e = ground (arith, e)
with_port-not_empty (c ∷ host) e = ground (arith, e)

contains-with_port :
    (hosts : List Str) (host : Str)
    → Hosts.contains hosts host ≡ true
    → Hosts.contains (map with_port hosts) (with_port host) ≡ true
unfolding Hosts.contains
contains-with_port [] host h = h
contains-with_port (x ∷ hosts) host h = elim (Bool-cases (x == host)) [
  | inl t ↦
      let same : with_port x ≡ with_port host = ap with_port ((str_eq_iff x host).0 t) in
      ground (arith, (str_eq_iff (with_port x) (with_port host)).1 same)
  | inr n ↦ ground (arith, contains-with_port hosts host (ground (arith, h, n)))
]

IsSent-request_to :
    (address : Str) (req : AppendEntriesReq) (peers : List Str)
    → address ≢ []
    → Hosts.contains peers address ≡ true
    → IsSent address req (request_to req peers)
unfolding Hosts.contains
IsSent-request_to address req [] n h = absurd (ground (arith, h))
IsSent-request_to address req ([] ∷ peers) n h =
    IsSent-request_to address req peers n (ground (arith, h, n, str_eq_iff [] address))
IsSent-request_to address req ((c ∷ peer) ∷ peers) n h = elim (Bool-cases ((c ∷ peer) == address)) [
  | inl t ↦ inl ((str_eq_iff (c ∷ peer) address).0 t, refl)
  | inr f ↦ inr (IsSent-request_to address req peers n (ground (arith, h, f)))
]

update_cluster_info-IsSent :
    (hosts : List Str) (host : Str) (l : RaftStateMachine)
    → Hosts.contains hosts host ≡ true
    → let l' = update_cluster_info hosts l in
      IsSent (with_port host) (heartbeat_request l') (send_heartbeats l')
unfolding update_cluster_info send_heartbeats Hosts.contains
update_cluster_info-IsSent [] host l h = absurd (ground (arith, h))
update_cluster_info-IsSent (x ∷ hosts) host l h =
    let l' = update_cluster_info (x ∷ hosts) l in
    IsSent-request_to (with_port host) (heartbeat_request l') (map with_port (x ∷ hosts))
      (with_port-not_empty host) (contains-with_port (x ∷ hosts) host h)

update_cluster_info-keeps :
    (hosts : List Str) (l : RaftStateMachine)
    → let l' = update_cluster_info hosts l in
      (l'.current_term ≡ l.current_term) × (l'.is_master ≡ l.is_master) × (l'.events ≡ l.events)
unfolding update_cluster_info
update_cluster_info-keeps [] l = (refl, refl, refl)
update_cluster_info-keeps (x ∷ hosts) l = (refl, refl, refl)

-- A node that takes its own heartbeat
heartbeat_request-own :
    (u : UnmarshalEntry) (now later : ℕ) (l : RaftStateMachine)
    → l.events ≡ []
    → let (r, l') = append_entries u now (heartbeat_request l) l in
      let t = (step u (next_event later) l').1 in
      (r ≡ reply true l.current_term)
      × (t.state ≡ follower)
      × (t.current_term ≡ l.current_term)
      × (t.is_master ≡ l.is_master)
unfolding step heartbeat_request
heartbeat_request-own u now later l q = ground (arith, q)

-- When a node with an empty queue, a leader too, takes its peers from the gateway and its own host
-- is in the answer, its heartbeats go to its own address too; and once its AppendEntries has
-- answered such a heartbeat, with success, and the loop has taken the event, it is a follower of
-- the same term whose IsMaster flag is as it was.
pub own_heartbeat-follower :
    (u : UnmarshalEntry) (now later : ℕ) (hosts : List Str) (host : Str) (l : RaftStateMachine)
    → Hosts.contains hosts host ≡ true
    → l.events ≡ []
    → let l' = update_cluster_info hosts l in
      let req = heartbeat_request l' in
      let (r, l'') = append_entries u now req l' in
      let t = (step u (next_event later) l'').1 in
      IsSent (with_port host) req (send_heartbeats l')
      × (r ≡ reply true l.current_term)
      × (t.state ≡ follower)
      × (t.current_term ≡ l.current_term)
      × (t.is_master ≡ l.is_master)
own_heartbeat-follower u now later hosts host l h q =
    let l' = update_cluster_info hosts l in
    let (term, flag, queue) = update_cluster_info-keeps hosts l in
    let (r, s, t, m) = heartbeat_request-own u now later l' (queue ∙ q) in
    (update_cluster_info-IsSent hosts host l h, r ∙ ap (reply true) term, s, t ∙ term, m ∙ flag)
