-- ===== src/Gateway/Leader.antt =====
-- Who the gateway takes for the leader (ddbr-gateway/service/gateway_service.go).
use ddbr.Common.{
  ◌≡◌, ◌≢◌, refl, sym, ap, ◌∙◌, ◌⊎◌, inl, inr, true, false, List, [], ◌∷◌, some, arith,
  if◌then◌else◌, Bool-cases,
}
use ddbr.Common.Eq.{Str, ◌==◌, str_Eq, int_Eq, str_eq_iff}
use ddbr.Common.Int.{ℤ, pos, ◌<ℤ◌}
use ddbr.Common.Dict.{lookup, lookup-insert}
use ddbr.Common.Result.{err}
use ddbr.Hosts.{contains, add_host, Distinct, add_host-Distinct, contains-add_host}
use ddbr.Gateway.{
  Registry, RangeOrder, Call, register, lead, leader_exists, add_sever, learn_leader_id, learn_node,
  set_leader, handle_call, handle_calls,
}

-- No host stands twice in the list, and the node map leads to hosts of the list.
pub record WellFormed (r : Registry) : Type 0 where
  pub distinct : Distinct r.sever_list
  pub listed :
      (id : ℤ) (host : Str) → lookup id r.node_map ≡ some host → contains r.sever_list host ≡ true

-- What the two changes of the leader's id leave alone.
learn_leader_id-lists :
    (host : Str) (id : ℤ) (r : Registry)
    → ((learn_leader_id host id r).sever_list ≡ r.sever_list)
      × ((learn_leader_id host id r).node_map ≡ r.node_map)
unfolding learn_leader_id
learn_leader_id-lists host id r = ground arith

learn_node-lists :
    (host : Str) (nodes : List (ℤ × Str)) (r : Registry)
    → ((learn_node host nodes r).sever_list ≡ r.sever_list)
      × ((learn_node host nodes r).node_map ≡ r.node_map)
unfolding learn_node
learn_node-lists host [] r = (refl, refl)
learn_node-lists host ((i, h) ∷ nodes) r = ground (arith, learn_node-lists host nodes r)

WellFormed-same :
    (r s : Registry)
    → s.sever_list ≡ r.sever_list
    → s.node_map ≡ r.node_map
    → WellFormed r
    → WellFormed s
WellFormed-same r s l m w = record {
  distinct = rw l w.distinct;
  listed = λ id host g.
      ap (λ hosts. contains hosts host) l ∙ w.listed id host (ap (lookup id) (sym m) ∙ g);
}

add_sever-WellFormed :
    (host : Str) (id : ℤ) (r : Registry) → WellFormed r → WellFormed (add_sever host id r)
unfolding add_sever
add_sever-WellFormed host id r w = record {
  distinct = add_host-Distinct host r.sever_list w.distinct;
  listed =
      λ i h g. listed_add i h (sym (lookup-insert id i host r.node_map) ∙ g) (Bool-cases (id == i));
}
  where
    listed_add :
        (i : ℤ) (h : Str)
        → (if id == i then some host else lookup i r.node_map) ≡ some h
        → ((id == i) ≡ true) ⊎ ((id == i) ≡ false)
        → contains (add_host host r.sever_list) h ≡ true
    listed_add i h g (inl t) =
        let same : host ≡ h = ground (arith, g, t) in
        contains-add_host host h r.sever_list ∙ ground (arith, same, str_eq_iff host h)
    listed_add i h g (inr f) =
        let old = w.listed i h (ground (arith, g, f)) in
        contains-add_host host h r.sever_list ∙ ground (arith, old)

set_leader-lists :
    (order : RangeOrder) (host : Str) (r : Registry)
    → ((set_leader order host r).1.sever_list ≡ r.sever_list)
      × ((set_leader order host r).1.node_map ≡ r.node_map)
unfolding set_leader
set_leader-lists order host r =
    ground (arith, learn_node-lists host (order r.node_map) (record r { leader_host = host }))

handle_call-WellFormed :
    (order : RangeOrder) (c : Call) (r : Registry)
    → WellFormed r
    → WellFormed (handle_call order c r)
unfolding handle_call
handle_call-WellFormed order (register host id) r w =
    let a = add_sever host id r in
    let l = learn_leader_id-lists host id a in
    WellFormed-same a (learn_leader_id host id a) l.0 l.1 (add_sever-WellFormed host id r w)
handle_call-WellFormed order (lead host) r w =
    let l = set_leader-lists order host r in WellFormed-same r (set_leader order host r).1 l.0 l.1 w

-- If no host stands twice in the list and every node that the map knows has its host in the list,
-- then so it is after any calls.
pub handle_calls-WellFormed :
    (order : RangeOrder) (cs : List Call) (r : Registry)
    → WellFormed r
    → WellFormed (handle_calls order cs r)
unfolding handle_calls
handle_calls-WellFormed order [] r w = w
handle_calls-WellFormed order (c ∷ cs) r w =
    handle_calls-WellFormed order cs (handle_call order c r) (handle_call-WellFormed order c r w)

-- A leader is known by its host and by its id.
abbrev pub Known : Registry → Type 0
Known r = (r.leader_host ≢ []) × (pos 0 <ℤ r.leader_id)

handle_call-leader :
    (order : RangeOrder) (c : Call) (r : Registry)
    → Known r
    → let s = handle_call order c r in (s.leader_host ≡ r.leader_host) × (s.leader_id ≡ r.leader_id)
unfolding handle_call
handle_call-leader order (register host id) r k = ground arith
handle_call-leader order (lead host) r k = ground (arith, str_eq_iff r.leader_host [])

-- Once the gateway knows a leader by host and id, no call changes either any more: a leader that is
-- elected later is refused.
pub handle_calls-leader :
    (order : RangeOrder) (cs : List Call) (r : Registry) (host : Str)
    → Known r
    → let s = handle_calls order cs r in
      (s.leader_host ≡ r.leader_host)
      × (s.leader_id ≡ r.leader_id)
      × ((set_leader order host s).0 ≡ err (leader_exists r.leader_host))
unfolding handle_calls set_leader
handle_calls-leader order [] r host k = (refl, refl, ground (arith, str_eq_iff r.leader_host []))
handle_calls-leader order (c ∷ cs) r host k =
    let (a, b) = handle_call-leader order c r k in
    let (x, y, z) =
      handle_calls-leader order cs (handle_call order c r) host (ground (arith, a, b)) in
    (x ∙ a, y ∙ b, z ∙ ap (λ h. err (leader_exists h)) a)
