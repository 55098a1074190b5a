-- ===== src/Gateway/Api.antt =====
-- The gateway as a server calls it (ddbr-gateway/handler.go): its calls on any state that it keeps,
-- and the registry's handlers as one such gateway.
use ddbr.Common.{◌≡◌, ◌≢◌, refl, [], arith}
use ddbr.Common.Eq.{Str, str_Eq}
use ddbr.Common.Int.{ℤ, pos, ◌<ℤ◌}
use ddbr.Common.Result.{Result, ok, err}
use ddbr.Gateway.{
  Registry, RegisterSeverResp, RangeOrder, SetLeaderError, register_sever, set_leader,
}

-- The state's type, the calls, whose errors are texts, and what is promised of a known leader: it
-- is reported to each server that registers, and no other takes its place.
pub record GatewayApi : Type 1 where
  pub State : Type 0
  pub register_sever : ℤ → State → Result Str RegisterSeverResp × State
  pub set_leader : State → Result Str Str × State
  pub Leads : Str → ℤ → State → Type 0
  pub leads_known :
      (host : Str) (id : ℤ) (g : State) → Leads host id g → (host ≢ []) × (pos 0 <ℤ id)
  pub register-Leads :
      (host : Str) (id own : ℤ) (g : State)
      → Leads host id g
      → Leads host id (register_sever own g).1
        × (resp : RegisterSeverResp) × ((register_sever own g).0 ≡ ok resp)
        × (resp.leader_host ≡ host)
        × (resp.leader_id ≡ id)

-- The texts that a client has for the handler's error.
abbrev pub with_text :
    (SetLeaderError → Str) → Result SetLeaderError Str × Registry → Result Str Str × Registry
with_text text (err x, r) = (err (text x), r)
with_text text (ok host, r) = (ok host, r)

-- The registry knows its leader by host and id.
abbrev pub Leads : Str → ℤ → Registry → Type 0
Leads host id r = (host ≢ []) × (pos 0 <ℤ id) × (r.leader_host ≡ host) × (r.leader_id ≡ id)

pub register_sever-Leads :
    (remote host : Str) (id own : ℤ) (r : Registry)
    → Leads host id r
    → Leads host id (register_sever remote own r).1
      × ((register_sever remote own r).0.leader_host ≡ host)
      × ((register_sever remote own r).0.leader_id ≡ id)
unfolding register_sever
register_sever-Leads remote host id own r (n, p, h, i) =
    let k : ((register_sever remote own r).1.leader_host ≡ host)
        × ((register_sever remote own r).1.leader_id ≡ id) =
      ground (arith, p, h, i) in
    ((n, p, k.0, k.1), k.0, k.1)

-- The registry's handlers, called from `remote`.
abbrev pub called_from : RangeOrder → (SetLeaderError → Str) → Str → GatewayApi
called_from order text remote = record {
  State = Registry;
  register_sever = λ id r. (ok (register_sever remote id r).0, (register_sever remote id r).1);
  set_leader = λ r. with_text text (set_leader order remote r);
  Leads = Leads;
  leads_known = λ host id r h. (h.0, h.1);
  register-Leads = λ host id own r h.
      let k = register_sever-Leads remote host id own r h in
      (k.0, (register_sever remote own r).0, refl, k.1, k.2);
}
