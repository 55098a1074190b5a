-- ===== src/Gateway/Handler/EndToEnd.antt =====
-- Sets, Deletes and Gets through the gateway to a leader (ddbr-gateway/service/gateway_service.go
-- with ddbr-server/service/kv_impl.go).
use ddbr.Common.{
  if-true, if-false, ◌≡◌, ◌≢◌, refl, sym, ap, ◌∙◌, Bool, true, false, not, List, [], Option, none,
  some, arith, if◌then◌else◌,
}
use ddbr.Common.Eq.{Str, bytes, str_Eq, ◌==◌, str_eq_iff}
use ddbr.Common.Int.{ℤ, pos}
use ddbr.Common.Dict.{Dict, lookup}
use ddbr.Common.Result.{Result, ok, err}
use ddbr.Kv.Command.{Unmarshal}
use ddbr.Kv.Apply.{Write, put, drop_key}
use ddbr.Replication.{PeerStep}
use ddbr.Service.{Node, WriteResp, GetResp, Handled, done}
use ddbr.Service
use ddbr.Service.Settled.{write_store}
use ddbr.Service.Settled
use ddbr.Gateway.{RangeOrder}
use ddbr.Gateway.Pool.{
  host_with_port, get_server_client, IsMade, ClientError, client_at, get_server_client-leader,
}
use ddbr.Gateway.Handler.{
  Servers, System, Request, set, get, delete, got, WriteReply, GetReply, Answer, serve, handle,
  password_field, must_call, write_reply, get_reply, check_password, password_invalid,
}

-- RespCode
abbrev pub code : Bool → ℤ
code true = pos 0
code false = pos 1

-- The reply of a handler as the client of its server has it; a panic of the handler is an error
-- there.
abbrev pub write_call : Option WriteResp × Node → Result Str WriteReply × Node
write_call (none, n) = (err (bytes "panic"), n)
write_call (some r, n) = (ok (record { resp_code = code r.success; message = r.message }), n)

abbrev pub get_call : GetResp → Node → Result Str GetReply × Node
get_call r n = (ok (record { value = r.value; resp_code = code r.success }), n)

-- One leader at an address; a client is an address, and a call of another one fails. The
-- schedule is that of the replication phase of a write.
abbrev pub leader_at : Unmarshal → Str → List PeerStep → Servers
leader_at u address schedule = record {
  Client = Str;
  State = Node;
  new_client = λ a. ok a;
  set = λ c key val n.
      if c == address
      then write_call (Service.set u schedule key val n)
      else (err (bytes "unreachable"), n);
  get = λ c key n.
      if c == address then get_call (Service.get key n) n else (err (bytes "unreachable"), n);
  delete = λ c key n.
      if c == address
      then write_call (Service.delete u schedule key n)
      else (err (bytes "unreachable"), n);
}

abbrev pub Deployment : Type 0
Deployment = System Str × Node

-- The request of a write, with the password
abbrev pub request_of : Str → Write → Request
request_of password (put k v) = set k v (some password)
request_of password (drop_key k) = delete k (some password)

-- The gateway takes the server at the address for the leader, and each of its clients is the one
-- for its address.
pub record Reaches (address : Str) (g : System Str) : Type 0 where
  pub has_leader : g.registry.leader_host ≢ []
  pub leads : host_with_port g.registry.leader_host ≡ address
  pub is_made : IsMade (λ a. ok a) g.pool

abbrev same_client : Str → Result Str Str
same_client a = ok a

client_at-made :
    (a : Str) (o : Option Str) (pool : Dict Str Str)
    → lookup a pool ≡ o
    → IsMade same_client pool
    → (client_at same_client a o pool).0 ≡ ok a
client_at-made a none pool e h = refl
client_at-made a (some c) pool e h = let q : a ≡ c = ground (arith, h a c e) in ap ok (sym q)

reach :
    (address : Str) (g : System Str)
    → Reaches address g
    → (get_server_client same_client g.registry.leader_host g.pool).0 ≡ ok address
unfolding get_server_client
reach address g r =
    let host = g.registry.leader_host in
    let a = host_with_port host in
    let got_client = client_at same_client a (lookup a g.pool) g.pool in
    ap (λ x. x.0)
      (if-false (host == []) (err ClientError.no_leader, g.pool) got_client
        (ground (arith, r.has_leader, str_eq_iff host [])))
    ∙ client_at-made a (lookup a g.pool) g.pool refl r.is_made
    ∙ ap ok r.leads

-- The gateway after a call of the leader
abbrev pub after_call : System Str → System Str
after_call g = record g { pool = (get_server_client same_client g.registry.leader_host g.pool).1 }

pub after_call-Reaches :
    (address : Str) (g : System Str) → Reaches address g → Reaches address (after_call g)
after_call-Reaches address g r = record {
  has_leader = r.has_leader;
  leads = r.leads;
  is_made = (get_server_client-leader same_client g.registry.leader_host g.pool r.is_made).0;
}

module _ (u : Unmarshal) (order : RangeOrder) (address : Str) (ss : List PeerStep) where
  abbrev pub here : Servers
  here = leader_at u address ss

  -- A request with the right password that calls the leader
  served-call :
      (req : Request) (call : Str → System Str → Node → Answer here order) (g : System Str)
      (n : Node)
      → Reaches address g
      → password_field req ≡ some (some g.password)
      → handle here order none req (g, n)
        ≡ must_call here order
            (get_server_client same_client g.registry.leader_host g.pool)
            call
            (g, n)
      → serve here order none req (g, n) ≡ call address (after_call g) n
  unfolding serve
  served-call req call g n r p h =
      let next = handle here order none req in
      let pool = (get_server_client same_client g.registry.leader_host g.pool).1 in
      ap (λ f. check_password here order f next (g, n)) p
      ∙ if-false (not (g.password == g.password)) (some (err password_invalid), (g, n))
          (next (g, n)) (ground (arith, str_eq_iff g.password g.password))
      ∙ h
      ∙ ap (λ c. must_call here order (c, pool) call (g, n)) (reach address g r)

  here-true : {A : Type 0} (x y : A) → (if address == address then x else y) ≡ x
  here-true x y = if-true (address == address) x y (ground (arith, str_eq_iff address address))

  write_call-node :
      (g : System Str) (h : Handled) → (write_reply here order g (write_call h)).1 ≡ (g, h.1)
  write_call-node g (none, n) = refl
  write_call-node g (some r, n) = refl

  pub served-write :
      (x : Write) (g : System Str) (n : Node)
      → Reaches address g
      → (serve here order none (request_of g.password x) (g, n)).1
        ≡ (after_call g, (Settled.handle u ss x n).1)
  unfolding handle
  served-write (put k v) g n r =
      ap (λ a. a.1)
        (served-call (set k v (some g.password))
          (λ c g' t. write_reply here order g' (here.set c k v t)) g n r refl refl)
      ∙ ap (λ a. (write_reply here order (after_call g) a).1)
          (here-true (write_call (Service.set u ss k v n)) (err (bytes "unreachable"), n))
      ∙ write_call-node (after_call g) (Service.set u ss k v n)
  served-write (drop_key k) g n r =
      ap (λ a. a.1)
        (served-call (delete k (some g.password))
          (λ c g' t. write_reply here order g' (here.delete c k t)) g n r refl refl)
      ∙ ap (λ a. (write_reply here order (after_call g) a).1)
          (here-true (write_call (Service.delete u ss k n)) (err (bytes "unreachable"), n))
      ∙ write_call-node (after_call g) (Service.delete u ss k n)

  pub served-get :
      (key : Str) (g : System Str) (n : Node)
      → Reaches address g
      → (serve here order none (get key (some g.password)) (g, n)).0
        ≡ some (ok (got (Service.get key n).value (code (Service.get key n).success)))
  unfolding handle
  served-get key g n r =
      ap (λ a. a.0)
        (served-call (get key (some g.password))
          (λ c g' t. get_reply here order g' (here.get c key t)) g n r refl refl)
      ∙ ap (λ a. (get_reply here order (after_call g) a).0)
          (here-true (get_call (Service.get key n) n) (err (bytes "unreachable"), n))
