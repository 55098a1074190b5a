-- ===== src/Gateway/Handler.antt =====
-- The gateway's service (ddbr-gateway/handler.go, ddbr-gateway/service/gateway_service.go) behind
-- its password (ddbr-gateway/service/middware/password_middware.go).
pub mod Password
pub mod EndToEnd
pub mod History
use ddbr.Common.{Bool, true, false, not, List, [], ◌∷◌, Option, none, some, if◌then◌else◌}
use ddbr.Common.Eq.{Str, bytes, str_Eq, ◌==◌}
use ddbr.Common.Int.{ℤ, pos}
use ddbr.Common.Dict.{Dict}
use ddbr.Common.Result.{Result, ok, err}
use ddbr.Hosts.{add_host}
use ddbr.Service.{Message}
use ddbr.Gateway.{Registry, RegisterSeverResp, RangeOrder, SetLeaderError, leader_exists}
use ddbr.Gateway
use ddbr.Gateway.Pool.{ClientError, get_server_client}

-- The replies of a server, and its calls by a client; an error is the RPC's.
pub record WriteReply : Type 0 where
  pub resp_code : ℤ
  pub message : Message

pub record GetReply : Type 0 where
  pub value : Str
  pub resp_code : ℤ

pub record Servers : Type 1 where
  pub Client : Type 0
  pub State : Type 0
  pub new_client : Str → Result Str Client
  pub set : Client → Str → Str → State → Result Str WriteReply × State
  pub get : Client → Str → State → Result Str GetReply × State
  pub delete : Client → Str → State → Result Str WriteReply × State

-- GatewayBasicInfo; a Password is none for a nil pointer.
pub record BasicInfo : Type 0 where
  pub sever_host_sever : List Str
  pub password : Option Str

-- The gateway's variables; the set of gateway hosts is a list without repetition.
pub record System (Client : Type 0) : Type 0 where
  pub registry : Registry
  pub pool : Dict Str Client
  pub info : BasicInfo
  pub password : Str
  pub gateway_host : List Str

pub data Request : Type 0 where
  set : Str → Str → Option Str → Request
  get : Str → Option Str → Request
  delete : Str → Option Str → Request
  register_sever : ℤ → Request
  register_gateway : Request
  set_leader : Request

pub data Reply : Type 0 where
  written : ℤ → Message → Reply
  got : Str → ℤ → Reply
  registered : RegisterSeverResp → Reply
  basic_info : BasicInfo → Reply
  leader_set : Str → Reply

pub data GatewayError : Type 0 where
  password_invalid : GatewayError
  caller_unknown : GatewayError
  rpc_failed : Str → GatewayError
  not_set : SetLeaderError → GatewayError

-- The field Password of a request: none where its type has no such field.
abbrev pub password_field : Request → Option (Option Str)
password_field (set key val password) = some password
password_field (get key password) = some password
password_field (delete key password) = some password
password_field (register_sever node_id) = none
password_field register_gateway = none
password_field set_leader = none

module _ (servers : Servers) (order : RangeOrder) where
  -- The gateway with the servers
  abbrev pub World : Type 0
  World = System servers.Client × servers.State

  -- The result of a request; `none` is a panic.
  abbrev pub Answer : Type 0
  Answer = Option (Result GatewayError Reply) × World

  abbrev pub with_registry : Registry → World → World
  with_registry r (g, s) = (record g { registry = r }, s)

  abbrev pub write_reply : System servers.Client → Result Str WriteReply × servers.State → Answer
  write_reply g (err x, s) = (some (err (rpc_failed x)), (g, s))
  write_reply g (ok r, s) = (some (ok (written r.resp_code r.message)), (g, s))

  abbrev pub get_reply : System servers.Client → Result Str GetReply × servers.State → Answer
  get_reply g (err x, s) = (some (err (rpc_failed x)), (g, s))
  get_reply g (ok r, s) = (some (ok (got r.value r.resp_code)), (g, s))

  -- MustGetServerClient, and the call with its client
  abbrev pub must_call :
      Result ClientError servers.Client × Dict Str servers.Client
      → (servers.Client → System servers.Client → servers.State → Answer)
      → World
      → Answer
  must_call (err x, pool) call (g, s) = (none, (record g { pool = pool }, s))
  must_call (ok c, pool) call (g, s) = call c (record g { pool = pool }) s

  abbrev pub call_leader :
      (servers.Client → System servers.Client → servers.State → Answer) → World → Answer
  call_leader call (g, s) =
      must_call (get_server_client servers.new_client g.registry.leader_host g.pool) call (g, s)

  abbrev pub register_at : Option Str → ℤ → World → Answer
  register_at none node_id w = (some (err caller_unknown), w)
  register_at (some host) node_id (g, s) =
      let (resp, r) = Gateway.register_sever host node_id g.registry in
      (some (ok (registered resp)), with_registry r (g, s))

  abbrev pub lead_result : Result SetLeaderError Str × Registry → World → Answer
  lead_result (err x, r) w = (some (err (not_set x)), with_registry r w)
  lead_result (ok master, r) w = (some (ok (leader_set master)), with_registry r w)

  abbrev pub lead_at : Option Str → World → Answer
  lead_at none w = (some (err caller_unknown), w)
  lead_at (some host) (g, s) = lead_result (Gateway.set_leader order host g.registry) (g, s)

  -- RegisterGatewayService
  abbrev pub register_gateway_at : Option Str → World → Answer
  register_gateway_at none w = (some (err caller_unknown), w)
  register_gateway_at (some host) (g, s) =
      (some (ok (basic_info g.info)), (record g { gateway_host = add_host host g.gateway_host }, s))

  -- The handlers of GatewayImpl; `remote` is the caller's host, none where it is not known.
  unfoldable pub handle : Option Str → Request → World → Answer
  unfolding get_server_client
  handle remote (set key val password) w =
      call_leader (λ c g s. write_reply g (servers.set c key val s)) w
  handle remote (get key password) w = call_leader (λ c g s. get_reply g (servers.get c key s)) w
  handle remote (delete key password) w =
      call_leader (λ c g s. write_reply g (servers.delete c key s)) w
  handle remote (register_sever node_id) w = register_at remote node_id w
  handle remote register_gateway w = register_gateway_at remote w
  handle remote set_leader w = lead_at remote w

  -- AuthorityMiddleware: the text of a nil password is read, which is a panic.
  abbrev pub check_password : Option (Option Str) → (World → Answer) → World → Answer
  check_password none next w = next w
  check_password (some none) next w = (none, w)
  check_password (some (some password)) next w =
      if not (password == w.0.password) then (some (err password_invalid), w) else next w

  unfoldable pub serve : Option Str → Request → World → Answer
  unfolding handle
  serve remote req w = check_password (password_field req) (handle remote req) w
