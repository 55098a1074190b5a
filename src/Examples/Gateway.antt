-- ===== src/Examples/Gateway.antt =====
-- Examples for the gateway's clients, password and forwarding (ddbr-gateway).
use ddbr.Common.{◌≡◌, ◌≢◌, refl, Bool, true, false, List, [], ◌∷◌, Option, none, some, arith}
use ddbr.Common.Eq.{Str, bytes, str_Eq}
use ddbr.Common.Int.{pos}
use ddbr.Common.Result.{Result, ok, err}
use ddbr.Common.Text.{occurrences}
use ddbr.Common.Dict.{lookup}
use ddbr.Kv.Machine.{or_nil}
use ddbr.Service.{Node}
use ddbr.Gateway
use ddbr.Gateway.{RangeOrder}
use ddbr.Gateway.Pool.{host_with_port}
use ddbr.Gateway.Handler.{
  System, BasicInfo, Reply, set, register_gateway, basic_info, got, get, serve, handle,
}
use ddbr.Gateway.Handler.Password.{serve-refused, serve_all, serve_all-password_told}
use ddbr.Gateway.Handler.EndToEnd.{leader_at, Reaches}
use ddbr.Gateway.Handler.History.{serve_writes, serve_writes-get}
use ddbr.Examples.Kv.{no_json}
use ddbr.Examples.Service.{started, started-Settled, history, taken}

abbrev in_order : RangeOrder
in_order nodes = nodes

abbrev made : Str → Result Str Str
made a = ok a

abbrev gateway : System Str
gateway = record {
  registry = record Gateway.new { leader_host = bytes "h:1"; leader_id = pos 5 };
  pool = [];
  info = record { sever_host_sever = []; password = some (bytes "42") };
  password = bytes "42";
  gateway_host = [];
}

abbrev no_master : Str → Result Str BasicInfo
no_master host = err (bytes "connection refused")

serve-refused_example :
    let w : System Str × Node = (gateway, started) in
    let servers = leader_at no_json (bytes "h:1") [] in
    let req = set (bytes "a") (bytes "1") (some (bytes "43")) in
    ((serve servers in_order none req w).1 ≡ w)
    × ((reply : Reply) → (serve servers in_order none req w).0 ≢ some (ok reply))
serve-refused_example =
    serve-refused (leader_at no_json (bytes "h:1") []) in_order none
      (set (bytes "a") (bytes "1") (some (bytes "43"))) (gateway, started) (some (bytes "43")) refl
      (λ e. ground arith)

serve_all-password_told_example :
    let servers = leader_at no_json (bytes "h:1") [] in
    (i : BasicInfo) × (w' : System Str × Node) × (serve servers in_order
        (some (bytes "k"))
        register_gateway
        (serve_all servers in_order [] (gateway, started))
      ≡ (some (ok (basic_info i)), w'))
    × (serve servers in_order none (set (bytes "a") (bytes "1") i.password) w'
        ≡ handle servers in_order none (set (bytes "a") (bytes "1") i.password) w')
serve_all-password_told_example =
    serve_all-password_told (leader_at no_json (bytes "h:1") []) in_order [] (bytes "k") none
      (bytes "a") (bytes "1") (gateway, started) refl

gateway-Reaches : Reaches (bytes "h:1") gateway
unfolding host_with_port ddbr.Common.Text.contains lookup
gateway-Reaches = record {
  has_leader = λ e. ground arith;
  leads = refl;
  is_made = λ a c e. absurd (ground arith);
}

serve_writes-get_example :
    let w = serve_writes no_json in_order (bytes "h:1") history (gateway, started) in
    (serve
      (leader_at no_json (bytes "h:1") [])
      in_order
      none
      (get (bytes "a") (some w.0.password))
      w).0
    ≡ some (ok (got (bytes "(nil)") (pos 0)))
unfolding or_nil occurrences ddbr.Common.Eq.str_eq
serve_writes-get_example =
    serve_writes-get no_json in_order (bytes "h:1") history gateway started [] (bytes "a")
      gateway-Reaches (0, started-Settled) taken ((refl, refl), (refl, tt)) (omega arith)
