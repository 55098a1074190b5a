-- ===== src/Gateway/Handler/History.antt =====
-- A store behind the gateway: histories of requests (ddbr-gateway/service/gateway_service.go with
-- ddbr-server/ service/kv_impl.go).
use ddbr.Common.{suc, ◌+◌, ◌<◌, ◌≡◌, refl, ap, ◌∙◌, List, [], ◌∷◌, Option, none, some, length}
use ddbr.Common.Eq.{Str}
use ddbr.Common.Int.{pos, two_63}
use ddbr.Common.Result.{Result, ok}
use ddbr.Kv.Command.{Unmarshal}
use ddbr.Kv.Machine
use ddbr.Kv.Machine.{or_nil}
use ddbr.Kv.Apply.{Write}
use ddbr.Replication.{PeerStep}
use ddbr.Service.{Node, GetResp, found}
use ddbr.Service.Settled
use ddbr.Service.Writes.{IsSettled, AreTaken, ArePlain, run, run_view, get-run}
use ddbr.Gateway.{RangeOrder}
use ddbr.Gateway.Handler.{System, get, Reply, got, GatewayError, serve}
use ddbr.Gateway.Handler.EndToEnd.{
  leader_at, Deployment, request_of, Reaches, after_call, after_call-Reaches, served-write,
  served-get, code,
}

-- A history of writes through the gateway, each with its schedule
unfoldable pub serve_writes :
    Unmarshal → RangeOrder → Str → List (List PeerStep × Write) → Deployment → Deployment
unfolding serve
serve_writes u order address [] w = w
serve_writes u order address ((ss, x) ∷ xs) w =
    serve_writes u order address xs
      (serve (leader_at u address ss) order none (request_of w.0.password x) w).1

serve_writes-run :
    (u : Unmarshal) (order : RangeOrder) (address : Str) (xs : List (List PeerStep × Write))
    (g : System Str) (n : Node)
    → Reaches address g
    → (g' : System Str) × (serve_writes u order address xs (g, n) ≡ (g', run u xs n))
      × Reaches address g'
unfolding serve_writes run
serve_writes-run u order address [] g n r = (g, refl, r)
serve_writes-run u order address ((ss, x) ∷ xs) g n r =
    let (g', e, r') =
      serve_writes-run u order address xs (after_call g) (Settled.handle u ss x n).1
        (after_call-Reaches address g r) in
    (g', ap (serve_writes u order address xs) (served-write u order address ss x g n r) ∙ e, r')

found-lem :
    (o : Option Str)
    → (let r : Result GatewayError Reply = ok (got (found o).value (code (found o).success)) in r)
      ≡ ok (got (or_nil o) (pos 0))
unfolding or_nil
found-lem none = refl
found-lem (some v) = refl

-- A gateway takes the server at an address for the leader, and its pooled clients are each for
-- their own address; the server there leads, its log counts from 1, is committed and is applied but
-- for at most its last entry. After any history of Sets and Deletes through the gateway, with its
-- password and with keys and values that hold no colon, each with any schedule of its replication
-- in which enough peers take it, or with no peers at all, a Get through it with the password
-- replies with code 0 and the value that the history of the map has for the key, or "(nil)". The
-- log stays shorter than 2^63 - 1 entries.
pub serve_writes-get :
    (u : Unmarshal) (order : RangeOrder) (address : Str) (xs : List (List PeerStep × Write))
    (g : System Str) (n : Node) (schedule : List PeerStep) (key : Str)
    → Reaches address g
    → IsSettled n
    → AreTaken n.raft.peers xs
    → ArePlain xs
    → suc (length n.raft.logs + length xs) < two_63
    → let w = serve_writes u order address xs (g, n) in
      (serve (leader_at u address schedule) order none (get key (some w.0.password)) w).0
      ≡ some (ok (got (or_nil (run_view xs (Machine.get n.kv) key)) (pos 0)))
serve_writes-get u order address xs g n schedule key r a t p b =
    let (g', e, r') = serve_writes-run u order address xs g n r in
    ap
      (λ (w : Deployment).
        (serve (leader_at u address schedule) order none (get key (some w.0.password)) w).0)
      e
    ∙ served-get u order address schedule key g' (run u xs n) r'
    ∙ ap (λ (x : GetResp). some (ok (got x.value (code x.success)))) (get-run u xs n key a t p b)
    ∙ ap some (found-lem (run_view xs (Machine.get n.kv) key))
