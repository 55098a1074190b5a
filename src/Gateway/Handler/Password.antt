-- ===== src/Gateway/Handler/Password.antt =====
-- What the gateway's password protects (ddbr-gateway/service/middware/password_middware.go).
use ddbr.Common.{
  if-true, if-false, ◌≡◌, ◌≢◌, refl, sym, subst, ap, ◌∙◌, true, not, List, [], ◌∷◌, Option, none,
  some, arith, Bool-cases, inl, inr,
}
use ddbr.Common.Eq.{Str, str_Eq, ◌==◌, str_eq_iff}
use ddbr.Common.Result.{Result, ok, err}
use ddbr.Gateway.{RangeOrder}
use ddbr.Gateway.Pool.{ClientError, get_server_client}
use ddbr.Common.Dict.{Dict}
use ddbr.Gateway.{Registry, SetLeaderError}
use ddbr.Gateway
use ddbr.Gateway.Start.{Tells}
use ddbr.Gateway.Handler.{
  Servers, System, Request, set, get, delete, register_sever, set_leader, WriteReply, GetReply,
  must_call, write_reply, get_reply, lead_result, register_gateway, BasicInfo, register_gateway_at,
  Reply, basic_info, GatewayError, password_invalid, password_field, World, Answer, handle, serve,
  check_password,
}

module _ (servers : Servers) (order : RangeOrder) where
  abbrev IsRefused : World servers order → Answer servers order → Type 0
  IsRefused w (r, w') = (w' ≡ w) × ((reply : Reply) → r ≢ some (ok reply))

  refused :
      (f : Option Str) (w : World servers order) (next : World servers order → Answer servers order)
      → f ≢ some w.0.password
      → IsRefused w (check_password servers order (some f) next w)
  refused none w next n = (refl, λ reply e. absurd (ground arith))
  refused (some p) w next n =
      let b : not (p == w.0.password) ≡ true = ground (arith, n, str_eq_iff p w.0.password) in
      let e = if-true (not (p == w.0.password)) (some (err password_invalid), w) (next w) b in
      (ap (λ x. x.1) e, λ reply q. absurd (answered_error reply (sym (ap (λ x. x.0) e) ∙ q)))
    where
      answered_error :
          (reply : Reply)
          → (let x : Option (Result GatewayError Reply) = some (err password_invalid) in x)
            ≢ some (ok reply)
      answered_error reply q = ground (arith, q)

  -- A request whose type has a password field and that does not give the gateway's password, or
  -- gives none, changes nothing, neither the gateway nor the servers, and has no reply.
  pub serve-refused :
      (remote : Option Str) (req : Request) (w : World servers order) (f : Option Str)
      → password_field req ≡ some f
      → f ≢ some w.0.password
      → ((serve servers order remote req w).1 ≡ w)
        × ((reply : Reply) → (serve servers order remote req w).0 ≢ some (ok reply))
  unfolding serve
  serve-refused remote req w f e n =
      let k = refused f w (handle servers order remote req) n in
      subst (λ o. IsRefused w (check_password servers order o (handle servers order remote req) w))
        (sym e) k

  -- No request changes what the gateway tells and asks for.
  abbrev Keeps : World servers order → Answer servers order → Type 0
  Keeps w (r, w') = (w'.0.info ≡ w.0.info) × (w'.0.password ≡ w.0.password)

  called-Keeps :
      (r : Result ClientError servers.Client × Dict Str servers.Client)
      (call : servers.Client → System servers.Client → servers.State → Answer servers order)
      (w : World servers order)
      → ((c : servers.Client) (g : System servers.Client) → Keeps (g, w.1) (call c g w.1))
      → Keeps w (must_call servers order r call w)
  called-Keeps (err x, pool) call (g, s) h = (refl, refl)
  called-Keeps (ok c, pool) call (g, s) h = h c (record g { pool = pool })

  write-Keeps :
      (g : System servers.Client) (s : servers.State) (r : Result Str WriteReply × servers.State)
      → Keeps (g, s) (write_reply servers order g r)
  write-Keeps g s (err x, t) = (refl, refl)
  write-Keeps g s (ok x, t) = (refl, refl)

  get-Keeps :
      (g : System servers.Client) (s : servers.State) (r : Result Str GetReply × servers.State)
      → Keeps (g, s) (get_reply servers order g r)
  get-Keeps g s (err x, t) = (refl, refl)
  get-Keeps g s (ok x, t) = (refl, refl)

  lead-Keeps :
      (r : Result SetLeaderError Str × Registry) (w : World servers order)
      → Keeps w (lead_result servers order r w)
  lead-Keeps (err x, r) w = (refl, refl)
  lead-Keeps (ok master, r) w = (refl, refl)

  handle-Keeps :
      (remote : Option Str) (req : Request) (w : World servers order)
      → Keeps w (handle servers order remote req w)
  unfolding handle
  handle-Keeps remote (set key val p) (g, s) =
      called-Keeps (get_server_client servers.new_client g.registry.leader_host g.pool)
        (λ c g' t. write_reply servers order g' (servers.set c key val t)) (g, s)
        (λ c g'. write-Keeps g' s (servers.set c key val s))
  handle-Keeps remote (get key p) (g, s) =
      called-Keeps (get_server_client servers.new_client g.registry.leader_host g.pool)
        (λ c g' t. get_reply servers order g' (servers.get c key t)) (g, s)
        (λ c g'. get-Keeps g' s (servers.get c key s))
  handle-Keeps remote (delete key p) (g, s) =
      called-Keeps (get_server_client servers.new_client g.registry.leader_host g.pool)
        (λ c g' t. write_reply servers order g' (servers.delete c key t)) (g, s)
        (λ c g'. write-Keeps g' s (servers.delete c key s))
  handle-Keeps none (register_sever id) w = (refl, refl)
  handle-Keeps (some host) (register_sever id) w = (refl, refl)
  handle-Keeps none register_gateway w = (refl, refl)
  handle-Keeps (some host) register_gateway w = (refl, refl)
  handle-Keeps none set_leader w = (refl, refl)
  handle-Keeps (some host) set_leader (g, s) =
      lead-Keeps (Gateway.set_leader order host g.registry) (g, s)

  checked-Keeps :
      (f : Option (Option Str)) (next : World servers order → Answer servers order)
      (w : World servers order)
      → Keeps w (next w)
      → Keeps w (check_password servers order f next w)
  checked-Keeps none next w h = h
  checked-Keeps (some none) next w h = (refl, refl)
  checked-Keeps (some (some p)) next w h = elim (Bool-cases (not (p == w.0.password))) [
    | inl b ↦ rw b (refl, refl)
    | inr b ↦ rw b h
  ]

  serve-Tells :
      (remote : Option Str) (req : Request) (w : World servers order)
      → Tells w.0
      → Tells (serve servers order remote req w).1.0
  unfolding serve
  serve-Tells remote req w t =
      let k =
        checked-Keeps (password_field req) (handle servers order remote req) w
          (handle-Keeps remote req w) in
      ap (λ (x : BasicInfo). x.password) k.0 ∙ t ∙ ap some (sym k.1)

  -- A service of requests, each with its caller.
  unfoldable pub serve_all : List (Option Str × Request) → World servers order → World servers order
  unfolding serve
  serve_all [] w = w
  serve_all ((remote, req) ∷ reqs) w = serve_all reqs (serve servers order remote req w).1

  serve_all-Tells :
      (reqs : List (Option Str × Request)) (w : World servers order)
      → Tells w.0
      → Tells (serve_all reqs w).0
  unfolding serve_all
  serve_all-Tells [] w t = t
  serve_all-Tells ((remote, req) ∷ reqs) w t =
      serve_all-Tells reqs (serve servers order remote req w).1 (serve-Tells remote req w t)

  password_told :
      (host : Str) (remote : Option Str) (key val : Str) (w : World servers order)
      → Tells w.0
      → (i : BasicInfo) × (w' : World servers order) × (serve servers order
            (some host)
            register_gateway
            w
          ≡ (some (ok (basic_info i)), w'))
        × (serve servers order remote (set key val i.password) w'
            ≡ handle servers order remote (set key val i.password) w')
  unfolding serve
  password_told host remote key val w t =
      (w.0.info, (register_gateway_at servers order (some host) w).1, refl, let_in)
    where
      w' : World servers order
      w' = (register_gateway_at servers order (some host) w).1

      let_in :
          serve servers order remote (set key val w.0.info.password) w'
          ≡ handle servers order remote (set key val w.0.info.password) w'
      let_in =
          let own = w.0.password in
          let next = handle servers order remote (set key val w.0.info.password) in
          ap (λ o. check_password servers order (some o) next w') t
          ∙ if-false (not (own == own)) (some (err password_invalid), w') (next w')
              (ground (arith, str_eq_iff own own))

  -- After any requests, a gateway that started by telling the password it asks for gives that
  -- password to every caller of a known host who asks to be registered as a gateway, without one,
  -- and then handles that caller's Set with it.
  pub serve_all-password_told :
      (reqs : List (Option Str × Request)) (host : Str) (remote : Option Str) (key val : Str)
      (w : World servers order)
      → Tells w.0
      → (i : BasicInfo) × (w' : World servers order) × (serve servers order
            (some host)
            register_gateway
            (serve_all reqs w)
          ≡ (some (ok (basic_info i)), w'))
        × (serve servers order remote (set key val i.password) w'
            ≡ handle servers order remote (set key val i.password) w')
  serve_all-password_told reqs host remote key val w t =
      password_told host remote key val (serve_all reqs w) (serve_all-Tells reqs w t)
