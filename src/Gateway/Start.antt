-- ===== src/Gateway/Start.antt =====
-- How the gateway starts (ddbr-gateway/main.go, ddbr-gateway/infra/cmd.go, ddbr-gateway/service/
-- cmd_service.go): its arguments, and the password that it makes or takes from the master gateway.
use ddbr.Common.{
  ◌≡◌, refl, ap, subst, Bool, true, false, not, List, [], ◌∷◌, Option, none, some, if◌then◌else◌,
  arith,
}
use ddbr.Common.Eq.{Str, bytes, str_Eq, ◌==◌}
use ddbr.Common.Dict.{Dict, insert, lookup}
use ddbr.Common.Result.{Result, ok, err}
use ddbr.Gateway.Handler.{System, BasicInfo}

pub record CmdConfig : Type 0 where
  pub master_gateway_host : Str
  pub port : Str

-- The arguments in pairs: none where one is left over. A later pair of a name replaces an earlier
-- one.
unfoldable pub config_map : List Str → Dict Str Str → Option (Dict Str Str)
config_map [] m = some m
config_map (k ∷ []) m = none
config_map (k ∷ v ∷ args) m = config_map args (insert k v m)

abbrev value_or_empty : Option Str → Str
value_or_empty none = []
value_or_empty (some v) = v

unfoldable pub parse : Dict Str Str → CmdConfig
parse m = record {
  master_gateway_host = value_or_empty (lookup (bytes "-gateway") m);
  port = value_or_empty (lookup (bytes "-port") m);
}

abbrev parse_map : Option (Dict Str Str) → Option CmdConfig
parse_map none = none
parse_map (some m) = some (parse m)

-- The variable `config` after ParseConfig: nil, as before it, where there is an error.
unfoldable pub parse_config : List Str → Option CmdConfig
unfolding config_map parse
parse_config args = parse_map (config_map args [])

pub data InitError : Type 0 where
  password_info_param : InitError
  master_failed : Str → InitError

abbrev pub Started : Type 0 → Type 0
Started Client = Result InitError (Unit {0}) × System Client

module _ {Client : Type 0} where
  -- InitGatewayInfo with its paramCheck
  abbrev init_checked : Option Str → BasicInfo → System Client → Started Client
  init_checked none info g = (err password_info_param, g)
  init_checked (some password) info g = (ok tt, record g { info = info })

  unfoldable pub init_gateway_info : BasicInfo → System Client → Started Client
  init_gateway_info info g = init_checked info.password info g

  -- SetPassword, reached only without an error
  abbrev take_password : Option Str → Started Client → Started Client
  take_password none s = s
  take_password (some password) (err x, g) = (err x, g)
  take_password (some password) (ok r, g) = (ok r, record g { password = password })

  -- GetGatewayInfoFromMaster, with the answer of the master's RegisterGateway
  unfoldable pub get_gateway_info_from_master :
      Result Str BasicInfo → System Client → Started Client
  unfolding init_gateway_info
  get_gateway_info_from_master (err x) g = (err (master_failed x), g)
  get_gateway_info_from_master (ok info) g = take_password info.password (init_gateway_info info g)

  -- CmdService; `none` is the panic of a nil configuration.
  unfoldable pub cmd_service :
      (Str → Result Str BasicInfo) → Option CmdConfig → System Client → Option (Started Client)
  unfolding init_gateway_info get_gateway_info_from_master
  cmd_service master none g = none
  cmd_service master (some config) g = some (
      if not (config.master_gateway_host == bytes "master")
      then get_gateway_info_from_master (master config.master_gateway_host) g
      else init_gateway_info (record { sever_host_sever = []; password = some g.password }) g)

  -- The gateway tells the password that it asks for.
  abbrev pub Tells : System Client → Type 0
  Tells g = g.info.password ≡ some g.password

  abbrev TellsIfOk : Started Client → Type 0
  TellsIfOk r = r.0 ≡ ok tt → Tells r.1

  taken-Tells :
      (info : BasicInfo) (p : Option Str) (g : System Client)
      → info.password ≡ p
      → TellsIfOk (take_password p (init_checked p info g))
  taken-Tells info none g e h = absurd (ground arith)
  taken-Tells info (some p) g e h = e

  master-Tells :
      (r : Result Str BasicInfo) (g : System Client) → TellsIfOk (get_gateway_info_from_master r g)
  unfolding get_gateway_info_from_master init_gateway_info
  master-Tells (err x) g h = absurd (ground arith)
  master-Tells (ok info) g h = taken-Tells info info.password g refl h

  if-Tells :
      (b : Bool) (x y : Started Client) → TellsIfOk x → TellsIfOk y → TellsIfOk (if b then x else y)
  if-Tells true x y h k = h
  if-Tells false x y h k = k

  started-Tells :
      (x : Started Client) (g' : System Client)
      → TellsIfOk x
      → (let o : Option (Started Client) = some x in o) ≡ some (ok tt, g')
      → Tells g'
  started-Tells (r, g) g' h e =
      let q : (let s : Started Client = (r, g) in s) ≡ (ok tt, g') = ground (arith, e) in
      subst Tells (ap (λ x. x.1) q) (h (ap (λ x. x.0) q))

  -- A gateway that starts without an error, as the master or with the password of the master
  -- gateway, tells the password that it asks for.
  pub cmd_service-Tells :
      (master : Str → Result Str BasicInfo) (args : List Str) (g g' : System Client)
      → cmd_service master (parse_config args) g ≡ some (ok tt, g')
      → Tells g'
  unfolding cmd_service init_gateway_info
  cmd_service-Tells master args g g' h = ends (parse_config args) h
    where
      ends : (o : Option CmdConfig) → cmd_service master o g ≡ some (ok tt, g') → Tells g'
      ends none e = absurd (ground arith)
      ends (some config) e =
          let b = not (config.master_gateway_host == bytes "master") in
          let own : BasicInfo = record { sever_host_sever = []; password = some g.password } in
          let taken = get_gateway_info_from_master (master config.master_gateway_host) g in
          let made = init_gateway_info own g in
          started-Tells (if b then taken else made) g'
            (if-Tells b taken made (master-Tells (master config.master_gateway_host) g) (λ h. refl))
            e
