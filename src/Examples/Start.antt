-- ===== src/Examples/Start.antt =====
-- Examples for the configuration and the start of a server (ddbr-server/configs/config.go,
-- ddbr-server/infra/ init_manager.go).
use ddbr.Common.{◌≡◌, refl, true, false, [], ◌∷◌, none, some, arith}
use ddbr.Common.Eq.{Str, bytes, str_Eq}
use ddbr.Common.Int.{pos}
use ddbr.Common.Result.{Result, ok, err}
use ddbr.Config.{Config, UnmarshalConfig, MarshalConfig, with_defaults, load_config, set_is_master}
use ddbr.Config.File.{saved_file, load_config-save_config}
use ddbr.Kv.Machine
use ddbr.RaftState
use ddbr.Recovery.{UnmarshalState}
use ddbr.Sync.{LeaderClient, sync_logs_with_leader}
use ddbr.Gateway
use ddbr.Gateway.{Registry, RangeOrder, SetLeaderError}
use ddbr.Gateway.Api.{called_from, Leads}
use ddbr.Start.{Server, Files}
use ddbr.Start.Join.{JoinClient, initialize_resources}
use ddbr.Start.Role.{initialize_resources-demoted, IsFollower, initialize_resources-IsFollower}
use ddbr.Start.First.{initialize_resources-first_master}
use ddbr.Examples.Kv.{no_json}
use ddbr.Client.{address, target, get_client, get_leader_client, cache_after}
use ddbr.Client.Address.{get_leader_client-target}
use ddbr.Common.Text.{contains}

abbrev config : Config
config = record {
  node_id = some (pos 5);
  cluster_id = pos 1;
  peers = [];
  port = bytes "8080";
  gateway_host = bytes "g:8888";
  is_master = false;
  master_addr = [];
  election_timeout = pos 0;
  heartbeat_period = pos 100;
  data_dir = [];
  snapshot_count = pos 10;
  log_level = [];
  log_dir = [];
  metrics_enabled = false;
}

-- Any text is read as this configuration.
abbrev reads_back : Config → UnmarshalConfig
reads_back c s = ok c

abbrev no_state : UnmarshalState
no_state s = err (bytes "no state")

abbrev files : Files
files = record { config_file = some (bytes "{}"); made = true; readable = true }

abbrev server : Server
server = record {
  config = none;
  raft = RaftState.new;
  kv = Machine.new;
  file = none;
  is_init = false;
  data_path = bytes "data";
  has_joined_cluster = false;
}

abbrev in_order : RangeOrder
in_order nodes = nodes

abbrev error_text : SetLeaderError → Str
error_text x = bytes "leader already exists"

abbrev led : Registry
led = record Gateway.new {
  sever_list = bytes "h" ∷ [];
  node_map = (pos 5, bytes "h") ∷ [];
  leader_host = bytes "h";
  leader_id = pos 5;
}

abbrev joins : JoinClient
joins host = some (ok tt)

abbrev no_client : LeaderClient
no_client host = none

is_led : Leads (bytes "h") (pos 5) led
is_led = ((λ e. ground arith), omega arith, refl, refl)

initialize_resources-IsFollower_example :
    IsFollower (called_from in_order error_text (bytes "k")) (bytes "h") (pos 5) true (
      initialize_resources
        (called_from in_order error_text (bytes "k"))
        no_json
        no_state
        (reads_back config)
        (pos 9)
        files
        joins
        (bytes "c.json")
        true
        server
        led)
initialize_resources-IsFollower_example =
    initialize_resources-IsFollower (called_from in_order error_text (bytes "k")) no_json no_state
      (reads_back config) (pos 9) files joins (bytes "c.json") true server led (bytes "{}") config
      (bytes "h") (pos 5) (λ e. ground arith) refl refl refl refl is_led refl

initialize_resources-first_master_example :
    let api = called_from in_order error_text (bytes "h") in
    (t : Server) × (g : Registry) × (initialize_resources api no_json no_state
        (reads_back config)
        (pos 9)
        files
        joins
        (bytes "c.json")
        true
        server
        Gateway.new
      ≡ some (ok tt, t, g, none))
    × (t.config ≡ some (set_is_master true (with_defaults (pos 9) config)))
    × Leads (bytes "h") (pos 5) g
initialize_resources-first_master_example =
    initialize_resources-first_master no_json no_state (reads_back config) (pos 9) files joins
      (bytes "c.json") server (bytes "{}") config in_order error_text (bytes "h") (pos 5)
      (λ e. ground arith) refl refl refl refl (λ e. ground arith) (omega arith) refl refl

initialize_resources-demoted_example :
    let api = called_from in_order error_text (bytes "k") in
    (t : Server) × (g : Registry) × (initialize_resources api no_json no_state
        (reads_back config)
        (pos 9)
        files
        joins
        (bytes "c.json")
        true
        server
        led
      ≡ some (ok tt, t, g, some (pos 5)))
    × (sync_logs_with_leader no_json no_client (err []) [] [] (pos 5) (t.raft, t.kv)
        ≡ (ok false, (t.raft, t.kv)))
initialize_resources-demoted_example =
    initialize_resources-demoted (called_from in_order error_text (bytes "k")) no_json no_state
      (reads_back config) (pos 9) files joins (bytes "c.json") server led (bytes "{}") config
      (bytes "h") (pos 5) no_client (err []) [] [] (λ e. ground arith) refl refl refl refl is_led
      refl

abbrev one_text : MarshalConfig
one_text c = bytes "{}"

load_config-save_config_example :
    load_config
      (reads_back (with_defaults (pos 9) config))
      (pos 3)
      (saved_file one_text (with_defaults (pos 9) config) none)
      none
    ≡ (ok tt, some (with_defaults (pos 9) config))
load_config-save_config_example =
    load_config-save_config (reads_back (with_defaults (pos 9) config)) one_text (pos 9) (pos 3)
      config none none refl

abbrev connects : Str → Result Str Str
connects host = ok host

-- A second call for a host without a port
get_leader_client-target_example :
    (a : Str) × (target (bytes "h") (some config) ≡ address a)
    × (contains a (bytes ":") ≡ true)
    × (connects a ≡ ok (bytes "h:8080"))
unfolding get_leader_client cache_after ddbr.Common.Eq.str_eq ddbr.Common.Dict.lookup
    ddbr.Common.Dict.insert
get_leader_client-target_example =
    get_leader_client-target connects (get_client (bytes "h") (some config) ∷ []) (bytes "h")
      (some config) (bytes "h:8080") refl
