-- ===== src/Config.antt =====
-- The configuration of a server (ddbr-server/configs/config.go): one global record, which a file
-- fills.
pub mod File
use ddbr.Common.{Bool, true, false, List, [], ◌∷◌, Option, none, some, if◌then◌else◌}
use ddbr.Common.Eq.{Str, bytes, ◌==◌, str_Eq, int_Eq}
use ddbr.Common.Int.{ℤ, pos}
use ddbr.Common.Result.{Result, ok, err}

pub record Config : Type 0 where
  pub node_id : Option ℤ
  pub cluster_id : ℤ
  pub peers : List Str
  pub port : Str
  pub gateway_host : Str
  pub is_master : Bool
  pub master_addr : Str
  pub election_timeout : ℤ
  pub heartbeat_period : ℤ
  pub data_dir : Str
  pub snapshot_count : ℤ
  pub log_level : Str
  pub log_dir : Str
  pub metrics_enabled : Bool

-- globalConfig: none before the first load. A call that needs it panics then, which is `none` too.
abbrev pub Global : Type 0
Global = Option Config

abbrev pub text_or : Str → Str → Str
text_or default s = if s == [] then default else s

abbrev pub number_or : ℤ → ℤ → ℤ
number_or default n = if n == pos 0 then default else n

abbrev pub id_or : ℤ → Option ℤ → Option ℤ
id_or fresh none = some fresh
id_or fresh (some id) = some id

-- The values that a file may leave out; `fresh` is a new random id.
unfoldable pub with_defaults : ℤ → Config → Config
with_defaults fresh c = record c {
  node_id = id_or fresh c.node_id;
  data_dir = text_or (bytes "data") c.data_dir;
  log_level = text_or (bytes "info") c.log_level;
  log_dir = text_or (bytes "logs") c.log_dir;
  election_timeout = number_or (pos 1000) c.election_timeout;
  heartbeat_period = number_or (pos 100) c.heartbeat_period;
  snapshot_count = number_or (pos 10000) c.snapshot_count;
}

pub data ConfigError : Type 0 where
  failed_to_read : ConfigError
  failed_to_parse : Str → ConfigError
  not_loaded : ConfigError
  failed_to_create_directory : ConfigError
  failed_to_write : ConfigError

-- json.Unmarshal and json.MarshalIndent of a configuration
abbrev pub UnmarshalConfig : Type 0
UnmarshalConfig = Str → Result Str Config

abbrev pub MarshalConfig : Type 0
MarshalConfig = Config → Str

abbrev pub use_parsed : ℤ → Result Str Config → Global → Result ConfigError (Unit {0}) × Global
use_parsed fresh (err x) g = (err (failed_to_parse x), g)
use_parsed fresh (ok c) g = (ok tt, some (with_defaults fresh c))

-- LoadConfig; the file is `none` where it cannot be read.
unfoldable pub load_config :
    UnmarshalConfig → ℤ → Option Str → Global → Result ConfigError (Unit {0}) × Global
load_config u fresh none g = (err failed_to_read, g)
load_config u fresh (some text) g = use_parsed fresh (u text) g

-- How the calls of SaveConfig on the file system end.
pub data SaveFile : Type 0 where
  no_directory : SaveFile
  not_written : Option Str → SaveFile
  saved : SaveFile

abbrev save_text : Str → SaveFile → Option Str → Result ConfigError (Unit {0}) × Option Str
save_text text no_directory file = (err failed_to_create_directory, file)
save_text text (not_written left) file = (err failed_to_write, left)
save_text text saved file = (ok tt, some text)

-- SaveConfig, with the file's content before and after
unfoldable pub save_config :
    MarshalConfig → SaveFile → Global → Option Str → Result ConfigError (Unit {0}) × Option Str
save_config m s none file = (err not_loaded, file)
save_config m s (some c) file = save_text (m c) s file

-- UpdatePeers, SetMasterAddr, SetNodeID and SetIsMaster
abbrev pub update_peers : List Str → Config → Config
update_peers peers c = record c { peers = peers }

abbrev pub set_master_addr : Str → Config → Config
set_master_addr addr c = record c { master_addr = addr }

abbrev pub set_node_id : ℤ → Config → Config
set_node_id id c = record c { node_id = some id }

abbrev pub set_is_master : Bool → Config → Config
set_is_master is_master c = record c { is_master = is_master }

abbrev pub change : (Config → Config) → Global → Option Global
change f none = none
change f (some c) = some (some (f c))

-- GetNodeID
abbrev pub get_node_id : Config → ℤ
get_node_id c = id_of c.node_id
  where
    id_of : Option ℤ → ℤ
    id_of none = pos 0
    id_of (some id) = id
