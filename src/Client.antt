-- ===== src/Client.antt =====
-- The server's clients of other servers (ddbr-server/client/gateway_client.go): GetLeaderClient
-- with its cache.
pub mod Address
use ddbr.Common.{
  ◌≡◌, refl, sym, ap, ◌∙◌, Bool, true, false, ◌||◌, List, [], ◌∷◌, ◌++◌, Option, none, some,
  if◌then◌else◌, if-true, if-false, arith, Bool-cases, inl, inr,
}
use ddbr.Common.Eq.{Str, bytes, str_Eq, ◌==◌}
use ddbr.Common.Text.{has_prefix, contains}
use ddbr.Common.Dict.{Dict, lookup, insert}
use ddbr.Common.Result.{Result, ok, err}
use ddbr.Config.{Config, Global, text_or}

-- The address that a call is for. A configuration that is not loaded is a panic.
pub data Target : Type 0 where
  config_not_loaded : Target
  no_address : Target
  address : Str → Target

-- The host, or the master's, or the gateway's
abbrev pub host_or : Str → Config → Str
host_or leader_host c = text_or (text_or c.gateway_host c.master_addr) leader_host

-- The port of the configuration, or 8080, is put to a host that has none.
abbrev pub add_port : Str → Config → Str
add_port host c = host ++ bytes ":" ++ text_or (bytes "8080") c.port

abbrev pub with_port_of : Str → Global → Target
with_port_of host none = if contains host (bytes ":") then address host else config_not_loaded
with_port_of host (some c) = address (if contains host (bytes ":") then host else add_port host c)

abbrev pub target_or : Str → Global → Target
target_or leader_host none = config_not_loaded
target_or leader_host (some c) =
    let host = host_or leader_host c in
    if host == [] then no_address else with_port_of host (some c)

unfoldable pub target : Str → Global → Target
unfolding contains
target leader_host g =
    if leader_host == [] then target_or leader_host g else with_port_of leader_host g

-- The clients by address, and the answer: `none` for a panic, `some none` for nil
module _ {Client : Type 0} (new_client : Str → Result Str Client) where
  abbrev pub Given : Type 0
  Given = Option (Option Client) × Dict Str Client

  abbrev pub create_client : Str → Result Str Client → Dict Str Client → Given
  create_client host (err x) cache = (some none, cache)
  create_client host (ok c) cache = (some (some c), insert host c cache)

  abbrev pub cached_or : Str → Option Client → Dict Str Client → Given
  cached_or host (some c) cache = (some (some c), cache)
  cached_or host none cache = create_client host (new_client host) cache

  abbrev pub client_for : Target → Dict Str Client → Given
  client_for config_not_loaded cache = (none, cache)
  client_for no_address cache = (some none, cache)
  client_for (address host) cache = cached_or host (lookup host cache) cache

  -- GetLeaderClient
  unfoldable pub get_leader_client : Str → Global → Dict Str Client → Given
  unfolding target
  get_leader_client leader_host g cache = client_for (target leader_host g) cache

  -- ClearClientCache
  abbrev pub clear_client_cache : Dict Str Client → Dict Str Client
  clear_client_cache cache = []

-- One use of the cache
pub data Use : Type 0 where
  get_client : Str → Global → Use
  clear : Use

module _ {Client : Type 0} (new_client : Str → Result Str Client) where
  abbrev pub use_cache : Use → Dict Str Client → Dict Str Client
  use_cache (get_client host g) cache = (get_leader_client new_client host g cache).1
  use_cache clear cache = clear_client_cache new_client cache

  -- The cache after a history, the newest use first
  unfoldable pub cache_after : List Use → Dict Str Client
  unfolding get_leader_client
  cache_after [] = []
  cache_after (x ∷ xs) = use_cache x (cache_after xs)
