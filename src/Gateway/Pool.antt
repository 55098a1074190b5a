-- ===== src/Gateway/Pool.antt =====
-- The gateway's clients of the leader (ddbr-gateway/client/server_client.go).
use ddbr.Common.{
  ◌≡◌, refl, ap, ◌∙◌, sym, [], ◌++◌, Option, none, some, if◌then◌else◌, arith, Bool-cases, inl, inr,
}
use ddbr.Common.Eq.{Str, bytes, str_Eq, ◌==◌, str_eq_iff}
use ddbr.Common.Text.{contains}
use ddbr.Common.Dict.{Dict, lookup, insert, lookup-insert}
use ddbr.Common.Result.{Result, ok, err}

pub data ClientError : Type 0 where
  no_leader : ClientError
  empty_address : ClientError
  not_created : Str → ClientError

-- An address without a port gets the default one.
unfoldable pub host_with_port : Str → Str
unfolding contains
host_with_port host = if contains host (bytes ":") then host else host ++ bytes ":8080"

-- server.NewClient at an address, as a parameter
module _ {Client : Type 0} (new_client : Str → Result Str Client) where
  abbrev pub Got : Type 0
  Got = Result ClientError Client × Dict Str Client

  abbrev pub add_client : Str → Result Str Client → Dict Str Client → Got
  add_client address (err x) pool = (err (not_created x), pool)
  add_client address (ok c) pool = (ok c, insert address c pool)

  abbrev pub client_at : Str → Option Client → Dict Str Client → Got
  client_at address (some c) pool = (ok c, pool)
  client_at address none pool = add_client address (new_client address) pool

  -- GetServerClient
  unfoldable pub get_server_client : Str → Dict Str Client → Got
  unfolding host_with_port
  get_server_client leader_host pool =
      let address = host_with_port leader_host in
      if leader_host == []
      then (err no_leader, pool)
      else client_at address (lookup address pool) pool

  abbrev pub without_client : Got → Result ClientError (Unit {0}) × Dict Str Client
  without_client (err x, pool) = (err x, pool)
  without_client (ok c, pool) = (ok tt, pool)

  -- UpdateLeaderClient
  unfoldable pub update_leader_client :
      Str → Dict Str Client → Result ClientError (Unit {0}) × Dict Str Client
  unfolding host_with_port
  update_leader_client new_leader_host pool =
      let address = host_with_port new_leader_host in
      if new_leader_host == []
      then (err empty_address, pool)
      else without_client (client_at address (lookup address pool) pool)

  -- CleanClientPool
  abbrev pub clean_client_pool : Dict Str Client → Dict Str Client
  clean_client_pool pool = []

  -- Every pooled client was made for its address.
  abbrev pub IsMade : Dict Str Client → Type 0
  IsMade pool =
      (address : Str) (c : Client) → lookup address pool ≡ some c → new_client address ≡ ok c

  pub add_client-IsMade :
      (address : Str) (c : Client) (pool : Dict Str Client)
      → new_client address ≡ ok c
      → IsMade pool
      → IsMade (insert address c pool)
  add_client-IsMade address c pool e h a d g =
      let q = sym (lookup-insert address a c pool) ∙ g in
      elim (Bool-cases (address == a)) [
        | inl b ↦
            let same : address ≡ a = (str_eq_iff address a).0 b in
            let r : c ≡ d = ground (arith, q, b) in ap new_client (sym same) ∙ e ∙ ap ok r
        | inr b ↦ h a d (ground (arith, q, b))
      ]

  -- What a call for an address gives: a pool whose clients were made for their addresses, and a
  -- client for this one.
  IsFor : Str → Got → Type 0
  IsFor address (r, pool) = IsMade pool × ((c : Client) → r ≡ ok c → new_client address ≡ ok c)

  made-IsFor :
      (address : Str) (r : Result Str Client) (pool : Dict Str Client)
      → new_client address ≡ r
      → IsMade pool
      → IsFor address (add_client address r pool)
  unfolding IsFor
  made-IsFor address (err x) pool e h = (h, λ c g. absurd (ground arith))
  made-IsFor address (ok c) pool e h =
      (add_client-IsMade address c pool e h, λ d g. e ∙ ground (arith, g))

  client_at-IsFor :
      (address : Str) (o : Option Client) (pool : Dict Str Client)
      → lookup address pool ≡ o
      → IsMade pool
      → IsFor address (client_at address o pool)
  unfolding IsFor
  client_at-IsFor address (some c) pool e h = (h, λ d g. h address c e ∙ ground (arith, g))
  client_at-IsFor address none pool e h = made-IsFor address (new_client address) pool refl h

  -- From a pool whose clients were made for their addresses, GetServerClient gives a client only of
  -- the leader's address, whatever the leaders before were, and the pool is such a one again.
  pub get_server_client-leader :
      (leader_host : Str) (pool : Dict Str Client)
      → IsMade pool
      → IsMade (get_server_client leader_host pool).1
        × ((c : Client)
            → (get_server_client leader_host pool).0 ≡ ok c
            → new_client (host_with_port leader_host) ≡ ok c)
  unfolding get_server_client IsFor
  get_server_client-leader leader_host pool h =
      let address = host_with_port leader_host in
      let k = client_at-IsFor address (lookup address pool) pool refl h in
      elim (Bool-cases (leader_host == [])) [
        | inl b ↦ rw b (h, λ c g. absurd (ground arith))
        | inr b ↦ rw b k
      ]
