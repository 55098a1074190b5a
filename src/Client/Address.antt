-- ===== src/Client/Address.antt =====
-- Which address a server's client is for (ddbr-server/client/gateway_client.go).
use ddbr.Common.{
  ◌≡◌, refl, sym, ap, ◌∙◌, true, List, [], ◌∷◌, ◌++◌, Option, none, some, arith, Bool-cases, inl,
  inr,
}
use ddbr.Common.Eq.{Str, bytes, str_Eq, ◌==◌}
use ddbr.Common.Text.{has_prefix, contains}
use ddbr.Common.Dict.{Dict, lookup}
use ddbr.Common.Result.{Result, ok, err}
use ddbr.Config.{Global, text_or}
use ddbr.Gateway.Pool.{IsMade, add_client-IsMade}
use ddbr.Client.{
  Target, config_not_loaded, no_address, address, host_or, add_port, with_port_of, target_or,
  target, Given, create_client, cached_or, client_for, get_leader_client, Use, get_client, clear,
  cache_after,
}

contains-append : (xs ys : Str) → contains (xs ++ bytes ":" ++ ys) (bytes ":") ≡ true
unfolding contains has_prefix
contains-append [] ys = refl
contains-append (x ∷ xs) ys = rw (contains-append xs ys) (ground arith)

-- An address has a port.
abbrev HasPort : Target → Type 0
HasPort t = (host : Str) → t ≡ address host → contains host (bytes ":") ≡ true

address_eq : (a b : Str) → address a ≡ address b → a ≡ b
address_eq a b e = ground (arith, e)

with_port_of-HasPort : (host : Str) (g : Global) → HasPort (with_port_of host g)
with_port_of-HasPort host none = elim (Bool-cases (contains host (bytes ":"))) [
  | inl b ↦ rw b (λ a e. ap (λ s. contains s (bytes ":")) (sym (address_eq host a e)) ∙ b)
  | inr b ↦ rw b (λ a e. absurd (ground (arith, e)))
]
with_port_of-HasPort host (some c) = elim (Bool-cases (contains host (bytes ":"))) [
  | inl b ↦ rw b (λ a e. ap (λ s. contains s (bytes ":")) (sym (address_eq host a e)) ∙ b)
  | inr b ↦ rw b (λ a e.
      ap (λ s. contains s (bytes ":")) (sym (address_eq (add_port host c) a e))
      ∙ contains-append host (text_or (bytes "8080") c.port))
]

target_or-HasPort : (leader_host : Str) (g : Global) → HasPort (target_or leader_host g)
target_or-HasPort leader_host none = λ a e. absurd (ground (arith, e))
target_or-HasPort leader_host (some c) = elim (Bool-cases (host_or leader_host c == [])) [
  | inl b ↦ rw b (λ a e. absurd (ground (arith, e)))
  | inr b ↦ rw b (with_port_of-HasPort (host_or leader_host c) (some c))
]

target-HasPort : (leader_host : Str) (g : Global) → HasPort (target leader_host g)
unfolding target
target-HasPort leader_host g = elim (Bool-cases (leader_host == [])) [
  | inl b ↦ rw b (target_or-HasPort leader_host g)
  | inr b ↦ rw b (with_port_of-HasPort leader_host g)
]

module _ {Client : Type 0} (new_client : Str → Result Str Client) where
  -- A cache of clients for their addresses, and an answer that is a client for the target at most
  abbrev Serves : Target → Given new_client → Type 0
  Serves t (r, cache) =
      IsMade new_client cache
      × ((c : Client) → r ≡ some (some c) → (a : Str) × (t ≡ address a) × (new_client a ≡ ok c))

  create_client-Serves :
      (host : Str) (r : Result Str Client) (cache : Dict Str Client)
      → new_client host ≡ r
      → IsMade new_client cache
      → Serves (address host) (create_client new_client host r cache)
  create_client-Serves host (err x) cache e h = (h, λ c q. absurd (ground (arith, q)))
  create_client-Serves host (ok d) cache e h =
      (add_client-IsMade new_client host d cache e h, λ c q. (host, refl, e ∙ ground (arith, q)))

  cached_or-Serves :
      (host : Str) (o : Option Client) (cache : Dict Str Client)
      → lookup host cache ≡ o
      → IsMade new_client cache
      → Serves (address host) (cached_or new_client host o cache)
  cached_or-Serves host (some d) cache e h =
      (h, λ c q. (host, refl, h host d e ∙ ground (arith, q)))
  cached_or-Serves host none cache e h = create_client-Serves host (new_client host) cache refl h

  client_for-Serves :
      (t : Target) (cache : Dict Str Client)
      → IsMade new_client cache
      → Serves t (client_for new_client t cache)
  client_for-Serves config_not_loaded cache h = (h, λ c q. absurd (ground (arith, q)))
  client_for-Serves no_address cache h = (h, λ c q. absurd (ground (arith, q)))
  client_for-Serves (address host) cache h = cached_or-Serves host (lookup host cache) cache refl h

  empty-IsMade : IsMade new_client []
  unfolding lookup
  empty-IsMade a c e = absurd (ground (arith, e))

  cache_after-IsMade : (xs : List Use) → IsMade new_client (cache_after new_client xs)
  unfolding cache_after
  cache_after-IsMade [] = empty-IsMade
  cache_after-IsMade (get_client host g ∷ xs) =
      (client_for-Serves (target host g) (cache_after new_client xs) (cache_after-IsMade xs)).0
  cache_after-IsMade (clear ∷ xs) = empty-IsMade

  -- After any history of GetLeaderClient and ClearClientCache, under any configurations: a client
  -- that GetLeaderClient gives is one that server.NewClient made for the target of this call, an
  -- address with a port.
  pub get_leader_client-target :
      (xs : List Use) (leader_host : Str) (g : Global) (c : Client)
      → (get_leader_client new_client leader_host g (cache_after new_client xs)).0 ≡ some (some c)
      → (a : Str) × (target leader_host g ≡ address a)
        × (contains a (bytes ":") ≡ true)
        × (new_client a ≡ ok c)
  unfolding get_leader_client
  get_leader_client-target xs leader_host g c e =
      let made =
        client_for-Serves (target leader_host g) (cache_after new_client xs)
          (cache_after-IsMade xs) in
      let (a, t, n) = made.1 c e in (a, t, target-HasPort leader_host g a t, n)
